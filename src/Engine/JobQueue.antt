-- ===== src/Engine/JobQueue.antt =====
-- The job queue of native/quickjs/quickjs.c: `JS_EnqueueJob`, `JS_IsJobPending`,
-- `JS_ExecutePendingJob`.
pub mod Order
use quickjs_runtime.Prelude.{
  ℕ, Bool, true, false, not, ◌==◌, if◌then◌else◌, Option, none, some, List, [], ◌∷◌, length,
}
use quickjs_runtime.Prelude.Int.{ℤ, pos, negsuc}
use quickjs_runtime.Cutils.LinkedList.{Heap, list_add_tail, list_del, list_empty}

pub record JobEntry (Value : Type 0) : Type 0 where
  pub context : ℕ
  pub job_func : ℕ
  pub argv : List Value

-- What the queue uses of a runtime: the links of the job list, the blocks of the jobs by their
-- address, and the rest.
pub record Runtime (World Value : Type 0) : Type 0 where
  pub links : Heap
  pub entries : ℕ → JobEntry Value
  pub world : World

-- The engine's calls. `js_malloc` asks for a block with room for a number of arguments; `call` runs a job function: it may change all of the runtime.
pub record Calls (World Value : Type 0) : Type 0 where
  pub js_malloc : ℕ → World → Option ℕ × World
  pub js_free : ℕ → World → World
  pub dup_value : Value → World → World
  pub free_value : Value → World → World
  pub is_exception : Value → Bool
  pub call : JobEntry Value → Runtime World Value → Value × Runtime World Value

unfoldable pub write_entry :
    {Value : Type 0} → (ℕ → JobEntry Value) → ℕ → JobEntry Value → ℕ → JobEntry Value
write_entry entries at e x = if x == at then e else entries x

unfoldable pub each : {Value World : Type 0} → (Value → World → World) → List Value → World → World
each f [] w = w
each f (v ∷ vs) w = each f vs (f v w)

-- `job_list` is the address of the list's head in the runtime, a context is an address, 0 for NULL.
module _ {World Value : Type 0} (engine : Calls World Value) (job_list : ℕ) where
  -- The block that was asked for is filled and joins the list; without one nothing happens.
  unfoldable pub link_job :
      JobEntry Value → Runtime World Value → Option ℕ × World → ℤ × Runtime World Value
  link_job job rt (none, w) = (negsuc 0, record rt { world = w })
  link_job job rt (some e, w) = (
    pos 0,
    record rt {
      links = list_add_tail e job_list rt.links;
      entries = write_entry rt.entries e job;
      world = each engine.dup_value job.argv w;
    },
  )

  unfoldable pub js_enqueue_job : JobEntry Value → Runtime World Value → ℤ × Runtime World Value
  js_enqueue_job job rt = link_job job rt (engine.js_malloc (length job.argv) rt.world)

  unfoldable pub js_is_job_pending : Runtime World Value → Bool
  js_is_job_pending rt = not (list_empty job_list rt.links)

  -- After the job: its arguments, its result and its block are freed.
  unfoldable pub finish_job : ℕ → ℕ → Value × Runtime World Value → ℤ × ℕ × Runtime World Value
  finish_job e context (res, rt) =
      let w = each engine.free_value (rt.entries e).argv rt.world in
      (
        if engine.is_exception res then negsuc 0 else pos 1,
        context,
        record rt { world = engine.js_free e (engine.free_value res w) },
      )

  -- The job's function is called when the job is no longer in the list.
  unfoldable pub run_job : ℕ → Runtime World Value → ℤ × ℕ × Runtime World Value
  run_job e rt =
      let rt' = record rt { links = list_del e rt.links } in
      finish_job e (rt'.entries e).context (engine.call (rt'.entries e) rt')

  unfoldable pub js_execute_pending_job : Runtime World Value → ℤ × ℕ × Runtime World Value
  js_execute_pending_job rt =
      if list_empty job_list rt.links then (pos 0, 0, rt) else run_job (rt.links.next job_list) rt
