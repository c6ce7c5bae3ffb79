-- ===== src/Engine/JobQueue/Order.antt =====
-- The job queue is a first-in, first-out list of jobs.
use quickjs_runtime.Prelude.{
  ℕ, true, false, if◌then◌else◌, Option, none, some, List, [], ◌∷◌, ◌++◌, map, ◌≡◌, refl, ap, ◌∙◌,
  ◌⊎◌, inl, inr, ==_iff, length,
}
use quickjs_runtime.Prelude.Int.{ℤ, pos, negsuc}
use quickjs_runtime.Cutils.LinkedList.{list_del}
use quickjs_runtime.Cutils.LinkedList.Ring.{Apart, IsRing, list_empty_lem, apart_sym}
use quickjs_runtime.Cutils.LinkedList.Insert.{list_add_tail-IsRing}
use quickjs_runtime.Cutils.LinkedList.Remove.{list_del-IsRing}
use quickjs_runtime.Engine.JobQueue.{
  JobEntry, Runtime, Calls, write_entry, each, link_job, js_enqueue_job, js_is_job_pending,
  finish_job, run_job, js_execute_pending_job,
}

-- The runtime holds the jobs `jobs`, in this order, at the addresses `at`.
pub record IsQueue {World Value : Type 0} (job_list : ℕ) (rt : Runtime World Value) (at : List ℕ)
    (jobs : List (JobEntry Value)) : Type 0 where
  pub ring : IsRing rt.links job_list at
  pub held : map rt.entries at ≡ jobs

-- The worlds that a call for every value leads to, from the first value on.
pub data Done {World Value : Type 0} (f : Value → World → World)
    : List Value → World → World → Type 0 where
  stop : {w : World} → Done f [] w w
  go : {v : Value} {vs : List Value} {w w' : World} → Done f vs (f v w) w' → Done f (v ∷ vs) w w'

pub each-Done :
    {World Value : Type 0} (f : Value → World → World) (vs : List Value) (w : World)
    → Done f vs w (each f vs w)
unfolding each
each-Done f [] w = stop
each-Done f (v ∷ vs) w = go (each-Done f vs (f v w))

-- What an allocator's answer `m` makes of a queue. With no block: the result -1 and the queue of
-- before. With a block: the result 0, the job at the end in that block, and every argument
-- duplicated once, in their order.
pub record IsEnqueued {World Value : Type 0} (engine : Calls World Value) (job_list : ℕ)
    (at : List ℕ) (jobs : List (JobEntry Value)) (job : JobEntry Value) (m : Option ℕ × World)
    (r : ℤ × Runtime World Value) : Type 0 where
  pub result :
      ((m.0 ≡ none) × (r.0 ≡ negsuc 0) × (r.1.world ≡ m.1) × IsQueue job_list r.1 at jobs)
      ⊎ ((e : ℕ) × ((m.0 ≡ some e)
            × (r.0 ≡ pos 0)
            × Done engine.dup_value job.argv m.1 r.1.world
            × IsQueue job_list r.1 (at ++ e ∷ []) (jobs ++ job ∷ [])))

module _ {Value : Type 0} (entries : ℕ → JobEntry Value) (e : ℕ) (job : JobEntry Value) where
  write_entry-there : write_entry entries e job e ≡ job
  unfolding write_entry
  write_entry-there = let q = (==_iff e e).1 refl in rw q refl

  map-write_entry :
      (at : List ℕ)
      → Apart e at
      → map (write_entry entries e job) (at ++ e ∷ []) ≡ map entries at ++ job ∷ []
  unfolding write_entry
  map-write_entry [] a = ap (λ j. j ∷ []) (unfold write_entry in write_entry-there)
  map-write_entry (x ∷ at) a = rw (apart_sym e x a.0, map-write_entry at a.1) refl

module _ {World Value : Type 0} (engine : Calls World Value) (job_list : ℕ) where
  link_job-IsEnqueued :
      (job : JobEntry Value) (rt : Runtime World Value) (at : List ℕ) (jobs : List (JobEntry Value))
      → IsQueue job_list rt at jobs
      → (m : Option ℕ × World) → ((e : ℕ) → m.0 ≡ some e → Apart e (job_list ∷ at))
      → IsEnqueued engine job_list at jobs job m (link_job engine job_list job rt m)
  unfolding link_job
  link_job-IsEnqueued job rt at jobs q (none, w) f = record {
    result = inl (refl, refl, refl, record { ring = q.ring; held = q.held });
  }
  link_job-IsEnqueued job rt at jobs q (some e, w) f = record {
    result = inr (
      e,
      (
        refl,
        refl,
        each-Done engine.dup_value job.argv w,
        record {
          ring = list_add_tail-IsRing rt.links job_list e at q.ring (f e refl);
          held =
              map-write_entry rt.entries e job at (f e refl).1 ∙ ap (λ js. js ++ job ∷ []) q.held;
        },
      ),
    );
  }

  -- An allocator whose block, if it gives one, is none of those in the queue: with a block the
  -- result is 0, the new job comes after all that wait, in that block, and each of its arguments
  -- is duplicated once, in order; without a block the result is -1 and the queue stays as it was.
  pub js_enqueue_job-IsEnqueued :
      (job : JobEntry Value) (rt : Runtime World Value) (at : List ℕ) (jobs : List (JobEntry Value))
      → IsQueue job_list rt at jobs
      → ((e : ℕ)
          → (engine.js_malloc (length job.argv) rt.world).0 ≡ some e
          → Apart e (job_list ∷ at))
      → IsEnqueued engine job_list at jobs job
          (engine.js_malloc (length job.argv) rt.world)
          (js_enqueue_job engine job_list job rt)
  unfolding js_enqueue_job
  js_enqueue_job-IsEnqueued job rt at jobs q fresh = link_job-IsEnqueued job rt at jobs q _ fresh

  -- Whether a job is pending is whether the queue holds one.
  pub js_is_job_pending_lem :
      (rt : Runtime World Value) (at : List ℕ) (jobs : List (JobEntry Value))
      → IsQueue job_list rt at jobs
      → js_is_job_pending engine job_list rt ≡ (elim jobs [ [] ↦ false | j ∷ js ↦ true ])
  unfolding js_is_job_pending
  js_is_job_pending_lem rt [] jobs q =
      rw (list_empty_lem rt.links job_list [] q.ring, ← q.held) refl
  js_is_job_pending_lem rt (e ∷ at) jobs q =
      rw (list_empty_lem rt.links job_list (e ∷ at) q.ring, ← q.held) refl

  -- With no job the runtime stays as it is, and the result is 0.
  pub js_execute_pending_job-none :
      (rt : Runtime World Value)
      → IsQueue job_list rt [] []
      → js_execute_pending_job engine job_list rt ≡ (pos 0, 0, rt)
  unfolding js_execute_pending_job
  js_execute_pending_job-none rt q = rw (list_empty_lem rt.links job_list [] q.ring) refl

-- The runtime that the function of the job at `e` is called in.
abbrev pub started : {World Value : Type 0} → ℕ → Runtime World Value → Runtime World Value
started e rt = record rt { links = list_del e rt.links }

module _ {World Value : Type 0} (engine : Calls World Value) where
  -- After the function: the arguments, the result and the block are freed, in this order.
  abbrev pub finished : ℕ → JobEntry Value → Value × Runtime World Value → Runtime World Value
  finished e job (res, rt) = record rt {
    world = engine.js_free e (engine.free_value res (each engine.free_value job.argv rt.world));
  }

  abbrev pub status : Value → ℤ
  status res = if engine.is_exception res then negsuc 0 else pos 1

-- The first job's run: its function sees the jobs that are behind it, and they stay in front of
-- the jobs that the function adds.
pub record IsExecuted {World Value : Type 0} (engine : Calls World Value) (job_list : ℕ)
    (rt : Runtime World Value) (e : ℕ) (job : JobEntry Value) (at at' : List ℕ)
    (jobs new : List (JobEntry Value)) : Type 0 where
  pub seen : IsQueue job_list (started e rt) at jobs
  pub returned : js_execute_pending_job engine job_list rt ≡ (
    status engine (engine.call job (started e rt)).0,
    job.context,
    finished engine e job (engine.call job (started e rt)),
  )
  pub after :
      IsQueue job_list
        (finished engine e job (engine.call job (started e rt)))
        (at ++ at')
        (jobs ++ new)

module _ {World Value : Type 0} (engine : Calls World Value) (job_list : ℕ) where
  finish_job_lem :
      (e : ℕ) (job : JobEntry Value) (r : Value × Runtime World Value)
      → r.1.entries e ≡ job
      → finish_job engine job_list e job.context r
        ≡ (status engine r.0, job.context, finished engine e job r)
  unfolding finish_job
  finish_job_lem e job (res, rt) h =
      ap (λ (j : JobEntry Value). (status engine res, job.context, finished engine e j (res, rt))) h

  finished-IsQueue :
      (e : ℕ) (job : JobEntry Value) (r : Value × Runtime World Value) (at : List ℕ)
      (jobs : List (JobEntry Value))
      → IsQueue job_list r.1 at jobs
      → IsQueue job_list (finished engine e job r) at jobs
  finished-IsQueue e job (res, rt) at jobs q = record { ring = q.ring; held = q.held }

  -- The first job is executed, on a queue of at least one, for a function that may add jobs at
  -- the end and leaves the block of its own job alone.
  pub js_execute_pending_job-IsExecuted :
      (rt : Runtime World Value) (e : ℕ) (job : JobEntry Value) (at at' : List ℕ)
      (jobs new : List (JobEntry Value))
      → IsQueue job_list rt (e ∷ at) (job ∷ jobs)
      → (IsQueue job_list (started e rt) at jobs
          → IsQueue job_list (engine.call job (started e rt)).1 (at ++ at') (jobs ++ new)
            × ((engine.call job (started e rt)).1.entries e ≡ job))
      → IsExecuted engine job_list rt e job at at' jobs new
  unfolding js_execute_pending_job run_job
  js_execute_pending_job-IsExecuted rt e job at at' jobs new q adds =
      let here = ap (λ js. elim js [ [] ↦ job | j ∷ js' ↦ j ]) q.held in
      let others = ap (λ js. elim js [ [] ↦ jobs | j ∷ js' ↦ js' ]) q.held in
      let tail : IsQueue job_list (started e rt) at jobs = record {
        ring = list_del-IsRing rt.links job_list e [] at q.ring;
        held = others;
      } in
      let added = adds tail in
      record {
        seen = tail;
        returned = rw (list_empty_lem rt.links job_list (e ∷ at) q.ring) (
            ap (λ n. run_job engine job_list n rt) q.ring.linked.0
            ∙ ap
                (λ (j : JobEntry Value).
                  finish_job engine job_list e j.context (engine.call j (started e rt)))
                here
            ∙ finish_job_lem e job _ added.1);
        after = finished-IsQueue e job _ (at ++ at') (jobs ++ new) added.0;
      }
