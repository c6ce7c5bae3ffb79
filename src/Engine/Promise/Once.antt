-- ===== src/Engine/Promise/Once.antt =====
-- A pair of resolving functions acts once, and a promise settles once.
use quickjs_runtime.Prelude.{
  ℕ, ◌<◌, ◌≡◌, refl, Bool, true, some, List, [], ◌∷◌, arith, Bool-cases, inl, inr, ==_iff,
}
use quickjs_runtime.Engine.Promise.{
  Value, undefined, resolving, Job, State, Environment, mark_resolved,
  js_promise_resolve_function_call, resolution_of, js_call,
}
use quickjs_runtime.Engine.Promise.Jobs.{execute_pending_job}
use quickjs_runtime.Engine.Promise.Extends.{outcome, Extends}
use quickjs_runtime.Engine.Promise.Operations.{IsExtending, resolve_with-Extends, js_call-Extends}
use quickjs_runtime.Engine.Promise.Runs.{run_job-Extends}

module _ (e : Environment) (law : IsExtending e) where
  resolve_function-marks :
      (b : Bool) (p c : ℕ) (argv : List Value) (s : State)
      → c < s.next_cell
      → (js_promise_resolve_function_call e b p c argv s).1.resolved c ≡ true
  unfolding js_promise_resolve_function_call
  resolve_function-marks b p c argv s old = elim (Bool-cases (s.resolved c)) [
    | inl again ↦ rw again again
    | inr first ↦ rw first (
        (resolve_with-Extends e law b p (resolution_of e argv) (mark_resolved c true s)).cells c
          (unfold mark_resolved in old)
          (unfold mark_resolved in (let q = (==_iff c c).1 refl in rw q refl)))
  ]

  -- After a call of one of a pair of resolving functions, at any later state, a call of either one
  -- returns undefined and changes nothing.
  pub js_call-once :
      (b b' : Bool) (p c : ℕ) (this this' : Value) (argv argv' : List Value) (s later : State)
      → c < s.next_cell
      → Extends (js_call e (resolving b p c) this argv s).1 later
      → js_call e (resolving b' p c) this' argv' later ≡ (some undefined, later)
  unfolding js_call js_promise_resolve_function_call
  js_call-once b b' p c this this' argv argv' s later old go_on =
      let marked = resolve_function-marks b p c argv s old in
      let still =
        go_on.cells c
          (let g = (js_call-Extends e law (resolving b p c) this argv s).cells_grow in omega arith)
          marked in
      rw still refl

  -- A promise that is settled keeps its state and its result through any job, whatever the
  -- functions that it calls do.
  pub execute_pending_job-settled :
      (s : State) (p : ℕ) (o : Bool × Value)
      → p < s.next_promise
      → outcome (s.promises p) ≡ some o
      → outcome ((execute_pending_job e s).1.promises p) ≡ some o
  unfolding execute_pending_job
  execute_pending_job-settled s p o old h = by_queue _ refl
    where
      by_queue :
          (q : List Job) → s.queue ≡ q → outcome ((execute_pending_job e s).1.promises p) ≡ some o
      by_queue [] k = rw (k, execute_pending_job) h
      by_queue (job ∷ jobs) k =
          rw (k, execute_pending_job)
            ((run_job-Extends e law job (record s { queue = jobs })).settled p o old h)
