-- ===== src/Examples/Promises.antt =====
-- Promises in a small host.
use quickjs_runtime.Prelude.{
  ◌≡◌, refl, true, false, inl, none, some, [], ◌∷◌, ◌==◌, if◌then◌else◌, length, arith,
}
use quickjs_runtime.Engine.Promise.{
  undefined, primitive, object, resolving, Reaction, reaction_job, State, Environment,
  fulfill_or_reject_promise, js_call, track,
}
use quickjs_runtime.Engine.Promise.Jobs.{perform_promise_then, execute_pending_job}
use quickjs_runtime.Engine.Promise.Extends.{outcome, Extends-refl}
use quickjs_runtime.Engine.Promise.Operations.{IsExtending}
use quickjs_runtime.Engine.Promise.Once.{js_call-once, execute_pending_job-settled}
use quickjs_runtime.Engine.Promise.Progress.{IsNext, execute_jobs, execute_jobs-IsNext}
use quickjs_runtime.Engine.Promise.Settle.{IsSettled, fulfill_or_reject_promise-IsSettled}
use quickjs_runtime.Engine.Promise.Order.{IsAnswered, waiting, chosen, answered, then_order}

-- Functions return their first argument, and no object has a property `then`.
abbrev host : Environment
host = record {
  is_callable = λ n. n == 1;
  call = λ f this argv s. (some (elim argv [ [] ↦ undefined | v ∷ vs ↦ v ]), s);
  get_then = λ v s. (some undefined, s);
  tracker = none;
  grants = λ n. true;
}

host-IsExtending : IsExtending host
unfolding track
host-IsExtending = record {
  calls = λ f this argv s. Extends-refl s;
  getters = λ v s. Extends-refl s;
  tracks = λ p v b s. Extends-refl s;
}

abbrev log : Reaction
log = record { resolve = undefined; reject = undefined; handler = object 1 }

-- Promise 0 waits, promise 1 is fulfilled; two jobs are in the queue.
abbrev two_promises : State
two_promises = record {
  promises =
      λ p. if p == 0 then some (waiting false undefined) else some (answered (primitive 7) false);
  next_promise = 2;
  resolved = λ c. false;
  next_cell = 1;
  queue = reaction_job log false (primitive 3) ∷ reaction_job log false (primitive 4) ∷ [];
  exception = undefined;
  allocs = 0;
}

js_call-once_example :
    js_call host
      (resolving true 0 0)
      undefined
      (primitive 6 ∷ [])
      (js_call host (resolving false 0 0) undefined (primitive 5 ∷ []) two_promises).1
    ≡ (
      some undefined,
      (js_call host (resolving false 0 0) undefined (primitive 5 ∷ []) two_promises).1,
    )
js_call-once_example =
    js_call-once host host-IsExtending false true 0 0 undefined undefined (primitive 5 ∷ [])
      (primitive 6 ∷ []) two_promises
      (js_call host (resolving false 0 0) undefined (primitive 5 ∷ []) two_promises).1 (omega arith)
      (Extends-refl
        (js_call host (resolving false 0 0) undefined (primitive 5 ∷ []) two_promises).1)

execute_pending_job-settled_example :
    outcome ((execute_pending_job host two_promises).1.promises 1) ≡ some (false, primitive 7)
execute_pending_job-settled_example =
    execute_pending_job-settled host host-IsExtending two_promises 1 (false, primitive 7)
      (omega arith) refl

execute_jobs-IsNext_example :
    IsNext
      (reaction_job log false (primitive 4))
      []
      (execute_jobs host (length (reaction_job log false (primitive 3) ∷ [])) two_promises)
execute_jobs-IsNext_example =
    execute_jobs-IsNext host host-IsExtending (reaction_job log false (primitive 3) ∷ [])
      (reaction_job log false (primitive 4)) [] two_promises refl

fulfill_or_reject_promise-IsSettled_example :
    IsSettled 0
      (primitive 9)
      false
      (waiting false undefined)
      two_promises
      (fulfill_or_reject_promise host 0 (primitive 9) false two_promises)
fulfill_or_reject_promise-IsSettled_example =
    fulfill_or_reject_promise-IsSettled host (λ n. refl) 0 (primitive 9) false
      (waiting false undefined) two_promises refl refl (inl refl)

then_order_example :
    IsAnswered 0
      (primitive 9)
      false
      (chosen host false (object 1) undefined undefined undefined)
      two_promises
      (fulfill_or_reject_promise host 0
        (primitive 9)
        false
        (perform_promise_then host 0 (object 1) undefined undefined undefined two_promises).1)
    × IsAnswered 0
        (primitive 9)
        false
        (chosen host false (object 1) undefined undefined undefined)
        two_promises
        (perform_promise_then host 0
          (object 1)
          undefined
          undefined
          undefined
          (fulfill_or_reject_promise host 0 (primitive 9) false two_promises)).1
then_order_example =
    then_order host (λ n. refl) refl 0 (object 1) undefined undefined undefined (primitive 9) false
      false undefined two_promises refl
