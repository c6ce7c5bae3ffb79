-- ===== src/Engine/Promise/Jobs.antt =====
-- The jobs of promises in native/quickjs/quickjs.c, and what makes promises and reactions.
use quickjs_runtime.Prelude.{
  ℕ, ◌+◌, Bool, true, false, not, ◌&&◌, if◌then◌else◌, Option, none, some, [], ◌∷◌, ◌++◌,
}
use quickjs_runtime.Engine.Promise.{
  Value, undefined, promise_object, resolving, not_a_function, is_undefined, pending, fulfilled,
  rejected, Reaction, PromiseData, Job, reaction_job, thenable_job, State, Environment, set_promise,
  mark_resolved, js_throw, get_exception, is_function, malloc_all, enqueue_job, track, js_call,
}

module _ (e : Environment) where
  -- What the handler comes to; without one the argument goes on.
  unfoldable pub handler_result : Reaction → Bool → Value → State → Option Value × State
  handler_result rd is_reject arg s =
      if is_undefined rd.handler
      then (if is_reject then js_throw arg s else (some arg, s))
      else js_call e rd.handler undefined (arg ∷ []) s

  -- A function that is undefined is not called: an extension for `await`.
  unfoldable pub pass_on : Value → Value → State → Option Value × State
  pass_on func res s =
      if is_undefined func then (some undefined, s) else js_call e func undefined (res ∷ []) s

  unfoldable pub finish_reaction : Reaction → Option Value × State → Option Value × State
  finish_reaction rd (some res, s) = pass_on rd.resolve res s
  finish_reaction rd (none, s) = let r = get_exception s in pass_on rd.reject r.0 r.1

  unfoldable pub promise_reaction_job : Reaction → Bool → Value → State → Option Value × State
  promise_reaction_job rd is_reject arg s = finish_reaction rd (handler_result rd is_reject arg s)

  -- The cell of two new resolving functions; the requests are for it and, twice, for an object and
  -- its data. The one for an object stands for all that `JS_NewObjectProtoClass` asks for; what
  -- `js_function_set_properties` asks for is left out, since its result is not looked at.
  unfoldable pub js_create_resolving_functions : State → Option ℕ × State
  js_create_resolving_functions s =
      let r = malloc_all e 5 s in
      if r.0
      then (
        some r.1.next_cell,
        mark_resolved r.1.next_cell false (record r.1 { next_cell = r.1.next_cell + 1 }),
      )
      else (none, r.1)

  -- An exception of a call goes to the rejecting function.
  unfoldable pub reject_exception : ℕ → ℕ → Option Value × State → Option Value × State
  reject_exception p c (some res, s) = (some res, s)
  reject_exception p c (none, s) =
      let r = get_exception s in js_call e (resolving true p c) undefined (r.0 ∷ []) r.1

  unfoldable pub call_then : ℕ → Value → Value → Option ℕ × State → Option Value × State
  call_then p thenable then' (none, s) = (none, s)
  call_then p thenable then' (some c, s) =
      reject_exception p c
        (js_call e then' thenable (resolving false p c ∷ resolving true p c ∷ []) s)

  unfoldable pub js_promise_resolve_thenable_job : ℕ → Value → Value → State → Option Value × State
  js_promise_resolve_thenable_job p thenable then' s =
      call_then p thenable then' (js_create_resolving_functions s)

  unfoldable pub run_job : Job → State → Option Value × State
  run_job (reaction_job rd is_reject arg) s = promise_reaction_job rd is_reject arg s
  run_job (thenable_job p thenable then') s = js_promise_resolve_thenable_job p thenable then' s

  -- `JS_ExecutePendingJob` on the promises' jobs: whether there was one, and the state after it.
  unfoldable pub execute_pending_job : State → Bool × State
  execute_pending_job s = elim s.queue [
    | [] ↦ (false, s)
    | job ∷ jobs ↦ (true, (run_job job (record s { queue = jobs })).1)
  ]

  abbrev pub new_promise_data : PromiseData
  new_promise_data = record {
    promise_state = pending;
    on_fulfill = [];
    on_reject = [];
    is_handled = false;
    promise_result = undefined;
  }

  -- The object and its data; `none` is an exception.
  unfoldable pub new_promise : State → Option ℕ × State
  new_promise s =
      let r = malloc_all e 2 s in
      if r.0
      then (
        some r.1.next_promise,
        set_promise r.1.next_promise new_promise_data
            (record r.1 { next_promise = r.1.next_promise + 1 }),
      )
      else (none, r.1)

  unfoldable pub constructed : ℕ → Option Value × State → Option Value × State
  constructed p (none, s) = (none, s)
  constructed p (some v, s) = (some (promise_object p), s)

  unfoldable pub call_executor : ℕ → Value → Option ℕ × State → Option Value × State
  call_executor p executor (none, s) = (none, s)
  call_executor p executor (some c, s) = constructed p (
      reject_exception p c
        (js_call e executor undefined (resolving false p c ∷ resolving true p c ∷ []) s))

  unfoldable pub construct : Value → Option ℕ × State → Option Value × State
  construct executor (none, s) = (none, s)
  construct executor (some p, s) = call_executor p executor (js_create_resolving_functions s)

  -- `new Promise(executor)`, for the constructor itself as `new_target`.
  unfoldable pub js_promise_constructor : Value → State → Option Value × State
  js_promise_constructor executor s =
      if is_function e executor
      then construct executor (new_promise s)
      else js_throw not_a_function s

  -- A handler that is not a function counts as undefined.
  abbrev pub handler_of : Value → Value
  handler_of f = if is_function e f then f else undefined

  -- A new reaction of a settled promise is enqueued, and the promise counts as handled.
  unfoldable pub enqueue_reaction : ℕ → Reaction → Bool → State → State
  enqueue_reaction p rd is_reject s = elim (s.promises p) [
    | none ↦ s
    | some d ↦
        set_promise p (record d { is_handled = true })
          (enqueue_job e (reaction_job rd is_reject d.promise_result) s)
  ]

  -- The promise is read again after the tracker has run.
  unfoldable pub then_settled : ℕ → Reaction → Bool → PromiseData → State → State
  then_settled p rd is_reject d s =
      enqueue_reaction p rd is_reject
        (if is_reject && not d.is_handled then track e p d.promise_result true s else s)

  unfoldable pub add_reactions : ℕ → Reaction → Reaction → State → State
  add_reactions p rd0 rd1 s = elim (s.promises p) [
    | none ↦ s
    | some d ↦ elim d.promise_state [
      | pending ↦
          set_promise p
            (record d {
              on_fulfill = d.on_fulfill ++ rd0 ∷ [];
              on_reject = d.on_reject ++ rd1 ∷ [];
              is_handled = true;
            })
            s
      | fulfilled ↦ then_settled p rd0 false d s
      | rejected ↦ then_settled p rd1 true d s
    ]
  ]

  -- True is the result -1.
  unfoldable pub perform_promise_then : ℕ → Value → Value → Value → Value → State → Bool × State
  perform_promise_then p on_fulfilled on_rejected resolve reject s =
      let r = malloc_all e 2 s in
      let rd0 : Reaction = record {
        resolve = resolve;
        reject = reject;
        handler = handler_of on_fulfilled;
      } in
      let rd1 : Reaction = record {
        resolve = resolve;
        reject = reject;
        handler = handler_of on_rejected;
      } in
      if r.0 then (false, add_reactions p rd0 rd1 r.1) else (true, r.1)
