-- ===== src/Engine/Promise.antt =====
-- Promises of native/quickjs/quickjs.c, from `JS_PromiseState` to `js_promise_resolve_function_call`, with
-- `perform_promise_then` and the constructor. Reference counts are left out.
pub mod Jobs
pub mod Extends
pub mod Operations
pub mod Runs
pub mod Once
pub mod Settle
pub mod Order
pub mod Progress
use quickjs_runtime.Prelude.{
  ℕ, zero, suc, ◌+◌, Bool, true, false, not, ◌&&◌, ◌||◌, ◌==◌, if◌then◌else◌, Option, none, some,
  List, [], ◌∷◌, ◌++◌,
}

-- A value, as far as promises look at it. A resolving function carries its kind (true for reject),
-- the promise and the cell that it shares with its twin.
pub data Value : Type 0 where
  undefined : Value
  primitive : ℕ → Value
  object : ℕ → Value
  promise_object : ℕ → Value
  resolving : Bool → ℕ → ℕ → Value
  out_of_memory self_resolution not_a_function : Value

abbrev pub is_object : Value → Bool
is_object undefined = false
is_object (primitive n) = false
is_object _ = true

abbrev pub is_undefined : Value → Bool
is_undefined undefined = true
is_undefined _ = false

abbrev pub is_promise : ℕ → Value → Bool
is_promise p (promise_object q) = q == p
is_promise p _ = false

pub data PromiseState : Type 0 where
  pending fulfilled rejected : PromiseState

-- `resolving_funcs` and `handler`.
pub record Reaction : Type 0 where
  pub resolve : Value
  pub reject : Value
  pub handler : Value

-- The two lists of reactions are `on_fulfill` and `on_reject`.
pub record PromiseData : Type 0 where
  pub promise_state : PromiseState
  pub on_fulfill : List Reaction
  pub on_reject : List Reaction
  pub is_handled : Bool
  pub promise_result : Value

-- The jobs that promises make, with their arguments.
pub data Job : Type 0 where
  reaction_job : Reaction → Bool → Value → Job
  thenable_job : ℕ → Value → Value → Job

-- `resolved` are the cells `already_resolved`, `allocs` counts the requests for memory; a promise
-- and a cell have the next free number.
pub record State : Type 0 where
  pub promises : ℕ → Option PromiseData
  pub next_promise : ℕ
  pub resolved : ℕ → Bool
  pub next_cell : ℕ
  pub queue : List Job
  pub exception : Value
  pub allocs : ℕ

-- What is not promises: functions of the program, the `then` property of an object, the rejection
-- tracker of the host if there is one, and the allocator.
pub record Environment : Type 0 where
  pub is_callable : ℕ → Bool
  pub call : Value → Value → List Value → State → Option Value × State
  pub get_then : Value → State → Option Value × State
  pub tracker : Option (ℕ → Value → Bool → State → State)
  pub grants : ℕ → Bool

unfoldable pub set_promise : ℕ → PromiseData → State → State
set_promise p d s = record s { promises = λ q. if q == p then some d else s.promises q }

unfoldable pub mark_resolved : ℕ → Bool → State → State
mark_resolved c b s = record s { resolved = λ k. if k == c then b else s.resolved k }

unfoldable pub js_throw : Value → State → Option Value × State
js_throw v s = (none, record s { exception = v })

-- JS_GetException: the exception is taken.
unfoldable pub get_exception : State → Value × State
get_exception s = (s.exception, record s { exception = undefined })

unfoldable pub js_promise_state : ℕ → State → Option PromiseState
js_promise_state p s = elim (s.promises p) [ none ↦ none | some d ↦ some d.promise_state ]

unfoldable pub js_promise_result : ℕ → State → Value
js_promise_result p s = elim (s.promises p) [ none ↦ undefined | some d ↦ d.promise_result ]

abbrev pub settled_state : Bool → PromiseState
settled_state false = fulfilled
settled_state true = rejected

abbrev pub reactions : Bool → PromiseData → List Reaction
reactions false d = d.on_fulfill
reactions true d = d.on_reject

module _ (e : Environment) where
  unfoldable pub is_function : Value → Bool
  is_function (object n) = e.is_callable n
  is_function (resolving b p c) = true
  is_function _ = false

  -- `js_malloc`, which throws when there is no memory.
  unfoldable pub js_malloc : State → Bool × State
  js_malloc s =
      if e.grants s.allocs
      then (true, record s { allocs = s.allocs + 1 })
      else (false, record s { allocs = s.allocs + 1; exception = out_of_memory })

  -- Requests one after the other, as long as they are granted.
  unfoldable pub malloc_all : ℕ → State → Bool × State
  malloc_all zero s = (true, s)
  malloc_all (suc n) s =
      let rest = malloc_all n (js_malloc s).1 in if (js_malloc s).0 then rest else js_malloc s

  -- `JS_EnqueueJob`; no caller looks at its result.
  unfoldable pub enqueue_job : Job → State → State
  enqueue_job job s =
      let r = js_malloc s in if r.0 then record r.1 { queue = r.1.queue ++ job ∷ [] } else r.1

  unfoldable pub enqueue_reactions : List Reaction → Bool → Value → State → State
  enqueue_reactions [] is_reject value s = s
  enqueue_reactions (rd ∷ rds) is_reject value s =
      enqueue_reactions rds is_reject value (enqueue_job (reaction_job rd is_reject value) s)

  -- The host is told of a rejection that nothing handles.
  unfoldable pub track : ℕ → Value → Bool → State → State
  track p value is_handled s = elim e.tracker [ none ↦ s | some f ↦ f p value is_handled s ]

  -- The reactions of one kind are enqueued, and both lists are emptied.
  unfoldable pub run_reactions : ℕ → Value → Bool → State → State
  run_reactions p value is_reject s = elim (s.promises p) [
    | none ↦ s
    | some d ↦
        set_promise p (record d { on_fulfill = []; on_reject = [] })
          (enqueue_reactions (reactions is_reject d) is_reject value s)
  ]

  -- A pending promise settles.
  unfoldable pub settle : ℕ → Value → Bool → PromiseData → State → State
  settle p value is_reject d s =
      let s1 =
        set_promise p (record d { promise_state = settled_state is_reject; promise_result = value })
          s in
      run_reactions p value is_reject
        (if is_reject && not d.is_handled then track p value false s1 else s1)

  unfoldable pub fulfill_or_reject_promise : ℕ → Value → Bool → State → State
  fulfill_or_reject_promise p value is_reject s = elim (s.promises p) [
    | none ↦ s
    | some d ↦ elim d.promise_state [
      | pending ↦ settle p value is_reject d s
      | fulfilled ↦ s
      | rejected ↦ s
    ]
  ]

  unfoldable pub reject_promise : ℕ → Value → State → State
  reject_promise p value = fulfill_or_reject_promise p value true

  abbrev pub resolution_of : List Value → Value
  resolution_of [] = undefined
  resolution_of (v ∷ vs) = v

  -- The label `fail_reject`.
  unfoldable pub fail_reject : ℕ → State → State
  fail_reject p s = let r = get_exception s in reject_promise p r.0 r.1

  -- From the test of `then` on.
  unfoldable pub adopt : ℕ → Value → Option Value × State → State
  adopt p resolution (none, s) = fail_reject p s
  adopt p resolution (some then', s) =
      if is_function then'
      then enqueue_job (thenable_job p resolution then') s
      else fulfill_or_reject_promise p resolution false s

  -- The function is called for the first time.
  unfoldable pub resolve_with : Bool → ℕ → Value → State → State
  resolve_with is_reject p resolution s =
      if is_reject || not (is_object resolution)
      then fulfill_or_reject_promise p resolution is_reject s
      else (if is_promise p resolution
          then fail_reject p (js_throw self_resolution s).1
          else adopt p resolution (e.get_then resolution s))

  unfoldable pub js_promise_resolve_function_call :
      Bool → ℕ → ℕ → List Value → State → Option Value × State
  js_promise_resolve_function_call is_reject p c argv s =
      if s.resolved c
      then (some undefined, s)
      else (some undefined, resolve_with is_reject p (resolution_of argv) (mark_resolved c true s))

  -- `JS_Call`: the resolving functions are here, all others are the environment's.
  unfoldable pub js_call : Value → Value → List Value → State → Option Value × State
  js_call (resolving b p c) this argv s = js_promise_resolve_function_call b p c argv s
  js_call f this argv s = e.call f this argv s
