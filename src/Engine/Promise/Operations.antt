-- ===== src/Engine/Promise/Operations.antt =====
-- Every operation on promises goes on from the state it finds: nothing that is settled changes.
use quickjs_runtime.Prelude.{
  ℕ, zero, suc, ◌+◌, ◌≡◌, refl, sym, ap, ◌∙◌, Bool, true, false, not, ◌&&◌, ◌||◌, Option, none,
  some, List, [], ◌∷◌, arith, Bool-cases, inl, inr, Option-cases,
}
use quickjs_runtime.Engine.Promise.{
  Value, undefined, primitive, object, promise_object, resolving, out_of_memory, self_resolution,
  not_a_function, is_object, is_promise, PromiseState, pending, fulfilled, rejected, Reaction,
  PromiseData, Job, reaction_job, thenable_job, State, Environment, set_promise, mark_resolved,
  js_throw, get_exception, is_function, js_malloc, malloc_all, enqueue_job, enqueue_reactions,
  track, run_reactions, settle, fulfill_or_reject_promise, reject_promise, fail_reject, adopt,
  resolve_with, resolution_of, js_promise_resolve_function_call, js_call, settled_state, reactions,
}
use quickjs_runtime.Engine.Promise.Extends.{
  outcome, outcome_of, Extends, Extends-refl, Extends-trans, Extends-same, Extends-job,
  set_promise-Extends, mark_resolved-Extends,
}

-- JavaScript code and the host act on promises by these operations alone, so what they do goes on
-- from the state as well.
pub record IsExtending (e : Environment) : Type 0 where
  pub calls : (f this : Value) (argv : List Value) (s : State) → Extends s (e.call f this argv s).1
  pub getters : (v : Value) (s : State) → Extends s (e.get_then v s).1
  pub tracks : (p : ℕ) (v : Value) (b : Bool) (s : State) → Extends s (track e p v b s)

pub js_throw-Extends : (v : Value) (s : State) → Extends s (js_throw v s).1
unfolding js_throw
js_throw-Extends v s = Extends-same s v s.allocs

pub get_exception-Extends : (s : State) → Extends s (get_exception s).1
unfolding get_exception
get_exception-Extends s = Extends-same s undefined s.allocs

module _ (e : Environment) where
  pub js_malloc-Extends : (s : State) → Extends s (js_malloc e s).1
  unfolding js_malloc
  js_malloc-Extends s = elim (Bool-cases (e.grants s.allocs)) [
    | inl given ↦ rw given (Extends-same s s.exception (s.allocs + 1))
    | inr refused ↦ rw refused (Extends-same s out_of_memory (s.allocs + 1))
  ]

  pub malloc_all-Extends : (n : ℕ) (s : State) → Extends s (malloc_all e n s).1
  unfolding malloc_all
  malloc_all-Extends zero s = Extends-refl s
  malloc_all-Extends (suc n) s = elim (Bool-cases (js_malloc e s).0) [
    | inl given ↦
        rw given (Extends-trans (js_malloc-Extends s) (malloc_all-Extends n (js_malloc e s).1))
    | inr refused ↦ rw refused (js_malloc-Extends s)
  ]

  pub enqueue_job-Extends : (job : Job) (s : State) → Extends s (enqueue_job e job s)
  unfolding enqueue_job js_malloc
  enqueue_job-Extends job s = elim (Bool-cases (e.grants s.allocs)) [
    | inl given ↦ rw given (Extends-job s job (s.allocs + 1))
    | inr refused ↦ rw refused (Extends-same s out_of_memory (s.allocs + 1))
  ]

  -- Enqueuing leaves the promises alone.
  pub enqueue_job-promises : (job : Job) (s : State) → (enqueue_job e job s).promises ≡ s.promises
  unfolding enqueue_job js_malloc
  enqueue_job-promises job s = elim (Bool-cases (e.grants s.allocs)) [
    | inl given ↦ rw given refl
    | inr refused ↦ rw refused refl
  ]

  enqueue_reactions-Extends :
      (rds : List Reaction) (b : Bool) (v : Value) (s : State)
      → Extends s (enqueue_reactions e rds b v s)
  unfolding enqueue_reactions
  enqueue_reactions-Extends [] b v s = Extends-refl s
  enqueue_reactions-Extends (rd ∷ rds) b v s =
      Extends-trans (enqueue_job-Extends (reaction_job rd b v) s)
        (enqueue_reactions-Extends rds b v (enqueue_job e (reaction_job rd b v) s))

  pub enqueue_reactions-promises :
      (rds : List Reaction) (b : Bool) (v : Value) (s : State)
      → (enqueue_reactions e rds b v s).promises ≡ s.promises
  unfolding enqueue_reactions
  enqueue_reactions-promises [] b v s = refl
  enqueue_reactions-promises (rd ∷ rds) b v s =
      enqueue_reactions-promises rds b v (enqueue_job e (reaction_job rd b v) s)
      ∙ enqueue_job-promises (reaction_job rd b v) s

  run_reactions-Extends :
      (p : ℕ) (v : Value) (b : Bool) (s : State) → Extends s (run_reactions e p v b s)
  unfolding run_reactions
  run_reactions-Extends p v b s = elim (Option-cases (s.promises p)) [
    | inl missing ↦ rw (missing, run_reactions) (Extends-refl s)
    | inr (d, there) ↦
        let s' = enqueue_reactions e (reactions b d) b v s in
        rw (there, run_reactions)
          (Extends-trans (enqueue_reactions-Extends (reactions b d) b v s) (
            set_promise-Extends p (record d { on_fulfill = []; on_reject = [] }) s'
              (λ o h.
                sym (
                  ap outcome
                    (ap (λ f. f p) (enqueue_reactions-promises (reactions b d) b v s) ∙ there))
                ∙ h)))
  ]

pub pending_outcome :
    (d : PromiseData) (o : Bool × Value) → d.promise_state ≡ pending → outcome_of d ≡ some o → ⊥
pending_outcome d o h k = let n : outcome_of d ≡ none = rw h refl in ground (arith, n)

module _ (e : Environment) (law : IsExtending e) where
  settle-Extends :
      (p : ℕ) (v : Value) (b : Bool) (d : PromiseData) (s : State)
      → s.promises p ≡ some d
      → d.promise_state ≡ pending
      → Extends s (settle e p v b d s)
  unfolding settle
  settle-Extends p v b d s there open_still =
      let s1 = set_promise p (record d { promise_state = settled_state b; promise_result = v }) s in
      let first : Extends s s1 =
        set_promise-Extends p (record d { promise_state = settled_state b; promise_result = v }) s
          (λ o h. absurd (pending_outcome d o open_still (sym (ap outcome there) ∙ h))) in
      elim (Bool-cases (b && not d.is_handled)) [
        | inl heard ↦ rw heard (
            Extends-trans first (
              Extends-trans (law.tracks p v false s1)
                (run_reactions-Extends e p v b (track e p v false s1))))
        | inr quiet ↦ rw quiet (Extends-trans first (run_reactions-Extends e p v b s1))
      ]

  pub fulfill_or_reject_promise-Extends :
      (p : ℕ) (v : Value) (b : Bool) (s : State) → Extends s (fulfill_or_reject_promise e p v b s)
  unfolding fulfill_or_reject_promise
  fulfill_or_reject_promise-Extends p v b s = elim (Option-cases (s.promises p)) [
    | inl missing ↦ rw (missing, fulfill_or_reject_promise) (Extends-refl s)
    | inr (d, there) ↦ by_state d there _ refl
  ]
    where
      by_state :
          (d : PromiseData)
          → s.promises p ≡ some d
          → (st : PromiseState) → d.promise_state ≡ st
          → Extends s (fulfill_or_reject_promise e p v b s)
      by_state d there pending h =
          rw (there, fulfill_or_reject_promise, h) (settle-Extends p v b d s there h)
      by_state d there fulfilled h = rw (there, fulfill_or_reject_promise, h) (Extends-refl s)
      by_state d there rejected h = rw (there, fulfill_or_reject_promise, h) (Extends-refl s)

  fail_reject-Extends : (p : ℕ) (s : State) → Extends s (fail_reject e p s)
  unfolding fail_reject reject_promise
  fail_reject-Extends p s =
      Extends-trans (get_exception-Extends s)
        (fulfill_or_reject_promise-Extends p (get_exception s).0 true (get_exception s).1)

  adopt-Extends : (p : ℕ) (v : Value) (r : Option Value × State) → Extends r.1 (adopt e p v r)
  unfolding adopt
  adopt-Extends p v (none, s) = fail_reject-Extends p s
  adopt-Extends p v (some f, s) = elim (Bool-cases (is_function e f)) [
    | inl callable ↦ rw callable (enqueue_job-Extends e (thenable_job p v f) s)
    | inr plain ↦ rw plain (fulfill_or_reject_promise-Extends p v false s)
  ]

  pub resolve_with-Extends :
      (b : Bool) (p : ℕ) (v : Value) (s : State) → Extends s (resolve_with e b p v s)
  unfolding resolve_with
  resolve_with-Extends b p v s = elim (Bool-cases (b || not (is_object v))) [
    | inl plain ↦ rw plain (fulfill_or_reject_promise-Extends p v b s)
    | inr other ↦ elim (Bool-cases (is_promise p v)) [
      | inl itself ↦
          rw (other, itself)
            (Extends-trans (js_throw-Extends self_resolution s)
              (fail_reject-Extends p (js_throw self_resolution s).1))
      | inr another ↦
          rw (other, another) (Extends-trans (law.getters v s) (adopt-Extends p v (e.get_then v s)))
    ]
  ]

  pub resolve_function-Extends :
      (b : Bool) (p c : ℕ) (argv : List Value) (s : State)
      → Extends s (js_promise_resolve_function_call e b p c argv s).1
  unfolding js_promise_resolve_function_call
  resolve_function-Extends b p c argv s = elim (Bool-cases (s.resolved c)) [
    | inl again ↦ rw again (Extends-refl s)
    | inr first ↦ rw first (
        Extends-trans (mark_resolved-Extends c s)
          (resolve_with-Extends b p (resolution_of e argv) (mark_resolved c true s)))
  ]

  pub js_call-Extends :
      (f this : Value) (argv : List Value) (s : State) → Extends s (js_call e f this argv s).1
  unfolding js_call
  js_call-Extends (resolving b p c) this argv s = resolve_function-Extends b p c argv s
  js_call-Extends undefined this argv s = law.calls undefined this argv s
  js_call-Extends (primitive n) this argv s = law.calls (primitive n) this argv s
  js_call-Extends (object n) this argv s = law.calls (object n) this argv s
  js_call-Extends (promise_object n) this argv s = law.calls (promise_object n) this argv s
  js_call-Extends out_of_memory this argv s = law.calls out_of_memory this argv s
  js_call-Extends self_resolution this argv s = law.calls self_resolution this argv s
  js_call-Extends not_a_function this argv s = law.calls not_a_function this argv s
