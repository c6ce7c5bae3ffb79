-- ===== src/Engine/Promise/Runs.antt =====
-- The jobs, and what makes promises and reactions, go on from the state they find as well.
use quickjs_runtime.Prelude.{
  ℕ, ◌≡◌, refl, sym, ap, ◌∙◌, Bool, true, false, not, ◌&&◌, Option, none, some, [], ◌∷◌, Bool-cases,
  inl, inr, Option-cases,
}
use quickjs_runtime.Engine.Promise.{
  Value, undefined, resolving, not_a_function, is_undefined, PromiseState, pending, fulfilled,
  rejected, Reaction, PromiseData, Job, reaction_job, thenable_job, State, Environment, set_promise,
  get_exception, is_function, malloc_all, enqueue_job,
}
use quickjs_runtime.Engine.Promise.Jobs.{
  handler_result, pass_on, finish_reaction, promise_reaction_job, js_create_resolving_functions,
  reject_exception, call_then, js_promise_resolve_thenable_job, run_job, new_promise_data,
  new_promise, constructed, call_executor, construct, js_promise_constructor, enqueue_reaction,
  then_settled, add_reactions, perform_promise_then,
}
use quickjs_runtime.Engine.Promise.Extends.{
  outcome, Extends, Extends-refl, Extends-trans, set_promise-Extends, new_cell-Extends,
  new_promise-Extends,
}
use quickjs_runtime.Engine.Promise.Operations.{
  IsExtending, js_throw-Extends, get_exception-Extends, malloc_all-Extends, enqueue_job-Extends,
  enqueue_job-promises, js_call-Extends, pending_outcome,
}

module _ (e : Environment) (law : IsExtending e) where
  handler_result-Extends :
      (rd : Reaction) (b : Bool) (v : Value) (s : State) → Extends s (handler_result e rd b v s).1
  unfolding handler_result
  handler_result-Extends rd b v s = elim (Bool-cases (is_undefined rd.handler)) [
    | inr function ↦ rw function (js_call-Extends e law rd.handler undefined (v ∷ []) s)
    | inl missing ↦ elim (Bool-cases b) [
      | inl rejects ↦ rw (missing, rejects) (js_throw-Extends v s)
      | inr fulfils ↦ rw (missing, fulfils) (Extends-refl s)
    ]
  ]

  pass_on-Extends : (f v : Value) (s : State) → Extends s (pass_on e f v s).1
  unfolding pass_on
  pass_on-Extends f v s = elim (Bool-cases (is_undefined f)) [
    | inl missing ↦ rw missing (Extends-refl s)
    | inr function ↦ rw function (js_call-Extends e law f undefined (v ∷ []) s)
  ]

  finish_reaction-Extends :
      (rd : Reaction) (r : Option Value × State) → Extends r.1 (finish_reaction e rd r).1
  unfolding finish_reaction
  finish_reaction-Extends rd (some v, s) = pass_on-Extends rd.resolve v s
  finish_reaction-Extends rd (none, s) =
      Extends-trans (get_exception-Extends s)
        (pass_on-Extends rd.reject (get_exception s).0 (get_exception s).1)

  js_create_resolving_functions-Extends :
      (s : State) → Extends s (js_create_resolving_functions e s).1
  unfolding js_create_resolving_functions
  js_create_resolving_functions-Extends s =
      let r = malloc_all e 5 s in
      elim (Bool-cases r.0) [
        | inl given ↦ rw given (Extends-trans (malloc_all-Extends e 5 s) (new_cell-Extends r.1))
        | inr refused ↦ rw refused (malloc_all-Extends e 5 s)
      ]

  reject_exception-Extends :
      (p c : ℕ) (r : Option Value × State) → Extends r.1 (reject_exception e p c r).1
  unfolding reject_exception
  reject_exception-Extends p c (some v, s) = Extends-refl s
  reject_exception-Extends p c (none, s) =
      Extends-trans (get_exception-Extends s)
        (js_call-Extends e law (resolving true p c) undefined _ (get_exception s).1)

  call_then-Extends :
      (p : ℕ) (v f : Value) (r : Option ℕ × State) → Extends r.1 (call_then e p v f r).1
  unfolding call_then
  call_then-Extends p v f (none, s) = Extends-refl s
  call_then-Extends p v f (some c, s) =
      Extends-trans (js_call-Extends e law f v _ s) (reject_exception-Extends p c _)

  pub run_job-Extends : (job : Job) (s : State) → Extends s (run_job e job s).1
  unfolding run_job promise_reaction_job js_promise_resolve_thenable_job
  run_job-Extends (reaction_job rd b v) s =
      Extends-trans (handler_result-Extends rd b v s)
        (finish_reaction-Extends rd (handler_result e rd b v s))
  run_job-Extends (thenable_job p v f) s =
      Extends-trans (js_create_resolving_functions-Extends s)
        (call_then-Extends p v f (js_create_resolving_functions e s))

  new_promise_lem : (s : State) → Extends s (new_promise e s).1
  unfolding new_promise
  new_promise_lem s =
      let r = malloc_all e 2 s in
      elim (Bool-cases r.0) [
        | inl given ↦ rw given (
            Extends-trans (malloc_all-Extends e 2 s) (new_promise-Extends r.1 (new_promise_data e)))
        | inr refused ↦ rw refused (malloc_all-Extends e 2 s)
      ]

  constructed-Extends : (p : ℕ) (r : Option Value × State) → Extends r.1 (constructed e p r).1
  unfolding constructed
  constructed-Extends p (none, s) = Extends-refl s
  constructed-Extends p (some v, s) = Extends-refl s

  call_executor-Extends :
      (p : ℕ) (f : Value) (r : Option ℕ × State) → Extends r.1 (call_executor e p f r).1
  unfolding call_executor
  call_executor-Extends p f (none, s) = Extends-refl s
  call_executor-Extends p f (some c, s) =
      Extends-trans (js_call-Extends e law f undefined _ s)
        (Extends-trans (reject_exception-Extends p c _) (constructed-Extends p _))

  construct-Extends : (f : Value) (r : Option ℕ × State) → Extends r.1 (construct e f r).1
  unfolding construct
  construct-Extends f (none, s) = Extends-refl s
  construct-Extends f (some p, s) =
      Extends-trans (js_create_resolving_functions-Extends s)
        (call_executor-Extends p f (js_create_resolving_functions e s))

  pub js_promise_constructor-Extends :
      (f : Value) (s : State) → Extends s (js_promise_constructor e f s).1
  unfolding js_promise_constructor
  js_promise_constructor-Extends f s = elim (Bool-cases (is_function e f)) [
    | inl function ↦
        rw function (Extends-trans (new_promise_lem s) (construct-Extends f (new_promise e s)))
    | inr other ↦ rw other (js_throw-Extends not_a_function s)
  ]

  -- A promise that is read again after the tracker, and marked as handled.
  mark_handled :
      (p : ℕ) (rd : Reaction) (b : Bool) (d : PromiseData) (s : State)
      → s.promises p ≡ some d
      → Extends s (
          set_promise p
            (record d { is_handled = true })
            (enqueue_job e (reaction_job rd b d.promise_result) s))
  mark_handled p rd b d s there =
      let job = reaction_job rd b d.promise_result in
      Extends-trans (enqueue_job-Extends e job s) (
        set_promise-Extends p (record d { is_handled = true }) (enqueue_job e job s)
          (λ o h. sym (ap outcome (ap (λ f. f p) (enqueue_job-promises e job s) ∙ there)) ∙ h))

  enqueue_reaction-Extends :
      (p : ℕ) (rd : Reaction) (b : Bool) (s : State) → Extends s (enqueue_reaction e p rd b s)
  unfolding enqueue_reaction
  enqueue_reaction-Extends p rd b s = elim (Option-cases (s.promises p)) [
    | inl missing ↦ rw (missing, enqueue_reaction) (Extends-refl s)
    | inr (d, there) ↦ rw (there, enqueue_reaction) (mark_handled p rd b d s there)
  ]

  then_settled-Extends :
      (p : ℕ) (rd : Reaction) (b : Bool) (d : PromiseData) (s : State)
      → Extends s (then_settled e p rd b d s)
  unfolding then_settled
  then_settled-Extends p rd b d s = elim (Bool-cases (b && not d.is_handled)) [
    | inl heard ↦
        rw heard
          (Extends-trans (law.tracks p d.promise_result true s) (enqueue_reaction-Extends p rd b _))
    | inr quiet ↦ rw quiet (enqueue_reaction-Extends p rd b s)
  ]

  add_reactions-Extends :
      (p : ℕ) (rd0 rd1 : Reaction) (s : State) → Extends s (add_reactions e p rd0 rd1 s)
  unfolding add_reactions
  add_reactions-Extends p rd0 rd1 s = elim (Option-cases (s.promises p)) [
    | inl missing ↦ rw (missing, add_reactions) (Extends-refl s)
    | inr (d, there) ↦ by_state d there _ refl
  ]
    where
      by_state :
          (d : PromiseData)
          → s.promises p ≡ some d
          → (st : PromiseState) → d.promise_state ≡ st
          → Extends s (add_reactions e p rd0 rd1 s)
      by_state d there pending h =
          rw (there, add_reactions, h)
            (set_promise-Extends p _ s
              (λ o k. absurd (pending_outcome d o h (sym (ap outcome there) ∙ k))))
      by_state d there fulfilled h =
          rw (there, add_reactions, h) (then_settled-Extends p rd0 false d s)
      by_state d there rejected h =
          rw (there, add_reactions, h) (then_settled-Extends p rd1 true d s)

  pub perform_promise_then-Extends :
      (p : ℕ) (f g resolve reject : Value) (s : State)
      → Extends s (perform_promise_then e p f g resolve reject s).1
  unfolding perform_promise_then
  perform_promise_then-Extends p f g resolve reject s =
      let r = malloc_all e 2 s in
      elim (Bool-cases r.0) [
        | inl given ↦
            rw given (Extends-trans (malloc_all-Extends e 2 s) (add_reactions-Extends p _ _ r.1))
        | inr refused ↦ rw refused (malloc_all-Extends e 2 s)
      ]
