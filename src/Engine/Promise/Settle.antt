-- ===== src/Engine/Promise/Settle.antt =====
-- What settling a promise does, and that the order of `then` and of settling does not matter.
use quickjs_runtime.Prelude.{
  ℕ, ◌≡◌, refl, sym, ap, ◌∙◌, Bool, true, false, not, ◌&&◌, none, some, List, [], ◌∷◌, ◌++◌, map,
  Bool-cases, inl, inr, ◌⊎◌, ==_iff,
}
use mathlib.Core.List.{append-nil, append_assoc}
use quickjs_runtime.Engine.Promise.{
  Value, pending, Reaction, PromiseData, Job, reaction_job, State, Environment, set_promise,
  js_malloc, enqueue_job, enqueue_reactions, track, run_reactions, settle,
  fulfill_or_reject_promise, settled_state, reactions,
}

abbrev pub settled_data : Value → Bool → PromiseData → PromiseData
settled_data v b d = record d {
  promise_state = settled_state b;
  promise_result = v;
  on_fulfill = [];
  on_reject = [];
}

same_reactions :
    (v : Value) (b : Bool) (d : PromiseData)
    → reactions b (record d { promise_state = settled_state b; promise_result = v }) ≡ reactions b d
same_reactions v true d = refl
same_reactions v false d = refl

-- A promise settled with memory for the jobs: all its reactions of the one kind wait in their
-- order, and it has none left.
pub record IsSettled (p : ℕ) (v : Value) (b : Bool) (d : PromiseData) (s s' : State) : Type 0 where
  pub promise : s'.promises p ≡ some (settled_data v b d)
  pub queue : s'.queue ≡ s.queue ++ map (λ rd. reaction_job rd b v) (reactions b d)

pub set_promise-there :
    (p : ℕ) (d : PromiseData) (s : State) → (set_promise p d s).promises p ≡ some d
unfolding set_promise
set_promise-there p d s = let q = (==_iff p p).1 refl in rw q refl

module _ (e : Environment) (granted : (n : ℕ) → e.grants n ≡ true) where
  pub enqueue_job-queue :
      (job : Job) (s : State) → (enqueue_job e job s).queue ≡ s.queue ++ job ∷ []
  unfolding enqueue_job js_malloc
  enqueue_job-queue job s = rw (granted s.allocs) refl

  enqueue_reactions-queue :
      (rds : List Reaction) (b : Bool) (v : Value) (s : State)
      → (enqueue_reactions e rds b v s).queue ≡ s.queue ++ map (λ rd. reaction_job rd b v) rds
  unfolding enqueue_reactions
  enqueue_reactions-queue [] b v s = sym (append-nil s.queue)
  enqueue_reactions-queue (rd ∷ rds) b v s =
      enqueue_reactions-queue rds b v (enqueue_job e (reaction_job rd b v) s)
      ∙ ap (λ q. q ++ map (λ r. reaction_job r b v) rds) (enqueue_job-queue (reaction_job rd b v) s)
      ∙ append_assoc s.queue (reaction_job rd b v ∷ []) (map (λ r. reaction_job r b v) rds)

  run_reactions-queue :
      (p : ℕ) (v : Value) (b : Bool) (d : PromiseData) (s : State)
      → s.promises p ≡ some d
      → (run_reactions e p v b s).queue ≡ s.queue ++ map (λ rd. reaction_job rd b v) (reactions b d)
  unfolding run_reactions
  run_reactions-queue p v b d s there =
      rw (there, run_reactions)
        (unfold set_promise in enqueue_reactions-queue (reactions b d) b v s)

  run_reactions-there :
      (p : ℕ) (v : Value) (b : Bool) (d : PromiseData) (s : State)
      → s.promises p ≡ some d
      → (run_reactions e p v b s).promises p ≡ some (record d { on_fulfill = []; on_reject = [] })
  unfolding run_reactions
  run_reactions-there p v b d s there =
      rw (there, run_reactions)
        (set_promise-there p (record d { on_fulfill = []; on_reject = [] }) _)

  settle-quiet :
      (p : ℕ) (v : Value) (b : Bool) (d : PromiseData) (s : State)
      → ((b && not d.is_handled) ≡ false) ⊎ (e.tracker ≡ none)
      → settle e p v b d s
        ≡ run_reactions e p v b
            (set_promise p (record d { promise_state = settled_state b; promise_result = v }) s)
  unfolding settle track
  settle-quiet p v b d s (inl quiet) = rw quiet refl
  settle-quiet p v b d s (inr no_tracker) = elim (Bool-cases (b && not d.is_handled)) [
    | inl loud ↦ rw (loud, no_tracker) refl
    | inr quiet ↦ rw quiet refl
  ]

  fulfill-pending :
      (p : ℕ) (v : Value) (b : Bool) (d : PromiseData) (s : State)
      → s.promises p ≡ some d
      → d.promise_state ≡ pending
      → fulfill_or_reject_promise e p v b s ≡ settle e p v b d s
  unfolding fulfill_or_reject_promise settle
  fulfill-pending p v b d s there open_still =
      rw (there, fulfill_or_reject_promise, open_still) refl

  -- A pending promise is settled, with memory for the jobs, where no rejection is tracked: a
  -- fulfilment, the rejection of a promise that is handled, or a host without a tracker.
  pub fulfill_or_reject_promise-IsSettled :
      (p : ℕ) (v : Value) (b : Bool) (d : PromiseData) (s : State)
      → s.promises p ≡ some d
      → d.promise_state ≡ pending
      → ((b && not d.is_handled) ≡ false) ⊎ (e.tracker ≡ none)
      → IsSettled p v b d s (fulfill_or_reject_promise e p v b s)
  fulfill_or_reject_promise-IsSettled p v b d s there open_still quiet =
      let d1 : PromiseData = record d { promise_state = settled_state b; promise_result = v } in
      let s1 = set_promise p d1 s in
      let now = set_promise-there p d1 s in
      rw (fulfill-pending p v b d s there open_still, settle-quiet p v b d s quiet)
        (record {
          promise = run_reactions-there p v b d1 s1 now;
          queue =
              run_reactions-queue p v b d1 s1 now
              ∙ (unfold set_promise in
                  ap (λ rds. s.queue ++ map (λ rd. reaction_job rd b v) rds)
                    (same_reactions v b d));
        })
