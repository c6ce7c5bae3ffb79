-- ===== src/Engine/Promise/Order.antt =====
-- It does not matter whether `then` is called before a promise settles or after it.
use quickjs_runtime.Prelude.{
  ℕ, ◌+◌, ◌≡◌, refl, ap, ◌∙◌, Bool, true, false, none, some, [], ◌∷◌, ◌++◌, map, inr,
}
use mathlib.Core.List.{append-nil}
use quickjs_runtime.Engine.Promise.{
  Value, pending, Reaction, PromiseData, reaction_job, State, Environment, set_promise, js_malloc,
  track, fulfill_or_reject_promise, settled_state, reactions, malloc_all,
}
use quickjs_runtime.Engine.Promise.Jobs.{
  enqueue_reaction, then_settled, add_reactions, perform_promise_then, handler_of,
}
use quickjs_runtime.Engine.Promise.Settle.{
  settled_data, set_promise-there, enqueue_job-queue, fulfill_or_reject_promise-IsSettled,
}

-- A pending promise that no `then` has been called on, and one that has settled and is handled.
abbrev pub waiting : Bool → Value → PromiseData
waiting h r = record {
  promise_state = pending;
  on_fulfill = [];
  on_reject = [];
  is_handled = h;
  promise_result = r;
}

abbrev pub answered : Value → Bool → PromiseData
answered v b = record {
  promise_state = settled_state b;
  on_fulfill = [];
  on_reject = [];
  is_handled = true;
  promise_result = v;
}

-- The reaction of one kind, of the two that `then` makes.
abbrev pub chosen : Environment → Bool → Value → Value → Value → Value → Reaction
chosen e false f g resolve reject = record {
  resolve = resolve;
  reject = reject;
  handler = handler_of e f;
}
chosen e true f g resolve reject = record {
  resolve = resolve;
  reject = reject;
  handler = handler_of e g;
}

-- What both orders come to: the one job of the reaction that was asked for, and a settled promise
-- that is handled.
pub record IsAnswered (p : ℕ) (v : Value) (b : Bool) (rd : Reaction) (s s' : State) : Type 0 where
  pub promise : s'.promises p ≡ some (answered v b)
  pub queue : s'.queue ≡ s.queue ++ reaction_job rd b v ∷ []

module _ (e : Environment) (granted : (n : ℕ) → e.grants n ≡ true)
    (no_tracker : e.tracker ≡ none) where
  malloc_two : (s : State) → malloc_all e 2 s ≡ (true, record s { allocs = s.allocs + 1 + 1 })
  unfolding malloc_all js_malloc
  malloc_two s = rw (granted s.allocs, granted (s.allocs + 1)) refl

  perform_promise_then_lem :
      (p : ℕ) (f g resolve reject : Value) (s : State)
      → perform_promise_then e p f g resolve reject s ≡ (
        false,
        add_reactions e p
            (chosen e false f g resolve reject)
            (chosen e true f g resolve reject)
            (record s { allocs = s.allocs + 1 + 1 }),
      )
  unfolding perform_promise_then
  perform_promise_then_lem p f g resolve reject s = rw (malloc_two s) refl

  add_reactions-waiting :
      (p : ℕ) (rd0 rd1 : Reaction) (h : Bool) (r : Value) (s : State)
      → s.promises p ≡ some (waiting h r)
      → add_reactions e p rd0 rd1 s
        ≡ set_promise p
            (record (waiting h r) {
              on_fulfill = rd0 ∷ [];
              on_reject = rd1 ∷ [];
              is_handled = true;
            })
            s
  unfolding add_reactions
  add_reactions-waiting p rd0 rd1 h r s there = rw (there, add_reactions) refl

  reaction_of :
      (b : Bool) (f g resolve reject : Value) (h : Bool) (r v : Value)
      → reactions b (record (waiting h r) {
        on_fulfill = chosen e false f g resolve reject ∷ [];
        on_reject = chosen e true f g resolve reject ∷ [];
        is_handled = true;
      })
        ≡ chosen e b f g resolve reject ∷ []
  reaction_of true f g resolve reject h r v = refl
  reaction_of false f g resolve reject h r v = refl

  -- First `then`, and later the promise settles.
  then_before :
      (p : ℕ) (f g resolve reject v : Value) (b h : Bool) (r : Value) (s : State)
      → s.promises p ≡ some (waiting h r)
      → IsAnswered p v b
          (chosen e b f g resolve reject)
          s
          (fulfill_or_reject_promise e p v b (perform_promise_then e p f g resolve reject s).1)
  then_before p f g resolve reject v b h r s there =
      let d : PromiseData = record (waiting h r) {
        on_fulfill = chosen e false f g resolve reject ∷ [];
        on_reject = chosen e true f g resolve reject ∷ [];
        is_handled = true;
      } in
      let s0 : State = record s { allocs = s.allocs + 1 + 1 } in
      let s1 = set_promise p d s0 in
      let done =
        fulfill_or_reject_promise-IsSettled e granted p v b d s1 (set_promise-there p d s0) refl
          (inr no_tracker) in
      rw (perform_promise_then_lem p f g resolve reject s, add_reactions-waiting p _ _ h r s0 there)
        (record {
          promise = done.promise;
          queue =
              done.queue
              ∙ (unfold set_promise in
                  ap (λ rds. s.queue ++ map (λ rd. reaction_job rd b v) rds)
                    (reaction_of b f g resolve reject h r v));
        })

  add_reactions_settled :
      (p : ℕ) (b : Bool) (f g resolve reject v : Value) (h : Bool) (r : Value) (s : State)
      → s.promises p ≡ some (settled_data v b (waiting h r))
      → add_reactions e p (chosen e false f g resolve reject) (chosen e true f g resolve reject) s
        ≡ enqueue_reaction e p (chosen e b f g resolve reject) b s
  unfolding add_reactions then_settled track
  add_reactions_settled p true f g resolve reject v true r s there = rw (there, add_reactions) refl
  add_reactions_settled p true f g resolve reject v false r s there =
      rw (there, add_reactions, no_tracker) refl
  add_reactions_settled p false f g resolve reject v h r s there = rw (there, add_reactions) refl

  enqueue_reaction_lem :
      (p : ℕ) (rd : Reaction) (b : Bool) (d : PromiseData) (s : State)
      → s.promises p ≡ some d
      → ((enqueue_reaction e p rd b s).promises p ≡ some (record d { is_handled = true }))
        × ((enqueue_reaction e p rd b s).queue ≡ s.queue ++ reaction_job rd b d.promise_result ∷ [])
  unfolding enqueue_reaction
  enqueue_reaction_lem p rd b d s there = (
    rw (there, enqueue_reaction) (set_promise-there p (record d { is_handled = true }) _),
    rw (there, enqueue_reaction)
        (unfold set_promise in enqueue_job-queue e granted (reaction_job rd b d.promise_result) s),
  )

  -- The promise settles, and later `then` is called.
  then_after :
      (p : ℕ) (f g resolve reject v : Value) (b h : Bool) (r : Value) (s : State)
      → s.promises p ≡ some (waiting h r)
      → IsAnswered p v b
          (chosen e b f g resolve reject)
          s
          (perform_promise_then e p f g resolve reject (fulfill_or_reject_promise e p v b s)).1
  then_after p f g resolve reject v b h r s there =
      let s1 = fulfill_or_reject_promise e p v b s in
      let done =
        fulfill_or_reject_promise-IsSettled e granted p v b (waiting h r) s there refl
          (inr no_tracker) in
      let s2 : State = record s1 { allocs = s1.allocs + 1 + 1 } in
      let last =
        enqueue_reaction_lem p (chosen e b f g resolve reject) b (settled_data v b (waiting h r)) s2
          done.promise in
      rw
        (
          perform_promise_then_lem p f g resolve reject s1,
          add_reactions_settled p b f g resolve reject v h r s2 done.promise,
        )
        (record {
          promise = last.0;
          queue =
              last.1
              ∙ ap (λ q. q ++ reaction_job (chosen e b f g resolve reject) b v ∷ [])
                  (done.queue ∙ nothing b h r v s);
        })
    where
      nothing :
          (b h : Bool) (r v : Value) (s : State)
          → s.queue ++ map (λ rd. reaction_job rd b v) (reactions b (waiting h r)) ≡ s.queue
      nothing true h r v s = append-nil s.queue
      nothing false h r v s = append-nil s.queue

  -- In a host with memory and without a rejection tracker, `then` on a pending promise without
  -- reactions comes to the same before the promise settles and after it: the one job of the
  -- reaction that was asked for, and a settled promise that is handled.
  pub then_order :
      (p : ℕ) (f g resolve reject v : Value) (b h : Bool) (r : Value) (s : State)
      → s.promises p ≡ some (waiting h r)
      → IsAnswered p v b
          (chosen e b f g resolve reject)
          s
          (fulfill_or_reject_promise e p v b (perform_promise_then e p f g resolve reject s).1)
        × IsAnswered p v b
            (chosen e b f g resolve reject)
            s
            (perform_promise_then e p f g resolve reject (fulfill_or_reject_promise e p v b s)).1
  then_order p f g resolve reject v b h r s there = (
    then_before p f g resolve reject v b h r s there,
    then_after p f g resolve reject v b h r s there,
  )
