-- ===== src/Engine/Promise/Extends.antt =====
-- What never changes back: a settled promise, a cell, and the jobs that wait.
use quickjs_runtime.Prelude.{
  ℕ, ◌+◌, ◌≤◌, ◌<◌, ◌≡◌, refl, sym, ap, ◌∙◌, Bool, true, false, ◌==◌, Option, none, some, List, [],
  ◌∷◌, ◌++◌, arith, Bool-cases, inl, inr, ==_iff,
}
use mathlib.Core.List.{append-nil, append_assoc}
use quickjs_runtime.Engine.Promise.{
  Value, pending, fulfilled, rejected, PromiseData, Job, State, set_promise, mark_resolved,
}

-- The result of a promise, and whether it is a rejection.
abbrev pub outcome_of : PromiseData → Option (Bool × Value)
outcome_of d = elim d.promise_state [
  | pending ↦ none
  | fulfilled ↦ some (false, d.promise_result)
  | rejected ↦ some (true, d.promise_result)
]

abbrev pub outcome : Option PromiseData → Option (Bool × Value)
outcome none = none
outcome (some d) = outcome_of d

pub record Extends (s s' : State) : Type 0 where
  pub settled :
      (p : ℕ) (o : Bool × Value)
      → p < s.next_promise
      → outcome (s.promises p) ≡ some o
      → outcome (s'.promises p) ≡ some o
  pub promises_grow : s.next_promise ≤ s'.next_promise
  pub cells : (c : ℕ) → c < s.next_cell → s.resolved c ≡ true → s'.resolved c ≡ true
  pub cells_grow : s.next_cell ≤ s'.next_cell
  pub more : List Job
  pub queue : s'.queue ≡ s.queue ++ more

pub Extends-refl : (s : State) → Extends s s
Extends-refl s = record {
  settled = λ p o l h. h;
  promises_grow = omega arith;
  cells = λ c h k. k;
  cells_grow = omega arith;
  more = [];
  queue = sym (append-nil s.queue);
}

pub Extends-trans : {s t u : State} → Extends s t → Extends t u → Extends s u
Extends-trans {s = s} a b = record {
  settled = λ p o l h. b.settled p o (let x = a.promises_grow in omega arith) (a.settled p o l h);
  promises_grow = (let x = a.promises_grow in let y = b.promises_grow in omega arith);
  cells = λ c h k. b.cells c (let x = a.cells_grow in omega arith) (a.cells c h k);
  cells_grow = (let x = a.cells_grow in let y = b.cells_grow in omega arith);
  more = a.more ++ b.more;
  queue = b.queue ∙ ap (λ q. q ++ b.more) a.queue ∙ append_assoc s.queue a.more b.more;
}

-- A state that differs in the exception and the number of requests alone.
pub Extends-same :
    (s : State) (v : Value) (n : ℕ) → Extends s (record s { exception = v; allocs = n })
Extends-same s v n = record {
  settled = λ p o l h. h;
  promises_grow = omega arith;
  cells = λ c h k. k;
  cells_grow = omega arith;
  more = [];
  queue = sym (append-nil s.queue);
}

pub Extends-job :
    (s : State) (job : Job) (n : ℕ)
    → Extends s (record s { allocs = n; queue = s.queue ++ job ∷ [] })
Extends-job s job n = record {
  settled = λ p o l h. h;
  promises_grow = omega arith;
  cells = λ c h k. k;
  cells_grow = omega arith;
  more = job ∷ [];
  queue = refl;
}

-- A promise is changed that is not settled, or not in its outcome.
pub set_promise-Extends :
    (p : ℕ) (d : PromiseData) (s : State)
    → ((o : Bool × Value) → outcome (s.promises p) ≡ some o → outcome_of d ≡ some o)
    → Extends s (set_promise p d s)
unfolding set_promise
set_promise-Extends p d s h = record {
  settled = λ q o l k. elim (Bool-cases (q == p)) [
    | inl same ↦ rw same (h o (ap (λ r. outcome (s.promises r)) (sym ((==_iff q p).0 same)) ∙ k))
    | inr other ↦ rw other k
  ];
  promises_grow = omega arith;
  cells = λ c h k. k;
  cells_grow = omega arith;
  more = [];
  queue = sym (append-nil s.queue);
}

pub mark_resolved-Extends : (c : ℕ) (s : State) → Extends s (mark_resolved c true s)
unfolding mark_resolved
mark_resolved-Extends c s = record {
  settled = λ p o l h. h;
  promises_grow = omega arith;
  cells = λ k h r. elim (Bool-cases (k == c)) [ inl same ↦ rw same refl | inr other ↦ rw other r ];
  cells_grow = omega arith;
  more = [];
  queue = sym (append-nil s.queue);
}

-- A new cell and a new promise.
pub new_cell-Extends :
    (s : State)
    → Extends s (mark_resolved s.next_cell false (record s { next_cell = s.next_cell + 1 }))
unfolding mark_resolved
new_cell-Extends s = record {
  settled = λ p o l h. h;
  promises_grow = omega arith;
  cells = λ c h r. let other : (c == s.next_cell) ≡ false = ground arith in rw other r;
  cells_grow = omega arith;
  more = [];
  queue = sym (append-nil s.queue);
}

pub new_promise-Extends :
    (s : State) (d : PromiseData)
    → Extends s (set_promise s.next_promise d (record s { next_promise = s.next_promise + 1 }))
unfolding set_promise
new_promise-Extends s d = record {
  settled = λ p o l h. let other : (p == s.next_promise) ≡ false = ground arith in rw other h;
  promises_grow = omega arith;
  cells = λ c h r. r;
  cells_grow = omega arith;
  more = [];
  queue = sym (append-nil s.queue);
}
