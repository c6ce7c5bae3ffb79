-- ===== src/Cutils/DynBuf/Writes.antt =====
-- Several appends to a `DynBuf`, whose results the code does not look at.
use quickjs_runtime.Prelude.{
  ℕ, ◌+◌, ◌≤◌, ◌≡◌, refl, sym, ap, ◌∙◌, ◌⊎◌, inl, inr, Bool, true, false, Option, some, List, [],
  ◌++◌, length, arith, Bool-cases, length-append, length-take,
}
use mathlib.Core.List.{append_assoc, append-nil}
use quickjs_runtime.Cutils.DynBuf.{DynBuf, Outcome, returns}
use quickjs_runtime.Cutils.DynBuf.Growth.{IsValid, contents}
use quickjs_runtime.Cutils.DynBuf.Laws.{IsAppended}

-- A result of a writer: it is reached, the buffer is valid and has grown by the bytes at most, and
-- it holds all of them or is marked.
pub record IsWritten (s : DynBuf) (bytes : List ℕ) (o : Option Outcome) : Type 0 where
  pub s' : DynBuf
  pub failed : Bool
  pub returned : o ≡ some (returns s' failed)
  pub valid : IsValid s'
  pub grown : s'.size ≤ s.size + length bytes
  pub result :
      (s'.error ≡ true)
      ⊎ ((s.error ≡ false) × (s'.error ≡ false) × (contents s' ≡ contents s ++ bytes))

length-contents : (s : DynBuf) → IsValid s → length (contents s) ≡ s.size
length-contents s v = omega (arith, length-take s.size s.buf, v.whole, v.within)

pub IsAppended-size :
    (s : DynBuf) (bytes : List ℕ) (o : Outcome)
    → IsValid s
    → (a : IsAppended s bytes o) → a.s'.size ≤ s.size + length bytes
IsAppended-size s bytes o v a =
    let before = length-contents s v in
    let after = length-contents a.s' a.valid in
    elim a.result [
      | inl (f, c, e) ↦ omega (arith, before, after, ap length c, length-append (contents s) bytes)
      | inr (f, c, e) ↦ omega (arith, before, after, ap length c)
    ]

pub IsWritten-one :
    (s : DynBuf) (bytes : List ℕ) (o : Outcome)
    → IsValid s
    → IsAppended s bytes o
    → IsWritten s bytes (some o)
IsWritten-one s bytes o v a = record {
  s' = a.s';
  failed = a.failed;
  returned = ap some a.returned;
  valid = a.valid;
  grown = IsAppended-size s bytes o v a;
  result = elim a.result [
    | inl (f, c, e) ↦ elim (Bool-cases s.error) [
      | inl bad ↦ inl (e ∙ bad)
      | inr good ↦ inr (good, e ∙ good, c)
    ]
    | inr (f, c, e) ↦ inl e
  ];
}

-- No write at all, to a buffer in good order or not.
pub IsWritten-none :
    (s : DynBuf) (failed : Bool) → IsValid s → IsWritten s [] (some (returns s failed))
IsWritten-none s failed v = record {
  s' = s;
  failed = failed;
  returned = refl;
  valid = v;
  grown = omega arith;
  result = elim (Bool-cases s.error) [
    | inl bad ↦ inl bad
    | inr good ↦ inr (good, good, sym (append-nil (contents s)))
  ];
}

-- A writer that goes on where another one has ended.
pub IsWritten-more :
    (s : DynBuf) (bytes more : List ℕ) (o o' : Option Outcome) (w : IsWritten s bytes o)
    → IsWritten w.s' more o'
    → IsWritten s (bytes ++ more) o'
IsWritten-more s bytes more o o' first w = record {
  s' = w.s';
  failed = w.failed;
  returned = w.returned;
  valid = w.valid;
  grown = omega (arith, w.grown, first.grown, length-append bytes more);
  result = elim w.result [
    | inl bad ↦ inl bad
    | inr (e, e', c) ↦ elim first.result [
      | inl bad ↦ ground arith
      | inr (f, f', d) ↦
          inr (f, e', c ∙ ap (λ xs. xs ++ more) d ∙ append_assoc (contents s) bytes more)
    ]
  ];
}

-- An append in front of the writes that go on after it.
pub IsWritten-append :
    (s : DynBuf) (bytes more : List ℕ) (o : Outcome) (o' : Option Outcome)
    → IsValid s
    → (a : IsAppended s bytes o) → IsWritten a.s' more o'
    → IsWritten s (bytes ++ more) o'
unfolding IsWritten-one
IsWritten-append s bytes more o o' v a w =
    IsWritten-more s bytes more (some o) o' (IsWritten-one s bytes o v a) w
