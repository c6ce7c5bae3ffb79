-- ===== src/Unicode/CharRange/Compress.antt =====
-- `cr_compress` of native/quickjs/libunicode.c keeps the set.
use quickjs_runtime.Prelude.{
  ℕ, ◌+◌, ◌≤◌, ◌<◌, ◌≡◌, refl, sym, ap, Bool, true, false, leb, ◌==◌, inl, inr, Option, none, some,
  List, [], ◌∷◌, arith, Bool-cases, ==_iff,
}
use quickjs_runtime.Unicode.CharRange.{compress_loop}
use quickjs_runtime.Unicode.CharRange.Cover.{xor, covers, AtLeast, Sorted, AtLeast-weaken, Paired}

-- The points that the interval that is growing stands for.
abbrev pub pending : Option (ℕ × ℕ) → List ℕ → List ℕ
pending none ps = ps
pending (some (p, q)) ps = p ∷ q ∷ ps

twice : (a b : Bool) → xor a (xor a b) ≡ b
twice true true = refl
twice true false = refl
twice false b = refl

-- The same code points are covered, for an even number of points in any order.
pub covers-compress_loop :
    (c : ℕ) (open_interval : Option (ℕ × ℕ)) (ps : List ℕ)
    → Paired ps
    → covers c (compress_loop open_interval ps) ≡ covers c (pending open_interval ps)
unfolding compress_loop covers
covers-compress_loop c none [] e = refl
covers-compress_loop c none (p ∷ []) e = elim e [ ]
covers-compress_loop c none (p ∷ q ∷ ps) e = elim (Bool-cases (p == q)) [
  | inl same ↦
      rw (same, covers-compress_loop c none ps e, (==_iff p q).0 same)
        (sym (twice (leb q c) (covers c ps)))
  | inr other ↦ rw other (covers-compress_loop c (some (p, q)) ps e)
]
covers-compress_loop c (some (p, q)) [] e = refl
covers-compress_loop c (some (p, q)) (r ∷ []) e = elim e [ ]
covers-compress_loop c (some (p, q)) (r ∷ s ∷ ps) e = elim (Bool-cases (q == r)) [
  | inl same ↦
      rw (same, covers-compress_loop c (some (p, s)) ps e, (==_iff q r).0 same)
        (ap (xor (leb p c)) (sym (twice (leb r c) (xor (leb s c) (covers c ps)))))
  | inr other ↦ elim (Bool-cases (r == s)) [
    | inl empty ↦
        rw (other, empty, covers-compress_loop c none ps e, (==_iff r s).0 empty)
          (ap (λ b. xor (leb p c) (xor (leb q c) b)) (sym (twice (leb s c) (covers c ps))))
    | inr full ↦
        rw (other, full)
          (ap (λ b. xor (leb p c) (xor (leb q c) b)) (covers-compress_loop c (some (r, s)) ps e))
  ]
]

-- Every point is above the one before it, and not below `low`.
abbrev pub Increasing : ℕ → List ℕ → Type 0
Increasing low [] = Unit
Increasing low (p ∷ ps) = (low ≤ p) × Increasing (p + 1) ps

abbrev pub Wide : Option (ℕ × ℕ) → Type 0
Wide none = Unit
Wide (some (p, q)) = p < q

-- Of sorted points it leaves intervals that are not empty and do not touch.
pub compress_loop-Increasing :
    (low : ℕ) (open_interval : Option (ℕ × ℕ)) (ps : List ℕ)
    → Paired ps
    → Wide open_interval
    → Sorted (pending open_interval ps)
    → AtLeast low (pending open_interval ps)
    → Increasing low (compress_loop open_interval ps) × Paired (compress_loop open_interval ps)
unfolding compress_loop
compress_loop-Increasing low none [] e w s a = (tt, tt)
compress_loop-Increasing low none (p ∷ []) e w s a = elim e [ ]
compress_loop-Increasing low none (p ∷ q ∷ ps) e w s a = elim (Bool-cases (p == q)) [
  | inl same ↦ rw same (compress_loop-Increasing low none ps e tt s.1.1 a.1.1)
  | inr other ↦
      rw other (compress_loop-Increasing low (some (p, q)) ps e (let h = s.0.0 in ground arith) s a)
]
compress_loop-Increasing low (some (p, q)) [] e w s a = ((a.0, (omega arith, tt)), tt)
compress_loop-Increasing low (some (p, q)) (r ∷ []) e w s a = elim e [ ]
compress_loop-Increasing low (some (p, q)) (r ∷ s ∷ ps) e w so a =
    let h : q ≤ r = so.1.0.0 in
    let k : q ≤ s = so.1.0.1.0 in
    elim (Bool-cases (q == r)) [
      | inl same ↦ rw same (
          compress_loop-Increasing low (some (p, s)) ps e (omega arith) (so.0.1.1, so.1.1.1)
            (a.0, a.1.1.1))
      | inr other ↦
          let gap : q < r = ground arith in
          let far = AtLeast-weaken (q + 1) r (s ∷ ps) (omega arith) so.1.1.0 in
          elim (Bool-cases (r == s)) [
            | inl empty ↦
                let rest = compress_loop-Increasing (q + 1) none ps e tt so.1.1.1.1 far.1 in
                rw (other, empty) ((a.0, (omega arith, rest.0)), rest.1)
            | inr full ↦
                let rest =
                  compress_loop-Increasing (q + 1) (some (r, s)) ps e
                    (let j = so.1.1.0.0 in ground arith) so.1.1 (omega arith, far) in
                rw (other, full) ((a.0, (omega arith, rest.0)), rest.1)
          ]
    ]

pub Increasing-AtLeast : (low : ℕ) (ps : List ℕ) → Increasing low ps → AtLeast low ps
Increasing-AtLeast low [] i = tt
Increasing-AtLeast low (p ∷ ps) i = (
  i.0,
  AtLeast-weaken low (p + 1) ps (let h = i.0 in omega arith) (Increasing-AtLeast (p + 1) ps i.1),
)

pub Increasing-Sorted : (low : ℕ) (ps : List ℕ) → Increasing low ps → Sorted ps
Increasing-Sorted low [] i = tt
Increasing-Sorted low (p ∷ ps) i = (
  AtLeast-weaken p (p + 1) ps (omega arith) (Increasing-AtLeast (p + 1) ps i.1),
  Increasing-Sorted (p + 1) ps i.1,
)
