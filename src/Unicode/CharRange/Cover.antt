-- ===== src/Unicode/CharRange/Cover.antt =====
-- Which code points a list of points stands for.
use quickjs_runtime.Prelude.{
  ℕ, ◌+◌, ◌%◌, ◌≤◌, ◌<◌, ◌≡◌, refl, ◌∙◌, Bool, true, false, not, ◌&&◌, ◌||◌, ltb, leb, ◌==◌, List,
  [], ◌∷◌, bit_and, bit_or, bit_xor, arith, Bool-cases, inl, inr, ltb→lt,
}
use quickjs_runtime.Prelude.Bits.{bit_and_mask}
use quickjs_runtime.Unicode.CharRange.{CharRangeOp, cr_op_union, cr_op_inter, cr_op_xor, is_in}

abbrev pub xor : Bool → Bool → Bool
xor true b = not b
xor false b = b

-- A code point is covered when an odd number of the points is not above it.
unfoldable pub covers : ℕ → List ℕ → Bool
covers c [] = false
covers c (p ∷ ps) = xor (leb p c) (covers c ps)

pub move_not : (a b : Bool) → xor (not a) b ≡ xor a (not b)
move_not true true = refl
move_not true false = refl
move_not false b = refl

pub drop_false : (a : Bool) → xor a false ≡ a
drop_false true = refl
drop_false false = refl

-- The same set as half-open intervals.
unfoldable pub in_ranges : ℕ → List ℕ → Bool
in_ranges c [] = false
in_ranges c (p ∷ []) = false
in_ranges c (p ∷ q ∷ ps) = (leb p c && ltb c q) || in_ranges c ps

abbrev pub AtLeast : ℕ → List ℕ → Type 0
AtLeast x [] = Unit
AtLeast x (y ∷ ys) = (x ≤ y) × AtLeast x ys

abbrev pub Sorted : List ℕ → Type 0
Sorted [] = Unit
Sorted (x ∷ xs) = AtLeast x xs × Sorted xs

abbrev pub Paired : List ℕ → Type 0
Paired [] = Unit
Paired (p ∷ []) = ⊥
Paired (p ∷ q ∷ ps) = Paired ps

pub AtLeast-weaken : (x y : ℕ) (ps : List ℕ) → x ≤ y → AtLeast y ps → AtLeast x ps
AtLeast-weaken x y [] h a = tt
AtLeast-weaken x y (p ∷ ps) h a = (omega (arith, a.0), AtLeast-weaken x y ps h a.1)

-- Below the first point nothing is covered.
pub covers-below : (c x : ℕ) (ps : List ℕ) → c < x → AtLeast x ps → covers c ps ≡ false
unfolding covers
covers-below c x [] h a = refl
covers-below c x (p ∷ ps) h a =
    let e : leb p c ≡ false = (let q = a.0 in ground arith) in
    rw (e, covers-below c x ps h a.1) refl

in_ranges-below : (c x : ℕ) (ps : List ℕ) → c < x → AtLeast x ps → in_ranges c ps ≡ false
unfolding in_ranges
in_ranges-below c x [] h a = refl
in_ranges-below c x (p ∷ []) h a = refl
in_ranges-below c x (p ∷ q ∷ ps) h a =
    let e : leb p c ≡ false = (let q = a.0 in ground arith) in
    rw (e, in_ranges-below c x ps h a.1.1) refl

-- For sorted points, even in number, the two readings agree.
pub covers-in_ranges : (c : ℕ) (ps : List ℕ) → Sorted ps → Paired ps → covers c ps ≡ in_ranges c ps
unfolding covers in_ranges
covers-in_ranges c [] s e = refl
covers-in_ranges c (p ∷ []) s e = elim e [ ]
covers-in_ranges c (p ∷ q ∷ ps) s e = elim (Bool-cases (ltb c q)) [
  | inl low ↦
      let above : leb q c ≡ false = ground arith in
      rw
        (
          low,
          above,
          covers-below c q ps (ltb→lt c q low) s.1.0,
          in_ranges-below c q ps (ltb→lt c q low) s.1.0,
        )
        (both (leb p c))
  | inr high ↦
      let above : leb q c ≡ true = ground arith in
      let below : leb p c ≡ true = (let h = s.0.0 in ground arith) in
      rw (high, above, below) (twice (covers c ps) ∙ covers-in_ranges c ps s.1.1 e)
]
  where
    both : (b : Bool) → xor b (xor false false) ≡ ((b && true) || false)
    both true = refl
    both false = refl

    twice : (b : Bool) → not (not b) ≡ b
    twice true = refl
    twice false = refl

-- The three operations on membership.
unfoldable pub combine : CharRangeOp → Bool → Bool → Bool
combine cr_op_union a b = a || b
combine cr_op_inter a b = a && b
combine cr_op_xor a b = xor a b

abbrev pub odd : ℕ → Bool
odd n = n % 2 == 1

abbrev pub bit : Bool → ℕ
bit true = 1
bit false = 0

pub odd-suc : (n : ℕ) → odd (n + 1) ≡ not (odd n)
odd-suc n = ground arith

bit_and_one : (n : ℕ) → bit_and n 1 ≡ bit (odd n)
bit_and_one n = bit_and_mask 1 n ∙ ground arith

is_in-combine : (op : CharRangeOp) (i j : ℕ) → is_in op i j ≡ bit (combine op (odd i) (odd j))
unfolding is_in combine
is_in-combine cr_op_union i j = rw (bit_and_one i, bit_and_one j) (joined (odd i) (odd j))
  where
    joined : (a b : Bool) → bit_or (bit a) (bit b) ≡ bit (a || b)
    joined true true = refl
    joined true false = refl
    joined false true = refl
    joined false false = refl
is_in-combine cr_op_inter i j = rw (bit_and_one i, bit_and_one j) (met (odd i) (odd j))
  where
    met : (a b : Bool) → bit_and (bit a) (bit b) ≡ bit (a && b)
    met true true = refl
    met true false = refl
    met false true = refl
    met false false = refl
is_in-combine cr_op_xor i j = rw (bit_and_one i, bit_and_one j) (apart (odd i) (odd j))
  where
    apart : (a b : Bool) → bit_xor (bit a) (bit b) ≡ bit (xor a b)
    apart true true = refl
    apart true false = refl
    apart false true = refl
    apart false false = refl

-- The test for an unchanged status, on membership.
pub is_in-length :
    (op : CharRangeOp) (i j n : ℕ)
    → (is_in op i j == bit_and n 1) ≡ not (xor (combine op (odd i) (odd j)) (odd n))
is_in-length op i j n =
    rw (is_in-combine op i j, bit_and_one n) (same (combine op (odd i) (odd j)) (odd n))
  where
    same : (a b : Bool) → (bit a == bit b) ≡ not (xor a b)
    same true true = refl
    same true false = refl
    same false true = refl
    same false false = refl
