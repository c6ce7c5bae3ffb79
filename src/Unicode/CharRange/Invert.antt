-- ===== src/Unicode/CharRange/Invert.antt =====
-- `cr_union1` and `cr_invert` of native/quickjs/libunicode.c.
use quickjs_runtime.Prelude.{
  ℕ, ◌+◌, ◌≤◌, ◌<◌, ◌≡◌, refl, sym, ap, ap₂, subst, ◌∙◌, Bool, true, false, not, ◌⊎◌, inl, inr, ltb,
  leb, ◌&&◌, ◌||◌, none, some, List, [], ◌∷◌, ◌++◌, length, arith, Bool-cases,
}
use quickjs_runtime.Unicode.CharRange.{
  CharRange, cr_op_union, cr_union1, cr_init, cr_compress, compress_loop, cr_invert, invert_points,
}
use quickjs_runtime.Unicode.CharRange.Cover.{
  xor, covers, in_ranges, covers-in_ranges, AtLeast, Sorted, Paired, combine, drop_false,
}
use quickjs_runtime.Unicode.CharRange.Next.{Refusal, cr_realloc-cases}
use quickjs_runtime.Unicode.CharRange.Sets.{
  IsComputed, cr_op-IsComputed, compress-IsCompact, in_ranges-compress, AtLeast-zero,
}

abbrev pub last_point : ℕ
last_point = 0xffffffff

abbrev pub AtMost : ℕ → List ℕ → Type 0
AtMost x [] = Unit
AtMost x (y ∷ ys) = (y ≤ x) × AtMost x ys

module _ (grants : ℕ → Bool) where
  -- The points of a set and those of another are united, for sorted points in pairs and with more
  -- fuel than points, unless the allocator refuses a request.
  pub cr_union1-IsComputed :
      (fuel : ℕ) (cr : CharRange) (b_pt : List ℕ)
      → length cr.points + length b_pt < fuel
      → Sorted cr.points
      → Sorted b_pt
      → Paired cr.points
      → Paired b_pt
      → IsComputed grants
          (λ c. in_ranges c cr.points || in_ranges c b_pt)
          (cr_union1 grants fuel cr b_pt)
  unfolding cr_union1 cr_init combine
  cr_union1-IsComputed fuel cr b_pt enough s t e f =
      cr_op-IsComputed grants fuel cr_op_union cr.points b_pt 0 enough s t e f

regroup : (a b c : Bool) → xor (xor a b) c ≡ xor a (xor b c)
regroup true true c = not_not c
  where
    not_not : (b : Bool) → b ≡ not (not b)
    not_not true = refl
    not_not false = refl
regroup true false c = refl
regroup false b c = refl

covers-append : (c : ℕ) (ps qs : List ℕ) → covers c (ps ++ qs) ≡ xor (covers c ps) (covers c qs)
unfolding covers
covers-append c [] qs = refl
covers-append c (p ∷ ps) qs =
    ap (xor (leb p c)) (covers-append c ps qs) ∙ sym (regroup (leb p c) (covers c ps) (covers c qs))

in_ranges-above : (c m : ℕ) (ps : List ℕ) → m ≤ c → AtMost m ps → in_ranges c ps ≡ false
unfolding in_ranges
in_ranges-above c m [] h a = refl
in_ranges-above c m (p ∷ []) h a = refl
in_ranges-above c m (p ∷ q ∷ ps) h a =
    let e : ltb c q ≡ false = (let k = a.1.0 in ground arith) in
    rw (e, in_ranges-above c m ps h a.1.1) (neither (leb p c))
  where
    neither : (b : Bool) → ((b && false) || false) ≡ false
    neither true = refl
    neither false = refl

AtLeast-snoc : (x m : ℕ) (ps : List ℕ) → x ≤ m → AtLeast x ps → AtLeast x (ps ++ m ∷ [])
AtLeast-snoc x m [] h a = (h, tt)
AtLeast-snoc x m (p ∷ ps) h a = (a.0, AtLeast-snoc x m ps h a.1)

Sorted-snoc : (m : ℕ) (ps : List ℕ) → Sorted ps → AtMost m ps → Sorted (ps ++ m ∷ [])
Sorted-snoc m [] s a = (tt, tt)
Sorted-snoc m (p ∷ ps) s a = (AtLeast-snoc p m ps a.0 s.0, Sorted-snoc m ps s.1 a.1)

Paired-around : (x m : ℕ) (ps : List ℕ) → Paired ps → Paired (x ∷ (ps ++ m ∷ []))
Paired-around x m [] e = tt
Paired-around x m (p ∷ []) e = elim e [ ]
Paired-around x m (p ∷ q ∷ ps) e = Paired-around q m ps e

abbrev complement : List ℕ → List ℕ
complement ps = 0 ∷ (ps ++ last_point ∷ [])

covers-complement :
    (c : ℕ) (ps : List ℕ)
    → Sorted ps
    → Paired ps
    → AtMost last_point ps
    → covers c (complement ps) ≡ (ltb c last_point && not (in_ranges c ps))
covers-complement c ps s e a = elim (Bool-cases (ltb c last_point)) [
  | inl low ↦ rw low (
      parts (ground arith) ∙ ap not (drop_false (covers c ps)) ∙ ap not (covers-in_ranges c ps s e))
  | inr high ↦
      let none_in = covers-in_ranges c ps s e ∙ in_ranges-above c last_point ps (ground arith) a in
      rw high (parts (ground arith) ∙ ap (λ b. not (xor b true)) none_in)
]
  where
    parts : {b : Bool} → leb last_point c ≡ b → covers c (complement ps) ≡ not (xor (covers c ps) b)
    parts e =
        unfold covers in
        ap₂ xor (let z : leb 0 c ≡ true = ground arith in z) (
          covers-append c ps (last_point ∷ [])
          ∙ ap (xor (covers c ps)) (unfold covers in drop_false (leb last_point c) ∙ e))

module _ (grants : ℕ → Bool) where
  -- The code points below the last one that are not in the set, for sorted points in pairs, none
  -- of them above the last one, unless the allocator refuses the request.
  pub cr_invert-IsComputed :
      (cr : CharRange)
      → Sorted cr.points
      → Paired cr.points
      → AtMost last_point cr.points
      → IsComputed grants
          (λ c. ltb c last_point && not (in_ranges c cr.points))
          (some (cr_invert grants cr))
  unfolding cr_invert
  cr_invert-IsComputed cr s e a = inverted _ (cr_realloc-cases grants cr (length cr.points + 2))
    where
      inverted :
          (r : CharRange × Bool)
          → ((r.1 ≡ true) × Refusal grants) ⊎ ((r.1 ≡ false) × (r.0.points ≡ cr.points))
          → IsComputed grants
              (λ c. ltb c last_point && not (in_ranges c cr.points))
              (some (invert_points grants r))
      inverted (cr', true) (inl (q, refusal)) =
          unfold invert_points in
          record { cr' = cr'; failed = true; returned = refl; result = inl (refl, refusal) }
      inverted (cr', true) (inr (q, same)) = ground arith
      inverted (cr', false) (inl (q, refusal)) = ground arith
      inverted (cr', false) (inr (q, same)) =
          let sorted : Sorted (complement cr'.points) =
            subst (λ ps. Sorted (complement ps)) (sym same)
              (AtLeast-zero (cr.points ++ last_point ∷ []), Sorted-snoc last_point cr.points s a) in
          let paired : Paired (complement cr'.points) =
            subst (λ ps. Paired (complement ps)) (sym same)
              (Paired-around 0 last_point cr.points e) in
          unfold invert_points cr_compress in
          record {
            cr' = record cr' { points = compress_loop none (complement cr'.points) };
            failed = false;
            returned = refl;
            result = inr (
              refl,
              compress-IsCompact (complement cr'.points) sorted paired,
              λ c.
                  in_ranges-compress c (complement cr'.points) sorted paired
                  ∙ ap (λ ps. covers c (complement ps)) same
                  ∙ covers-complement c cr.points s e a,
            );
          }
