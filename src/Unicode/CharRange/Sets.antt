-- ===== src/Unicode/CharRange/Sets.antt =====
-- The operations of `CharRange` as operations on sets of code points.
use quickjs_runtime.Prelude.{
  ℕ, suc, ◌+◌, ◌<◌, ◌≡◌, refl, sym, ap, ap₂, subst, ◌∙◌, Bool, true, false, ◌⊎◌, inl, inr, Option,
  none, some, List, [], ◌∷◌, length, arith,
}
use quickjs_runtime.Unicode.CharRange.{
  CharRange, CharRangeOp, cr_op_union, cr_op_inter, cr_op_xor, cr_op, finish, cr_compress,
  compress_loop,
}
use quickjs_runtime.Unicode.CharRange.Cover.{
  covers, in_ranges, covers-in_ranges, AtLeast, Sorted, Paired, combine, odd,
}
use quickjs_runtime.Unicode.CharRange.Next.{Refusal}
use quickjs_runtime.Unicode.CharRange.Merge.{IsAdded}
use quickjs_runtime.Unicode.CharRange.Loop.{op_loop-IsMerged}
use quickjs_runtime.Unicode.CharRange.Compress.{
  covers-compress_loop, compress_loop-Increasing, Increasing, Increasing-Sorted,
}

-- Points that the module itself makes: intervals that are not empty and do not touch.
pub record IsCompact (ps : List ℕ) : Type 0 where
  pub increasing : Increasing 0 ps
  pub paired : Paired ps

pub AtLeast-zero : (ps : List ℕ) → AtLeast 0 ps
AtLeast-zero [] = tt
AtLeast-zero (p ∷ ps) = (omega arith, AtLeast-zero ps)

odd_two : (n : ℕ) → odd (suc (suc n)) ≡ odd n
odd_two n = ground arith

odd_zero : (n : ℕ) → odd (0 + n) ≡ odd n
odd_zero n = ap odd (omega arith)

Paired-odd : (ps : List ℕ) → Paired ps → odd (length ps) ≡ false
Paired-odd [] e = refl
Paired-odd (p ∷ []) e = elim e [ ]
Paired-odd (p ∷ q ∷ ps) e = odd_two (length ps) ∙ Paired-odd ps e

odd-Paired : (ps : List ℕ) → odd (length ps) ≡ false → Paired ps
odd-Paired [] h = tt
odd-Paired (p ∷ []) h = ground arith
odd-Paired (p ∷ q ∷ ps) h = odd-Paired ps (sym (odd_two (length ps)) ∙ h)

pub compress-IsCompact : (ps : List ℕ) → Sorted ps → Paired ps → IsCompact (compress_loop none ps)
compress-IsCompact ps s e =
    let r = compress_loop-Increasing 0 none ps e tt s (AtLeast-zero ps) in
    record { increasing = r.0; paired = r.1 }

pub in_ranges-compress :
    (c : ℕ) (ps : List ℕ)
    → Sorted ps
    → Paired ps
    → in_ranges c (compress_loop none ps) ≡ covers c ps
in_ranges-compress c ps s e =
    let i = compress-IsCompact ps s e in
    sym (covers-in_ranges c (compress_loop none ps) (Increasing-Sorted 0 _ i.increasing) i.paired)
    ∙ covers-compress_loop c none ps e

nothing_combined : (op : CharRangeOp) → combine op false false ≡ false
unfolding combine
nothing_combined cr_op_union = refl
nothing_combined cr_op_inter = refl
nothing_combined cr_op_xor = refl

-- A result: it is reached, and either the allocator refused a request, or the points are those of
-- a set and stand for the code points that `member` says.
pub record IsComputed (grants : ℕ → Bool) (member : ℕ → Bool) (r : Option (CharRange × Bool))
    : Type 0 where
  pub cr' : CharRange
  pub failed : Bool
  pub returned : r ≡ some (cr', failed)
  pub result :
      ((failed ≡ true) × Refusal grants)
      ⊎ ((failed ≡ false) × IsCompact cr'.points × ((c : ℕ) → in_ranges c cr'.points ≡ member c))

module _ (grants : ℕ → Bool) where
  -- From an empty result, for sorted points in pairs and with more fuel than points, the operation
  -- ends, and unless the allocator refuses a request it gives the union, the intersection or the
  -- symmetric difference, as intervals that are not empty and do not touch.
  pub cr_op-IsComputed :
      (fuel : ℕ) (op : CharRangeOp) (a_pt b_pt : List ℕ) (size : ℕ)
      → length a_pt + length b_pt < fuel
      → Sorted a_pt
      → Sorted b_pt
      → Paired a_pt
      → Paired b_pt
      → IsComputed grants
          (λ c. combine op (in_ranges c a_pt) (in_ranges c b_pt))
          (cr_op grants fuel op a_pt b_pt (record { points = []; size = size }))
  unfolding cr_op finish cr_compress
  cr_op-IsComputed fuel op a_pt b_pt size enough s t e f =
      let cr : CharRange = record { points = []; size = size } in
      let m =
        op_loop-IsMerged grants op fuel 0 0 0 a_pt b_pt cr enough s t (AtLeast-zero a_pt)
          (AtLeast-zero b_pt) (sym (nothing_combined op)) in
      rw (m.returned, cr_op) (finished m.cr' m.failed m.result)
    where
      finished :
          (cr' : CharRange) (failed : Bool)
          → ((failed ≡ true) × Refusal grants)
            ⊎ ((failed ≡ false) × IsAdded 0 op 0 0 a_pt b_pt [] cr'.points)
          → IsComputed grants
              (λ c. combine op (in_ranges c a_pt) (in_ranges c b_pt))
              (some (finish (cr', failed)))
      finished cr' true (inl (q, refusal)) = record {
        cr' = cr';
        failed = true;
        returned = refl;
        result = inl (refl, refusal);
      }
      finished cr' true (inr (q, added)) = ground arith
      finished cr' false (inl (q, refusal)) = ground arith
      finished cr' false (inr (q, r)) =
          let sorted = subst Sorted (sym r.appended) r.sorted in
          let even : Paired cr'.points = odd-Paired cr'.points (
            r.parity
            ∙ ap₂ (combine op) (odd_zero (length a_pt) ∙ Paired-odd a_pt e)
                (odd_zero (length b_pt) ∙ Paired-odd b_pt f)
            ∙ nothing_combined op) in
          record {
            cr' = cr_compress cr';
            failed = false;
            returned = refl;
            result = inr (
              refl,
              compress-IsCompact cr'.points sorted even,
              λ c.
                  in_ranges-compress c cr'.points sorted even
                  ∙ ap (covers c) r.appended
                  ∙ r.covered c
                  ∙ ap₂ (combine op) (covers-in_ranges c a_pt s e) (covers-in_ranges c b_pt t f),
            );
          }
