-- ===== src/Unicode/CharRange/Loop.antt =====
-- The loop of `cr_op` of native/quickjs/libunicode.c merges two sets.
use quickjs_runtime.Prelude.{
  ℕ, zero, suc, ◌+◌, ◌<◌, ◌≡◌, refl, sym, ap, ap₂, ◌∙◌, Bool, true, false, not, ◌==◌, inl, inr,
  none, some, List, [], ◌∷◌, length, bit_and, arith, Bool-cases, length-append, subst,
}
use mathlib.Core.List.{append-nil}
use quickjs_runtime.Unicode.CharRange.{
  CharRange, CharRangeOp, Cursor, next_point, is_in, op_loop, cr_add_point,
}
use quickjs_runtime.Unicode.CharRange.Cover.{
  xor, covers, AtLeast, Sorted, combine, odd, odd-suc, is_in-length, drop_false,
}
use quickjs_runtime.Unicode.CharRange.Next.{IsNext, next_point-cases, cr_add_point-cases}
use quickjs_runtime.Unicode.CharRange.Merge.{
  IsAdded, IsAdded-skip, IsAdded-point, IsMerged, IsMerged-next,
}

module _ (grants : ℕ → Bool) (op : CharRangeOp) (fuel i j : ℕ) (a_pt b_pt : List ℕ)
    (cr : CharRange) where
  op_loop-end :
      next_point i j a_pt b_pt ≡ none
      → op_loop grants (suc fuel) op i j a_pt b_pt cr ≡ some (cr, false)
  unfolding op_loop
  op_loop-end e = ground arith

  op_loop-skip :
      (k : Cursor)
      → next_point i j a_pt b_pt ≡ some k
      → (is_in op k.a_idx k.b_idx == bit_and (length cr.points) 1) ≡ true
      → op_loop grants (suc fuel) op i j a_pt b_pt cr
        ≡ op_loop grants fuel op k.a_idx k.b_idx k.a_left k.b_left cr
  unfolding op_loop
  op_loop-skip k e same = ground arith

  op_loop-point :
      (k : Cursor)
      → next_point i j a_pt b_pt ≡ some k
      → (is_in op k.a_idx k.b_idx == bit_and (length cr.points) 1) ≡ false
      → (cr_add_point grants cr k.point).1 ≡ false
      → op_loop grants (suc fuel) op i j a_pt b_pt cr
        ≡ op_loop grants fuel op k.a_idx k.b_idx k.a_left k.b_left
            (cr_add_point grants cr k.point).0
  unfolding op_loop
  op_loop-point k e other added = ground arith

  op_loop-refused :
      (k : Cursor)
      → next_point i j a_pt b_pt ≡ some k
      → (is_in op k.a_idx k.b_idx == bit_and (length cr.points) 1) ≡ false
      → (cr_add_point grants cr k.point).1 ≡ true
      → op_loop grants (suc fuel) op i j a_pt b_pt cr
        ≡ some ((cr_add_point grants cr k.point).0, true)
  unfolding op_loop
  op_loop-refused k e other refused = ground arith

status_kept : (a b : Bool) → not (xor a b) ≡ true → b ≡ a
status_kept true true e = refl
status_kept true false e = ground arith
status_kept false true e = ground arith
status_kept false false e = refl

status_changed : (a b : Bool) → not (xor a b) ≡ false → not b ≡ a
status_changed true true e = ground arith
status_changed true false e = refl
status_changed false true e = refl
status_changed false false e = ground arith

IsMerged-end :
    (grants : ℕ → Bool) (low : ℕ) (op : CharRangeOp) (i j : ℕ) (cr : CharRange)
    → odd (length cr.points) ≡ combine op (odd i) (odd j)
    → IsMerged grants low op i j [] [] cr (some (cr, false))
unfolding covers
IsMerged-end grants low op i j cr status = record {
  cr' = cr;
  failed = false;
  returned = refl;
  result = inr (
    refl,
    record {
      more = [];
      appended = sym (append-nil cr.points);
      above = tt;
      sorted = tt;
      parity = status ∙ ap₂ (λ m n. combine op (odd m) (odd n)) (omega arith) (omega arith);
      covered = λ c.
          rw (drop_false (odd (length cr.points)), drop_false (odd i), drop_false (odd j)) status;
    },
  );
}

-- A step of the loop, when the rest of it is right from any list of the new status.
op_loop-step :
    (grants : ℕ → Bool) (op : CharRangeOp) (fuel low i j : ℕ) (a_pt b_pt : List ℕ) (cr : CharRange)
    (k : Cursor)
    → odd (length cr.points) ≡ combine op (odd i) (odd j)
    → next_point i j a_pt b_pt ≡ some k
    → IsNext low i j a_pt b_pt k
    → ((cr' : CharRange)
        → odd (length cr'.points) ≡ combine op (odd k.a_idx) (odd k.b_idx)
        → IsMerged grants k.point op k.a_idx k.b_idx k.a_left k.b_left cr'
            (op_loop grants fuel op k.a_idx k.b_idx k.a_left k.b_left cr'))
    → IsMerged grants low op i j a_pt b_pt cr (op_loop grants (suc fuel) op i j a_pt b_pt cr)
op_loop-step grants op fuel low i j a_pt b_pt cr k status e next go_on =
    let test = is_in-length op k.a_idx k.b_idx (length cr.points) in
    let status' = combine op (odd k.a_idx) (odd k.b_idx) in
    let cr' = (cr_add_point grants cr k.point).0 in
    elim (Bool-cases (is_in op k.a_idx k.b_idx == bit_and (length cr.points) 1)) [
      | inl same ↦ rw (op_loop-skip grants op fuel i j a_pt b_pt cr k e same) (
          IsMerged-next (go_on cr (status_kept status' (odd (length cr.points)) (sym test ∙ same)))
            (λ after. IsAdded-skip low op i j a_pt b_pt cr.points after k status next))
      | inr other ↦ elim (cr_add_point-cases grants cr k.point) [
        | inl (failed, refusal) ↦
            rw (op_loop-refused grants op fuel i j a_pt b_pt cr k e other failed)
              (record { cr' = cr'; failed = true; returned = refl; result = inl (refl, refusal) })
        | inr (fine, points) ↦ rw (op_loop-point grants op fuel i j a_pt b_pt cr k e other fine) (
            IsMerged-next
              (go_on cr' (
                ap (λ ps. odd (length ps)) points
                ∙ ap odd (length-append cr.points (k.point ∷ []))
                ∙ odd-suc (length cr.points)
                ∙ status_changed status' (odd (length cr.points)) (sym test ∙ other)))
              (λ after added. IsAdded-point low op i j a_pt b_pt cr.points after k status next (
                subst (λ ps. IsAdded k.point op k.a_idx k.b_idx k.a_left k.b_left ps after) points
                  added)))
      ]
    ]

-- With more fuel than points the loop ends, and it merges the two sets.
pub op_loop-IsMerged :
    (grants : ℕ → Bool) (op : CharRangeOp) (fuel low i j : ℕ) (a_pt b_pt : List ℕ) (cr : CharRange)
    → length a_pt + length b_pt < fuel
    → Sorted a_pt
    → Sorted b_pt
    → AtLeast low a_pt
    → AtLeast low b_pt
    → odd (length cr.points) ≡ combine op (odd i) (odd j)
    → IsMerged grants low op i j a_pt b_pt cr (op_loop grants fuel op i j a_pt b_pt cr)
op_loop-IsMerged grants op zero low i j a_pt b_pt cr enough s t a b status = absurd (omega arith)
op_loop-IsMerged grants op (suc fuel) low i j a_pt b_pt cr enough s t a b status =
    elim (next_point-cases low i j a_pt b_pt s t a b) [
      | inl (e, no_a, no_b) ↦
          rw (op_loop-end grants op fuel i j a_pt b_pt cr e, no_a, no_b)
            (IsMerged-end grants low op i j cr status)
      | inr (k, (e, next)) ↦
          op_loop-step grants op fuel low i j a_pt b_pt cr k status e next (λ cr' status'.
            op_loop-IsMerged grants op fuel k.point k.a_idx k.b_idx k.a_left k.b_left cr'
              (let f = next.fewer in omega arith) next.half_a.sorted next.half_b.sorted
              next.half_a.rest next.half_b.rest status')
    ]
