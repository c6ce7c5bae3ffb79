-- ===== src/Unicode/CharRange/Merge.antt =====
-- A step of the loop of `cr_op` of native/quickjs/libunicode.c, on the points that are added.
use quickjs_runtime.Prelude.{
  ℕ, ◌+◌, ◌≤◌, ◌<◌, ◌≡◌, sym, ap, ap₂, ◌∙◌, Bool, true, false, leb, ◌⊎◌, inl, inr, Option, some,
  List, [], ◌∷◌, ◌++◌, length, Bool-cases, leb→le, leb→lt, length-append,
}
use mathlib.Core.List.{append_assoc}
use quickjs_runtime.Unicode.CharRange.{CharRange, CharRangeOp, Cursor}
use quickjs_runtime.Unicode.CharRange.Cover.{
  xor, covers, AtLeast, Sorted, AtLeast-weaken, covers-below, combine, odd, odd-suc, move_not,
  drop_false,
}
use quickjs_runtime.Unicode.CharRange.Next.{IsNext, Refusal}

-- The points that the loop adds to `before`, for sets of which `i` and `j` points were taken.
pub record IsAdded (low : ℕ) (op : CharRangeOp) (i j : ℕ) (a_pt b_pt before after : List ℕ)
    : Type 0 where
  pub more : List ℕ
  pub appended : after ≡ before ++ more
  pub above : AtLeast low more
  pub sorted : Sorted more
  pub parity : odd (length after) ≡ combine op (odd (i + length a_pt)) (odd (j + length b_pt))
  pub covered :
      (c : ℕ)
      → xor (odd (length before)) (covers c more)
        ≡ combine op (xor (odd i) (covers c a_pt)) (xor (odd j) (covers c b_pt))

-- One step, to a list of points that has the new status as its parity.
module _ (low : ℕ) (op : CharRangeOp) (i j : ℕ) (a_pt b_pt before after : List ℕ) (k : Cursor)
    (status : odd (length before) ≡ combine op (odd i) (odd j))
    (next : IsNext low i j a_pt b_pt k) where
  below :
      (c : ℕ) (ps : List ℕ)
      → c < k.point
      → AtLeast k.point ps
      → xor (odd (length before)) (covers c ps)
        ≡ combine op (xor (odd i) (covers c a_pt)) (xor (odd j) (covers c b_pt))
  below c ps h a =
      rw
        (
          covers-below c k.point ps h a,
          covers-below c k.point a_pt h next.half_a.all,
          covers-below c k.point b_pt h next.half_b.all,
          drop_false (odd (length before)),
          drop_false (odd i),
          drop_false (odd j),
        )
        status

  from :
      (c : ℕ)
      → k.point ≤ c
      → combine op (xor (odd k.a_idx) (covers c k.a_left)) (xor (odd k.b_idx) (covers c k.b_left))
        ≡ combine op (xor (odd i) (covers c a_pt)) (xor (odd j) (covers c b_pt))
  from c h = ap₂ (combine op) (next.half_a.same c h) (next.half_b.same c h)

  totals :
      combine op (odd (k.a_idx + length k.a_left)) (odd (k.b_idx + length k.b_left))
      ≡ combine op (odd (i + length a_pt)) (odd (j + length b_pt))
  totals = ap₂ (λ m n. combine op (odd m) (odd n)) next.half_a.total next.half_b.total

  pub IsAdded-skip :
      IsAdded k.point op k.a_idx k.b_idx k.a_left k.b_left before after
      → IsAdded low op i j a_pt b_pt before after
  IsAdded-skip r = record {
    more = r.more;
    appended = r.appended;
    above = AtLeast-weaken low k.point r.more next.above r.above;
    sorted = r.sorted;
    parity = r.parity ∙ totals;
    covered = λ c. elim (Bool-cases (leb k.point c)) [
      | inl reached ↦ r.covered c ∙ from c (leb→le k.point c reached)
      | inr not_reached ↦ below c r.more (leb→lt k.point c not_reached) r.above
    ];
  }

  pub IsAdded-point :
      IsAdded k.point op k.a_idx k.b_idx k.a_left k.b_left (before ++ k.point ∷ []) after
      → IsAdded low op i j a_pt b_pt before after
  unfolding covers
  IsAdded-point r = record {
    more = k.point ∷ r.more;
    appended = r.appended ∙ append_assoc before (k.point ∷ []) r.more;
    above = (next.above, AtLeast-weaken low k.point r.more next.above r.above);
    sorted = (r.above, r.sorted);
    parity = r.parity ∙ totals;
    covered = λ c. elim (Bool-cases (leb k.point c)) [
      | inl reached ↦ rw reached (
          sym (move_not (odd (length before)) (covers c r.more))
          ∙ ap (λ b. xor b (covers c r.more))
              (sym (odd-suc (length before)) ∙ ap odd (sym (length-append before (k.point ∷ []))))
          ∙ r.covered c
          ∙ from c (leb→le k.point c reached))
      | inr not_reached ↦ rw not_reached (below c r.more (leb→lt k.point c not_reached) r.above)
    ];
  }

-- What the loop comes to: it ends, and unless the allocator refused a request it adds the points.
pub record IsMerged (grants : ℕ → Bool) (low : ℕ) (op : CharRangeOp) (i j : ℕ) (a_pt b_pt : List ℕ)
    (cr : CharRange) (r : Option (CharRange × Bool)) : Type 0 where
  pub cr' : CharRange
  pub failed : Bool
  pub returned : r ≡ some (cr', failed)
  pub result :
      ((failed ≡ true) × Refusal grants)
      ⊎ ((failed ≡ false) × IsAdded low op i j a_pt b_pt cr.points cr'.points)

pub IsMerged-next :
    {grants : ℕ → Bool} {low low' i j i' j' : ℕ} {op : CharRangeOp}
    {a_pt b_pt a_left b_left : List ℕ} {cr cr' : CharRange} {r : Option (CharRange × Bool)}
    → IsMerged grants low' op i' j' a_left b_left cr' r
    → ((after : List ℕ)
        → IsAdded low' op i' j' a_left b_left cr'.points after
        → IsAdded low op i j a_pt b_pt cr.points after)
    → IsMerged grants low op i j a_pt b_pt cr r
IsMerged-next m f = record {
  cr' = m.cr';
  failed = m.failed;
  returned = m.returned;
  result = elim m.result [ inl e ↦ inl e | inr (e, added) ↦ inr (e, f m.cr'.points added) ];
}
