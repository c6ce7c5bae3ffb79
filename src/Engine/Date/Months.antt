-- ===== src/Engine/Date/Months.antt =====
-- The months of native/quickjs/quickjs.c: the loop over them, and the sum that takes it back.
use quickjs_runtime.Prelude.{
  ℕ, suc, ◌+◌, ◌-◌, ◌≤◌, ◌<◌, ◌≡◌, refl, ◌∙◌, arith, inl, inr, List, [], ◌∷◌, length,
}
use quickjs_runtime.Prelude.Int.{ℤ, pos, ◌+ℤ◌, ◌-ℤ◌, int_laws, ltb_ℤ-true, ltb_ℤ-false, ≤ℤ_cases}
use quickjs_runtime.Engine.Date.{days_in_year, month_days, month_length, month_loop, add_months}
use quickjs_runtime.Engine.Date.Floor.{days_in_year_range}

abbrev total : ℤ → ℕ → List ℕ → ℕ
total y i [] = 0
total y i (md ∷ mds) = month_length y i md + total y (i + 1) mds

abbrev Short : ℤ → ℕ → List ℕ → Type 0
Short y i [] = Unit
Short y i (md ∷ mds) = (month_length y i md ≤ 31) × Short y (i + 1) mds

-- The month that day `k` is in, `n` months behind month `i`, and its place in it.
pub record IsMonthOf (y : ℤ) (i : ℕ) (mds : List ℕ) (k : ℕ) (r : ℕ × ℤ) : Type 0 where
  pub n : ℕ
  pub day : ℕ
  pub month_is : r.0 ≡ i + n
  pub day_is : r.1 ≡ pos day
  pub inside : n < length mds
  pub small : day < 31
  pub sums : (d : ℤ) → add_months y i n mds d +ℤ pos day ≡ d +ℤ pos k

month_loop-here :
    (y : ℤ) (i md : ℕ) (mds : List ℕ) (k : ℕ) → k < 31 → IsMonthOf y i (md ∷ mds) k (i, pos k)
unfolding add_months
month_loop-here y i md mds k h = record {
  n = 0;
  day = k;
  month_is = omega arith;
  day_is = refl;
  inside = omega arith;
  small = h;
  sums = λ d. refl;
}

month_loop-IsMonthOf :
    (y : ℤ) (i md : ℕ) (mds : List ℕ) (k : ℕ)
    → Short y i (md ∷ mds)
    → k < total y i (md ∷ mds)
    → IsMonthOf y i (md ∷ mds) k (month_loop y i (md ∷ mds) (pos k))
unfolding month_loop add_months
month_loop-IsMonthOf y i md [] k s h = month_loop-here y i md [] k (let q = s.0 in omega arith)
month_loop-IsMonthOf y i md (md' ∷ mds) k s h =
    let len = month_length y i md in
    elim (≤ℤ_cases (pos len) (pos k)) [
      | inr before ↦
          rw (ltb_ℤ-true (pos k) (pos len) before)
            (month_loop-here y i md (md' ∷ mds) k (let q = s.0 in omega int_laws))
      | inl past ↦
          let e : pos k -ℤ pos len ≡ pos (k - len) = omega int_laws in
          let m = month_loop-IsMonthOf y (i + 1) md' mds (k - len) s.1 (omega int_laws) in
          rw (ltb_ℤ-false (pos k) (pos len) past, e)
            (record {
              n = suc m.n;
              day = m.day;
              month_is = m.month_is ∙ omega arith;
              day_is = m.day_is;
              inside = (let q = m.inside in omega arith);
              small = m.small;
              sums =
                  λ d. m.sums (d +ℤ pos len) ∙ (let r : len ≤ k = omega int_laws in omega int_laws);
            })
    ]

-- Every day of a year is found in one of its twelve months.
pub IsMonthOf-day :
    (y : ℤ) (k : ℕ)
    → k < days_in_year y
    → IsMonthOf y 0 month_days k (month_loop y 0 month_days (pos k))
unfolding month_length
IsMonthOf-day y k h =
    month_loop-IsMonthOf y 0 31 _ k (omega (arith, days_in_year_range y))
      (omega (arith, days_in_year_range y))
