-- ===== src/Engine/Date/Year.antt =====
-- The years of native/quickjs/quickjs.c and the day numbers they begin with.
use quickjs_runtime.Prelude.{ℕ, suc, ◌<◌, ◌≡◌, refl, ap, inl, inr, Option, some}
use quickjs_runtime.Prelude.Int.{
  ℤ, pos, pos_part, ◌+ℤ◌, ◌-ℤ◌, ◌*ℤ◌, int_laws, *ℤ_parts, ◌≤ℤ◌, nonneg, ltb_ℤ-true, ltb_ℤ-false,
  ≤ℤ_cases, parts_of_eq,
}
use quickjs_runtime.Engine.Date.{floor_div, days_from_year, days_in_year, year_loop, year_from_days}
use quickjs_runtime.Engine.Date.Floor.{
  floor4, floor100, floor400, floor3652425, leap4, leap100, leap400, divides_small,
}

-- A year is as long as it is to the first day of the next one.
pub days_from_year-suc :
    (y : ℤ) → days_from_year (y +ℤ pos 1) ≡ days_from_year y +ℤ pos (days_in_year y)
unfolding days_from_year days_in_year
days_from_year-suc y =
    rw (leap4 y, leap100 y, leap400 y)
      (omega (
        int_laws,
        divides_small y,
        *ℤ_parts (y +ℤ pos 1 -ℤ pos 1970) 365,
        *ℤ_parts (y -ℤ pos 1970) 365,
      ))

-- The first approximation of `year_from_days` is at most a year off.
pub near :
    (d : ℤ)
    → (days_from_year (floor_div (d *ℤ pos 10000) 3652425 +ℤ pos 1970 -ℤ pos 1) ≤ℤ d)
      × (d +ℤ pos 1 ≤ℤ days_from_year (floor_div (d *ℤ pos 10000) 3652425 +ℤ pos 1970 +ℤ pos 2))
unfolding days_from_year
near d =
    let q = floor_div (d *ℤ pos 10000) 3652425 in
    let f = floor3652425 (d *ℤ pos 10000) in
    let y = q +ℤ pos 1970 -ℤ pos 1 in
    let z = q +ℤ pos 1970 +ℤ pos 2 in
    let a = floor4 (y -ℤ pos 1969) in
    let b = floor100 (y -ℤ pos 1901) in
    let c = floor400 (y -ℤ pos 1601) in
    let a' = floor4 (z -ℤ pos 1969) in
    let b' = floor100 (z -ℤ pos 1901) in
    let c' = floor400 (z -ℤ pos 1601) in
    (
      omega (
        int_laws,
        *ℤ_parts d 10000,
        *ℤ_parts (y -ℤ pos 1970) 365,
        f.low,
        f.high,
        a.low,
        a.high,
        b.low,
        b.high,
        c.low,
        c.high,
      ),
      omega (
        int_laws,
        *ℤ_parts d 10000,
        *ℤ_parts (z -ℤ pos 1970) 365,
        f.low,
        f.high,
        a'.low,
        a'.high,
        b'.low,
        b'.high,
        c'.low,
        c'.high,
      ),
    )

-- The year that a day is in, and which day of it.
pub record IsYearOf (d : ℤ) (r : Option (ℤ × ℤ)) : Type 0 where
  pub year : ℤ
  pub day : ℕ
  pub returned : r ≡ some (year, pos day)
  pub same_day : days_from_year year +ℤ pos day ≡ d
  pub inside : day < days_in_year year

IsYearOf-here :
    (fuel : ℕ) (d y : ℤ)
    → days_from_year y ≤ℤ d
    → d +ℤ pos 1 ≤ℤ days_from_year y +ℤ pos (days_in_year y)
    → IsYearOf d (year_loop (suc fuel) d y)
unfolding year_loop
IsYearOf-here fuel d y low high =
    let d1 = d -ℤ days_from_year y in
    let len = days_in_year y in
    let e = nonneg d1 (omega int_laws) in
    rw (ltb_ℤ-false d1 (pos 0) (omega int_laws), ltb_ℤ-true d1 (pos len) (omega int_laws))
      (record {
        year = y;
        day = pos_part d1;
        returned = ap (λ k. some (y, k)) e;
        same_day = omega (int_laws, parts_of_eq e);
        inside = omega (int_laws, parts_of_eq e);
      })

year_loop-earlier :
    (fuel : ℕ) (d y : ℤ)
    → d +ℤ pos 1 ≤ℤ days_from_year y
    → year_loop (suc fuel) d y ≡ year_loop fuel d (y -ℤ pos 1)
unfolding year_loop
year_loop-earlier fuel d y h = rw (ltb_ℤ-true (d -ℤ days_from_year y) (pos 0) (omega int_laws)) refl

year_loop-later :
    (fuel : ℕ) (d y : ℤ)
    → days_from_year y +ℤ pos (days_in_year y) ≤ℤ d
    → year_loop (suc fuel) d y ≡ year_loop fuel d (y +ℤ pos 1)
unfolding year_loop
year_loop-later fuel d y h =
    let d1 = d -ℤ days_from_year y in
    rw
      (
        ltb_ℤ-false d1 (pos 0) (omega int_laws),
        ltb_ℤ-false d1 (pos (days_in_year y)) (omega int_laws),
      )
      refl

-- `year_from_days` ends for every day number, with the year that the day is in and the day's place
-- in it.
pub year_from_days-IsYearOf : (d : ℤ) → IsYearOf d (year_from_days d)
unfolding year_from_days
year_from_days-IsYearOf d =
    found (floor_div (d *ℤ pos 10000) 3652425 +ℤ pos 1970) (near d).0 (near d).1
  where
    found :
        (y : ℤ)
        → days_from_year (y -ℤ pos 1) ≤ℤ d
        → d +ℤ pos 1 ≤ℤ days_from_year (y +ℤ pos 2)
        → IsYearOf d (year_loop 2 d y)
    found y low high =
        let back : y -ℤ pos 1 +ℤ pos 1 ≡ y = omega int_laws in
        let on : y +ℤ pos 1 +ℤ pos 1 ≡ y +ℤ pos 2 = omega int_laws in
        let before = days_from_year-suc (y -ℤ pos 1) in
        let after = days_from_year-suc (y +ℤ pos 1) in
        elim (≤ℤ_cases (days_from_year y) d) [
          | inr sooner ↦ rw (year_loop-earlier 1 d y sooner) (
              IsYearOf-here 0 d (y -ℤ pos 1) low (
                omega (int_laws, parts_of_eq before, parts_of_eq (ap days_from_year back), sooner)))
          | inl from ↦ elim (≤ℤ_cases (days_from_year y +ℤ pos (days_in_year y)) d) [
            | inr inside ↦ IsYearOf-here 1 d y from inside
            | inl beyond ↦ rw (year_loop-later 1 d y beyond) (
                IsYearOf-here 0 d (y +ℤ pos 1)
                  (omega (int_laws, parts_of_eq (days_from_year-suc y), beyond))
                  (omega (int_laws, parts_of_eq after, parts_of_eq (ap days_from_year on), high)))
          ]
        ]
