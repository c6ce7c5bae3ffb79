-- ===== src/Engine/Date.antt =====
-- The calendar of native/quickjs/quickjs.c: from `math_mod` to `set_date_fields`. An `int64_t` is an
-- integer without bound here; a time value is at most 8.64e15, and no intermediate value of it
-- reaches 2 ^ 63.
pub mod Floor
pub mod Year
pub mod Months
pub mod RoundTrip
use quickjs_runtime.Prelude.{
  ℕ, zero, suc, ◌+◌, ◌-◌, ◌*◌, ◌/◌, ◌%◌, ◌≤◌, Bool, true, false, ltb, ◌==◌, if◌then◌else◌, Option,
  none, some, List, [], ◌∷◌,
}
use quickjs_runtime.Prelude.Int.{ℤ, pos, negsuc, pos_part, sub_ℕ, ◌+ℤ◌, ◌-ℤ◌, ◌*ℤ◌, ltb_ℤ}

-- `%` and `/` of C, which round to zero; all divisors of this file are positive.
unfoldable pub rem : ℤ → ℕ → ℤ
rem (pos n) b = pos (n % b)
rem (negsuc n) b = sub_ℕ 0 (suc n % b)

unfoldable pub quot : ℤ → ℕ → ℤ
quot (pos n) b = pos (n / b)
quot (negsuc n) b = sub_ℕ 0 (suc n / b)

unfoldable pub math_mod : ℤ → ℕ → ℤ
math_mod a b = let m = rem a b in if ltb_ℤ m (pos 0) then m +ℤ pos b else m

unfoldable pub floor_div : ℤ → ℕ → ℤ
floor_div a b = quot (a -ℤ math_mod a b) b

unfoldable pub days_from_year : ℤ → ℤ
days_from_year y =
    (y -ℤ pos 1970) *ℤ pos 365
    +ℤ floor_div (y -ℤ pos 1969) 4
    -ℤ floor_div (y -ℤ pos 1901) 100
    +ℤ floor_div (y -ℤ pos 1601) 400

-- `!(y % n)`.
unfoldable pub divides : ℕ → ℤ → ℕ
divides n y = elim (rem y n) [ pos zero ↦ 1 | _ ↦ 0 ]

unfoldable pub days_in_year : ℤ → ℕ
days_in_year y = 365 + divides 4 y - divides 100 y + divides 400 y

-- The loop of `year_from_days` on fuel. The assignments to `d1` at its end are not read again.
unfoldable pub year_loop : ℕ → ℤ → ℤ → Option (ℤ × ℤ)
year_loop zero d y = none
year_loop (suc fuel) d y =
    let d1 = d -ℤ days_from_year y in
    let earlier = year_loop fuel d (y -ℤ pos 1) in
    let later = year_loop fuel d (y +ℤ pos 1) in
    if ltb_ℤ d1 (pos 0)
    then earlier
    else (if ltb_ℤ d1 (pos (days_in_year y)) then some (y, d1) else later)

-- The year, and the day in it; two rounds are enough.
unfoldable pub year_from_days : ℤ → Option (ℤ × ℤ)
year_from_days d = year_loop 2 d (floor_div (d *ℤ pos 10000) 3652425 +ℤ pos 1970)

abbrev pub month_days : List ℕ
month_days = 31 ∷ 28 ∷ 31 ∷ 30 ∷ 31 ∷ 30 ∷ 31 ∷ 31 ∷ 30 ∷ 31 ∷ 30 ∷ 31 ∷ []

-- `md` of month `i`, with the leap day in February.
unfoldable pub month_length : ℤ → ℕ → ℕ → ℕ
month_length y i md = if i == 1 then md + (days_in_year y - 365) else md

-- The month of a day of the year and the day in it; the last month has no round of its own.
unfoldable pub month_loop : ℤ → ℕ → List ℕ → ℤ → ℕ × ℤ
month_loop y i [] days = (i, days)
month_loop y i (md ∷ []) days = (i, days)
month_loop y i (md ∷ md' ∷ mds) days =
    let later = month_loop y (i + 1) (md' ∷ mds) (days -ℤ pos (month_length y i md)) in
    if ltb_ℤ days (pos (month_length y i md)) then (i, days) else later

-- The days of the first `m` months.
unfoldable pub add_months : ℤ → ℕ → ℕ → List ℕ → ℤ → ℤ
add_months y i zero mds days = days
add_months y i (suc m) [] days = days
add_months y i (suc m) (md ∷ mds) days =
    add_months y (i + 1) m mds (days +ℤ pos (month_length y i md))

pub record Clock : Type 0 where
  pub hours : ℤ
  pub minutes : ℤ
  pub seconds : ℤ
  pub milliseconds : ℤ

-- The time of day, from its milliseconds.
unfoldable pub split_clock : ℤ → Clock
split_clock h =
    let ms = rem h 1000 in
    let h1 = quot (h -ℤ ms) 1000 in
    let s = rem h1 60 in
    let h2 = quot (h1 -ℤ s) 60 in
    let m = rem h2 60 in
    record { hours = quot (h2 -ℤ m) 60; minutes = m; seconds = s; milliseconds = ms }

-- The nine fields; the doubles of the code hold integers, which they do exactly below 2 ^ 53.
pub record Fields : Type 0 where
  pub year : ℤ
  pub month : ℤ
  pub day : ℤ
  pub clock : Clock
  pub week_day : ℤ
  pub tz : ℤ

-- The fields of a time; `none` is the end of the fuel.
unfoldable pub with_year : Clock → ℤ → ℤ → Option (ℤ × ℤ) → Option Fields
with_year clock wd tz none = none
with_year clock wd tz (some (y, days)) =
    let m = month_loop y 0 month_days days in
    some (record {
      year = y;
      month = pos m.0;
      day = m.1 +ℤ pos 1;
      clock = clock;
      week_day = wd;
      tz = tz;
    })

unfoldable pub break_down : ℤ → ℤ → Option Fields
break_down d tz =
    let h = math_mod d 86400000 in
    let days = quot (d -ℤ h) 86400000 in
    with_year (split_clock h) (math_mod (days +ℤ pos 4) 7) tz (year_from_days days)

unfoldable pub time_clip : ℤ → Option ℤ
time_clip t =
    if ltb_ℤ t (pos 0 -ℤ pos 8640000000000000)
    then none
    else (if ltb_ℤ (pos 8640000000000000) t then none else some t)

-- `getTimezoneOffset`, which asks the C library, is `offset`. A time value is an integer, or
-- `none` for NaN.
module _ (offset : ℤ → ℤ) where
  -- The outer `none` is the end of the fuel, the inner one the result FALSE.
  unfoldable pub get_date_fields : Option ℤ → Bool → Bool → Option (Option Fields)
  get_date_fields none is_local false = some none
  get_date_fields none is_local true = elim (break_down (pos 0) (pos 0)) [
    | none ↦ none
    | some f ↦ some (some f)
  ]
  get_date_fields (some dval) is_local force =
      let tz = if is_local then pos 0 -ℤ offset dval else pos 0 in
      elim (break_down (dval +ℤ tz *ℤ pos 60000) tz) [ none ↦ none | some f ↦ some (some f) ]

  unfoldable pub set_date_fields : Fields → Bool → Option ℤ
  set_date_fields f is_local =
      let m = math_mod f.month 12 in
      let y = f.year +ℤ floor_div f.month 12 in
      let days = add_months y 0 (pos_part m) month_days (days_from_year y) +ℤ (f.day -ℤ pos 1) in
      let c = f.clock in
      let h =
        c.hours *ℤ pos 3600000
        +ℤ c.minutes *ℤ pos 60000
        +ℤ c.seconds *ℤ pos 1000
        +ℤ c.milliseconds in
      let d = days *ℤ pos 86400000 +ℤ h in
      time_clip (if is_local then d +ℤ offset d *ℤ pos 60000 else d)
