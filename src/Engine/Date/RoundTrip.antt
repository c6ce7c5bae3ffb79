-- ===== src/Engine/Date/RoundTrip.antt =====
-- `get_date_fields` and `set_date_fields` of native/quickjs/quickjs.c take each other back.
use quickjs_runtime.Prelude.{
  ℕ, ◌+◌, ◌/◌, ◌%◌, ◌<◌, ◌≡◌, refl, sym, ap, ◌∙◌, arith, Bool, true, false, if◌then◌else◌, Option,
  some,
}
use quickjs_runtime.Prelude.Int.{
  ℤ, pos, pos_part, ◌+ℤ◌, ◌-ℤ◌, ◌*ℤ◌, int_laws, ltb_ℤ-false, ◌≤ℤ◌, *ℤ_parts,
}
use quickjs_runtime.Engine.Date.{
  Clock, Fields, split_clock, break_down, with_year, month_days, month_loop, add_months, math_mod,
  floor_div, days_from_year, get_date_fields, set_date_fields, time_clip,
}
use quickjs_runtime.Engine.Date.Floor.{
  math_mod_day, sum_day, rem_pos, quot-60, quot-1000, week_day_range, month_in_year,
}
use quickjs_runtime.Engine.Date.Year.{year_from_days-IsYearOf}
use quickjs_runtime.Engine.Date.Months.{IsMonthOf-day}

abbrev clock_of : ℕ → Clock
clock_of n = record {
  hours = pos (n / 1000 / 60 / 60);
  minutes = pos (n / 1000 / 60 % 60);
  seconds = pos (n / 1000 % 60);
  milliseconds = pos (n % 1000);
}

split_clock_lem : (n : ℕ) → split_clock (pos n) ≡ clock_of n
unfolding split_clock
split_clock_lem n =
    rw
      (
        rem_pos n 1000,
        quot-1000 n,
        rem_pos (n / 1000) 60,
        quot-60 (n / 1000),
        rem_pos (n / 1000 / 60) 60,
        quot-60 (n / 1000 / 60),
      )
      refl

-- The fields that a time breaks down to, in the ranges that the documentation of `Date` gives them,
-- with what takes them back to the time.
pub record IsBroken (d tz : ℤ) (r : Option Fields) : Type 0 where
  pub fields : Fields
  pub returned : r ≡ some fields
  pub month : ℕ
  pub day : ℕ
  pub month_is : fields.month ≡ pos month
  pub day_is : fields.day ≡ pos (day + 1)
  pub ms : ℕ
  pub clock_is : fields.clock ≡ clock_of ms
  pub inside : (month < 12) × (day < 31) × (ms < 86400000)
  pub week_day_in : (pos 0 ≤ℤ fields.week_day) × (fields.week_day ≤ℤ pos 6)
  pub sum_is :
      (add_months fields.year 0 month month_days (days_from_year fields.year) +ℤ pos day)
          *ℤ pos 86400000
        +ℤ pos ms
      ≡ d

pub break_down-IsBroken : (d tz : ℤ) → IsBroken d tz (break_down d tz)
unfolding break_down with_year
break_down-IsBroken d tz =
    let days = floor_div d 86400000 in
    let h = math_mod_day d in
    let y = year_from_days-IsYearOf days in
    let m = IsMonthOf-day y.year y.day y.inside in
    let ms = pos_part (math_mod d 86400000) in
    let clock = ap split_clock h.0 ∙ split_clock_lem ms in
    unfold floor_div in
    rw y.returned (record {
      fields = record {
        year = y.year;
        month = pos (month_loop y.year 0 month_days (pos y.day)).0;
        day = (month_loop y.year 0 month_days (pos y.day)).1 +ℤ pos 1;
        clock = split_clock (math_mod d 86400000);
        week_day = math_mod (days +ℤ pos 4) 7;
        tz = tz;
      };
      returned = refl;
      month = m.n;
      day = m.day;
      month_is = ap pos m.month_is ∙ ap pos (let z : 0 + m.n ≡ m.n = omega arith in z);
      day_is = ap (λ k. k +ℤ pos 1) m.day_is ∙ omega int_laws;
      ms = ms;
      clock_is = clock;
      inside = (m.inside, m.small, h.1);
      week_day_in = week_day_range (days +ℤ pos 4);
      sum_is =
          ap (λ t. t *ℤ pos 86400000 +ℤ pos ms) (m.sums (days_from_year y.year) ∙ y.same_day)
          ∙ ap (λ t. days *ℤ pos 86400000 +ℤ t) (sym h.0)
          ∙ sum_day d;
    })

-- The milliseconds of a day, from the fields of its clock.
clock_sum :
    (n : ℕ)
    → pos (n / 1000 / 60 / 60) *ℤ pos 3600000
        +ℤ pos (n / 1000 / 60 % 60) *ℤ pos 60000
        +ℤ pos (n / 1000 % 60) *ℤ pos 1000
        +ℤ pos (n % 1000)
      ≡ pos n
clock_sum n = omega (
  int_laws,
  *ℤ_parts (pos (n / 1000 / 60 / 60)) 3600000,
  *ℤ_parts (pos (n / 1000 / 60 % 60)) 60000,
  *ℤ_parts (pos (n / 1000 % 60)) 1000,
)

time_clip_inside :
    (d : ℤ) → pos 0 -ℤ pos 8640000000000000 ≤ℤ d → d ≤ℤ pos 8640000000000000 → time_clip d ≡ some d
unfolding time_clip
time_clip_inside d low high =
    rw
      (ltb_ℤ-false d (pos 0 -ℤ pos 8640000000000000) low, ltb_ℤ-false (pos 8640000000000000) d high)
      refl

module _ (offset : ℤ → ℤ) where
  set_date_fields-broken :
      (d tz : ℤ) (is_local : Bool) {r : Option Fields} (b : IsBroken d tz r)
      → set_date_fields offset b.fields is_local
        ≡ time_clip (if is_local then d +ℤ offset d *ℤ pos 60000 else d)
  unfolding set_date_fields
  set_date_fields-broken d tz is_local b =
      let m = month_in_year b.month b.inside.0 in
      let here : b.fields.year +ℤ pos 0 ≡ b.fields.year = omega int_laws in
      let first : pos (b.day + 1) -ℤ pos 1 ≡ pos b.day = omega int_laws in
      rw (b.month_is, m.0, m.1, here, b.day_is, first, b.clock_is, clock_sum b.ms)
        (ap (λ t. time_clip (if is_local then t +ℤ offset t *ℤ pos 60000 else t)) b.sum_is)

-- The fields of a time, in their ranges, which `set_date_fields` takes back to the time.
pub record IsRestored (offset : ℤ → ℤ) (d : ℤ) (is_local : Bool) (r : Option (Option Fields))
    : Type 0 where
  pub fields : Fields
  pub returned : r ≡ some (some fields)
  pub restored : set_date_fields offset fields is_local ≡ some d

module _ (offset : ℤ → ℤ) where
  -- Every time value, in UTC: its fields are found, and they are set back to the same time.
  pub get_date_fields-IsRestored :
      (d : ℤ) (force : Bool)
      → pos 0 -ℤ pos 8640000000000000 ≤ℤ d
      → d ≤ℤ pos 8640000000000000
      → IsRestored offset d false (get_date_fields offset (some d) false force)
  unfolding get_date_fields ◌*ℤ◌
  get_date_fields-IsRestored d force low high =
      let e : d +ℤ pos 0 ≡ d = omega int_laws in
      let b = break_down-IsBroken d (pos 0) in
      rw (get_date_fields, e, b.returned)
        (record {
          fields = b.fields;
          returned = refl;
          restored = set_date_fields-broken offset d (pos 0) false b ∙ time_clip_inside d low high;
        })

  -- The same in local time, where the offset is the same at the time and at its local reading.
  pub get_date_fields_local :
      (d : ℤ) (force : Bool)
      → pos 0 -ℤ pos 8640000000000000 ≤ℤ d
      → d ≤ℤ pos 8640000000000000
      → offset (d +ℤ (pos 0 -ℤ offset d) *ℤ pos 60000) ≡ offset d
      → IsRestored offset d true (get_date_fields offset (some d) true force)
  unfolding get_date_fields
  get_date_fields_local d force low high same =
      let tz = pos 0 -ℤ offset d in
      let t = d +ℤ tz *ℤ pos 60000 in
      let b = break_down-IsBroken t tz in
      let e : t +ℤ offset d *ℤ pos 60000 ≡ d =
        omega (int_laws, *ℤ_parts tz 60000, *ℤ_parts (offset d) 60000) in
      rw (get_date_fields, b.returned)
        (record {
          fields = b.fields;
          returned = refl;
          restored =
              set_date_fields-broken offset t tz true b
              ∙ ap (λ o. time_clip (t +ℤ o *ℤ pos 60000)) same
              ∙ ap time_clip e
              ∙ time_clip_inside d low high;
        })
