-- ===== src/Examples/Dates.antt =====
-- Dates at concrete inputs.
use quickjs_runtime.Prelude.{◌≡◌, refl, false, some}
use quickjs_runtime.Prelude.Int.{ℤ, pos, negsuc, ◌+ℤ◌, ◌-ℤ◌, ◌*ℤ◌, int_laws}
use quickjs_runtime.Engine.Date.{
  get_date_fields, break_down, year_from_days, year_loop, days_from_year, days_in_year, floor_div,
  math_mod, rem, quot, divides,
}
use quickjs_runtime.Engine.Date.Year.{IsYearOf, year_from_days-IsYearOf}
use quickjs_runtime.Engine.Date.RoundTrip.{
  IsBroken, IsRestored, break_down-IsBroken, get_date_fields-IsRestored,
}

-- 2024-02-29 and 1969-12-31, by their day numbers.
leap_day : year_from_days (pos 19782) ≡ some (pos 2024, pos 59)
unfolding year_from_days year_loop days_from_year days_in_year floor_div math_mod rem quot divides
    ◌+ℤ◌ ◌-ℤ◌ ◌*ℤ◌
leap_day = refl

before_epoch : year_from_days (negsuc 0) ≡ some (pos 1969, pos 364)
unfolding year_from_days year_loop days_from_year days_in_year floor_div math_mod rem quot divides
    ◌+ℤ◌ ◌-ℤ◌ ◌*ℤ◌
before_epoch = refl

year_from_days-IsYearOf_example : IsYearOf (negsuc 0) (year_from_days (negsuc 0))
year_from_days-IsYearOf_example = year_from_days-IsYearOf (negsuc 0)

break_down-IsBroken_example : IsBroken (negsuc 0) (pos 0) (break_down (negsuc 0) (pos 0))
break_down-IsBroken_example = break_down-IsBroken (negsuc 0) (pos 0)

-- An hour and a half to the east of Greenwich.
abbrev offset : ℤ → ℤ
offset t = negsuc 89

get_date_fields-IsRestored_example :
    IsRestored offset (negsuc 0) false (get_date_fields offset (some (negsuc 0)) false false)
get_date_fields-IsRestored_example =
    get_date_fields-IsRestored offset (negsuc 0) false (omega int_laws) (omega int_laws)
