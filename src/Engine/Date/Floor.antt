-- ===== src/Engine/Date/Floor.antt =====
-- `math_mod` and `floor_div` of native/quickjs/quickjs.c round down.
use quickjs_runtime.Prelude.{ℕ, ◌+◌, ◌*◌, ◌/◌, ◌%◌, ◌≤◌, ◌<◌, ◌≡◌, refl, arith, ◌⊎◌}
use quickjs_runtime.Prelude.Int.{
  ℤ, pos, negsuc, pos_part, neg_part, ◌+ℤ◌, ◌-ℤ◌, ◌*ℤ◌, ◌≤ℤ◌, int_laws,
}
use quickjs_runtime.Engine.Date.{rem, quot, math_mod, floor_div, divides, days_in_year}

-- q is a / b rounded down.
pub record IsFloor (a : ℤ) (b : ℕ) (q : ℤ) : Type 0 where
  pub low : b * pos_part q + neg_part a ≤ pos_part a + b * neg_part q
  pub high : pos_part a + b * neg_part q < b * pos_part q + neg_part a + b

pub floor4 : (a : ℤ) → IsFloor a 4 (floor_div a 4)
unfolding floor_div math_mod rem quot ◌-ℤ◌ ◌+ℤ◌
floor4 a = ground arith

pub floor100 : (a : ℤ) → IsFloor a 100 (floor_div a 100)
unfolding floor_div math_mod rem quot ◌-ℤ◌ ◌+ℤ◌
floor100 a = ground arith

pub floor400 : (a : ℤ) → IsFloor a 400 (floor_div a 400)
unfolding floor_div math_mod rem quot ◌-ℤ◌ ◌+ℤ◌
floor400 a = ground arith

pub floor3652425 : (a : ℤ) → IsFloor a 3652425 (floor_div a 3652425)
unfolding floor_div math_mod rem quot ◌-ℤ◌ ◌+ℤ◌
floor3652425 a = ground arith

divides4 :
    (y : ℤ)
    → ((divides 4 y ≡ 1) × ((pos_part y + neg_part y) % 4 ≡ 0))
      ⊎ ((divides 4 y ≡ 0) × (0 < (pos_part y + neg_part y) % 4))
unfolding divides rem
divides4 y = ground arith

divides100 :
    (y : ℤ)
    → ((divides 100 y ≡ 1) × ((pos_part y + neg_part y) % 100 ≡ 0))
      ⊎ ((divides 100 y ≡ 0) × (0 < (pos_part y + neg_part y) % 100))
unfolding divides rem
divides100 y = ground arith

divides400 :
    (y : ℤ)
    → ((divides 400 y ≡ 1) × ((pos_part y + neg_part y) % 400 ≡ 0))
      ⊎ ((divides 400 y ≡ 0) × (0 < (pos_part y + neg_part y) % 400))
unfolding divides rem
divides400 y = ground arith

-- The next year's quotient is one more just in a year that the divisor divides.
pub leap4 :
    (y : ℤ)
    → floor_div (y +ℤ pos 1 -ℤ pos 1969) 4 ≡ floor_div (y -ℤ pos 1969) 4 +ℤ pos (divides 4 y)
leap4 (pos n) =
    let a = floor4 (pos n +ℤ pos 1 -ℤ pos 1969) in
    let b = floor4 (pos n -ℤ pos 1969) in
    omega (int_laws, a.low, a.high, b.low, b.high, divides4 (pos n))
leap4 (negsuc n) =
    let a = floor4 (negsuc n +ℤ pos 1 -ℤ pos 1969) in
    let b = floor4 (negsuc n -ℤ pos 1969) in
    omega (int_laws, a.low, a.high, b.low, b.high, divides4 (negsuc n))

pub leap100 :
    (y : ℤ)
    → floor_div (y +ℤ pos 1 -ℤ pos 1901) 100 ≡ floor_div (y -ℤ pos 1901) 100 +ℤ pos (divides 100 y)
leap100 (pos n) =
    let a = floor100 (pos n +ℤ pos 1 -ℤ pos 1901) in
    let b = floor100 (pos n -ℤ pos 1901) in
    omega (int_laws, a.low, a.high, b.low, b.high, divides100 (pos n))
leap100 (negsuc n) =
    let a = floor100 (negsuc n +ℤ pos 1 -ℤ pos 1901) in
    let b = floor100 (negsuc n -ℤ pos 1901) in
    omega (int_laws, a.low, a.high, b.low, b.high, divides100 (negsuc n))

pub leap400 :
    (y : ℤ)
    → floor_div (y +ℤ pos 1 -ℤ pos 1601) 400 ≡ floor_div (y -ℤ pos 1601) 400 +ℤ pos (divides 400 y)
leap400 (pos n) =
    let a = floor400 (pos n +ℤ pos 1 -ℤ pos 1601) in
    let b = floor400 (pos n -ℤ pos 1601) in
    omega (int_laws, a.low, a.high, b.low, b.high, divides400 (pos n))
leap400 (negsuc n) =
    let a = floor400 (negsuc n +ℤ pos 1 -ℤ pos 1601) in
    let b = floor400 (negsuc n -ℤ pos 1601) in
    omega (int_laws, a.low, a.high, b.low, b.high, divides400 (negsuc n))

pub divides_small :
    (y : ℤ) → (divides 100 y ≤ 1) × (divides 400 y ≤ divides 100 y) × (divides 100 y ≤ divides 4 y)
divides_small y = omega (arith, divides4 y, divides100 y, divides400 y)

pub days_in_year_range : (y : ℤ) → (365 ≤ days_in_year y) × (days_in_year y ≤ 366)
unfolding days_in_year
days_in_year_range y = omega (arith, divides4 y, divides_small y)

-- A time is a whole number of days and the milliseconds of a day.
pub math_mod_day :
    (a : ℤ)
    → (math_mod a 86400000 ≡ pos (pos_part (math_mod a 86400000)))
      × (pos_part (math_mod a 86400000) < 86400000)
unfolding math_mod rem ◌+ℤ◌
math_mod_day a = ground arith

pub sum_day : (a : ℤ) → floor_div a 86400000 *ℤ pos 86400000 +ℤ math_mod a 86400000 ≡ a
unfolding floor_div math_mod rem quot ◌-ℤ◌ ◌+ℤ◌ ◌*ℤ◌
sum_day a = ground arith

-- A number that is not negative, by its digits in a base.
pub rem_pos : (n b : ℕ) → rem (pos n) b ≡ pos (n % b)
unfolding rem
rem_pos n b = refl

pub quot-60 : (n : ℕ) → quot (pos n -ℤ pos (n % 60)) 60 ≡ pos (n / 60)
unfolding quot ◌-ℤ◌
quot-60 n = ground arith

pub quot-1000 : (n : ℕ) → quot (pos n -ℤ pos (n % 1000)) 1000 ≡ pos (n / 1000)
unfolding quot ◌-ℤ◌
quot-1000 n = ground arith

pub week_day_range : (a : ℤ) → (pos 0 ≤ℤ math_mod a 7) × (math_mod a 7 ≤ℤ pos 6)
unfolding math_mod rem ◌+ℤ◌
week_day_range a = ground arith

-- A month of the year is not moved.
pub month_in_year :
    (m : ℕ) → m < 12 → (math_mod (pos m) 12 ≡ pos m) × (floor_div (pos m) 12 ≡ pos 0)
unfolding floor_div math_mod rem quot ◌-ℤ◌ ◌+ℤ◌
month_in_year m h = ground arith
