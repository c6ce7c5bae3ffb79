-- ===== src/Examples/CharRange.antt =====
-- Sets of code points at concrete inputs.
use quickjs_runtime.Prelude.{
  ℕ, ◌≡◌, refl, Bool, true, false, ltb, not, ◌&&◌, some, List, [], ◌∷◌, arith,
}
use quickjs_runtime.Unicode.CharRange.{
  cr_op_inter, cr_op_xor, cr_op, cr_invert, compress_loop, next_point, is_in, op_loop, finish,
  cr_compress, cr_add_point, push_points, cr_realloc,
}
use quickjs_runtime.Unicode.CharRange.Cover.{in_ranges, Sorted, combine}
use quickjs_runtime.Unicode.CharRange.Sets.{IsComputed, cr_op-IsComputed}
use quickjs_runtime.Unicode.CharRange.Invert.{cr_invert-IsComputed, last_point}

abbrev digits : List ℕ
digits = 48 ∷ 58 ∷ []

abbrev letters : List ℕ
letters = 50 ∷ 52 ∷ 65 ∷ 91 ∷ []

abbrev always : ℕ → Bool
always n = true

digits-Sorted : Sorted digits
digits-Sorted = ((omega arith, tt), (tt, tt))

letters-Sorted : Sorted letters
letters-Sorted = (
  (omega arith, (omega arith, (omega arith, tt))),
  ((omega arith, (omega arith, tt)), ((omega arith, tt), (tt, tt))),
)

-- The digits but two of them.
difference :
    cr_op always 10 cr_op_xor digits (50 ∷ 52 ∷ []) (record { points = []; size = 0 })
    ≡ some (record { points = 48 ∷ 50 ∷ 52 ∷ 58 ∷ []; size = 4 }, false)
unfolding cr_op op_loop next_point is_in finish cr_compress compress_loop cr_add_point push_points
    cr_realloc
difference = refl

cr_op-IsComputed_example :
    IsComputed always
      (λ c. combine cr_op_inter (in_ranges c digits) (in_ranges c letters))
      (cr_op always 7 cr_op_inter digits letters (record { points = []; size = 0 }))
cr_op-IsComputed_example =
    cr_op-IsComputed always 7 cr_op_inter digits letters 0 (omega arith) digits-Sorted
      letters-Sorted tt tt

cr_invert-IsComputed_example :
    IsComputed always
      (λ c. ltb c last_point && not (in_ranges c letters))
      (some (cr_invert always (record { points = letters; size = 4 })))
cr_invert-IsComputed_example =
    cr_invert-IsComputed always (record { points = letters; size = 4 }) letters-Sorted tt
      (omega arith, (omega arith, (omega arith, (omega arith, tt))))
