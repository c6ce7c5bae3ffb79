-- ===== src/Examples/Cutils.antt =====
-- The C utilities at concrete inputs.
use quickjs_runtime.Prelude.{◌≡◌, refl, [], ◌∷◌, ◌++◌, arith}
use quickjs_runtime.Cutils.Utf8.{
  code, invalid, tail_byte, lead_byte, unicode_to_utf8, unicode_from_utf8, with_trailing, trailing,
  utf8_first_code_mask, utf8_min_code, tail_loop, check_min,
}
use quickjs_runtime.Cutils.Utf8.RoundTrip.{unicode_from_utf8-unicode_to_utf8}
use quickjs_runtime.Cutils.Utf8.Exact.{IsExact, unicode_from_utf8-IsExact}

euro : unicode_to_utf8 0x20ac ≡ 0xe2 ∷ 0x82 ∷ 0xac ∷ []
unfolding unicode_to_utf8 lead_byte tail_byte
euro = refl

-- An overlong form of "/" and a lone tail byte are refused.
refused :
    (unicode_from_utf8 (0xc0 ∷ 0xaf ∷ []) 2 ≡ invalid) × (unicode_from_utf8 (0x80 ∷ []) 1 ≡ invalid)
unfolding unicode_from_utf8 with_trailing trailing utf8_first_code_mask utf8_min_code tail_loop
    check_min
refused = (refl, refl)

unicode_from_utf8-unicode_to_utf8_example :
    unicode_from_utf8 (unicode_to_utf8 0x20ac ++ (65 ∷ [])) 4 ≡ code 0x20ac (65 ∷ [])
unfolding unicode_to_utf8 lead_byte tail_byte
unicode_from_utf8-unicode_to_utf8_example =
    unicode_from_utf8-unicode_to_utf8 0x20ac 4 (65 ∷ []) (omega arith) (omega arith)

unicode_from_utf8-IsExact_example : IsExact (0xe2 ∷ 0x82 ∷ 0xac ∷ 65 ∷ []) 4 0x20ac (65 ∷ [])
unfolding unicode_from_utf8 with_trailing trailing utf8_first_code_mask utf8_min_code tail_loop
    check_min
unicode_from_utf8-IsExact_example =
    unicode_from_utf8-IsExact 0xe2 4 0x20ac (0x82 ∷ 0xac ∷ 65 ∷ []) (65 ∷ []) (omega arith) refl
