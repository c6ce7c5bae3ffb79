-- ===== src/Cutils/Utf8.antt =====
-- `unicode_to_utf8` and `unicode_from_utf8` of native/quickjs/cutils.c: UTF-8 with up to 31 bits.
pub mod Bytes
pub mod RoundTrip
pub mod Exact
use quickjs_runtime.Prelude.{
  ℕ, zero, suc, ◌+◌, ◌-◌, ◌*◌, ◌/◌, ◌%◌, ◌^◌, Bool, true, false, ◌||◌, ltb, leb, if◌then◌else◌,
  Option, none, some, List, [], ◌∷◌, bit_and, bit_or,
}

abbrev u8 : ℕ → ℕ
u8 n = n % 2 ^ 8

-- The byte `((c >> k) & 0x3f) | 0x80`.
unfoldable pub tail_byte : ℕ → ℕ → ℕ
tail_byte c k = u8 (bit_or (bit_and (c / 2 ^ k) 0x3f) 0x80)

-- The byte `(c >> k) | mark`.
unfoldable pub lead_byte : ℕ → ℕ → ℕ → ℕ
lead_byte c k mark = u8 (bit_or (c / 2 ^ k) mark)

-- The bytes that are written; their number is what the function returns. No code point of more
-- than 31 bits is encoded.
unfoldable pub unicode_to_utf8 : ℕ → List ℕ
unicode_to_utf8 c =
    let last = tail_byte c 0 ∷ [] in
    let from6 = tail_byte c 6 ∷ last in
    let from12 = tail_byte c 12 ∷ from6 in
    let from18 = tail_byte c 18 ∷ from12 in
    if ltb c 0x80
    then c ∷ []
    else (if ltb c 0x800
        then lead_byte c 6 0xc0 ∷ last
        else (if ltb c 0x10000
            then lead_byte c 12 0xe0 ∷ from6
            else (if ltb c 0x200000
                then lead_byte c 18 0xf0 ∷ from12
                else (if ltb c 0x4000000
                    then lead_byte c 24 0xf8 ∷ from18
                    else (if ltb c 0x80000000
                        then lead_byte c 30 0xfc ∷ tail_byte c 24 ∷ from18
                        else [])))))

-- A code point with the input after it, -1, or a read past the end of the input.
pub data Decoded : Type 0 where
  code : ℕ → List ℕ → Decoded
  invalid : Decoded
  fault : Decoded

-- The number of bytes that follow a lead byte; `none` is the `default` of the switch.
unfoldable pub trailing : ℕ → Option ℕ
trailing c =
    if ltb c 0xc0
    then none
    else (if leb c 0xdf
        then some 1
        else (if leb c 0xef
            then some 2
            else (if leb c 0xf7
                then some 3
                else (if leb c 0xfb then some 4 else (if leb c 0xfd then some 5 else none)))))

-- `utf8_min_code[l - 1]` and `utf8_first_code_mask[l - 1]`.
unfoldable pub utf8_min_code : ℕ → ℕ
utf8_min_code (suc zero) = 0x80
utf8_min_code (suc (suc zero)) = 0x800
utf8_min_code (suc (suc (suc zero))) = 0x10000
utf8_min_code (suc (suc (suc (suc zero)))) = 0x200000
utf8_min_code _ = 0x4000000

unfoldable pub utf8_first_code_mask : ℕ → ℕ
utf8_first_code_mask (suc zero) = 0x1f
utf8_first_code_mask (suc (suc zero)) = 0xf
utf8_first_code_mask (suc (suc (suc zero))) = 0x7
utf8_first_code_mask (suc (suc (suc (suc zero)))) = 0x3
utf8_first_code_mask _ = 0x1

-- The loop over the `l` bytes that follow.
unfoldable pub tail_loop : ℕ → ℕ → List ℕ → Decoded
tail_loop zero c p = code c p
tail_loop (suc l) c [] = fault
tail_loop (suc l) c (b ∷ p) =
    if ltb b 0x80 || leb 0xc0 b
    then invalid
    else tail_loop l (bit_or (c * 2 ^ 6) (bit_and b 0x3f)) p

-- `if (c < utf8_min_code[l - 1]) return -1;`
unfoldable pub check_min : ℕ → Decoded → Decoded
check_min l (code c p) = if ltb c (utf8_min_code l) then invalid else code c p
check_min l other = other

unfoldable pub with_trailing : Option ℕ → ℕ → ℕ → List ℕ → Decoded
with_trailing none c max_len p = invalid
with_trailing (some l) c max_len p =
    if ltb (max_len - 1) l
    then invalid
    else check_min l (tail_loop l (bit_and c (utf8_first_code_mask l)) p)

unfoldable pub unicode_from_utf8 : List ℕ → ℕ → Decoded
unicode_from_utf8 [] max_len = fault
unicode_from_utf8 (c ∷ p) max_len =
    if ltb c 0x80 then code c p else with_trailing (trailing c) c max_len p
