-- ===== src/Cutils/Utf8/Bytes.antt =====
-- The bytes of the encoding as arithmetic, and one step of the decoder.
use quickjs_runtime.Prelude.{
  ℕ, suc, ◌+◌, ◌*◌, ◌/◌, ◌%◌, ◌^◌, ◌≤◌, ◌<◌, ◌≡◌, ap, ◌∙◌, List, ◌∷◌, bit_or, arith,
}
use quickjs_runtime.Prelude.Bits.{bit_or_fields, bit_or_comm, bit_and_mask}
use quickjs_runtime.Cutils.Utf8.{
  tail_byte, lead_byte, tail_loop, utf8_first_code_mask, unicode_from_utf8, with_trailing, trailing,
  check_min,
}

-- `x | (q << k)` where `x` has `k` bits.
bit_or_mark : (k q x : ℕ) → x < 2 ^ k → bit_or x (q * 2 ^ k) ≡ q * 2 ^ k + x
bit_or_mark k q x h = bit_or_comm x (q * 2 ^ k) ∙ bit_or_fields k q x h

pub tail_byte-eq : (c k : ℕ) → tail_byte c k ≡ 128 + c / 2 ^ k % 64
unfolding tail_byte
tail_byte-eq c k =
    let d = c / 2 ^ k in
    omega (
      arith,
      ap (λ (t : ℕ). bit_or t 0x80) (bit_and_mask 6 d),
      bit_or_mark 7 1 (d % 64) (omega arith),
    )

-- The lead byte of a code whose leading bits leave room for a mark of `q` followed by zeros.
pub lead_byte-eq :
    (c k j q : ℕ)
    → c / 2 ^ k < 2 ^ j
    → q * 2 ^ j + 2 ^ j ≤ 256
    → lead_byte c k (q * 2 ^ j) ≡ q * 2 ^ j + c / 2 ^ k
unfolding lead_byte
lead_byte-eq c k j q h fits = omega (arith, bit_or_mark j q (c / 2 ^ k) h)

pub tail_loop-step :
    (l c d : ℕ) (p : List ℕ)
    → d < 64
    → tail_loop (suc l) c ((128 + d) ∷ p) ≡ tail_loop l (c * 64 + d) p
unfolding tail_loop
tail_loop-step l c d p h =
    ground (arith, bit_and_mask 6 (128 + d), bit_or_fields 6 c ((128 + d) % 64))

-- The decoder at each kind of lead byte, with enough input allowed.
module _ (d max_len : ℕ) (p : List ℕ) where
  pub lead_1 :
      d < 32
      → 2 ≤ max_len
      → unicode_from_utf8 ((192 + d) ∷ p) max_len ≡ check_min 1 (tail_loop 1 d p)
  unfolding unicode_from_utf8 with_trailing trailing utf8_first_code_mask
  lead_1 h m = ground (arith, bit_and_mask 5 (192 + d))

  pub lead_2 :
      d < 16
      → 3 ≤ max_len
      → unicode_from_utf8 ((224 + d) ∷ p) max_len ≡ check_min 2 (tail_loop 2 d p)
  unfolding unicode_from_utf8 with_trailing trailing utf8_first_code_mask
  lead_2 h m = ground (arith, bit_and_mask 4 (224 + d))

  pub lead_3 :
      d < 8
      → 4 ≤ max_len
      → unicode_from_utf8 ((240 + d) ∷ p) max_len ≡ check_min 3 (tail_loop 3 d p)
  unfolding unicode_from_utf8 with_trailing trailing utf8_first_code_mask
  lead_3 h m = ground (arith, bit_and_mask 3 (240 + d))

  pub lead_4 :
      d < 4
      → 5 ≤ max_len
      → unicode_from_utf8 ((248 + d) ∷ p) max_len ≡ check_min 4 (tail_loop 4 d p)
  unfolding unicode_from_utf8 with_trailing trailing utf8_first_code_mask
  lead_4 h m = ground (arith, bit_and_mask 2 (248 + d))

  pub lead_5 :
      d < 2
      → 6 ≤ max_len
      → unicode_from_utf8 ((252 + d) ∷ p) max_len ≡ check_min 5 (tail_loop 5 d p)
  unfolding unicode_from_utf8 with_trailing trailing utf8_first_code_mask
  lead_5 h m = ground (arith, bit_and_mask 1 (252 + d))
