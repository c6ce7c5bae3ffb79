-- ===== src/Cutils/Utf8/RoundTrip.antt =====
-- Decoding what was encoded.
use quickjs_runtime.Prelude.{
  ℕ, ◌+◌, ◌*◌, ◌/◌, ◌%◌, ◌^◌, ◌≤◌, ◌<◌, ◌≡◌, ap, List, [], ◌∷◌, ◌++◌, arith, length, dec_lt,
}
use quickjs_runtime.Cutils.Utf8.{
  code, unicode_to_utf8, unicode_from_utf8, tail_loop, check_min, utf8_min_code,
}
use quickjs_runtime.Cutils.Utf8.Bytes.{
  tail_byte-eq, lead_byte-eq, tail_loop-step, lead_1, lead_2, lead_3, lead_4, lead_5,
}

-- The six bits of `c` from bit `k` on.
abbrev pub digit : ℕ → ℕ → ℕ
digit c k = c / 2 ^ k % 64

-- The encoding in each range.
module _ (c : ℕ) where
  pub one_byte : c < 0x80 → unicode_to_utf8 c ≡ c ∷ []
  unfolding unicode_to_utf8
  one_byte h = ground arith

  pub two_bytes :
      0x80 ≤ c → c < 0x800 → unicode_to_utf8 c ≡ (192 + c / 2 ^ 6) ∷ (128 + digit c 0) ∷ []
  unfolding unicode_to_utf8
  two_bytes l h = ground (arith, lead_byte-eq c 6 5 6, tail_byte-eq c 0)

  pub three_bytes :
      0x800 ≤ c
      → c < 0x10000
      → unicode_to_utf8 c ≡ (224 + c / 2 ^ 12) ∷ (128 + digit c 6) ∷ (128 + digit c 0) ∷ []
  unfolding unicode_to_utf8
  three_bytes l h = ground (arith, lead_byte-eq c 12 4 14, tail_byte-eq c 6, tail_byte-eq c 0)

  pub four_bytes :
      0x10000 ≤ c
      → c < 0x200000
      → unicode_to_utf8 c
        ≡ (240 + c / 2 ^ 18) ∷ (128 + digit c 12) ∷ (128 + digit c 6) ∷ (128 + digit c 0) ∷ []
  unfolding unicode_to_utf8
  four_bytes l h =
      ground (arith, lead_byte-eq c 18 3 30, tail_byte-eq c 12, tail_byte-eq c 6, tail_byte-eq c 0)

  pub five_bytes :
      0x200000 ≤ c
      → c < 0x4000000
      → unicode_to_utf8 c
        ≡ (248 + c / 2 ^ 24)
          ∷ (128 + digit c 18)
          ∷ (128 + digit c 12)
          ∷ (128 + digit c 6)
          ∷ (128 + digit c 0)
          ∷ []
  unfolding unicode_to_utf8
  five_bytes l h = ground (
    arith,
    lead_byte-eq c 24 2 62,
    tail_byte-eq c 18,
    tail_byte-eq c 12,
    tail_byte-eq c 6,
    tail_byte-eq c 0,
  )

  pub six_bytes :
      0x4000000 ≤ c
      → c < 0x80000000
      → unicode_to_utf8 c
        ≡ (252 + c / 2 ^ 30)
          ∷ (128 + digit c 24)
          ∷ (128 + digit c 18)
          ∷ (128 + digit c 12)
          ∷ (128 + digit c 6)
          ∷ (128 + digit c 0)
          ∷ []
  unfolding unicode_to_utf8
  six_bytes l h = ground (
    arith,
    lead_byte-eq c 30 1 126,
    tail_byte-eq c 24,
    tail_byte-eq c 18,
    tail_byte-eq c 12,
    tail_byte-eq c 6,
    tail_byte-eq c 0,
  )

-- The end of the loop: the code has come together and is not below the minimum.
check_min-code :
    (l a c : ℕ) (rest : List ℕ)
    → a ≡ c
    → utf8_min_code l ≤ c
    → check_min l (tail_loop 0 a rest) ≡ code c rest
unfolding check_min tail_loop
check_min-code l a c rest e h = ground arith

module _ (c max_len : ℕ) (rest : List ℕ) where
  abbrev Returns : Type 0
  Returns = unicode_from_utf8 (unicode_to_utf8 c ++ rest) max_len ≡ code c rest

  back_two : 0x80 ≤ c → c < 0x800 → 2 ≤ max_len → Returns
  unfolding utf8_min_code
  back_two l h m =
      rw
        (
          two_bytes c l h,
          lead_1 (c / 2 ^ 6) max_len ((128 + digit c 0) ∷ rest) (omega arith) m,
          tail_loop-step 0 (c / 2 ^ 6) (digit c 0) rest (omega arith),
        )
        (check_min-code 1 _ c rest (omega arith) l)

  back_three : 0x800 ≤ c → c < 0x10000 → 3 ≤ max_len → Returns
  unfolding utf8_min_code
  back_three l h m =
      rw
        (
          three_bytes c l h,
          lead_2 (c / 2 ^ 12) max_len ((128 + digit c 6) ∷ (128 + digit c 0) ∷ rest) (omega arith)
              m,
          tail_loop-step 1 (c / 2 ^ 12) (digit c 6) ((128 + digit c 0) ∷ rest) (omega arith),
          tail_loop-step 0 ((c / 2 ^ 12) * 64 + digit c 6) (digit c 0) rest (omega arith),
        )
        (check_min-code 2 _ c rest (omega arith) l)

  back_four : 0x10000 ≤ c → c < 0x200000 → 4 ≤ max_len → Returns
  unfolding utf8_min_code
  back_four l h m =
      rw
        (
          four_bytes c l h,
          lead_3 (c / 2 ^ 18) max_len
              ((128 + digit c 12) ∷ (128 + digit c 6) ∷ (128 + digit c 0) ∷ rest) (omega arith) m,
          tail_loop-step 2 (c / 2 ^ 18) (digit c 12) ((128 + digit c 6) ∷ (128 + digit c 0) ∷ rest)
              (omega arith),
          tail_loop-step 1 ((c / 2 ^ 18) * 64 + digit c 12) (digit c 6) ((128 + digit c 0) ∷ rest)
              (omega arith),
          tail_loop-step 0 (((c / 2 ^ 18) * 64 + digit c 12) * 64 + digit c 6) (digit c 0) rest
              (omega arith),
        )
        (check_min-code 3 _ c rest (omega arith) l)

  back_five : 0x200000 ≤ c → c < 0x4000000 → 5 ≤ max_len → Returns
  unfolding utf8_min_code
  back_five l h m =
      rw
        (
          five_bytes c l h,
          lead_4 (c / 2 ^ 24) max_len
              ((128 + digit c 18)
                ∷ (128 + digit c 12)
                ∷ (128 + digit c 6)
                ∷ (128 + digit c 0)
                ∷ rest)
              (omega arith) m,
          tail_loop-step 3 (c / 2 ^ 24) (digit c 18)
              ((128 + digit c 12) ∷ (128 + digit c 6) ∷ (128 + digit c 0) ∷ rest) (omega arith),
          tail_loop-step 2 ((c / 2 ^ 24) * 64 + digit c 18) (digit c 12)
              ((128 + digit c 6) ∷ (128 + digit c 0) ∷ rest) (omega arith),
          tail_loop-step 1 (((c / 2 ^ 24) * 64 + digit c 18) * 64 + digit c 12) (digit c 6)
              ((128 + digit c 0) ∷ rest) (omega arith),
          tail_loop-step 0 ((((c / 2 ^ 24) * 64 + digit c 18) * 64 + digit c 12) * 64 + digit c 6)
              (digit c 0) rest (omega arith),
        )
        (check_min-code 4 _ c rest (omega arith) l)

  back_six : 0x4000000 ≤ c → c < 0x80000000 → 6 ≤ max_len → Returns
  unfolding utf8_min_code
  back_six l h m =
      rw
        (
          six_bytes c l h,
          lead_5 (c / 2 ^ 30) max_len
              ((128 + digit c 24)
                ∷ (128 + digit c 18)
                ∷ (128 + digit c 12)
                ∷ (128 + digit c 6)
                ∷ (128 + digit c 0)
                ∷ rest)
              (omega arith) m,
          tail_loop-step 4 (c / 2 ^ 30) (digit c 24)
              ((128 + digit c 18)
                ∷ (128 + digit c 12)
                ∷ (128 + digit c 6)
                ∷ (128 + digit c 0)
                ∷ rest)
              (omega arith),
          tail_loop-step 3 ((c / 2 ^ 30) * 64 + digit c 24) (digit c 18)
              ((128 + digit c 12) ∷ (128 + digit c 6) ∷ (128 + digit c 0) ∷ rest) (omega arith),
          tail_loop-step 2 (((c / 2 ^ 30) * 64 + digit c 24) * 64 + digit c 18) (digit c 12)
              ((128 + digit c 6) ∷ (128 + digit c 0) ∷ rest) (omega arith),
          tail_loop-step 1 ((((c / 2 ^ 30) * 64 + digit c 24) * 64 + digit c 18) * 64 + digit c 12)
              (digit c 6) ((128 + digit c 0) ∷ rest) (omega arith),
          tail_loop-step 0
              (((((c / 2 ^ 30) * 64 + digit c 24) * 64 + digit c 18) * 64 + digit c 12) * 64
                + digit c 6)
              (digit c 0) rest (omega arith),
        )
        (check_min-code 5 _ c rest (omega arith) l)

  back_one : c < 0x80 → Returns
  unfolding unicode_from_utf8
  back_one h = rw (one_byte c h) (ground arith)

-- Decoding takes back every code point of at most 31 bits, whatever follows its bytes, if the
-- limit on the length allows for them.
pub unicode_from_utf8-unicode_to_utf8 :
    (c max_len : ℕ) (rest : List ℕ)
    → c < 2 ^ 31
    → length (unicode_to_utf8 c) ≤ max_len
    → unicode_from_utf8 (unicode_to_utf8 c ++ rest) max_len ≡ code c rest
unicode_from_utf8-unicode_to_utf8 c max_len rest h m = elim (dec_lt c 0x80) [
  | yes a ↦ back_one c max_len rest a
  | no a ↦ elim (dec_lt c 0x800) [
    | yes b ↦
        back_two c max_len rest (omega arith) b
          (omega (arith, ap length (two_bytes c (omega arith) b)))
    | no b ↦ elim (dec_lt c 0x10000) [
      | yes d ↦
          back_three c max_len rest (omega arith) d
            (omega (arith, ap length (three_bytes c (omega arith) d)))
      | no d ↦ elim (dec_lt c 0x200000) [
        | yes e ↦
            back_four c max_len rest (omega arith) e
              (omega (arith, ap length (four_bytes c (omega arith) e)))
        | no e ↦ elim (dec_lt c 0x4000000) [
          | yes f ↦
              back_five c max_len rest (omega arith) f
                (omega (arith, ap length (five_bytes c (omega arith) f)))
          | no f ↦
              back_six c max_len rest (omega arith) (omega arith)
                (omega (arith, ap length (six_bytes c (omega arith) (omega arith))))
        ]
      ]
    ]
  ]
]
