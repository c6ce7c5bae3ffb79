-- ===== src/Engine/Leb128/Signed.antt =====
-- The signed numbers of native/quickjs/quickjs.c: the sign goes to the lowest bit, and comes back.
use Prim.Native.Nat.{bit_xor-bitwise, differ}
use native.Mathlib.Nat.{pow-suc, mod-eq_of_lt}
use quickjs_runtime.Prelude.{
  ℕ, zero, suc, ◌+◌, ◌-◌, ◌*◌, ◌/◌, ◌%◌, ◌^◌, ◌≤◌, ◌<◌, ◌≡◌, refl, ap, ◌∙◌, ◌⊎◌, inl, inr, Bool,
  some, List, ◌++◌, length, bit_xor, bit_and, arith,
}
use quickjs_runtime.Prelude.Bits.{enough_digits, bit_and_mask}
use quickjs_runtime.Cutils.DynBuf.{DynBuf, size_mod}
use quickjs_runtime.Cutils.DynBuf.Growth.{IsValid}
use quickjs_runtime.Engine.Leb128.RoundTrip.{groups, get_leb128-groups}
use quickjs_runtime.Engine.Leb128.Writer.{dbuf_put_leb128-IsWritten}
use quickjs_runtime.Cutils.DynBuf.Writes.{IsWritten}
use quickjs_runtime.Engine.Leb128.{u32, zigzag, unzigzag, get_sleb128, dbuf_put_sleb128}

-- The lowest digit, and the others.
bit_xor-halves : (a b : ℕ) → bit_xor a b ≡ 2 * bit_xor (a / 2) (b / 2) + differ (a % 2) (b % 2)
bit_xor-halves zero b = omega (arith, bit_xor-bitwise 0 b, bit_xor-bitwise 0 (b / 2))
bit_xor-halves (suc a) b = omega (
  arith,
  bit_xor-bitwise (suc a) b,
  bit_xor-bitwise (suc a / 2) (b / 2),
  enough_digits (λ d. d) differ a (suc a / 2) (suc a / 2) (b / 2) (omega arith) (omega arith),
)

differ_zero : (d : ℕ) → differ d 0 ≡ d
differ_zero zero = refl
differ_zero (suc d) = refl

differ_one : (d : ℕ) → d < 2 → differ d 1 ≡ 1 - d
differ_one zero h = refl
differ_one (suc zero) h = refl
differ_one (suc (suc d)) h = absurd (omega arith)

xor_zero_below : (n a : ℕ) → a ≤ n → bit_xor a 0 ≡ a
xor_zero_below n zero h = refl
xor_zero_below zero (suc a) h = absurd (omega arith)
xor_zero_below (suc n) (suc a) h = omega (
  arith,
  bit_xor-halves (suc a) 0,
  differ_zero (suc a % 2),
  xor_zero_below n (suc a / 2) (omega arith),
)

xor_zero : (a : ℕ) → bit_xor a 0 ≡ a
xor_zero a = xor_zero_below a a (omega arith)

-- Against all ones every digit changes.
xor_ones : (w a m : ℕ) → suc m ≡ 2 ^ w → a ≤ m → bit_xor a m ≡ m - a
xor_ones zero a m e h = ones_zero a m (omega arith) h
  where
    ones_zero : (a m : ℕ) → m ≡ 0 → a ≤ m → bit_xor a m ≡ m - a
    ones_zero zero zero z h = refl
    ones_zero (suc a) zero z h = absurd (omega arith)
    ones_zero a (suc m) z h = absurd (omega arith)
xor_ones (suc w) a m e h =
    let double = pow-suc 2 w in
    let half : suc (m / 2) ≡ 2 ^ w = omega arith in
    let odd_mask : m % 2 ≡ 1 = omega arith in
    omega (
      arith,
      bit_xor-halves a m,
      ap (differ (a % 2)) odd_mask,
      differ_one (a % 2) (omega arith),
      xor_ones w (a / 2) (m / 2) half (omega arith),
    )

-- A bit pattern below the sign bit, and one from it on.
zigzag-low : (v : ℕ) → v < 2 ^ 31 → zigzag v ≡ 2 * v
unfolding zigzag
zigzag-low v h =
    let sign : v / 2 ^ 31 ≡ 0 = omega arith in
    rw (sign, mod-eq_of_lt (double v h)) (xor_zero (2 * v))
  where
    double : (v : ℕ) → v < 2 ^ 31 → 2 * v < 2 ^ 32
    double v h = omega arith

zigzag-high : (v : ℕ) → 2 ^ 31 ≤ v → v < 2 ^ 32 → zigzag v ≡ 2 ^ 33 - 1 - 2 * v
unfolding zigzag
zigzag-high v h k =
    let sign : v / 2 ^ 31 ≡ 1 = omega arith in
    let wrapped : 2 * v % 2 ^ 32 ≡ 2 * v - 2 ^ 32 = omega arith in
    rw (sign, wrapped) (xor_ones 32 (2 * v - 2 ^ 32) (2 ^ 32 - 1) refl (omega arith) ∙ omega arith)

which_sign : (v : ℕ) → (v < 2 ^ 31) ⊎ (2 ^ 31 ≤ v)
which_sign v = omega arith

zigzag_small : (v : ℕ) → v < 2 ^ 32 → zigzag v < 2 ^ 32
zigzag_small v h = elim (which_sign v) [
  | inl low ↦ omega (arith, zigzag-low v low)
  | inr high ↦ omega (arith, zigzag-high v high h)
]

restored : ℕ → ℕ
restored z = bit_xor (z / 2) (u32 (2 ^ 32 - bit_and z 1))

restored_low : (v : ℕ) → restored (2 * v) ≡ v
unfolding restored
restored_low v =
    let half : 2 * v / 2 ≡ v = omega arith in
    let even : 2 * v % 2 ≡ 0 = omega arith in rw (bit_and_mask 1 (2 * v), half, even) (xor_zero v)

restored_high : (v : ℕ) → v < 2 ^ 32 → restored (2 ^ 33 - 1 - 2 * v) ≡ v
unfolding restored
restored_high v h =
    let z = 2 ^ 33 - 1 - 2 * v in
    let half : z / 2 ≡ 2 ^ 32 - 1 - v = omega arith in
    let lowest : z % 2 ≡ 1 = omega arith in
    rw (bit_and_mask 1 z, half, lowest)
      (xor_ones 32 (2 ^ 32 - 1 - v) (2 ^ 32 - 1) refl (omega arith) ∙ omega arith)

restored-zigzag : (v : ℕ) → v < 2 ^ 32 → restored (zigzag v) ≡ v
restored-zigzag v h = elim (which_sign v) [
  | inl low ↦ ap restored (zigzag-low v low) ∙ restored_low v
  | inr high ↦ ap restored (zigzag-high v high h) ∙ restored_high v h
]

-- A signed number written and then read, with whatever bytes follow: every bit pattern of 32 bits
-- comes back, and the reader stops behind the number.
pub get_sleb128-groups :
    (v : ℕ) (rest : List ℕ)
    → v < 2 ^ 32
    → get_sleb128 (groups 5 (zigzag v) ++ rest)
      ≡ record { value = v; consumed = some (length (groups 5 (zigzag v))) }
unfolding get_sleb128 unzigzag restored
get_sleb128-groups v rest h =
    ap unzigzag (get_leb128-groups (zigzag v) rest (zigzag_small v h))
    ∙ ap (λ x. record { value = x; consumed = some (length (groups 5 (zigzag v))) })
        (restored-zigzag v h)

module _ (grants : ℕ → ℕ → Bool) (junk : ℕ) where
  -- A signed number is written in full or the buffer is marked, as for an unsigned one.
  pub dbuf_put_sleb128-IsWritten :
      (s : DynBuf) (v : ℕ)
      → IsValid s
      → s.size + 5 < size_mod
      → v < 2 ^ 32
      → IsWritten s (groups 5 (zigzag v)) (dbuf_put_sleb128 grants junk s v)
  unfolding dbuf_put_sleb128
  dbuf_put_sleb128-IsWritten s v valid room h =
      dbuf_put_leb128-IsWritten grants junk s (zigzag v) valid room (zigzag_small v h)
