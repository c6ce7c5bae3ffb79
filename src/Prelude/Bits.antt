-- ===== src/Prelude/Bits.antt =====
-- `&` and `|` of C at variables: a mask of low bits is a remainder, and fields that do not overlap
-- add up.
use Prim.Native.Nat.{digits, bit_and-bitwise, bit_or-bitwise}
use native.Mathlib.Nat.{pow-suc, one-le-pow, mul_comm, div-div-eq-div-mul}
use quickjs_runtime.Prelude.{
  ℕ, zero, suc, ◌+◌, ◌-◌, ◌*◌, ◌/◌, ◌%◌, ◌^◌, ◌≤◌, ◌<◌, min, max, bit_and, bit_or, ◌≡◌, refl, sym,
  ap, ◌∙◌, arith,
}

-- More fuel than the first number needs changes nothing.
module _ (rest : ℕ → ℕ) (op : ℕ → ℕ → ℕ) where
  pub enough_digits :
      (big small a b : ℕ)
      → a ≤ small
      → small ≤ big
      → digits rest op big a b ≡ digits rest op small a b
  enough_digits zero zero a b p q = refl
  enough_digits zero (suc small) a b p q = absurd (omega arith)
  enough_digits (suc big) zero zero b p q = refl
  enough_digits (suc big) zero (suc a) b p q = absurd (omega arith)
  enough_digits (suc big) (suc small) zero b p q = refl
  enough_digits (suc big) (suc small) (suc a) b p q =
      ap (λ d. d * 2 + op (suc a % 2) (b % 2))
        (enough_digits big small (suc a / 2) (b / 2) (omega arith) (omega arith))

-- The lowest digit, and the others.
pub bit_or-halves : (a b : ℕ) → bit_or a b ≡ 2 * bit_or (a / 2) (b / 2) + max (a % 2) (b % 2)
bit_or-halves zero b = omega (arith, bit_or-bitwise 0 b, bit_or-bitwise 0 (b / 2))
bit_or-halves (suc a) b = omega (
  arith,
  bit_or-bitwise (suc a) b,
  bit_or-bitwise (suc a / 2) (b / 2),
  enough_digits (λ d. d) max a (suc a / 2) (suc a / 2) (b / 2) (omega arith) (omega arith),
)

pub bit_and-halves : (a b : ℕ) → bit_and a b ≡ 2 * bit_and (a / 2) (b / 2) + min (a % 2) (b % 2)
bit_and-halves zero b = omega (arith, bit_and-bitwise 0 b, bit_and-bitwise 0 (b / 2))
bit_and-halves (suc a) b = omega (
  arith,
  bit_and-bitwise (suc a) b,
  bit_and-bitwise (suc a / 2) (b / 2),
  enough_digits (λ d. 0) min a (suc a / 2) (suc a / 2) (b / 2) (omega arith) (omega arith),
)

or_zero_below : (n a : ℕ) → a ≤ n → bit_or a 0 ≡ a
or_zero_below n zero h = refl
or_zero_below zero (suc a) h = absurd (omega arith)
or_zero_below (suc n) (suc a) h =
    omega (arith, bit_or-halves (suc a) 0, or_zero_below n (suc a / 2) (omega arith))

and_zero_below : (n a : ℕ) → a ≤ n → bit_and a 0 ≡ 0
and_zero_below n zero h = refl
and_zero_below zero (suc a) h = absurd (omega arith)
and_zero_below (suc n) (suc a) h =
    omega (arith, bit_and-halves (suc a) 0, and_zero_below n (suc a / 2) (omega arith))

comm_below : (n a b : ℕ) → a ≤ n → b ≤ n → bit_or a b ≡ bit_or b a
comm_below zero zero zero p q = refl
comm_below zero (suc a) b p q = absurd (omega arith)
comm_below zero zero (suc b) p q = absurd (omega arith)
comm_below (suc n) zero zero p q = refl
comm_below (suc n) (suc a) b p q = omega (
  arith,
  bit_or-halves (suc a) b,
  bit_or-halves b (suc a),
  comm_below n (suc a / 2) (b / 2) (omega arith) (omega arith),
)
comm_below (suc n) zero (suc b) p q = omega (
  arith,
  bit_or-halves 0 (suc b),
  bit_or-halves (suc b) 0,
  comm_below n 0 (suc b / 2) (omega arith) (omega arith),
)

pub bit_or_comm : (a b : ℕ) → bit_or a b ≡ bit_or b a
bit_or_comm a b = comm_below (a + b) a b (omega arith) (omega arith)

-- `(q << k) | r` where `r` has `k` bits.
pub bit_or_fields : (k q r : ℕ) → r < 2 ^ k → bit_or (q * 2 ^ k) r ≡ q * 2 ^ k + r
bit_or_fields zero q zero h = omega (arith, or_zero_below (q * 1) (q * 1) (omega arith))
bit_or_fields zero q (suc r) h = absurd (omega arith)
bit_or_fields (suc k) q r h =
    let twice = ap (λ (t : ℕ). q * t) (pow-suc 2 k) in
    omega (
      arith,
      twice,
      pow-suc 2 k,
      bit_or-halves (q * 2 ^ suc k) r,
      ap (λ (t : ℕ). bit_or t (r / 2)) (half (q * 2 ^ suc k) (q * 2 ^ k) (omega (arith, twice))),
      bit_or_fields k q (r / 2) (omega (arith, pow-suc 2 k)),
    )
  where
    half : (n m : ℕ) → n ≡ 2 * m → n / 2 ≡ m
    half n m e = omega arith

mod_double : (x m : ℕ) → 0 < m → x % (m * 2) ≡ 2 * (x / 2 % m) + x % 2
mod_double x m h = grind arith

-- `x & ((1 << k) - 1)`.
pub bit_and_mask : (k x : ℕ) → bit_and x (2 ^ k - 1) ≡ x % 2 ^ k
bit_and_mask zero x = omega (arith, and_zero_below x x (omega arith))
bit_and_mask (suc k) x =
    let pos = one-le-pow k 2 (omega arith) in
    let twice = pow-suc 2 k in
    omega (
      arith,
      bit_and-halves x (2 ^ suc k - 1),
      ap (λ (t : ℕ). bit_and (x / 2) t) (half (2 ^ k) (omega (arith, twice)) pos),
      bit_and_mask k (x / 2),
      ap (λ (t : ℕ). x % t) twice,
      mod_double x (2 ^ k) pos,
      twice,
      pos,
    )
  where
    half : (m : ℕ) → 2 ^ suc k ≡ 2 * m → 0 < m → (2 ^ suc k - 1) / 2 ≡ m - 1
    half m e h = omega arith

-- `x & (1 << k)`.
pub bit_and_power : (k x : ℕ) → bit_and x (2 ^ k) ≡ x / 2 ^ k % 2 * 2 ^ k
bit_and_power zero x =
    omega (arith, bit_and-halves x 1, and_zero_below (x / 2) (x / 2) (omega arith))
bit_and_power (suc k) x =
    let pos = one-le-pow k 2 (omega arith) in
    let twice = pow-suc 2 k in
    let below = bit_and_power k (x / 2) in
    omega (
      arith,
      bit_and-halves x (2 ^ suc k),
      ap (λ (t : ℕ). bit_and (x / 2) t) (half (2 ^ k) twice),
      below,
      ap (λ (t : ℕ). x / t % 2 * 2 ^ suc k) (twice ∙ mul_comm (2 ^ k) 2),
      ap (λ (t : ℕ). t % 2 * 2 ^ suc k) (sym (div-div-eq-div-mul x 2 (2 ^ k))),
      ap (λ (t : ℕ). x / 2 / 2 ^ k % 2 * t) twice,
      twice,
    )
  where
    half : (m : ℕ) → 2 ^ suc k ≡ m * 2 → 2 ^ suc k / 2 ≡ m
    half m e = omega arith
