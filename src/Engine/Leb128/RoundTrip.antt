-- ===== src/Engine/Leb128/RoundTrip.antt =====
-- What the writer appends is read back.
use quickjs_runtime.Prelude.{
  ℕ, zero, suc, ◌+◌, ◌*◌, ◌/◌, ◌%◌, ◌^◌, ◌<◌, ◌≡◌, refl, ap, ◌∙◌, inl, inr, true, ◌==◌,
  if◌then◌else◌, some, List, [], ◌∷◌, ◌++◌, bit_and, bit_or, length, arith, Bool-cases, ==_iff,
}
use native.Mathlib.Nat.{mod-eq_of_lt, pow-suc}
use native.Mathlib.Numerals.{towards_suc}
use quickjs_runtime.Prelude.Bits.{bit_and_mask, bit_or_fields, bit_or_comm, bit_and_power}
use quickjs_runtime.Engine.Leb128.{u32, get_loop, get_leb128}

-- The bytes of a number: seven bits each, lowest first, a mark on all but the last.
unfoldable pub groups : ℕ → ℕ → List ℕ
groups zero v = []
groups (suc fuel) v =
    let rest = groups fuel (v / 128) in if v / 128 == 0 then v ∷ [] else ((128 + v % 128) ∷ rest)

-- A marked byte and an unmarked one, met in the round for the bits from `k` on.
module _ (k i acc d : ℕ) (bytes : List ℕ) (at : k ≡ i * 7) (low : acc < 2 ^ k) (digit : d < 128)
    (fits : d * 2 ^ k < 2 ^ 32) where
  abbrev joined : ℕ
  joined = acc + d * 2 ^ k

  join : (a : ℕ) → a % 128 ≡ d → bit_or acc (u32 (bit_and a 0x7f * 2 ^ (i * 7))) ≡ joined
  join a e =
      rw (bit_and_mask 7 a, e, ← at, mod-eq_of_lt fits)
        (bit_or_comm acc (d * 2 ^ k) ∙ bit_or_fields k d acc low ∙ omega arith)

  get_loop-marked :
      (rounds : ℕ)
      → get_loop (suc rounds) i acc ((128 + d) ∷ bytes) ≡ get_loop rounds (i + 1) joined bytes
  unfolding get_loop
  get_loop-marked rounds = ground (arith, join (128 + d) (omega arith), bit_and_power 7 (128 + d))

  get_loop-last :
      (rounds : ℕ)
      → get_loop (suc rounds) i acc (d ∷ bytes) ≡ record { value = joined; consumed = some (i + 1) }
  unfolding get_loop
  get_loop-last rounds = ground (arith, join d (omega arith), bit_and_power 7 d)

-- The value of `v` by its low group and the rest, `p` being the place of the low group.
split_value : (v p : ℕ) → v * p ≡ v / 128 * (p * 128) + v % 128 * p
split_value v p =
    let e : v ≡ v / 128 * 128 + v % 128 = omega arith in ap (λ (t : ℕ). t * p) e ∙ omega arith

pow_seven : (k : ℕ) → 2 ^ (k + 7) ≡ 2 ^ k * 128
pow_seven k = simp towards_suc (
    omega (
      arith,
      pow-suc 2 k,
      pow-suc 2 (suc k),
      pow-suc 2 (suc (suc k)),
      pow-suc 2 (suc (suc (suc k))),
      pow-suc 2 (suc (suc (suc (suc k)))),
      pow-suc 2 (suc (suc (suc (suc (suc k))))),
      pow-suc 2 (suc (suc (suc (suc (suc (suc k)))))),
    ))

get_loop-groups :
    (fuel i k acc v : ℕ) (rest : List ℕ)
    → k ≡ i * 7
    → acc < 2 ^ k
    → v * 2 ^ k < 2 ^ 32
    → v < 128 ^ suc fuel
    → get_loop (suc fuel) i acc (groups (suc fuel) v ++ rest)
      ≡ record { value = acc + v * 2 ^ k; consumed = some (i + length (groups (suc fuel) v)) }
unfolding groups
get_loop-groups zero i k acc v rest at low fits bound =
    let small : (v / 128 == 0) ≡ true = ground arith in
    rw small (get_loop-last k i acc v rest at low (omega arith) fits 0)
get_loop-groups (suc fuel) i k acc v rest at low fits bound = elim (Bool-cases (v / 128 == 0)) [
  | inl small ↦ rw small (
      get_loop-last k i acc v rest at low (let q = (==_iff (v / 128) 0).0 small in omega arith) fits
        (suc fuel))
  | inr large ↦
      let parts = split_value v (2 ^ k) in
      let place = pow_seven k in
      let up = ap (λ (t : ℕ). v / 128 * t) place in
      let next =
        get_loop-groups fuel (i + 1) (k + 7) (acc + v % 128 * 2 ^ k) (v / 128) rest (omega arith)
          (room acc (v % 128) (2 ^ k) (2 ^ (k + 7)) low place (omega arith))
          (omega (arith, parts, up)) (omega (arith, pow-suc 128 (suc fuel))) in
      rw large (
        get_loop-marked k i acc (v % 128) _ at low (omega arith) (omega (arith, parts)) (suc fuel)
        ∙ ground (arith, next, parts, up))
]
  where
    room : (a d p q : ℕ) → a < p → q ≡ p * 128 → d < 128 → a + d * p < q
    room a d p q h e lt = grind arith

-- A number written and then read, with whatever bytes follow: a `uint32_t` comes back as it was,
-- and the reader stops behind the number.
pub get_leb128-groups :
    (v : ℕ) (rest : List ℕ)
    → v < 2 ^ 32
    → get_leb128 (groups 5 v ++ rest) ≡ record { value = v; consumed = some (length (groups 5 v)) }
unfolding get_leb128
get_leb128-groups v rest h =
    let read = get_loop-groups 4 0 0 0 v rest refl (omega arith) (omega arith) (omega arith) in
    ground (arith, read)
