-- ===== src/Bridge/Table/Laws.antt =====
-- Laws of the callback tables.
use quickjs_runtime.Prelude.{ℕ, ◌-◌, ◌≤◌, ◌<◌, ◌≡◌, refl, ap, ◌≢◌, ◌⊎◌, inl, inr, none, some, arith}
use quickjs_runtime.Prelude.Int.{pos, negsuc}
use quickjs_runtime.Bridge.Table.{Table, max_host_fns, empty, callback_at, reserve, int16}

-- Every slot from `count` on is empty, and every slot below it is taken.
pub record IsFilled {ℓ} {A : Type ℓ} (t : Table A) : Type ℓ where
  pub bounded : t.count ≤ max_host_fns
  pub taken : (i : ℕ) → i < t.count → t.slots i ≢ none
  pub free : (i : ℕ) → t.count ≤ i → t.slots i ≡ none

-- What `int16_t` makes of a table index.
pub int16-cases :
    (i : ℕ)
    → i < max_host_fns
    → ((i < 32768) × (int16 i ≡ pos i)) ⊎ ((32768 ≤ i) × (int16 i ≡ negsuc (65535 - i)))
unfolding int16
int16-cases i h = ground arith

module _ {ℓ} {A : Type ℓ} where
  pub empty-IsFilled : IsFilled (empty {A = A})
  unfolding empty
  empty-IsFilled = record {
    bounded = omega arith;
    taken = λ i h. absurd (omega arith);
    free = λ i h. refl;
  }

  pub reserve-IsFilled : (a : A) (t : Table A) → IsFilled t → IsFilled (reserve a t).1
  unfolding reserve
  reserve-IsFilled a t v = record {
    bounded = ground (arith, v.bounded);
    taken = λ i h. ground (arith, v.taken i);
    free = λ i h. ground (arith, v.free i);
  }

  -- A table index that was stored as a magic number is found below 2 ^ 15, and from there on
  -- nothing is.
  pub callback_at-int16 :
      (t : Table A) (i : ℕ)
      → i < max_host_fns
      → ((i < 32768) × (callback_at t (int16 i) ≡ callback_at t (pos i)))
        ⊎ ((32768 ≤ i) × (callback_at t (int16 i) ≡ none))
  unfolding callback_at
  callback_at-int16 t i h = elim (int16-cases i h) [
    | inl (low, e) ↦ inl (low, ap (callback_at t) e)
    | inr (high, e) ↦ inr (high, ap (callback_at t) e)
  ]

  -- A registration hands out the count, fills that slot alone, and the entry is found there.
  pub reserve_lem :
      (a : A) (t : Table A)
      → t.count < max_host_fns
      → ((reserve a t).0 ≡ some t.count)
        × (callback_at (reserve a t).1 (pos t.count) ≡ some a)
        × ((j : ℕ) → j < t.count → callback_at (reserve a t).1 (pos j) ≡ callback_at t (pos j))
  unfolding reserve callback_at
  reserve_lem a t h = (ground arith, ground arith, λ j lt. ground arith)

  -- A full table is left as it is.
  pub reserve_full : (a : A) (t : Table A) → max_host_fns ≤ t.count → reserve a t ≡ (none, t)
  unfolding reserve
  reserve_full a t h = ground arith
