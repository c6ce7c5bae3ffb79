-- ===== src/Unicode/Lookup.antt =====
-- The lookup in the compressed tables of native/quickjs/libunicode.c: `get_index_pos`. A read outside a table is `none`.
pub mod Search
use quickjs_runtime.Prelude.{
  ℕ, zero, suc, ◌+◌, ◌-◌, ◌*◌, ◌/◌, ◌%◌, ◌^◌, Bool, true, false, not, ltb, leb, if◌then◌else◌,
  Option, none, some, List, [], ◌∷◌, drop, bit_and, bit_or,
}
use quickjs_runtime.Prelude.Int.{ℤ, pos, negsuc}

abbrev pub le24 : List ℕ → Option ℕ
le24 (a ∷ b ∷ c ∷ rest) = some (bit_or (bit_or a (b * 2 ^ 8)) (c * 2 ^ 16))
le24 short = none

-- The entry at an index, three bytes each.
unfoldable pub get_le24 : List ℕ → ℕ → Option ℕ
get_le24 table idx = le24 (drop (idx * 3) table)

-- `v & ((1 << 21) - 1)`.
unfoldable pub code_of : ℕ → ℕ
code_of v = bit_and v (2 ^ 21 - 1)

unfoldable pub unicode_index_block_len : ℕ
unicode_index_block_len = 32

-- A result, a read outside the table, or the end of the fuel.
pub data Lookup {ℓ} (A : Type ℓ) : Type ℓ where
  answer : A → Lookup A
  fault : Lookup A
  no_fuel : Lookup A

-- An entry of the table, for what follows it.
unfoldable pub with_entry {ℓ} : {A : Type ℓ} → List ℕ → ℕ → (ℕ → Lookup A) → Lookup A
with_entry table idx k = elim (get_le24 table idx) [ none ↦ fault | some v ↦ k v ]

unfoldable pub then_at {ℓ} : {A : Type ℓ} → Lookup ℕ → (ℕ → Lookup A) → Lookup A
then_at (answer x) k = k x
then_at fault k = fault
then_at no_fuel k = no_fuel

-- The loop that halves the range, on fuel, of which the length of the range is enough.
unfoldable pub search : ℕ → List ℕ → ℕ → ℕ → ℕ → Lookup ℕ
search zero table c idx_min idx_max = no_fuel
search (suc fuel) table c idx_min idx_max =
    let idx = (idx_max + idx_min) / 2 in
    let lower = search fuel table c idx_min idx in
    let upper = search fuel table c idx idx_max in
    if ltb 1 (idx_max - idx_min)
    then with_entry table idx (λ v. if ltb c (code_of v) then lower else upper)
    else answer idx_min

-- What is returned, and what is stored through `pcode` if anything is.
pub record Position : Type 0 where
  pub offset : ℤ
  pub code : Option ℕ

unfoldable pub found : ℕ → ℕ → Position
found idx_min v = record {
  offset = pos ((idx_min + 1) * unicode_index_block_len + v / 2 ^ 21);
  code = some (code_of v);
}

unfoldable pub get_index_pos : ℕ → ℕ → List ℕ → ℕ → Lookup Position
get_index_pos fuel c table len = with_entry table 0 (λ v.
    if ltb c (code_of v)
    then answer (record { offset = pos 0; code = some 0 })
    else with_entry table (len - 1) (λ last.
      if leb last c
      then answer (record { offset = negsuc 0; code = none })
      else then_at (search fuel table c 0 (len - 1))
          (λ idx_min. with_entry table idx_min (λ w. answer (found idx_min w)))))
