-- ===== src/Examples/Lookup.antt =====
-- A lookup in a table of two blocks.
use quickjs_runtime.Prelude.{
  ℕ, ◌<◌, ◌≡◌, refl, sym, subst, ◌⊎◌, inl, inr, ◌==◌, if◌then◌else◌, some, List, [], ◌∷◌, arith,
}
use quickjs_runtime.Unicode.Lookup.{get_index_pos, get_le24}
use quickjs_runtime.Unicode.Lookup.Search.{Holds, IsPosition, get_index_pos-IsPosition}

abbrev table : List ℕ
table = 65 ∷ 0 ∷ 0 ∷ 91 ∷ 0 ∷ 0 ∷ []

abbrev entry : ℕ → ℕ
entry i = if i == 0 then 65 else 91

first_or_second : (i : ℕ) → i < 2 → (i ≡ 0) ⊎ (i ≡ 1)
first_or_second i h = omega arith

table-Holds : Holds table 2 entry
unfolding Holds get_le24
table-Holds i h = elim (first_or_second i h) [
  | inl e ↦ subst (λ k. get_le24 table k ≡ some (entry k)) (sym e) refl
  | inr e ↦ subst (λ k. get_le24 table k ≡ some (entry k)) (sym e) refl
]

get_index_pos-IsPosition_example :
    IsPosition table 2 entry 70 table-Holds (get_index_pos 2 70 table 2)
get_index_pos-IsPosition_example =
    get_index_pos-IsPosition table 2 entry 70 table-Holds 2 (omega arith) (omega arith)
      (omega arith)
