-- ===== src/Engine/Map/Entries.antt =====
-- A map as its entries in the order of their insertion.
use quickjs_runtime.Prelude.{
  ℕ, ◌≡◌, refl, sym, ap, ◌∙◌, inl, inr, Bool, true, false, ◌==◌, if◌then◌else◌, Option, none, some,
  List, [], ◌∷◌, ◌++◌, arith, Bool-cases,
}
use quickjs_runtime.Engine.Map.{Keys, MapRecord, find_in}
use quickjs_runtime.Engine.Map.Members.{has, ==-cases, ==_refl, or_right, or_left_false}

module _ {K V : Type 0} where
  unfoldable pub entries : (ℕ → MapRecord K V) → List ℕ → List (K × V)
  entries record_at [] = []
  entries record_at (r ∷ rs) =
      let rest = entries record_at rs in
      if (record_at r).empty then rest else ((record_at r).key, (record_at r).value) ∷ rest

pub some_injective {ℓ} : {A : Type ℓ} {a b : A} → some a ≡ some b → a ≡ b
some_injective {a = a} e = ap (λ o. elim o [ none ↦ a | some c ↦ c ]) e

pub some-none {ℓ} : {A : Type ℓ} {a : A} → some a ≡ none → ⊥
some-none e = ground arith

module _ {K V : Type 0} (keys : Keys K) where
  unfoldable pub lookup : K → List (K × V) → Option V
  lookup k [] = none
  lookup k (e ∷ es) =
      let rest = lookup k es in if keys.js_same_value_zero e.0 k then some e.1 else rest

  unfoldable pub replace : K → V → List (K × V) → List (K × V)
  replace k v [] = []
  replace k v (e ∷ es) = (if keys.js_same_value_zero e.0 k then (e.0, v) else e) ∷ replace k v es

  -- The entry of a key that is there keeps its place.
  unfoldable pub put : K → V → List (K × V) → List (K × V)
  put k v es = elim (lookup k es) [ none ↦ es ++ (k, v) ∷ [] | some old ↦ replace k v es ]

  unfoldable pub erase : K → List (K × V) → List (K × V)
  erase k [] = []
  erase k (e ∷ es) =
      let rest = erase k es in if keys.js_same_value_zero e.0 k then rest else e ∷ rest

  unfoldable pub same_at : (ℕ → MapRecord K V) → K → ℕ → Bool
  same_at record_at k r = keys.js_same_value_zero (record_at r).key k

  module _ (record_at : ℕ → MapRecord K V) (x : ℕ) (chain : List ℕ) (k : K) where
    find_in_here : same_at record_at k x ≡ true → find_in keys record_at (x ∷ chain) k ≡ some x
    unfolding find_in same_at
    find_in_here h = rw h refl

    find_in_later :
        same_at record_at k x ≡ false
        → find_in keys record_at (x ∷ chain) k ≡ find_in keys record_at chain k
    unfolding find_in same_at
    find_in_later h = rw h refl

  -- The search along a chain finds a record of the chain with the key, if there is one.
  pub find_in-some :
      (record_at : ℕ → MapRecord K V) (chain : List ℕ) (k : K) (r : ℕ)
      → find_in keys record_at chain k ≡ some r
      → (has r chain ≡ true) × (same_at record_at k r ≡ true)
  unfolding has find_in
  find_in-some record_at [] k r h = absurd (some-none (sym h))
  find_in-some record_at (x ∷ chain) k r h = elim (Bool-cases (same_at record_at k x)) [
    | inl same ↦
        let e = some_injective (sym (find_in_here record_at x chain k same) ∙ h) in
        rw (← e) (rw (==_refl x) refl, same)
    | inr other ↦
        let rest =
          find_in-some record_at chain k r (sym (find_in_later record_at x chain k other) ∙ h) in
        (or_right (r == x) (has r chain) rest.0, rest.1)
  ]

  pub find_in-none :
      (record_at : ℕ → MapRecord K V) (chain : List ℕ) (k : K) (r : ℕ)
      → find_in keys record_at chain k ≡ none
      → has r chain ≡ true
      → same_at record_at k r ≡ false
  unfolding has
  find_in-none record_at [] k r h here = absurd (ground arith)
  find_in-none record_at (x ∷ chain) k r h here = elim (Bool-cases (same_at record_at k x)) [
    | inl same ↦ absurd (some-none (sym (find_in_here record_at x chain k same) ∙ h))
    | inr other ↦ elim (==-cases r x) [
      | inl (e, at) ↦ rw at other
      | inr away ↦
          find_in-none record_at chain k r (sym (find_in_later record_at x chain k other) ∙ h)
            (or_left_false (r == x) (has r chain) away here)
    ]
  ]

  -- Where no record has the key.
  module _ (record_at : ℕ → MapRecord K V) (k : K) where
    abbrev pub IsAbsent : List ℕ → Type 0
    IsAbsent rs =
        (r : ℕ) → has r rs ≡ true → (record_at r).empty ≡ false → same_at record_at k r ≡ false

    IsAbsent-rest : (x : ℕ) (rs : List ℕ) → IsAbsent (x ∷ rs) → IsAbsent rs
    unfolding has
    IsAbsent-rest x rs h r here full =
        h r (elim (Bool-cases (r == x)) [ inl e ↦ rw e refl | inr e ↦ rw e here ]) full

    pub lookup-absent : (rs : List ℕ) → IsAbsent rs → lookup k (entries record_at rs) ≡ none
    unfolding entries lookup has same_at
    lookup-absent [] h = refl
    lookup-absent (x ∷ rs) h = elim (Bool-cases (record_at x).empty) [
      | inl gone ↦ rw gone (lookup-absent rs (IsAbsent-rest x rs h))
      | inr full ↦
          rw (full, h x (rw (==_refl x) refl) full) (lookup-absent rs (IsAbsent-rest x rs h))
    ]

    pub erase-absent :
        (rs : List ℕ) → IsAbsent rs → erase k (entries record_at rs) ≡ entries record_at rs
    unfolding entries erase has same_at
    erase-absent [] h = refl
    erase-absent (x ∷ rs) h = elim (Bool-cases (record_at x).empty) [
      | inl gone ↦ rw gone (erase-absent rs (IsAbsent-rest x rs h))
      | inr full ↦
          rw (full, h x (rw (==_refl x) refl) full)
            (ap (λ es. ((record_at x).key, (record_at x).value) ∷ es)
              (erase-absent rs (IsAbsent-rest x rs h)))
    ]
