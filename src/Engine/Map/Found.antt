-- ===== src/Engine/Map/Found.antt =====
-- What a change of the one record with a key does to the entries.
use quickjs_runtime.Prelude.{
  ℕ, ◌≡◌, refl, ap, inl, inr, Bool, true, false, ◌==◌, if◌then◌else◌, some, List, [], ◌∷◌, arith,
  Bool-cases, ==_iff,
}
use quickjs_runtime.Engine.Map.{Keys, MapRecord, unlink}
use quickjs_runtime.Engine.Map.Members.{has, ==-cases, ==_refl, ==_sym, or_left_false}
use quickjs_runtime.Engine.Map.Entries.{entries, lookup, replace, erase, same_at}

pub not_both : (b : Bool) → b ≡ true → b ≡ false → ⊥
not_both true h k = ground arith
not_both false h k = ground arith

module _ {K V : Type 0} (keys : Keys K) (record_at : ℕ → MapRecord K V) (k : K) (r0 : ℕ) where
  -- No other record of the list has the key.
  abbrev pub IsOnly : List ℕ → Type 0
  IsOnly rs =
      (r : ℕ)
      → has r rs ≡ true
      → (record_at r).empty ≡ false
      → same_at keys record_at k r ≡ true
      → r ≡ r0

  IsOnly-rest : (x : ℕ) (rs : List ℕ) → IsOnly (x ∷ rs) → IsOnly rs
  unfolding has
  IsOnly-rest x rs h r here full same =
      h r (elim (Bool-cases (r == x)) [ inl e ↦ rw e refl | inr e ↦ rw e here ]) full same

  -- A full record that is not `r0` has another key.
  other_key :
      (x : ℕ) (rs : List ℕ)
      → IsOnly (x ∷ rs)
      → (record_at x).empty ≡ false
      → (x == r0) ≡ false
      → same_at keys record_at k x ≡ false
  unfolding has
  other_key x rs h full away = elim (Bool-cases (same_at keys record_at k x)) [
    | inl same ↦
        let e = h x (rw (==_refl x) refl) full same in
        absurd (not_both (x == r0) ((==_iff x r0).1 e) away)
    | inr other ↦ other
  ]

  module _ (full : (record_at r0).empty ≡ false) (same : same_at keys record_at k r0 ≡ true) where
    pub lookup-found :
        (rs : List ℕ)
        → IsOnly rs
        → has r0 rs ≡ true
        → lookup keys k (entries record_at rs) ≡ some (record_at r0).value
    unfolding has entries lookup same_at
    lookup-found [] h here = absurd (ground arith)
    lookup-found (x ∷ rs) h here = elim (==-cases x r0) [
      | inl (e, at) ↦ rw (at, full, same) refl
      | inr away ↦
          let later =
            lookup-found rs (IsOnly-rest x rs h)
              (or_left_false (r0 == x) (has r0 rs) (==_sym x r0 away) here) in
          elim (Bool-cases (record_at x).empty) [
            | inl gone ↦ rw gone later
            | inr full' ↦ rw (full', other_key x rs h full' away) later
          ]
    ]

    pub replace-found :
        (v : V) (rs : List ℕ)
        → IsOnly rs
        → entries (λ x. if x == r0 then record (record_at r0) { value = v } else record_at x) rs
          ≡ replace keys k v (entries record_at rs)
    unfolding entries replace same_at
    replace-found v [] h = refl
    replace-found v (x ∷ rs) h = elim (==-cases x r0) [
      | inl (e, at) ↦
          rw (e, at, full, same)
            (ap (λ es. ((record_at r0).key, v) ∷ es) (replace-found v rs (IsOnly-rest x rs h)))
      | inr away ↦ elim (Bool-cases (record_at x).empty) [
        | inl gone ↦ rw (away, gone) (replace-found v rs (IsOnly-rest x rs h))
        | inr full' ↦
            rw (away, full', other_key x rs h full' away)
              (ap (λ es. ((record_at x).key, (record_at x).value) ∷ es)
                (replace-found v rs (IsOnly-rest x rs h)))
      ]
    ]

    pub erase-found :
        (n : ℕ) (rs : List ℕ)
        → IsOnly rs
        → entries
            (λ x.
              if x == r0
              then record (record_at r0) { ref_count = n; empty = true }
              else record_at x)
            rs
          ≡ erase keys k (entries record_at rs)
    unfolding entries erase same_at
    erase-found n [] h = refl
    erase-found n (x ∷ rs) h = elim (==-cases x r0) [
      | inl (e, at) ↦ rw (e, at, full, same) (erase-found n rs (IsOnly-rest x rs h))
      | inr away ↦ elim (Bool-cases (record_at x).empty) [
        | inl gone ↦ rw (away, gone) (erase-found n rs (IsOnly-rest x rs h))
        | inr full' ↦
            rw (away, full', other_key x rs h full' away)
              (ap (λ es. ((record_at x).key, (record_at x).value) ∷ es)
                (erase-found n rs (IsOnly-rest x rs h)))
      ]
    ]

    pub erase-unlinked :
        (rs : List ℕ)
        → IsOnly rs
        → entries record_at (unlink r0 rs) ≡ erase keys k (entries record_at rs)
    unfolding entries erase same_at unlink
    erase-unlinked [] h = refl
    erase-unlinked (x ∷ rs) h = elim (==-cases r0 x) [
      | inl (e, at) ↦ rw (e, ← at, full, same) (erase-unlinked rs (IsOnly-rest x rs h))
      | inr away ↦ elim (Bool-cases (record_at x).empty) [
        | inl gone ↦ rw (away, gone) (erase-unlinked rs (IsOnly-rest x rs h))
        | inr full' ↦
            rw (away, full', other_key x rs h full' (==_sym r0 x away))
              (ap (λ es. ((record_at x).key, (record_at x).value) ∷ es)
                (erase-unlinked rs (IsOnly-rest x rs h)))
      ]
    ]
