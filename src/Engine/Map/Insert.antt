-- ===== src/Engine/Map/Insert.antt =====
-- The links of a new record of a map.
use quickjs_runtime.Prelude.{
  ℕ, ◌≡◌, refl, sym, ap, ap₂, ◌∙◌, ◌⊎◌, inl, inr, true, false, ◌&&◌, ◌==◌, List, [], ◌∷◌, ◌++◌,
  length, length-append, arith, Bool-cases,
}
use quickjs_runtime.Engine.Map.{Keys, MapRecord, MapState, set_record, link_record}
use quickjs_runtime.Engine.Map.Members.{
  has, ==-cases, ==_refl, ==_sym, or_false, has-append, or_false_right, or_right_false,
  IsUnique-append,
}
use quickjs_runtime.Engine.Map.Entries.{entries, same_at, IsAbsent}
use quickjs_runtime.Engine.Map.Found.{not_both}
use quickjs_runtime.Engine.Map.Invariant.{IsHashed, IsMap, contents}
use quickjs_runtime.Engine.Map.Rehash.{has-set_chain, belongs}

module _ {K V : Type 0} (keys : Keys K) where
  -- A record that is not in a list may change.
  entries-set :
      (s : MapState K V) (r : ℕ) (mr : MapRecord K V) (rs : List ℕ)
      → has r rs ≡ false
      → entries (set_record r mr s).record_at rs ≡ entries s.record_at rs
  unfolding entries has set_record
  entries-set s r mr [] h = refl
  entries-set s r mr (x ∷ rs) h =
      let away = or_false (r == x) (has r rs) h in
      rw (==_sym r x away.0, entries-set s r mr rs away.1) refl

  entries-append :
      (record_at : ℕ → MapRecord K V) (rs : List ℕ) (r : ℕ)
      → (record_at r).empty ≡ false
      → entries record_at (rs ++ r ∷ [])
        ≡ entries record_at rs ++ ((record_at r).key, (record_at r).value) ∷ []
  unfolding entries
  entries-append record_at [] r full = rw full refl
  entries-append record_at (x ∷ rs) r full = elim (Bool-cases (record_at x).empty) [
    | inl gone ↦ rw gone (entries-append record_at rs r full)
    | inr full' ↦ rw full' (
        ap (λ es. ((record_at x).key, (record_at x).value) ∷ es)
          (entries-append record_at rs r full))
  ]

  module _ (key : K) (value : V) (s : MapState K V) (m : IsMap keys s) where
    new_record : has s.next_record s.records ≡ false
    new_record = elim (Bool-cases (has s.next_record s.records)) [
      | inl there ↦ let h = m.fresh s.next_record there in absurd (omega arith)
      | inr away ↦ away
    ]

    abbrev linked : MapRecord K V
    linked = record { ref_count = 1; empty = false; key = key; value = value }

    record_new : (link_record keys key value s).record_at s.next_record ≡ linked
    unfolding link_record set_record
    record_new = rw (==_refl s.next_record) refl

    record_old :
        (r : ℕ)
        → (r == s.next_record) ≡ false
        → (link_record keys key value s).record_at r ≡ s.record_at r
    unfolding link_record set_record
    record_old r away = rw away refl

    old_or_new :
        (r : ℕ)
        → has r (s.records ++ s.next_record ∷ []) ≡ true
        → (r ≡ s.next_record) ⊎ (((r == s.next_record) ≡ false) × (has r s.records ≡ true))
    old_or_new r here = elim (==-cases r s.next_record) [
      | inl (e, at) ↦ inl at
      | inr away ↦
          let h = sym (has-append r s.records s.next_record) ∙ here in
          inr (away, or_right_false (has r s.records) (r == s.next_record) away h)
    ]

    pub link_record-contents :
        contents keys (link_record keys key value s) ≡ contents keys s ++ (key, value) ∷ []
    unfolding link_record set_record
    link_record-contents =
        let n = s.next_record in
        let record_at = (link_record keys key value s).record_at in
        entries-append record_at s.records n (rw (==_refl n) refl)
        ∙ ap₂ (λ es e. es ++ e ∷ []) (entries-set s n linked s.records new_record)
            (rw (==_refl n) refl)

    link_record-chained :
        (r h : ℕ)
        → has r ((link_record keys key value s).hash_table h) ≡ (
            has r (s.records ++ s.next_record ∷ [])
            && belongs keys (link_record keys key value s).record_at s.hash_size r h)
    unfolding link_record set_record
    link_record-chained r h = elim (==-cases r s.next_record) [
      | inl (e, at) ↦
          has-set_chain _ s.next_record r h s.hash_table
          ∙ rw (m.chained r h, has-append r s.records s.next_record, e, at, new_record) refl
      | inr away ↦
          has-set_chain _ s.next_record r h s.hash_table
          ∙ rw
              (
                has-append r s.records s.next_record,
                away,
                or_false_right (has r (s.hash_table h)),
                or_false_right (has r s.records),
              )
              (m.chained r h)
    ]

    -- A full record that was there has another key.
    apart :
        (k : K) (r r' : ℕ)
        → IsHashed keys
        → IsAbsent keys s.record_at key s.records
        → r ≡ s.next_record
        → (r' == s.next_record) ≡ false
        → has r' s.records ≡ true
        → ((link_record keys key value s).record_at r').empty ≡ false
        → same_at keys (link_record keys key value s).record_at k r ≡ true
        → same_at keys (link_record keys key value s).record_at k r' ≡ true
        → ⊥
    unfolding same_at
    apart k r r' laws absent at away here full same same' =
        let old = record_old r' away in
        let new = ap (λ x. (link_record keys key value s).record_at x) at ∙ record_new in
        let k' = (s.record_at r').key in
        let both =
          laws.euclidean k' key k (ap (λ mr. keys.js_same_value_zero mr.key k) (sym old) ∙ same')
            (ap (λ mr. keys.js_same_value_zero mr.key k) (sym new) ∙ same) in
        not_both _ both (absent r' here (ap (λ mr. mr.empty) (sym old) ∙ full))

    pub link_record-IsMap :
        IsHashed keys
        → IsAbsent keys s.record_at key s.records
        → IsMap keys (link_record keys key value s)
    unfolding link_record set_record same_at
    link_record-IsMap laws absent = record {
      chained = link_record-chained;
      distinct = λ k r r' here here' full full' same same'. elim (old_or_new r here) [
        | inl at ↦ elim (old_or_new r' here') [
          | inl at' ↦ at ∙ sym at'
          | inr (away', h') ↦ absurd (apart k r r' laws absent at away' h' full' same same')
        ]
        | inr (away, h) ↦ elim (old_or_new r' here') [
          | inl at' ↦ absurd (apart k r' r laws absent at' away h full same' same)
          | inr (away', h') ↦
              let old = record_old r away in
              let old' = record_old r' away' in
              m.distinct k r r' h h' (ap (λ mr. mr.empty) (sym old) ∙ full)
                (ap (λ mr. mr.empty) (sym old') ∙ full')
                (ap (λ mr. keys.js_same_value_zero mr.key k) (sym old) ∙ same)
                (ap (λ mr. keys.js_same_value_zero mr.key k) (sym old') ∙ same')
        ]
      ];
      unique = IsUnique-append s.records s.next_record m.unique new_record;
      fresh = λ r here. elim (old_or_new r here) [
        | inl at ↦ omega (arith, at)
        | inr (away, h) ↦ let below = m.fresh r h in omega arith
      ];
      counted = omega (
        arith,
        m.counted,
        ap length link_record-contents,
        length-append (contents keys s) ((key, value) ∷ []),
      );
    }
