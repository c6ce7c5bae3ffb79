-- ===== src/Engine/Map/Counts.antt =====
-- A map in which a record gains or loses a reference.
use quickjs_runtime.Prelude.{
  ℕ, ◌≤◌, ◌≡◌, refl, sym, ap, ◌∙◌, inl, inr, Bool, false, not, ◌&&◌, ◌==◌, List, [], ◌∷◌, length,
}
use quickjs_runtime.Engine.Map.{Keys, MapState, set_record, bucket_of}
use quickjs_runtime.Engine.Map.Members.{has, ==-cases}
use quickjs_runtime.Engine.Map.Entries.{entries, same_at}
use quickjs_runtime.Engine.Map.Invariant.{IsMap}

-- The map itself has a reference to each full record.
abbrev pub IsReferenced : {K V : Type 0} → MapState K V → Type 0
IsReferenced s = (x : ℕ) → (s.record_at x).empty ≡ false → 1 ≤ (s.record_at x).ref_count

module _ {K V : Type 0} (keys : Keys K) (s : MapState K V) (r n : ℕ) (m : IsMap keys s) where
  -- Only the count of references changes.
  abbrev pub recounted : MapState K V
  recounted = set_record r (record (s.record_at r) { ref_count = n }) s

  pub recounted-field :
      {A : Type 0} (field : Bool → K → V → A) (x : ℕ)
      → field
          (recounted.record_at x).empty
          (recounted.record_at x).key
          (recounted.record_at x).value
        ≡ field (s.record_at x).empty (s.record_at x).key (s.record_at x).value
  unfolding set_record
  recounted-field field x = elim (==-cases x r) [
    | inl (e, at) ↦ rw (e, at) refl
    | inr away ↦ rw away refl
  ]

  pub recounted-entries : (rs : List ℕ) → entries recounted.record_at rs ≡ entries s.record_at rs
  unfolding entries set_record
  recounted-entries [] = refl
  recounted-entries (x ∷ rs) = elim (==-cases x r) [
    | inl (e, at) ↦ rw (e, at, recounted-entries rs) refl
    | inr away ↦ rw (away, recounted-entries rs) refl
  ]

  pub recounted-IsMap : IsMap keys recounted
  unfolding same_at set_record
  recounted-IsMap = record {
    chained = λ x h.
        m.chained x h
        ∙ sym (
            recounted-field
              (λ b k v. has x s.records && (not b && bucket_of keys k s.hash_size == h)) x);
    distinct = λ k x x' here here' full full' same same'.
        m.distinct k x x' here here' (sym (recounted-field (λ b k v. b) x) ∙ full)
          (sym (recounted-field (λ b k v. b) x') ∙ full')
          (sym (recounted-field (λ b a v. keys.js_same_value_zero a k) x) ∙ same)
          (sym (recounted-field (λ b a v. keys.js_same_value_zero a k) x') ∙ same');
    unique = m.unique;
    fresh = m.fresh;
    counted = m.counted ∙ ap length (sym (recounted-entries s.records));
  }

  pub recounted-IsReferenced :
      IsReferenced s → ((s.record_at r).empty ≡ false → 1 ≤ n) → IsReferenced recounted
  unfolding set_record
  recounted-IsReferenced refs h x = elim (==-cases x r) [
    | inl (e, at) ↦ rw e h
    | inr away ↦ rw away (refs x)
  ]
