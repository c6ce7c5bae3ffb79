-- ===== src/Engine/Map/Clear.antt =====
-- `Map.prototype.clear`.
use quickjs_runtime.Prelude.{
  ℕ, ◌≡◌, refl, sym, ap, ◌∙◌, inl, inr, true, false, ◌==◌, List, [], ◌∷◌, length, Bool-cases,
}
use quickjs_runtime.Engine.Map.{
  Keys, MapRecord, MapState, set_record, map_delete_record, clear_records, js_map_clear,
  js_map_get_size,
}
use quickjs_runtime.Engine.Map.Members.{
  has, IsUnique, ==-cases, ==_refl, and_true, has-unlink, or_left_false, or_right,
}
use quickjs_runtime.Engine.Map.Entries.{entries, same_at}
use quickjs_runtime.Engine.Map.Found.{not_both}
use quickjs_runtime.Engine.Map.Invariant.{not-true, IsMap, IsFound, contents}
use quickjs_runtime.Engine.Map.Delete.{freed-IsMap, emptied-IsMap}

module _ {K V : Type 0} (keys : Keys K) where
  -- The records that a clearing has yet to see.
  record IsPending (s : MapState K V) (rs : List ℕ) : Type 0 where
    map : IsMap keys s
    unique : IsUnique rs
    there : (x : ℕ) → has x rs ≡ true → has x s.records ≡ true
    all : (x : ℕ) → has x s.records ≡ true → (s.record_at x).empty ≡ false → has x rs ≡ true

  IsFound-own :
      (s : MapState K V) (r : ℕ)
      → IsMap keys s
      → ((k : K) → keys.js_same_value_zero k k ≡ true)
      → has r s.records ≡ true
      → (s.record_at r).empty ≡ false
      → IsFound keys s (s.record_at r).key r
  unfolding same_at
  IsFound-own s r m reflexive here full = record {
    here = here;
    full = full;
    same = reflexive (s.record_at r).key;
    only = λ x here' full' same.
        m.distinct (s.record_at r).key x r here' here full' full same
          (reflexive (s.record_at r).key);
  }

  module _ (s : MapState K V) (r : ℕ) (rs : List ℕ) (p : IsPending s (r ∷ rs)) where
    later_there : (x : ℕ) → has x rs ≡ true → has x s.records ≡ true
    unfolding has
    later_there x h = p.there x (or_right (x == r) (has x rs) h)

    later_away : (x : ℕ) → has x rs ≡ true → (x == r) ≡ false
    unfolding IsUnique
    later_away x h = elim (==-cases x r) [
      | inr away ↦ away
      | inl (e, at) ↦ absurd (not_both (has x rs) h (rw at p.unique.0))
    ]

    later_all :
        (x : ℕ)
        → has x s.records ≡ true
        → (s.record_at x).empty ≡ false
        → (x == r) ≡ false
        → has x rs ≡ true
    unfolding has
    later_all x here full away = or_left_false (x == r) (has x rs) away (p.all x here full)

  IsPending-delete :
      (s : MapState K V) (r : ℕ) (rs : List ℕ)
      → ((k : K) → keys.js_same_value_zero k k ≡ true)
      → IsPending s (r ∷ rs)
      → IsPending (map_delete_record keys r s) rs
  unfolding map_delete_record has IsUnique set_record
  IsPending-delete s r rs reflexive p = elim (Bool-cases (s.record_at r).empty) [
    | inl gone ↦
        rw (map_delete_record, gone)
          (record {
            map = p.map;
            unique = p.unique.1;
            there = later_there s r rs p;
            all = λ x here full. elim (==-cases x r) [
              | inl (e, at) ↦ absurd (not_both (s.record_at x).empty (rw at gone) full)
              | inr away ↦ later_all s r rs p x here full away
            ];
          })
    | inr full ↦
        let here = p.there r (rw (==_refl r) refl) in
        let f = IsFound-own s r p.map reflexive here full in
        elim (Bool-cases ((s.record_at r).ref_count == 1)) [
          | inl last ↦
              rw (map_delete_record, full, last)
                (record {
                  map = freed-IsMap keys s (s.record_at r).key r p.map f;
                  unique = p.unique.1;
                  there = λ x h.
                      has-unlink x r s.records
                      ∙ rw (later_there s r rs p x h, later_away s r rs p x h) refl;
                  all = λ x h full'.
                      let b = and_true _ _ (sym (has-unlink x r s.records) ∙ h) in
                      later_all s r rs p x b.0 full' (not-true (x == r) b.1);
                })
          | inr held ↦
              rw (map_delete_record, full, held)
                (record {
                  map = emptied-IsMap keys s (s.record_at r).key r p.map f;
                  unique = p.unique.1;
                  there = later_there s r rs p;
                  all = λ x h. elim (==-cases x r) [
                    | inl (e, at) ↦ rw e (λ never. absurd (not_both true refl never))
                    | inr away ↦ rw away (λ full'. later_all s r rs p x h full' away)
                  ];
                })
        ]
  ]

  entries_none :
      (record_at : ℕ → MapRecord K V) (rs : List ℕ)
      → ((x : ℕ) → has x rs ≡ true → (record_at x).empty ≡ false → false ≡ true)
      → entries record_at rs ≡ []
  unfolding entries has
  entries_none record_at [] h = refl
  entries_none record_at (x ∷ rs) h = elim (Bool-cases (record_at x).empty) [
    | inl gone ↦ rw gone (
        entries_none record_at rs (λ y here full.
          h y (elim (Bool-cases (y == x)) [ inl e ↦ rw e refl | inr e ↦ rw e here ]) full))
    | inr full ↦ absurd (not_both false (h x (rw (==_refl x) refl) full) refl)
  ]

  -- A map that is empty.
  pub record IsCleared (s : MapState K V) : Type 0 where
    pub map : IsMap keys s
    pub no_entries : contents keys s ≡ []
    pub no_size : js_map_get_size keys s ≡ 0

  clear_records-IsCleared :
      (rs : List ℕ) (s : MapState K V)
      → ((k : K) → keys.js_same_value_zero k k ≡ true)
      → IsPending s rs
      → IsCleared (clear_records keys rs s)
  unfolding clear_records js_map_get_size has
  clear_records-IsCleared [] s reflexive p =
      let none_left = entries_none s.record_at s.records p.all in
      record { map = p.map; no_entries = none_left; no_size = p.map.counted ∙ ap length none_left }
  clear_records-IsCleared (r ∷ rs) s reflexive p =
      clear_records-IsCleared rs (map_delete_record keys r s) reflexive
        (IsPending-delete s r rs reflexive p)

  pub js_map_clear-IsCleared :
      (s : MapState K V)
      → ((k : K) → keys.js_same_value_zero k k ≡ true)
      → IsMap keys s
      → IsCleared (js_map_clear keys s)
  unfolding js_map_clear
  js_map_clear-IsCleared s reflexive m =
      clear_records-IsCleared s.records s reflexive
        (record { map = m; unique = m.unique; there = λ x here. here; all = λ x here full. here })
