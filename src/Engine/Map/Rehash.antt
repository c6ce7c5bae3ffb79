-- ===== src/Engine/Map/Rehash.antt =====
-- The chains of a map: a record that is linked, and the growth of the hash table.
use quickjs_runtime.Prelude.{
  ℕ, ◌*◌, ◌≡◌, refl, sym, ap, ◌∙◌, inl, inr, Bool, true, false, not, ◌&&◌, ◌||◌, ◌==◌,
  if◌then◌else◌, Option, List, [], ◌∷◌, ◌++◌, Bool-cases, Option-cases,
}
use quickjs_runtime.Engine.Map.{
  Keys, MapRecord, MapState, set_chain, bucket_of, rehash, map_hash_resize,
}
use quickjs_runtime.Engine.Map.Members.{
  has, ==-cases, ==_refl, ==_sym, has-append, or_false_right, and_false_right, and_true_right,
}
use quickjs_runtime.Engine.Map.Invariant.{IsMap, contents}

or_absorbed : (a c d : Bool) → ((a || c) || (d && c)) ≡ (a || c)
or_absorbed true c d = refl
or_absorbed false true d = refl
or_absorbed false false d = and_false_right d

pub has-set_chain :
    (b r x h : ℕ) (table : ℕ → List ℕ)
    → has x (set_chain b (table b ++ r ∷ []) table h) ≡ (has x (table h) || (x == r && b == h))
unfolding set_chain
has-set_chain b r x h table = elim (==-cases h b) [
  | inl (e, at) ↦
      rw (e, at, ==_refl b)
        (has-append x (table b) r ∙ ap (λ t. has x (table b) || t) (sym (and_true_right _)))
  | inr away ↦
      rw (away, ==_sym h b away)
        (sym (ap (λ t. has x (table h) || t) (and_false_right (x == r)) ∙ or_false_right _))
]

module _ {K V : Type 0} (keys : Keys K) where
  abbrev pub belongs : (ℕ → MapRecord K V) → ℕ → ℕ → ℕ → Bool
  belongs record_at size r h = not (record_at r).empty && bucket_of keys (record_at r).key size == h

  has-rehash :
      (record_at : ℕ → MapRecord K V) (size : ℕ) (rs : List ℕ) (table : ℕ → List ℕ) (r h : ℕ)
      → has r (rehash keys record_at size rs table h)
        ≡ (has r (table h) || (has r rs && belongs record_at size r h))
  unfolding rehash has
  has-rehash record_at size [] table r h = sym (or_false_right _)
  has-rehash record_at size (x ∷ rs) table r h = elim (Bool-cases (record_at x).empty) [
    | inl gone ↦
        rw (gone, rehash)
          (has-rehash record_at size rs table r h ∙ elim (==-cases r x) [
            | inl (e, at) ↦ rw (e, at, gone, and_false_right (has x rs)) refl
            | inr away ↦ rw away refl
          ])
    | inr full ↦
        rw (full, rehash)
          (has-rehash record_at size rs _ r h
            ∙ ap (λ t. t || (has r rs && belongs record_at size r h)) (has-set_chain _ x r h table)
            ∙ elim (==-cases r x) [
              | inl (e, at) ↦
                  rw (e, at, full)
                    (or_absorbed (has x (table h)) (bucket_of keys (record_at x).key size == h)
                      (has x rs))
              | inr away ↦ rw (away, or_false_right (has r (table h))) refl
            ])
  ]

  pub resize-IsMap :
      (s : MapState K V) (resized : ℕ → Option ℕ)
      → IsMap keys s
      → IsMap keys (map_hash_resize keys resized s)
  unfolding map_hash_resize has
  resize-IsMap s resized m =
      elim (Option-cases (resized (if s.hash_size == 1 then 4 else s.hash_size * 2))) [
        | inl e ↦ rw (e, map_hash_resize) m
        | inr (slack, e) ↦
            rw (e, map_hash_resize)
              (record {
                chained = λ r h. has-rehash s.record_at _ s.records (λ x. []) r h;
                distinct = m.distinct;
                unique = m.unique;
                fresh = m.fresh;
                counted = m.counted;
              })
      ]

  pub resize-contents :
      (s : MapState K V) (resized : ℕ → Option ℕ)
      → contents keys (map_hash_resize keys resized s) ≡ contents keys s
  unfolding map_hash_resize
  resize-contents s resized =
      elim (Option-cases (resized (if s.hash_size == 1 then 4 else s.hash_size * 2))) [
        | inl e ↦ rw (e, map_hash_resize) refl
        | inr (slack, e) ↦ rw (e, map_hash_resize) refl
      ]
