-- ===== src/Engine/Map/Set.antt =====
-- `Map.prototype.set`: the value of a key, new or old.
use quickjs_runtime.Prelude.{
  ℕ, suc, ◌≡◌, refl, sym, ap, ap₂, ◌∙◌, ◌⊎◌, inl, inr, Bool, false, not, ◌&&◌, leb, ◌==◌, Option,
  none, some, List, [], ◌∷◌, ◌++◌, length, Bool-cases, Option-cases,
}
use quickjs_runtime.Engine.Map.{
  Keys, MapState, set_record, bucket_of, map_hash_resize, link_record, map_add_record,
  map_find_record, js_map_set,
}
use quickjs_runtime.Engine.Map.Members.{has, ==-cases}
use quickjs_runtime.Engine.Map.Entries.{lookup, put, replace, same_at, IsAbsent, lookup-absent}
use quickjs_runtime.Engine.Map.Found.{lookup-found, replace-found}
use quickjs_runtime.Engine.Map.Invariant.{
  IsHashed, IsMap, IsFound, contents, map_find_record-some, map_find_record-none,
}
use quickjs_runtime.Engine.Map.Rehash.{resize-IsMap, resize-contents}
use quickjs_runtime.Engine.Map.Insert.{link_record-contents, link_record-IsMap}

module _ {K V : Type 0} (keys : Keys K) where
  length-replaced : (k : K) (v : V) (es : List (K × V)) → length (replace keys k v es) ≡ length es
  unfolding replace
  length-replaced k v [] = refl
  length-replaced k v (e ∷ es) = ap suc (length-replaced k v es)

  module _ (s : MapState K V) (key : K) (v : V) (r : ℕ) (m : IsMap keys s)
      (f : IsFound keys s key r) where
    abbrev valued : MapState K V
    valued = set_record r (record (s.record_at r) { value = v }) s

    same_empty : (x : ℕ) → (valued.record_at x).empty ≡ (s.record_at x).empty
    unfolding set_record
    same_empty x = elim (==-cases x r) [ inl (e, at) ↦ rw (e, at) refl | inr away ↦ rw away refl ]

    same_key : (x : ℕ) → (valued.record_at x).key ≡ (s.record_at x).key
    unfolding set_record
    same_key x = elim (==-cases x r) [ inl (e, at) ↦ rw (e, at) refl | inr away ↦ rw away refl ]

    valued-contents : contents keys valued ≡ replace keys key v (contents keys s)
    unfolding set_record
    valued-contents = replace-found keys s.record_at key r f.full f.same v s.records f.only

    valued-IsMap : IsMap keys valued
    unfolding set_record same_at
    valued-IsMap = record {
      chained = λ x h.
          m.chained x h
          ∙ ap₂ (λ b k. has x s.records && (not b && bucket_of keys k s.hash_size == h))
              (sym (same_empty x)) (sym (same_key x));
      distinct = λ k x x' here here' full full' same same'.
          m.distinct k x x' here here' (sym (same_empty x) ∙ full) (sym (same_empty x') ∙ full')
            (ap (λ a. keys.js_same_value_zero a k) (sym (same_key x)) ∙ same)
            (ap (λ a. keys.js_same_value_zero a k) (sym (same_key x')) ∙ same');
      unique = m.unique;
      fresh = m.fresh;
      counted =
          m.counted ∙ sym (ap length valued-contents ∙ length-replaced key v (contents keys s));
    }

    put-found : put keys key v (contents keys s) ≡ replace keys key v (contents keys s)
    unfolding put
    put-found =
        rw (put, lookup-found keys s.record_at key r f.full f.same s.records f.only f.here) refl

  put-absent :
      (s : MapState K V) (key : K) (v : V)
      → IsAbsent keys s.record_at key s.records
      → put keys key v (contents keys s) ≡ contents keys s ++ (key, v) ∷ []
  unfolding put
  put-absent s key v absent = rw (put, lookup-absent keys s.record_at key s.records absent) refl

  -- A result of `set`: the map has the value at the key, or there was no memory for a new record.
  pub record IsPut (s : MapState K V) (key : K) (v : V) (granted : Bool) (o : Option (MapState K V))
      : Type 0 where
    pub result :
        ((granted ≡ false) × (o ≡ none) × (lookup keys key (contents keys s) ≡ none))
        ⊎ ((s' : MapState K V) × (o ≡ some s')
            × IsMap keys s'
            × (contents keys s' ≡ put keys key v (contents keys s)))

  pub js_map_set-IsPut :
      (s : MapState K V) (k : K) (v : V) (granted : Bool) (resized : ℕ → Option ℕ)
      → IsHashed keys
      → IsMap keys s
      → IsPut s (keys.map_normalize_key k) v granted (js_map_set keys granted resized k v s)
  unfolding js_map_set map_add_record
  js_map_set-IsPut s k v granted resized laws m =
      let key = keys.map_normalize_key k in
      elim (Option-cases (map_find_record keys s key)) [
        | inr (r, e) ↦
            let f = map_find_record-some keys s key r m e in
            record {
              result = inr (
                valued s key v r m f,
                rw (js_map_set, e) refl,
                valued-IsMap s key v r m f,
                valued-contents s key v r m f ∙ sym (put-found s key v r m f),
              );
            }
        | inl e ↦
            let absent = map_find_record-none keys s key laws m e in
            let linked = link_record keys key v s in
            let m' = link_record-IsMap keys key v s m laws absent in
            let c' = link_record-contents keys key v s m ∙ sym (put-absent s key v absent) in
            elim (Bool-cases granted) [
              | inr refused ↦ record {
                result = inl (
                  refused,
                  rw (js_map_set, e, refused) refl,
                  lookup-absent keys s.record_at key s.records absent,
                );
              }
              | inl given ↦
                  elim (Bool-cases (leb linked.record_count_threshold linked.record_count)) [
                    | inl full ↦ record {
                      result = inr (
                        map_hash_resize keys resized linked,
                        rw (js_map_set, e, given, full) refl,
                        resize-IsMap keys linked resized m',
                        resize-contents keys linked resized ∙ c',
                      );
                    }
                    | inr fits ↦ record {
                      result = inr (linked, rw (js_map_set, e, given, fits) refl, m', c');
                    }
                  ]
            ]
      ]
