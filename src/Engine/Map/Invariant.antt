-- ===== src/Engine/Map/Invariant.antt =====
-- What holds of a map between its operations, and the search in its hash table.
use quickjs_runtime.Prelude.{
  ℕ, ◌-◌, ◌<◌, ◌≡◌, refl, sym, ap, ◌∙◌, inl, inr, Bool, true, false, not, ◌&&◌, ◌==◌, none, some,
  List, length, arith, Bool-cases, Option-cases, bit_and,
}
use quickjs_runtime.Engine.Map.{
  Keys, MapRecord, MapState, bucket_of, map_find_record, map_init, js_map_get,
}
use quickjs_runtime.Engine.Map.Members.{has, IsUnique, and_true, ==_refl}
use quickjs_runtime.Engine.Map.Entries.{
  entries, lookup, same_at, find_in-some, find_in-none, IsAbsent, lookup-absent,
}
use quickjs_runtime.Engine.Map.Found.{IsOnly, lookup-found}

-- The laws of keys: the equality is transitive along a common key, and equal keys have one hash.
-- The engine's functions are in `Hashing`: an int and the double of its value are equal there, with
-- different hashes.
pub record IsHashed {K : Type 0} (keys : Keys K) : Type 0 where
  pub euclidean :
      (a b k : K)
      → keys.js_same_value_zero a k ≡ true
      → keys.js_same_value_zero b k ≡ true
      → keys.js_same_value_zero a b ≡ true
  pub same_hash :
      (a k : K) → keys.js_same_value_zero a k ≡ true → keys.map_hash_key a ≡ keys.map_hash_key k

pub not-true : (b : Bool) → not b ≡ true → b ≡ false
not-true true h = ground arith
not-true false h = refl

pub same_bucket :
    {K : Type 0} (keys : Keys K) (a k : K) (size : ℕ)
    → IsHashed keys
    → keys.js_same_value_zero a k ≡ true
    → bucket_of keys a size ≡ bucket_of keys k size
unfolding bucket_of
same_bucket keys a k size laws same = ap (λ h. bit_and h (size - 1)) (laws.same_hash a k same)

module _ {K V : Type 0} (keys : Keys K) where
  -- A chain has the full records whose keys belong to it. `distinct`: no two full records have a
  -- key in common.
  pub record IsMap (s : MapState K V) : Type 0 where
    pub chained :
        (r h : ℕ)
        → has r (s.hash_table h) ≡ (
            has r s.records
            && (not (s.record_at r).empty && bucket_of keys (s.record_at r).key s.hash_size == h))
    pub distinct :
        (k : K) (r r' : ℕ)
        → has r s.records ≡ true
        → has r' s.records ≡ true
        → (s.record_at r).empty ≡ false
        → (s.record_at r').empty ≡ false
        → same_at keys s.record_at k r ≡ true
        → same_at keys s.record_at k r' ≡ true
        → r ≡ r'
    pub unique : IsUnique s.records
    pub fresh : (r : ℕ) → has r s.records ≡ true → r < s.next_record
    pub counted : s.record_count ≡ length (entries s.record_at s.records)

  abbrev pub contents : MapState K V → List (K × V)
  contents s = entries s.record_at s.records

  -- A record that is found.
  pub record IsFound (s : MapState K V) (k : K) (r : ℕ) : Type 0 where
    pub here : has r s.records ≡ true
    pub full : (s.record_at r).empty ≡ false
    pub same : same_at keys s.record_at k r ≡ true
    pub only : IsOnly keys s.record_at k r s.records

  pub map_find_record-some :
      (s : MapState K V) (k : K) (r : ℕ)
      → IsMap s
      → map_find_record keys s k ≡ some r
      → IsFound s k r
  unfolding map_find_record
  map_find_record-some s k r m h =
      let chain = s.hash_table (bucket_of keys k s.hash_size) in
      let found = find_in-some keys s.record_at chain k r h in
      let on = sym (m.chained r (bucket_of keys k s.hash_size)) ∙ found.0 in
      let both = and_true _ _ on in
      let full = not-true _ (and_true _ _ both.1).0 in
      record {
        here = both.0;
        full = full;
        same = found.1;
        only = λ r' here' full' same'. m.distinct k r' r here' both.0 full' full same' found.1;
      }

  pub map_find_record-none :
      (s : MapState K V) (k : K)
      → IsHashed keys
      → IsMap s
      → map_find_record keys s k ≡ none
      → IsAbsent keys s.record_at k s.records
  unfolding map_find_record same_at
  map_find_record-none s k laws m h r here full = elim (Bool-cases (same_at keys s.record_at k r)) [
    | inr other ↦ other
    | inl same ↦
        let b = bucket_of keys k s.hash_size in
        find_in-none keys s.record_at (s.hash_table b) k r h (
          m.chained r b
          ∙ rw (here, full, same_bucket keys _ k s.hash_size laws same, ==_refl b) refl)
  ]

  -- The value of a key is that of its entry.
  pub js_map_get-lookup :
      (s : MapState K V) (k : K)
      → IsHashed keys
      → IsMap s
      → js_map_get keys k s ≡ lookup keys (keys.map_normalize_key k) (contents s)
  unfolding js_map_get
  js_map_get-lookup s k laws m =
      let key = keys.map_normalize_key k in
      elim (Option-cases (map_find_record keys s key)) [
        | inl e ↦
            rw (e, js_map_get)
              (sym (
                lookup-absent keys s.record_at key s.records (map_find_record-none s key laws m e)))
        | inr (r, e) ↦
            let f = map_find_record-some s key r m e in
            rw (e, js_map_get)
              (sym (lookup-found keys s.record_at key r f.full f.same s.records f.only f.here))
      ]

  pub map_init-IsMap : (junk : MapRecord K V) → IsMap (map_init junk)
  unfolding map_init has IsUnique entries
  map_init-IsMap junk = record {
    chained = λ r h. refl;
    distinct = λ k r r' h. absurd (ground arith);
    unique = tt;
    fresh = λ r h. absurd (ground arith);
    counted = refl;
  }
