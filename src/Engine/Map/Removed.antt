-- ===== src/Engine/Map/Removed.antt =====
-- The results of `Map.prototype.delete` and `clear`.
use quickjs_runtime.Prelude.{
  ℕ, ◌≡◌, sym, ap, ◌∙◌, inl, inr, Bool, true, false, ◌==◌, Option, none, some, length, Bool-cases,
  Option-cases,
}
use quickjs_runtime.Engine.Map.{
  Keys, MapState, set_record, map_find_record, map_delete_record, js_map_delete, js_map_get_size,
}
use quickjs_runtime.Engine.Map.Entries.{lookup, erase, lookup-absent, erase-absent}
use quickjs_runtime.Engine.Map.Found.{lookup-found}
use quickjs_runtime.Engine.Map.Invariant.{
  IsHashed, IsMap, IsFound, contents, map_find_record-some, map_find_record-none,
}
use quickjs_runtime.Engine.Map.Delete.{
  freed, emptied, freed-contents, emptied-contents, freed-IsMap, emptied-IsMap,
}

abbrev pub is_some : {A : Type 0} → Option A → Bool
is_some none = false
is_some (some a) = true

module _ {K V : Type 0} (keys : Keys K) where
  -- A map without the entry of a key.
  pub record IsWithout (s : MapState K V) (key : K) (s' : MapState K V) : Type 0 where
    pub map : IsMap keys s'
    pub entries_left : contents keys s' ≡ erase keys key (contents keys s)
    pub same_size : js_map_get_size keys s' ≡ length (erase keys key (contents keys s))

  IsWithout-of :
      (s : MapState K V) (key : K) (s' : MapState K V)
      → IsMap keys s'
      → contents keys s' ≡ erase keys key (contents keys s)
      → IsWithout s key s'
  unfolding js_map_get_size
  IsWithout-of s key s' m c = record {
    map = m;
    entries_left = c;
    same_size = m.counted ∙ ap length c;
  }

  pub map_delete_record-IsWithout :
      (s : MapState K V) (key : K) (r : ℕ)
      → IsMap keys s
      → IsFound keys s key r
      → IsWithout s key (map_delete_record keys r s)
  unfolding map_delete_record set_record
  map_delete_record-IsWithout s key r m f = elim (Bool-cases ((s.record_at r).ref_count == 1)) [
    | inl last ↦
        rw (map_delete_record, f.full, last)
          (IsWithout-of s key (freed keys s key r m f) (freed-IsMap keys s key r m f)
            (freed-contents keys s key r m f))
    | inr held ↦
        rw (map_delete_record, f.full, held)
          (IsWithout-of s key (emptied keys s key r m f) (emptied-IsMap keys s key r m f)
            (emptied-contents keys s key r m f))
  ]

  -- A result of `delete`.
  pub record IsDeleted (s : MapState K V) (key : K) (o : Bool × MapState K V) : Type 0 where
    pub answer : o.0 ≡ is_some (lookup keys key (contents keys s))
    pub without : IsWithout s key o.1

  pub js_map_delete-IsDeleted :
      (s : MapState K V) (k : K)
      → IsHashed keys
      → IsMap keys s
      → IsDeleted s (keys.map_normalize_key k) (js_map_delete keys k s)
  unfolding js_map_delete
  js_map_delete-IsDeleted s k laws m =
      let key = keys.map_normalize_key k in
      elim (Option-cases (map_find_record keys s key)) [
        | inl e ↦
            let absent = map_find_record-none keys s key laws m e in
            rw (js_map_delete, e)
              (record {
                answer = ap is_some (sym (lookup-absent keys s.record_at key s.records absent));
                without =
                    IsWithout-of s key s m
                      (sym (erase-absent keys s.record_at key s.records absent));
              })
        | inr (r, e) ↦
            let f = map_find_record-some keys s key r m e in
            rw (js_map_delete, e)
              (record {
                answer = ap is_some (
                    sym
                      (lookup-found keys s.record_at key r f.full f.same s.records f.only f.here));
                without = map_delete_record-IsWithout s key r m f;
              })
      ]
