-- ===== src/Engine/Map/Iterate.antt =====
-- Iterators of maps.
use quickjs_runtime.Prelude.{
  ℕ, ◌+◌, ◌-◌, ◌≡◌, refl, sym, ap, ap₂, ◌∙◌, ◌⊎◌, inl, inr, true, false, ◌==◌, Option, none, some,
  List, [], ◌∷◌, length, Bool-cases, Option-cases, arith,
}
use quickjs_runtime.Engine.Map.{
  Keys, MapState, Iterator, set_record, unlink, next_links, map_decref_record, first_full, ahead_of,
  let_go, give_next, js_map_iterator_next,
}
use quickjs_runtime.Engine.Map.Members.{
  has, ==-cases, ==_refl, and_true, has-unlink, IsUnique-unlink, and_false_right, and_true_right,
}
use quickjs_runtime.Engine.Map.Entries.{entries}
use quickjs_runtime.Engine.Map.Invariant.{IsMap, contents}
use quickjs_runtime.Engine.Map.Links.{
  next_links-later, next_links-unlink, entries-unlink_empty, first_full-none, first_full-some,
}
use quickjs_runtime.Engine.Map.Counts.{
  IsReferenced, recounted-field, recounted-entries, recounted-IsMap, recounted-IsReferenced,
}

module _ {K V : Type 0} (keys : Keys K) where
  -- A full record that an iterator holds has a reference of its own.
  abbrev pub IsHolding : Option ℕ → MapState K V → Type 0
  IsHolding none s = Unit
  IsHolding (some r) s = ((s.record_at r).ref_count == 1) ≡ true → (s.record_at r).empty ≡ true

  -- A map whose iterator has let its record go.
  record IsReleased (cur : Option ℕ) (s s1 : MapState K V) : Type 0 where
    map : IsMap keys s1
    referenced : IsReferenced s1
    same_entries : (rs : List ℕ) → entries s1.record_at rs ≡ entries s.record_at rs
    same_contents : contents keys s1 ≡ contents keys s
    rest :
        (y : ℕ)
        → has y (ahead_of cur s.records) ≡ true
        → next_links y s1.records ≡ next_links y (ahead_of cur s.records)

  module _ (s : MapState K V) (r : ℕ) (m : IsMap keys s) (gone : (s.record_at r).empty ≡ true) where
    abbrev unlinked : MapState K V
    unlinked = record s { records = unlink r s.records }

    unlinked-IsMap : IsMap keys unlinked
    unlinked-IsMap = record {
      chained = λ x h. m.chained x h ∙ elim (==-cases x r) [
        | inl (e, at) ↦
            rw (has-unlink x r s.records, e, at, gone, and_false_right (has r s.records)) refl
        | inr away ↦ rw (has-unlink x r s.records, away, and_true_right (has x s.records)) refl
      ];
      distinct = λ k x x' here here'. m.distinct k x x' (was_there x here) (was_there x' here');
      unique = IsUnique-unlink r s.records m.unique;
      fresh = λ x here. m.fresh x (was_there x here);
      counted = m.counted ∙ ap length (sym (entries-unlink_empty s.record_at r s.records gone));
    }
      where
        was_there : (x : ℕ) → has x (unlink r s.records) ≡ true → has x s.records ≡ true
        was_there x here = (and_true _ _ (sym (has-unlink x r s.records) ∙ here)).0

  let_go-IsReleased :
      (cur : Option ℕ) (s : MapState K V)
      → IsMap keys s
      → IsReferenced s
      → IsHolding cur s
      → (s1 : MapState K V) × ((let_go cur s ≡ some s1) × IsReleased cur s s1)
  unfolding let_go ahead_of map_decref_record set_record
  let_go-IsReleased none s m refs held = (
    s,
    (
      refl,
      record {
        map = m;
        referenced = refs;
        same_entries = λ rs. refl;
        same_contents = refl;
        rest = λ y h. refl;
      },
    ),
  )
  let_go-IsReleased (some r) s m refs held = elim (Bool-cases ((s.record_at r).ref_count == 1)) [
    | inl last ↦ (
      record s { records = unlink r s.records },
      (
        rw (let_go, map_decref_record, last, held last) refl,
        record {
          map = unlinked-IsMap s r m (held last);
          referenced = refs;
          same_entries = λ rs. refl;
          same_contents = entries-unlink_empty s.record_at r s.records (held last);
          rest = λ y h.
              next_links-unlink y r s.records m.unique h
              ∙ next_links-later y r s.records m.unique h;
        },
      ),
    )
    | inr more ↦ (
      set_record r (record (s.record_at r) { ref_count = (s.record_at r).ref_count - 1 }) s,
      (
        rw (let_go, map_decref_record, more) refl,
        record {
          map = recounted-IsMap keys s r _ m;
          referenced =
              recounted-IsReferenced keys s r _ m refs
                (λ full. let some_left = refs r full in ground (arith, more));
          same_entries = recounted-entries keys s r _ m;
          same_contents = recounted-entries keys s r _ m s.records;
          rest = λ y h. next_links-later y r s.records m.unique h;
        },
      ),
    )
  ]

  -- The entries that an iterator has yet to give.
  abbrev pub remaining : Option ℕ → MapState K V → List (K × V)
  remaining cur s = entries s.record_at (ahead_of cur s.records)

  -- A step of an iterator: the first entry that it has yet to give, or the end of the enumeration.
  pub record IsNext (cur : Option ℕ) (s : MapState K V) (o : Option ℕ × (Iterator × MapState K V))
      : Type 0 where
    pub map : IsMap keys o.1.1
    pub referenced : IsReferenced o.1.1
    pub same_contents : contents keys o.1.1 ≡ contents keys s
    pub holding : IsHolding o.1.0.cur_record o.1.1
    pub step :
        ((o.0 ≡ none) × (remaining cur s ≡ []) × (o.1.0.has_obj ≡ false))
        ⊎ ((r : ℕ) × (o.0 ≡ some r)
            × (o.1.0.cur_record ≡ some r)
            × (remaining cur s
                ≡ ((o.1.1.record_at r).key, (o.1.1.record_at r).value) ∷ remaining (some r) o.1.1))

  give_next-IsNext :
      (cur : Option ℕ) (s s1 : MapState K V)
      → IsReleased cur s s1
      → IsNext cur s (give_next (ahead_of cur s.records) s1)
  unfolding give_next ahead_of set_record
  give_next-IsNext cur s s1 l =
      let ahead = ahead_of cur s.records in
      elim (Option-cases (first_full s1.record_at ahead)) [
        | inl e ↦
            rw (give_next, e)
              (record {
                map = l.map;
                referenced = l.referenced;
                same_contents = l.same_contents;
                holding = tt;
                step =
                    inl (
                      refl,
                      sym (l.same_entries ahead) ∙ first_full-none s1.record_at ahead e,
                      refl,
                    );
              })
        | inr (r, e) ↦
            let f = first_full-some s1.record_at r ahead e in
            let more = (s1.record_at r).ref_count + 1 in
            rw (give_next, e)
              (record {
                map = recounted-IsMap keys s1 r more l.map;
                referenced =
                    recounted-IsReferenced keys s1 r more l.map l.referenced (λ full. omega arith);
                same_contents = recounted-entries keys s1 r more l.map s1.records ∙ l.same_contents;
                holding =
                    rw (==_refl r) (λ last.
                      let low = l.referenced r f.full in absurd (ground (arith, last, low)));
                step = inr (
                  r,
                  refl,
                  refl,
                  sym (l.same_entries ahead)
                      ∙ f.ahead
                      ∙ ap₂ (λ a es. a ∷ es)
                          (sym (recounted-field keys s1 r more l.map (λ b k v. (k, v)) r))
                          (ap (entries s1.record_at) (sym (l.rest r f.here))
                            ∙ sym
                                (recounted-entries keys s1 r more l.map (next_links r s1.records))),
                );
              })
      ]

  -- On a well-formed map with a reference to each full record, an iterator that holds its record or
  -- has just begun makes a step, with no assertion failed: it gives the first entry that it has
  -- yet to give, or it ends.
  pub js_map_iterator_next-IsNext :
      (it : Iterator) (s : MapState K V)
      → it.has_obj ≡ true
      → IsMap keys s
      → IsReferenced s
      → IsHolding it.cur_record s
      → (o : Option ℕ × (Iterator × MapState K V)) × ((js_map_iterator_next it s ≡ some o)
          × IsNext it.cur_record s o)
  unfolding js_map_iterator_next
  js_map_iterator_next-IsNext it s active m refs held =
      let (s1, (released, l)) = let_go-IsReleased it.cur_record s m refs held in
      (
        give_next (ahead_of it.cur_record s.records) s1,
        (rw (active, released) refl, give_next-IsNext it.cur_record s s1 l),
      )
