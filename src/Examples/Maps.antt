-- ===== src/Examples/Maps.antt =====
-- Maps with numbers for keys and values.
use quickjs_runtime.Prelude.{
  ℕ, ◌*◌, ◌≡◌, refl, ap, true, ◌==◌, Option, none, some, arith, inl, inr, ==_iff,
}
use quickjs_runtime.Engine.Map.{
  Keys, MapRecord, MapState, map_init, link_record, js_map_get, js_map_set, js_map_delete,
  js_map_clear, Iterator, js_map_iterator_next, set_record,
}
use quickjs_runtime.Engine.Map.Members.{has, ==_refl, ==-cases}
use quickjs_runtime.Engine.Map.Entries.{lookup}
use quickjs_runtime.Engine.Map.Invariant.{
  IsHashed, IsMap, contents, map_init-IsMap, js_map_get-lookup,
}
use quickjs_runtime.Engine.Map.Insert.{link_record-IsMap}
use quickjs_runtime.Engine.Map.Set.{IsPut, js_map_set-IsPut}
use quickjs_runtime.Engine.Map.Removed.{IsDeleted, js_map_delete-IsDeleted}
use quickjs_runtime.Engine.Map.Counts.{IsReferenced}
use quickjs_runtime.Engine.Map.Iterate.{IsNext, js_map_iterator_next-IsNext}
use quickjs_runtime.Engine.Map.Clear.{IsCleared, js_map_clear-IsCleared}

abbrev numbers : Keys ℕ
numbers = record {
  js_same_value_zero = λ a b. a == b;
  map_hash_key = λ a. a * 3163;
  map_normalize_key = λ a. a;
}

numbers-IsHashed : IsHashed numbers
numbers-IsHashed = record {
  euclidean = λ a b k h h'. ground (arith, ==_iff a k, ==_iff b k, h, h');
  same_hash = λ a k h. ap (λ n. n * 3163) ((==_iff a k).0 h);
}

abbrev no_record : MapRecord ℕ ℕ
no_record = record { ref_count = 0; empty = true; key = 0; value = 0 }

abbrev one : MapState ℕ ℕ
one = link_record numbers 7 70 (map_init no_record)

one-IsMap : IsMap numbers one
unfolding map_init has
one-IsMap =
    link_record-IsMap numbers 7 70 (map_init no_record) (map_init-IsMap numbers no_record)
      numbers-IsHashed (λ r here. absurd (ground (arith, here)))

js_map_get-lookup_example : js_map_get numbers 7 one ≡ lookup numbers 7 (contents numbers one)
js_map_get-lookup_example = js_map_get-lookup numbers one 7 numbers-IsHashed one-IsMap

js_map_set-IsPut_example :
    IsPut numbers one 8 80 true (js_map_set numbers true (λ n. some 0) 8 80 one)
js_map_set-IsPut_example =
    js_map_set-IsPut numbers one 8 80 true (λ n. some 0) numbers-IsHashed one-IsMap

js_map_delete-IsDeleted_example : IsDeleted numbers one 7 (js_map_delete numbers 7 one)
js_map_delete-IsDeleted_example = js_map_delete-IsDeleted numbers one 7 numbers-IsHashed one-IsMap

js_map_clear-IsCleared_example : IsCleared numbers (js_map_clear numbers one)
js_map_clear-IsCleared_example = js_map_clear-IsCleared numbers one ==_refl one-IsMap

one-IsReferenced : IsReferenced one
unfolding link_record set_record map_init
one-IsReferenced x = elim (==-cases x 0) [
  | inl (e, at) ↦ rw e (λ full. omega arith)
  | inr away ↦ rw away (λ never. absurd (ground (arith, never)))
]

abbrev start : Iterator
start = record { has_obj = true; cur_record = none }

js_map_iterator_next-IsNext_example :
    (o : Option ℕ × (Iterator × MapState ℕ ℕ)) × ((js_map_iterator_next start one ≡ some o)
      × IsNext numbers none one o)
js_map_iterator_next-IsNext_example =
    js_map_iterator_next-IsNext numbers start one refl one-IsMap one-IsReferenced tt
