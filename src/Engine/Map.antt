-- ===== src/Engine/Map.antt =====
-- `Map` and `Set` of native/quickjs/quickjs.c: the records in the order of their insertion, each on a
-- chain of the hash table. The links of list.h are lists of records here (Cutils/LinkedList).
pub mod Members
pub mod Entries
pub mod Found
pub mod Invariant
pub mod Rehash
pub mod Insert
pub mod Set
pub mod Delete
pub mod Removed
pub mod Clear
pub mod Links
pub mod Counts
pub mod Iterate
pub mod Hashing
use quickjs_runtime.Prelude.{
  ℕ, ◌+◌, ◌-◌, ◌*◌, Bool, true, false, leb, ◌==◌, if◌then◌else◌, Option, none, some, List, [], ◌∷◌,
  ◌++◌, bit_and,
}

-- What a map asks of values: the equality of keys, their hash, and the normal form of a key.
-- `Hashing` has those of the engine.
pub record Keys (K : Type 0) : Type 0 where
  pub js_same_value_zero : K → K → Bool
  pub map_hash_key : K → ℕ
  pub map_normalize_key : K → K

-- The key and the value of an empty record are undefined, and are not read.
pub record MapRecord (K V : Type 0) : Type 0 where
  pub ref_count : ℕ
  pub empty : Bool
  pub key : K
  pub value : V

-- `records` and the chains hold the numbers of records; `next_record` is free.
pub record MapState (K V : Type 0) : Type 0 where
  pub record_at : ℕ → MapRecord K V
  pub next_record : ℕ
  pub records : List ℕ
  pub record_count : ℕ
  pub hash_table : ℕ → List ℕ
  pub hash_size : ℕ
  pub record_count_threshold : ℕ

-- `list_del`: a record is linked once.
unfoldable pub unlink : ℕ → List ℕ → List ℕ
unlink r [] = []
unlink r (x ∷ xs) = let rest = unlink r xs in if r == x then rest else x ∷ rest

unfoldable pub set_chain : ℕ → List ℕ → (ℕ → List ℕ) → ℕ → List ℕ
set_chain h chain table x = if x == h then chain else table x

-- The records behind a record.
unfoldable pub next_links : ℕ → List ℕ → List ℕ
next_links r [] = []
next_links r (x ∷ xs) = let rest = next_links r xs in if r == x then xs else rest

unfoldable pub ahead_of : Option ℕ → List ℕ → List ℕ
ahead_of none rs = rs
ahead_of (some r) rs = next_links r rs

-- Whether the iterator still has its map, and the record that it holds.
pub record Iterator : Type 0 where
  pub has_obj : Bool
  pub cur_record : Option ℕ

module _ {K V : Type 0} where
  unfoldable pub set_record : ℕ → MapRecord K V → MapState K V → MapState K V
  set_record r mr s = record s { record_at = λ x. if x == r then mr else s.record_at x }

  -- `none` is the failure of the assertion that a record without references is empty.
  unfoldable pub map_decref_record : ℕ → MapState K V → Option (MapState K V)
  map_decref_record r s =
      let mr = s.record_at r in
      if mr.ref_count == 1
      then (if mr.empty then some (record s { records = unlink r s.records }) else none)
      else some (set_record r (record mr { ref_count = mr.ref_count - 1 }) s)

  -- The first record that is not empty.
  unfoldable pub first_full : (ℕ → MapRecord K V) → List ℕ → Option ℕ
  first_full record_at [] = none
  first_full record_at (r ∷ rs) =
      let rest = first_full record_at rs in if (record_at r).empty then rest else some r

  unfoldable pub let_go : Option ℕ → MapState K V → Option (MapState K V)
  let_go none s = some s
  let_go (some r) s = map_decref_record r s

  -- The first of the records that is not empty, locked for the iterator, or the end.
  unfoldable pub give_next : List ℕ → MapState K V → Option ℕ × (Iterator × MapState K V)
  give_next ahead s = elim (first_full s.record_at ahead) [
    | none ↦ (none, (record { has_obj = false; cur_record = none }, s))
    | some r ↦
        let mr = s.record_at r in
        (
          some r,
          (
            record { has_obj = true; cur_record = some r },
            set_record r (record mr { ref_count = mr.ref_count + 1 }) s,
          ),
        )
  ]

  -- The records from `el` on; the record of the iterator is let go first. In the result `none` is
  -- the end; no result at all is a failed assertion.
  unfoldable pub js_map_iterator_next :
      Iterator → MapState K V → Option (Option ℕ × (Iterator × MapState K V))
  js_map_iterator_next it s =
      if it.has_obj
      then (elim (let_go it.cur_record s) [
        | none ↦ none
        | some s1 ↦ some (give_next (ahead_of it.cur_record s.records) s1)
      ])
      else some (none, (it, s))

module _ {K : Type 0} (keys : Keys K) where
  unfoldable pub bucket_of : K → ℕ → ℕ
  bucket_of key hash_size = bit_and (keys.map_hash_key key) (hash_size - 1)

module _ {K V : Type 0} (keys : Keys K) where
  -- The search along a chain.
  unfoldable pub find_in : (ℕ → MapRecord K V) → List ℕ → K → Option ℕ
  find_in record_at [] key = none
  find_in record_at (r ∷ chain) key =
      let rest = find_in record_at chain key in
      if keys.js_same_value_zero (record_at r).key key then some r else rest

  unfoldable pub map_find_record : MapState K V → K → Option ℕ
  map_find_record s key = find_in s.record_at (s.hash_table (bucket_of keys key s.hash_size)) key

  -- The records that are not empty go on the chains of a new table, in their order.
  unfoldable pub rehash : (ℕ → MapRecord K V) → ℕ → List ℕ → (ℕ → List ℕ) → ℕ → List ℕ
  rehash record_at hash_size [] table = table
  rehash record_at hash_size (r ∷ rs) table =
      let h = bucket_of keys (record_at r).key hash_size in
      let skipped = rehash record_at hash_size rs table in
      let linked = rehash record_at hash_size rs (set_chain h (table h ++ r ∷ []) table) in
      if (record_at r).empty then skipped else linked

  -- The allocator gives the number of further chains that the block has room for, or nothing.
  unfoldable pub map_hash_resize : (ℕ → Option ℕ) → MapState K V → MapState K V
  map_hash_resize resized s =
      let base = if s.hash_size == 1 then 4 else s.hash_size * 2 in
      elim (resized base) [
        | none ↦ s
        | some slack ↦ record s {
          hash_table = rehash s.record_at (base + slack) s.records (λ x. []);
          hash_size = base + slack;
          record_count_threshold = (base + slack) * 2;
        }
      ]

  -- The links of a new record, which has no value yet.
  unfoldable pub link_record : K → V → MapState K V → MapState K V
  link_record key value s =
      let h = bucket_of keys key s.hash_size in
      let r = s.next_record in
      set_record r (record { ref_count = 1; empty = false; key = key; value = value })
        (record s {
          next_record = r + 1;
          hash_table = set_chain h (s.hash_table h ++ r ∷ []) s.hash_table;
          records = s.records ++ r ∷ [];
          record_count = s.record_count + 1;
        })

  -- The value is stored by the caller in the code, right after the return.
  unfoldable pub map_add_record :
      Bool → (ℕ → Option ℕ) → K → V → MapState K V → Option (MapState K V)
  map_add_record granted resized key value s =
      let s' = link_record key value s in
      if granted
      then some
          (if leb s'.record_count_threshold s'.record_count then map_hash_resize resized s' else s')
      else none

  unfoldable pub map_delete_record : ℕ → MapState K V → MapState K V
  map_delete_record r s =
      let mr = s.record_at r in
      let h = bucket_of keys mr.key s.hash_size in
      let unhashed : MapState K V = record s {
        hash_table = set_chain h (unlink r (s.hash_table h)) s.hash_table;
        record_count = s.record_count - 1;
      } in
      if mr.empty
      then s
      else (if mr.ref_count == 1
          then record unhashed { records = unlink r s.records }
          else set_record r (record mr { ref_count = mr.ref_count - 1; empty = true }) unhashed)

  -- `Map.prototype.set`, and `Set.prototype.add` with the value undefined. `none` is an exception.
  unfoldable pub js_map_set : Bool → (ℕ → Option ℕ) → K → V → MapState K V → Option (MapState K V)
  js_map_set granted resized k value s =
      let key = keys.map_normalize_key k in
      elim (map_find_record s key) [
        | some r ↦ some (set_record r (record (s.record_at r) { value = value }) s)
        | none ↦ map_add_record granted resized key value s
      ]

  -- `none` is undefined.
  unfoldable pub js_map_get : K → MapState K V → Option V
  js_map_get k s = elim (map_find_record s (keys.map_normalize_key k)) [
    | none ↦ none
    | some r ↦ some (s.record_at r).value
  ]

  unfoldable pub js_map_has : K → MapState K V → Bool
  js_map_has k s = elim (map_find_record s (keys.map_normalize_key k)) [
    | none ↦ false
    | some r ↦ true
  ]

  unfoldable pub js_map_delete : K → MapState K V → Bool × MapState K V
  js_map_delete k s = elim (map_find_record s (keys.map_normalize_key k)) [
    | none ↦ (false, s)
    | some r ↦ (true, map_delete_record r s)
  ]

  unfoldable pub js_map_get_size : MapState K V → ℕ
  js_map_get_size s = s.record_count

  unfoldable pub clear_records : List ℕ → MapState K V → MapState K V
  clear_records [] s = s
  clear_records (r ∷ rs) s = clear_records rs (map_delete_record r s)

  unfoldable pub js_map_clear : MapState K V → MapState K V
  js_map_clear s = clear_records s.records s

-- A new map.
unfoldable pub map_init : {K V : Type 0} → MapRecord K V → MapState K V
map_init junk = record {
  record_at = λ r. junk;
  next_record = 0;
  records = [];
  record_count = 0;
  hash_table = λ h. [];
  hash_size = 1;
  record_count_threshold = 4;
}
