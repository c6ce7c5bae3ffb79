-- ===== src/Engine/Map/Delete.antt =====
-- `Map.prototype.delete` and `clear`: records that an iterator holds stay in the list, empty.
use quickjs_runtime.Prelude.{
  ℕ, ◌+◌, ◌-◌, ◌≡◌, refl, sym, ap, ◌∙◌, inl, inr, Bool, true, false, not, ◌&&◌, ◌==◌, if◌then◌else◌,
  List, [], ◌∷◌, length, arith, Bool-cases,
}
use quickjs_runtime.Engine.Map.{Keys, MapRecord, MapState, set_chain, bucket_of, unlink}
use quickjs_runtime.Engine.Map.Members.{
  has, IsUnique, ==-cases, ==_refl, ==_sym, has-unlink, IsUnique-unlink, and_true, or_left_false,
  or_false, and_false_right, and_true_right,
}
use quickjs_runtime.Engine.Map.Entries.{entries, erase, same_at}
use quickjs_runtime.Engine.Map.Found.{not_both, erase-found, erase-unlinked}
use quickjs_runtime.Engine.Map.Invariant.{IsMap, IsFound, contents}

-- A record that is cut from its chain.
has-set_chain-unlink :
    (b r x h : ℕ) (table : ℕ → List ℕ)
    → has x (set_chain b (unlink r (table b)) table h) ≡ (has x (table h) && not (x == r && b == h))
unfolding set_chain
has-set_chain-unlink b r x h table = elim (==-cases h b) [
  | inl (e, at) ↦
      rw (e, at, ==_refl b)
        (has-unlink x r (table b)
          ∙ ap (λ t. has x (table b) && not t) (sym (and_true_right (x == r))))
  | inr away ↦
      rw (away, ==_sym h b away)
        (sym (
          ap (λ t. has x (table h) && not t) (and_false_right (x == r))
          ∙ and_true_right (has x (table h))))
]

pub unlink-absent : (r : ℕ) (rs : List ℕ) → has r rs ≡ false → unlink r rs ≡ rs
unfolding has unlink
unlink-absent r [] h = refl
unlink-absent r (x ∷ rs) h =
    let away = or_false (r == x) (has r rs) h in rw (away.0, unlink-absent r rs away.1) refl

never_both : (a c : Bool) → ((a && c) && not c) ≡ false
never_both true true = refl
never_both true false = refl
never_both false c = refl

module _ {K V : Type 0} (keys : Keys K) where
  -- One entry of a list without repetitions is gone.
  length-entries_unlink :
      (record_at : ℕ → MapRecord K V) (r : ℕ) (rs : List ℕ)
      → IsUnique rs
      → has r rs ≡ true
      → (record_at r).empty ≡ false
      → length (entries record_at rs) ≡ length (entries record_at (unlink r rs)) + 1
  unfolding entries unlink has IsUnique
  length-entries_unlink record_at r [] u here full = absurd (ground arith)
  length-entries_unlink record_at r (x ∷ rs) (once, u) here full = elim (==-cases r x) [
    | inl (e, at) ↦
        let once' : has r rs ≡ false = rw at once in
        rw (e, ← at, full, unlink-absent r rs once') (omega arith)
    | inr away ↦
        let later =
          length-entries_unlink record_at r rs u (or_left_false (r == x) _ away here) full in
        elim (Bool-cases (record_at x).empty) [
          | inl gone ↦ rw (away, gone) later
          | inr full' ↦ rw (away, full') (omega (arith, later))
        ]
  ]

  module _ (s : MapState K V) (k : K) (r : ℕ) (m : IsMap keys s) (f : IsFound keys s k r) where
    abbrev pub gone_at : ℕ → ℕ → MapRecord K V
    gone_at n x =
        if x == r then record (s.record_at r) { ref_count = n; empty = true } else s.record_at x

    abbrev pub unhashed : ℕ → List ℕ
    unhashed =
        let b = bucket_of keys (s.record_at r).key s.hash_size in
        set_chain b (unlink r (s.hash_table b)) s.hash_table

    -- The record is freed, and its link goes.
    abbrev pub freed : MapState K V
    freed = record s {
      hash_table = unhashed;
      record_count = s.record_count - 1;
      records = unlink r s.records;
    }

    -- The record is held, and stays as an empty one.
    abbrev pub emptied : MapState K V
    emptied = record s {
      hash_table = unhashed;
      record_count = s.record_count - 1;
      record_at = gone_at ((s.record_at r).ref_count - 1);
    }

    pub freed-contents : contents keys freed ≡ erase keys k (contents keys s)
    freed-contents = erase-unlinked keys s.record_at k r f.full f.same s.records f.only

    pub emptied-contents : contents keys emptied ≡ erase keys k (contents keys s)
    emptied-contents = erase-found keys s.record_at k r f.full f.same _ s.records f.only

    one_less : s.record_count - 1 ≡ length (erase keys k (contents keys s))
    one_less = omega (
      arith,
      m.counted,
      ap length freed-contents,
      length-entries_unlink s.record_at r s.records m.unique f.here f.full,
    )

    -- The chain of a record that was there, with `r` cut off.
    cut :
        (x h : ℕ)
        → has x (unhashed h) ≡ (
            (has x s.records
              && (not (s.record_at x).empty && bucket_of keys (s.record_at x).key s.hash_size == h))
            && not (x == r && bucket_of keys (s.record_at r).key s.hash_size == h))
    cut x h =
        has-set_chain-unlink _ r x h s.hash_table
        ∙ ap (λ t. t && not (x == r && bucket_of keys (s.record_at r).key s.hash_size == h))
            (m.chained x h)

    pub freed-IsMap : IsMap keys freed
    freed-IsMap = record {
      chained = λ x h. cut x h ∙ elim (==-cases x r) [
        | inl (e, at) ↦
            rw (has-unlink x r s.records, e, at, f.full, and_false_right (has r s.records))
              (never_both (has r s.records) _)
        | inr away ↦
            rw (has-unlink x r s.records, away, and_true_right (has x s.records)) (and_true_right _)
      ];
      distinct = λ k' x x' here here'. m.distinct k' x x' (was_there x here) (was_there x' here');
      unique = IsUnique-unlink r s.records m.unique;
      fresh = λ x here. m.fresh x (was_there x here);
      counted = one_less ∙ ap length (sym freed-contents);
    }
      where
        was_there : (x : ℕ) → has x (unlink r s.records) ≡ true → has x s.records ≡ true
        was_there x here = (and_true _ _ (sym (has-unlink x r s.records) ∙ here)).0

    pub emptied-IsMap : IsMap keys emptied
    unfolding same_at
    emptied-IsMap = record {
      chained = λ x h. cut x h ∙ elim (==-cases x r) [
        | inl (e, at) ↦
            rw (e, at, f.full, and_false_right (has r s.records)) (never_both (has r s.records) _)
        | inr away ↦ rw away (and_true_right _)
      ];
      distinct = λ k' x x' here here' full full' same same'.
          let old = still x full in
          let old' = still x' full' in
          m.distinct k' x x' here here' (ap (λ mr. mr.empty) (sym old) ∙ full)
            (ap (λ mr. mr.empty) (sym old') ∙ full')
            (ap (λ mr. keys.js_same_value_zero mr.key k') (sym old) ∙ same)
            (ap (λ mr. keys.js_same_value_zero mr.key k') (sym old') ∙ same');
      unique = m.unique;
      fresh = m.fresh;
      counted = one_less ∙ ap length (sym emptied-contents);
    }
      where
        still :
            (x : ℕ)
            → (gone_at ((s.record_at r).ref_count - 1) x).empty ≡ false
            → gone_at ((s.record_at r).ref_count - 1) x ≡ s.record_at x
        still x full = elim (==-cases x r) [
          | inl (e, at) ↦ absurd (not_both true refl (kept e full))
          | inr away ↦ rw away refl
        ]
          where
            kept :
                (x == r) ≡ true
                → (gone_at ((s.record_at r).ref_count - 1) x).empty ≡ false
                → true ≡ false
            kept e = rw e (λ h. h)
