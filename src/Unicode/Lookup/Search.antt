-- ===== src/Unicode/Lookup/Search.antt =====
-- `get_index_pos` of native/quickjs/libunicode.c finds the block of a code point.
use quickjs_runtime.Prelude.{
  ℕ, zero, suc, ◌+◌, ◌-◌, ◌*◌, ◌%◌, sym, ◌/◌, ◌^◌, ◌≤◌, ◌<◌, ◌≡◌, refl, ap, ◌∙◌, ltb, leb, none,
  some, List, arith, Bool-cases, inl, inr, subst, ◌⊎◌, ltb→lt, ltb→le, leb→lt, leb→le,
}
use quickjs_runtime.Prelude.Int.{pos, negsuc}
use native.Mathlib.Nat.{mod-eq_of_lt}
use quickjs_runtime.Prelude.Bits.{bit_and_mask}
use quickjs_runtime.Unicode.Lookup.{
  get_le24, code_of, Lookup, answer, with_entry, then_at, search, Position, found, get_index_pos,
  unicode_index_block_len,
}

-- The entries of a table, all of them inside it.
unfoldable pub Holds : List ℕ → ℕ → (ℕ → ℕ) → Type 0
Holds table len entry = (i : ℕ) → i < len → get_le24 table i ≡ some (entry i)

-- The index that a search comes to: the code point is in its block.
pub record IsBlock (entry : ℕ → ℕ) (c idx_max : ℕ) (r : Lookup ℕ) : Type 0 where
  pub idx : ℕ
  pub returned : r ≡ answer idx
  pub inside : idx < idx_max
  pub from : code_of (entry idx) ≤ c
  pub below : c < code_of (entry (idx + 1))

with_entry-held :
    {A : Type 0} (table : List ℕ) (len : ℕ) (entry : ℕ → ℕ) (idx : ℕ) (k : ℕ → Lookup A)
    → Holds table len entry
    → idx < len
    → with_entry table idx k ≡ k (entry idx)
unfolding with_entry Holds
with_entry-held table len entry idx k h inside = rw (with_entry, h idx inside) refl

code_of-eq : (v : ℕ) → code_of v ≡ v % 2 ^ 21
unfolding code_of
code_of-eq v = bit_and_mask 21 v

found-eq :
    (idx v : ℕ)
    → found idx v ≡ record { offset = pos ((idx + 1) * 32 + v / 2 ^ 21); code = some (v % 2 ^ 21) }
unfolding found unicode_index_block_len
found-eq idx v = rw (code_of-eq v) refl

first_or_later : (n : ℕ) → (0 < n) ⊎ (n ≡ 0)
first_or_later n = omega arith

module _ (table : List ℕ) (len : ℕ) (entry : ℕ → ℕ) (c : ℕ) (held : Holds table len entry) where
  -- The search ends inside the table, in a block that holds the code point.
  search-IsBlock :
      (fuel idx_min idx_max : ℕ)
      → idx_max - idx_min ≤ fuel
      → idx_min < idx_max
      → idx_max < len
      → code_of (entry idx_min) ≤ c
      → c < code_of (entry idx_max)
      → IsBlock entry c idx_max (search fuel table c idx_min idx_max)
  unfolding search
  search-IsBlock zero idx_min idx_max enough lt inside low high = absurd (omega arith)
  search-IsBlock (suc fuel) idx_min idx_max enough lt inside low high =
      let idx = (idx_max + idx_min) / 2 in
      elim (Bool-cases (ltb 1 (idx_max - idx_min))) [
        | inr near ↦
            let next : idx_max ≡ idx_min + 1 = ground arith in
            rw near (record {
              idx = idx_min;
              returned = refl;
              inside = lt;
              from = low;
              below = subst (λ n. c < code_of (entry n)) next high;
            })
        | inl far ↦
            let wide = ltb→lt 1 (idx_max - idx_min) far in
            rw (far, with_entry-held table len entry idx _ held (omega arith))
              (elim (Bool-cases (ltb c (code_of (entry idx)))) [
                | inl less ↦
                    let b =
                      search-IsBlock fuel idx_min idx (omega arith) (omega arith) (omega arith) low
                        (ltb→lt _ _ less) in
                    rw less (record {
                      idx = b.idx;
                      returned = b.returned;
                      inside = (let q = b.inside in omega arith);
                      from = b.from;
                      below = b.below;
                    })
                | inr not_less ↦ rw not_less (
                    search-IsBlock fuel idx idx_max (omega arith) (omega arith) inside
                      (ltb→le _ _ not_less) high)
              ])
      ]

  -- What a lookup answers, where the low 21 bits of an entry are the code that its block starts
  -- at and the others an offset: a code point below the first entry is at the start of the table,
  -- one from the last entry on is outside, and any other one is in the block of an entry `idx`:
  -- at `(idx + 1) * 32` and the offset of the entry, with the code of the entry.
  unfoldable pub IsPosition : Lookup Position → Type 0
  IsPosition r =
      ((c < entry 0 % 2 ^ 21) × (r ≡ answer (record { offset = pos 0; code = some 0 })))
      ⊎ ((entry (len - 1) % 2 ^ 21 ≤ c) × (r ≡ answer (record { offset = negsuc 0; code = none })))
      ⊎ ((idx : ℕ) × ((idx + 1 < len)
            × (entry idx % 2 ^ 21 ≤ c)
            × (c < entry (idx + 1) % 2 ^ 21)
            × (r
                ≡ answer (record {
                  offset = pos ((idx + 1) * 32 + entry idx / 2 ^ 21);
                  code = some (entry idx % 2 ^ 21);
                }))))

  -- The lookup never reads outside a table of at least one entry, the last of which is no more
  -- than a code, and with as much fuel as entries it ends.
  pub get_index_pos-IsPosition :
      (fuel : ℕ)
      → len ≤ fuel
      → 0 < len
      → entry (len - 1) < 2 ^ 21
      → IsPosition (get_index_pos fuel c table len)
  unfolding get_index_pos IsPosition
  get_index_pos-IsPosition fuel enough some_entry plain =
      rw (with_entry-held table len entry 0 _ held some_entry)
        (elim (Bool-cases (ltb c (code_of (entry 0)))) [
          | inl before ↦
              rw before (inl (subst (λ k. c < k) (code_of-eq (entry 0)) (ltb→lt _ _ before), refl))
          | inr not_before ↦
              rw (not_before, with_entry-held table len entry (len - 1) _ held (omega arith))
                (elim (Bool-cases (leb (entry (len - 1)) c)) [
                  | inl behind ↦ rw behind (
                      inr (
                        inl (
                          subst (λ k. k ≤ c) (sym (mod-eq_of_lt plain)) (leb→le _ _ behind),
                          refl,
                        )))
                  | inr not_behind ↦
                      let low = ltb→le _ _ not_before in
                      let high = leb→lt _ _ not_behind in
                      let b =
                        search-IsBlock fuel 0 (len - 1) (omega arith) (two low high) (omega arith)
                          low (omega (arith, high, same_last plain)) in
                      let inside = b.inside in
                      rw (not_behind, b.returned)
                        (inr (
                          inr (
                            b.idx,
                            (
                              omega arith,
                              subst (λ k. k ≤ c) (code_of-eq _) b.from,
                              subst (λ k. c < k) (code_of-eq _) b.below,
                              last_read b.idx (omega arith) ∙ ap answer (found-eq b.idx _),
                            ),
                          )))
                ])
        ])
    where
      same_last : entry (len - 1) < 2 ^ 21 → code_of (entry (len - 1)) ≡ entry (len - 1)
      same_last h = code_of-eq (entry (len - 1)) ∙ mod-eq_of_lt h

      two : code_of (entry 0) ≤ c → c < entry (len - 1) → 0 < len - 1
      two low high = elim (first_or_later (len - 1)) [
        | inl later ↦ later
        | inr first ↦
            absurd (omega (arith, low, high, same_last plain, ap (λ n. code_of (entry n)) first))
      ]

      last_read :
          (i : ℕ)
          → i < len
          → then_at (answer i) (λ idx_min. with_entry table idx_min (λ w. answer (found idx_min w)))
            ≡ answer (found i (entry i))
      last_read i h = unfold then_at in with_entry-held table len entry i _ held h
