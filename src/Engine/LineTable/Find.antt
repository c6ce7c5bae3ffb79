-- ===== src/Engine/LineTable/Find.antt =====
-- `find_line_num` on the bytes of a line table.
use quickjs_runtime.Prelude.{
  ℕ, suc, ◌+◌, ◌-◌, ◌*◌, ◌/◌, ◌%◌, ◌^◌, ◌≤◌, ◌<◌, ◌≡◌, refl, ap, ◌∙◌, inl, inr, true, false, ◌==◌,
  ltb, if◌then◌else◌, some, List, [], ◌∷◌, ◌++◌, length, drop, arith, Bool-cases, ltb→lt, lt→ltb,
}
use mathlib.Core.List.{append_assoc}
use quickjs_runtime.Prelude.Int.{
  ℤ, pos, negsuc, pos_part, neg_part, ◌+ℤ◌, ◌-ℤ◌, ◌≤ℤ◌, int_laws, nonneg, parts_of_eq,
}
use quickjs_runtime.Engine.Leb128.{u32, zigzag, get_leb128, get_sleb128}
use quickjs_runtime.Engine.Leb128.RoundTrip.{groups, get_leb128-groups}
use quickjs_runtime.Engine.Leb128.Signed.{get_sleb128-groups}
use quickjs_runtime.Engine.LineTable.{
  pattern, int32, is_negative, LineNumberSlot, is_short, long_entry, next_entry, find_loop,
}
use quickjs_runtime.Engine.LineTable.Table.{IsOrdered, entry, pattern-small}

-- The line at a counter: that of the last slot at or before it, slots without a line left out.
unfoldable pub line_at : List LineNumberSlot → ℤ → ℕ → ℤ
line_at [] line_num pc_value = line_num
line_at (slot ∷ slots) line_num pc_value =
    let here = if is_negative slot.line_num then line_num else slot.line_num in
    if ltb pc_value slot.pc then line_num else line_at slots here pc_value

drop_append : (xs ys : List ℕ) → drop (length xs) (xs ++ ys) ≡ ys
drop_append [] ys = refl
drop_append (x ∷ xs) ys = drop_append xs ys

-- A number of 32 bits keeps its value.
int32-pattern : (a : ℤ) → pos_part a < 2 ^ 31 → neg_part a ≤ 2 ^ 31 → int32 (pattern a) ≡ a
unfolding int32 pattern
int32-pattern (pos n) h k = let e : u32 n ≡ n = omega arith in rw e (ground arith)
int32-pattern (negsuc n) h k = let e : u32 n ≡ n = omega arith in rw e (ground arith)

long_entry_parts :
    (p q rest : List ℕ) (v n w m : ℕ)
    → get_leb128 p ≡ record { value = v; consumed = some n }
    → drop n p ≡ q
    → get_sleb128 q ≡ record { value = w; consumed = some m }
    → drop m q ≡ rest
    → long_entry p ≡ some (v, int32 w, rest)
unfolding long_entry
long_entry_parts p q rest v n w m first second third fourth =
    rw (long_entry, first, second, third, first, second, third, fourth) refl

long_entry-groups :
    (diff_pc : ℕ) (diff_line : ℤ) (rest : List ℕ)
    → diff_pc < 2 ^ 32
    → pos_part diff_line < 2 ^ 31
    → neg_part diff_line ≤ 2 ^ 31
    → long_entry
        ((groups 5 (pattern (pos diff_pc)) ++ groups 5 (zigzag (pattern diff_line))) ++ rest)
      ≡ some (diff_pc, diff_line, rest)
long_entry-groups diff_pc diff_line rest small up down =
    let line = groups 5 (zigzag (pattern diff_line)) in
    let e : pattern (pos diff_pc) ≡ diff_pc = unfold pattern in omega arith in
    let bytes = append_assoc (groups 5 diff_pc) line rest in
    rw (e, bytes)
      (long_entry_parts _ (line ++ rest) rest diff_pc (length (groups 5 diff_pc))
          (pattern diff_line) (length line) (get_leb128-groups diff_pc (line ++ rest) small)
          (drop_append (groups 5 diff_pc) (line ++ rest))
          (get_sleb128-groups (pattern diff_line) rest (pattern-small diff_line))
          (drop_append line rest)
        ∙ ap (λ l. some (diff_pc, l, rest)) (int32-pattern diff_line up down))

-- The tests of a short entry leave a line step of -1 to 3 and a counter step of at most 50.
short_bounds :
    (diff_pc : ℕ) (diff_line : ℤ)
    → is_short (pos diff_pc) diff_line ≡ true
    → (negsuc 0 ≤ℤ diff_line) × (diff_line ≤ℤ pos 3) × (diff_pc ≤ 50)
unfolding is_short
short_bounds diff_pc diff_line h = ground arith

next_entry-short :
    (diff_pc : ℕ) (diff_line : ℤ) (rest : List ℕ)
    → negsuc 0 ≤ℤ diff_line
    → diff_line ≤ℤ pos 3
    → next_entry (pos_part (diff_line +ℤ pos 1) + diff_pc * 5 + 1) rest
      ≡ some (diff_pc, diff_line, rest)
unfolding next_entry
next_entry-short diff_pc diff_line rest low high =
    let digit = pos_part (diff_line +ℤ pos 1) in
    let op = digit + diff_pc * 5 + 1 in
    let whole = parts_of_eq (nonneg (diff_line +ℤ pos 1) (omega int_laws)) in
    let small : digit ≤ 4 = omega (int_laws, whole) in
    let nonzero : (op == 0) ≡ false = ground arith in
    let quotient : (op - 1) / 5 ≡ diff_pc = omega arith in
    let remainder : (op - 1) % 5 ≡ digit = omega arith in
    let back : pos digit -ℤ pos 1 ≡ diff_line = omega (int_laws, whole) in
    rw (nonzero, quotient, remainder, back) refl

next_entry_zero : (p : List ℕ) → next_entry 0 p ≡ long_entry p
unfolding next_entry
next_entry_zero p = refl

module _ (first_line : ℤ) (pc_value : ℕ) where
  pub find_loop-entry :
      (fuel : ℕ) (diff_pc : ℕ) (diff_line : ℤ) (rest : List ℕ) (pc : ℕ) (line_num : ℤ)
      → diff_pc < 2 ^ 31
      → pos_part diff_line < 2 ^ 31
      → neg_part diff_line ≤ 2 ^ 31
      → find_loop first_line pc_value (suc fuel) (entry diff_pc diff_line ++ rest) pc line_num ≡ (
          if ltb pc_value (u32 (pc + diff_pc))
          then some line_num
          else find_loop first_line pc_value fuel rest (u32 (pc + diff_pc)) (line_num +ℤ diff_line))
  unfolding entry find_loop
  find_loop-entry fuel diff_pc diff_line rest pc line_num small up down =
      elim (Bool-cases (is_short (pos diff_pc) diff_line)) [
        | inl short ↦
            let b = short_bounds diff_pc diff_line short in
            rw (short, find_loop, next_entry-short diff_pc diff_line rest b.0 b.1) refl
        | inr long ↦
            let read = long_entry-groups diff_pc diff_line rest (omega arith) up down in
            rw (long, find_loop, next_entry_zero, read) refl
      ]

  line_at_before :
      (slots : List LineNumberSlot) (pc : ℕ) (line_num : ℤ)
      → IsOrdered pc slots
      → pc_value < pc
      → line_at slots line_num pc_value ≡ line_num
  unfolding line_at IsOrdered
  line_at_before [] pc line_num ordered h = refl
  line_at_before (slot ∷ slots) pc line_num (after, small, line, ordered) h =
      rw (lt→ltb pc_value slot.pc (omega arith)) refl

  -- A slot that the table leaves out.
  pub line_at_same :
      (slot : LineNumberSlot) (slots : List LineNumberSlot) (line_num : ℤ)
      → IsOrdered slot.pc slots
      → line_at slots line_num pc_value
        ≡ (if ltb pc_value slot.pc then line_num else line_at slots line_num pc_value)
  line_at_same slot slots line_num ordered = elim (Bool-cases (ltb pc_value slot.pc)) [
    | inl early ↦
        rw early (line_at_before slots slot.pc line_num ordered (ltb→lt pc_value slot.pc early))
    | inr late ↦ rw late refl
  ]
