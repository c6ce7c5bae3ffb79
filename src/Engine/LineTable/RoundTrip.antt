-- ===== src/Engine/LineTable/RoundTrip.antt =====
-- A line table that is written and then searched.
use quickjs_runtime.Prelude.{
  ℕ, suc, ◌+◌, ◌-◌, ◌*◌, ◌^◌, ◌≤◌, ◌<◌, ◌≡◌, refl, ap, ◌∙◌, ◌⊎◌, inl, inr, Bool, true, false, ◌||◌,
  ◌&&◌, ◌==◌, if◌then◌else◌, Option, some, List, [], ◌∷◌, ◌++◌, length, length-take, arith,
  Bool-cases, length-append,
}
use quickjs_runtime.Prelude.Int.{
  ℤ, pos, negsuc, pos_part, neg_part, ◌+ℤ◌, ◌-ℤ◌, ◌≤ℤ◌, int_laws, parts_of_eq,
}
use quickjs_runtime.Cutils.DynBuf.{DynBuf, Outcome, size_mod, dbuf_init, returns}
use quickjs_runtime.Cutils.DynBuf.Growth.{IsValid, contents}
use quickjs_runtime.Engine.Leb128.{u32}
use quickjs_runtime.Engine.LineTable.{
  is_zero, is_negative, LineNumberSlot, FunctionDef, compute_pc2line_info, debug_of, find_loop,
  find_line_num,
}
use quickjs_runtime.Engine.LineTable.Table.{
  IsOrdered, IsOrdered-from, entry, table, compute_loop-IsWritten,
}
use quickjs_runtime.Engine.LineTable.Find.{line_at, line_at_same, find_loop-entry}

-- Lines of 31 bits.
IsLine : ℤ → Type 0
IsLine a = (pos 0 ≤ℤ a) × (pos_part a < 2 ^ 31)

not_negative : (a : ℤ) → is_negative a ≡ false → pos 0 ≤ℤ a
unfolding is_negative
not_negative (pos n) h = omega arith
not_negative (negsuc n) h = absurd (ground arith)

zero_of : (a : ℤ) → is_zero a ≡ true → a ≡ pos 0
unfolding is_zero
zero_of (pos n) h = ground arith
zero_of (negsuc n) h = absurd (ground arith)

pub zero_step : (a b : ℤ) → is_zero (a -ℤ b) ≡ true → a ≡ b
zero_step a b h = omega (int_laws, parts_of_eq (zero_of (a -ℤ b) h))

step_bounds :
    (a b : ℤ)
    → pos 0 ≤ℤ a
    → pos_part a < 2 ^ 31
    → pos 0 ≤ℤ b
    → pos_part b < 2 ^ 31
    → (pos_part (a -ℤ b) < 2 ^ 31) × (neg_part (a -ℤ b) ≤ 2 ^ 31)
unfolding ◌-ℤ◌
step_bounds a b ha ka hb kb = ground arith

entry_nonempty : (diff_pc : ℕ) (diff_line : ℤ) → 1 ≤ length (entry diff_pc diff_line)
unfolding entry
entry_nonempty diff_pc diff_line = ground arith

decided : (test : Bool) (a b : ℤ) → (if test then some a else some b) ≡ some (if test then a else b)
decided true a b = refl
decided false a b = refl

-- Which slots are in the table.
module _ (slot : LineNumberSlot) (slots : List LineNumberSlot) (last_pc : ℕ) (line_num : ℤ) where
  table_negative :
      is_negative slot.line_num ≡ true
      → table (slot ∷ slots) last_pc line_num ≡ table slots last_pc line_num
  unfolding table
  table_negative h = rw h refl

  table_same :
      is_negative slot.line_num ≡ false
      → is_zero (slot.line_num -ℤ line_num) ≡ true
      → table (slot ∷ slots) last_pc line_num ≡ table slots last_pc line_num
  unfolding table
  table_same h k = rw (h, k) refl

  table_other :
      is_negative slot.line_num ≡ false
      → is_zero (slot.line_num -ℤ line_num) ≡ false
      → table (slot ∷ slots) last_pc line_num
        ≡ entry (slot.pc - last_pc) (slot.line_num -ℤ line_num) ++ table slots slot.pc slot.line_num
  unfolding table
  table_other h k = rw (h, k) refl

module _ (first_line : ℤ) (pc_value : ℕ) where
  find_loop-table :
      (slots : List LineNumberSlot) (fuel last_pc : ℕ) (line_num : ℤ)
      → IsOrdered last_pc slots
      → last_pc < 2 ^ 31
      → IsLine line_num
      → length (table slots last_pc line_num) ≤ fuel
      → find_loop first_line pc_value fuel (table slots last_pc line_num) last_pc line_num
        ≡ some (line_at slots line_num pc_value)
  unfolding find_loop table line_at IsOrdered IsLine
  find_loop-table [] fuel last_pc line_num ordered low here room = refl
  find_loop-table (slot ∷ slots) fuel last_pc line_num (after, small, line, ordered) low here room =
      let rest = IsOrdered-from last_pc slot.pc slots after ordered in
      let left_out = ap some (line_at_same first_line pc_value slot slots line_num ordered) in
      elim (Bool-cases (is_negative slot.line_num)) [
        | inl negative ↦
            let e = table_negative slot slots last_pc line_num negative in
            rw (e, negative)
              (find_loop-table slots fuel last_pc line_num rest low here
                  (omega (arith, ap length e))
                ∙ left_out)
        | inr line' ↦ elim (Bool-cases (is_zero (slot.line_num -ℤ line_num))) [
          | inl same ↦
              let e = table_same slot slots last_pc line_num line' same in
              rw (e, line', zero_step slot.line_num line_num same)
                (find_loop-table slots fuel last_pc line_num rest low here
                    (omega (arith, ap length e))
                  ∙ left_out)
          | inr other ↦
              let e = table_other slot slots last_pc line_num line' other in
              let diff_line = slot.line_num -ℤ line_num in
              let bytes = entry (slot.pc - last_pc) diff_line in
              let nonneg_line = not_negative slot.line_num line' in
              let steps = step_bounds slot.line_num line_num nonneg_line line here.0 here.1 in
              let lengths = length-append bytes (table slots slot.pc slot.line_num) in
              let size = entry_nonempty (slot.pc - last_pc) diff_line in
              let fuel' : fuel ≡ suc (fuel - 1) = omega (arith, ap length e, lengths, size) in
              let pc' : u32 (last_pc + (slot.pc - last_pc)) ≡ slot.pc = omega arith in
              let line_num' : line_num +ℤ diff_line ≡ slot.line_num = omega int_laws in
              let later =
                find_loop-table slots (fuel - 1) slot.pc slot.line_num ordered small
                  (nonneg_line, line) (omega (arith, ap length e, lengths, size)) in
              ap
                (λ f.
                  find_loop first_line pc_value f (table (slot ∷ slots) last_pc line_num) last_pc
                    line_num)
                fuel'
              ∙ ap (λ t. find_loop first_line pc_value (suc (fuel - 1)) t last_pc line_num) e
              ∙ find_loop-entry first_line pc_value (fuel - 1) (slot.pc - last_pc) diff_line _
                  last_pc line_num (omega arith) steps.0 steps.1
              ∙ rw (pc', line_num', line', later) (decided _ line_num _)
        ]
      ]

-- No slot with a line leaves the first one.
unfoldable pub unmoved : List LineNumberSlot → ℤ → Bool
unmoved [] first_line = true
unmoved (slot ∷ slots) first_line =
    (is_negative slot.line_num || is_zero (slot.line_num -ℤ first_line)) && unmoved slots first_line

table-unmoved :
    (slots : List LineNumberSlot) (last_pc : ℕ) (first_line : ℤ)
    → (length (table slots last_pc first_line) == 0) ≡ unmoved slots first_line
unfolding table unmoved
table-unmoved [] last_pc first_line = refl
table-unmoved (slot ∷ slots) last_pc first_line =
    elim (Bool-cases (is_negative slot.line_num || is_zero (slot.line_num -ℤ first_line))) [
      | inl skipped ↦ rw skipped (table-unmoved slots last_pc first_line)
      | inr written ↦
          let bytes = entry (slot.pc - last_pc) (slot.line_num -ℤ first_line) in
          let later = table slots slot.pc slot.line_num in
          rw written (
            ground (
              arith,
              length-append bytes later,
              entry_nonempty (slot.pc - last_pc) (slot.line_num -ℤ first_line),
            ))
    ]

-- The line that is found, or -1.
unfoldable pub expected : FunctionDef → List LineNumberSlot → ℕ → ℤ
expected f slots pc_value =
    if f.strip || unmoved slots f.first_line then negsuc 0 else line_at slots f.first_line pc_value

pub record IsFound (f : FunctionDef) (slots : List LineNumberSlot) (pc_value : ℕ)
    (o : Option Outcome) : Type 0 where
  pub t : DynBuf
  pub failed : Bool
  pub returned : o ≡ some (returns t failed)
  pub result :
      (t.error ≡ true) ⊎ (find_line_num (debug_of f t) pc_value ≡ some (expected f slots pc_value))

find_line_num-table :
    (f : FunctionDef) (slots : List LineNumberSlot) (pc_value : ℕ) (t : DynBuf)
    → IsOrdered 0 slots
    → pos 0 ≤ℤ f.first_line
    → pos_part f.first_line < 2 ^ 31
    → f.strip ≡ false
    → IsValid t
    → contents t ≡ table slots 0 f.first_line
    → find_line_num (debug_of f t) pc_value ≡ some (expected f slots pc_value)
unfolding debug_of find_line_num expected IsLine
find_line_num-table f slots pc_value t ordered nonneg_line line kept v c =
    let size : t.size ≡ length (table slots 0 f.first_line) =
      omega (arith, length-take t.size t.buf, v.whole, v.within, ap length c) in
    let empty : (t.size == 0) ≡ unmoved slots f.first_line =
      ap (λ n. n == 0) size ∙ table-unmoved slots 0 f.first_line in
    elim (Bool-cases (unmoved slots f.first_line)) [
      | inl stays ↦ rw (kept, empty, stays) refl
      | inr moves ↦
          rw (kept, empty, moves, c)
            (find_loop-table f.first_line pc_value slots _ 0 f.first_line ordered (omega arith)
              (nonneg_line, line) (omega arith))
    ]

dbuf_init-IsValid : IsValid dbuf_init
unfolding dbuf_init
dbuf_init-IsValid = record { whole = refl; within = omega arith; small = omega arith }

module _ (grants : ℕ → ℕ → ℕ → Bool) (junk : ℕ) where
  pub find_line_num-compute_pc2line_info :
      (f : FunctionDef) (slots : List LineNumberSlot) (pc_value : ℕ)
      → f.line_number_slots ≡ some slots
      → IsOrdered 0 slots
      → pos 0 ≤ℤ f.first_line
      → pos_part f.first_line < 2 ^ 31
      → 11 * length slots < size_mod
      → IsFound f slots pc_value (compute_pc2line_info grants junk f)
  unfolding compute_pc2line_info debug_of find_line_num expected dbuf_init
  find_line_num-compute_pc2line_info f slots pc_value e ordered nonneg_line line room =
      elim (Bool-cases f.strip) [
        | inl stripped ↦ record {
          t = dbuf_init;
          failed = false;
          returned = rw (e, stripped) refl;
          result = inr (rw stripped refl);
        }
        | inr kept ↦
            let w =
              compute_loop-IsWritten grants junk slots 0 0 f.first_line dbuf_init ordered
                dbuf_init-IsValid (omega arith) in
            record {
              t = w.s';
              failed = w.failed;
              returned = rw (e, kept) w.returned;
              result = elim w.result [
                | inl bad ↦ inl bad
                | inr (good, good', c) ↦ inr (
                    find_line_num-table f slots pc_value w.s' ordered nonneg_line line kept w.valid
                      c)
              ];
            }
      ]
