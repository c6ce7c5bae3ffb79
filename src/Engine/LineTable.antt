-- ===== src/Engine/LineTable.antt =====
-- The line tables of byte code in native/quickjs/quickjs.c: the slots that a compiled function collects,
-- the table that is written from them and its search for the line of a program counter.
pub mod Table
pub mod Find
pub mod RoundTrip
pub mod Collect
use quickjs_runtime.Prelude.{
  ℕ, zero, suc, ◌+◌, ◌-◌, ◌*◌, ◌/◌, ◌%◌, ◌^◌, Bool, true, false, not, ◌&&◌, ◌||◌, ltb, leb, ◌==◌,
  if◌then◌else◌, Option, none, some, List, [], ◌∷◌, ◌++◌, length, take, drop,
}
use quickjs_runtime.Prelude.Int.{ℤ, pos, negsuc, pos_part, ◌+ℤ◌, ◌-ℤ◌, ltb_ℤ}
use quickjs_runtime.Cutils.DynBuf.{DynBuf, Outcome, returns, fault, dbuf_init, dbuf_putc}
use quickjs_runtime.Engine.Leb128.{
  u32, dbuf_put_leb128, dbuf_put_sleb128, Read, get_leb128, get_sleb128,
}

-- An `int` as a `uint32_t`, and back.
unfoldable pub pattern : ℤ → ℕ
pattern (pos n) = u32 n
pattern (negsuc n) = 2 ^ 32 - 1 - u32 n

unfoldable pub int32 : ℕ → ℤ
int32 n = if ltb n (2 ^ 31) then pos n else negsuc (2 ^ 32 - 1 - n)

unfoldable pub is_zero : ℤ → Bool
is_zero (pos n) = n == 0
is_zero (negsuc n) = false

unfoldable pub is_negative : ℤ → Bool
is_negative (pos n) = false
is_negative (negsuc n) = true

pub record LineNumberSlot : Type 0 where
  pub pc : ℕ
  pub line_num : ℤ

-- The array of slots, if there is one, by its entries in use; its length is `line_number_size`.
pub record FunctionDef : Type 0 where
  pub strip : Bool
  pub first_line : ℤ
  pub line_number_slots : Option (List LineNumberSlot)
  pub line_number_size : ℕ
  pub line_number_last : ℤ
  pub line_number_last_pc : ℕ

-- In `resolve_labels`, which gives up where there is no memory.
unfoldable pub allocate_slots : Bool → FunctionDef → Option FunctionDef
allocate_slots granted s =
    if not (s.line_number_size == 0) && not s.strip
    then (if granted
        then some (record s {
          line_number_slots = some [];
          line_number_last = s.first_line;
          line_number_last_pc = 0;
        })
        else none)
    else some s

unfoldable pub add_pc2line_info : FunctionDef → ℕ → ℤ → FunctionDef
add_pc2line_info s pc line_num = elim s.line_number_slots [
  | none ↦ s
  | some slots ↦
      if ltb (length slots) s.line_number_size
        && not (ltb pc s.line_number_last_pc)
        && not (is_zero (line_num -ℤ s.line_number_last))
      then record s {
        line_number_slots = some (slots ++ record { pc = pc; line_num = line_num } ∷ []);
        line_number_last_pc = pc;
        line_number_last = line_num;
      }
      else s
]

-- A write goes on whatever the result of the one before it.
unfoldable pub and_then : Option Outcome → (DynBuf → Option Outcome) → Option Outcome
and_then none next = none
and_then (some fault) next = some fault
and_then (some (returns s failed)) next = next s

-- PC2LINE_BASE is -1, PC2LINE_RANGE 5, PC2LINE_OP_FIRST 1 and PC2LINE_DIFF_PC_MAX 50.
unfoldable pub is_short : ℤ → ℤ → Bool
is_short diff_pc diff_line =
    not (ltb_ℤ diff_line (negsuc 0)) && ltb_ℤ diff_line (pos 4) && not (ltb_ℤ (pos 50) diff_pc)

-- Call `j` of the allocator in round `i` is its own. An entry takes eleven calls at most.
module _ (grants : ℕ → ℕ → ℕ → Bool) (junk : ℕ) where
  unfoldable pub put_long : ℕ → DynBuf → ℤ → ℤ → Option Outcome
  put_long i s diff_pc diff_line =
      and_then
        (and_then (some (dbuf_putc (grants i 0) junk s 0))
          (λ s1. dbuf_put_leb128 (λ j. grants i (1 + j)) junk s1 (pattern diff_pc)))
        (λ s2. dbuf_put_sleb128 (λ j. grants i (6 + j)) junk s2 (pattern diff_line))

  unfoldable pub put_entry : ℕ → DynBuf → ℤ → ℤ → Option Outcome
  put_entry i s diff_pc diff_line =
      if is_short diff_pc diff_line
      then some
          (dbuf_putc (grants i 0) junk s (pos_part (diff_line +ℤ pos 1) + pos_part diff_pc * 5 + 1))
      else put_long i s diff_pc diff_line

  unfoldable pub compute_loop : ℕ → List LineNumberSlot → ℕ → ℤ → DynBuf → Option Outcome
  compute_loop i [] last_pc last_line_num s = some (returns s false)
  compute_loop i (slot ∷ slots) last_pc last_line_num s =
      let diff_pc = int32 (u32 (slot.pc + 2 ^ 32 - last_pc)) in
      let diff_line = slot.line_num -ℤ last_line_num in
      let skipped = compute_loop (i + 1) slots last_pc last_line_num s in
      let written =
        and_then (put_entry i s diff_pc diff_line)
          (compute_loop (i + 1) slots slot.pc slot.line_num) in
      if is_negative slot.line_num || (is_zero diff_line || is_negative diff_pc)
      then skipped
      else written

  -- The field `pc2line` is initialised with the function, and again here.
  unfoldable pub compute_pc2line_info : FunctionDef → Option Outcome
  compute_pc2line_info s = elim s.line_number_slots [
    | none ↦ some (returns dbuf_init false)
    | some slots ↦
        let written = compute_loop 0 slots 0 s.first_line dbuf_init in
        if s.strip then some (returns dbuf_init false) else written
  ]

-- The debug information of a function, if it has any: its line and the table, whose buffer is NULL
-- where it is empty.
pub record Debug : Type 0 where
  pub line_num : ℤ
  pub pc2line : Option (List ℕ)

unfoldable pub debug_of : FunctionDef → DynBuf → Option Debug
debug_of s t =
    if s.strip
    then none
    else some (record {
      line_num = s.first_line;
      pc2line = if t.size == 0 then none else some (take t.size t.buf);
    })

-- The steps of the counter and the line in an entry behind the byte 0, and what follows it.
unfoldable pub long_entry : List ℕ → Option (ℕ × ℤ × List ℕ)
long_entry p = elim (get_leb128 p).consumed [
  | none ↦ none
  | some n ↦ elim (get_sleb128 (drop n p)).consumed [
    | none ↦ none
    | some m ↦ some ((get_leb128 p).value, int32 (get_sleb128 (drop n p)).value, drop m (drop n p))
  ]
]

unfoldable pub next_entry : ℕ → List ℕ → Option (ℕ × ℤ × List ℕ)
next_entry op p =
    if op == 0 then long_entry p else some ((op - 1) / 5, pos ((op - 1) % 5) -ℤ pos 1, p)

-- The loop of `find_line_num` on fuel; `none` is its end. A bad entry gives the first line.
module _ (first_line : ℤ) (pc_value : ℕ) where
  unfoldable pub find_loop : ℕ → List ℕ → ℕ → ℤ → Option ℤ
  find_loop fuel [] pc line_num = some line_num
  find_loop zero (op ∷ p) pc line_num = none
  find_loop (suc fuel) (op ∷ p) pc line_num = elim (next_entry op p) [
    | none ↦ some first_line
    | some (diff_pc, diff_line, p') ↦
        let pc' = u32 (pc + diff_pc) in
        let later = find_loop fuel p' pc' (line_num +ℤ diff_line) in
        if ltb pc_value pc' then some line_num else later
  ]

-- An entry has a byte at least, so the number of bytes is enough fuel.
unfoldable pub find_line_num : Option Debug → ℕ → Option ℤ
find_line_num none pc_value = some (negsuc 0)
find_line_num (some b) pc_value = elim b.pc2line [
  | none ↦ some (negsuc 0)
  | some p ↦ find_loop b.line_num pc_value (length p) p 0 b.line_num
]
