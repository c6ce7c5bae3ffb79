-- ===== src/Engine/LineTable/Table.antt =====
-- The bytes of a line table, and that `compute_pc2line_info` writes them.
use quickjs_runtime.Prelude.{
  ℕ, zero, suc, ◌+◌, ◌-◌, ◌*◌, ◌/◌, ◌^◌, ◌≤◌, ◌<◌, ◌≡◌, refl, inl, inr, Bool, false, ◌||◌,
  if◌then◌else◌, Option, some, List, [], ◌∷◌, ◌++◌, length, arith, Bool-cases, length-append,
}
use quickjs_runtime.Prelude.Int.{ℤ, pos, negsuc, pos_part, ◌+ℤ◌, ◌-ℤ◌}
use quickjs_runtime.Cutils.DynBuf.{DynBuf, Outcome, dbuf_putc, size_mod}
use quickjs_runtime.Cutils.DynBuf.Growth.{IsValid}
use quickjs_runtime.Cutils.DynBuf.Laws.{dbuf_put-IsAppended}
use quickjs_runtime.Cutils.DynBuf.Writes.{IsWritten, IsWritten-one, IsWritten-none, IsWritten-more}
use quickjs_runtime.Engine.Leb128.{u32, zigzag}
use quickjs_runtime.Engine.Leb128.RoundTrip.{groups}
use quickjs_runtime.Engine.Leb128.Writer.{dbuf_put_leb128-IsWritten}
use quickjs_runtime.Engine.Leb128.Signed.{dbuf_put_sleb128-IsWritten}
use quickjs_runtime.Engine.LineTable.{
  pattern, int32, is_zero, is_negative, LineNumberSlot, and_then, is_short, put_long, put_entry,
  compute_loop,
}

-- Slots in the order of their counters, from `last` on, with counters and lines of 31 bits.
unfoldable pub IsOrdered : ℕ → List LineNumberSlot → Type 0
IsOrdered last [] = Unit
IsOrdered last (slot ∷ slots) =
    (last ≤ slot.pc)
    × (slot.pc < 2 ^ 31)
    × (pos_part slot.line_num < 2 ^ 31)
    × IsOrdered slot.pc slots

-- An entry for a step of the counter and of the line.
unfoldable pub entry : ℕ → ℤ → List ℕ
entry diff_pc diff_line =
    if is_short (pos diff_pc) diff_line
    then (pos_part (diff_line +ℤ pos 1) + diff_pc * 5 + 1) ∷ []
    else 0 ∷ groups 5 (pattern (pos diff_pc)) ++ groups 5 (zigzag (pattern diff_line))

unfoldable pub table : List LineNumberSlot → ℕ → ℤ → List ℕ
table [] last_pc last_line_num = []
table (slot ∷ slots) last_pc last_line_num =
    let skipped = table slots last_pc last_line_num in
    let written =
      entry (slot.pc - last_pc) (slot.line_num -ℤ last_line_num)
      ++ table slots slot.pc slot.line_num in
    if is_negative slot.line_num || is_zero (slot.line_num -ℤ last_line_num)
    then skipped
    else written

length-groups : (n v : ℕ) → length (groups n v) ≤ n
unfolding groups
length-groups zero v = omega arith
length-groups (suc n) v = ground (arith, length-groups n (v / 128))

pub length-entry : (diff_pc : ℕ) (diff_line : ℤ) → length (entry diff_pc diff_line) ≤ 11
unfolding entry
length-entry diff_pc diff_line =
    let pc = pattern (pos diff_pc) in
    let line = zigzag (pattern diff_line) in
    ground
      (arith, length-append (groups 5 pc) (groups 5 line), length-groups 5 pc, length-groups 5 line)

pub pattern-small : (a : ℤ) → pattern a < 2 ^ 32
unfolding pattern
pattern-small (pos n) = omega arith
pattern-small (negsuc n) = omega arith

-- The step of two counters in order.
pub int32_step :
    (last pc : ℕ) → last ≤ pc → pc < 2 ^ 31 → int32 (u32 (pc + 2 ^ 32 - last)) ≡ pos (pc - last)
unfolding int32
int32_step last pc h k =
    let e : u32 (pc + 2 ^ 32 - last) ≡ pc - last = omega arith in rw e (ground arith)

not_negative : (n : ℕ) → is_negative (pos n) ≡ false
unfolding is_negative
not_negative n = refl

pub IsOrdered-from :
    (first last : ℕ) (slots : List LineNumberSlot)
    → first ≤ last
    → IsOrdered last slots
    → IsOrdered first slots
unfolding IsOrdered
IsOrdered-from first last [] h ordered = ordered
IsOrdered-from first last (slot ∷ slots) h (after, small, line, ordered) =
    (omega arith, small, line, ordered)

and_then-IsWritten :
    (s : DynBuf) (bytes more : List ℕ) (o : Option Outcome) (next : DynBuf → Option Outcome)
    → IsWritten s bytes o
    → ((s' : DynBuf) → IsValid s' → s'.size ≤ s.size + length bytes → IsWritten s' more (next s'))
    → IsWritten s (bytes ++ more) (and_then o next)
unfolding and_then
and_then-IsWritten s bytes more o next w goes_on =
    rw w.returned (IsWritten-more s bytes more o (next w.s') w (goes_on w.s' w.valid w.grown))

module _ (grants : ℕ → ℕ → ℕ → Bool) (junk : ℕ) where
  byte-IsWritten :
      (i : ℕ) (s : DynBuf) (c : ℕ)
      → IsValid s
      → s.size + 11 < size_mod
      → IsWritten s (c ∷ []) (some (dbuf_putc (grants i 0) junk s c))
  unfolding dbuf_putc
  byte-IsWritten i s c v room =
      IsWritten-one s (c ∷ []) _ v
        (dbuf_put-IsAppended (grants i 0) junk s (c ∷ []) v (omega arith))

  put_long-IsWritten :
      (i : ℕ) (s : DynBuf) (diff_pc diff_line : ℤ)
      → IsValid s
      → s.size + 11 < size_mod
      → IsWritten s
          (0 ∷ groups 5 (pattern diff_pc) ++ groups 5 (zigzag (pattern diff_line)))
          (put_long grants junk i s diff_pc diff_line)
  unfolding put_long
  put_long-IsWritten i s diff_pc diff_line v room =
      let pc = groups 5 (pattern diff_pc) in
      let short = length-groups 5 (pattern diff_pc) in
      and_then-IsWritten s (0 ∷ pc) _ _ _
        (and_then-IsWritten s (0 ∷ []) pc _ _ (byte-IsWritten i s 0 v room) (λ s1 v1 size.
          dbuf_put_leb128-IsWritten (λ j. grants i (1 + j)) junk s1 (pattern diff_pc) v1
            (omega arith) (pattern-small diff_pc)))
        (λ s2 v2 size.
          dbuf_put_sleb128-IsWritten (λ j. grants i (6 + j)) junk s2 (pattern diff_line) v2
            (omega arith) (pattern-small diff_line))

  put_entry-IsWritten :
      (i : ℕ) (s : DynBuf) (diff_pc : ℕ) (diff_line : ℤ)
      → IsValid s
      → s.size + 11 < size_mod
      → IsWritten s (entry diff_pc diff_line) (put_entry grants junk i s (pos diff_pc) diff_line)
  unfolding put_entry entry
  put_entry-IsWritten i s diff_pc diff_line v room =
      elim (Bool-cases (is_short (pos diff_pc) diff_line)) [
        | inl short ↦ rw short (byte-IsWritten i s _ v room)
        | inr long ↦ rw long (put_long-IsWritten i s (pos diff_pc) diff_line v room)
      ]

  pub compute_loop-IsWritten :
      (slots : List LineNumberSlot) (i last_pc : ℕ) (last_line_num : ℤ) (s : DynBuf)
      → IsOrdered last_pc slots
      → IsValid s
      → s.size + 11 * length slots < size_mod
      → IsWritten s
          (table slots last_pc last_line_num)
          (compute_loop grants junk i slots last_pc last_line_num s)
  unfolding compute_loop table IsOrdered
  compute_loop-IsWritten [] i last_pc last_line_num s ordered v room = IsWritten-none s false v
  compute_loop-IsWritten (slot ∷ slots) i last_pc last_line_num s (after, small, line, ordered) v
        room =
      let rest = IsOrdered-from last_pc slot.pc slots after ordered in
      let skipped =
        compute_loop-IsWritten slots (i + 1) last_pc last_line_num s rest v (omega arith) in
      elim (Bool-cases (is_negative slot.line_num)) [
        | inl negative ↦ rw negative skipped
        | inr here ↦ elim (Bool-cases (is_zero (slot.line_num -ℤ last_line_num))) [
          | inl same ↦ rw (here, same) skipped
          | inr other ↦
              let diff_pc = slot.pc - last_pc in
              let diff_line = slot.line_num -ℤ last_line_num in
              let entry_size = length-entry diff_pc diff_line in
              rw (here, other, int32_step last_pc slot.pc after small, not_negative diff_pc)
                (and_then-IsWritten s (entry diff_pc diff_line) _ _ _
                  (put_entry-IsWritten i s diff_pc diff_line v (omega arith))
                  (λ s' v' size.
                    compute_loop-IsWritten slots (i + 1) slot.pc slot.line_num s' ordered v'
                      (omega arith)))
        ]
      ]
