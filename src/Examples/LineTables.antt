-- ===== src/Examples/LineTables.antt =====
-- Line tables at a concrete function.
use quickjs_runtime.Prelude.{
  ℕ, ◌≡◌, refl, Bool, true, false, Option, none, some, List, [], ◌∷◌, arith,
}
use quickjs_runtime.Prelude.Int.{ℤ, pos, negsuc, ◌-ℤ◌}
use quickjs_runtime.Cutils.DynBuf.{returns, dbuf_init}
use quickjs_runtime.Engine.LineTable.{
  LineNumberSlot, FunctionDef, add_pc2line_info, compute_pc2line_info, debug_of, find_line_num,
  compute_loop, is_negative, is_zero,
}
use quickjs_runtime.Engine.LineTable.Table.{IsOrdered}
use quickjs_runtime.Engine.LineTable.RoundTrip.{IsFound, find_line_num-compute_pc2line_info}
use quickjs_runtime.Engine.LineTable.Collect.{
  IsCollected, IsKept, last_line, IsAdded, add_pc2line_info-IsAdded,
}

-- A step of one line, a long one, and one back.
abbrev three_slots : List LineNumberSlot
three_slots =
    record { pc = 3; line_num = pos 11 }
    ∷ record { pc = 70; line_num = pos 200 }
    ∷ record { pc = 75; line_num = pos 199 }
    ∷ []

abbrev traced : FunctionDef
traced = record {
  strip = false;
  first_line = pos 10;
  line_number_slots = some three_slots;
  line_number_size = 5;
  line_number_last = pos 199;
  line_number_last_pc = 75;
}

-- A function on one line.
abbrev one_line : FunctionDef
one_line = record traced { line_number_slots = some (record { pc = 4; line_num = pos 10 } ∷ []) }

abbrev always : ℕ → ℕ → ℕ → Bool
always i j n = true

abbrev searched : FunctionDef → ℕ → Option ℤ
searched f pc_value = elim (compute_pc2line_info always 0 f) [
  | some (returns t failed) ↦ find_line_num (debug_of f t) pc_value
  | _ ↦ none
]

three_slots-IsOrdered : IsOrdered 0 three_slots
unfolding IsOrdered
three_slots-IsOrdered = (
  omega arith,
  omega arith,
  omega arith,
  (omega arith, omega arith, omega arith, (omega arith, omega arith, omega arith, tt)),
)

find_line_num-compute_pc2line_info_example :
    IsFound traced three_slots 72 (compute_pc2line_info always 0 traced)
find_line_num-compute_pc2line_info_example =
    find_line_num-compute_pc2line_info always 0 traced three_slots 72 refl three_slots-IsOrdered
      (omega arith) (omega arith) (omega arith)

three_slots-IsCollected : IsCollected traced three_slots
unfolding IsKept last_line is_negative
three_slots-IsCollected = record {
  there = refl;
  ordered = three_slots-IsOrdered;
  kept = (omega arith, refl, (omega arith, refl, (omega arith, refl, tt)));
  newest = refl;
}

add_pc2line_info-IsAdded_example :
    IsAdded traced three_slots 90 (pos 201) 95 (add_pc2line_info traced 90 (pos 201))
unfolding is_negative
add_pc2line_info-IsAdded_example =
    add_pc2line_info-IsAdded traced three_slots 90 (pos 201) 95 three_slots-IsCollected
      (omega arith) (omega arith) (omega arith) refl (omega arith)

-- A table without entries is taken for that of a function without debug information.
line_lost : searched one_line 4 ≡ some (negsuc 0)
unfolding compute_pc2line_info find_line_num debug_of compute_loop is_negative is_zero ◌-ℤ◌
    dbuf_init
line_lost = refl
