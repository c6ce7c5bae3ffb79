-- ===== src/Engine/LineTable/Collect.antt =====
-- The slots that `add_pc2line_info` collects in `resolve_labels`.
use quickjs_runtime.Prelude.{
  ℕ, ◌+◌, ◌^◌, ◌≤◌, ◌<◌, ◌≡◌, refl, ◌∙◌, inl, inr, true, false, ltb, if◌then◌else◌, some, List, [],
  ◌∷◌, ◌++◌, length, length-append, arith, Bool-cases, ltb→lt, ltb→le, lt→ltb, le→ltb, sym,
}
use quickjs_runtime.Prelude.Int.{ℤ, pos_part, ◌-ℤ◌}
use quickjs_runtime.Engine.LineTable.{
  is_zero, is_negative, LineNumberSlot, FunctionDef, add_pc2line_info,
}
use quickjs_runtime.Engine.LineTable.Table.{IsOrdered}
use quickjs_runtime.Engine.LineTable.Find.{line_at}
use quickjs_runtime.Engine.LineTable.RoundTrip.{zero_step}

-- Slots with lines, none of them behind `last`.
unfoldable pub IsKept : ℕ → List LineNumberSlot → Type 0
IsKept last [] = Unit
IsKept last (slot ∷ slots) =
    (slot.pc ≤ last) × (is_negative slot.line_num ≡ false) × IsKept last slots

unfoldable pub last_line : List LineNumberSlot → ℤ → ℤ
last_line [] line_num = line_num
last_line (slot ∷ slots) line_num = last_line slots slot.line_num

-- What a function knows of the slots it has collected.
pub record IsCollected (f : FunctionDef) (slots : List LineNumberSlot) : Type 0 where
  pub there : f.line_number_slots ≡ some slots
  pub ordered : IsOrdered 0 slots
  pub kept : IsKept f.line_number_last_pc slots
  pub newest : last_line slots f.first_line ≡ f.line_number_last

IsKept-up :
    (last last' : ℕ) (slots : List LineNumberSlot)
    → last ≤ last'
    → IsKept last slots
    → IsKept last' slots
unfolding IsKept
IsKept-up last last' [] h k = k
IsKept-up last last' (slot ∷ slots) h (below, line, k) =
    (omega arith, line, IsKept-up last last' slots h k)

line_at_end :
    (slots : List LineNumberSlot) (last pc_value : ℕ) (line_num : ℤ)
    → IsKept last slots
    → last ≤ pc_value
    → line_at slots line_num pc_value ≡ last_line slots line_num
unfolding line_at last_line IsKept
line_at_end [] last pc_value line_num k h = refl
line_at_end (slot ∷ slots) last pc_value line_num (below, line, k) h =
    rw (le→ltb pc_value slot.pc (omega arith), line)
      (line_at_end slots last pc_value slot.line_num k h)

module _ (new : LineNumberSlot) where
  line_at-append :
      (slots : List LineNumberSlot) (pc_value : ℕ) (line_num : ℤ)
      → IsKept new.pc slots
      → is_negative new.line_num ≡ false
      → line_at (slots ++ new ∷ []) line_num pc_value
        ≡ (if ltb pc_value new.pc then line_at slots line_num pc_value else new.line_num)
  unfolding line_at IsKept
  line_at-append [] pc_value line_num k line = rw line refl
  line_at-append (slot ∷ slots) pc_value line_num (below, here, k) line =
      elim (Bool-cases (ltb pc_value slot.pc)) [
        | inl early ↦
            rw
              (early, lt→ltb pc_value new.pc (let h = ltb→lt pc_value slot.pc early in omega arith))
              refl
        | inr late ↦ rw (late, here) (line_at-append slots pc_value slot.line_num k line)
      ]

  IsOrdered-append :
      (slots : List LineNumberSlot) (last : ℕ)
      → IsOrdered last slots
      → IsKept new.pc slots
      → last ≤ new.pc
      → new.pc < 2 ^ 31
      → pos_part new.line_num < 2 ^ 31
      → IsOrdered last (slots ++ new ∷ [])
  unfolding IsOrdered IsKept
  IsOrdered-append [] last ordered k after small line = (after, small, line, tt)
  IsOrdered-append (slot ∷ slots) last (first, low, up, ordered) (below, here, k) after small line =
      (first, low, up, IsOrdered-append slots slot.pc ordered k below small line)

  IsKept-append :
      (slots : List LineNumberSlot)
      → IsKept new.pc slots
      → is_negative new.line_num ≡ false
      → IsKept new.pc (slots ++ new ∷ [])
  unfolding IsKept
  IsKept-append [] k line = (omega arith, line, tt)
  IsKept-append (slot ∷ slots) (below, here, k) line = (below, here, IsKept-append slots k line)

  last_line-append :
      (slots : List LineNumberSlot) (line_num : ℤ)
      → last_line (slots ++ new ∷ []) line_num ≡ new.line_num
  unfolding last_line
  last_line-append [] line_num = refl
  last_line-append (slot ∷ slots) line_num = last_line-append slots slot.line_num

-- A function after `add_pc2line_info`: its slots, and the lines they give.
pub record IsAdded (f : FunctionDef) (slots : List LineNumberSlot) (pc : ℕ) (line_num : ℤ)
    (pc_value : ℕ) (f' : FunctionDef) : Type 0 where
  pub slots' : List LineNumberSlot
  pub collected : IsCollected f' slots'
  pub below : f'.line_number_last_pc ≤ pc
  pub more : length slots' ≤ length slots + 1
  pub same_first : f'.first_line ≡ f.first_line
  pub lines :
      line_at slots' f.first_line pc_value
      ≡ (if ltb pc_value pc then line_at slots f.first_line pc_value else line_num)

module _ (f : FunctionDef) (slots : List LineNumberSlot) (pc : ℕ) (line_num : ℤ)
    (there : f.line_number_slots ≡ some slots) (room : length slots < f.line_number_size)
    (after : f.line_number_last_pc ≤ pc) where
  abbrev added : FunctionDef
  added = record f {
    line_number_slots = some (slots ++ record { pc = pc; line_num = line_num } ∷ []);
    line_number_last_pc = pc;
    line_number_last = line_num;
  }

  add_same : is_zero (line_num -ℤ f.line_number_last) ≡ true → add_pc2line_info f pc line_num ≡ f
  unfolding add_pc2line_info
  add_same same = ground (arith, there, same)

  add_other :
      is_zero (line_num -ℤ f.line_number_last) ≡ false → add_pc2line_info f pc line_num ≡ added
  unfolding add_pc2line_info
  add_other other = ground (arith, there, other)

pub add_pc2line_info-IsAdded :
    (f : FunctionDef) (slots : List LineNumberSlot) (pc : ℕ) (line_num : ℤ) (pc_value : ℕ)
    → IsCollected f slots
    → length slots < f.line_number_size
    → f.line_number_last_pc ≤ pc
    → pc < 2 ^ 31
    → is_negative line_num ≡ false
    → pos_part line_num < 2 ^ 31
    → IsAdded f slots pc line_num pc_value (add_pc2line_info f pc line_num)
add_pc2line_info-IsAdded f slots pc line_num pc_value c room after small line up =
    let new : LineNumberSlot = record { pc = pc; line_num = line_num } in
    let k = IsKept-up f.line_number_last_pc pc slots after c.kept in
    elim (Bool-cases (is_zero (line_num -ℤ f.line_number_last))) [
      | inl same ↦ rw (add_same f slots pc line_num c.there room after same) (record {
        slots' = slots;
        collected = c;
        below = after;
        more = omega arith;
        same_first = refl;
        lines = elim (Bool-cases (ltb pc_value pc)) [
          | inl early ↦ rw early refl
          | inr late ↦ rw late (
              line_at_end slots pc pc_value f.first_line k (ltb→le pc_value pc late)
              ∙ c.newest
              ∙ sym (zero_step line_num f.line_number_last same))
        ];
      })
      | inr other ↦ rw (add_other f slots pc line_num c.there room after other) (record {
        slots' = slots ++ new ∷ [];
        collected = record {
          there = refl;
          ordered = IsOrdered-append new slots 0 c.ordered k (omega arith) small up;
          kept = IsKept-append new slots k line;
          newest = last_line-append new slots f.first_line;
        };
        below = omega arith;
        more = omega (arith, length-append slots (new ∷ []));
        same_first = refl;
        lines = line_at-append new slots pc_value f.first_line k line;
      })
    ]
