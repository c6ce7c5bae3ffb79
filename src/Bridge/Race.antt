-- ===== src/Bridge/Race.antt =====
-- Registrations of native/quickjs_bridge.c by parallel isolates: the calls of
-- `qjs_register_host_fn` (or `qjs_register_bytes_fn`) that share one table, in any interleaving of
-- their accesses to it.
pub mod Moves
pub mod Reachable
use quickjs_runtime.Prelude.{ℕ, ◌+◌, ◌≤◌, ◌<◌, ◌≡◌, Option, none, some, ℕ_discrete}
use mathlib.Core.Logic.{ite}
use quickjs_runtime.Bridge.Table.{Table, max_host_fns, empty, store}

-- Where a call stands: before the first check, before the fetch-and-add, before the store, and
-- at the end with its index or with -1.
pub data Call (A : Type 0) : Type 0 where
  entered : A → Call A
  checked : A → Call A
  claimed : A → ℕ → Call A
  stored : A → ℕ → Call A
  refused : Call A

-- One access to the table by one call.
pub data Move {A : Type 0} : Table A → Call A → Table A → Call A → Type 0 where
  see_full : {t : Table A} {a : A} → max_host_fns ≤ t.count → Move t (entered a) t refused
  see_room : {t : Table A} {a : A} → t.count < max_host_fns → Move t (entered a) t (checked a)
  add_past :
      {t : Table A} {a : A}
      → max_host_fns ≤ t.count
      → Move t (checked a) (record t { count = t.count + 1 }) refused
  add_within :
      {t : Table A} {a : A}
      → t.count < max_host_fns
      → Move t (checked a) (record t { count = t.count + 1 }) (claimed a t.count)
  fill :
      {t : Table A} {a : A} {i : ℕ}
      → Move t (claimed a i) (record t { slots = store t.slots i a }) (stored a i)

pub record System (A : Type 0) : Type 0 where
  pub table : Table A
  pub call : ℕ → Call A

abbrev pub update : {A : Type 0} → (ℕ → Call A) → ℕ → Call A → ℕ → Call A
update f i c j = ite (ℕ_discrete i j) c (f j)

-- Any call may move next.
pub data Step {A : Type 0} : System A → System A → Type 0 where
  pick :
      {t t' : Table A} {f : ℕ → Call A} {c' : Call A} (i : ℕ)
      → Move t (f i) t' c'
      → Step (record { table = t; call = f }) (record { table = t'; call = update f i c' })

-- No registration has begun; call `j` is to register `wanted j`.
abbrev pub initial : {A : Type 0} → (ℕ → A) → System A
initial wanted = record {
  table = record { count = 0; slots = λ _. none };
  call = λ j. entered (wanted j);
}

pub data Reach {A : Type 0} (s : System A) : System A → Type 0 where
  here : Reach s s
  later : {t u : System A} → Reach s t → Step t u → Reach s u
