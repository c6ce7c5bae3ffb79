-- ===== src/Bridge/Table.antt =====
-- The process-global callback tables of native/quickjs_bridge.c (`g_callbacks` with
-- `g_callback_count`, `g_bytes_callbacks` with `g_bytes_callback_count`), generic in the callback,
-- and the magic number by which a function object finds its entry.
pub mod Laws
use quickjs_runtime.Prelude.{
  ℕ, ◌+◌, ◌-◌, ◌%◌, ◌^◌, suc, Bool, ltb, leb, if◌then◌else◌, Option, none, some, ℕ_discrete,
}
use mathlib.Core.Logic.{ite}
use quickjs_runtime.Prelude.Int.{ℤ, pos, negsuc}

-- `MAX_HOST_FNS`.
abbrev pub max_host_fns : ℕ
max_host_fns = 65536

pub record Table {ℓ} (A : Type ℓ) : Type ℓ where
  pub count : ℕ
  pub slots : ℕ → Option A

module _ {ℓ} {A : Type ℓ} where
  -- The static tables are zero at the start.
  unfoldable pub empty : Table A
  empty = record { count = 0; slots = λ _. none }

  -- The entry that a dispatcher calls: none below 0, from `count` on, or where a slot is NULL.
  unfoldable pub callback_at : Table A → ℤ → Option A
  callback_at t (negsuc n) = none
  callback_at t (pos i) = if leb t.count i then none else t.slots i

  abbrev pub store : (ℕ → Option A) → ℕ → A → ℕ → Option A
  store slots i a j = ite (ℕ_discrete i j) (some a) (slots j)

  -- The part of a registration that touches the table, with no other thread in between: the
  -- check, the fetch-and-add, the second check and the store. `none` is a full table.
  unfoldable pub reserve : A → Table A → Option ℕ × Table A
  reserve a t =
      if leb max_host_fns t.count
      then (none, t)
      else (if leb max_host_fns t.count
          then (none, record t { count = t.count + 1 })
          else (some t.count, record { count = t.count + 1; slots = store t.slots t.count a }))

-- The conversion to `int16_t` that `p->u.cfunc.magic = magic` makes.
unfoldable pub int16 : ℕ → ℤ
int16 n = let w = n % 2 ^ 16 in if ltb w (2 ^ 15) then pos w else negsuc (2 ^ 16 - w - 1)
