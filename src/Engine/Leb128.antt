-- ===== src/Engine/Leb128.antt =====
-- `dbuf_put_leb128`, `get_leb128` and their signed variants of native/quickjs/quickjs.c: numbers in
-- the line tables of byte code.
pub mod RoundTrip
pub mod Writer
pub mod Signed
use quickjs_runtime.Prelude.{
  ℕ, zero, suc, ◌+◌, ◌-◌, ◌*◌, ◌/◌, ◌%◌, ◌^◌, Bool, true, false, ◌==◌, if◌then◌else◌, Option, none,
  some, List, [], ◌∷◌, bit_and, bit_or, bit_xor,
}
use quickjs_runtime.Cutils.DynBuf.{DynBuf, Outcome, returns, fault, dbuf_putc}

abbrev pub u32 : ℕ → ℕ
u32 n = n % 2 ^ 32

-- An `int32_t` is its bit pattern: (2 * v) ^ -(v >> 31).
unfoldable pub zigzag : ℕ → ℕ
zigzag v = bit_xor (u32 (2 * v)) (u32 (2 ^ 32 - v / 2 ^ 31))

-- The writer. Call `i` of the allocator is its own; the results of `dbuf_putc` are not looked at.
-- The loop is on fuel, and a `uint32_t` takes 5 rounds at most.
module _ (grants : ℕ → ℕ → Bool) (junk : ℕ) where
  unfoldable pub put_loop : ℕ → ℕ → DynBuf → ℕ → Option Outcome
  put_loop zero i s v = none
  put_loop (suc fuel) i s v =
      let a = bit_and v 0x7f in
      let v' = v / 2 ^ 7 in
      if v' == 0
      then some (dbuf_putc (grants i) junk s a)
      else (elim (dbuf_putc (grants i) junk s (bit_or a 0x80)) [
        | returns s' failed ↦ put_loop fuel (i + 1) s' v'
        | fault ↦ some fault
      ])

  unfoldable pub dbuf_put_leb128 : DynBuf → ℕ → Option Outcome
  dbuf_put_leb128 s v = put_loop 5 0 s v

  unfoldable pub dbuf_put_sleb128 : DynBuf → ℕ → Option Outcome
  dbuf_put_sleb128 s v = dbuf_put_leb128 s (zigzag v)

-- What is stored through `pval`, and the number of bytes read or -1.
pub record Read : Type 0 where
  pub value : ℕ
  pub consumed : Option ℕ

-- The bytes from `ptr` to `buf_end`, with `rounds` of the five left.
unfoldable pub get_loop : ℕ → ℕ → ℕ → List ℕ → Read
get_loop zero i v bytes = record { value = 0; consumed = none }
get_loop (suc rounds) i v [] = record { value = 0; consumed = none }
get_loop (suc rounds) i v (a ∷ bytes) =
    let v' = bit_or v (u32 (bit_and a 0x7f * 2 ^ (i * 7))) in
    let rest = get_loop rounds (i + 1) v' bytes in
    if bit_and a 0x80 == 0 then record { value = v'; consumed = some (i + 1) } else rest

unfoldable pub get_leb128 : List ℕ → Read
get_leb128 bytes = get_loop 5 0 0 bytes

-- (val >> 1) ^ -(val & 1), where the reading went well.
unfoldable pub unzigzag : Read → Read
unzigzag r = elim r.consumed [
  | none ↦ record { value = 0; consumed = none }
  | some n ↦ record {
    value = bit_xor (r.value / 2) (u32 (2 ^ 32 - bit_and r.value 1));
    consumed = some n;
  }
]

unfoldable pub get_sleb128 : List ℕ → Read
get_sleb128 bytes = unzigzag (get_leb128 bytes)
