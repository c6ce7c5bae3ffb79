-- ===== src/Cutils/DynBuf.antt =====
-- `DynBuf` of native/quickjs/cutils.c and cutils.h: a growing byte buffer.
pub mod Memory
pub mod Growth
pub mod Laws
pub mod Writes
use quickjs_runtime.Prelude.{
  ℕ, zero, suc, ◌+◌, ◌-◌, ◌*◌, ◌/◌, ◌%◌, ◌^◌, Bool, true, false, ltb, leb, if◌then◌else◌, Option,
  none, some, List, [], ◌∷◌, ◌++◌, length, take, drop,
}
use Memory.{copy_into, resize}

abbrev pub size_mod : ℕ
size_mod = 2 ^ 64

-- `buf` is the whole block: as long as `allocated_size`. The `opaque` pointer of the allocator is
-- part of the allocator that each call is given.
pub record DynBuf : Type 0 where
  pub buf : List ℕ
  pub size : ℕ
  pub allocated_size : ℕ
  pub error : Bool

-- The new buffer with the result, or a write or a read outside the block.
pub data Outcome : Type 0 where
  returns : DynBuf → Bool → Outcome
  fault : Outcome

unfoldable pub dbuf_init : DynBuf
dbuf_init = record { buf = []; size = 0; allocated_size = 0; error = false }

-- memcpy(s->buf + offset, data, len) and the new size.
unfoldable pub store_bytes : ℕ → List ℕ → ℕ → DynBuf × Bool → Outcome
store_bytes offset bytes end (s, true) = returns s true
store_bytes offset bytes end (s, false) = elim (copy_into s.buf offset bytes) [
  | none ↦ fault
  | some buf' ↦ returns (record s { buf = buf'; size = end }) false
]

-- The source of the copy is read after the block has moved.
unfoldable pub store_self : ℕ → ℕ → ℕ → DynBuf × Bool → Outcome
store_self offset len end (s, true) = returns s true
store_self offset len end (s, false) =
    if ltb s.allocated_size (offset + len)
    then fault
    else store_bytes s.size (take len (drop offset s.buf)) end (s, false)

-- What a call of vsnprintf makes: a text, of at most 2 ^ 31 - 1 bytes, or for `refused n left` the
-- negative result -(n + 1), with the bytes `left` in the buffer that it was given.
pub data Formatted : Type 0 where
  printed : List ℕ → Formatted
  refused : ℕ → List ℕ → Formatted

-- The formatted text with its terminator, of which the second call of vsnprintf stores what
-- fits; the terminator is not counted in the size.
unfoldable pub store_text : List ℕ → DynBuf × Bool → Outcome
store_text text (s, true) = returns s true
store_text text (s, false) =
    store_bytes s.size (take (s.allocated_size - s.size) (text ++ 0 ∷ []))
      ((s.size + length text) % size_mod) (s, false)

-- The second call fails again: its negative result is added to the size.
unfoldable pub store_refused : ℕ → List ℕ → DynBuf × Bool → Outcome
store_refused n left (s, true) = returns s true
store_refused n left (s, false) =
    store_bytes s.size (take (s.allocated_size - s.size) left)
      ((s.size + size_mod - (n + 1)) % size_mod) (s, false)

-- The bytes of a value of `n` bytes, as a little-endian machine stores it.
unfoldable pub little_endian : ℕ → ℕ → List ℕ
little_endian zero v = []
little_endian (suc n) v = (v % 256) ∷ little_endian n (v / 256)

-- The allocator that a call meets: whether it grants a block of a size. `junk` is what the new
-- part of a block holds.
module _ (grants : ℕ → Bool) (junk : ℕ) where
  -- The size that is asked for: half as much again as before, if that is more.
  unfoldable pub grown_size : DynBuf → ℕ → ℕ
  grown_size s new_size =
      let size = s.allocated_size * 3 % size_mod / 2 in if ltb new_size size then size else new_size

  -- True is the result -1.
  unfoldable pub dbuf_realloc : DynBuf → ℕ → DynBuf × Bool
  dbuf_realloc s new_size =
      if ltb s.allocated_size new_size
      then (if s.error
          then (s, true)
          else (if grants (grown_size s new_size)
              then (
                record s {
                  buf = resize junk (grown_size s new_size) s.buf;
                  allocated_size = grown_size s new_size;
                },
                false,
              )
              else (record s { error = true }, true)))
      else (s, false)

  unfoldable pub dbuf_write : DynBuf → ℕ → List ℕ → Outcome
  dbuf_write s offset bytes =
      let end = (offset + length bytes) % size_mod in
      store_bytes offset bytes (if ltb s.size end then end else s.size) (dbuf_realloc s end)

  unfoldable pub dbuf_put : DynBuf → List ℕ → Outcome
  dbuf_put s bytes =
      let end = (s.size + length bytes) % size_mod in
      store_bytes s.size bytes end
        (if ltb s.allocated_size end then dbuf_realloc s end else (s, false))

  unfoldable pub dbuf_put_self : DynBuf → ℕ → ℕ → Outcome
  dbuf_put_self s offset len =
      let end = (s.size + len) % size_mod in
      store_self offset len end
        (if ltb s.allocated_size end then dbuf_realloc s end else (s, false))

  unfoldable pub dbuf_putc : DynBuf → ℕ → Outcome
  dbuf_putc s c = dbuf_put s (c ∷ [])

  unfoldable pub dbuf_put_u16 : DynBuf → ℕ → Outcome
  dbuf_put_u16 s v = dbuf_put s (little_endian 2 v)

  unfoldable pub dbuf_put_u32 : DynBuf → ℕ → Outcome
  dbuf_put_u32 s v = dbuf_put s (little_endian 4 v)

  unfoldable pub dbuf_put_u64 : DynBuf → ℕ → Outcome
  dbuf_put_u64 s v = dbuf_put s (little_endian 8 v)

  unfoldable pub dbuf_putstr : DynBuf → List ℕ → Outcome
  dbuf_putstr s text = dbuf_put s text

  -- The `int` result is compared with a `size_t`: a negative one counts as a long text.
  unfoldable pub dbuf_printf : DynBuf → Formatted → Outcome
  dbuf_printf s (refused n left) =
      store_refused n left (dbuf_realloc s ((s.size + size_mod - n) % size_mod))
  dbuf_printf s (printed text) =
      if ltb (length text) 128
      then dbuf_put s text
      else store_text text (dbuf_realloc s ((s.size + length text + 1) % size_mod))

unfoldable pub dbuf_free : DynBuf → DynBuf
dbuf_free s = dbuf_init
