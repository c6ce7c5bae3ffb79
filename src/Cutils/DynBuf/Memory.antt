-- ===== src/Cutils/DynBuf/Memory.antt =====
-- A block of memory as a list of bytes.
use quickjs_runtime.Prelude.{
  ℕ, ◌+◌, ◌-◌, ◌≤◌, ◌≡◌, sym, ap, ◌∙◌, ltb, if◌then◌else◌, Option, none, some, List, ◌++◌, length,
  take, drop, replicate, length-append, length-take, length-drop, length-replicate, take_append,
  take_within, arith,
}
use mathlib.Core.List.{append_assoc}

-- memcpy to an offset; `none` is a write outside the block.
unfoldable pub copy_into : List ℕ → ℕ → List ℕ → Option (List ℕ)
copy_into buf offset bytes =
    if ltb (length buf) (offset + length bytes)
    then none
    else some (take offset buf ++ (bytes ++ drop (offset + length bytes) buf))

-- realloc to a larger size: what was there, then bytes that C leaves open.
unfoldable pub resize : ℕ → ℕ → List ℕ → List ℕ
resize junk n buf = buf ++ replicate (n - length buf) junk

pub length-resize : (junk n : ℕ) (buf : List ℕ) → length buf ≤ n → length (resize junk n buf) ≡ n
unfolding resize
length-resize junk n buf h = omega (
  arith,
  length-append buf (replicate (n - length buf) junk),
  length-replicate (n - length buf) junk,
)

pub take-resize :
    (junk n k : ℕ) (buf : List ℕ) → k ≤ length buf → take k (resize junk n buf) ≡ take k buf
unfolding resize
take-resize junk n k buf h = take_within buf _ k h

-- A copy that fits: the block keeps its length, and up to the end of the copy it holds what it
-- held before the offset and then the bytes.
pub record IsCopied (buf : List ℕ) (offset : ℕ) (bytes : List ℕ) : Type 0 where
  pub buf' : List ℕ
  pub copied : copy_into buf offset bytes ≡ some buf'
  pub same_length : length buf' ≡ length buf
  pub start : take (offset + length bytes) buf' ≡ take offset buf ++ bytes

pub copy_into-IsCopied :
    (buf : List ℕ) (offset : ℕ) (bytes : List ℕ)
    → offset + length bytes ≤ length buf
    → IsCopied buf offset bytes
unfolding copy_into
copy_into-IsCopied buf offset bytes h =
    let a = take offset buf in
    let b = drop (offset + length bytes) buf in
    record {
      buf' = a ++ (bytes ++ b);
      copied = ground arith;
      same_length = omega (
        arith,
        length-append a (bytes ++ b),
        length-append bytes b,
        length-take offset buf,
        length-drop (offset + length bytes) buf,
      );
      start =
          ap (take (offset + length bytes)) (sym (append_assoc a bytes b))
          ∙ take_append (a ++ bytes) b (offset + length bytes)
              (omega (arith, length-append a bytes, length-take offset buf));
    }
