-- ===== src/Cutils/CString.antt =====
-- The string functions of native/quickjs/cutils.c.
pub mod Copy
pub mod Parts
use quickjs_runtime.Prelude.{
  ℕ, zero, suc, ◌+◌, ◌-◌, Bool, true, false, ◌&&◌, ltb, leb, ◌==◌, if◌then◌else◌, Option, none,
  some, List, [], ◌∷◌, length, drop,
}
use quickjs_runtime.Cutils.DynBuf.Memory.{copy_into}

-- The characters before the terminator, of a block that holds a string.
unfoldable pub c_string : List ℕ → List ℕ
c_string [] = []
c_string (c ∷ cs) = let rest = c_string cs in if c == 0 then [] else (c ∷ rest)

abbrev pub strlen : List ℕ → ℕ
strlen buf = length (c_string buf)

-- The characters that the loop of `pstrcpy` stores, with room for `room` of them, and the
-- terminator. A string that is only read is the list of its characters.
unfoldable pub copy_loop : ℕ → List ℕ → List ℕ
copy_loop zero str = 0 ∷ []
copy_loop (suc room) [] = 0 ∷ []
copy_loop (suc room) (c ∷ str) = c ∷ copy_loop room str

-- The copy goes to an offset of a block; `none` is a write outside it. A size below 0 is the
-- size 0.
unfoldable pub pstrcpy : List ℕ → ℕ → ℕ → List ℕ → Option (List ℕ)
pstrcpy buf offset zero str = some buf
pstrcpy buf offset (suc room) str = copy_into buf offset (copy_loop room str)

unfoldable pub pstrcat : List ℕ → ℕ → List ℕ → Option (List ℕ)
pstrcat buf buf_size s =
    if ltb (strlen buf) buf_size
    then pstrcpy buf (strlen buf) (buf_size - strlen buf) s
    else some buf

-- The rest of `str` behind `val`, which is stored through `ptr`; `none` is the result 0.
unfoldable pub strstart : List ℕ → List ℕ → Option (List ℕ)
strstart str [] = some str
strstart [] (q ∷ val) = none
strstart (p ∷ str) (q ∷ val) = let rest = strstart str val in if p == q then rest else none

-- `memcmp` of two strings of one length, as a test for equality.
unfoldable pub same_bytes : List ℕ → List ℕ → Bool
same_bytes [] [] = true
same_bytes (x ∷ xs) (y ∷ ys) = let rest = same_bytes xs ys in (x == y) && rest
same_bytes [] (y ∷ ys) = false
same_bytes (x ∷ xs) [] = false

unfoldable pub has_suffix : List ℕ → List ℕ → Bool
has_suffix str suffix =
    leb (length suffix) (length str) && same_bytes (drop (length str - length suffix) str) suffix
