-- ===== src/Cutils/CString/Copy.antt =====
-- `pstrcpy` and `pstrcat` of native/quickjs/cutils.c truncate and stay inside the buffer.
use quickjs_runtime.Prelude.{
  ℕ, zero, suc, ◌+◌, ◌-◌, ◌≤◌, ◌<◌, ◌≡◌, refl, sym, ap, subst, ◌∙◌, false, ◌==◌, Bool-cases, inl,
  inr, Option, some, List, [], ◌∷◌, ◌++◌, length, take, drop, arith, length-append, length-take,
  length-drop, lt→ltb,
}
use quickjs_runtime.Cutils.DynBuf.Memory.{copy_into}
use quickjs_runtime.Cutils.CString.{c_string, strlen, copy_loop, pstrcpy, pstrcat}

abbrev pub NoNul : List ℕ → Type 0
NoNul [] = Unit
NoNul (c ∷ cs) = ((c == 0) ≡ false) × NoNul cs

c_string-NoNul : (buf : List ℕ) → NoNul (c_string buf)
unfolding c_string
c_string-NoNul [] = tt
c_string-NoNul (c ∷ cs) = elim (Bool-cases (c == 0)) [
  | inl e ↦ rw e tt
  | inr e ↦ rw e (e, c_string-NoNul cs)
]

take-c_string : (buf : List ℕ) → take (length (c_string buf)) buf ≡ c_string buf
unfolding c_string
take-c_string [] = refl
take-c_string (c ∷ cs) = elim (Bool-cases (c == 0)) [
  | inl e ↦ rw e refl
  | inr e ↦ rw e (ap (λ xs. c ∷ xs) (take-c_string cs))
]

c_string-append : (xs ys : List ℕ) → NoNul xs → c_string (xs ++ ys) ≡ xs ++ c_string ys
unfolding c_string
c_string-append [] ys n = refl
c_string-append (x ∷ xs) ys n = rw n.0 (ap (λ zs. x ∷ zs) (c_string-append xs ys n.1))

c_string-copy_loop :
    (room : ℕ) (str rest : List ℕ)
    → NoNul str
    → c_string (copy_loop room str ++ rest) ≡ take room str
unfolding c_string copy_loop
c_string-copy_loop zero str rest n = refl
c_string-copy_loop (suc room) [] rest n = refl
c_string-copy_loop (suc room) (c ∷ str) rest n =
    rw n.0 (ap (λ xs. c ∷ xs) (c_string-copy_loop room str rest n.1))

length-copy_loop : (room : ℕ) (str : List ℕ) → length (copy_loop room str) ≤ room + 1
unfolding copy_loop
length-copy_loop zero str = omega arith
length-copy_loop (suc room) [] = omega arith
length-copy_loop (suc room) (c ∷ str) = let h = length-copy_loop room str in omega arith

-- The buffer has kept its length and holds the string.
pub record IsString (buf : List ℕ) (text : List ℕ) (r : Option (List ℕ)) : Type 0 where
  pub buf' : List ℕ
  pub returned : r ≡ some buf'
  pub same_length : length buf' ≡ length buf
  pub holds : c_string buf' ≡ text

copy_into-IsString :
    (buf : List ℕ) (offset room : ℕ) (str : List ℕ)
    → NoNul str
    → NoNul (take offset buf)
    → offset + room + 1 ≤ length buf
    → IsString buf (take offset buf ++ take room str) (copy_into buf offset (copy_loop room str))
unfolding copy_into
copy_into-IsString buf offset room str n n' inside =
    let written = copy_loop room str in
    let size = length-copy_loop room str in
    let a = take offset buf in
    let b = drop (offset + length written) buf in
    record {
      buf' = a ++ (written ++ b);
      returned = ground arith;
      same_length = omega (
        arith,
        length-append a (written ++ b),
        length-append written b,
        length-take offset buf,
        length-drop (offset + length written) buf,
      );
      holds =
          c_string-append a (written ++ b) n'
          ∙ ap (λ xs. a ++ xs) (c_string-copy_loop room str b n);
    }

-- A copy into a buffer of at least the size given, and of at least one byte, stays inside it and
-- leaves as much of the string as there is room for, with its terminator.
pub pstrcpy-IsString :
    (buf : List ℕ) (room : ℕ) (str : List ℕ)
    → NoNul str
    → suc room ≤ length buf
    → IsString buf (take room str) (pstrcpy buf 0 (suc room) str)
unfolding pstrcpy
pstrcpy-IsString buf room str n inside = copy_into-IsString buf 0 room str n tt (omega arith)

-- A string is appended to that of a buffer of at least the size given: what both come to is cut
-- off where the size ends, where the string was shorter than the size before.
pub pstrcat-IsString :
    (buf : List ℕ) (buf_size : ℕ) (s : List ℕ)
    → NoNul s
    → buf_size ≤ length buf
    → strlen buf < buf_size
    → IsString buf (c_string buf ++ take (buf_size - strlen buf - 1) s) (pstrcat buf buf_size s)
unfolding pstrcat
pstrcat-IsString buf buf_size s n inside fits =
    let room = buf_size - strlen buf - 1 in
    let e : suc room ≡ buf_size - strlen buf = omega arith in
    rw (lt→ltb (strlen buf) buf_size fits) (
      subst (λ k. IsString buf (c_string buf ++ take room s) (pstrcpy buf (strlen buf) k s)) e
        (unfold pstrcpy in
          subst
            (λ cs. IsString buf (cs ++ take room s) (copy_into buf (strlen buf) (copy_loop room s)))
            (take-c_string buf)
            (copy_into-IsString buf (strlen buf) room s n
              (subst NoNul (sym (take-c_string buf)) (c_string-NoNul buf)) (omega arith))))
