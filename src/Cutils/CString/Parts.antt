-- ===== src/Cutils/CString/Parts.antt =====
-- `strstart` and `has_suffix` of native/quickjs/cutils.c test for the parts of a string.
use quickjs_runtime.Prelude.{
  ℕ, zero, suc, ◌-◌, ◌≡◌, refl, sym, ap, ap₂, ◌∙◌, ◌↔◌, true, leb, ◌==◌, Bool-cases, inl, inr, none,
  some, List, [], ◌∷◌, ◌++◌, length, take, drop, arith, ==_iff, length-append,
}
use quickjs_runtime.Cutils.CString.{strstart, same_bytes, has_suffix}

strstart-append : (val rest : List ℕ) → strstart (val ++ rest) val ≡ some rest
unfolding strstart
strstart-append [] rest = refl
strstart-append (q ∷ val) rest =
    let e = (==_iff q q).1 refl in rw (e, strstart-append val rest) refl

from_some : (xs ys : List ℕ) → some xs ≡ some ys → xs ≡ ys
from_some xs ys h = ap (λ o. elim o [ none ↦ xs | some zs ↦ zs ]) h

strstart-found : (str val rest : List ℕ) → strstart str val ≡ some rest → str ≡ val ++ rest
unfolding strstart
strstart-found str [] rest h = from_some str rest h
strstart-found [] (q ∷ val) rest h = ground arith
strstart-found (p ∷ str) (q ∷ val) rest h = elim (Bool-cases (p == q)) [
  | inl same ↦
      let inner : strstart str val ≡ some rest = ground arith in
      ap₂ (λ x xs. x ∷ xs) ((==_iff p q).0 same) (strstart-found str val rest inner)
  | inr other ↦ ground arith
]

-- The test says yes exactly when the string is the other one with something behind it, and then
-- that is what it stores.
pub strstart_iff : (str val rest : List ℕ) → (strstart str val ≡ some rest) ↔ (str ≡ val ++ rest)
strstart_iff str val rest =
    (strstart-found str val rest, λ e. ap (λ s. strstart s val) e ∙ strstart-append val rest)

same_bytes_refl : (xs : List ℕ) → same_bytes xs xs ≡ true
unfolding same_bytes
same_bytes_refl [] = refl
same_bytes_refl (x ∷ xs) = let e = (==_iff x x).1 refl in rw (e, same_bytes_refl xs) refl

same_bytes-found : (xs ys : List ℕ) → same_bytes xs ys ≡ true → xs ≡ ys
unfolding same_bytes
same_bytes-found [] [] h = refl
same_bytes-found [] (y ∷ ys) h = ground arith
same_bytes-found (x ∷ xs) [] h = ground arith
same_bytes-found (x ∷ xs) (y ∷ ys) h = elim (Bool-cases (x == y)) [
  | inl same ↦
      let inner : same_bytes xs ys ≡ true = ground arith in
      ap₂ (λ z zs. z ∷ zs) ((==_iff x y).0 same) (same_bytes-found xs ys inner)
  | inr other ↦ ground arith
]

drop-append : (xs ys : List ℕ) → drop (length xs) (xs ++ ys) ≡ ys
drop-append [] ys = refl
drop-append (x ∷ xs) ys = drop-append xs ys

take-drop : (n : ℕ) (xs : List ℕ) → take n xs ++ drop n xs ≡ xs
take-drop zero xs = refl
take-drop (suc n) [] = refl
take-drop (suc n) (x ∷ xs) = ap (λ ys. x ∷ ys) (take-drop n xs)

has_suffix-append : (start suffix : List ℕ) → has_suffix (start ++ suffix) suffix ≡ true
unfolding has_suffix
has_suffix-append start suffix =
    let size = length-append start suffix in
    let e : length (start ++ suffix) - length suffix ≡ length start = omega arith in
    let fits : leb (length suffix) (length (start ++ suffix)) ≡ true = ground arith in
    rw (fits, e, drop-append start suffix) (same_bytes_refl suffix)

-- The test says yes exactly for a string that ends in the suffix.
pub has_suffix_iff :
    (str suffix : List ℕ)
    → (has_suffix str suffix ≡ true) ↔ ((start : List ℕ) × (str ≡ start ++ suffix))
unfolding has_suffix
has_suffix_iff str suffix = (
  (λ h.
      let inner : same_bytes (drop (length str - length suffix) str) suffix ≡ true = ground arith in
      (
        take (length str - length suffix) str,
        sym (take-drop (length str - length suffix) str)
            ∙ ap (λ xs. take (length str - length suffix) str ++ xs)
                (same_bytes-found _ suffix inner),
      )),
  (λ p. ap (λ s. has_suffix s suffix) p.1 ∙ has_suffix-append p.0 suffix),
)
