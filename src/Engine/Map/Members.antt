-- ===== src/Engine/Map/Members.antt =====
-- Membership in the lists of records of a map.
use quickjs_runtime.Prelude.{
  ℕ, ◌≡◌, refl, sym, ◌∙◌, ◌⊎◌, inl, inr, Bool, true, false, not, ◌&&◌, ◌||◌, ◌==◌, List, [], ◌∷◌,
  ◌++◌, arith, Bool-cases, ==_iff,
}
use quickjs_runtime.Engine.Map.{unlink}

unfoldable pub has : ℕ → List ℕ → Bool
has r [] = false
has r (x ∷ xs) = r == x || has r xs

-- No record twice.
unfoldable pub IsUnique : List ℕ → Type 0
IsUnique [] = Unit
IsUnique (x ∷ xs) = (has x xs ≡ false) × IsUnique xs

pub ==-cases : (a b : ℕ) → (((a == b) ≡ true) × (a ≡ b)) ⊎ ((a == b) ≡ false)
==-cases a b = elim (Bool-cases (a == b)) [ inl e ↦ inl (e, (==_iff a b).0 e) | inr e ↦ inr e ]

pub ==_refl : (a : ℕ) → (a == a) ≡ true
==_refl a = ground arith

pub ==_sym : (a b : ℕ) → (a == b) ≡ false → (b == a) ≡ false
==_sym a b h = ground arith

pub or_false : (a b : Bool) → (a || b) ≡ false → (a ≡ false) × (b ≡ false)
or_false true b h = absurd (ground arith)
or_false false b h = (refl, h)

pub or_right : (a b : Bool) → b ≡ true → (a || b) ≡ true
or_right true b h = refl
or_right false b h = h

pub or_left_false : (a b : Bool) → a ≡ false → (a || b) ≡ true → b ≡ true
or_left_false true b h k = absurd (ground arith)
or_left_false false b h k = k

pub and_true : (a b : Bool) → (a && b) ≡ true → (a ≡ true) × (b ≡ true)
and_true true b h = (refl, h)
and_true false b h = absurd (ground arith)

pub or_false_right : (b : Bool) → (b || false) ≡ b
or_false_right true = refl
or_false_right false = refl

pub and_false_right : (b : Bool) → (b && false) ≡ false
and_false_right true = refl
and_false_right false = refl

pub and_true_right : (b : Bool) → (b && true) ≡ b
and_true_right true = refl
and_true_right false = refl

pub or_right_false : (a b : Bool) → b ≡ false → (a || b) ≡ true → a ≡ true
or_right_false true b h k = refl
or_right_false false b h k = sym h ∙ k

pub has-append : (r : ℕ) (xs : List ℕ) (x : ℕ) → has r (xs ++ x ∷ []) ≡ (has r xs || r == x)
unfolding has
has-append r [] x = elim (Bool-cases (r == x)) [ inl e ↦ rw e refl | inr e ↦ rw e refl ]
has-append r (y ∷ xs) x = elim (Bool-cases (r == y)) [
  | inl e ↦ rw e refl
  | inr e ↦ rw e (has-append r xs x)
]

pub has-unlink : (r x : ℕ) (xs : List ℕ) → has r (unlink x xs) ≡ (has r xs && not (r == x))
unfolding has unlink
has-unlink r x [] = refl
has-unlink r x (y ∷ xs) = elim (==-cases x y) [
  | inl (e, here) ↦ elim (==-cases r y) [
    | inl (f, there) ↦ rw (e, f) (has-unlink r x xs ∙ ground (arith, here, there))
    | inr f ↦ rw (e, f) (has-unlink r x xs)
  ]
  | inr e ↦ elim (==-cases r y) [
    | inl (f, there) ↦ rw (e, f) (ground (arith, e, there))
    | inr f ↦ rw (e, f) (has-unlink r x xs)
  ]
]

pub IsUnique-append :
    (xs : List ℕ) (x : ℕ) → IsUnique xs → has x xs ≡ false → IsUnique (xs ++ x ∷ [])
unfolding has IsUnique
IsUnique-append [] x u h = (refl, tt)
IsUnique-append (y ∷ xs) x (here, u) h =
    let apart = or_false (x == y) (has x xs) h in
    (has-append y xs x ∙ rw here (ground (arith, apart.0)), IsUnique-append xs x u apart.1)

pub IsUnique-unlink : (x : ℕ) (xs : List ℕ) → IsUnique xs → IsUnique (unlink x xs)
unfolding has IsUnique unlink
IsUnique-unlink x [] u = tt
IsUnique-unlink x (y ∷ xs) (here, u) = elim (==-cases x y) [
  | inl (e, same) ↦ rw e (IsUnique-unlink x xs u)
  | inr e ↦ rw e (has-unlink y x xs ∙ rw here refl, IsUnique-unlink x xs u)
]
