-- ===== src/Cutils/LinkedList/Ring.antt =====
-- The list of addresses that a circular list of native/quickjs/list.h holds.
use quickjs_runtime.Prelude.{ℕ, true, false, ◌==◌, ◌≡◌, refl, ap, ◌∙◌, List, [], ◌∷◌, arith, ==_iff}
use quickjs_runtime.Cutils.LinkedList.{
  Heap, write_word, init_list_head, list_empty, set_prev, set_next,
}

-- An address that is none of a list.
abbrev pub Apart : ℕ → List ℕ → Type 0
Apart x [] = Unit
Apart x (y ∷ ys) = ((x == y) ≡ false) × Apart x ys

abbrev pub Distinct : List ℕ → Type 0
Distinct [] = Unit
Distinct (x ∷ xs) = Apart x xs × Distinct xs

-- From `a` by the addresses `xs` to `b`, the links going both ways.
abbrev pub Linked : Heap → ℕ → List ℕ → ℕ → Type 0
Linked h a [] b = (h.next a ≡ b) × (h.prev b ≡ a)
Linked h a (x ∷ xs) b = (h.next a ≡ x) × (h.prev x ≡ a) × Linked h x xs b

pub record IsRing (h : Heap) (head : ℕ) (xs : List ℕ) : Type 0 where
  pub linked : Linked h head xs head
  pub apart : Apart head xs
  pub distinct : Distinct xs

abbrev pub last_of : ℕ → List ℕ → ℕ
last_of a [] = a
last_of a (x ∷ xs) = last_of x xs

abbrev pub first_of : List ℕ → ℕ → ℕ
first_of [] b = b
first_of (x ∷ xs) b = x

pub prev-last_of : (h : Heap) (a b : ℕ) (xs : List ℕ) → Linked h a xs b → h.prev b ≡ last_of a xs
prev-last_of h a b [] l = l.1
prev-last_of h a b (x ∷ xs) l = prev-last_of h x b xs l.2

pub next-first_of : (h : Heap) (a b : ℕ) (xs : List ℕ) → Linked h a xs b → h.next a ≡ first_of xs b
next-first_of h a b [] l = l.0
next-first_of h a b (x ∷ xs) l = l.0

pub apart_sym : (x y : ℕ) → (x == y) ≡ false → (y == x) ≡ false
apart_sym x y h = ground arith

pub written : (words : ℕ → ℕ) (at v : ℕ) → write_word words at v at ≡ v
unfolding write_word
written words at v = let e = (==_iff at at).1 refl in rw e refl

pub kept : (words : ℕ → ℕ) (at v x : ℕ) → (x == at) ≡ false → write_word words at v x ≡ words x
unfolding write_word
kept words at v x e = rw e refl

pub init_list_head-IsRing : (h : Heap) (head : ℕ) → IsRing (init_list_head head h) head []
unfolding init_list_head set_prev set_next
init_list_head-IsRing h head = record {
  linked = (written h.next head head, written h.prev head head);
  apart = tt;
  distinct = tt;
}

-- The test for the empty list is exact.
pub list_empty_lem :
    (h : Heap) (head : ℕ) (xs : List ℕ)
    → IsRing h head xs
    → list_empty head h ≡ (elim xs [ [] ↦ true | x ∷ xs ↦ false ])
unfolding list_empty
list_empty_lem h head [] r = (==_iff _ _).1 r.linked.0
list_empty_lem h head (x ∷ xs) r = ap (λ k. k == head) r.linked.0 ∙ apart_sym head x r.apart.0
