-- ===== src/Cutils/LinkedList/Insert.antt =====
-- `list_add` and `list_add_tail` of native/quickjs/list.h.
use quickjs_runtime.Prelude.{ℕ, false, ◌==◌, ◌≡◌, ◌∙◌, List, [], ◌∷◌, ◌++◌, sym, subst}
use quickjs_runtime.Cutils.LinkedList.{
  Heap, list_add_between, set_prev, set_next, list_add, list_add_tail,
}
use quickjs_runtime.Cutils.LinkedList.Ring.{
  Apart, Distinct, Linked, IsRing, last_of, prev-last_of, next-first_of, first_of, apart_sym,
  written, kept,
}

pub Apart-append : (x y : ℕ) (xs : List ℕ) → Apart x xs → (x == y) ≡ false → Apart x (xs ++ y ∷ [])
Apart-append x y [] a e = (e, tt)
Apart-append x y (z ∷ xs) a e = (a.0, Apart-append x y xs a.1 e)

Distinct-append : (y : ℕ) (xs : List ℕ) → Distinct xs → Apart y xs → Distinct (xs ++ y ∷ [])
Distinct-append y [] d a = (tt, tt)
Distinct-append y (x ∷ xs) d a =
    (Apart-append x y xs d.0 (apart_sym y x a.0), Distinct-append y xs d.1 a.1)

pub unmet-last_of :
    (x a : ℕ) (xs : List ℕ) → (x == a) ≡ false → Apart x xs → (x == last_of a xs) ≡ false
unmet-last_of x a [] e d = e
unmet-last_of x a (y ∷ xs) e d = unmet-last_of x y xs d.0 d.1

-- The words after an insertion.
module _ (h : Heap) (el before after : ℕ) (apart : (el == before) ≡ false)
    (apart' : (el == after) ≡ false) where
  next-before : (list_add_between el before after h).next before ≡ el
  unfolding list_add_between set_prev set_next
  next-before = kept _ el after before (apart_sym el before apart) ∙ written h.next before el

  prev-after : (list_add_between el before after h).prev after ≡ el
  unfolding list_add_between set_prev set_next
  prev-after = written _ after el

  next-el : (list_add_between el before after h).next el ≡ after
  unfolding list_add_between set_prev set_next
  next-el = written _ el after

  prev-el : (list_add_between el before after h).prev el ≡ before
  unfolding list_add_between set_prev set_next
  prev-el = kept _ after el el apart' ∙ written h.prev el before

  next-other :
      (x : ℕ)
      → (x == before) ≡ false
      → (x == el) ≡ false
      → (list_add_between el before after h).next x ≡ h.next x
  unfolding list_add_between set_prev set_next
  next-other x e f = kept _ el after x f ∙ kept _ before el x e

  prev-other :
      (x : ℕ)
      → (x == after) ≡ false
      → (x == el) ≡ false
      → (list_add_between el before after h).prev x ≡ h.prev x
  unfolding list_add_between set_prev set_next
  prev-other x e f = kept _ after el x e ∙ kept _ el before x f

  Linked-frame :
      (a b : ℕ) (xs : List ℕ)
      → Apart before (a ∷ xs)
      → Apart after (xs ++ b ∷ [])
      → Apart el (a ∷ xs)
      → (el == b) ≡ false
      → Linked h a xs b
      → Linked (list_add_between el before after h) a xs b
  Linked-frame a b [] p q e f l = (
    next-other a (apart_sym before a p.0) (apart_sym el a e.0) ∙ l.0,
    prev-other b (apart_sym after b q.0) (apart_sym el b f) ∙ l.1,
  )
  Linked-frame a b (x ∷ xs) p q e f l = (
    next-other a (apart_sym before a p.0) (apart_sym el a e.0) ∙ l.0,
    prev-other x (apart_sym after x q.0) (apart_sym el x e.1.0) ∙ l.1,
    Linked-frame x b xs p.1 q.1 e.1 f l.2,
  )

Linked-snoc :
    (h : Heap) (el a b : ℕ) (xs : List ℕ)
    → Linked h a xs b
    → Distinct (a ∷ xs)
    → Apart b xs
    → Apart el (a ∷ xs)
    → (el == b) ≡ false
    → Linked (list_add_between el (last_of a xs) b h) a (xs ++ el ∷ []) b
Linked-snoc h el a b [] l d p e f = (
  next-before h el a b e.0 f,
  prev-el h el a b e.0 f,
  (next-el h el a b e.0 f, prev-after h el a b e.0 f),
)
Linked-snoc h el a b (x ∷ xs) l d p e f =
    let last = last_of x xs in
    let g = unmet-last_of el x xs e.1.0 e.1.1 in
    (
      next-other h el last b g f a (unmet-last_of a x xs d.0.0 d.0.1) (apart_sym el a e.0) ∙ l.0,
      prev-other h el last b g f x (apart_sym b x p.0) (apart_sym el x e.1.0) ∙ l.1,
      Linked-snoc h el x b xs l.2 d.1 p.1 e.1 f,
    )

-- A new element at the tail comes after all the others.
pub list_add_tail-IsRing :
    (h : Heap) (head el : ℕ) (xs : List ℕ)
    → IsRing h head xs
    → Apart el (head ∷ xs)
    → IsRing (list_add_tail el head h) head (xs ++ el ∷ [])
unfolding list_add_tail
list_add_tail-IsRing h head el xs r e = record {
  linked =
      subst (λ p. Linked (list_add_between el p head h) head (xs ++ el ∷ []) head)
        (sym (prev-last_of h head head xs r.linked))
        (Linked-snoc h el head head xs r.linked (r.apart, r.distinct) r.apart e e.0);
  apart = Apart-append head el xs r.apart (apart_sym el head e.0);
  distinct = Distinct-append el xs r.distinct e.1;
}

Linked-cons :
    (h : Heap) (head el : ℕ) (xs : List ℕ)
    → IsRing h head xs
    → Apart el (head ∷ xs)
    → Linked (list_add_between el head (first_of xs head) h) head (el ∷ xs) head
Linked-cons h head el [] r e = Linked-snoc h el head head [] r.linked (tt, tt) tt e e.0
Linked-cons h head el (x ∷ xs) r e = (
  next-before h el head x e.0 e.1.0,
  prev-el h el head x e.0 e.1.0,
  (
    next-el h el head x e.0 e.1.0,
    prev-after h el head x e.0 e.1.0,
    Linked-frame h el head x e.0 e.1.0 x head xs r.apart
        (Apart-append x head xs r.distinct.0 (apart_sym head x r.apart.0)) e.1 e.0 r.linked.2,
  ),
)

-- A new element at the head comes before all the others.
pub list_add-IsRing :
    (h : Heap) (head el : ℕ) (xs : List ℕ)
    → IsRing h head xs
    → Apart el (head ∷ xs)
    → IsRing (list_add el head h) head (el ∷ xs)
unfolding list_add
list_add-IsRing h head el xs r e = record {
  linked =
      subst (λ n. Linked (list_add_between el head n h) head (el ∷ xs) head)
        (sym (next-first_of h head head xs r.linked)) (Linked-cons h head el xs r e);
  apart = (apart_sym el head e.0, r.apart);
  distinct = (e.1, r.distinct);
}
