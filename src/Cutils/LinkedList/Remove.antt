-- ===== src/Cutils/LinkedList/Remove.antt =====
-- `list_del` of native/quickjs/list.h.
use quickjs_runtime.Prelude.{ℕ, false, ◌==◌, ◌≡◌, ◌∙◌, List, [], ◌∷◌, ◌++◌, sym, subst}
use quickjs_runtime.Cutils.LinkedList.{Heap, null, unlink, set_prev, set_next, list_del}
use quickjs_runtime.Cutils.LinkedList.Ring.{
  Apart, Distinct, Linked, IsRing, last_of, next-first_of, first_of, apart_sym, written, kept,
}
use quickjs_runtime.Cutils.LinkedList.Insert.{Apart-append, unmet-last_of}

Apart-part : (x y : ℕ) (xs ys : List ℕ) → Apart x (xs ++ y ∷ ys) → Apart x (xs ++ ys)
Apart-part x y [] ys a = a.1
Apart-part x y (z ∷ xs) ys a = (a.0, Apart-part x y xs ys a.1)

Apart-left : (x : ℕ) (xs ys : List ℕ) → Apart x (xs ++ ys) → Apart x xs
Apart-left x [] ys a = tt
Apart-left x (z ∷ xs) ys a = (a.0, Apart-left x xs ys a.1)

Apart-right : (x : ℕ) (xs ys : List ℕ) → Apart x (xs ++ ys) → Apart x ys
Apart-right x [] ys a = a
Apart-right x (z ∷ xs) ys a = Apart-right x xs ys a.1

Distinct-part : (y : ℕ) (xs ys : List ℕ) → Distinct (xs ++ y ∷ ys) → Distinct (xs ++ ys)
Distinct-part y [] ys d = d.1
Distinct-part y (x ∷ xs) ys d = (Apart-part x y xs ys d.0, Distinct-part y xs ys d.1)

-- The two links of an element in the middle.
links :
    (h : Heap) (el a b : ℕ) (xs ys : List ℕ)
    → Linked h a (xs ++ el ∷ ys) b
    → (h.prev el ≡ last_of a xs) × (h.next el ≡ first_of ys b) × Linked h el ys b
links h el a b [] ys l = (l.1, next-first_of h el b ys l.2, l.2)
links h el a b (x ∷ xs) ys l = links h el x b xs ys l.2

-- The words after a removal.
module _ (h : Heap) (el before after : ℕ) (apart : (el == before) ≡ false)
    (apart' : (el == after) ≡ false) where
  next-before : (unlink el before after h).next before ≡ after
  unfolding unlink set_prev set_next
  next-before = kept _ el null before (apart_sym el before apart) ∙ written h.next before after

  prev-after : (unlink el before after h).prev after ≡ before
  unfolding unlink set_prev set_next
  prev-after = kept _ el null after (apart_sym el after apart') ∙ written h.prev after before

  next-other :
      (x : ℕ)
      → (x == before) ≡ false
      → (x == el) ≡ false
      → (unlink el before after h).next x ≡ h.next x
  unfolding unlink set_prev set_next
  next-other x e f = kept _ el null x f ∙ kept _ before after x e

  prev-other :
      (x : ℕ)
      → (x == after) ≡ false
      → (x == el) ≡ false
      → (unlink el before after h).prev x ≡ h.prev x
  unfolding unlink set_prev set_next
  prev-other x e f = kept _ el null x f ∙ kept _ after before x e

  Linked-frame :
      (a b : ℕ) (xs : List ℕ)
      → Apart before (a ∷ xs)
      → Apart after (xs ++ b ∷ [])
      → Apart el (a ∷ xs)
      → (el == b) ≡ false
      → Linked h a xs b
      → Linked (unlink el before after h) a xs b
  Linked-frame a b [] p q e f l = (
    next-other a (apart_sym before a p.0) (apart_sym el a e.0) ∙ l.0,
    prev-other b (apart_sym after b q.0) (apart_sym el b f) ∙ l.1,
  )
  Linked-frame a b (x ∷ xs) p q e f l = (
    next-other a (apart_sym before a p.0) (apart_sym el a e.0) ∙ l.0,
    prev-other x (apart_sym after x q.0) (apart_sym el x e.1.0) ∙ l.1,
    Linked-frame x b xs p.1 q.1 e.1 f l.2,
  )

-- The element is the first one.
Linked-tail :
    (h : Heap) (el a b : ℕ) (ys : List ℕ)
    → Linked h el ys b
    → Apart a (el ∷ ys)
    → Distinct (el ∷ ys)
    → Apart b (el ∷ ys)
    → Linked (unlink el a (first_of ys b) h) a ys b
Linked-tail h el a b [] l d e p =
    let f = apart_sym a el d.0 in
    let g = apart_sym b el p.0 in (next-before h el a b f g, prev-after h el a b f g)
Linked-tail h el a b (y ∷ ys) l d e p =
    let f = apart_sym a el d.0 in
    let g = e.0.0 in
    (
      next-before h el a y f g,
      prev-after h el a y f g,
      Linked-frame h el a y f g y b ys d.1 (Apart-append y b ys e.1.0 (apart_sym b y p.1.0)) e.0
          (apart_sym b el p.0) l.2,
    )

Distinct-right : (us vs : List ℕ) → Distinct (us ++ vs) → Distinct vs
Distinct-right [] vs d = d
Distinct-right (u ∷ us) vs d = Distinct-right us vs d.1

unmet-first_of :
    (x b : ℕ) (ys : List ℕ) → (x == b) ≡ false → Apart x ys → (x == first_of ys b) ≡ false
unmet-first_of x b [] e a = e
unmet-first_of x b (y ∷ ys) e a = a.0

last_of_unmet :
    (el a : ℕ) (xs ys : List ℕ) → Distinct (a ∷ (xs ++ el ∷ ys)) → (el == last_of a xs) ≡ false
last_of_unmet el a [] ys d = apart_sym a el d.0.0
last_of_unmet el a (x ∷ xs) ys d = last_of_unmet el x xs ys d.1

Linked-part :
    (h : Heap) (el a b : ℕ) (xs ys : List ℕ)
    → Linked h a (xs ++ el ∷ ys) b
    → Distinct (a ∷ (xs ++ el ∷ ys))
    → Apart b (xs ++ el ∷ ys)
    → Linked (unlink el (last_of a xs) (first_of ys b) h) a (xs ++ ys) b
Linked-part h el a b [] ys l d p = Linked-tail h el a b ys l.2 d.0 d.1 p
Linked-part h el a b (x ∷ xs) ys l d p =
    let e = last_of_unmet el x xs ys d.1 in
    let f = apart_sym b el (Apart-right b (x ∷ xs) (el ∷ ys) p).0 in
    let g = unmet-first_of el b ys f (Distinct-right (x ∷ xs) (el ∷ ys) d.1).0 in
    let q = Apart-left a (x ∷ xs) (el ∷ ys) d.0 in
    let from_x = Apart-right x xs (el ∷ ys) d.1.0 in
    (
      next-other h el (last_of x xs) (first_of ys b) e g a (unmet-last_of a x xs q.0 q.1)
            (Apart-right a (x ∷ xs) (el ∷ ys) d.0).0
          ∙ l.0,
      prev-other h el (last_of x xs) (first_of ys b) e g x
            (unmet-first_of x b ys (apart_sym b x p.0) from_x.1) from_x.0
          ∙ l.1,
      Linked-part h el x b xs ys l.2 d.1 p.1,
    )

-- An element anywhere in a list is taken out of it: the others stay in their order.
pub list_del-IsRing :
    (h : Heap) (head el : ℕ) (xs ys : List ℕ)
    → IsRing h head (xs ++ el ∷ ys)
    → IsRing (list_del el h) head (xs ++ ys)
unfolding list_del
list_del-IsRing h head el xs ys r =
    let around = links h el head head xs ys r.linked in
    record {
      linked =
          subst (λ p. Linked (unlink el p (h.next el) h) head (xs ++ ys) head) (sym around.0)
            (subst (λ n. Linked (unlink el (last_of head xs) n h) head (xs ++ ys) head)
              (sym around.1)
              (Linked-part h el head head xs ys r.linked (r.apart, r.distinct) r.apart));
      apart = Apart-part head el xs ys r.apart;
      distinct = Distinct-part el xs ys r.distinct;
    }
