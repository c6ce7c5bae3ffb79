-- ===== src/Engine/Map/Links.antt =====
-- The records behind a record of a map, and the first one of them that is not empty.
use quickjs_runtime.Prelude.{
  ℕ, ◌≡◌, refl, inl, inr, true, false, ◌==◌, if◌then◌else◌, none, some, List, [], ◌∷◌, Bool-cases,
  arith, subst,
}
use quickjs_runtime.Engine.Map.{MapRecord, unlink, next_links, first_full}
use quickjs_runtime.Engine.Map.Members.{has, IsUnique, ==-cases, ==_refl, or_right}
use quickjs_runtime.Engine.Map.Entries.{entries, some-none, some_injective}
use quickjs_runtime.Engine.Map.Found.{not_both}
use quickjs_runtime.Engine.Map.Delete.{unlink-absent}

pub has-next_links : (y r : ℕ) (xs : List ℕ) → has y (next_links r xs) ≡ true → has y xs ≡ true
unfolding has next_links
has-next_links y r [] h = h
has-next_links y r (x ∷ xs) h = elim (Bool-cases (r == x)) [
  | inl e ↦
      or_right (y == x) (has y xs)
        (subst (λ b. has y (if b then xs else next_links r xs) ≡ true) e h)
  | inr e ↦
      or_right (y == x) (has y xs)
        (has-next_links y r xs (subst (λ b. has y (if b then xs else next_links r xs) ≡ true) e h))
]

-- A record of the rest of a list is not its head.
away_from_head : (y x : ℕ) (xs : List ℕ) → has x xs ≡ false → has y xs ≡ true → (y == x) ≡ false
away_from_head y x xs once h = elim (==-cases y x) [
  | inr away ↦ away
  | inl (e, at) ↦ absurd (not_both (has y xs) h (rw at once))
]

-- The records behind one that is behind `r`.
pub next_links-later :
    (y r : ℕ) (xs : List ℕ)
    → IsUnique xs
    → has y (next_links r xs) ≡ true
    → next_links y xs ≡ next_links y (next_links r xs)
unfolding next_links IsUnique has
next_links-later y r [] u h = refl
next_links-later y r (x ∷ xs) (once, u) h = elim (Bool-cases (r == x)) [
  | inl e ↦
      let h' = subst (λ b. has y (if b then xs else next_links r xs) ≡ true) e h in
      rw (e, away_from_head y x xs once h') refl
  | inr e ↦
      let h' = subst (λ b. has y (if b then xs else next_links r xs) ≡ true) e h in
      rw (e, away_from_head y x xs once (has-next_links y r xs h')) (next_links-later y r xs u h')
]

pub next_links-unlink :
    (y r : ℕ) (xs : List ℕ)
    → IsUnique xs
    → has y (next_links r xs) ≡ true
    → next_links y (unlink r xs) ≡ next_links y xs
unfolding next_links unlink IsUnique has
next_links-unlink y r [] u h = refl
next_links-unlink y r (x ∷ xs) (once, u) h = elim (==-cases r x) [
  | inl (e, at) ↦
      let h' = subst (λ b. has y (if b then xs else next_links r xs) ≡ true) e h in
      let once' : has r xs ≡ false = rw at once in
      rw (e, away_from_head y x xs once h', unlink-absent r xs once') refl
  | inr e ↦
      let h' = subst (λ b. has y (if b then xs else next_links r xs) ≡ true) e h in
      rw (e, away_from_head y x xs once (has-next_links y r xs h')) (next_links-unlink y r xs u h')
]

module _ {K V : Type 0} (record_at : ℕ → MapRecord K V) where
  pub entries-unlink_empty :
      (r : ℕ) (rs : List ℕ)
      → (record_at r).empty ≡ true
      → entries record_at (unlink r rs) ≡ entries record_at rs
  unfolding entries unlink
  entries-unlink_empty r [] gone = refl
  entries-unlink_empty r (x ∷ rs) gone = elim (==-cases r x) [
    | inl (e, at) ↦ rw (e, ← at, gone) (entries-unlink_empty r rs gone)
    | inr away ↦ rw (away, entries-unlink_empty r rs gone) refl
  ]

  pub first_full-none : (rs : List ℕ) → first_full record_at rs ≡ none → entries record_at rs ≡ []
  unfolding first_full entries
  first_full-none [] h = refl
  first_full-none (x ∷ rs) h = elim (Bool-cases (record_at x).empty) [
    | inl gone ↦ rw gone (
        first_full-none rs
          (subst (λ b. (if b then first_full record_at rs else some x) ≡ none) gone h))
    | inr full ↦
        absurd
          (some-none (subst (λ b. (if b then first_full record_at rs else some x) ≡ none) full h))
  ]

  -- The entries from the first full record on.
  pub record IsFirst (r : ℕ) (rs : List ℕ) : Type 0 where
    pub here : has r rs ≡ true
    pub full : (record_at r).empty ≡ false
    pub ahead :
        entries record_at rs
        ≡ ((record_at r).key, (record_at r).value) ∷ entries record_at (next_links r rs)

  other_record :
      {r x : ℕ} → (record_at x).empty ≡ true → (record_at r).empty ≡ false → (r == x) ≡ false
  other_record {r = r} {x = x} gone full = elim (==-cases r x) [
    | inr away ↦ away
    | inl (e, at) ↦ absurd (not_both (record_at r).empty (rw at gone) full)
  ]

  pub first_full-some : (r : ℕ) (rs : List ℕ) → first_full record_at rs ≡ some r → IsFirst r rs
  unfolding first_full entries has next_links
  first_full-some r [] h = absurd (ground (arith, h))
  first_full-some r (x ∷ rs) h = elim (Bool-cases (record_at x).empty) [
    | inl gone ↦
        let later =
          first_full-some r rs
            (subst (λ b. (if b then first_full record_at rs else some x) ≡ some r) gone h) in
        let away = other_record gone later.full in
        record {
          here = or_right (r == x) (has r rs) later.here;
          full = later.full;
          ahead = rw (gone, away) later.ahead;
        }
    | inr full ↦
        let e =
          some_injective
            (subst (λ b. (if b then first_full record_at rs else some x) ≡ some r) full h) in
        rw (← e)
          (record { here = rw (==_refl x) refl; full = full; ahead = rw (full, ==_refl x) refl })
  ]
