-- ===== src/Bridge/Race/Moves.antt =====
-- Every access keeps the indices of the calls apart and the entries of finished calls in place.
use quickjs_runtime.Prelude.{ℕ, ◌≤◌, ◌<◌, ◌≡◌, ◌≢◌, Option, none, some, arith}
use quickjs_runtime.Bridge.Table.{Table, max_host_fns}
use quickjs_runtime.Bridge.Race.{
  Call, entered, checked, claimed, stored, refused, Move, see_full, see_room, add_past, add_within,
  fill, update,
}

-- The index that a call has been given, and what it has stored there.
abbrev pub index : {A : Type 0} → Call A → Option ℕ
index (claimed a i) = some i
index (stored a i) = some i
index _ = none

abbrev pub entry : {A : Type 0} → Call A → Option (A × ℕ)
entry (stored a i) = some (a, i)
entry _ = none

pub entry-index :
    {A : Type 0} (c : Call A) (i : ℕ) (a : A) → entry c ≡ some (a, i) → index c ≡ some i
entry-index (stored b j) i a h = ground arith
entry-index (claimed b j) i a h = cc
entry-index (entered b) i a h = cc
entry-index (checked b) i a h = cc
entry-index refused i a h = cc

pub record Inv {A : Type 0} (t : Table A) (f : ℕ → Call A) : Type 0 where
  pub given : (j i : ℕ) → index (f j) ≡ some i → (i < t.count) × (i < max_host_fns)
  pub apart : (j k i : ℕ) → index (f j) ≡ some i → index (f k) ≡ some i → j ≡ k
  pub kept : (j i : ℕ) (a : A) → entry (f j) ≡ some (a, i) → t.slots i ≡ some a
  pub fresh : (i : ℕ) → t.count ≤ i → t.slots i ≡ none

module _ {A : Type 0} {t : Table A} {f : ℕ → Call A} (inv : Inv t f) (i : ℕ) where
  Move-given :
      {c c' : Call A} {t' : Table A}
      → Move t c t' c'
      → f i ≡ c
      → (j x : ℕ) → index (update f i c' j) ≡ some x
      → (x < t'.count) × (x < max_host_fns)
  Move-given (see_full g) e j x h = ground (arith, inv.given j x)
  Move-given (see_room g) e j x h = ground (arith, inv.given j x)
  Move-given (add_past g) e j x h = ground (arith, inv.given j x)
  Move-given (add_within g) e j x h = ground (arith, inv.given j x)
  Move-given fill e j x h = ground (arith, inv.given j x)

  Move-apart :
      {c c' : Call A} {t' : Table A}
      → Move t c t' c'
      → f i ≡ c
      → (j k x : ℕ) → index (update f i c' j) ≡ some x
      → index (update f i c' k) ≡ some x
      → j ≡ k
  Move-apart (see_full g) e j k x h h' = ground (arith, inv.apart j k x)
  Move-apart (see_room g) e j k x h h' = ground (arith, inv.apart j k x)
  Move-apart (add_past g) e j k x h h' = ground (arith, inv.apart j k x)
  Move-apart (add_within g) e j k x h h' =
      ground (arith, inv.apart j k x, inv.given j x, inv.given k x)
  Move-apart (fill {i = y}) e j k x h h' =
      ground (arith, inv.apart j k x, inv.apart i k x, inv.apart j i x)

  Move-kept :
      {c c' : Call A} {t' : Table A}
      → Move t c t' c'
      → f i ≡ c
      → (j x : ℕ) (a : A) → entry (update f i c' j) ≡ some (a, x)
      → t'.slots x ≡ some a
  Move-kept (see_full g) e j x a h = ground (arith, inv.kept j x a)
  Move-kept (see_room g) e j x a h = ground (arith, inv.kept j x a)
  Move-kept (add_past g) e j x a h = ground (arith, inv.kept j x a)
  Move-kept (add_within g) e j x a h = ground (arith, inv.kept j x a)
  Move-kept (fill {i = y}) e j x a h =
      ground (arith, inv.kept j x a, inv.apart i j x, entry-index (f j) x a)

  Move-fresh :
      {c c' : Call A} {t' : Table A}
      → Move t c t' c'
      → f i ≡ c
      → (x : ℕ) → t'.count ≤ x
      → t'.slots x ≡ none
  Move-fresh (see_full g) e x h = inv.fresh x h
  Move-fresh (see_room g) e x h = inv.fresh x h
  Move-fresh (add_past g) e x h = inv.fresh x (omega arith)
  Move-fresh (add_within g) e x h = inv.fresh x (omega arith)
  Move-fresh (fill {i = y}) e x h = ground (arith, inv.fresh x, inv.given i y)

  pub Move-Inv : {c c' : Call A} {t' : Table A} → Move t c t' c' → f i ≡ c → Inv t' (update f i c')
  Move-Inv mv e = record {
    given = Move-given mv e;
    apart = Move-apart mv e;
    kept = Move-kept mv e;
    fresh = Move-fresh mv e;
  }

-- A finished call stays as it is, and so does the entry that it stored.
pub Move-stored :
    {A : Type 0} {t t' : Table A} (c : Call A) {c' : Call A} (a : A) (x : ℕ)
    → Move t c t' c'
    → c ≢ stored a x
Move-stored c a x (see_full g) e = cc
Move-stored c a x (see_room g) e = cc
Move-stored c a x (add_past g) e = cc
Move-stored c a x (add_within g) e = cc
Move-stored c a x fill e = cc
