-- ===== src/Bridge/Race/Reachable.antt =====
-- What every interleaving of registrations guarantees, and that a registration alone is `reserve`.
use quickjs_runtime.Prelude.{
  ℕ, ◌+◌, ◌≡◌, refl, sym, subst, ◌∙◌, ℕ_discrete, ◌≢◌, Option, none, some, inl, inr, Bool-cases,
  leb, true, false, arith, tests, ◌<◌, ◌≤◌, ◌⊎◌,
}
use mathlib.Core.Logic.{if_pos, if_neg}
use quickjs_runtime.Prelude.Int.{pos}
use quickjs_runtime.Bridge.Table.{Table, max_host_fns, callback_at, reserve, store, int16}
use quickjs_runtime.Bridge.Table.Laws.{callback_at-int16}
use quickjs_runtime.Bridge.Race.{
  Call, entered, checked, claimed, stored, refused, Move, see_full, see_room, add_past, add_within,
  fill, update, System, Step, pick, Reach, here, later, initial,
}
use quickjs_runtime.Bridge.Race.Moves.{Inv, Move-Inv, Move-stored}

module _ {A : Type 0} where
  initial-Inv : (wanted : ℕ → A) → Inv (initial wanted).table (initial wanted).call
  initial-Inv wanted = record {
    given = λ j i h. cc;
    apart = λ j k i h h'. cc;
    kept = λ j i a h. cc;
    fresh = λ i h. refl;
  }

  Step-Inv : {s u : System A} → Step s u → Inv s.table s.call → Inv u.table u.call
  Step-Inv (pick i mv) inv = Move-Inv inv i mv refl

  Reach-Inv : {wanted : ℕ → A} {u : System A} → Reach (initial wanted) u → Inv u.table u.call
  Reach-Inv {wanted} here = initial-Inv wanted
  Reach-Inv (later r st) = Step-Inv st (Reach-Inv r)

  -- The callback that a call is to register stays its own.
  abbrev IsFor : A → Call A → Type 0
  IsFor w (entered a) = a ≡ w
  IsFor w (checked a) = a ≡ w
  IsFor w (claimed a i) = a ≡ w
  IsFor w (stored a i) = a ≡ w
  IsFor w refused = Unit {0}

  Move-IsFor : (w : A) {t t' : Table A} {c c' : Call A} → Move t c t' c' → IsFor w c → IsFor w c'
  Move-IsFor w (see_full g) h = tt
  Move-IsFor w (see_room g) h = h
  Move-IsFor w (add_past g) h = tt
  Move-IsFor w (add_within g) h = h
  Move-IsFor w fill h = h

  Step-IsFor : {s u : System A} (w : A) (j : ℕ) → Step s u → IsFor w (s.call j) → IsFor w (u.call j)
  Step-IsFor w j (pick {f = f} {c' = c'} k mv) h = elim (ℕ_discrete k j) [
    | yes e ↦ rw (if_pos _ e) (Move-IsFor w mv (subst (λ x. IsFor w (f x)) (sym e) h))
    | no n ↦ rw (if_neg _ n) h
  ]

  Reach-IsFor :
      (wanted : ℕ → A) {u : System A} (j : ℕ)
      → Reach (initial wanted) u
      → IsFor (wanted j) (u.call j)
  Reach-IsFor wanted j here = refl
  Reach-IsFor wanted j (later r st) = Step-IsFor (wanted j) j st (Reach-IsFor wanted j r)

  stored-IsFor : (w a : A) (i : ℕ) (c : Call A) → IsFor w c → c ≡ stored a i → a ≡ w
  stored-IsFor w a i (stored b k) h e = cc
  stored-IsFor w a i (claimed b k) h e = cc
  stored-IsFor w a i (entered b) h e = cc
  stored-IsFor w a i (checked b) h e = cc
  stored-IsFor w a i refused h e = cc

  -- What a dispatcher finds by the magic number that is made of index `i`: the callback `w` for an
  -- index below 2 ^ 15, and nothing from there on.
  pub record IsReachedBy (t : Table A) (w : A) (i : ℕ) : Type 0 where
    pub slot : t.slots i ≡ some w
    pub by_magic :
        ((i < 32768) × (callback_at t (int16 i) ≡ some w))
        ⊎ ((32768 ≤ i) × (callback_at t (int16 i) ≡ none))

  stored-IsReachedBy :
      (wanted : ℕ → A) (u : System A) (j : ℕ) (a : A) (x : ℕ)
      → Reach (initial wanted) u
      → u.call j ≡ stored a x
      → IsReachedBy u.table (wanted j) x
  stored-IsReachedBy wanted u j a x r p =
      let inv = Reach-Inv r in
      let given = inv.given j x (ground arith) in
      let own = stored-IsFor (wanted j) a x (u.call j) (Reach-IsFor wanted j r) p in
      let slot : u.table.slots x ≡ some (wanted j) = ground (arith, inv.kept j x a, own) in
      record {
        slot = slot;
        by_magic = elim (callback_at-int16 u.table x given.1) [
          | inl (low, m) ↦ inl (low, m ∙ (unfold callback_at in rw (leb_below given.0) slot))
          | inr none_there ↦ inr none_there
        ];
      }
    where
      leb_below : x < u.table.count → leb u.table.count x ≡ false
      leb_below h = ground arith

  -- In every interleaving, two calls that have ended with an index have different ones, and the
  -- slot of each holds the callback that it was to register. A dispatcher finds it there by the
  -- 16-bit magic number for an index below 2 ^ 15, and finds nothing for one from there on.
  pub stored-callback_at :
      (wanted : ℕ → A) (u : System A) (j k : ℕ) (a b : A) (x y : ℕ)
      → Reach (initial wanted) u
      → u.call j ≡ stored a x
      → u.call k ≡ stored b y
      → j ≢ k
      → (x ≢ y) × IsReachedBy u.table (wanted j) x × IsReachedBy u.table (wanted k) y
  stored-callback_at wanted u j k a b x y r p q h =
      let inv = Reach-Inv r in
      (
        λ e. h (inv.apart j k x (ground arith) (ground arith)),
        stored-IsReachedBy wanted u j a x r p,
        stored-IsReachedBy wanted u k b y r q,
      )

  Step-stored :
      {s u : System A} (j i : ℕ) (a : A) → Step s u → s.call j ≡ stored a i → u.call j ≡ stored a i
  Step-stored j i a (pick {f = f} k mv) h = ground (arith, Move-stored (f k) a i mv)

  Reach-stored :
      {s u : System A} (j i : ℕ) (a : A) → Reach s u → s.call j ≡ stored a i → u.call j ≡ stored a i
  Reach-stored j i a here h = h
  Reach-stored j i a (later r st) h = Step-stored j i a st (Reach-stored j i a r h)

  Reach-trans : {s t u : System A} → Reach s t → Reach t u → Reach s u
  Reach-trans r here = r
  Reach-trans r (later r' st) = later (Reach-trans r r') st

  -- Once a call has ended with an index, its slot holds its callback for good, whatever the other
  -- calls do later.
  pub stored_forever :
      (wanted : ℕ → A) (s u : System A) (j i : ℕ) (a : A)
      → Reach (initial wanted) s
      → Reach s u
      → s.call j ≡ stored a i
      → callback_at u.table (pos i) ≡ some (wanted j)
  unfolding callback_at
  stored_forever wanted s u j i a r more h =
      let all = Reach-trans r more in
      let inv = Reach-Inv all in
      ground (
        arith,
        inv.given j i,
        inv.kept j i a,
        Reach-stored j i a more h,
        stored-IsFor (wanted j) a i (u.call j) (Reach-IsFor wanted j all),
      )

  -- What `reserve` says of a call that no other call interrupts.
  abbrev pub outcome : A → Option ℕ → Call A
  outcome a none = refused
  outcome a (some i) = stored a i

  update_self : (f : ℕ → Call A) (i : ℕ) (c : Call A) → update f i c i ≡ c
  update_self f i c = ground arith

  move :
      {t t' : Table A} {f : ℕ → Call A} (i : ℕ) {c c' : Call A}
      → f i ≡ c
      → Move t c t' c'
      → Step (record { table = t; call = f }) (record { table = t'; call = update f i c' })
  move {t} {t'} i {c' = c'} e mv = pick i (subst (λ x. Move t x t' c') (sym e) mv)

  -- The sequential registration is one of the interleavings: from any state in which call `i` has
  -- just entered, its moves alone lead to the table and the result of `reserve`.
  pub reserve-Reach :
      (t : Table A) (f : ℕ → Call A) (i : ℕ) (a : A)
      → f i ≡ entered a
      → (g : ℕ → Call A) × Reach
          (record { table = t; call = f })
          (record { table = (reserve a t).1; call = g })
        × (g i ≡ outcome a (reserve a t).0)
  reserve-Reach t f i a h = elim (Bool-cases (leb max_host_fns t.count)) [
    | inl full ↦
        rw (reserve_full full)
          (update f i refused, later here (move i h (see_full (omega tests))), update_self f i _)
    | inr room ↦
        let f1 = update f i (checked a) in
        let f2 = update f1 i (claimed a t.count) in
        rw (reserve_room room) (
          update f2 i (stored a t.count),
          later
              (later (later here (move i h (see_room (omega tests))))
                (move {f = f1} i (update_self f i _) (add_within (omega tests))))
              (move {f = f2} i (update_self f1 i _) fill),
          update_self f2 i _,
        )
  ]
    where
      reserve_full : leb max_host_fns t.count ≡ true → reserve a t ≡ (none, t)
      reserve_full e = unfold reserve in rw e

      reserve_room :
          leb max_host_fns t.count ≡ false
          → reserve a t
            ≡ (some t.count, record { count = t.count + 1; slots = store t.slots t.count a })
      reserve_room e = unfold reserve in rw e
