-- ===== src/Unicode/CharRange/Next.antt =====
-- The next point of `cr_op` of native/quickjs/libunicode.c, and a failed request.
use quickjs_runtime.Prelude.{
  ℕ, ◌+◌, ◌≤◌, ◌<◌, ◌≡◌, refl, sym, ap, subst, Bool, true, false, ltb, leb, ◌==◌, ◌⊎◌, inl, inr,
  none, some, List, [], ◌∷◌, ◌++◌, length, arith, tests, Bool-cases, ==_iff, max, ◌*◌, ◌/◌,
}
use quickjs_runtime.Unicode.CharRange.{
  CharRange, Cursor, next_point, cr_add_point, cr_realloc, push_points,
}
use quickjs_runtime.Unicode.CharRange.Cover.{
  xor, covers, AtLeast, Sorted, AtLeast-weaken, odd, odd-suc, move_not,
}

-- One of the two sets around the next point `v`: what is left is sorted and not below `v`, and
-- from `v` on the points that were taken make up for those that are gone.
pub record Half (v i : ℕ) (ps : List ℕ) (i' : ℕ) (ps' : List ℕ) : Type 0 where
  pub sorted : Sorted ps'
  pub rest : AtLeast v ps'
  pub all : AtLeast v ps
  pub total : i' + length ps' ≡ i + length ps
  pub same : (c : ℕ) → v ≤ c → xor (odd i') (covers c ps') ≡ xor (odd i) (covers c ps)

Half-taken : (v i : ℕ) (ps : List ℕ) → Sorted (v ∷ ps) → Half v i (v ∷ ps) (i + 1) ps
unfolding covers
Half-taken v i ps s = record {
  sorted = s.1;
  rest = s.0;
  all = (omega arith, s.0);
  total = omega arith;
  same = λ c h.
      let e : leb v c ≡ true = ground arith in rw (odd-suc i, e) (move_not (odd i) (covers c ps));
}

Half-kept : (v i : ℕ) (ps : List ℕ) → Sorted ps → AtLeast v ps → Half v i ps i ps
Half-kept v i ps s a = record { sorted = s; rest = a; all = a; total = refl; same = λ c h. refl }

pub record IsNext (low i j : ℕ) (a_pt b_pt : List ℕ) (k : Cursor) : Type 0 where
  pub above : low ≤ k.point
  pub fewer : length k.a_left + length k.b_left < length a_pt + length b_pt
  pub half_a : Half k.point i a_pt k.a_idx k.a_left
  pub half_b : Half k.point j b_pt k.b_idx k.b_left

pub next_point-cases :
    (low i j : ℕ) (a_pt b_pt : List ℕ)
    → Sorted a_pt
    → Sorted b_pt
    → AtLeast low a_pt
    → AtLeast low b_pt
    → ((next_point i j a_pt b_pt ≡ none) × (a_pt ≡ []) × (b_pt ≡ []))
      ⊎ ((k : Cursor) × ((next_point i j a_pt b_pt ≡ some k) × IsNext low i j a_pt b_pt k))
unfolding next_point
next_point-cases low i j [] [] s t a b = inl (refl, refl, refl)
next_point-cases low i j (x ∷ xs) [] s t a b = inr (
  _,
  (
    refl,
    record {
      above = a.0;
      fewer = omega arith;
      half_a = Half-taken x i xs s;
      half_b = Half-kept x j [] tt tt;
    },
  ),
)
next_point-cases low i j [] (y ∷ ys) s t a b = inr (
  _,
  (
    refl,
    record {
      above = b.0;
      fewer = omega arith;
      half_a = Half-kept y i [] tt tt;
      half_b = Half-taken y j ys t;
    },
  ),
)
next_point-cases low i j (x ∷ xs) (y ∷ ys) s t a b = elim (Bool-cases (ltb x y)) [
  | inl less ↦ rw less (
      inr (
        _,
        (
          refl,
          record {
            above = a.0;
            fewer = omega arith;
            half_a = Half-taken x i xs s;
            half_b =
                Half-kept x j (y ∷ ys) t (omega tests, AtLeast-weaken x y ys (omega tests) t.0);
          },
        ),
      ))
  | inr not_less ↦ elim (Bool-cases (x == y)) [
    | inl same ↦
        let e = (==_iff x y).0 same in
        rw (not_less, same)
          (inr (
            _,
            (
              refl,
              record {
                above = a.0;
                fewer = omega arith;
                half_a = Half-taken x i xs s;
                half_b = subst (λ z. Half z j (y ∷ ys) (j + 1) ys) (sym e) (Half-taken y j ys t);
              },
            ),
          ))
    | inr other ↦
        rw (not_less, other)
          (inr (
            _,
            (
              refl,
              record {
                above = b.0;
                fewer = omega arith;
                half_a =
                    Half-kept y i (x ∷ xs) s (omega tests, AtLeast-weaken y x xs (omega tests) s.0);
                half_b = Half-taken y j ys t;
              },
            ),
          ))
  ]
]

module _ (grants : ℕ → Bool) where
  -- A request that the allocator refused.
  pub Refusal : Type 0
  Refusal = (n : ℕ) × (grants n ≡ false)

  pub cr_realloc-cases :
      (cr : CharRange) (size : ℕ)
      → (((cr_realloc grants cr size).1 ≡ true) × Refusal)
        ⊎ (((cr_realloc grants cr size).1 ≡ false)
            × ((cr_realloc grants cr size).0.points ≡ cr.points))
  unfolding cr_realloc Refusal
  cr_realloc-cases cr size = elim (Bool-cases (ltb cr.size size)) [
    | inr room ↦ rw room (inr (refl, refl))
    | inl more ↦
        let n = max size (cr.size * 3 / 2) in
        elim (Bool-cases (grants n)) [
          | inl given ↦ rw (more, given) (inr (refl, refl))
          | inr refused ↦ rw (more, refused) (inl (refl, (n, refused)))
        ]
  ]

  pub cr_add_point-cases :
      (cr : CharRange) (v : ℕ)
      → (((cr_add_point grants cr v).1 ≡ true) × Refusal)
        ⊎ (((cr_add_point grants cr v).1 ≡ false)
            × ((cr_add_point grants cr v).0.points ≡ cr.points ++ v ∷ []))
  unfolding cr_add_point
  cr_add_point-cases cr v = elim (Bool-cases (leb cr.size (length cr.points))) [
    | inr room ↦ rw room (unfold push_points in inr (refl, refl))
    | inl full ↦ rw full (pushed _ (cr_realloc-cases cr (length cr.points + 1)))
  ]
    where
      pushed :
          (r : CharRange × Bool)
          → ((r.1 ≡ true) × Refusal) ⊎ ((r.1 ≡ false) × (r.0.points ≡ cr.points))
          → (((push_points (v ∷ []) r).1 ≡ true) × Refusal)
            ⊎ (((push_points (v ∷ []) r).1 ≡ false)
                × ((push_points (v ∷ []) r).0.points ≡ cr.points ++ v ∷ []))
      pushed (r, true) c =
          unfold push_points in
          elim c [ inl (t, refusal) ↦ inl (refl, refusal) | inr (f, e) ↦ ground arith ]
      pushed (r, false) c =
          unfold push_points in
          elim c [
            | inl (t, refusal) ↦ ground arith
            | inr (f, e) ↦ inr (refl, ap (λ ps. ps ++ v ∷ []) e)
          ]
