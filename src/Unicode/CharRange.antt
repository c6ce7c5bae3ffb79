-- ===== src/Unicode/CharRange.antt =====
-- `CharRange` of native/quickjs/libunicode.h: a set of code points as the sorted points at which
-- membership changes.
pub mod Cover
pub mod Next
pub mod Merge
pub mod Loop
pub mod Compress
pub mod Sets
pub mod Invert
use quickjs_runtime.Prelude.{
  ℕ, zero, suc, ◌+◌, ◌*◌, ◌/◌, ◌%◌, ◌^◌, max, Bool, true, false, ltb, leb, ◌==◌, if◌then◌else◌,
  Option, none, some, List, [], ◌∷◌, ◌++◌, length, bit_and, bit_or, bit_xor,
}

-- `points` holds the first `len` entries of the block, `size` is the block's length in entries.
pub record CharRange : Type 0 where
  pub points : List ℕ
  pub size : ℕ

unfoldable pub cr_init : CharRange
cr_init = record { points = []; size = 0 }

-- The points of `pts` at the end of a block that has the room, or the failure.
unfoldable pub push_points : List ℕ → CharRange × Bool → CharRange × Bool
push_points pts (cr, true) = (cr, true)
push_points pts (cr, false) = (record cr { points = cr.points ++ pts }, false)

unfoldable pub copy_points : List ℕ → CharRange × Bool → CharRange × Bool
copy_points pts (cr, true) = (cr, true)
copy_points pts (cr, false) = (record cr { points = pts }, false)

-- The loop of `cr_compress`, on the points that are left and with the interval that is growing.
-- Its writes are behind its reads, so that it works on a list; a last odd point is dropped.
unfoldable pub compress_loop : Option (ℕ × ℕ) → List ℕ → List ℕ
compress_loop none [] = []
compress_loop none (p ∷ []) = []
compress_loop none (p ∷ q ∷ pt) =
    let skipped = compress_loop none pt in
    let begun = compress_loop (some (p, q)) pt in if p == q then skipped else begun
compress_loop (some (p, q)) [] = p ∷ q ∷ []
compress_loop (some (p, q)) (r ∷ []) = p ∷ q ∷ []
compress_loop (some (p, q)) (r ∷ s ∷ pt) =
    let joined = compress_loop (some (p, s)) pt in
    let skipped = compress_loop none pt in
    let begun = compress_loop (some (r, s)) pt in
    if q == r then joined else (p ∷ q ∷ (if r == s then skipped else begun))

unfoldable pub cr_compress : CharRange → CharRange
cr_compress cr = record cr { points = compress_loop none cr.points }

unfoldable pub finish : CharRange × Bool → CharRange × Bool
finish (cr, true) = (cr, true)
finish (cr, false) = (cr_compress cr, false)

pub data CharRangeOp : Type 0 where
  cr_op_union cr_op_inter cr_op_xor : CharRangeOp

-- `is_in`, from the number of points taken of each set.
unfoldable pub is_in : CharRangeOp → ℕ → ℕ → ℕ
is_in cr_op_union a_idx b_idx = bit_or (bit_and a_idx 1) (bit_and b_idx 1)
is_in cr_op_inter a_idx b_idx = bit_and (bit_and a_idx 1) (bit_and b_idx 1)
is_in cr_op_xor a_idx b_idx = bit_xor (bit_and a_idx 1) (bit_and b_idx 1)

-- The next point, and where the two sets stand after it.
pub record Cursor : Type 0 where
  pub point : ℕ
  pub a_idx : ℕ
  pub b_idx : ℕ
  pub a_left : List ℕ
  pub b_left : List ℕ

-- One more point from a or b in increasing order; `none` is the end of both.
unfoldable pub next_point : ℕ → ℕ → List ℕ → List ℕ → Option Cursor
next_point i j [] [] = none
next_point i j (x ∷ a_pt) [] =
    some (record { point = x; a_idx = i + 1; b_idx = j; a_left = a_pt; b_left = [] })
next_point i j [] (y ∷ b_pt) =
    some (record { point = y; a_idx = i; b_idx = j + 1; a_left = []; b_left = b_pt })
next_point i j (x ∷ a_pt) (y ∷ b_pt) =
    if ltb x y
    then some (record { point = x; a_idx = i + 1; b_idx = j; a_left = a_pt; b_left = y ∷ b_pt })
    else (if x == y
        then some (record { point = x; a_idx = i + 1; b_idx = j + 1; a_left = a_pt; b_left = b_pt })
        else some
            (record { point = y; a_idx = i; b_idx = j + 1; a_left = x ∷ a_pt; b_left = b_pt }))

-- The allocator that a call meets: whether it grants a block of a size. True is the result -1.
module _ (grants : ℕ → Bool) where
  unfoldable pub cr_realloc : CharRange → ℕ → CharRange × Bool
  cr_realloc cr size =
      let new_size = max size (cr.size * 3 / 2) in
      if ltb cr.size size
      then (if grants new_size then (record cr { size = new_size }, false) else (cr, true))
      else (cr, false)

  unfoldable pub cr_copy : CharRange → CharRange → CharRange × Bool
  cr_copy cr cr1 = copy_points cr1.points (cr_realloc cr (length cr1.points))

  unfoldable pub cr_add_point : CharRange → ℕ → CharRange × Bool
  cr_add_point cr v =
      push_points (v ∷ []) (
        if leb cr.size (length cr.points)
        then cr_realloc cr (length cr.points + 1)
        else (cr, false))

  unfoldable pub cr_add_interval : CharRange → ℕ → ℕ → CharRange × Bool
  cr_add_interval cr c1 c2 = push_points (c1 ∷ c2 ∷ []) (
      if ltb cr.size (length cr.points + 2)
      then cr_realloc cr (length cr.points + 2)
      else (cr, false))

  -- The loop of `cr_op` on fuel, of which one more than the number of points is enough.
  unfoldable pub op_loop :
      ℕ → CharRangeOp → ℕ → ℕ → List ℕ → List ℕ → CharRange → Option (CharRange × Bool)
  op_loop zero op i j a_pt b_pt cr = none
  op_loop (suc fuel) op i j a_pt b_pt cr = elim (next_point i j a_pt b_pt) [
    | none ↦ some (cr, false)
    | some k ↦ elim (is_in op k.a_idx k.b_idx == bit_and (length cr.points) 1) [
      | true ↦ op_loop fuel op k.a_idx k.b_idx k.a_left k.b_left cr
      | false ↦
          let added = cr_add_point cr k.point in
          elim added.1 [
            | true ↦ some (added.0, true)
            | false ↦ op_loop fuel op k.a_idx k.b_idx k.a_left k.b_left added.0
          ]
    ]
  ]

  unfoldable pub cr_op : ℕ → CharRangeOp → List ℕ → List ℕ → CharRange → Option (CharRange × Bool)
  cr_op fuel op a_pt b_pt cr = elim (op_loop fuel op 0 0 a_pt b_pt cr) [
    | none ↦ none
    | some r ↦ some (finish r)
  ]

  -- The points of `cr` go to a set of their own, which is freed at the end.
  unfoldable pub cr_union1 : ℕ → CharRange → List ℕ → Option (CharRange × Bool)
  cr_union1 fuel cr b_pt = cr_op fuel cr_op_union cr.points b_pt cr_init

  -- `c2 + 1` is on 32 bits.
  unfoldable pub cr_union_interval : ℕ → CharRange → ℕ → ℕ → Option (CharRange × Bool)
  cr_union_interval fuel cr c1 c2 = cr_union1 fuel cr (c1 ∷ (c2 + 1) % 2 ^ 32 ∷ [])

  unfoldable pub invert_points : CharRange × Bool → CharRange × Bool
  invert_points (cr, true) = (cr, true)
  invert_points (cr, false) =
      (cr_compress (record cr { points = 0 ∷ (cr.points ++ 0xffffffff ∷ []) }), false)

  unfoldable pub cr_invert : CharRange → CharRange × Bool
  cr_invert cr = invert_points (cr_realloc cr (length cr.points + 2))
