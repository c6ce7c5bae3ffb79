-- ===== src/Cutils/DynBuf/Growth.antt =====
-- What `dbuf_realloc` does to a buffer, granted or not.
use quickjs_runtime.Prelude.{
  ℕ, ◌≤◌, ◌<◌, ◌≡◌, refl, ◌⊎◌, inl, inr, Bool, true, false, ltb, Bool-cases, List, length, take,
  arith, tests,
}
use quickjs_runtime.Cutils.DynBuf.{DynBuf, size_mod, grown_size, dbuf_realloc}
use quickjs_runtime.Cutils.DynBuf.Memory.{resize, length-resize, take-resize}

pub record IsValid (s : DynBuf) : Type 0 where
  pub whole : length s.buf ≡ s.allocated_size
  pub within : s.size ≤ s.allocated_size
  pub small : s.allocated_size < size_mod

-- The bytes that have been written.
abbrev pub contents : DynBuf → List ℕ
contents s = take s.size s.buf

-- A buffer after a request for `n` bytes: the same contents, and the room unless it failed.
pub record IsGrown (s : DynBuf) (n : ℕ) (s' : DynBuf) (failed : Bool) : Type 0 where
  pub valid : IsValid s'
  pub same_size : s'.size ≡ s.size
  pub same_contents : contents s' ≡ contents s
  pub result :
      ((failed ≡ false) × (n ≤ s'.allocated_size) × (s'.error ≡ s.error))
      ⊎ ((failed ≡ true) × (s' ≡ record s { error = true }))

module _ (grants : ℕ → Bool) (junk : ℕ) where
  pub grown_size-bounds :
      (s : DynBuf) (n : ℕ)
      → n < size_mod
      → (n ≤ grown_size grants junk s n) × (grown_size grants junk s n < size_mod)
  unfolding grown_size
  grown_size-bounds s n h = ground arith

  IsGrown-kept : (s : DynBuf) (n : ℕ) → IsValid s → n ≤ s.allocated_size → IsGrown s n s false
  IsGrown-kept s n v h = record {
    valid = v;
    same_size = refl;
    same_contents = refl;
    result = inl (refl, h, refl);
  }

  IsGrown-failed : (s : DynBuf) (n : ℕ) → IsValid s → IsGrown s n (record s { error = true }) true
  IsGrown-failed s n v = record {
    valid = record { whole = v.whole; within = v.within; small = v.small };
    same_size = refl;
    same_contents = refl;
    result = inr (refl, refl);
  }

  abbrev larger : DynBuf → ℕ → DynBuf
  larger s n = record s {
    buf = resize junk (grown_size grants junk s n) s.buf;
    allocated_size = grown_size grants junk s n;
  }

  IsGrown-larger :
      (s : DynBuf) (n : ℕ)
      → IsValid s
      → n < size_mod
      → s.allocated_size < n
      → IsGrown s n (larger s n) false
  IsGrown-larger s n v h more =
      let size = grown_size grants junk s n in
      let bounds = grown_size-bounds s n h in
      record {
        valid = record {
          whole = length-resize junk size s.buf (omega (arith, v.whole, bounds.0));
          within = omega (arith, v.within, bounds.0);
          small = bounds.1;
        };
        same_size = refl;
        same_contents = take-resize junk size s.size s.buf (omega (arith, v.whole, v.within));
        result = inl (refl, bounds.0, refl);
      }

  pub dbuf_realloc-IsGrown :
      (s : DynBuf) (n : ℕ)
      → IsValid s
      → n < size_mod
      → IsGrown s n (dbuf_realloc grants junk s n).0 (dbuf_realloc grants junk s n).1
  dbuf_realloc-IsGrown s n v h = elim (Bool-cases (ltb s.allocated_size n)) [
    | inr fits ↦ rw (kept fits) (IsGrown-kept s n v (omega tests))
    | inl more ↦ elim (Bool-cases s.error) [
      | inl bad ↦ rw (stuck more bad) (IsGrown-failed s n v)
      | inr good ↦ elim (Bool-cases (grants (grown_size grants junk s n))) [
        | inl given ↦ rw (moved more good given) (IsGrown-larger s n v h (omega tests))
        | inr refused ↦ rw (lost more good refused) (IsGrown-failed s n v)
      ]
    ]
  ]
    where
      kept : ltb s.allocated_size n ≡ false → dbuf_realloc grants junk s n ≡ (s, false)
      kept e = unfold dbuf_realloc in ground arith

      stuck :
          ltb s.allocated_size n ≡ true
          → s.error ≡ true
          → dbuf_realloc grants junk s n ≡ (record s { error = true }, true)
      stuck e b = unfold dbuf_realloc in ground arith

      moved :
          ltb s.allocated_size n ≡ true
          → s.error ≡ false
          → grants (grown_size grants junk s n) ≡ true
          → dbuf_realloc grants junk s n ≡ (larger s n, false)
      moved e b g = unfold dbuf_realloc in ground arith

      lost :
          ltb s.allocated_size n ≡ true
          → s.error ≡ false
          → grants (grown_size grants junk s n) ≡ false
          → dbuf_realloc grants junk s n ≡ (record s { error = true }, true)
      lost e b g = unfold dbuf_realloc in ground arith
