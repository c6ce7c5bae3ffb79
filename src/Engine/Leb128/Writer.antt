-- ===== src/Engine/Leb128/Writer.antt =====
-- What `dbuf_put_leb128` appends.
use quickjs_runtime.Prelude.{
  ℕ, zero, suc, ◌+◌, ◌/◌, ◌%◌, ◌^◌, ◌<◌, ◌≡◌, ◌∙◌, inl, inr, Bool, true, ◌==◌, some, [], ◌∷◌,
  bit_and, bit_or, arith, Bool-cases, ==_iff, subst,
}
use native.Mathlib.Nat.{pow-suc, mod-eq_of_lt}
use quickjs_runtime.Prelude.Bits.{bit_and_mask, bit_or_fields, bit_or_comm}
use quickjs_runtime.Cutils.DynBuf.{DynBuf, dbuf_putc, dbuf_put, size_mod}
use quickjs_runtime.Cutils.DynBuf.Growth.{IsValid}
use quickjs_runtime.Cutils.DynBuf.Laws.{dbuf_put-IsAppended}
use quickjs_runtime.Cutils.DynBuf.Writes.{
  IsWritten, IsWritten-one, IsWritten-append, IsAppended-size,
}
use quickjs_runtime.Engine.Leb128.{put_loop, dbuf_put_leb128}
use quickjs_runtime.Engine.Leb128.RoundTrip.{groups}

marked : (v : ℕ) → bit_or (bit_and v 0x7f) 0x80 ≡ 128 + v % 128
marked v =
    rw (bit_and_mask 7 v) (bit_or_comm (v % 128) 128 ∙ bit_or_fields 7 1 (v % 128) (omega arith))

module _ (grants : ℕ → ℕ → Bool) (junk : ℕ) where
  put_loop-IsWritten :
      (fuel i : ℕ) (s : DynBuf) (v : ℕ)
      → IsValid s
      → s.size + suc fuel < size_mod
      → v < 128 ^ suc fuel
      → IsWritten s (groups (suc fuel) v) (put_loop grants junk (suc fuel) i s v)
  unfolding put_loop groups dbuf_putc
  put_loop-IsWritten zero i s v valid room bound =
      let small : (v / 128 == 0) ≡ true = ground arith in
      rw (small, bit_and_mask 7 v)
        (subst (λ b. IsWritten s (b ∷ []) (some (dbuf_put (grants i) junk s (v % 128 ∷ []))))
          (mod-eq_of_lt (let q : v < 128 = omega arith in q))
          (IsWritten-one s _ _ valid
            (dbuf_put-IsAppended (grants i) junk s (v % 128 ∷ []) valid (omega arith))))
  put_loop-IsWritten (suc fuel) i s v valid room bound = elim (Bool-cases (v / 128 == 0)) [
    | inl small ↦
        let less : v < 128 = let q = (==_iff (v / 128) 0).0 small in omega arith in
        rw (small, bit_and_mask 7 v)
          (subst (λ b. IsWritten s (b ∷ []) (some (dbuf_put (grants i) junk s (v % 128 ∷ []))))
            (mod-eq_of_lt less)
            (IsWritten-one s _ _ valid
              (dbuf_put-IsAppended (grants i) junk s (v % 128 ∷ []) valid (omega arith))))
    | inr large ↦
        let b = 128 + v % 128 in
        let a = dbuf_put-IsAppended (grants i) junk s (b ∷ []) valid (omega arith) in
        let size = IsAppended-size s (b ∷ []) _ valid a in
        rw (large, marked v, a.returned)
          (IsWritten-append s (b ∷ []) _ _ _ valid a (
            put_loop-IsWritten fuel (i + 1) a.s' (v / 128) a.valid (omega (arith, size))
              (omega (arith, pow-suc 128 (suc fuel)))))
  ]

  -- A `uint32_t` is written in full whatever the allocator does, by at most five calls and inside
  -- the block: the buffer holds its groups at the end, or it is marked. A buffer that was marked
  -- stays so. The new size must not wrap.
  pub dbuf_put_leb128-IsWritten :
      (s : DynBuf) (v : ℕ)
      → IsValid s
      → s.size + 5 < size_mod
      → v < 2 ^ 32
      → IsWritten s (groups 5 v) (dbuf_put_leb128 grants junk s v)
  unfolding dbuf_put_leb128
  dbuf_put_leb128-IsWritten s v valid room h = put_loop-IsWritten 4 0 s v valid room (omega arith)
