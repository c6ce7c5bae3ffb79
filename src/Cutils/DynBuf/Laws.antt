-- ===== src/Cutils/DynBuf/Laws.antt =====
-- The operations of `DynBuf` against the list of the bytes written.
use quickjs_runtime.Prelude.{
  ℕ, ◌+◌, ◌≤◌, ◌<◌, ◌≡◌, refl, sym, ap, ◌∙◌, ◌⊎◌, inl, inr, Bool, true, false, ltb, Bool-cases,
  List, [], ◌∷◌, ◌++◌, length, take, drop, arith, ltb→le, le→ltb, if◌then◌else◌, subst,
  length-append, length-take, length-drop, take-take, take-drop-take, take_append, take_all, ◌-◌,
}
use mathlib.Core.List.{append-nil, append_assoc}
use native.Mathlib.Nat.{mod-eq_of_lt}
use quickjs_runtime.Cutils.DynBuf.{
  DynBuf, size_mod, Outcome, returns, dbuf_realloc, store_bytes, dbuf_put, dbuf_put_self,
  dbuf_printf, printed, store_self, store_text,
}
use quickjs_runtime.Cutils.DynBuf.Memory.{copy_into-IsCopied}
use quickjs_runtime.Cutils.DynBuf.Growth.{IsValid, contents, IsGrown, dbuf_realloc-IsGrown}

-- What an append of `bytes` comes to: it stays inside the block, and either it appends exactly
-- those bytes or it fails, changes none and marks the buffer.
pub record IsAppended (s : DynBuf) (bytes : List ℕ) (o : Outcome) : Type 0 where
  pub s' : DynBuf
  pub failed : Bool
  pub returned : o ≡ returns s' failed
  pub valid : IsValid s'
  pub result :
      ((failed ≡ false) × (contents s' ≡ contents s ++ bytes) × (s'.error ≡ s.error))
      ⊎ ((failed ≡ true) × (contents s' ≡ contents s) × (s'.error ≡ true))

-- A store at the end, of `bytes` and of `more` that the new size leaves out.
store_bytes-IsAppended :
    (s : DynBuf) (bytes more : List ℕ)
    → IsValid s
    → s.size + length (bytes ++ more) ≤ s.allocated_size
    → IsAppended s bytes (store_bytes s.size (bytes ++ more) (s.size + length bytes) (s, false))
unfolding store_bytes
store_bytes-IsAppended s bytes more v h =
    let c = copy_into-IsCopied s.buf s.size (bytes ++ more) (omega (arith, v.whole)) in
    let end = s.size + length bytes in
    let both = s.size + length (bytes ++ more) in
    let lengths = length-append bytes more in
    rw (c.copied, store_bytes)
      (record {
        s' = record s { buf = c.buf'; size = end };
        failed = false;
        returned = refl;
        valid = record {
          whole = c.same_length ∙ v.whole;
          within = omega (arith, lengths);
          small = v.small;
        };
        result = inl (
          refl,
          sym (take-take end both c.buf' (omega (arith, lengths)))
              ∙ ap (take end) (c.start ∙ sym (append_assoc (contents s) bytes more))
              ∙ take_append (contents s ++ bytes) more end (
                  omega (
                    arith,
                    length-append (contents s) bytes,
                    length-take s.size s.buf,
                    v.whole,
                    v.within,
                  )),
          refl,
        );
      })

-- The same for a buffer `g` that has grown from `s`.
store_grown-IsAppended :
    (s g : DynBuf) (bytes more : List ℕ)
    → g.size ≡ s.size
    → IsValid g
    → s.size + length (bytes ++ more) ≤ g.allocated_size
    → IsAppended g bytes (store_bytes s.size (bytes ++ more) (s.size + length bytes) (g, false))
store_grown-IsAppended s g bytes more e v h =
    subst (λ k. IsAppended g bytes (store_bytes k (bytes ++ more) (k + length bytes) (g, false))) e
      (store_bytes-IsAppended g bytes more v (omega arith))

slice : ℕ → ℕ → DynBuf → List ℕ
slice offset len s = take len (drop offset (contents s))

length-slice :
    (offset len : ℕ) (s : DynBuf)
    → IsValid s
    → offset + len ≤ s.size
    → length (slice offset len s) ≡ len
unfolding slice
length-slice offset len s v inside = omega (
  arith,
  length-take len (drop offset (contents s)),
  length-drop offset (contents s),
  length-take s.size s.buf,
  v.whole,
  v.within,
)

store_self-IsAppended :
    (g : DynBuf) (offset len : ℕ)
    → IsValid g
    → offset + len ≤ g.size
    → g.size + len ≤ g.allocated_size
    → IsAppended g (slice offset len g) (store_self offset len (g.size + len) (g, false))
store_self-IsAppended g offset len v inside room = rw copies (
    subst (λ n. IsAppended g part (store_bytes g.size part (g.size + n) (g, false))) here
      (subst (λ b. IsAppended g part (store_bytes g.size b (g.size + length part) (g, false)))
        (append-nil part)
        (store_bytes-IsAppended g part [] v (omega (arith, ap length (append-nil part), here)))))
  where
    part : List ℕ
    part = slice offset len g

    here : length part ≡ len
    here = length-slice offset len g v inside

    same : take len (drop offset g.buf) ≡ part
    same = unfold slice in sym (take-drop-take len offset g.size g.buf inside)

    copies :
        store_self offset len (g.size + len) (g, false)
        ≡ store_bytes g.size part (g.size + len) (g, false)
    copies =
        unfold store_self in
        rw (le→ltb g.allocated_size (offset + len) (omega (arith, v.within)), same)

store_text-IsAppended :
    (g : DynBuf) (text : List ℕ)
    → IsValid g
    → g.size + length text + 1 ≤ g.allocated_size
    → IsAppended g text (store_text text (g, false))
unfolding store_text
store_text-IsAppended g text v room =
    let whole = length-append text (0 ∷ []) in
    rw
      (
        take_all (g.allocated_size - g.size) (text ++ 0 ∷ []) (omega (arith, whole)),
        mod-eq_of_lt (fits g text v room),
      )
      (store_bytes-IsAppended g text (0 ∷ []) v (omega (arith, whole)))
  where
    fits :
        (b : DynBuf) (t : List ℕ)
        → IsValid b
        → b.size + length t + 1 ≤ b.allocated_size
        → b.size + length t < size_mod
    fits b t w h = omega (arith, w.small)

-- The room that an append asks for before it copies.
module _ (grants : ℕ → Bool) (junk : ℕ) where
  room-IsGrown :
      (s : DynBuf) (n : ℕ)
      → IsValid s
      → n < size_mod
      → IsGrown s n
          (if ltb s.allocated_size n then dbuf_realloc grants junk s n else (s, false)).0
          (if ltb s.allocated_size n then dbuf_realloc grants junk s n else (s, false)).1
  room-IsGrown s n v h = elim (Bool-cases (ltb s.allocated_size n)) [
    | inl more ↦ rw more (dbuf_realloc-IsGrown grants junk s n v h)
    | inr fits ↦ rw fits (record {
      valid = v;
      same_size = refl;
      same_contents = refl;
      result = inl (refl, ltb→le _ _ fits, refl);
    })
  ]

-- An append that goes on from a grown buffer, in which it writes `bytes` at the end.
module _ (s : DynBuf) (bytes : List ℕ) (n : ℕ) (o : DynBuf × Bool → Outcome) where
  IsAppended-grown :
      (r : DynBuf × Bool)
      → IsGrown s n r.0 r.1
      → s.size + length bytes ≤ n
      → ((g : DynBuf) → o (g, true) ≡ returns g true)
      → ((g : DynBuf)
          → IsGrown s n g false
          → s.size + length bytes ≤ g.allocated_size
          → IsAppended g bytes (o (g, false)))
      → IsAppended s bytes (o r)
  IsAppended-grown (g, true) grown fits fails goes_on = record {
    s' = g;
    failed = true;
    returned = fails g;
    valid = grown.valid;
    result = inr (refl, grown.same_contents, ground arith);
  }
  IsAppended-grown (g, false) grown fits fails goes_on =
      let k = goes_on g grown (ground arith) in
      record {
        s' = k.s';
        failed = k.failed;
        returned = k.returned;
        valid = k.valid;
        result = elim k.result [
          | inl (f, c, e) ↦
              inl (f, c ∙ ap (λ xs. xs ++ bytes) grown.same_contents, e ∙ ground arith)
          | inr (f, c, e) ↦ inr (f, c ∙ grown.same_contents, e)
        ];
      }

module _ (grants : ℕ → Bool) (junk : ℕ) where
  -- An append of bytes, whatever the allocator does: it writes inside the block and appends
  -- exactly those bytes, or it fails, leaves the contents and marks the buffer. The sum of the
  -- sizes must not wrap.
  pub dbuf_put-IsAppended :
      (s : DynBuf) (bytes : List ℕ)
      → IsValid s
      → s.size + length bytes < size_mod
      → IsAppended s bytes (dbuf_put grants junk s bytes)
  unfolding dbuf_put
  dbuf_put-IsAppended s bytes v h =
      let n = s.size + length bytes in
      rw (mod-eq_of_lt h) (
        IsAppended-grown s bytes n (store_bytes s.size bytes n) _ (room-IsGrown grants junk s n v h)
          (omega arith) (λ g. unfold store_bytes in refl)
          (λ g grown room.
            subst (λ b. IsAppended g bytes (store_bytes s.size b n (g, false))) (append-nil bytes)
              (store_grown-IsAppended s g bytes [] grown.same_size grown.valid
                (omega (arith, ap length (append-nil bytes))))))

  -- An append of a part of the buffer's own contents appends that part, as it was before the block
  -- moved.
  pub dbuf_put_self-IsAppended :
      (s : DynBuf) (offset len : ℕ)
      → IsValid s
      → offset + len ≤ s.size
      → s.size + len < size_mod
      → IsAppended s (take len (drop offset (contents s))) (dbuf_put_self grants junk s offset len)
  unfolding dbuf_put_self
  dbuf_put_self-IsAppended s offset len v inside h =
      let part = slice offset len s in
      let here = length-slice offset len s v inside in
      let n = s.size + len in
      rw (mod-eq_of_lt h) (
        unfold slice in
        IsAppended-grown s part n (store_self offset len n) _ (room-IsGrown grants junk s n v h)
          (omega (arith, here)) (λ g. unfold store_self in refl)
          (λ g grown room.
            subst (λ b. IsAppended g b (store_self offset len n (g, false)))
              (ap (λ xs. take len (drop offset xs)) grown.same_contents)
              (subst
                (λ k.
                  IsAppended g (slice offset len g) (store_self offset len (k + len) (g, false)))
                grown.same_size
                (store_self-IsAppended g offset len grown.valid (omega (arith, grown.same_size))
                  (omega (arith, grown.same_size))))))

  -- Formatted output appends the text and nothing of its terminator, whether it goes by the
  -- buffer of 128 bytes or straight into the block.
  pub dbuf_printf-IsAppended :
      (s : DynBuf) (text : List ℕ)
      → IsValid s
      → s.size + length text + 1 < size_mod
      → IsAppended s text (dbuf_printf grants junk s (printed text))
  unfolding dbuf_printf
  dbuf_printf-IsAppended s text v h = elim (Bool-cases (ltb (length text) 128)) [
    | inl short ↦ rw short (dbuf_put-IsAppended s text v (omega arith))
    | inr long ↦
        let n = s.size + length text + 1 in
        rw (long, mod-eq_of_lt h)
          (IsAppended-grown s text n (store_text text) _ (dbuf_realloc-IsGrown grants junk s n v h)
            (omega arith) (λ g. unfold store_text in refl)
            (λ g grown room. store_text-IsAppended g text grown.valid (ground arith)))
  ]
