-- ===== src/Cutils/Utf8/Exact.antt =====
-- Whatever the decoder accepts is the encoding of what it returns.
use quickjs_runtime.Prelude.{
  ℕ, suc, ◌+◌, ◌-◌, ◌*◌, ◌/◌, ◌%◌, ◌^◌, ◌≤◌, ◌<◌, ◌≡◌, ap, ap₂, ◌∙◌, ◌⊎◌, inl, inr, sym, subst,
  some, List, [], ◌∷◌, ◌++◌, arith, length, dec_lt,
}
use quickjs_runtime.Prelude.Bits.{bit_or_fields, bit_and_mask}
use quickjs_runtime.Cutils.Utf8.{
  Decoded, code, invalid, fault, unicode_to_utf8, unicode_from_utf8, with_trailing, trailing,
  tail_loop, check_min, utf8_min_code,
}
use quickjs_runtime.Cutils.Utf8.Bytes.{lead_1, lead_2, lead_3, lead_4, lead_5}
use quickjs_runtime.Cutils.Utf8.RoundTrip.{
  digit, one_byte, two_bytes, three_bytes, four_bytes, five_bytes, six_bytes,
}

-- One byte of a successful loop: a tail byte, whose six bits are taken over.
record Taken (l c r : ℕ) (p rest : List ℕ) : Type 0 where
  d : ℕ
  p' : List ℕ
  small : d < 64
  here : p ≡ (128 + d) ∷ p'
  loop : tail_loop l (c * 64 + d) p' ≡ code r rest

tail_loop-Taken :
    (l c r : ℕ) (p rest : List ℕ) → tail_loop (suc l) c p ≡ code r rest → Taken l c r p rest
unfolding tail_loop
tail_loop-Taken l c r [] rest h = cc
tail_loop-Taken l c r (b ∷ p) rest h = record {
  d = b - 128;
  p' = p;
  small = ground arith;
  here = ground arith;
  loop = ground (arith, bit_and_mask 6 b, bit_or_fields 6 c (b % 64));
}

tail_loop-done : (c r : ℕ) (p rest : List ℕ) → tail_loop 0 c p ≡ code r rest → (r ≡ c) × (p ≡ rest)
unfolding tail_loop
tail_loop-done c r p rest h = ground arith

check_min-inverse :
    (l r : ℕ) (o : Decoded) (rest : List ℕ)
    → check_min l o ≡ code r rest
    → (o ≡ code r rest) × (utf8_min_code l ≤ r)
unfolding check_min
check_min-inverse l r (code c p) rest h = ground arith
check_min-inverse l r invalid rest h = cc
check_min-inverse l r fault rest h = cc

-- What a decoded code says of the input.
pub record IsExact (p : List ℕ) (max_len r : ℕ) (rest : List ℕ) : Type 0 where
  pub fits : r < 2 ^ 31
  pub bytes : p ≡ unicode_to_utf8 r ++ rest
  pub within : length (unicode_to_utf8 r) ≤ max_len

canonical_two :
    (d max_len r : ℕ) (p rest : List ℕ)
    → d < 32
    → 2 ≤ max_len
    → unicode_from_utf8 ((192 + d) ∷ p) max_len ≡ code r rest
    → IsExact ((192 + d) ∷ p) max_len r rest
unfolding utf8_min_code
canonical_two d max_len r p rest h m e =
    let low = check_min-inverse 1 r _ rest (rw (lead_1 d max_len p h m) at e) in
    let t1 = tail_loop-Taken 0 d r p rest low.0 in
    let done = tail_loop-done (d * 64 + t1.d) r t1.p' rest t1.loop in
    let enc = two_bytes r (omega (arith, low.1)) (omega (arith, done.0, low.1, t1.small)) in
    let byte1 : 128 + t1.d ≡ 128 + digit r 0 = omega (arith, done.0, low.1, t1.small) in
    let lead : 192 + d ≡ 192 + r / 2 ^ 6 = omega (arith, done.0, low.1, t1.small) in
    record {
      fits = omega (arith, done.0, low.1, t1.small);
      bytes = rw enc (ap₂ ◌∷◌ lead (t1.here ∙ ap₂ ◌∷◌ (byte1) (done.1)));
      within = omega (arith, ap length enc);
    }

canonical_three :
    (d max_len r : ℕ) (p rest : List ℕ)
    → d < 16
    → 3 ≤ max_len
    → unicode_from_utf8 ((224 + d) ∷ p) max_len ≡ code r rest
    → IsExact ((224 + d) ∷ p) max_len r rest
unfolding utf8_min_code
canonical_three d max_len r p rest h m e =
    let low = check_min-inverse 2 r _ rest (rw (lead_2 d max_len p h m) at e) in
    let t1 = tail_loop-Taken 1 d r p rest low.0 in
    let t2 = tail_loop-Taken 0 (d * 64 + t1.d) r t1.p' rest t1.loop in
    let done = tail_loop-done ((d * 64 + t1.d) * 64 + t2.d) r t2.p' rest t2.loop in
    let enc =
      three_bytes r (omega (arith, low.1)) (omega (arith, done.0, low.1, t1.small, t2.small)) in
    let byte1 : 128 + t1.d ≡ 128 + digit r 6 = omega (arith, done.0, low.1, t1.small, t2.small) in
    let byte2 : 128 + t2.d ≡ 128 + digit r 0 = omega (arith, done.0, low.1, t1.small, t2.small) in
    let lead : 224 + d ≡ 224 + r / 2 ^ 12 = omega (arith, done.0, low.1, t1.small, t2.small) in
    record {
      fits = omega (arith, done.0, low.1, t1.small, t2.small);
      bytes =
          rw enc (ap₂ ◌∷◌ lead (t1.here ∙ ap₂ ◌∷◌ (byte1) ((t2.here ∙ ap₂ ◌∷◌ (byte2) (done.1)))));
      within = omega (arith, ap length enc);
    }

canonical_four :
    (d max_len r : ℕ) (p rest : List ℕ)
    → d < 8
    → 4 ≤ max_len
    → unicode_from_utf8 ((240 + d) ∷ p) max_len ≡ code r rest
    → IsExact ((240 + d) ∷ p) max_len r rest
unfolding utf8_min_code
canonical_four d max_len r p rest h m e =
    let low = check_min-inverse 3 r _ rest (rw (lead_3 d max_len p h m) at e) in
    let t1 = tail_loop-Taken 2 d r p rest low.0 in
    let t2 = tail_loop-Taken 1 (d * 64 + t1.d) r t1.p' rest t1.loop in
    let t3 = tail_loop-Taken 0 ((d * 64 + t1.d) * 64 + t2.d) r t2.p' rest t2.loop in
    let done = tail_loop-done (((d * 64 + t1.d) * 64 + t2.d) * 64 + t3.d) r t3.p' rest t3.loop in
    let enc =
      four_bytes r (omega (arith, low.1))
        (omega (arith, done.0, low.1, t1.small, t2.small, t3.small)) in
    let byte1 : 128 + t1.d ≡ 128 + digit r 12 =
      omega (arith, done.0, low.1, t1.small, t2.small, t3.small) in
    let byte2 : 128 + t2.d ≡ 128 + digit r 6 =
      omega (arith, done.0, low.1, t1.small, t2.small, t3.small) in
    let byte3 : 128 + t3.d ≡ 128 + digit r 0 =
      omega (arith, done.0, low.1, t1.small, t2.small, t3.small) in
    let lead : 240 + d ≡ 240 + r / 2 ^ 18 =
      omega (arith, done.0, low.1, t1.small, t2.small, t3.small) in
    record {
      fits = omega (arith, done.0, low.1, t1.small, t2.small, t3.small);
      bytes = rw enc (
          ap₂ ◌∷◌ lead (
            t1.here
            ∙ ap₂ ◌∷◌ (byte1)
                ((t2.here ∙ ap₂ ◌∷◌ (byte2) ((t3.here ∙ ap₂ ◌∷◌ (byte3) (done.1)))))));
      within = omega (arith, ap length enc);
    }

canonical_five :
    (d max_len r : ℕ) (p rest : List ℕ)
    → d < 4
    → 5 ≤ max_len
    → unicode_from_utf8 ((248 + d) ∷ p) max_len ≡ code r rest
    → IsExact ((248 + d) ∷ p) max_len r rest
unfolding utf8_min_code
canonical_five d max_len r p rest h m e =
    let low = check_min-inverse 4 r _ rest (rw (lead_4 d max_len p h m) at e) in
    let t1 = tail_loop-Taken 3 d r p rest low.0 in
    let t2 = tail_loop-Taken 2 (d * 64 + t1.d) r t1.p' rest t1.loop in
    let t3 = tail_loop-Taken 1 ((d * 64 + t1.d) * 64 + t2.d) r t2.p' rest t2.loop in
    let t4 = tail_loop-Taken 0 (((d * 64 + t1.d) * 64 + t2.d) * 64 + t3.d) r t3.p' rest t3.loop in
    let done =
      tail_loop-done ((((d * 64 + t1.d) * 64 + t2.d) * 64 + t3.d) * 64 + t4.d) r t4.p' rest
        t4.loop in
    let enc =
      five_bytes r (omega (arith, low.1))
        (omega (arith, done.0, low.1, t1.small, t2.small, t3.small, t4.small)) in
    let byte1 : 128 + t1.d ≡ 128 + digit r 18 =
      omega (arith, done.0, low.1, t1.small, t2.small, t3.small, t4.small) in
    let byte2 : 128 + t2.d ≡ 128 + digit r 12 =
      omega (arith, done.0, low.1, t1.small, t2.small, t3.small, t4.small) in
    let byte3 : 128 + t3.d ≡ 128 + digit r 6 =
      omega (arith, done.0, low.1, t1.small, t2.small, t3.small, t4.small) in
    let byte4 : 128 + t4.d ≡ 128 + digit r 0 =
      omega (arith, done.0, low.1, t1.small, t2.small, t3.small, t4.small) in
    let lead : 248 + d ≡ 248 + r / 2 ^ 24 =
      omega (arith, done.0, low.1, t1.small, t2.small, t3.small, t4.small) in
    record {
      fits = omega (arith, done.0, low.1, t1.small, t2.small, t3.small, t4.small);
      bytes = rw enc (
          ap₂ ◌∷◌ lead (
            t1.here
            ∙ ap₂ ◌∷◌ (byte1) (
                (t2.here
                  ∙ ap₂ ◌∷◌ (byte2)
                      ((t3.here ∙ ap₂ ◌∷◌ (byte3) ((t4.here ∙ ap₂ ◌∷◌ (byte4) (done.1)))))))));
      within = omega (arith, ap length enc);
    }

canonical_six :
    (d max_len r : ℕ) (p rest : List ℕ)
    → d < 2
    → 6 ≤ max_len
    → unicode_from_utf8 ((252 + d) ∷ p) max_len ≡ code r rest
    → IsExact ((252 + d) ∷ p) max_len r rest
unfolding utf8_min_code
canonical_six d max_len r p rest h m e =
    let low = check_min-inverse 5 r _ rest (rw (lead_5 d max_len p h m) at e) in
    let t1 = tail_loop-Taken 4 d r p rest low.0 in
    let t2 = tail_loop-Taken 3 (d * 64 + t1.d) r t1.p' rest t1.loop in
    let t3 = tail_loop-Taken 2 ((d * 64 + t1.d) * 64 + t2.d) r t2.p' rest t2.loop in
    let t4 = tail_loop-Taken 1 (((d * 64 + t1.d) * 64 + t2.d) * 64 + t3.d) r t3.p' rest t3.loop in
    let t5 =
      tail_loop-Taken 0 ((((d * 64 + t1.d) * 64 + t2.d) * 64 + t3.d) * 64 + t4.d) r t4.p' rest
        t4.loop in
    let done =
      tail_loop-done (((((d * 64 + t1.d) * 64 + t2.d) * 64 + t3.d) * 64 + t4.d) * 64 + t5.d) r t5.p'
        rest t5.loop in
    let enc =
      six_bytes r (omega (arith, low.1))
        (omega (arith, done.0, low.1, t1.small, t2.small, t3.small, t4.small, t5.small)) in
    let byte1 : 128 + t1.d ≡ 128 + digit r 24 =
      omega (arith, done.0, low.1, t1.small, t2.small, t3.small, t4.small, t5.small) in
    let byte2 : 128 + t2.d ≡ 128 + digit r 18 =
      omega (arith, done.0, low.1, t1.small, t2.small, t3.small, t4.small, t5.small) in
    let byte3 : 128 + t3.d ≡ 128 + digit r 12 =
      omega (arith, done.0, low.1, t1.small, t2.small, t3.small, t4.small, t5.small) in
    let byte4 : 128 + t4.d ≡ 128 + digit r 6 =
      omega (arith, done.0, low.1, t1.small, t2.small, t3.small, t4.small, t5.small) in
    let byte5 : 128 + t5.d ≡ 128 + digit r 0 =
      omega (arith, done.0, low.1, t1.small, t2.small, t3.small, t4.small, t5.small) in
    let lead : 252 + d ≡ 252 + r / 2 ^ 30 =
      omega (arith, done.0, low.1, t1.small, t2.small, t3.small, t4.small, t5.small) in
    record {
      fits = omega (arith, done.0, low.1, t1.small, t2.small, t3.small, t4.small, t5.small);
      bytes = rw enc (
          ap₂ ◌∷◌ lead (
            t1.here
            ∙ ap₂ ◌∷◌ (byte1) (
                (t2.here
                  ∙ ap₂ ◌∷◌ (byte2) (
                      (t3.here
                        ∙ ap₂ ◌∷◌ (byte3) (
                            (t4.here
                              ∙ ap₂ ◌∷◌ (byte4) ((t5.here ∙ ap₂ ◌∷◌ (byte5) (done.1)))))))))));
      within = omega (arith, ap length enc);
    }

-- A lead byte with `l` trailing bytes was within the limit.
trailing-fits :
    (b max_len r l : ℕ) (p rest : List ℕ)
    → unicode_from_utf8 (b ∷ p) max_len ≡ code r rest
    → 0x80 ≤ b
    → trailing b ≡ some l
    → 0 < l
    → l + 1 ≤ max_len
unfolding unicode_from_utf8 with_trailing
trailing-fits b max_len r l p rest e h t pos = ground arith

no_lead :
    (b max_len r : ℕ) (p rest : List ℕ)
    → unicode_from_utf8 (b ∷ p) max_len ≡ code r rest
    → (b < 0x80) ⊎ ((0xc0 ≤ b) × (b < 0xfe))
unfolding unicode_from_utf8 with_trailing trailing
no_lead b max_len r p rest e = ground arith

ascii :
    (b max_len r : ℕ) (p rest : List ℕ)
    → unicode_from_utf8 (b ∷ p) max_len ≡ code r rest
    → b < 0x80
    → 1 ≤ max_len
    → IsExact (b ∷ p) max_len r rest
unfolding unicode_from_utf8
ascii b max_len r p rest e h m =
    let same : r ≡ b = ground arith in
    let after : p ≡ rest = ground arith in
    let enc = one_byte r (omega arith) in
    record {
      fits = omega arith;
      bytes = rw enc (ap₂ ◌∷◌ (sym same) after);
      within = omega (arith, ap length enc);
    }

module _ (b max_len r : ℕ) (p rest : List ℕ) where
  -- A lead byte as its mark and the rest.
  marked :
      (mark : ℕ)
      → mark ≤ b
      → ((d : ℕ) → b ≡ mark + d → IsExact ((mark + d) ∷ p) max_len r rest)
      → IsExact (b ∷ p) max_len r rest
  marked mark h k =
      let split : b ≡ mark + (b - mark) = omega arith in
      subst (λ (x : ℕ). IsExact (x ∷ p) max_len r rest) (sym split) (k (b - mark) split)

  from_two :
      192 ≤ b
      → b < 0xe0
      → unicode_from_utf8 (b ∷ p) max_len ≡ code r rest
      → IsExact (b ∷ p) max_len r rest
  unfolding trailing
  from_two start end e =
      let fits = trailing-fits b max_len r 1 p rest e (omega arith) (ground arith) (omega arith) in
      marked 192 start
        (λ d q. canonical_two d max_len r p rest (omega arith) (omega (arith, fits)) (rw q at e))

  from_three :
      224 ≤ b
      → b < 0xf0
      → unicode_from_utf8 (b ∷ p) max_len ≡ code r rest
      → IsExact (b ∷ p) max_len r rest
  unfolding trailing
  from_three start end e =
      let fits = trailing-fits b max_len r 2 p rest e (omega arith) (ground arith) (omega arith) in
      marked 224 start
        (λ d q. canonical_three d max_len r p rest (omega arith) (omega (arith, fits)) (rw q at e))

  from_four :
      240 ≤ b
      → b < 0xf8
      → unicode_from_utf8 (b ∷ p) max_len ≡ code r rest
      → IsExact (b ∷ p) max_len r rest
  unfolding trailing
  from_four start end e =
      let fits = trailing-fits b max_len r 3 p rest e (omega arith) (ground arith) (omega arith) in
      marked 240 start
        (λ d q. canonical_four d max_len r p rest (omega arith) (omega (arith, fits)) (rw q at e))

  from_five :
      248 ≤ b
      → b < 0xfc
      → unicode_from_utf8 (b ∷ p) max_len ≡ code r rest
      → IsExact (b ∷ p) max_len r rest
  unfolding trailing
  from_five start end e =
      let fits = trailing-fits b max_len r 4 p rest e (omega arith) (ground arith) (omega arith) in
      marked 248 start
        (λ d q. canonical_five d max_len r p rest (omega arith) (omega (arith, fits)) (rw q at e))

  from_six :
      252 ≤ b
      → b < 0xfe
      → unicode_from_utf8 (b ∷ p) max_len ≡ code r rest
      → IsExact (b ∷ p) max_len r rest
  unfolding trailing
  from_six start end e =
      let fits = trailing-fits b max_len r 5 p rest e (omega arith) (ground arith) (omega arith) in
      marked 252 start
        (λ d q. canonical_six d max_len r p rest (omega arith) (omega (arith, fits)) (rw q at e))

  -- The decoder accepts exact encodings only: a code of at most 31 bits, in the fewest bytes, no
  -- more of them than the limit, with what follows them left over.
  pub unicode_from_utf8-IsExact :
      1 ≤ max_len → unicode_from_utf8 (b ∷ p) max_len ≡ code r rest → IsExact (b ∷ p) max_len r rest
  unicode_from_utf8-IsExact m e = elim (no_lead b max_len r p rest e) [
    | inl low ↦ ascii b max_len r p rest e low m
    | inr (start, end) ↦ elim (dec_lt b 0xe0) [
      | yes x ↦ from_two start x e
      | no x ↦ elim (dec_lt b 0xf0) [
        | yes y ↦ from_three (omega arith) y e
        | no y ↦ elim (dec_lt b 0xf8) [
          | yes z ↦ from_four (omega arith) z e
          | no z ↦ elim (dec_lt b 0xfc) [
            | yes u ↦ from_five (omega arith) u e
            | no u ↦ from_six (omega arith) end e
          ]
        ]
      ]
    ]
  ]
