-- ===== src/Engine/Map/Hashing.antt =====
-- The keys of maps in native/quickjs/quickjs.c: `js_same_value_zero`, `map_hash_key` and
-- `map_normalize_key`, without big numbers.
use quickjs_runtime.Prelude.{
  ℕ, ◌+◌, ◌-◌, ◌*◌, ◌%◌, ◌^◌, ◌≡◌, refl, sym, subst, ap, ◌∙◌, Bool, true, false, ◌==◌, ◌&&◌, ◌||◌,
  not, if◌then◌else◌, List, [], ◌∷◌, bit_xor, arith, ==_iff, ◌⊎◌,
}
use quickjs_runtime.Engine.Map.{Keys}
use quickjs_runtime.Engine.Map.Invariant.{IsHashed}

-- The doubles of C. An `int` is given by its 32-bit word; `low` and `high` are the two words of a
-- double's representation.
pub record Doubles (Double : Type 0) : Type 0 where
  pub of_int : ℕ → Double
  pub equals : Double → Double → Bool
  pub isnan : Double → Bool
  pub js_float64_nan : Double
  pub low : Double → ℕ
  pub high : Double → ℕ

-- The tags as 32-bit words.
abbrev pub tag_symbol : ℕ
tag_symbol = 2 ^ 32 - 8

abbrev pub tag_string : ℕ
tag_string = 2 ^ 32 - 7

abbrev pub tag_object : ℕ
tag_object = 2 ^ 32 - 1

abbrev pub tag_int : ℕ
tag_int = 0

abbrev pub tag_bool : ℕ
tag_bool = 1

abbrev pub tag_null : ℕ
tag_null = 2

abbrev pub tag_undefined : ℕ
tag_undefined = 3

abbrev pub tag_float64 : ℕ
tag_float64 = 7

-- A value by its tag: `immediate` has the word of an int, a bool, null or undefined, and `pointer`
-- the address of a symbol or an object. A double is one of those that `D` stands for.
pub data Key (D : Type 0) : Type 0 where
  immediate : ℕ → ℕ → Key D
  pointer : ℕ → ℕ → Key D
  string : List ℕ → Key D
  float64 : D → Key D

-- `js_string_compare` gives 0.
unfoldable pub same_units : List ℕ → List ℕ → Bool
same_units [] [] = true
same_units (x ∷ xs) (y ∷ ys) = (x == y) && same_units xs ys
same_units [] (y ∷ ys) = false
same_units (x ∷ xs) [] = false

unfoldable pub hash_string : List ℕ → ℕ → ℕ
hash_string [] h = h
hash_string (x ∷ xs) h = hash_string xs ((h * 263 + x) % 2 ^ 32)

module _ {Double : Type 0} (doubles : Doubles Double) where
  open doubles use {of_int, equals, isnan, js_float64_nan, low, high}

  -- `number_test` for JS_EQ_SAME_VALUE_ZERO.
  unfoldable pub number_test : Double → Double → Bool
  number_test d1 d2 =
      if isnan d1 || isnan d2 then (if isnan d1 then isnan d2 else not (isnan d2)) else equals d1 d2

  unfoldable pub same_immediate : ℕ → ℕ → ℕ → Bool
  same_immediate tag n m =
      if tag == tag_bool
      then n == m
      else (if tag == tag_null || tag == tag_undefined
          then true
          else (if tag == tag_int then number_test (of_int n) (of_int m) else false))

  unfoldable pub hash_float64 : Double → ℕ
  hash_float64 d = bit_xor (low d) (high d) * 3163 % 2 ^ 32

  unfoldable pub hash_immediate : ℕ → ℕ → ℕ
  hash_immediate tag n =
      if tag == tag_bool
      then n
      else (if tag == tag_int then hash_float64 (of_int (n * 3163 % 2 ^ 32)) else 0)

  module _ {D : Type 0} (double : D → Double) where
    unfoldable pub js_same_value_zero : Key D → Key D → Bool
    js_same_value_zero (immediate tag1 n) (immediate tag2 m) =
        if tag1 == tag2 then same_immediate tag1 n m else false
    js_same_value_zero (pointer tag1 p) (pointer tag2 q) = (tag1 == tag2) && (p == q)
    js_same_value_zero (string s) (string t) = same_units s t
    js_same_value_zero (float64 x) (float64 y) = number_test (double x) (double y)
    js_same_value_zero (immediate tag1 n) (float64 y) =
        if tag1 == tag_int then number_test (of_int n) (double y) else false
    js_same_value_zero (float64 x) (immediate tag2 m) =
        if tag2 == tag_int then number_test (double x) (of_int m) else false
    js_same_value_zero _ _ = false

    unfoldable pub map_hash_key : Key D → ℕ
    map_hash_key (immediate tag n) = bit_xor (hash_immediate tag n) tag
    map_hash_key (pointer tag p) = bit_xor (p * 3163 % 2 ^ 32) tag
    map_hash_key (string s) = bit_xor (hash_string s 0) tag_string
    map_hash_key (float64 x) =
        bit_xor (hash_float64 (if isnan (double x) then js_float64_nan else double x)) tag_float64

    -- Both zeros become the int 0.
    unfoldable pub map_normalize_key : Key D → Key D
    map_normalize_key (float64 x) =
        if equals (double x) (of_int 0) then immediate tag_int 0 else float64 x
    map_normalize_key key = key

    abbrev pub engine_keys : Keys (Key D)
    engine_keys = record {
      js_same_value_zero = js_same_value_zero;
      map_hash_key = map_hash_key;
      map_normalize_key = map_normalize_key;
    }

-- The conversion of an `int` to a double is exact, and gives a number.
pub record IsExact {Double : Type 0} (doubles : Doubles Double) : Type 0 where
  pub ints : (n m : ℕ) → doubles.equals (doubles.of_int n) (doubles.of_int m) ≡ (n == m)
  pub numbers : (n : ℕ) → doubles.isnan (doubles.of_int n) ≡ false

same_units-eq : (xs ys : List ℕ) → same_units xs ys ≡ true → xs ≡ ys
unfolding same_units
same_units-eq [] [] h = refl
same_units-eq (x ∷ xs) (y ∷ ys) h = ground (arith, same_units-eq xs ys, ==_iff x y)
same_units-eq [] (y ∷ ys) h = cc
same_units-eq (x ∷ xs) [] h = cc

same_units_self : (xs : List ℕ) → same_units xs xs ≡ true
unfolding same_units
same_units_self [] = refl
same_units_self (x ∷ xs) = ground (arith, same_units_self xs, ==_iff x x)

module _ {Double D : Type 0} (doubles : Doubles Double) (double : D → Double)
    (exact : IsExact doubles) where
  number_test-ints :
      (n m : ℕ) → number_test doubles (doubles.of_int n) (doubles.of_int m) ≡ (n == m)
  unfolding number_test
  number_test-ints n m = rw (exact.numbers n, exact.numbers m) (exact.ints n m)

  same_immediate-cases :
      (tag n m : ℕ)
      → same_immediate doubles tag n m ≡ true
      → (n ≡ m) ⊎ (tag ≡ tag_null) ⊎ (tag ≡ tag_undefined)
  unfolding same_immediate
  same_immediate-cases tag n m h = ground (arith, number_test-ints n m, ==_iff n m)

  same_immediate-euclidean :
      (tag n m q : ℕ)
      → same_immediate doubles tag n q ≡ true
      → same_immediate doubles tag m q ≡ true
      → same_immediate doubles tag n m ≡ true
  unfolding same_immediate
  same_immediate-euclidean tag n m q h h' = ground (
    arith,
    number_test-ints n m,
    number_test-ints n q,
    number_test-ints m q,
    ==_iff n m,
    ==_iff n q,
    ==_iff m q,
  )

  module _ (none : ¬ D) where
    same-hash :
        (a k : Key D)
        → js_same_value_zero doubles double a k ≡ true
        → map_hash_key doubles double a ≡ map_hash_key doubles double k
    unfolding js_same_value_zero map_hash_key hash_immediate same_immediate
    same-hash (immediate t1 n1) (immediate t2 n2) h =
        ground (arith, same_immediate-cases t1 n1 n2, ==_iff t1 t2)
    same-hash (immediate t1 n1) (pointer t2 p2) h = cc
    same-hash (immediate t1 n1) (string s2) h = cc
    same-hash (immediate t1 n1) (float64 x2) h = absurd (none x2)
    same-hash (pointer t1 p1) (immediate t2 n2) h = cc
    same-hash (pointer t1 p1) (pointer t2 p2) h = ground (arith, ==_iff t1 t2, ==_iff p1 p2)
    same-hash (pointer t1 p1) (string s2) h = cc
    same-hash (pointer t1 p1) (float64 x2) h = absurd (none x2)
    same-hash (string s1) (immediate t2 n2) h = cc
    same-hash (string s1) (pointer t2 p2) h = cc
    same-hash (string s1) (string s2) h =
        ap (λ s. bit_xor (hash_string s 0) tag_string) (same_units-eq s1 s2 h)
    same-hash (string s1) (float64 x2) h = absurd (none x2)
    same-hash (float64 x1) k h = absurd (none x1)

    same-euclidean :
        (a b k : Key D)
        → js_same_value_zero doubles double a k ≡ true
        → js_same_value_zero doubles double b k ≡ true
        → js_same_value_zero doubles double a b ≡ true
    unfolding js_same_value_zero
    same-euclidean a b (float64 x3) h h' = absurd (none x3)
    same-euclidean (immediate t1 n1) (immediate t2 n2) (immediate t3 n3) h h' =
        ground
          (arith, same_immediate-euclidean t1 n1 n2 n3, ==_iff t1 t2, ==_iff t2 t3, ==_iff t1 t3)
    same-euclidean (immediate t1 n1) (pointer t2 p2) (immediate t3 n3) h h' = cc
    same-euclidean (immediate t1 n1) (string s2) (immediate t3 n3) h h' = cc
    same-euclidean (immediate t1 n1) (float64 x2) (immediate t3 n3) h h' = absurd (none x2)
    same-euclidean (pointer t1 p1) b (immediate t3 n3) h h' = cc
    same-euclidean (string s1) b (immediate t3 n3) h h' = cc
    same-euclidean (float64 x1) b (immediate t3 n3) h h' = absurd (none x1)
    same-euclidean (immediate t1 n1) b (pointer t3 p3) h h' = cc
    same-euclidean (pointer t1 p1) (immediate t2 n2) (pointer t3 p3) h h' = cc
    same-euclidean (pointer t1 p1) (pointer t2 p2) (pointer t3 p3) h h' =
        ground (
          arith,
          ==_iff t1 t3,
          ==_iff t2 t3,
          ==_iff t1 t2,
          ==_iff p1 p3,
          ==_iff p2 p3,
          ==_iff p1 p2,
        )
    same-euclidean (pointer t1 p1) (string s2) (pointer t3 p3) h h' = cc
    same-euclidean (pointer t1 p1) (float64 x2) (pointer t3 p3) h h' = absurd (none x2)
    same-euclidean (string s1) b (pointer t3 p3) h h' = cc
    same-euclidean (float64 x1) b (pointer t3 p3) h h' = absurd (none x1)
    same-euclidean (immediate t1 n1) b (string s3) h h' = cc
    same-euclidean (pointer t1 p1) b (string s3) h h' = cc
    same-euclidean (string s1) (immediate t2 n2) (string s3) h h' = cc
    same-euclidean (string s1) (pointer t2 p2) (string s3) h h' = cc
    same-euclidean (string s1) (string s2) (string s3) h h' =
        subst (λ s. same_units s1 s ≡ true) (same_units-eq s1 s3 h ∙ sym (same_units-eq s2 s3 h'))
          (same_units_self s1)
    same-euclidean (string s1) (float64 x2) (string s3) h h' = absurd (none x2)
    same-euclidean (float64 x1) b (string s3) h h' = absurd (none x1)

    -- The laws of keys hold of the engine's functions for keys that are not doubles.
    pub engine_keys-IsHashed : IsHashed (engine_keys doubles double)
    engine_keys-IsHashed = record { euclidean = same-euclidean; same_hash = same-hash }
