-- ===== src/Examples/Keys.antt =====
-- Keys of the engine at concrete inputs.
use quickjs_runtime.Prelude.{ℕ, ◌≡◌, refl, true, false, ◌==◌, if◌then◌else◌}
use quickjs_runtime.Engine.Map.Invariant.{IsHashed}
use quickjs_runtime.Engine.Map.Hashing.{
  Doubles, immediate, float64, tag_int, IsExact, engine_keys, engine_keys-IsHashed,
  js_same_value_zero, map_hash_key, number_test, hash_immediate, hash_float64,
}

-- Doubles that are integers, with the words of 2.0 and of 6326.0.
abbrev whole_doubles : Doubles ℕ
whole_doubles = record {
  of_int = λ n. n;
  equals = λ d1 d2. d1 == d2;
  isnan = λ d. false;
  js_float64_nan = 0;
  low = λ d. 0;
  high = λ d. if d == 2 then 0x40000000 else if d == 6326 then 0x40b8b600 else d;
}

whole_doubles-IsExact : IsExact whole_doubles
whole_doubles-IsExact = record { ints = λ n m. refl; numbers = λ n. refl }

keys_without_doubles : IsHashed (engine_keys whole_doubles {D = ⊥} (λ x. absurd x))
keys_without_doubles = engine_keys-IsHashed whole_doubles _ whole_doubles-IsExact (λ x. x)

-- The int 2 and the double 2.0 are one key with two hashes.
two_hashes :
    (js_same_value_zero whole_doubles (λ d. d) (immediate tag_int 2) (float64 2) ≡ true)
    × ((map_hash_key whole_doubles (λ d. d) (immediate tag_int 2)
          == map_hash_key whole_doubles (λ d. d) (float64 2))
        ≡ false)
unfolding js_same_value_zero map_hash_key number_test hash_immediate hash_float64
two_hashes = (refl, refl)
