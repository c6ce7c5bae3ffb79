-- ===== src/Examples/CString.antt =====
-- C strings at concrete inputs.
use quickjs_runtime.Prelude.{ℕ, ◌-◌, refl, List, [], ◌∷◌, ◌++◌, take, arith}
use quickjs_runtime.Cutils.CString.{c_string, strlen, pstrcat}
use quickjs_runtime.Cutils.CString.Copy.{IsString, pstrcat-IsString}

abbrev block : List ℕ
block = 97 ∷ 98 ∷ 0 ∷ 7 ∷ 7 ∷ []

pstrcat-IsString_example :
    IsString block
      (c_string block ++ take (4 - strlen block - 1) (65 ∷ 66 ∷ 67 ∷ []))
      (pstrcat block 4 (65 ∷ 66 ∷ 67 ∷ []))
unfolding c_string
pstrcat-IsString_example =
    pstrcat-IsString block 4 (65 ∷ 66 ∷ 67 ∷ []) (refl, (refl, (refl, tt))) (omega arith)
      (omega arith)

abbrev ab : List ℕ
ab = 97 ∷ 98 ∷ []
