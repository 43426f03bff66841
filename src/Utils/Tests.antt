-- ===== src/Utils/Tests.antt =====
-- The theorems on settings at a small example.
use pipeline_tools.Prelude.{ℕ, ◌≡◌, true, List, [], ◌∷◌, arith}
use pipeline_tools.Prelude.Outcome.{done, Cmd, pure}
use pipeline_tools.Utils.Config.{signed, integer, convert}
use pipeline_tools.Utils.Config.Numbers.{spelled, meant, convert-spelled}

abbrev no_floats : List ℕ → Cmd (Unit {0}) (Unit {0})
no_floats _ = pure tt

-- The least value of a type of 16 bits.
convert-spelled_example :
    convert no_floats (signed 15) (spelled true (3 ∷ 2 ∷ 7 ∷ 6 ∷ 8 ∷ [])) tt
    ≡ done (integer (meant true 32768)) tt
convert-spelled_example =
    convert-spelled no_floats (signed 15) true 3 (2 ∷ 7 ∷ 6 ∷ 8 ∷ []) tt (omega arith)
      (omega arith, omega arith)
