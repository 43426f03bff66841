-- ===== src/Utils/Config/Reading.antt =====
-- What `get` with a default returns for a number, and for a setting that is not there.
use pipeline_tools.Prelude.{◌∷◌, ℕ, ◌^◌, ◌<◌, ◌≡◌, refl, Option, none, some, List, [], ◌∷◌, arith}
use pipeline_tools.Prelude.Int.{pos}
use pipeline_tools.Prelude.Outcome.{runtime_error, thrown, done, Cmd}
use pipeline_tools.Utils.Ranges.RoundTrip.{ascii, value_from, IsNumeral, stoll-ascii}
use pipeline_tools.Utils.Config.{
  pointer, OutType, signed, Setting, integer, to_signed, convert, get_env, get_or,
}

small : (ds : List ℕ) → IsNumeral ds → value_from 0 ds < 2 ^ 31
small [] h = absurd h
small (d ∷ ds) h = omega arith

to_int_small : (n : ℕ) → n < 2 ^ 31 → to_signed 31 (pos n) ≡ pos n
unfolding to_signed
to_int_small n h = ground arith

module _ {Real S : Type 0} (stod : List ℕ → Cmd S Real) (env : List ℕ → Option (List ℕ))
    (key : List ℕ) (default_val : Setting Real) (s : S) where
  pub get_or-absent :
      (t : OutType) → env key ≡ none → get_or stod env t key default_val s ≡ done default_val s
  unfolding get_or
  get_or-absent t e = rw (e, get_env) refl

  -- An `int` that stands in the environment as a numeral.
  pub get_or-numeral :
      (ds : List ℕ)
      → env key ≡ some (ascii ds)
      → IsNumeral ds
      → get_or stod env (signed 31) key default_val s ≡ done (integer (pos (value_from 0 ds))) s
  unfolding get_or
  get_or-numeral ds e h =
      rw (e, get_env, convert, stoll-ascii ds s h, to_int_small (value_from 0 ds) (small ds h)) refl

  -- A pointer type is refused as soon as the setting is there.
  pub get_or-pointer :
      (value : List ℕ)
      → env key ≡ some value
      → get_or stod env pointer key default_val s ≡ thrown runtime_error s
  unfolding get_or
  get_or-pointer value e = rw (e, get_env) refl
