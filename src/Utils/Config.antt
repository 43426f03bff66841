-- ===== src/Utils/Config.antt =====
-- core/src/utils/config: settings by the environment. `env` is `getenv`. The type of a setting is that
-- of the template argument; `stod` stands for `std::stod`, whose floating point numbers are a
-- parameter. The state of the commands does not matter.
pub mod Numbers
pub mod Reading
use pipeline_tools.Prelude.{
  ℕ, suc, ◌+◌, ◌-◌, ◌*◌, ◌%◌, ◌^◌, Bool, true, false, Option, none, some, List, [], ◌∷◌, ltb, ◌==◌,
  if◌then◌else◌,
}
use pipeline_tools.Prelude.Int.{ℤ, pos, negsuc}
use pipeline_tools.Prelude.Outcome.{
  Outcome, done, thrown, runtime_error, invalid_argument, out_of_range, Cmd, pure, throw, ◌>>=◌,
  ◌>>◌,
}
use pipeline_tools.Utils.Ranges.{skip_spaces, read_sign, magnitude, starts_with_digit, stoll}

-- `signed n` and `unsigned n` have n + 1 bits; `boolean` is unsigned too. A pointer such as
-- `const char*` is none of the types that `convert` supports.
pub data OutType : Type 0 where
  text floating boolean pointer : OutType
  signed unsigned : ℕ → OutType

pub data Setting (Real : Type 0) : Type 0 where
  string : List ℕ → Setting Real
  real : Real → Setting Real
  flag : Bool → Setting Real
  integer : ℤ → Setting Real
  address : List ℕ → Setting Real

-- `static_cast` to an integer type of n + 1 bits.
unfoldable pub to_signed : ℕ → ℤ → ℤ
to_signed n (pos m) =
    let r = m % 2 ^ suc n in if ltb r (2 ^ n) then pos r else negsuc (2 ^ suc n - 1 - r)
to_signed n (negsuc m) =
    let r = m % 2 ^ suc n in if ltb r (2 ^ n) then negsuc r else pos (2 ^ suc n - 1 - r)

unfoldable pub to_unsigned : ℕ → ℕ → ℕ
to_unsigned n m = m % 2 ^ suc n

-- `std::stoull(text)`: `unsigned long long` has 64 bits, and a minus negates modulo 2^64.
unfoldable pub stoull : {S : Type 0} → List ℕ → Cmd S ℕ
unfolding skip_spaces read_sign magnitude starts_with_digit
stoull value =
    let (negative, body) = read_sign (skip_spaces value) in
    let n : ℕ = magnitude 0 body in
    if starts_with_digit body
    then (if ltb n (2 ^ 64)
        then pure (if negative then (2 ^ 64 - n) % 2 ^ 64 else n)
        else throw out_of_range)
    else throw invalid_argument

module _ {Real S : Type 0} (stod : List ℕ → Cmd S Real) where
  unfoldable pub convert : OutType → List ℕ → Cmd S (Setting Real)
  unfolding stoll stoull to_signed to_unsigned
  convert text value = pure (string value)
  convert floating value = do r ← stod value; pure (real r)
  convert boolean value = do n ← stoull value; pure (flag (if n == 0 then false else true))
  convert (unsigned w) value = do n ← stoull value; pure (integer (pos (to_unsigned w n)))
  convert (signed w) value = do i ← stoll value; pure (integer (to_signed w i))
  convert pointer value = throw runtime_error

  module _ (env : List ℕ → Option (List ℕ)) where
    -- `get_env`, and `get`, which calls it.
    unfoldable pub get_env : OutType → List ℕ → Cmd S (Option (Setting Real))
    unfolding convert
    get_env t key = elim (env key) [
      | none ↦ pure none
      | some value ↦ do v ← convert t value; pure (some v)
    ]

    unfoldable pub value_or : Setting Real → Option (Setting Real) → Setting Real
    value_or default_val none = default_val
    value_or default_val (some v) = v

    -- The overloads with a default.
    unfoldable pub get_env_or : OutType → List ℕ → Setting Real → Cmd S (Setting Real)
    unfolding get_env value_or
    get_env_or t key default_val = do v ← get_env t key; pure (value_or default_val v)

    unfoldable pub get : OutType → List ℕ → Cmd S (Option (Setting Real))
    unfolding get_env
    get t key = get_env t key

    unfoldable pub get_or : OutType → List ℕ → Setting Real → Cmd S (Setting Real)
    unfolding get_env_or
    get_or t key default_val = get_env_or t key default_val
