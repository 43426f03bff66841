-- ===== src/Flow/Any.antt =====
-- The values that flow objects pass on, and `nstd::any`, which carries them. The library nstd is not
-- part of the repository: it is an interface, by the operations that the framework calls and their
-- documented results.
use pipeline_tools.Prelude.{
  ℕ, ◌≡◌, Bool, true, false, Option, none, some, List, ◌==◌, if◌then◌else◌,
}

-- The type of a value: a plain type, or `std::vector` of one.
pub data TypeId : Type 0 where
  plain vector : ℕ → TypeId

-- A value of the plain type `t`, or a vector of such values, by numbers that tell them apart.
pub data Value : Type 0 where
  item : (t payload : ℕ) → Value
  batch : (t : ℕ) → List ℕ → Value

abbrev pub type_of : Value → TypeId
type_of (item t v) = plain t
type_of (batch t vs) = vector t

abbrev pub same_type : TypeId → TypeId → Bool
same_type (plain s) (plain t) = s == t
same_type (vector s) (vector t) = s == t
same_type _ _ = false

-- `cast t a` is `nstd::any_cast<T>(a)`, `none` where it throws `nstd::bad_any_cast`.
pub record AnyLib (Any : Type 0) : Type 0 where
  pub empty : Any
  pub nullopt : Any
  pub wrap : Value → Any
  pub has_value : Any → Bool
  pub is_nullopt : Any → Bool
  pub cast : TypeId → Any → Option Value
  pub has_value-empty : has_value empty ≡ false
  pub has_value-nullopt : has_value nullopt ≡ true
  pub has_value-wrap : (v : Value) → has_value (wrap v) ≡ true
  pub is_nullopt-empty : is_nullopt empty ≡ false
  pub is_nullopt-nullopt : is_nullopt nullopt ≡ true
  pub is_nullopt-wrap : (v : Value) → is_nullopt (wrap v) ≡ false
  pub cast-empty : (t : TypeId) → cast t empty ≡ none
  pub cast-nullopt : (t : TypeId) → cast t nullopt ≡ none
  pub cast-wrap :
      (t : TypeId) (v : Value)
      → cast t (wrap v) ≡ (if same_type (type_of v) t then some v else none)
