-- ===== src/Server/Json.antt =====
-- `nlohmann::json`, which is not part of the repository: an interface, by the operations that the
-- generator calls and their documented results. A value of the type is `null` at first; `at k` is the
-- value under a key, `null` where there is none, and `set k v` is an assignment under a key, on `null`
-- or an object.
use pipeline_tools.Prelude.{ℕ, ◌≡◌, Bool, true, List, if◌then◌else◌, same_text}

pub record JsonLib (Json : Type 0) : Type 0 where
  pub null : Json
  pub object : Json
  pub array : Json
  pub text : List ℕ → Json
  pub flag : Bool → Json
  pub at : List ℕ → Json → Json
  pub set : List ℕ → Json → Json → Json
  pub push_back : Json → Json → Json
  pub dump : Json → List ℕ
  pub holds_object : Json → Bool
  pub at-null : (k : List ℕ) → at k null ≡ null
  pub at-object : (k : List ℕ) → at k object ≡ null
  pub holds_object-null : holds_object null ≡ true
  pub holds_object-object : holds_object object ≡ true
  pub holds_object-set :
      (k : List ℕ) (v j : Json) → holds_object j ≡ true → holds_object (set k v j) ≡ true
  pub at-set :
      (i k : List ℕ) (v j : Json)
      → holds_object j ≡ true
      → at i (set k v j) ≡ (if same_text k i then v else at i j)
