-- ===== src/Utils/Strings.antt =====
-- core/src/utils/string_utils.cpp. A string is the list of its bytes; `std::tolower` and `std::toupper`
-- are those of the C locale.
use pipeline_tools.Prelude.{
  ℕ, ◌+◌, ◌-◌, ◌≡◌, ◌↔◌, ◌&&◌, List, [], ◌∷◌, map, leb, if◌then◌else◌, arith,
}

unfoldable pub tolower : ℕ → ℕ
tolower c = if leb b'A' c && leb c b'Z' then c + 32 else c

unfoldable pub toupper : ℕ → ℕ
toupper c = if leb b'a' c && leb c b'z' then c - 32 else c

unfoldable pub stolower : List ℕ → List ℕ
unfolding tolower
stolower str = map tolower str

unfoldable pub stoupper : List ℕ → List ℕ
unfolding toupper
stoupper str = map toupper str

same_letter : (c d : ℕ) → (tolower c ≡ tolower d) ↔ (toupper c ≡ toupper d)
unfolding tolower toupper
same_letter c d = ground arith

-- Two strings are the same in lower case exactly when they are the same in upper case.
pub stolower-stoupper : (s t : List ℕ) → (stolower s ≡ stolower t) ↔ (stoupper s ≡ stoupper t)
unfolding stolower stoupper
stolower-stoupper [] [] = ground arith
stolower-stoupper [] (d ∷ t) = ground arith
stolower-stoupper (c ∷ s) [] = ground arith
stolower-stoupper (c ∷ s) (d ∷ t) = ground (arith, same_letter c d, stolower-stoupper s t)

tolower_twice : (c : ℕ) → tolower (tolower c) ≡ tolower c
unfolding tolower
tolower_twice c = ground arith

-- A string in lower case stays as it is.
pub stolower_twice : (s : List ℕ) → stolower (stolower s) ≡ stolower s
unfolding stolower
stolower_twice [] = ground arith
stolower_twice (c ∷ s) = ground (arith, tolower_twice c, stolower_twice s)
