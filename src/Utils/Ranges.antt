-- ===== src/Utils/Ranges.antt =====
-- core/src/utils/misc_utils.cpp: `parse_numeric_ranges`. A string is the list of its bytes, an `int`
-- an integer from -2^31 to 2^31 - 1, and the state of the commands is the vector `numerics`.
-- `std::getline`, `find`, `substr` and `std::stoll` of the standard library are written out, and the
-- loop over the tokens is a recursion on the split text.
mod Tests
pub mod RoundTrip
pub mod Total
use pipeline_tools.Prelude.{
  ℕ, zero, suc, ◌+◌, ◌-◌, ◌*◌, ◌%◌, ◌^◌, Bool, true, false, ◌&&◌, ◌||◌, Option, none, some, List,
  [], ◌∷◌, ◌++◌, ltb, leb, ◌==◌, if◌then◌else◌,
}
use pipeline_tools.Prelude.Int.{ℤ, pos, negsuc, ◌+ℤ◌, leb_ℤ, sub_ℕ, pos_part, ◌==ℤ◌, ◌-ℤ◌}
use pipeline_tools.Prelude.Outcome.{
  Outcome, invalid_argument, out_of_range, undefined, out_of_fuel, terminated, Cmd, pure, throw,
  ◌>>=◌, ◌>>◌, modify,
}

abbrev pub M : Type 0 → Type 0
M A = Cmd (List ℤ) A

-- `std::isspace` in the C locale.
abbrev pub is_space : ℕ → Bool
is_space c = c == 32 || (leb 9 c && leb c 13)

abbrev pub is_digit : ℕ → Bool
is_digit c = leb b'0' c && leb c b'9'

-- `while (std::getline(ss, token, ','))`: the tokens of the text that is left, the first of which
-- begins with `token`. There is no token behind a final comma, and none in an empty text.
unfoldable pub tokens_from : List ℕ → List ℕ → List (List ℕ)
tokens_from [] [] = []
tokens_from [] (t ∷ ts) = (t ∷ ts) ∷ []
tokens_from (c ∷ cs) token = elim (c == b',') [
  | true ↦ token ∷ tokens_from cs []
  | false ↦ tokens_from cs (token ++ c ∷ [])
]

-- `find('-')` with the two `substr` calls around the position that it returns.
unfoldable pub split_dash : List ℕ → Option (List ℕ × List ℕ)
split_dash [] = none
split_dash (c ∷ cs) =
    let rest = split_dash cs in
    if c == b'-' then some ([], cs) else elim rest [ none ↦ none | some (a, b) ↦ some (c ∷ a, b) ]

unfoldable pub skip_spaces : List ℕ → List ℕ
skip_spaces [] = []
skip_spaces (c ∷ cs) = let rest = skip_spaces cs in if is_space c then rest else c ∷ cs

-- The sign and what follows it; `true` for a minus.
unfoldable pub read_sign : List ℕ → Bool × List ℕ
read_sign [] = (false, [])
read_sign (c ∷ cs) =
    if c == b'-' then (true, cs) else if c == b'+' then (false, cs) else (false, c ∷ cs)

-- The number that the leading digits stand for, after `acc`.
unfoldable pub magnitude : ℕ → List ℕ → ℕ
magnitude acc [] = acc
magnitude acc (c ∷ cs) =
    let rest = magnitude (10 * acc + (c - b'0')) cs in if is_digit c then rest else acc

unfoldable pub starts_with_digit : List ℕ → Bool
starts_with_digit [] = false
starts_with_digit (c ∷ cs) = is_digit c

abbrev pub signed : Bool → ℕ → ℤ
signed negative n = if negative then sub_ℕ 0 n else pos n

-- `std::stoll(text)`: `long long` has 64 bits.
unfoldable pub stoll : {S : Type 0} → List ℕ → Cmd S ℤ
unfolding skip_spaces read_sign magnitude starts_with_digit
stoll text =
    let (negative, body) = read_sign (skip_spaces text) in
    let n : ℕ = magnitude 0 body in
    if starts_with_digit body
    then (if ltb n (2 ^ 63) || (negative && n == 2 ^ 63)
        then pure (signed negative n)
        else throw out_of_range)
    else throw invalid_argument

abbrev pub wrapped : ℕ → ℤ
wrapped w = if ltb w (2 ^ 31) then pos w else negsuc (2 ^ 32 - 1 - w)

-- The conversion to `int`, which keeps the low 32 bits.
unfoldable pub to_int : ℤ → ℤ
to_int (pos n) = wrapped (n % 2 ^ 32)
to_int (negsuc n) = wrapped (2 ^ 32 - 1 - n % 2 ^ 32)

abbrev pub int_max : ℤ
int_max = pos (2 ^ 31 - 1)

abbrev pub push_back : ℤ → M (Unit {0})
push_back i = modify (λ numerics. numerics ++ i ∷ [])

-- `for (int i = start; i <= end; ++i) numerics.push_back(i)`; `++i` overflows at the greatest `int`.
unfoldable pub range_loop : ℕ → ℤ → ℤ → M (Unit {0})
range_loop zero i end = λ _. out_of_fuel
range_loop (suc fuel) i end = elim (leb_ℤ i end) [
  | true ↦
      push_back i >> (if i ==ℤ int_max then (λ _. undefined) else range_loop fuel (i +ℤ pos 1) end)
  | false ↦ pure tt
]

-- One round more than the numbers from `start` to `end`.
abbrev pub rounds : ℤ → ℤ → ℕ
rounds start end = pos_part (end +ℤ pos 1 -ℤ start) + 1

unfoldable pub parse_token : List ℕ → M (Unit {0})
unfolding split_dash stoll to_int range_loop ◌+ℤ◌ ◌-ℤ◌
parse_token token = elim (split_dash token) [
  | none ↦ do n ← stoll token; push_back (to_int n)
  | some (before, after) ↦ do
    start ← stoll before
    end ← stoll after
    range_loop (rounds (to_int start) (to_int end)) (to_int start) (to_int end)
]

unfoldable pub parse_tokens : List (List ℕ) → M (Unit {0})
unfolding parse_token
parse_tokens [] = pure tt
parse_tokens (t ∷ ts) = parse_token t >> parse_tokens ts

-- The vector that is returned is the final state.
unfoldable pub parse_numeric_ranges : List ℕ → Outcome (List ℤ) (Unit {0})
unfolding tokens_from parse_tokens
parse_numeric_ranges input = parse_tokens (tokens_from input []) []
