-- ===== src/Utils/Ranges/Tests.antt =====
-- `parse_numeric_ranges` on inputs of the kind that /sys holds.
use Prim.Native.Char.{code}
use Prim.Native.String.{String}
use pipeline_tools.Prelude.{arith, ℕ, ◌≡◌, refl, List, [], ◌∷◌}
use pipeline_tools.Prelude.Int.{pos, negsuc}
use pipeline_tools.Prelude.Outcome.{done, thrown, invalid_argument}
use pipeline_tools.Utils.Ranges.{parse_numeric_ranges}
use pipeline_tools.Utils.Ranges.RoundTrip.{
  Item, single, span, spell, expand_all, parse_numeric_ranges-spell,
}

abbrev codes : String → List ℕ
codes String.[] = []
codes (String.◌∷◌ c s) = code c ∷ codes s

parses :
    parse_numeric_ranges (codes "0-2,7, 9-8,-")
    ≡ thrown invalid_argument (pos 0 ∷ pos 1 ∷ pos 2 ∷ pos 7 ∷ [])
unfolding parse_numeric_ranges
parses = refl

parses_signed : parse_numeric_ranges (codes "4294967295,3--1,5,") ≡ done tt (negsuc 0 ∷ pos 5 ∷ [])
unfolding parse_numeric_ranges
parses_signed = refl

-- The entries `0-2`, `7` and `9-8`.
abbrev items : List Item
items = span (0 ∷ []) (2 ∷ []) ∷ single (7 ∷ []) ∷ span (9 ∷ []) (8 ∷ []) ∷ []

parse_numeric_ranges-spell_example : parse_numeric_ranges (spell items) ≡ done tt (expand_all items)
parse_numeric_ranges-spell_example = parse_numeric_ranges-spell items (
  (((omega arith, tt), omega arith), ((omega arith, tt), omega arith)),
  (
    ((omega arith, tt), omega arith),
    ((((omega arith, tt), omega arith), ((omega arith, tt), omega arith)), tt),
  ),
)
