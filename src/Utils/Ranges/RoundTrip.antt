-- ===== src/Utils/Ranges/RoundTrip.antt =====
-- `parse_numeric_ranges` reads back any list of numerals and spans of numerals.
use pipeline_tools.Prelude.{
  ℕ, zero, suc, ◌+◌, ◌-◌, ◌*◌, ◌^◌, ◌<◌, ◌≡◌, refl, sym, ap, ◌∙◌, ◌≢◌, inl, inr, none, some, List,
  [], ◌∷◌, ◌++◌, map, append-nil, append_assoc, arith, ◌==◌, Bool-cases, lt_or_le,
}
use pipeline_tools.Prelude.Int.{◌-ℤ◌, ℤ, pos, ◌+ℤ◌}
use pipeline_tools.Prelude.Outcome.{invalid_argument, thrown, done}
use pipeline_tools.Utils.Ranges.{
  tokens_from, split_dash, magnitude, stoll, to_int, range_loop, rounds, parse_token, parse_tokens,
  parse_numeric_ranges,
}

-- One entry of the text: a numeral, or two numerals with a dash between. A numeral is its digits.
pub data Item : Type 0 where
  single : List ℕ → Item
  span : List ℕ → List ℕ → Item

abbrev pub value_from : ℕ → List ℕ → ℕ
value_from acc [] = acc
value_from acc (d ∷ ds) = value_from (10 * acc + d) ds

abbrev pub ascii : List ℕ → List ℕ
ascii ds = map (λ d. b'0' + d) ds

abbrev pub AreDigits : List ℕ → Type 0
AreDigits [] = Unit {0}
AreDigits (d ∷ ds) = (d < 10) × AreDigits ds

-- Some digits, whose number is below the greatest `int`.
abbrev pub IsNumeral : List ℕ → Type 0
IsNumeral [] = ⊥
IsNumeral (d ∷ ds) = AreDigits (d ∷ ds) × (value_from 0 (d ∷ ds) < 2 ^ 31 - 1)

pub magnitude-ascii :
    (acc : ℕ) (ds : List ℕ) → AreDigits ds → magnitude acc (ascii ds) ≡ value_from acc ds
unfolding magnitude
magnitude-ascii acc [] h = refl
magnitude-ascii acc (d ∷ ds) h =
    let back : b'0' + d - b'0' ≡ d = omega arith in
    rw back (ground (arith, magnitude-ascii (10 * acc + d) ds h.1))

pub stoll-ascii :
    {S : Type 0} (ds : List ℕ) (s : S)
    → IsNumeral ds
    → stoll (ascii ds) s ≡ done (pos (value_from 0 ds)) s
unfolding stoll
stoll-ascii [] s h = absurd h
stoll-ascii (d ∷ ds) s h = ground (arith, magnitude-ascii 0 (d ∷ ds) h.0)

split_dash-ascii : (ds : List ℕ) → AreDigits ds → split_dash (ascii ds) ≡ none
unfolding split_dash
split_dash-ascii [] h = refl
split_dash-ascii (d ∷ ds) h = ground (arith, split_dash-ascii ds h.1)

split_dash-span :
    (ds es : List ℕ) → AreDigits ds → split_dash (ascii ds ++ b'-' ∷ es) ≡ some (ascii ds, es)
unfolding split_dash
split_dash-span [] es h = refl
split_dash-span (d ∷ ds) es h = ground (arith, split_dash-span ds es h.1)

to_int-pos : (n : ℕ) → n < 2 ^ 31 → to_int (pos n) ≡ pos n
unfolding to_int
to_int-pos n h = ground arith

-- `count` numbers from `lo` on.
abbrev pub interval : ℕ → ℕ → List ℤ
interval zero lo = []
interval (suc count) lo = pos lo ∷ interval count (lo + 1)

+ℤ-one : (n : ℕ) → pos n +ℤ pos 1 ≡ pos (n + 1)
unfolding ◌+ℤ◌
+ℤ-one n = ground arith

range_loop-interval :
    (fuel count lo hi : ℕ) (s : List ℤ)
    → lo + count ≡ hi + 1
    → hi < 2 ^ 31 - 1
    → count < fuel
    → range_loop fuel (pos lo) (pos hi) s ≡ done tt (s ++ interval count lo)
unfolding range_loop
range_loop-interval zero count lo hi s e top h = absurd (omega arith)
range_loop-interval (suc fuel) zero lo hi s e top h = ground (arith, append-nil s)
range_loop-interval (suc fuel) (suc count) lo hi s e top h =
    let ih =
      range_loop-interval fuel count (lo + 1) hi (s ++ pos lo ∷ []) (omega arith) top
        (omega arith) in
    ground (arith, ih, +ℤ-one lo, append_assoc s (pos lo ∷ []) (interval count (lo + 1)))

-- The text of an entry, and the numbers that it stands for.
unfoldable pub text : Item → List ℕ
text (single ds) = ascii ds
text (span ds es) = ascii ds ++ b'-' ∷ ascii es

unfoldable pub expand : Item → List ℤ
expand (single ds) = pos (value_from 0 ds) ∷ []
expand (span ds es) = let lo : ℕ = value_from 0 ds in interval (value_from 0 es + 1 - lo) lo

abbrev pub IsItem : Item → Type 0
IsItem (single ds) = IsNumeral ds
IsItem (span ds es) = IsNumeral ds × IsNumeral es

abbrev pub AreItems : List Item → Type 0
AreItems [] = Unit {0}
AreItems (i ∷ is) = IsItem i × AreItems is

-- The entries with a comma between.
unfoldable pub spell : List Item → List ℕ
unfolding text
spell [] = []
spell (i ∷ []) = text i
spell (i ∷ j ∷ is) = text i ++ b',' ∷ spell (j ∷ is)

unfoldable pub expand_all : List Item → List ℤ
unfolding expand
expand_all [] = []
expand_all (i ∷ is) = expand i ++ expand_all is

IsNumeral-digits : (ds : List ℕ) → IsNumeral ds → AreDigits ds × (value_from 0 ds < 2 ^ 31 - 1)
IsNumeral-digits [] h = absurd h
IsNumeral-digits (d ∷ ds) h = h

range_empty :
    (fuel lo hi : ℕ) (s : List ℤ) → hi < lo → range_loop (suc fuel) (pos lo) (pos hi) s ≡ done tt s
unfolding range_loop
range_empty fuel lo hi s h = ground arith

rounds-pos : (lo hi : ℕ) → rounds (pos lo) (pos hi) ≡ suc (hi + 1 - lo)
unfolding ◌+ℤ◌ ◌-ℤ◌
rounds-pos lo hi = ground arith

range_loop-rounds :
    (lo hi : ℕ) (s : List ℤ)
    → hi < 2 ^ 31 - 1
    → range_loop (rounds (pos lo) (pos hi)) (pos lo) (pos hi) s
      ≡ done tt (s ++ interval (hi + 1 - lo) lo)
range_loop-rounds lo hi s h = elim (lt_or_le hi lo) [
  | inl none_left ↦
      let e : hi + 1 - lo ≡ 0 = omega arith in
      rw (rounds-pos, e) (range_empty 0 lo hi s none_left ∙ ap (done tt) (sym (append-nil s)))
  | inr some_left ↦
      rw (rounds-pos) (range_loop-interval _ (hi + 1 - lo) lo hi s (omega arith) h (omega arith))
]

parse_token-text :
    (i : Item) (s : List ℤ) → IsItem i → parse_token (text i) s ≡ done tt (s ++ expand i)
unfolding parse_token text expand
parse_token-text (single ds) s h =
    let (digits, small) = IsNumeral-digits ds h in
    rw
      (
        split_dash-ascii ds digits,
        parse_token,
        stoll-ascii ds s h,
        to_int-pos (value_from 0 ds) (omega arith),
      )
      refl
parse_token-text (span ds es) s h =
    let (digits, small) = IsNumeral-digits ds h.0 in
    let (digits', small') = IsNumeral-digits es h.1 in
    rw
      (
        split_dash-span ds (ascii es) digits,
        parse_token,
        stoll-ascii ds s h.0,
        stoll-ascii es s h.1,
        to_int-pos (value_from 0 ds) (omega arith),
        to_int-pos (value_from 0 es) (omega arith),
      )
      (range_loop-rounds (value_from 0 ds) (value_from 0 es) s small')

-- A text without commas goes into one token.
abbrev NoComma : List ℕ → Type 0
NoComma [] = Unit {0}
NoComma (c ∷ cs) = (c ≢ b',') × NoComma cs

ascii-NoComma : (ds : List ℕ) → AreDigits ds → NoComma (ascii ds)
ascii-NoComma [] h = tt
ascii-NoComma (d ∷ ds) h = (omega arith, ascii-NoComma ds h.1)

NoComma-append : (cs es : List ℕ) → NoComma cs → NoComma es → NoComma (cs ++ es)
NoComma-append [] es h k = k
NoComma-append (c ∷ cs) es h k = (h.0, NoComma-append cs es h.1 k)

text-NoComma : (i : Item) → IsItem i → NoComma (text i)
unfolding text
text-NoComma (single ds) h = ascii-NoComma ds (IsNumeral-digits ds h).0
text-NoComma (span ds es) h =
    NoComma-append (ascii ds) (b'-' ∷ ascii es) (ascii-NoComma ds (IsNumeral-digits ds h.0).0)
      (omega arith, ascii-NoComma es (IsNumeral-digits es h.1).0)

tokens_from-append :
    (cs rest token : List ℕ)
    → NoComma cs
    → tokens_from (cs ++ rest) token ≡ tokens_from rest (token ++ cs)
unfolding tokens_from
tokens_from-append [] rest token h = rw append-nil
tokens_from-append (c ∷ cs) rest token h =
    ground (arith, tokens_from-append cs rest (token ++ c ∷ []) h.1, append_assoc token (c ∷ []) cs)

text-cons : (i : Item) → IsItem i → (c : ℕ) × (cs : List ℕ) × (text i ≡ c ∷ cs)
unfolding text
text-cons (single []) h = absurd h
text-cons (single (d ∷ ds)) h = (_, _, refl)
text-cons (span [] es) h = absurd h.0
text-cons (span (d ∷ ds) es) h = (_, _, refl)

tokens_from-spell : (is : List Item) → AreItems is → tokens_from (spell is) [] ≡ map text is
unfolding spell tokens_from
tokens_from-spell [] h = refl
tokens_from-spell (i ∷ []) h =
    let (c, cs, e) = text-cons i h.0 in
    ap (λ t. tokens_from t []) (sym (append-nil (text i)))
    ∙ tokens_from-append (text i) [] [] (text-NoComma i h.0)
    ∙ rw e
tokens_from-spell (i ∷ j ∷ is) h =
    tokens_from-append (text i) (b',' ∷ spell (j ∷ is)) [] (text-NoComma i h.0)
    ∙ ap (◌∷◌ (text i)) (tokens_from-spell (j ∷ is) h.1)

parse_tokens-texts :
    (is : List Item) (s : List ℤ)
    → AreItems is
    → parse_tokens (map text is) s ≡ done tt (s ++ expand_all is)
unfolding parse_tokens expand_all
parse_tokens-texts [] s h = rw append-nil
parse_tokens-texts (i ∷ is) s h =
    rw (parse_token-text i s h.0, parse_tokens-texts is (s ++ expand i) h.1, append_assoc)

-- Any list of numerals and spans, written with commas between, is read as the numbers that it lists,
-- in order, if every numeral is below the greatest `int`; a span that runs downwards lists none.
pub parse_numeric_ranges-spell :
    (is : List Item) → AreItems is → parse_numeric_ranges (spell is) ≡ done tt (expand_all is)
unfolding parse_numeric_ranges
parse_numeric_ranges-spell is h =
    ap (λ t. parse_tokens t []) (tokens_from-spell is h) ∙ parse_tokens-texts is [] h

-- The first token of a text keeps the bytes that it began with.
tokens_from-head :
    (cs : List ℕ) (c : ℕ) (token : List ℕ)
    → (rest : List ℕ) × (ts : List (List ℕ)) × (tokens_from cs (c ∷ token) ≡ (c ∷ rest) ∷ ts)
unfolding tokens_from
tokens_from-head [] c token = (token, [], refl)
tokens_from-head (x ∷ cs) c token = elim (Bool-cases (x == b',')) [
  | inl comma ↦ (token, tokens_from cs [], rw (comma, tokens_from))
  | inr other ↦
      let (rest, ts, e) = tokens_from-head cs c (token ++ x ∷ []) in
      (rest, ts, rw (other, tokens_from) e)
]

dash_token :
    (rest : List ℕ) (ts : List (List ℕ))
    → parse_tokens ((b'-' ∷ rest) ∷ ts) [] ≡ thrown invalid_argument []
unfolding parse_tokens parse_token
dash_token rest ts = refl

-- A text that begins with a dash has no number in front of it, and the whole call throws.
pub parse_numeric_ranges-dash :
    (cs : List ℕ) → parse_numeric_ranges (b'-' ∷ cs) ≡ thrown invalid_argument []
unfolding parse_numeric_ranges
parse_numeric_ranges-dash cs =
    let (rest, ts, e) = tokens_from-head cs b'-' [] in
    ap (λ t. parse_tokens t []) e ∙ dash_token rest ts
