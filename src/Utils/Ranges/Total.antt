-- ===== src/Utils/Ranges/Total.antt =====
-- What `parse_numeric_ranges` does on any text.
use pipeline_tools.Prelude.{
  ℕ, zero, suc, ◌^◌, ◌≤◌, ◌<◌, ◌≡◌, inl, inr, true, false, Bool-cases, Option-cases, List, [], ◌∷◌,
  ◌++◌, arith,
}
use pipeline_tools.Prelude.Int.{ℤ, pos, negsuc, pos_part, neg_part, ◌+ℤ◌, ◌-ℤ◌, ◌==ℤ◌, leb_ℤ}
use pipeline_tools.Prelude.Outcome.{
  Outcome, done, thrown, blocked, undefined, out_of_fuel, terminated, and_then,
}
use pipeline_tools.Utils.Ranges.{
  M, tokens_from, split_dash, stoll, to_int, range_loop, int_max, parse_token, parse_tokens,
  parse_numeric_ranges,
}

-- A number that fits an `int`.
abbrev pub IsInt : ℤ → Type 0
IsInt i = (pos_part i < 2 ^ 31) × (neg_part i ≤ 2 ^ 31)

abbrev pub AreInts : List ℤ → Type 0
AreInts [] = Unit {0}
AreInts (i ∷ is) = IsInt i × AreInts is

-- The call returns, throws or leaves the language's defined behaviour, with numbers in the vector that fit
-- an `int`; it neither waits for ever nor stops for want of fuel.
abbrev pub Settles : {A : Type 0} → Outcome (List ℤ) A → Type 0
Settles (done a s) = AreInts s
Settles (thrown e s) = AreInts s
Settles undefined = Unit {0}
Settles blocked = ⊥
Settles out_of_fuel = ⊥
Settles terminated = ⊥

Settles-bind :
    {A B : Type 0} (o : Outcome (List ℤ) A) (k : A → M B)
    → Settles o
    → ((a : A) (s : List ℤ) → AreInts s → Settles (k a s))
    → Settles (and_then o k)
Settles-bind (done a s) k h f = f a s h
Settles-bind (thrown e s) k h f = h
Settles-bind undefined k h f = tt
Settles-bind blocked k h f = absurd h
Settles-bind out_of_fuel k h f = absurd h
Settles-bind terminated k h f = absurd h

AreInts-append : (is : List ℤ) (i : ℤ) → AreInts is → IsInt i → AreInts (is ++ i ∷ [])
AreInts-append [] i h k = (k, tt)
AreInts-append (j ∷ is) i h k = (h.0, AreInts-append is i h.1 k)

to_int-IsInt : (i : ℤ) → IsInt (to_int i)
unfolding to_int
to_int-IsInt (pos n) = ground arith
to_int-IsInt (negsuc n) = ground arith

next-IsInt : (i : ℤ) → IsInt i → (i ==ℤ int_max) ≡ false → IsInt (i +ℤ pos 1)
unfolding ◌+ℤ◌
next-IsInt i h e = ground arith

fewer :
    (i end : ℤ) (fuel : ℕ)
    → leb_ℤ i end ≡ true
    → pos_part (end +ℤ pos 1 -ℤ i) < suc fuel
    → pos_part (end +ℤ pos 1 -ℤ (i +ℤ pos 1)) < fuel
unfolding ◌+ℤ◌ ◌-ℤ◌
fewer i end fuel le h = ground arith

range_loop-Settles :
    (fuel : ℕ) (i end : ℤ) (s : List ℤ)
    → IsInt i
    → pos_part (end +ℤ pos 1 -ℤ i) < fuel
    → AreInts s
    → Settles (range_loop fuel i end s)
unfolding range_loop
range_loop-Settles zero i end s hi h hs = absurd (omega arith)
range_loop-Settles (suc fuel) i end s hi h hs = elim (Bool-cases (leb_ℤ i end)) [
  | inl le ↦ elim (Bool-cases (i ==ℤ int_max)) [
    | inl top ↦ rw (le, range_loop, top) tt
    | inr below ↦
        rw (le, range_loop, below)
          (range_loop-Settles fuel (i +ℤ pos 1) end (s ++ i ∷ []) (next-IsInt i hi below)
            (fewer i end fuel le h) (AreInts-append s i hs hi))
  ]
  | inr past ↦ rw (past, range_loop) hs
]

stoll-Settles : (text : List ℕ) (s : List ℤ) → AreInts s → Settles (stoll text s)
unfolding stoll
stoll-Settles text s h = ground arith

parse_token-Settles : (token : List ℕ) (s : List ℤ) → AreInts s → Settles (parse_token token s)
unfolding parse_token
parse_token-Settles token s h = elim (Option-cases (split_dash token)) [
  | inl e ↦
      rw (e, parse_token)
        (Settles-bind (stoll token s) _ (stoll-Settles token s h)
          (λ n s' h'. AreInts-append s' (to_int n) h' (to_int-IsInt n)))
  | inr ((before, after), e) ↦
      rw (e, parse_token)
        (Settles-bind (stoll before s) _ (stoll-Settles before s h) (λ start s1 h1.
          Settles-bind (stoll after s1) _ (stoll-Settles after s1 h1) (λ end s2 h2.
            range_loop-Settles _ (to_int start) (to_int end) s2 (to_int-IsInt start) (omega arith)
              h2)))
]

parse_tokens-Settles : (ts : List (List ℕ)) (s : List ℤ) → AreInts s → Settles (parse_tokens ts s)
unfolding parse_tokens
parse_tokens-Settles [] s h = h
parse_tokens-Settles (t ∷ ts) s h =
    Settles-bind (parse_token t s) _ (parse_token-Settles t s h)
      (λ _ s' h'. parse_tokens-Settles ts s' h')

-- On every text, the call returns, throws or leaves the language's defined behaviour, and never waits for
-- ever or runs out of fuel; the numbers that it has pushed when it returns or throws fit an `int`.
pub parse_numeric_ranges-Settles : (input : List ℕ) → Settles (parse_numeric_ranges input)
unfolding parse_numeric_ranges
parse_numeric_ranges-Settles input = parse_tokens-Settles (tokens_from input []) [] tt
