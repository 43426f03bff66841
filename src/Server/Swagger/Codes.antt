-- ===== src/Server/Swagger/Codes.antt =====
-- Different status codes have different texts.
use pipeline_tools.Prelude.{
  ℕ, zero, suc, ◌+◌, ◌-◌, ◌*◌, ◌/◌, ◌%◌, ◌<◌, ◌≡◌, refl, sym, ap, ◌∙◌, List, [], ◌∷◌, ◌++◌, ltb,
  ◌==◌, ==_iff, arith, same_text, same_text_iff, same_text_refl, Bool-cases, inl, inr,
}
use pipeline_tools.Server.Swagger.{digits, to_string}

-- The number that some digits stand for, after `acc`.
abbrev value_of : ℕ → List ℕ → ℕ
value_of acc [] = acc
value_of acc (c ∷ cs) = value_of (10 * acc + (c - 48)) cs

value_of-append :
    (acc : ℕ) (cs : List ℕ) (c : ℕ) → value_of acc (cs ++ c ∷ []) ≡ 10 * value_of acc cs + (c - 48)
value_of-append acc [] c = refl
value_of-append acc (d ∷ cs) c = value_of-append (10 * acc + (d - 48)) cs c

digits-value_of : (fuel n : ℕ) → n < fuel → value_of 0 (digits fuel n) ≡ n
unfolding digits
digits-value_of zero n h = absurd (omega arith)
digits-value_of (suc fuel) n h = elim (Bool-cases (ltb n 10)) [
  | inl small ↦ rw small (omega arith)
  | inr large ↦
      rw (large, value_of-append 0 (digits fuel (n / 10)) (48 + n % 10))
        (ground (arith, digits-value_of fuel (n / 10)))
]

to_string-value_of : (n : ℕ) → value_of 0 (to_string n) ≡ n
unfolding to_string
to_string-value_of n = digits-value_of (suc n) n (omega arith)

to_string-injective : (a b : ℕ) → to_string a ≡ to_string b → a ≡ b
to_string-injective a b e = sym (to_string-value_of a) ∙ ap (value_of 0) e ∙ to_string-value_of b

pub same_text-to_string : (a b : ℕ) → same_text (to_string a) (to_string b) ≡ (a == b)
same_text-to_string a b = elim (Bool-cases (same_text (to_string a) (to_string b))) [
  | inl same ↦
      let e : a ≡ b =
        to_string-injective a b ((same_text_iff (to_string a) (to_string b)).0 same) in
      ground (arith, same, e)
  | inr apart ↦ elim (Bool-cases (a == b)) [
    | inl equal ↦
        let e : a ≡ b = (==_iff a b).0 equal in
        absurd (
          ground (
            arith,
            apart,
            ap (λ c. same_text (to_string a) (to_string c)) e,
            same_text_refl (to_string a),
          ))
    | inr other ↦ apart ∙ sym other
  ]
]
