-- ===== src/Server/Swagger/Operation.antt =====
-- The responses of one operation of the document, by the calls of `add_response` that the endpoint's
-- metadata was built with.
pub mod Responses
use mathlib.Core.Path.{subst}
use pipeline_tools.Prelude.{
  ltb→lt, ==_iff, ℕ, suc, ◌<◌, ◌≡◌, refl, sym, ap, ◌∙◌, Bool, true, false, Option, none, some, List,
  [], ◌∷◌, ltb, ◌==◌, if◌then◌else◌, arith, codes, same_text, same_text_refl, Bool-cases, inl, inr,
}
use pipeline_tools.Server.Json.{JsonLib}
use pipeline_tools.Server.Swagger.{
  Response, EndpointMetadata, metadata, assign_response, add_response, to_string, params_json,
  responses_json, operation_json,
}
use pipeline_tools.Server.Swagger.Codes.{same_text-to_string}

abbrev pub or_else : {A : Type 0} → Option A → Option A → Option A
or_else none other = other
or_else (some a) other = some a

abbrev pub only_if : {A : Type 0} → Bool → A → Option A
only_if b a = if b then some a else none

-- The last response with this code.
abbrev pub last_coded : ℕ → List (ℕ × Response) → Option Response
last_coded code [] = none
last_coded code ((c, r) ∷ rs) = or_else (last_coded code rs) (only_if (c == code) r)

pub or_else-none : {A : Type 0} (o : Option A) → or_else o none ≡ o
or_else-none none = refl
or_else-none (some a) = refl

-- The keys of a `std::map` rise.
abbrev pub Above : ℕ → List (ℕ × Response) → Type 0
Above k [] = Unit {0}
Above k ((c, r) ∷ rs) = (k < c) × Above k rs

abbrev pub Sorted : List (ℕ × Response) → Type 0
Sorted [] = Unit {0}
Sorted ((c, r) ∷ rs) = Above c rs × Sorted rs

Above-lower : (k l : ℕ) (rs : List (ℕ × Response)) → k < l → Above l rs → Above k rs
Above-lower k l [] h a = tt
Above-lower k l ((c, r) ∷ rs) h a = (omega (arith, a.0), Above-lower k l rs h a.1)

Above-none : (k : ℕ) (rs : List (ℕ × Response)) → Above k rs → last_coded k rs ≡ none
Above-none k [] a = refl
Above-none k ((c, r) ∷ rs) a = ground (arith, a.0, Above-none k rs a.1)

Above-assign :
    (k code : ℕ) (res : Response) (rs : List (ℕ × Response))
    → k < code
    → Above k rs
    → Above k (assign_response code res rs)
unfolding assign_response
Above-assign k code res [] h a = (h, tt)
Above-assign k code res ((c, r) ∷ rs) h a = elim (Bool-cases (c == code)) [
  | inl same ↦ rw same (h, a.1)
  | inr other ↦ elim (Bool-cases (ltb code c)) [
    | inl before ↦ rw (other, before) (h, (a.0, a.1))
    | inr behind ↦ rw (other, behind) (a.0, Above-assign k code res rs h a.1)
  ]
]

pub assign-Sorted :
    (code : ℕ) (res : Response) (rs : List (ℕ × Response))
    → Sorted rs
    → Sorted (assign_response code res rs)
unfolding assign_response
assign-Sorted code res [] s = (tt, tt)
assign-Sorted code res ((c, r) ∷ rs) s = elim (Bool-cases (c == code)) [
  | inl same ↦ rw same (subst (λ k. Above k rs) ((==_iff c code).0 same) s.0, s.1)
  | inr other ↦ elim (Bool-cases (ltb code c)) [
    | inl before ↦
        rw (other, before)
          ((ltb→lt code c before, Above-lower code c rs (ltb→lt code c before) s.0), s)
    | inr behind ↦
        rw (other, behind)
          (Above-assign c code res rs (ground arith) s.0, assign-Sorted code res rs s.1)
  ]
]

last_coded-replace :
    (k code c : ℕ) (res r : Response) (rs : List (ℕ × Response))
    → c ≡ code
    → Above c rs
    → or_else (last_coded k rs) (only_if (code == k) res)
      ≡ (if code == k then some res else or_else (last_coded k rs) (only_if (c == k) r))
last_coded-replace k code c res r rs e a = elim (Bool-cases (code == k)) [
  | inl own ↦
      let none_left : last_coded k rs ≡ none =
        Above-none k rs (subst (λ j. Above j rs) (e ∙ (==_iff code k).0 own) a) in
      rw (none_left, own) refl
  | inr foreign ↦
      let foreign' : (c == k) ≡ false = ap (λ j. j == k) e ∙ foreign in rw (foreign, foreign') refl
]

last_coded-insert :
    (k code : ℕ) (res : Response) (c : ℕ) (r : Response) (rs : List (ℕ × Response))
    → code < c
    → Above c rs
    → or_else (or_else (last_coded k rs) (only_if (c == k) r)) (only_if (code == k) res)
      ≡ (if code == k then some res else or_else (last_coded k rs) (only_if (c == k) r))
last_coded-insert k code res c r rs h a = elim (Bool-cases (code == k)) [
  | inl own ↦
      let e : code ≡ k = (==_iff code k).0 own in
      let none_left : last_coded k rs ≡ none =
        Above-none k rs (Above-lower k c rs (omega (arith, e)) a) in
      let apart : (c == k) ≡ false = ground (arith, e) in rw (none_left, apart, own) refl
  | inr foreign ↦ rw foreign (or_else-none (or_else (last_coded k rs) (only_if (c == k) r)))
]

or_else_if :
    {A : Type 0} (b : Bool) (a : Option A) (o p : Option A)
    → or_else (if b then a else o) p ≡ (if b then or_else a p else or_else o p)
or_else_if true a o p = refl
or_else_if false a o p = refl

-- An assignment to the map, as one sees it by looking up a code.
pub last_coded-assign :
    (k code : ℕ) (res : Response) (rs : List (ℕ × Response))
    → Sorted rs
    → last_coded k (assign_response code res rs) ≡ (if code == k then some res else last_coded k rs)
unfolding assign_response
last_coded-assign k code res [] s = refl
last_coded-assign k code res ((c, r) ∷ rs) s = elim (Bool-cases (c == code)) [
  | inl same ↦ rw same (last_coded-replace k code c res r rs ((==_iff c code).0 same) s.0)
  | inr other ↦ elim (Bool-cases (ltb code c)) [
    | inl before ↦
        rw (other, before) (last_coded-insert k code res c r rs (ltb→lt code c before) s.0)
    | inr behind ↦
        rw (other, behind)
          (ap (λ o. or_else o (only_if (c == k) r)) (last_coded-assign k code res rs s.1)
            ∙ or_else_if (code == k) (some res) (last_coded k rs) (only_if (c == k) r))
  ]
]
