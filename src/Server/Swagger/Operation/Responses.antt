-- ===== src/Server/Swagger/Operation/Responses.antt =====
-- What an operation of the document says of a status code.
use pipeline_tools.Prelude.{
  ℕ, ◌≡◌, refl, ap, ◌∙◌, Bool, true, false, Option, none, some, List, [], ◌∷◌, ◌==◌, if◌then◌else◌,
  codes, same_text, same_text_refl, Bool-cases, inl, inr,
}
use pipeline_tools.Server.Json.{JsonLib}
use pipeline_tools.Server.Swagger.{
  Response, EndpointMetadata, metadata, add_response, to_string, params_json, responses_json,
  operation_json,
}
use pipeline_tools.Server.Swagger.Codes.{same_text-to_string}
use pipeline_tools.Server.Swagger.Operation.{
  or_else, or_else-none, only_if, last_coded, Sorted, assign-Sorted, last_coded-assign,
}

module _ {Json : Type 0} (lib : JsonLib Json) where
  -- `op["responses"][code]["description"]`.
  abbrev pub response_entry : ℕ → Json → Json
  response_entry code op =
      lib.at (codes "description") (lib.at (to_string code) (lib.at (codes "responses") op))

  abbrev pub text_or : Json → Option Response → Json
  text_or j none = j
  text_or j (some res) = lib.text res.description

  -- The operation, its responses and each of them are objects, or `null` where there is nothing.
  record IsOperation (op : Json) : Type 0 where
    whole : lib.holds_object op ≡ true
    responses : lib.holds_object (lib.at (codes "responses") op) ≡ true
    each :
        (code : ℕ)
        → lib.holds_object (lib.at (to_string code) (lib.at (codes "responses") op)) ≡ true

  -- The operation with one more response.
  abbrev with_response : ℕ → Response → Json → Json
  with_response code res op =
      let all = lib.at (codes "responses") op in
      lib.set (codes "responses")
        (lib.set (to_string code)
          (lib.set (codes "description") (lib.text res.description) (lib.at (to_string code) all))
          all)
        op

  module _ (code : ℕ) (res : Response) (op : Json) (s : IsOperation op) where
    at_responses :
        lib.at (codes "responses") (with_response code res op)
        ≡ lib.set
            (to_string code)
            (lib.set
              (codes "description")
              (lib.text res.description)
              (lib.at (to_string code) (lib.at (codes "responses") op)))
            (lib.at (codes "responses") op)
    at_responses = rw (lib.at-set _ _ _ _ s.whole, same_text_refl) refl

    at_code :
        (k : ℕ)
        → lib.at (to_string k) (lib.at (codes "responses") (with_response code res op)) ≡ (
            if code == k
            then lib.set
                (codes "description")
                (lib.text res.description)
                (lib.at (to_string code) (lib.at (codes "responses") op))
            else lib.at (to_string k) (lib.at (codes "responses") op))
    at_code k = rw (at_responses, ← same_text-to_string code k) (lib.at-set _ _ _ _ s.responses)

    at_code_holds_object :
        (k : ℕ)
        → lib.holds_object
            (lib.at (to_string k) (lib.at (codes "responses") (with_response code res op)))
          ≡ true
    at_code_holds_object k = elim (Bool-cases (code == k)) [
      | inl own ↦ rw (at_code k, own) (lib.holds_object-set _ _ _ (s.each code))
      | inr other ↦ rw (at_code k, other) (s.each k)
    ]

    with_response-IsOperation : IsOperation (with_response code res op)
    with_response-IsOperation = record {
      whole = lib.holds_object-set _ _ _ s.whole;
      responses = rw at_responses (lib.holds_object-set _ _ _ s.responses);
      each = at_code_holds_object;
    }

    with_response-entry :
        (k : ℕ)
        → response_entry k (with_response code res op)
          ≡ text_or (response_entry k op) (only_if (code == k) res)
    with_response-entry k = elim (Bool-cases (code == k)) [
      | inl own ↦
          ap (lib.at (codes "description")) (at_code k)
          ∙ rw (own, lib.at-set _ _ _ _ (s.each code), same_text_refl) refl
      | inr other ↦ ap (lib.at (codes "description")) (at_code k) ∙ rw other refl
    ]

  text_or_else :
      (j : Json) (o p : Option Response) → text_or (text_or j p) o ≡ text_or j (or_else o p)
  text_or_else j none p = refl
  text_or_else j (some res) p = refl

  responses_json-entry :
      (rs : List (ℕ × Response)) (op : Json) (k : ℕ)
      → IsOperation op
      → response_entry k (responses_json lib rs op)
        ≡ text_or (response_entry k op) (last_coded k rs)
  unfolding responses_json
  responses_json-entry [] op k s = refl
  responses_json-entry ((code, res) ∷ rs) op k s =
      responses_json-entry rs (with_response code res op) k
        (with_response-IsOperation code res op s)
      ∙ ap (λ j. text_or j (last_coded k rs)) (with_response-entry code res op s k)
      ∙ text_or_else (response_entry k op) (last_coded k rs) (only_if (code == k) res)

  -- An operation before its responses.
  no_responses :
      (summary params : Json)
      → lib.at
          (codes "responses")
          (lib.set (codes "parameters") params (lib.set (codes "summary") summary lib.null))
        ≡ lib.null
  unfolding same_text
  no_responses summary params =
      lib.at-set (codes "responses") (codes "parameters") params _
        (lib.holds_object-set _ _ _ lib.holds_object-null)
      ∙ lib.at-set (codes "responses") (codes "summary") summary lib.null lib.holds_object-null
      ∙ lib.at-null (codes "responses")

  no_responses-IsOperation :
      (summary params : Json)
      → IsOperation
          (lib.set (codes "parameters") params (lib.set (codes "summary") summary lib.null))
  no_responses-IsOperation summary params = record {
    whole = lib.holds_object-set _ _ _ (lib.holds_object-set _ _ _ lib.holds_object-null);
    responses = rw (no_responses summary params) lib.holds_object-null;
    each = λ code.
        rw (no_responses summary params, lib.at-null (to_string code)) lib.holds_object-null;
  }

  operation_json-entry :
      (e : EndpointMetadata) (k : ℕ)
      → response_entry k (operation_json lib e) ≡ text_or lib.null (last_coded k e.responses)
  unfolding operation_json
  operation_json-entry e k =
      let params = params_json lib e.parameters lib.array in
      responses_json-entry e.responses _ k (no_responses-IsOperation (lib.text e.summary) params)
      ∙ ap (λ j. text_or j (last_coded k e.responses))
          (ap (λ j. lib.at (codes "description") (lib.at (to_string k) j))
              (no_responses (lib.text e.summary) params)
            ∙ ap (lib.at (codes "description")) (lib.at-null (to_string k))
            ∙ lib.at-null (codes "description"))

-- A chain of calls of `add_response`.
abbrev pub add_responses : List (ℕ × Response) → EndpointMetadata → EndpointMetadata
add_responses [] e = e
add_responses ((code, res) ∷ rs) e = add_responses rs (add_response code res e).0

or_else_assoc :
    {A : Type 0} (o : Option A) (b : Bool) (a : A) (p : Option A)
    → or_else o (if b then some a else p) ≡ or_else (or_else o (only_if b a)) p
or_else_assoc none true a p = refl
or_else_assoc none false a p = refl
or_else_assoc (some c) b a p = refl

add_responses-coded :
    (rs : List (ℕ × Response)) (e : EndpointMetadata) (k : ℕ)
    → Sorted e.responses
    → last_coded k (add_responses rs e).responses
      ≡ or_else (last_coded k rs) (last_coded k e.responses)
unfolding add_response
add_responses-coded [] e k s = refl
add_responses-coded ((code, res) ∷ rs) e k s =
    add_responses-coded rs (add_response code res e).0 k (assign-Sorted code res e.responses s)
    ∙ ap (or_else (last_coded k rs)) (last_coded-assign k code res e.responses s)
    ∙ or_else_assoc (last_coded k rs) (code == k) res (last_coded k e.responses)

-- For metadata that a chain of calls of `add_response` has built, the operation of the document has under
-- each status code the description of the last call with this code, and nothing where there was none.
pub add_responses-documented :
    {Json : Type 0} (lib : JsonLib Json) (summary : List ℕ) (rs : List (ℕ × Response)) (k : ℕ)
    → response_entry lib k (operation_json lib (add_responses rs (metadata summary)))
      ≡ text_or lib lib.null (last_coded k rs)
add_responses-documented lib summary rs k =
    operation_json-entry lib (add_responses rs (metadata summary)) k
    ∙ ap (text_or lib lib.null)
        (add_responses-coded rs (metadata summary) k tt ∙ or_else-none (last_coded k rs))
