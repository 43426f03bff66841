-- ===== src/Server/Swagger.antt =====
-- server/src/server/swagger: EndpointMetadata and SwaggerGenerator. A text is the list of its bytes; the
-- endpoints are in the order in which they were added; `responses`, a `std::map`, is in the order of its
-- keys.
pub mod Document
pub mod Codes
pub mod Operation
use pipeline_tools.Prelude.{
  ℕ, zero, suc, ◌+◌, ◌/◌, ◌%◌, Bool, Option, none, some, List, [], ◌∷◌, ◌++◌, ltb, ◌==◌,
  if◌then◌else◌, codes, same_text,
}
use pipeline_tools.Prelude.Outcome.{Outcome, done, thrown, runtime_error, Cmd}
use pipeline_tools.Utils.Strings.{stolower}
use pipeline_tools.Server.Json.{JsonLib}

pub data ParameterLocation : Type 0 where
  url_query path body : ParameterLocation

-- `parameterLocationMap`.
unfoldable pub parameter_location_map : ParameterLocation → List ℕ
parameter_location_map url_query = codes "query"
parameter_location_map path = codes "path"
parameter_location_map body = codes "body"

pub record Parameter : Type 0 where
  pub name : List ℕ
  pub location : ParameterLocation
  pub type_name : List ℕ
  pub required : Bool

pub record Response : Type 0 where
  pub description : List ℕ

pub record EndpointMetadata : Type 0 where
  pub summary : List ℕ
  pub parameters : List Parameter
  pub responses : List (ℕ × Response)

-- `EndpointMetadata(summary)`.
abbrev pub metadata : List ℕ → EndpointMetadata
metadata summary = record { summary = summary; parameters = []; responses = [] }

-- The methods change the object and return a copy of it: the result and the object are the same.
unfoldable pub add_parameter : Parameter → EndpointMetadata → EndpointMetadata × EndpointMetadata
add_parameter parameter e =
    let e' : EndpointMetadata = record e { parameters = e.parameters ++ parameter ∷ [] } in (e', e')

-- `responses[status_code] = res`.
unfoldable pub assign_response : ℕ → Response → List (ℕ × Response) → List (ℕ × Response)
assign_response code res [] = (code, res) ∷ []
assign_response code res ((c, r) ∷ rs) =
    if c == code
    then (code, res) ∷ rs
    else if ltb code c
    then (code, res) ∷ (c, r) ∷ rs
    else (c, r) ∷ assign_response code res rs

unfoldable pub add_response : ℕ → Response → EndpointMetadata → EndpointMetadata × EndpointMetadata
unfolding assign_response
add_response code res e =
    let e' : EndpointMetadata = record e { responses = assign_response code res e.responses } in
    (e', e')

-- The overloads that build the argument first.
unfoldable pub add_parameter_named :
    List ℕ
    → ParameterLocation
    → List ℕ
    → Bool
    → EndpointMetadata
    → EndpointMetadata × EndpointMetadata
unfolding add_parameter
add_parameter_named name location type_name required e =
    add_parameter
      (record { name = name; location = location; type_name = type_name; required = required }) e

unfoldable pub add_response_named :
    ℕ → List ℕ → EndpointMetadata → EndpointMetadata × EndpointMetadata
unfolding add_response
add_response_named code description e = add_response code (record { description = description }) e

pub record Endpoint : Type 0 where
  pub path : List ℕ
  pub method : List ℕ
  pub data_ : EndpointMetadata

-- `std::to_string`; a number has fewer digits than its value plus one.
unfoldable pub digits : ℕ → ℕ → List ℕ
digits zero n = []
digits (suc fuel) n =
    let rest = digits fuel (n / 10) in
    if ltb n 10 then (48 + n) ∷ [] else rest ++ (48 + n % 10) ∷ []

unfoldable pub to_string : ℕ → List ℕ
unfolding digits
to_string n = digits (suc n) n

module _ {Json : Type 0} (lib : JsonLib Json) where
  unfoldable pub param_json : Parameter → Json
  unfolding parameter_location_map
  param_json p =
      let j1 = lib.set (codes "name") (lib.text p.name) lib.null in
      let j2 = lib.set (codes "in") (lib.text (parameter_location_map p.location)) j1 in
      let j3 = lib.set (codes "required") (lib.flag p.required) j2 in
      lib.set (codes "schema")
        (lib.set (codes "type") (lib.text p.type_name) (lib.at (codes "schema") j3)) j3

  -- The loop over the parameters.
  unfoldable pub params_json : List Parameter → Json → Json
  unfolding param_json
  params_json [] params = params
  params_json (p ∷ ps) params = params_json ps (lib.push_back (param_json p) params)

  -- The loop over the responses: `op["responses"][code]["description"] = description`.
  unfoldable pub responses_json : List (ℕ × Response) → Json → Json
  unfolding to_string
  responses_json [] op = op
  responses_json ((code, res) ∷ rs) op =
      let all = lib.at (codes "responses") op in
      let one =
        lib.set (codes "description") (lib.text res.description) (lib.at (to_string code) all) in
      responses_json rs (lib.set (codes "responses") (lib.set (to_string code) one all) op)

  unfoldable pub operation_json : EndpointMetadata → Json
  unfolding params_json responses_json
  operation_json e =
      let op = lib.set (codes "summary") (lib.text e.summary) lib.null in
      responses_json e.responses
        (lib.set (codes "parameters") (params_json e.parameters lib.array) op)

  -- `swagger["paths"][path][method] = op`.
  unfoldable pub add_operation : Endpoint → Json → Json
  unfolding operation_json stolower
  add_operation e swagger =
      let paths = lib.at (codes "paths") swagger in
      let methods = lib.set (stolower e.method) (operation_json e.data_) (lib.at e.path paths) in
      lib.set (codes "paths") (lib.set e.path methods paths) swagger

  unfoldable pub add_operations : List Endpoint → Json → Json
  unfolding add_operation
  add_operations [] swagger = swagger
  add_operations (e ∷ es) swagger = add_operations es (add_operation e swagger)

  -- The document before the loop over the endpoints.
  unfoldable pub preamble : (title version : List ℕ) → Json
  preamble title version =
      let j1 = lib.set (codes "openapi") (lib.text (codes "3.0.0")) lib.null in
      let j2 =
        lib.set (codes "info") (lib.set (codes "title") (lib.text title) (lib.at (codes "info") j1))
          j1 in
      let j3 =
        lib.set (codes "info")
          (lib.set (codes "version") (lib.text version) (lib.at (codes "info") j2)) j2 in
      lib.set (codes "paths") lib.object j3

  unfoldable pub document : (title version : List ℕ) → List Endpoint → Json
  unfolding preamble add_operations
  document title version endpoints = add_operations endpoints (preamble title version)
