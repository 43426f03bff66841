-- ===== src/Server/Tests.antt =====
-- The theorems on the server, with a small type of JSON documents.
use pipeline_tools.Prelude.{
  arith, ℕ, ◌≡◌, refl, Bool, true, false, Option, none, some, List, [], ◌∷◌, ◌++◌, map, codes,
  same_text, if◌then◌else◌,
}
use pipeline_tools.Prelude.Outcome.{done, thrown, runtime_error, Cmd, pure}
use pipeline_tools.Utils.Logging.{initialize_dawglogger}
use pipeline_tools.Server.Json.{JsonLib}
use pipeline_tools.Server.Swagger.Operation.{last_coded}
use pipeline_tools.Server.Swagger.Operation.Responses.{
  response_entry, text_or, add_responses, add_responses-documented,
}
use pipeline_tools.Server.Swagger.{Response, operation_json, Endpoint, document, metadata}
use pipeline_tools.Server.Swagger.Document.{entry, described, last_named, document-entry}
use pipeline_tools.Server.Registry.{Registry, Site, start, register_endpoint}
use pipeline_tools.Server.Registry.Start.{Declared, declare_all, served, start-documents}
use pipeline_tools.Server.Program.{main, main_endpoints, answer_true}
use pipeline_tools.Server.Program.Startup.{main_declared, main-host_set, main-host_unset}

-- An object is its entries, the latest first; an array is its items, the latest first.
data Doc : Type 0 where
  nothing empty_object empty_array : Doc
  words : List ℕ → Doc
  yes_no : Bool → Doc
  with_entry : List ℕ → Doc → Doc → Doc
  with_item : Doc → Doc → Doc

abbrev at_key : List ℕ → Doc → Doc
at_key k (with_entry j v rest) = if same_text j k then v else at_key k rest
at_key k _ = nothing

abbrev set_key : List ℕ → Doc → Doc → Doc
set_key k v nothing = with_entry k v empty_object
set_key k v empty_object = with_entry k v empty_object
set_key k v (with_entry j w rest) = with_entry k v (with_entry j w rest)
set_key k v d = d

abbrev is_object : Doc → Bool
is_object nothing = true
is_object empty_object = true
is_object (with_entry j w rest) = true
is_object _ = false

abbrev written : Doc → List ℕ
written nothing = codes "null"
written empty_object = codes "{}"
written empty_array = codes "[]"
written (words t) = t
written (yes_no b) = if b then codes "true" else codes "false"
written (with_entry k v rest) = k ++ codes ":" ++ written v ++ codes "," ++ written rest
written (with_item d rest) = written d ++ codes ";" ++ written rest

is_object-set : (k : List ℕ) (v j : Doc) → is_object j ≡ true → is_object (set_key k v j) ≡ true
is_object-set k v nothing h = refl
is_object-set k v empty_object h = refl
is_object-set k v (with_entry j w rest) h = refl
is_object-set k v empty_array h = h
is_object-set k v (words t) h = h
is_object-set k v (yes_no b) h = h
is_object-set k v (with_item d rest) h = h

at_key-set :
    (i k : List ℕ) (v j : Doc)
    → is_object j ≡ true
    → at_key i (set_key k v j) ≡ (if same_text k i then v else at_key i j)
at_key-set i k v nothing h = refl
at_key-set i k v empty_object h = refl
at_key-set i k v (with_entry j w rest) h = refl
at_key-set i k v empty_array h = absurd (ground arith)
at_key-set i k v (words t) h = absurd (ground arith)
at_key-set i k v (yes_no b) h = absurd (ground arith)
at_key-set i k v (with_item d rest) h = absurd (ground arith)

abbrev docs : JsonLib Doc
docs = record {
  null = nothing;
  object = empty_object;
  array = empty_array;
  text = words;
  flag = yes_no;
  at = at_key;
  set = set_key;
  push_back = with_item;
  dump = written;
  holds_object = is_object;
  at-null = λ k. refl;
  at-object = λ k. refl;
  holds_object-null = refl;
  holds_object-object = refl;
  holds_object-set = is_object-set;
  at-set = at_key-set;
}

abbrev state_of : List ℕ → Endpoint
state_of summary = record { path = codes "/state"; method = codes "Get"; data_ = metadata summary }

abbrev two_states : List Endpoint
two_states = state_of (codes "Old") ∷ state_of (codes "New") ∷ []

document-entry_example :
    entry docs (codes "/state") (codes "get") (document docs (codes "t") (codes "1") two_states)
    ≡ described docs (last_named (codes "/state") (codes "get") two_states)
document-entry_example =
    document-entry docs (codes "t") (codes "1") two_states (codes "/state") (codes "get")

abbrev no_site : Site
no_site = record { routes = []; endpoints = []; file = none }

abbrev state_declared : List Declared
state_declared = record { endpoint = state_of (codes "State"); handler = answer_true } ∷ []

abbrev fresh : Registry
fresh = record { registry = map declare_all (state_declared ∷ []); site = no_site; log = [] }

start-documents_example :
    start docs true fresh ≡ done tt (served docs (state_declared ∷ []) no_site [] true)
start-documents_example = start-documents docs (state_declared ∷ []) no_site [] true

abbrev no_settings : List ℕ → Option (List ℕ)
no_settings key = if same_text key (codes "PWD") then some (codes "/home") else none

abbrev own_host : List ℕ → Option (List ℕ)
own_host key =
    if same_text key (codes "PT_API_HOST") then some (codes "localhost") else no_settings key

abbrev no_floats : List ℕ → Cmd Registry (Unit {0})
no_floats _ = pure tt

main-host_unset_example :
    main docs no_settings (λ _. pure tt) no_floats (λ _ _. true) fresh
    ≡ done 0 (served docs (state_declared ∷ main_declared ∷ []) no_site [] true)
unfolding initialize_dawglogger same_text
main-host_unset_example =
    main-host_unset docs no_settings (λ _. pure tt) no_floats (λ _ _. true) (state_declared ∷ [])
      no_site [] fresh refl refl

main-host_set_example :
    main docs own_host (λ _. pure tt) no_floats (λ _ _. true) fresh
    ≡ thrown runtime_error (register_endpoint main_endpoints fresh)
unfolding initialize_dawglogger same_text
main-host_set_example =
    main-host_set docs own_host (λ _. pure tt) no_floats (λ _ _. true) (codes "localhost") fresh
      fresh refl refl

abbrev some_responses : List (ℕ × Response)
some_responses =
    (200, record { description = codes "OK" })
    ∷ (404, record { description = codes "Gone" })
    ∷ (200, record { description = codes "Fine" })
    ∷ []

add_responses-documented_example :
    response_entry docs 200
      (operation_json docs (add_responses some_responses (metadata (codes "State"))))
    ≡ text_or docs nothing (last_coded 200 some_responses)
add_responses-documented_example = add_responses-documented docs (codes "State") some_responses 200
