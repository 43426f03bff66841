-- ===== src/Server/Registry.antt =====
-- server/src/server: EndpointRegistry (routes.hpp, routes.cpp), the macros HANDLE_REQUEST and
-- DECLARE_ENDPOINT, and `SwaggerGenerator::generate`. Of the singletons and of httplib's server the state
-- has what was handed to them: the routes in the order in which they were registered, the endpoints, the
-- text that was written to the document's file, and the lines of the logger. A user's handler works on
-- the response; `listen` is whether the server could bind to the address.
pub mod Start
use pipeline_tools.Prelude.{
  ℕ, Bool, true, false, Option, none, some, List, [], ◌∷◌, ◌++◌, length, is_empty, codes,
  if◌then◌else◌,
}
use pipeline_tools.Prelude.Outcome.{
  thrown, blocked, undefined, out_of_fuel, terminated, Outcome, done, Cmd, pure, modify, ◌>>=◌,
  ◌>>◌,
}
use pipeline_tools.Server.Json.{JsonLib}
use pipeline_tools.Server.Swagger.{EndpointMetadata, Endpoint, document}

-- `query` is what httplib makes of the parameters, empty where there are none.
pub record Request : Type 0 where
  pub method : List ℕ
  pub path : List ℕ
  pub query : List ℕ
  pub remote_addr : List ℕ
  pub remote_port : ℕ
  pub version : List ℕ

-- The calls of `set_header` in order, and the content with its type.
pub record Response : Type 0 where
  pub status : ℕ
  pub headers : List (List ℕ × List ℕ)
  pub content : Option (List ℕ × List ℕ)

abbrev pub Handler : Type 0
Handler = Request → Cmd Response (Unit {0})

pub record Line : Type 0 where
  pub request : Request
  pub shown_path : List ℕ
  pub status : ℕ

-- The lambda of HANDLE_REQUEST: what it does to the response, and the line that it logs. The lambda of
-- "/swagger.json" is `swagger_file`, since it reads the file when it is called.
pub data Route : Type 0 where
  user : (method path : List ℕ) → (Request → Cmd Response Line) → Route
  swagger_file : Route

pub record Site : Type 0 where
  pub routes : List Route
  pub endpoints : List Endpoint
  pub file : Option (List ℕ)

pub data Entry : Type 0 where
  registering : ℕ → Entry
  listening could_not_bind closing : Entry

abbrev pub M : Type 0 → Type 0
M A = Cmd Site A

pub record Registry : Type 0 where
  pub registry : List (M (Unit {0}))
  pub site : Site
  pub log : List Entry

abbrev pub set_header : List ℕ → List ℕ → Response → Response
set_header key value res = record res { headers = res.headers ++ (key, value) ∷ [] }

-- `log_request`.
unfoldable pub log_request : Request → Response → Line
log_request req res = record {
  request = req;
  shown_path = if is_empty req.query then req.path else req.path ++ codes "?" ++ req.query;
  status = res.status;
}

-- HANDLE_REQUEST around `handler`.
unfoldable pub handle_request : Handler → Request → Cmd Response Line
unfolding log_request
handle_request handler req = do
  modify (set_header (codes "Access-Control-Allow-Origin") (codes "*"))
  modify (set_header (codes "Access-Control-Allow-Methods") req.method)
  modify (set_header (codes "Access-Control-Allow-Headers") (codes "Content-Type, Authorization"))
  modify (λ res. record res { status = 200 })
  handler req
  λ res. done (log_request req res) res

-- The handler of "/swagger.json" on a file with this content, and what a route does on a request.
unfoldable pub send_file : List ℕ → Handler
send_file content req =
    modify (λ res. record res { content = some (content, codes "application/json") })

unfoldable pub respond : Route → (content : List ℕ) → Request → Cmd Response Line
unfolding handle_request send_file
respond (user method path lambda) content req = lambda req
respond swagger_file content req = handle_request (send_file content) req

-- `add_endpoint`, and DECLARE_ENDPOINT, which registers the route before it.
unfoldable pub add_endpoint : (path method : List ℕ) → EndpointMetadata → M (Unit {0})
add_endpoint path method e = modify (λ site. record site {
  endpoints = site.endpoints ++ record { path = path; method = method; data_ = e } ∷ [];
})

unfoldable pub declare_endpoint : (method path : List ℕ) → EndpointMetadata → Handler → M (Unit {0})
unfolding handle_request add_endpoint
declare_endpoint method path e handler = do
  modify (λ site. record site {
    routes = site.routes ++ user method path (handle_request handler) ∷ [];
  })
  add_endpoint path method e

-- `register_endpoint`, which the constructor of `RegisterEndpoint` calls.
unfoldable pub register_endpoint : M (Unit {0}) → Registry → Registry
register_endpoint handler reg = record reg { registry = reg.registry ++ handler ∷ [] }

-- The loop of `register_all`.
unfoldable pub register_each : List (M (Unit {0})) → M (Unit {0})
register_each [] = pure tt
register_each (f ∷ fs) = do f; register_each fs

-- A command on the site, from a method of the registry.
abbrev pub in_registry : {A : Type 0} → Registry → Outcome Site A → Outcome Registry A
in_registry reg (done a site) = done a (record reg { site = site })
in_registry reg (thrown e site) = thrown e (record reg { site = site })
in_registry reg blocked = blocked
in_registry reg undefined = undefined
in_registry reg out_of_fuel = out_of_fuel
in_registry reg terminated = terminated

abbrev pub on_site : {A : Type 0} → M A → Cmd Registry A
on_site m reg = in_registry reg (m reg.site)

abbrev pub logged : Entry → Registry → Registry
logged e reg = record reg { log = reg.log ++ e ∷ [] }

unfoldable pub register_all : Cmd Registry (Unit {0})
unfolding register_each
register_all reg =
    (do modify (logged (registering (length reg.registry))); on_site (register_each reg.registry))
      reg

module _ {Json : Type 0} (lib : JsonLib Json) where
  -- `SwaggerGenerator::generate`.
  unfoldable pub generate : (title version : List ℕ) → M (Unit {0})
  generate title version = modify (λ site. record site {
    file = some (lib.dump (document lib title version site.endpoints));
    routes = site.routes ++ swagger_file ∷ [];
  })

  unfoldable pub start : (listen : Bool) → Cmd Registry (Unit {0})
  unfolding register_all generate
  start listen = do
    register_all
    on_site (generate (codes "web playground") (codes "1.0.0"))
    modify (logged listening)
    if listen then modify (logged closing) else modify (logged could_not_bind)
