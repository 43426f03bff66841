-- ===== src/Server/Program.antt =====
-- main.cpp and missions/example/src/register_routes.cpp. `env` is `getenv`, `init` is
-- `DawgLog::Logger::init`, and `listen` is whether httplib's server could bind to an address and a port.
-- What is registered before `main`, by the static objects of the missions, is in the registry.
pub mod Startup
use pipeline_tools.Prelude.{
  ℕ, suc, ◌-◌, ◌%◌, ◌^◌, Bool, Option, none, some, List, [], ◌∷◌, ◌++◌, codes,
}
use pipeline_tools.Prelude.Int.{ℤ, pos, negsuc}
use pipeline_tools.Prelude.Outcome.{
  Outcome, done, thrown, blocked, undefined, out_of_fuel, terminated, Cmd, pure, modify, ◌>>=◌,
  ◌>>◌,
}
use pipeline_tools.Utils.Config.{
  OutType, pointer, signed, Setting, string, real, flag, integer, address, get_or,
}
use pipeline_tools.Utils.Logging.{initialize_dawglogger}
use pipeline_tools.Server.Json.{JsonLib}
use pipeline_tools.Server.Swagger.{EndpointMetadata, metadata, add_response_named}
use pipeline_tools.Server.Registry.{
  Registry, M, Handler, Response, declare_endpoint, register_endpoint, start,
}

-- The handler of the three endpoints.
unfoldable pub answer_true : Handler
answer_true req = do
  modify (λ res. record res { status = 200 })
  modify (λ res. record res { content = some (codes "true", codes "application/json") })

-- `EndpointMetadata(summary).add_response(OK_200, "OK")`.
unfoldable pub with_ok : List ℕ → EndpointMetadata
unfolding add_response_named
with_ok summary = (add_response_named 200 (codes "OK") (metadata summary)).0

unfoldable pub main_endpoints : M (Unit {0})
unfolding declare_endpoint answer_true with_ok
main_endpoints =
    declare_endpoint (codes "Get") (codes "/") (with_ok (codes "System Status")) answer_true

unfoldable pub example_endpoints : M (Unit {0})
unfolding declare_endpoint answer_true with_ok
example_endpoints = do
  declare_endpoint (codes "Get") (codes "/api/missions/example")
      (with_ok (codes "Example Mission Status")) answer_true
  declare_endpoint (codes "Post") (codes "/api/missions/example")
      (with_ok (codes "Start Example Mission")) answer_true

-- An `int` as `uint16_t`; a setting that was read as an `int` is an integer.
unfoldable pub uint16_of : {Real : Type 0} → Setting Real → ℕ
uint16_of (integer (pos n)) = n % 2 ^ 16
uint16_of (integer (negsuc n)) = 2 ^ 16 - 1 - n % 2 ^ 16
uint16_of (string s) = 0
uint16_of (real r) = 0
uint16_of (flag b) = 0
uint16_of (address a) = 0

module _ {Json Real : Type 0} (lib : JsonLib Json) (env : List ℕ → Option (List ℕ))
    (init : List ℕ → Cmd Registry (Unit {0})) (stod : List ℕ → Cmd Registry Real)
    (listen : Setting Real → ℕ → Bool) where
  unfoldable pub main : Cmd Registry ℕ
  unfolding initialize_dawglogger get_or register_endpoint main_endpoints uint16_of start
  main = do
    initialize_dawglogger env init
    modify (register_endpoint main_endpoints)
    host ← get_or stod env pointer (codes "PT_API_HOST") (address (codes "0.0.0.0"))
    port ← get_or stod env (signed 31) (codes "PT_API_HOST") (integer (pos 8081))
    start lib (listen host (uint16_of port))
    pure 0
