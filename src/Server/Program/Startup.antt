-- ===== src/Server/Program/Startup.antt =====
-- What the program does at its start.
use pipeline_tools.Prelude.{
  ℕ, ◌≡◌, refl, sym, ap, ◌∙◌, Bool, Option, none, some, List, [], ◌∷◌, ◌++◌, map, map-append, codes,
}
use pipeline_tools.Prelude.Int.{pos}
use pipeline_tools.Prelude.Outcome.{and_then, done, thrown, runtime_error, Cmd, pure, ◌>>◌}
use pipeline_tools.Utils.Config.{pointer, signed, Setting, integer, address}
use pipeline_tools.Utils.Config.Reading.{get_or-absent, get_or-pointer}
use pipeline_tools.Utils.Logging.{initialize_dawglogger}
use pipeline_tools.Server.Json.{JsonLib}
use pipeline_tools.Server.Registry.{Registry, Site, Entry, start, register_endpoint}
use pipeline_tools.Server.Registry.Start.{Declared, declare_all, start-documents, served}
use pipeline_tools.Server.Program.{main, main_endpoints, answer_true, with_ok, uint16_of}

abbrev pub main_declared : List Declared
main_declared =
    record {
      endpoint = record {
        path = codes "/";
        method = codes "Get";
        data_ = with_ok (codes "System Status");
      };
      handler = answer_true;
    }
    ∷ []

main_endpoints_lem : main_endpoints ≡ declare_all main_declared
unfolding main_endpoints declare_all
main_endpoints_lem = refl

register_main :
    (dss : List (List Declared))
    → map declare_all dss ++ main_endpoints ∷ [] ≡ map declare_all (dss ++ main_declared ∷ [])
register_main dss =
    ap (λ m. map declare_all dss ++ m ∷ []) main_endpoints_lem
    ∙ sym (map-append declare_all dss (main_declared ∷ []))

module _ {Json Real : Type 0} (lib : JsonLib Json) (env : List ℕ → Option (List ℕ))
    (init : List ℕ → Cmd Registry (Unit {0})) (stod : List ℕ → Cmd Registry Real)
    (listen : Setting Real → ℕ → Bool) where
  abbrev host_key : List ℕ
  host_key = codes "PT_API_HOST"

  abbrev all_interfaces : Setting Real
  all_interfaces = address (codes "0.0.0.0")

  -- Where `PT_API_HOST` is set, to whatever value, the program throws once the logger is initialised,
  -- and no endpoint is served: the type of the host is `const char*`, which is none that is converted.
  pub main-host_set :
      (value : List ℕ) (reg reg' : Registry)
      → env host_key ≡ some value
      → initialize_dawglogger env init reg ≡ done tt reg'
      → main lib env init stod listen reg
        ≡ thrown runtime_error (register_endpoint main_endpoints reg')
  unfolding main
  main-host_set value reg reg' e i =
      rw
        (
          i,
          get_or-pointer stod env host_key all_interfaces (register_endpoint main_endpoints reg')
              value e,
        )
        refl

  main-unset :
      (reg reg' : Registry)
      → env host_key ≡ none
      → initialize_dawglogger env init reg ≡ done tt reg'
      → main lib env init stod listen reg
        ≡ (do start lib (listen all_interfaces 8081); pure 0)
            (register_endpoint main_endpoints reg')
  unfolding main uint16_of
  main-unset reg reg' e i =
      let reg1 : Registry = register_endpoint main_endpoints reg' in
      rw
        (
          i,
          get_or-absent stod env host_key all_interfaces reg1 pointer e,
          get_or-absent stod env host_key (integer (pos 8081)) reg1 (signed 31) e,
        )
        refl

  -- Where `PT_API_HOST` is not set, the program, once the logger is initialised, serves the endpoints that
  -- were declared before `main` and then its own on all interfaces and port 8081, and returns 0.
  pub main-host_unset :
      (dss : List (List Declared)) (site : Site) (log : List Entry) (reg : Registry)
      → env host_key ≡ none
      → initialize_dawglogger env init reg
        ≡ done tt (record { registry = map declare_all dss; site = site; log = log })
      → main lib env init stod listen reg
        ≡ done 0 (served lib (dss ++ main_declared ∷ []) site log (listen all_interfaces 8081))
  unfolding register_endpoint
  main-host_unset dss site log reg e i =
      main-unset reg _ e i
      ∙ ap
          (λ r.
            (do start lib (listen all_interfaces 8081); pure 0)
              (record { registry = r; site = site; log = log }))
          (register_main dss)
      ∙ ap (λ o. and_then o (λ _. pure 0))
          (start-documents lib (dss ++ main_declared ∷ []) site log (listen all_interfaces 8081))
