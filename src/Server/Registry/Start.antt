-- ===== src/Server/Registry/Start.antt =====
-- What a started server has registered and documented.
use pipeline_tools.Prelude.{
  length-map, length, ◌≡◌, refl, sym, ap, ◌∙◌, Bool, true, false, some, List, [], ◌∷◌, ◌++◌, map,
  map-append, append-nil, append_assoc, codes, if◌then◌else◌,
}
use pipeline_tools.Prelude.Outcome.{done, pure, ◌>>◌}
use pipeline_tools.Server.Json.{JsonLib}
use pipeline_tools.Server.Swagger.{Endpoint, document}
use pipeline_tools.Server.Registry.{
  in_registry, logged, could_not_bind, closing, listening, Handler, Route, user, swagger_file, Site,
  Registry, handle_request, declare_endpoint, register_each, register_all, generate, start, Entry,
  registering, M,
}

-- The arguments of one DECLARE_ENDPOINT.
pub record Declared : Type 0 where
  pub endpoint : Endpoint
  pub handler : Handler

-- A handler that is a list of declarations.
unfoldable pub declare_all : List Declared → M (Unit {0})
unfolding declare_endpoint
declare_all [] = pure tt
declare_all (d ∷ ds) = do
  declare_endpoint d.endpoint.method d.endpoint.path d.endpoint.data_ d.handler
  declare_all ds

abbrev pub route_of : Declared → Route
route_of d = user d.endpoint.method d.endpoint.path (handle_request d.handler)

abbrev pub endpoint_of : Declared → Endpoint
endpoint_of d = d.endpoint

abbrev pub concat : List (List Declared) → List Declared
concat [] = []
concat (ds ∷ dss) = ds ++ concat dss

-- The site with more endpoints and their routes.
abbrev pub with_declared : List Declared → Site → Site
with_declared ds site = record site {
  routes = site.routes ++ map route_of ds;
  endpoints = site.endpoints ++ map endpoint_of ds;
}

declare_all_lem :
    (ds : List Declared) (site : Site) → declare_all ds site ≡ done tt (with_declared ds site)
unfolding declare_all
declare_all_lem [] site = rw (append-nil site.routes, append-nil site.endpoints) refl
declare_all_lem (d ∷ ds) site =
    declare_all_lem ds _
    ∙ rw
        (
          append_assoc site.routes (route_of d ∷ []) (map route_of ds),
          append_assoc site.endpoints (d.endpoint ∷ []) (map endpoint_of ds),
        )
        refl

with_declared-append :
    (ds es : List Declared) (site : Site)
    → with_declared es (with_declared ds site) ≡ with_declared (ds ++ es) site
with_declared-append ds es site =
    rw
      (
        append_assoc site.routes (map route_of ds) (map route_of es),
        append_assoc site.endpoints (map endpoint_of ds) (map endpoint_of es),
        map-append route_of ds es,
        map-append endpoint_of ds es,
      )
      refl

register_each-declared :
    (dss : List (List Declared)) (site : Site)
    → register_each (map declare_all dss) site ≡ done tt (with_declared (concat dss) site)
unfolding register_each
register_each-declared [] site = rw (append-nil site.routes, append-nil site.endpoints) refl
register_each-declared (ds ∷ dss) site = rw (declare_all_lem ds site) (
    register_each-declared dss (with_declared ds site)
    ∙ ap (done tt) (with_declared-append ds (concat dss) site))

abbrev on_start : {Json : Type 0} → JsonLib Json → Site → Site
on_start lib site = record site {
  file = some (lib.dump (document lib (codes "web playground") (codes "1.0.0") site.endpoints));
  routes = site.routes ++ swagger_file ∷ [];
}

register_all_lem :
    (reg : Registry) (site : Site)
    → register_each reg.registry reg.site ≡ done tt site
    → register_all reg
      ≡ done tt (record {
        registry = reg.registry;
        site = site;
        log = reg.log ++ registering (length reg.registry) ∷ [];
      })
unfolding register_all
register_all_lem reg site e = ap (in_registry (logged (registering (length reg.registry)) reg)) e

module _ {Json : Type 0} (lib : JsonLib Json) where
  start_lem :
      (reg : Registry) (listen : Bool) (site : Site)
      → register_each reg.registry reg.site ≡ done tt site
      → start lib listen reg
        ≡ done tt (record {
          registry = reg.registry;
          site = on_start lib site;
          log =
              ((reg.log ++ registering (length reg.registry) ∷ []) ++ listening ∷ [])
              ++ (if listen then closing else could_not_bind) ∷ [];
        })
  unfolding start generate
  start_lem reg true site e = rw (register_all_lem reg site e) refl
  start_lem reg false site e = rw (register_all_lem reg site e) refl

  -- A registry that has served the declared endpoints after those of the site: the routes in order and
  -- then that of the document, the document of all endpoints in its file, and in the log the number of
  -- handlers, that the server listens, and that it closed or could not bind.
  abbrev pub served : List (List Declared) → Site → List Entry → (listen : Bool) → Registry
  served dss site log listen = record {
    registry = map declare_all dss;
    site = record {
      routes = (site.routes ++ map route_of (concat dss)) ++ swagger_file ∷ [];
      endpoints = site.endpoints ++ map endpoint_of (concat dss);
      file = some (
          lib.dump (
            document lib (codes "web playground") (codes "1.0.0")
              (site.endpoints ++ map endpoint_of (concat dss))));
    };
    log =
        ((log ++ registering (length dss) ∷ []) ++ listening ∷ [])
        ++ (if listen then closing else could_not_bind) ∷ [];
  }

  -- Started on handlers that declare endpoints, the registry registers the declared routes in their order
  -- after those of before and then the route of the document's file, and writes the document of all
  -- endpoints to the file; the log has the number of handlers, that the server listens, and that it closed
  -- or could not bind.
  pub start-documents :
      (dss : List (List Declared)) (site : Site) (log : List Entry) (listen : Bool)
      → start lib listen (record { registry = map declare_all dss; site = site; log = log })
        ≡ done tt (served dss site log listen)
  start-documents dss site log listen = rw (sym (length-map declare_all dss)) (
      start_lem (record { registry = map declare_all dss; site = site; log = log }) listen _
        (register_each-declared dss site))
