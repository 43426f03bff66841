-- ===== src/Server/Swagger/Document.antt =====
-- What the generated document says of a path and a method.
use pipeline_tools.Prelude.{
  ℕ, ◌≡◌, refl, ap, ◌∙◌, Bool, true, ◌&&◌, Option, none, some, List, [], ◌∷◌, if◌then◌else◌, codes,
  same_text, same_text_refl, same_text_iff, Bool-cases, inl, inr,
}
use pipeline_tools.Utils.Strings.{stolower}
use pipeline_tools.Server.Json.{JsonLib}
use pipeline_tools.Server.Swagger.{
  EndpointMetadata, Endpoint, operation_json, add_operation, add_operations, preamble, document,
}

abbrev pub names : List ℕ → List ℕ → Endpoint → Bool
names path method e = same_text e.path path && same_text (stolower e.method) method

-- The last of the endpoints with this path and, in lower case, this method.
abbrev pub last_named : List ℕ → List ℕ → List Endpoint → Option EndpointMetadata
last_named path method [] = none
last_named path method (e ∷ es) = elim (last_named path method es) [
  | some m ↦ some m
  | none ↦ if names path method e then some e.data_ else none
]

module _ {Json : Type 0} (lib : JsonLib Json) where
  -- `swagger["paths"][path][method]`.
  abbrev pub entry : List ℕ → List ℕ → Json → Json
  entry path method swagger = lib.at method (lib.at path (lib.at (codes "paths") swagger))

  abbrev pub described : Option EndpointMetadata → Json
  described none = lib.null
  described (some m) = operation_json lib m

  -- The document, its paths and what is under each path are objects, or `null` where there is nothing.
  record IsShaped (swagger : Json) : Type 0 where
    whole : lib.holds_object swagger ≡ true
    paths : lib.holds_object (lib.at (codes "paths") swagger) ≡ true
    methods :
        (path : List ℕ) → lib.holds_object (lib.at path (lib.at (codes "paths") swagger)) ≡ true

  module _ (e : Endpoint) (swagger : Json) (s : IsShaped swagger) where
    at_paths :
        lib.at (codes "paths") (add_operation lib e swagger)
        ≡ lib.set e.path
            (lib.set
              (stolower e.method)
              (operation_json lib e.data_)
              (lib.at e.path (lib.at (codes "paths") swagger)))
            (lib.at (codes "paths") swagger)
    unfolding add_operation
    at_paths = rw (lib.at-set _ _ _ _ s.whole, same_text_refl) refl

    at_path :
        (path : List ℕ)
        → lib.at path (lib.at (codes "paths") (add_operation lib e swagger)) ≡ (
            if same_text e.path path
            then lib.set
                (stolower e.method)
                (operation_json lib e.data_)
                (lib.at e.path (lib.at (codes "paths") swagger))
            else lib.at path (lib.at (codes "paths") swagger))
    at_path path = rw at_paths (lib.at-set _ _ _ _ s.paths)

    at_path_holds_object :
        (path : List ℕ)
        → lib.holds_object (lib.at path (lib.at (codes "paths") (add_operation lib e swagger)))
          ≡ true
    at_path_holds_object path = elim (Bool-cases (same_text e.path path)) [
      | inl own ↦ rw (at_path path, own) (lib.holds_object-set _ _ _ (s.methods e.path))
      | inr other ↦ rw (at_path path, other) (s.methods path)
    ]

    whole_holds_object : lib.holds_object (add_operation lib e swagger) ≡ true
    unfolding add_operation
    whole_holds_object = lib.holds_object-set _ _ _ s.whole

    add_operation-IsShaped : IsShaped (add_operation lib e swagger)
    add_operation-IsShaped = record {
      whole = whole_holds_object;
      paths = rw at_paths (lib.holds_object-set _ _ _ s.paths);
      methods = at_path_holds_object;
    }

    add_operation-entry :
        (path method : List ℕ)
        → entry path method (add_operation lib e swagger)
          ≡ (if names path method e then operation_json lib e.data_ else entry path method swagger)
    add_operation-entry path method = elim (Bool-cases (same_text e.path path)) [
      | inl own ↦
          let same : e.path ≡ path = (same_text_iff e.path path).0 own in
          ap (lib.at method) (at_path path)
          ∙ rw (own, lib.at-set _ _ _ _ (s.methods e.path)) (rw same refl)
      | inr other ↦ ap (lib.at method) (at_path path) ∙ rw other refl
    ]

  abbrev described_or : Json → Option EndpointMetadata → Json
  described_or j none = j
  described_or j (some m) = operation_json lib m

  last_described :
      (o : Option EndpointMetadata) (path method : List ℕ) (e : Endpoint) (j : Json)
      → described_or (if names path method e then operation_json lib e.data_ else j) o
        ≡ described_or j (elim o as (λ _. Option EndpointMetadata) [
          | some m ↦ some m
          | none ↦ if names path method e then some e.data_ else none
        ])
  last_described none path method e j = elim (Bool-cases (names path method e)) [
    | inl own ↦ rw own refl
    | inr other ↦ rw other refl
  ]
  last_described (some m) path method e j = refl

  add_operations-entry :
      (es : List Endpoint) (swagger : Json) (path method : List ℕ)
      → IsShaped swagger
      → entry path method (add_operations lib es swagger)
        ≡ described_or (entry path method swagger) (last_named path method es)
  unfolding add_operations
  add_operations-entry [] swagger path method s = refl
  add_operations-entry (e ∷ es) swagger path method s =
      add_operations-entry es (add_operation lib e swagger) path method
        (add_operation-IsShaped e swagger s)
      ∙ ap (λ j. described_or j (last_named path method es))
          (add_operation-entry e swagger s path method)
      ∙ last_described (last_named path method es) path method e (entry path method swagger)

  paths_set :
      (j : Json)
      → lib.holds_object j ≡ true
      → lib.at (codes "paths") (lib.set (codes "paths") lib.object j) ≡ lib.object
  unfolding same_text
  paths_set j h = lib.at-set (codes "paths") (codes "paths") lib.object j h

  -- With a new object under "paths", an object is shaped.
  paths-IsShaped :
      (j : Json) → lib.holds_object j ≡ true → IsShaped (lib.set (codes "paths") lib.object j)
  paths-IsShaped j h = record {
    whole = lib.holds_object-set _ _ _ h;
    paths = rw (paths_set j h) lib.holds_object-object;
    methods = λ path. rw (paths_set j h, lib.at-object path) lib.holds_object-null;
  }

  preamble-IsShaped : (title version : List ℕ) → IsShaped (preamble lib title version)
  unfolding preamble
  preamble-IsShaped title version = paths-IsShaped _ (
      lib.holds_object-set _ _ _
        (lib.holds_object-set _ _ _ (lib.holds_object-set _ _ _ lib.holds_object-null)))

  described_none : (o : Option EndpointMetadata) → described_or lib.null o ≡ described o
  described_none none = refl
  described_none (some m) = refl

  paths-entry :
      (j : Json) (path method : List ℕ)
      → lib.holds_object j ≡ true
      → entry path method (lib.set (codes "paths") lib.object j) ≡ lib.null
  paths-entry j path method h =
      ap (λ p. lib.at method (lib.at path p)) (paths_set j h)
      ∙ ap (lib.at method) (lib.at-object path)
      ∙ lib.at-null method

  preamble-entry :
      (title version path method : List ℕ)
      → entry path method (preamble lib title version) ≡ lib.null
  unfolding preamble
  preamble-entry title version path method = paths-entry _ path method (
      lib.holds_object-set _ _ _
        (lib.holds_object-set _ _ _ (lib.holds_object-set _ _ _ lib.holds_object-null)))

  -- Under each path and method, the document has the operation of the endpoint that was added last with
  -- this path and, in lower case, this method; where there is none, it has nothing.
  pub document-entry :
      (title version : List ℕ) (endpoints : List Endpoint) (path method : List ℕ)
      → entry path method (document lib title version endpoints)
        ≡ described (last_named path method endpoints)
  unfolding document
  document-entry title version endpoints path method =
      add_operations-entry endpoints (preamble lib title version) path method
        (preamble-IsShaped title version)
      ∙ ap (λ j. described_or j (last_named path method endpoints))
          (preamble-entry title version path method)
      ∙ described_none (last_named path method endpoints)
