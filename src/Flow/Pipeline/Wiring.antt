-- ===== src/Flow/Pipeline/Wiring.antt =====
-- The links of a pipeline that is built in the documented order: sources, then nodes, then sinks.
use pipeline_tools.Prelude.{
  Bool-cases, ℕ, ◌≡◌, refl, sym, ap, ◌∙◌, true, false, none, some, List, [], ◌∷◌, ◌++◌, map,
  append-nil, append_assoc, is_empty, ◌==◌, if◌then◌else◌, arith, Option-cases, Bool-cases, inl,
  inr,
}
use pipeline_tools.Prelude.Store.{update}
use pipeline_tools.Prelude.Outcome.{
  Returns-mono, done, thrown, unordered_sources, Returns, Returns-mono, ◌>>◌,
}
use pipeline_tools.Flow.Graph.{
  Block, source, module_block, aggregator, sink, Graph, register_producer, add_consumer,
}
use pipeline_tools.Flow.Pipeline.{
  Concept, source_like, node_like, sink_like, Pipeline, State, M, last_node, add_consumer_to_all,
  wire, add,
}

-- Adding objects one after the other.
unfoldable pub add_all : Concept → List ℕ → M (Unit {0})
unfolding add
add_all c [] s = done tt s
add_all c (f ∷ fs) s = (do add c f; add_all c fs) s

-- The objects that object `j` hands its outputs to, in order.
abbrev pub consumers : Graph → ℕ → List ℕ
consumers g j = map (λ (next, _). next) (g j).next_nodes

abbrev pub targets : ℕ → List (ℕ × ℕ) → List ℕ
targets j [] = []
targets j ((from, to) ∷ es) = (if from == j then to ∷ [] else []) ++ targets j es

-- The links of the documented pipeline, as pairs: every sender to the next node, which is then the only
-- sender; the last senders to every sink.
abbrev pub from_each : List ℕ → ℕ → List (ℕ × ℕ)
from_each senders f = map (λ s. (s, f)) senders

abbrev pub documented : (senders nodes sinks : List ℕ) → List (ℕ × ℕ)
documented senders [] [] = []
documented senders [] (k ∷ ks) = from_each senders k ++ documented senders [] ks
documented senders (n ∷ ns) ks = from_each senders n ++ documented (n ∷ []) ns ks

abbrev pub empty : Graph → State
empty g = record { pipeline = record { sources = []; nodes = [] }; graph = g }

targets-append :
    (j : ℕ) (es fs : List (ℕ × ℕ)) → targets j (es ++ fs) ≡ targets j es ++ targets j fs
targets-append j [] fs = refl
targets-append j ((from, to) ∷ es) fs =
    rw (targets-append j es fs) (sym (append_assoc (if from == j then to ∷ [] else []) _ _))

register_producer-links :
    (b : Block) (next : ℕ) (g : Graph) (j : ℕ)
    → ((register_producer b next g).1 j).next_nodes ≡ (g j).next_nodes
unfolding register_producer update
register_producer-links source next g j = refl
register_producer-links module_block next g j = refl
register_producer-links aggregator next g j = ground arith
register_producer-links sink next g j = refl

map-append : {A B : Type 0} (f : A → B) (xs ys : List A) → map f (xs ++ ys) ≡ map f xs ++ map f ys
map-append f [] ys = refl
map-append f (x ∷ xs) ys = ap (λ l. f x ∷ l) (map-append f xs ys)

add_consumer-consumers :
    (from next : ℕ) (g : Graph) (j : ℕ)
    → consumers (add_consumer from next g) j
      ≡ consumers g j ++ (if from == j then next ∷ [] else [])
unfolding add_consumer update
add_consumer-consumers from next g j =
    let (id, g') = register_producer (g next).block next g in
    let kept : (g' j).next_nodes ≡ (g j).next_nodes =
      register_producer-links (g next).block next g j in
    elim (Bool-cases (from == j)) [
      | inl e ↦
          let same : from ≡ j = ground arith in
          let own : (j == j) ≡ true = ground arith in
          rw (same, own)
            (map-append (λ (n, _). n) (g' j).next_nodes ((next, id) ∷ [])
              ∙ ap (λ l. map (λ (n, _). n) l ++ next ∷ []) kept)
      | inr e ↦ rw (e, append-nil) (ap (map (λ (n, _). n)) kept)
    ]

add_consumer_to_all-consumers :
    (ss : List ℕ) (f : ℕ) (g : Graph) (j : ℕ)
    → consumers (add_consumer_to_all ss f g) j ≡ consumers g j ++ targets j (from_each ss f)
unfolding add_consumer_to_all
add_consumer_to_all-consumers [] f g j = sym (append-nil _)
add_consumer_to_all-consumers (s ∷ ss) f g j =
    add_consumer_to_all-consumers ss f (add_consumer s f g) j
    ∙ rw (add_consumer-consumers s f g j) (append_assoc (consumers g j) _ _)

-- The objects that the next node or sink is linked to.
abbrev senders : Pipeline → List ℕ
senders p = elim (last_node p.nodes) [ none ↦ p.sources | some last ↦ last ∷ [] ]

wire-consumers :
    (p : Pipeline) (f : ℕ) (g : Graph) (j : ℕ)
    → consumers (wire p f g) j ≡ consumers g j ++ targets j (from_each (senders p) f)
unfolding wire
wire-consumers p f g j = elim (Option-cases (last_node p.nodes)) [
  | inl e ↦ rw (e, wire, senders) (add_consumer_to_all-consumers p.sources f g j)
  | inr (last, e) ↦ rw (e, wire, senders, append-nil) (add_consumer-consumers last f g j)
]

pub last_node-append : (ns : List ℕ) (n : ℕ) → last_node (ns ++ n ∷ []) ≡ some n
unfolding last_node
last_node-append [] n = refl
last_node-append (m ∷ []) n = refl
last_node-append (m ∷ k ∷ ns) n = last_node-append (k ∷ ns) n

-- What a rest of a build does to the consumers of object `j`.
abbrev Adds : ℕ → State → List (ℕ × ℕ) → State → Type 0
Adds j s es t = consumers t.graph j ≡ consumers s.graph j ++ targets j es

Adds-step :
    (j : ℕ) (s s' t : State) (es fs : List (ℕ × ℕ))
    → Adds j s es s'
    → Adds j s' fs t
    → Adds j s (es ++ fs) t
Adds-step j s s' t es fs d e =
    e ∙ rw (d, targets-append j es fs) (append_assoc (consumers s.graph j) _ _)

sinks-Adds :
    (ks : List ℕ) (s : State) (j : ℕ)
    → Returns (λ _ t. Adds j s (documented (senders s.pipeline) [] ks) t) (add_all sink_like ks s)
unfolding add_all
sinks-Adds [] s j = sym (append-nil _)
sinks-Adds (k ∷ ks) s j =
    let s' : State = record s { graph = wire s.pipeline k s.graph } in
    Returns-mono (add_all sink_like ks s')
      (λ _ t e.
        Adds-step j s s' t (from_each (senders s.pipeline) k)
          (documented (senders s.pipeline) [] ks) (wire-consumers s.pipeline k s.graph j) e)
      (sinks-Adds ks s' j)

nodes-Adds :
    (ns ks : List ℕ) (s : State) (j : ℕ)
    → Returns
        (λ _ t. Adds j s (documented (senders s.pipeline) ns ks) t)
        ((do add_all node_like ns; add_all sink_like ks) s)
unfolding add_all
nodes-Adds [] ks s j = sinks-Adds ks s j
nodes-Adds (n ∷ ns) ks s j =
    let s' : State = record {
      graph = wire s.pipeline n s.graph;
      pipeline = record s.pipeline { nodes = s.pipeline.nodes ++ n ∷ [] };
    } in
    let now : senders s'.pipeline ≡ n ∷ [] =
      rw (last_node-append s.pipeline.nodes n, senders) refl in
    Returns-mono ((do add_all node_like ns; add_all sink_like ks) s')
      (λ _ t e.
        Adds-step j s s' t (from_each (senders s.pipeline) n) (documented (n ∷ []) ns ks)
          (wire-consumers s.pipeline n s.graph j) (rw (← now) e))
      (nodes-Adds ns ks s' j)

sources_added :
    (ss old : List ℕ) (g : Graph)
    → add_all source_like ss (record { pipeline = record { sources = old; nodes = [] }; graph = g })
      ≡ done tt (record { pipeline = record { sources = old ++ ss; nodes = [] }; graph = g })
unfolding add_all
sources_added [] old g = rw append-nil
sources_added (f ∷ fs) old g =
    rw (← append_assoc old (f ∷ []) fs) (sources_added fs (old ++ f ∷ []) g)

is_empty-append : (ns : List ℕ) (n : ℕ) → is_empty (ns ++ n ∷ []) ≡ false
is_empty-append [] n = refl
is_empty-append (m ∷ ns) n = refl

-- Further nodes change neither the sources nor that there are nodes.
nodes_kept :
    (ns : List ℕ) (s : State)
    → is_empty s.pipeline.nodes ≡ false
    → (t : State) × (add_all node_like ns s ≡ done tt t)
      × (is_empty t.pipeline.nodes ≡ false)
      × (t.pipeline.sources ≡ s.pipeline.sources)
unfolding add_all
nodes_kept [] s h = (s, refl, h, refl)
nodes_kept (n ∷ ns) s h =
    let s' : State = record {
      graph = wire s.pipeline n s.graph;
      pipeline = record s.pipeline { nodes = s.pipeline.nodes ++ n ∷ [] };
    } in
    nodes_kept ns s' (is_empty-append s.pipeline.nodes n)

-- The documented order of a build.
unfoldable pub build : (sources nodes sinks : List ℕ) → M (Unit {0})
unfolding add_all
build ss ns ks = do add_all source_like ss; add_all node_like ns; add_all sink_like ks

-- A pipeline that is built in the documented order, from any sources, nodes and sinks: every `add`
-- succeeds, and each object has been given, behind the consumers that it had, those of the
-- documented links, in order.
pub build-documented :
    (ss ns ks : List ℕ) (g : Graph) (j : ℕ)
    → Returns
        (λ _ t. consumers t.graph j ≡ consumers g j ++ targets j (documented ss ns ks))
        (build ss ns ks (empty g))
unfolding build
build-documented ss ns ks g j =
    rw (sources_added ss [] g)
      (nodes-Adds ns ks (record { pipeline = record { sources = ss; nodes = [] }; graph = g }) j)

-- A source that comes behind the nodes of a pipeline built in order is refused with an exception, but it
-- stands behind the other sources all the same.
pub source_after_nodes :
    (ss ns : List ℕ) (n f : ℕ) (g : Graph)
    → (t : State) × ((do build ss (n ∷ ns) []; add source_like f) (empty g)
        ≡ thrown unordered_sources t)
      × (t.pipeline.sources ≡ ss ++ f ∷ [])
unfolding build
source_after_nodes ss ns n f g =
    let s : State = record { pipeline = record { sources = ss; nodes = [] }; graph = g } in
    let first : State = record {
      graph = wire s.pipeline n g;
      pipeline = record { sources = ss; nodes = n ∷ [] };
    } in
    let (t, run, some_node, kept) = nodes_kept ns first refl in
    (
      record t { pipeline = record t.pipeline { sources = t.pipeline.sources ++ f ∷ [] } },
      rw (sources_added ss [] g, run, some_node) refl,
      ap (λ l. l ++ f ∷ []) kept,
    )

-- In an empty pipeline, a source that is added behind a sink is accepted, and no link is made.
pub source_after_sink :
    (f k : ℕ) (g : Graph)
    → (do add sink_like k; add source_like f) (empty g)
      ≡ done tt (record { pipeline = record { sources = f ∷ []; nodes = [] }; graph = g })
unfolding add wire
source_after_sink f k g = refl
