-- ===== src/Flow/Pipeline.antt =====
-- Pipeline.hpp: the sources and nodes of a pipeline, the links that `add` makes between the objects, and
-- `execute`. The template argument of `add` is the concept that the object's class satisfies; an
-- object is known by its number in the graph.
pub mod Wiring
pub mod Execution
pub mod Streams
pub mod Built
use pipeline_tools.Prelude.{
  ℕ, Bool, true, false, Option, none, some, List, [], ◌∷◌, ◌++◌, is_empty, if◌then◌else◌,
}
use pipeline_tools.Prelude.Outcome.{
  Outcome, done, thrown, unordered_sources, unknown_flow_object, Cmd, pure, ◌>>=◌, ◌>>◌,
}
use pipeline_tools.Flow.Any.{AnyLib}
use pipeline_tools.Flow.Graph.{Graph, add_consumer}
use pipeline_tools.Flow.Execute

-- `SourceLike`, `NodeLike` or `SinkLike`, or none of them.
pub data Concept : Type 0 where
  source_like node_like sink_like no_concept : Concept

pub record Pipeline : Type 0 where
  pub sources : List ℕ
  pub nodes : List ℕ

pub record State : Type 0 where
  pub pipeline : Pipeline
  pub graph : Graph

abbrev pub M : Type 0 → Type 0
M A = Cmd State A

-- `nodes.back()`, `none` where there is no node.
unfoldable pub last_node : List ℕ → Option ℕ
last_node [] = none
last_node (n ∷ []) = some n
last_node (n ∷ m ∷ ns) = last_node (m ∷ ns)

-- `for (auto& src : sources) src->add_consumer(f)`.
unfoldable pub add_consumer_to_all : List ℕ → ℕ → Graph → Graph
unfolding add_consumer
add_consumer_to_all [] f g = g
add_consumer_to_all (src ∷ ss) f g = add_consumer_to_all ss f (add_consumer src f g)

-- The links that `add` makes for a node or a sink.
unfoldable pub wire : Pipeline → ℕ → Graph → Graph
unfolding last_node add_consumer_to_all
wire p f g = elim (last_node p.nodes) [
  | some last ↦ add_consumer last f g
  | none ↦ add_consumer_to_all p.sources f g
]

unfoldable pub add : Concept → ℕ → M (Unit {0})
unfolding wire
add source_like f s =
    let s' : State = record s {
      pipeline = record s.pipeline { sources = s.pipeline.sources ++ f ∷ [] };
    } in
    if is_empty s.pipeline.nodes then done tt s' else thrown unordered_sources s'
add node_like f s = done tt (record {
  graph = wire s.pipeline f s.graph;
  pipeline = record s.pipeline { nodes = s.pipeline.nodes ++ f ∷ [] };
})
add sink_like f s = done tt (record s { graph = wire s.pipeline f s.graph })
add no_concept f s = thrown unknown_flow_object s

-- `src->execute()` for every source.
unfoldable pub execute_all :
    {Any : Type 0}
    → AnyLib Any
    → (ℕ → Any → ℕ → Execute.M (Unit {0}))
    → List ℕ
    → Execute.M (Unit {0})
execute_all lib exec [] = pure tt
execute_all lib exec (src ∷ ss) = do exec src lib.empty 0; execute_all lib exec ss

-- `Pipeline::execute`.
unfoldable pub execute_pipeline :
    {Any : Type 0}
    → AnyLib Any
    → (ℕ → Any → ℕ → Execute.M (Unit {0}))
    → Pipeline
    → Execute.M (Unit {0})
unfolding execute_all
execute_pipeline lib exec p = elim p.sources [
  | src ∷ ss ↦ execute_all lib exec (src ∷ ss)
  | [] ↦ elim p.nodes [ [] ↦ pure tt | front ∷ ns ↦ exec front lib.empty 0 ]
]
