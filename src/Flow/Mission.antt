-- ===== src/Flow/Mission.antt =====
-- Mission.hpp: the pipelines of a mission, and the queues that join one pipeline to the next. Queues are
-- numbered in the order in which they are made; `new_source` and `new_sink` say which flow object a
-- `QueueSource` or a `QueueSink` on a queue of a type is. What the compiler refuses (a pipeline without
-- any object to take the type of a queue from) is undefined.
mod Tests
pub mod Joins
pub mod Run
pub mod Exchange
use pipeline_tools.Prelude.{
  ℕ, suc, ◌+◌, Bool, true, false, Option, none, some, List, [], ◌∷◌, ◌++◌, is_empty, length,
  if◌then◌else◌,
}
use pipeline_tools.Prelude.Store.{update}
use pipeline_tools.Prelude.Outcome.{
  Outcome, done, thrown, blocked, undefined, out_of_fuel, terminated, bad_any_cast, Cmd, pure,
  modify, ◌>>=◌, ◌>>◌,
}
use pipeline_tools.Flow.Any.{TypeId, same_type}
use pipeline_tools.Flow.Graph.{Flow, Graph}
use pipeline_tools.Flow.Pipeline.{Concept, source_like, node_like, sink_like, Pipeline, last_node}
use pipeline_tools.Flow.Pipeline

pub record QueueWrapper : Type 0 where
  pub queue : ℕ
  pub element : TypeId
  pub used : Bool

pub record Mission : Type 0 where
  pub pipelines : List Pipeline
  pub queues : List QueueWrapper
  pub graph : Graph
  pub next_object : ℕ

abbrev pub M : Type 0 → Type 0
M A = Cmd Mission A

-- `queues.back()` if there is one and it is not used, and the queues with it marked as used.
unfoldable pub take_unused : List QueueWrapper → Option (QueueWrapper × List QueueWrapper)
take_unused [] = none
take_unused (w ∷ []) = if w.used then none else some (w, record w { used = true } ∷ [])
take_unused (w ∷ v ∷ ws) = elim (take_unused (v ∷ ws)) [
  | none ↦ none
  | some (u, us) ↦ some (u, w ∷ us)
]

-- `make_queue<T>` and `emplace_back`.
unfoldable pub create_queue : TypeId → M ℕ
create_queue t m =
    let q : ℕ = length m.queues in
    done q (record m { queues = m.queues ++ record { queue = q; element = t; used = false } ∷ [] })

unfoldable pub get_or_create_queue : TypeId → M ℕ
unfolding take_unused create_queue
get_or_create_queue t m = elim (take_unused m.queues) [
  | none ↦ create_queue t m
  | some (w, ws) ↦
      let m' : Mission = record m { queues = ws } in
      if same_type w.element t then done w.queue m' else thrown bad_any_cast m'
]

-- A new object of the graph.
unfoldable pub make_shared : Flow → M ℕ
make_shared f m =
    done m.next_object
      (record m { graph = update m.graph m.next_object f; next_object = m.next_object + 1 })

-- `add` of a finished pipeline.
unfoldable pub add_pipeline : Pipeline → M (Unit {0})
add_pipeline p = modify (λ m. record m { pipelines = m.pipelines ++ p ∷ [] })

-- `p.add(f)` from a method of the mission.
unfoldable pub add_to_pipeline : Concept → Pipeline → ℕ → M Pipeline
add_to_pipeline c p f m = elim (Pipeline.add c f (record { pipeline = p; graph = m.graph })) [
  | done _ s ↦ done s.pipeline (record m { graph = s.graph })
  | thrown e s ↦ thrown e (record m { graph = s.graph })
  | blocked ↦ blocked
  | undefined ↦ undefined
  | out_of_fuel ↦ out_of_fuel
  | terminated ↦ terminated
]

unfoldable pub apply_flows_to_pipeline : Concept → Pipeline → List ℕ → M Pipeline
unfolding add_to_pipeline
apply_flows_to_pipeline c p [] = pure p
apply_flows_to_pipeline c p (f ∷ fs) = do q ← add_to_pipeline c p f; apply_flows_to_pipeline c q fs

-- `get_input_type_from_first_flow_t` and `get_output_type_from_last_flow_t`.
unfoldable pub first_input : List ℕ → Graph → Option TypeId
first_input [] g = none
first_input (f ∷ fs) g = some (g f).in_type

unfoldable pub last_output : List ℕ → Graph → Option TypeId
last_output fs g = elim (last_node fs) [ none ↦ none | some f ↦ some (g f).out_type ]

module _ (new_source new_sink : (queue : ℕ) (element : TypeId) → Flow) where
  unfoldable pub make_queue_source : List ℕ → M ℕ
  unfolding first_input get_or_create_queue make_shared
  make_queue_source fs m = elim (first_input fs m.graph) [
    | none ↦ undefined
    | some t ↦ (do q ← get_or_create_queue t; make_shared (new_source q t)) m
  ]

  unfoldable pub make_queue_sink : List ℕ → M ℕ
  unfolding last_output get_or_create_queue make_shared
  make_queue_sink fs m = elim (last_output fs m.graph) [
    | none ↦ undefined
    | some t ↦ (do q ← get_or_create_queue t; make_shared (new_sink q t)) m
  ]

  -- `add` of three tuples.
  unfoldable pub add_flows : (sources nodes sinks : List ℕ) → M (Unit {0})
  unfolding make_queue_source make_queue_sink apply_flows_to_pipeline
  add_flows ss ns ks = do
    p ←
        (if is_empty ss
          then (do
            f ← make_queue_source (ns ++ ks)
            add_to_pipeline source_like (record { sources = []; nodes = [] }) f)
          else apply_flows_to_pipeline source_like (record { sources = []; nodes = [] }) ss)
    q ← apply_flows_to_pipeline node_like p ns
    r ←
        (if is_empty ks
          then (do f ← make_queue_sink (ss ++ ns); add_to_pipeline sink_like q f)
          else apply_flows_to_pipeline sink_like q ks)
    modify (λ m. record m { pipelines = m.pipelines ++ r ∷ [] })
