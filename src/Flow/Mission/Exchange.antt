-- ===== src/Flow/Mission/Exchange.antt =====
-- Two neighbours of a mission: the sink of the first pipeline is a QueueSink and the source of the second
-- a QueueSource, on one StdQueue. Each pipeline has a graph of its own, and each execution is a turn.
pub mod Turns
pub mod Delivered
pub mod Interleaved
use pipeline_tools.Prelude.{
  ℕ, zero, suc, ◌+◌, ◌-◌, ◌<◌, ◌≡◌, ◌≢◌, refl, sym, ap, ◌∙◌, true, false, Option, none, some, List,
  [], ◌∷◌, ◌++◌, map, length, take, reverse, arith, ◌==◌, if◌then◌else◌, Option-cases, inl, inr,
}
use pipeline_tools.Prelude.Store.{update}
use pipeline_tools.Prelude.Outcome.{
  Outcome, done, thrown, blocked, undefined, out_of_fuel, terminated, Cmd, Returns, Returns-mono,
  Returns-bind, pure, and_then, ◌>>◌, ◌>>=◌,
}
use pipeline_tools.Flow.Any.{Value, AnyLib}
use pipeline_tools.Flow.Graph.{source, Graph, Flow}
use pipeline_tools.Flow.Execute
use pipeline_tools.Flow.Execute.{execute}
use pipeline_tools.Flow.Pipeline.{Pipeline, execute_pipeline}
use pipeline_tools.Queues.{std_queue, source_process, sink_process}

pub record Neighbours : Type 0 where
  pub first : Graph
  pub queue : List Value
  pub second : Graph

abbrev pub M : Type 0 → Type 0
M A = Cmd Neighbours A

-- The inputs of the last `n` calls, in the order of the calls.
unfoldable pub newest : ℕ → List (List Value) → List Value
newest zero calls = []
newest (suc n) [] = []
newest (suc n) (c ∷ calls) = newest n calls ++ c

abbrev pub inputs_since : (old new : List (List Value)) → List Value
inputs_since old new = newest (length new - length old) new

-- `QueueSink::process` on each of these.
unfoldable pub push_all : List Value → Cmd (List Value) (Unit {0})
unfolding sink_process std_queue
push_all [] = pure tt
push_all (v ∷ vs) = do sink_process std_queue v; push_all vs

-- The graph in which the `process` of the QueueSource `src` returns what it takes from the queue.
abbrev pub reading : ℕ → Option Value → Graph → Graph
reading src x g = update g src (record (g src) { process = λ _. x })

abbrev pub in_second : Neighbours → Outcome Graph (Unit {0}) → Outcome Neighbours (Unit {0})
in_second s (done _ g) = done tt (record s { second = g })
in_second s (thrown e g) = thrown e (record s { second = g })
in_second s blocked = blocked
in_second s undefined = undefined
in_second s out_of_fuel = out_of_fuel
in_second s terminated = terminated

module _ {Any : Type 0} (lib : AnyLib Any) (fuel : ℕ) (out : Value) where
  -- What the QueueSink `snk` was called with goes into the queue.
  unfoldable pub queued : ℕ → Neighbours → Outcome Graph (Unit {0}) → Outcome Neighbours (Unit {0})
  unfolding push_all
  queued snk s (done _ g) =
      elim (push_all (inputs_since (s.first snk).calls (g snk).calls) s.queue) [
        | done _ q ↦ done tt (record s { first = g; queue = q })
        | thrown e q ↦ thrown e (record s { first = g; queue = q })
        | blocked ↦ blocked
        | undefined ↦ undefined
        | out_of_fuel ↦ out_of_fuel
        | terminated ↦ terminated
      ]
  queued snk s (thrown e g) =
      elim (push_all (inputs_since (s.first snk).calls (g snk).calls) s.queue) [
        | done _ q ↦ thrown e (record s { first = g; queue = q })
        | thrown e' q ↦ thrown e (record s { first = g; queue = q })
        | blocked ↦ blocked
        | undefined ↦ undefined
        | out_of_fuel ↦ out_of_fuel
        | terminated ↦ terminated
      ]
  queued snk s blocked = blocked
  queued snk s undefined = undefined
  queued snk s out_of_fuel = out_of_fuel
  queued snk s terminated = terminated

  -- An execution of the first pipeline, which ends in `snk`.
  unfoldable pub first_turn : Pipeline → ℕ → M (Unit {0})
  unfolding queued execute_pipeline
  first_turn p snk s = queued snk s (execute_pipeline lib (execute lib fuel) p s.first)

  -- An execution of the second pipeline, whose source is `src`.
  unfoldable pub second_turn : Pipeline → ℕ → M (Unit {0})
  unfolding execute_pipeline source_process std_queue
  second_turn p src s = elim (source_process std_queue out s.queue) [
    | done x q ↦
        in_second (record s { queue = q })
          (execute_pipeline lib (execute lib fuel) p (reading src x s.second))
    | thrown e q ↦ thrown e (record s { queue = q })
    | blocked ↦ blocked
    | undefined ↦ undefined
    | out_of_fuel ↦ out_of_fuel
    | terminated ↦ terminated
  ]
