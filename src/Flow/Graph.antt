-- ===== src/Flow/Graph.antt =====
-- Flow objects and the links between them (Flow.hpp, Producer.hpp and blocks/). An object is known by
-- a number, as a `shared_ptr` is by its address. The code that a user writes, `process`, is a function
-- of the inputs of all its calls so far, the latest first: so it may keep a state of its own.
use pipeline_tools.Prelude.{ℕ, ◌+◌, Option, List, [], ◌∷◌, ◌++◌}
use pipeline_tools.Prelude.Store.{update}
use pipeline_tools.Flow.Any.{TypeId, Value}

pub data ProductionPolicy : Type 0 where
  fanout round_robin : ProductionPolicy

-- The names of the policies, by their bytes; the `default` of the switch is never taken.
unfoldable pub policy_to_string : ProductionPolicy → List ℕ
policy_to_string fanout = b'F' ∷ b'a' ∷ b'n' ∷ b'o' ∷ b'u' ∷ b't' ∷ []
policy_to_string round_robin =
    b'R' ∷ b'o' ∷ b'u' ∷ b'n' ∷ b'd' ∷ b'R' ∷ b'o' ∷ b'b' ∷ b'i' ∷ b'n' ∷ []

-- The class of the object: which of the four blocks it derives from.
pub data Block : Type 0 where
  source module_block aggregator sink : Block

-- `state`, `producer_count` and `latest` are the members of an aggregator; `store` and `fetch` are the
-- conversions from `In` to `Out` and back that its map of `Out` makes, `order` the map's own order.
pub record Flow : Type 0 where
  pub block : Block
  pub in_type : TypeId
  pub out_type : TypeId
  pub process : List (List Value) → Option Value
  pub policy : ProductionPolicy
  pub next_nodes : List (ℕ × ℕ)
  pub calls : List (List Value)
  pub state : ℕ
  pub producer_count : ℕ
  pub latest : List (ℕ × Value)
  pub store : Value → Value
  pub fetch : Value → Value
  pub order : List (ℕ × Value) → List (ℕ × Value)

abbrev pub Graph : Type 0
Graph = ℕ → Flow

-- `register_producer` of an aggregator numbers its producers; of any other block it returns 0.
unfoldable pub register_producer : Block → ℕ → Graph → ℕ × Graph
register_producer aggregator next g = (
  (g next).producer_count,
  update g next (record (g next) { producer_count = (g next).producer_count + 1 }),
)
register_producer _ next g = (0, g)

-- `from->add_consumer(next)`, which `connect` calls.
unfoldable pub add_consumer : (from next : ℕ) → Graph → Graph
unfolding register_producer
add_consumer from next g =
    let (id, g') = register_producer (g next).block next g in
    update g' from (record (g' from) { next_nodes = (g' from).next_nodes ++ (next, id) ∷ [] })
