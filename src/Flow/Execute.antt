-- ===== src/Flow/Execute.antt =====
-- `execute`, `produce` and `process_any` of Flow.hpp, Producer.hpp and blocks/. An object executes its
-- consumers inside its own `execute`, so that the calls nest as deep as the graph; `fuel` bounds the
-- depth. Copies and moves of a value are the value.
pub mod Fanout
pub mod Failures
pub mod Delivery
pub mod Chains
pub mod Depth
pub mod Rounds
use Prim.Native.Nat.{bit_and, bit_or}
use pipeline_tools.Prelude.{
  ℕ, zero, suc, ◌+◌, ◌-◌, ◌^◌, Bool, true, false, ◌&&◌, ◌||◌, not, Option, none, some, List, [],
  ◌∷◌, ◌++◌, map, length, get_elem?, ltb, ◌==◌, if◌then◌else◌,
}
use pipeline_tools.Prelude.Store.{update}
use pipeline_tools.Prelude.Outcome.{
  Outcome, done, thrown, undefined, out_of_fuel, terminated, runtime_error, out_of_range,
  bad_any_cast, Cmd, pure, throw, ◌>>=◌, ◌>>◌, modify,
}
use pipeline_tools.Flow.Any.{TypeId, plain, vector, Value, item, batch, AnyLib}
use pipeline_tools.Flow.Graph.{
  ProductionPolicy, fanout, round_robin, Block, source, module_block, aggregator, sink, Flow, Graph,
}

abbrev pub M : Type 0 → Type 0
M A = Cmd Graph A

-- A call of the user's `process` on these inputs.
unfoldable pub call_process : ℕ → List Value → Graph → Option Value × Graph
call_process id inputs g =
    let calls = inputs ∷ (g id).calls in
    ((g id).process calls, update g id (record (g id) { calls = calls }))

-- `latest[producer_id] = v`.
unfoldable pub assign : ℕ → Value → List (ℕ × Value) → List (ℕ × Value)
assign k v [] = (k, v) ∷ []
assign k v ((j, w) ∷ m) = if j == k then (k, v) ∷ m else (j, w) ∷ assign k v m

-- `1 << producer_id`, an `int` that becomes a `size_t`; a shift by 32 or more is undefined.
unfoldable pub bit_of : ℕ → Option ℕ
bit_of producer_id =
    if ltb producer_id 31
    then some (2 ^ producer_id)
    else if producer_id == 31
    then some (2 ^ 64 - 2 ^ 31)
    else none

-- `n - 1` of a `size_t`, which wraps around at 0.
unfoldable pub minus_one : ℕ → ℕ
minus_one zero = 2 ^ 64 - 1
minus_one (suc n) = n

module _ {Any : Type 0} (lib : AnyLib Any) where
  abbrev pub optional_any : Option Value → Any
  optional_any none = lib.nullopt
  optional_any (some v) = lib.wrap v

  abbrev pub some_any : Option Value → Any
  some_any none = lib.empty
  some_any (some v) = lib.wrap v

  -- `any_cast_with_info`.
  unfoldable pub any_cast_with_info : TypeId → Any → M Value
  any_cast_with_info t a g = elim (lib.cast t a) [
    | none ↦ thrown bad_any_cast g
    | some v ↦ done v g
  ]

  -- The end of `Aggregator::process_any`, once every producer has delivered. The cast of
  -- `pow(2, producer_count)` to an `int` is undefined from 31 producers on.
  unfoldable pub collect : ℕ → M Any
  unfolding call_process
  collect id g =
      let f = g id in
      if ltb 30 f.producer_count
      then undefined
      else if f.state == 2 ^ f.producer_count - 1
      then (let collected = map (λ (_, v). f.fetch v) (f.order f.latest) in
          let g' : Graph = update g id (record f { state = 0; latest = [] }) in
          let (result, g'') = call_process id collected g' in done (some_any result) g'')
      else done lib.empty g

  unfoldable pub aggregate : ℕ → Any → ℕ → ℕ → M Any
  unfolding any_cast_with_info collect assign
  aggregate id a producer_id idx g =
      if bit_and (g id).state idx == 0
      then (do
        v ← any_cast_with_info (g id).in_type a
        modify (λ h. update h id (record (h id) {
          latest = assign producer_id ((h id).store v) (h id).latest;
          state = bit_or (h id).state idx;
        }))
        collect id)
          g
      else done lib.empty g

  -- `Source::process_any`.
  unfoldable pub process_source : ℕ → M Any
  unfolding call_process
  process_source id g = let (result, g') = call_process id [] g in done (optional_any result) g'

  -- `Module::process_any`.
  unfoldable pub process_module : ℕ → Any → M Any
  unfolding call_process any_cast_with_info
  process_module id a g =
      (do
        v ← any_cast_with_info (g id).in_type a
        λ h. let (result, h') = call_process id (v ∷ []) h in done (optional_any result) h')
        g

  -- `Aggregator::process_any`.
  unfoldable pub process_aggregator : ℕ → Any → ℕ → M Any
  unfolding aggregate bit_of
  process_aggregator id a producer_id g = elim (bit_of producer_id) [
    | none ↦ undefined
    | some idx ↦ aggregate id a producer_id idx g
  ]

  -- `Sink::process_any`.
  unfoldable pub process_sink : ℕ → Any → M Any
  unfolding call_process any_cast_with_info
  process_sink id a g =
      (do
        v ← any_cast_with_info (g id).in_type a
        λ h. let (_, h') = call_process id (v ∷ []) h in done lib.empty h')
        g

  unfoldable pub process_any : Block → ℕ → Any → ℕ → M Any
  unfolding process_source process_module process_aggregator process_sink
  process_any source id a producer_id g = process_source id g
  process_any module_block id a producer_id g = process_module id a g
  process_any aggregator id a producer_id g = process_aggregator id a producer_id g
  process_any sink id a producer_id g = process_sink id a g

  -- What a call of a consumer's `execute` does: the object, the value and the producer's id.
  abbrev pub Exec : Type 0
  Exec = ℕ → Any → ℕ → M (Unit {0})

  -- The loop of the `Fanout` case over `count` indices from `i` on; to read `next_nodes[i]` past the end
  -- is undefined.
  unfoldable pub fanout_loop : Exec → Any → (count i : ℕ) → List (ℕ × ℕ) → M (Unit {0})
  fanout_loop exec output zero i ns = pure tt
  fanout_loop exec output (suc count) i ns = elim (get_elem? ns i) [
    | none ↦ λ _. undefined
    | some (next, id) ↦ do exec next output id; fanout_loop exec output count (suc i) ns
  ]

  -- `next_nodes.at(i)` and the call of the object there.
  unfoldable pub call_at : Exec → Any → ℕ → List (ℕ × ℕ) → M (Unit {0})
  call_at exec output i ns = elim (get_elem? ns i) [
    | none ↦ throw out_of_range
    | some (last, id) ↦ exec last output id
  ]

  -- The `Fanout` case of `produce`.
  unfoldable pub fanout_produce : Exec → Any → List (ℕ × ℕ) → M (Unit {0})
  unfolding fanout_loop call_at minus_one
  fanout_produce exec output ns = do
    fanout_loop exec output (minus_one (length ns)) 0 ns
    call_at exec output (minus_one (length ns)) ns

  -- `round_robin_produce` of `Producer<std::vector<Out>>`: one output for each consumer, in order, as
  -- long as there are both.
  unfoldable pub deal : Exec → ℕ → List ℕ → List (ℕ × ℕ) → M (Unit {0})
  deal exec t [] ns = pure tt
  deal exec t (v ∷ vs) [] = pure tt
  deal exec t (v ∷ vs) ((next, id) ∷ ns) = do exec next (lib.wrap (item t v)) id; deal exec t vs ns

  unfoldable pub deal_batch : Exec → Value → List (ℕ × ℕ) → M (Unit {0})
  unfolding deal
  deal_batch exec (item t v) ns = λ _. undefined
  deal_batch exec (batch t vs) ns = deal exec t vs ns

  -- `round_robin_produce`, by the output type of the producer.
  unfoldable pub round_robin_produce : Exec → TypeId → Any → List (ℕ × ℕ) → M (Unit {0})
  unfolding deal_batch any_cast_with_info
  round_robin_produce exec (plain t) output ns = throw runtime_error
  round_robin_produce exec (vector t) output ns = do
    outputs ← any_cast_with_info (vector t) output
    deal_batch exec outputs ns

  unfoldable pub produce : Exec → ℕ → Any → M (Unit {0})
  unfolding round_robin_produce
  produce exec id output g = elim (g id).policy [
    | fanout ↦ fanout_produce exec output (g id).next_nodes g
    | round_robin ↦ round_robin_produce exec (g id).out_type output (g id).next_nodes g
  ]

  -- `Sink::execute`.
  unfoldable pub execute_sink : ℕ → Any → ℕ → M (Unit {0})
  unfolding process_any
  execute_sink id a producer_id g =
      if not (lib.has_value a) || lib.is_nullopt a
      then done tt g
      else (do process_any sink id a producer_id; pure tt) g

  -- `Flow::execute`, which `Sink` overrides.
  unfoldable pub execute_block : Exec → Block → ℕ → Any → ℕ → M (Unit {0})
  unfolding process_any produce execute_sink
  execute_block exec sink id a producer_id g = execute_sink id a producer_id g
  execute_block exec b id a producer_id g =
      (do
        output ← process_any b id a producer_id
        if lib.has_value output && not (lib.is_nullopt a) then produce exec id output else pure tt)
        g

  unfoldable pub execute : ℕ → Exec
  unfolding execute_block
  execute zero id a producer_id g = out_of_fuel
  execute (suc fuel) id a producer_id g =
      execute_block (execute fuel) (g id).block id a producer_id g
