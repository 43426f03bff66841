-- ===== src/Flow/Execute/Failures.antt =====
-- The ways in which an execution fails.
use pipeline_tools.Prelude.{
  Option-cases, inr, inl, ◌⊎◌, ℕ, suc, ◌≡◌, refl, false, none, some, [], ◌∷◌, arith,
}
use pipeline_tools.Prelude.Store.{update}
use pipeline_tools.Prelude.Outcome.{done, thrown, undefined, bad_any_cast, runtime_error}
use pipeline_tools.Flow.Any.{TypeId, plain, Value, AnyLib}
use pipeline_tools.Flow.Graph.{fanout, round_robin, source, module_block, sink, Graph}
use pipeline_tools.Flow.Execute.Fanout.{fanout_produce-nil}
use pipeline_tools.Flow.Execute.{any_cast_with_info, execute}

bad_cast :
    {Any : Type 0} (lib : AnyLib Any) (t : TypeId) (a : Any) (g : Graph)
    → lib.cast t a ≡ none
    → any_cast_with_info lib t a g ≡ thrown bad_any_cast g
unfolding any_cast_with_info
bad_cast lib t a g e = rw (e, any_cast_with_info)

module _ {Any : Type 0} (lib : AnyLib Any) (fuel id : ℕ) (a : Any) (producer_id : ℕ)
    (g : Graph) where
  -- A module that is executed without a value, or with the `nullopt` of a producer that had none,
  -- throws instead of skipping the round.
  pub module_without_value :
      (g id).block ≡ module_block
      → (a ≡ lib.empty) ⊎ (a ≡ lib.nullopt)
      → execute lib (suc fuel) id a producer_id g ≡ thrown bad_any_cast g
  unfolding execute
  module_without_value e (inl h) =
      rw (e, h, execute, bad_cast lib (g id).in_type lib.empty g (lib.cast-empty (g id).in_type))
        refl
  module_without_value e (inr h) =
      rw
        (e, h, execute, bad_cast lib (g id).in_type lib.nullopt g (lib.cast-nullopt (g id).in_type))
        refl

  -- A sink skips such a round.
  pub sink_without_value :
      (g id).block ≡ sink
      → (a ≡ lib.empty) ⊎ (a ≡ lib.nullopt)
      → execute lib (suc fuel) id a producer_id g ≡ done tt g
  unfolding execute
  sink_without_value e h = ground (arith, lib.has_value-empty, lib.is_nullopt-nullopt)

  -- A source under the Fanout policy, without consumers: the nullopt of a source that has no value is
  -- produced like a value, so that an execution is undefined behaviour whether it has one or not.
  pub source_without_consumer :
      (g id).block ≡ source
      → (g id).policy ≡ fanout
      → (g id).next_nodes ≡ []
      → lib.is_nullopt a ≡ false
      → execute lib (suc fuel) id a producer_id g ≡ undefined
  unfolding execute update
  source_without_consumer e p n h =
      let asked : Graph = update g id (record (g id) { calls = [] ∷ (g id).calls }) in
      elim (Option-cases ((g id).process ([] ∷ (g id).calls))) [
        | inl r ↦
            let past_end = fanout_produce-nil lib (execute lib fuel) lib.nullopt asked in
            ground (arith, lib.has_value-nullopt, past_end)
        | inr (v, r) ↦
            let past_end = fanout_produce-nil lib (execute lib fuel) (lib.wrap v) asked in
            ground (arith, lib.has_value-wrap v, past_end)
      ]

  -- RoundRobin on a block whose output type is no vector throws as soon as there is an output.
  pub round_robin_plain :
      (v : Value) (t : ℕ)
      → (g id).block ≡ source
      → (g id).policy ≡ round_robin
      → (g id).out_type ≡ plain t
      → (g id).process ([] ∷ (g id).calls) ≡ some v
      → lib.is_nullopt a ≡ false
      → (g' : Graph) × (execute lib (suc fuel) id a producer_id g ≡ thrown runtime_error g')
  unfolding execute update
  round_robin_plain v t e p o r h = (
    update g id (record (g id) { calls = [] ∷ (g id).calls }),
    ground (arith, lib.has_value-wrap v),
  )
