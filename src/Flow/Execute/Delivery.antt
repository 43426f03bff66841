-- ===== src/Flow/Execute/Delivery.antt =====
-- What the two production policies hand to which consumer, for a source whose consumers are sinks.
use pipeline_tools.Prelude.{
  ℕ, suc, ◌≡◌, ◌≢◌, refl, true, false, some, List, [], ◌∷◌, arith, ◌==◌, if◌then◌else◌,
}
use pipeline_tools.Prelude.Store.{update}
use pipeline_tools.Prelude.Outcome.{done, Returns}
use pipeline_tools.Flow.Any.{TypeId, plain, vector, Value, item, batch, AnyLib, type_of, same_type}
use pipeline_tools.Flow.Graph.{fanout, round_robin, source, sink, Graph}
use pipeline_tools.Flow.Execute.Fanout.{call_each, fanout_produce-each}
use pipeline_tools.Flow.Execute.{execute, deal}

-- One more call of the `process` of object `j`, on `v`.
unfoldable pub deliver : Graph → ℕ → Value → Graph
deliver g j v = update g j (record (g j) { calls = (v ∷ []) ∷ (g j).calls })

-- All these consumers are sinks of inputs of the type `t`.
abbrev pub AreSinks : TypeId → List (ℕ × ℕ) → Graph → Type 0
AreSinks t [] g = Unit {0}
AreSinks t ((j, _) ∷ ns) g = ((g j).block ≡ sink) × ((g j).in_type ≡ t) × AreSinks t ns g

pub same_type_refl : (t : TypeId) → same_type t t ≡ true
same_type_refl (plain t) = ground arith
same_type_refl (vector t) = ground arith

AreSinks-calls :
    (t : TypeId) (ns : List (ℕ × ℕ)) (g : Graph) (j : ℕ) (calls : List (List Value))
    → AreSinks t ns g
    → AreSinks t ns (update g j (record (g j) { calls = calls }))
unfolding update
AreSinks-calls t [] g j calls h = tt
AreSinks-calls t ((k, _) ∷ ns) g j calls h =
    (ground arith, ground arith, AreSinks-calls t ns g j calls h.2)

AreSinks-deliver :
    (t : TypeId) (ns : List (ℕ × ℕ)) (g : Graph) (j : ℕ) (v : Value)
    → AreSinks t ns g
    → AreSinks t ns (deliver g j v)
unfolding deliver
AreSinks-deliver t ns g j v h = AreSinks-calls t ns g j _ h

-- The graph once the `process` of a source has been called.
abbrev pub asked : Graph → ℕ → Graph
asked g src = update g src (record (g src) { calls = [] ∷ (g src).calls })

module _ {Any : Type 0} (lib : AnyLib Any) where
  -- A sink that is executed with a value of its input type processes it.
  pub sink-deliver :
      (fuel j : ℕ) (v : Value) (id : ℕ) (g : Graph)
      → (g j).block ≡ sink
      → (g j).in_type ≡ type_of v
      → execute lib (suc fuel) j (lib.wrap v) id g ≡ done tt (deliver g j v)
  unfolding execute deliver
  sink-deliver fuel j v id g b t = ground (
    arith,
    lib.has_value-wrap v,
    lib.is_nullopt-wrap v,
    lib.cast-wrap (type_of v) v,
    same_type_refl (type_of v),
  )

-- The calls of object `j` once every entry of `ns` has been given `v`: one for each entry of `j`.
abbrev pub with_each : ℕ → Value → List (ℕ × ℕ) → List (List Value) → List (List Value)
with_each j v [] calls = calls
with_each j v ((k, _) ∷ ns) calls = with_each j v ns (if k == j then (v ∷ []) ∷ calls else calls)

-- The calls of object `j` once the payloads have been dealt to the entries of `ns`, one to each, until
-- payloads or entries run out.
abbrev pub with_dealt : ℕ → ℕ → List ℕ → List (ℕ × ℕ) → List (List Value) → List (List Value)
with_dealt j t [] ns calls = calls
with_dealt j t (v ∷ vs) [] calls = calls
with_dealt j t (v ∷ vs) ((k, _) ∷ ns) calls =
    with_dealt j t vs ns (if k == j then (item t v ∷ []) ∷ calls else calls)

calls-deliver :
    (g : Graph) (k : ℕ) (v : Value) (j : ℕ)
    → (deliver g k v j).calls ≡ (if k == j then (v ∷ []) ∷ (g j).calls else (g j).calls)
unfolding deliver update
calls-deliver g k v j = ground arith

pub asked-other : (j : ℕ) (g : Graph) (src : ℕ) → j ≢ src → (asked g src j).calls ≡ (g j).calls
unfolding update
asked-other j g src other = ground arith

module _ {Any : Type 0} (lib : AnyLib Any) (fuel : ℕ) where
  pub source-fanout :
      (src : ℕ) (v : Value) (a : Any) (id : ℕ) (g : Graph)
      → (g src).block ≡ source
      → (g src).policy ≡ fanout
      → (g src).process ([] ∷ (g src).calls) ≡ some v
      → lib.is_nullopt a ≡ false
      → execute lib (suc fuel) src a id g
        ≡ call_each lib (execute lib fuel) (lib.wrap v) (g src).next_nodes (asked g src)
  unfolding execute update
  source-fanout src v a id g b p r na =
      let each =
        fanout_produce-each lib (execute lib fuel) (lib.wrap v) (g src).next_nodes (asked g src) in
      ground (arith, lib.has_value-wrap v, each)

  source-round_robin :
      (src : ℕ) (t : ℕ) (vs : List ℕ) (a : Any) (id : ℕ) (g : Graph)
      → (g src).block ≡ source
      → (g src).policy ≡ round_robin
      → (g src).out_type ≡ vector t
      → (g src).process ([] ∷ (g src).calls) ≡ some (batch t vs)
      → lib.is_nullopt a ≡ false
      → execute lib (suc fuel) src a id g
        ≡ deal lib (execute lib fuel) t vs (g src).next_nodes (asked g src)
  unfolding execute update
  source-round_robin src t vs a id g b p o r na = ground (
    arith,
    lib.has_value-wrap (batch t vs),
    lib.cast-wrap (vector t) (batch t vs),
    same_type_refl (vector t),
  )

module _ {Any : Type 0} (lib : AnyLib Any) (fuel : ℕ) (j : ℕ) where
  fanout-sinks :
      (v : Value) (ns : List (ℕ × ℕ)) (g : Graph)
      → ns ≢ []
      → AreSinks (type_of v) ns g
      → Returns
          (λ _ g'. (g' j).calls ≡ with_each j v ns (g j).calls)
          (call_each lib (execute lib (suc fuel)) (lib.wrap v) ns g)
  unfolding call_each
  fanout-sinks v [] g some_one h = absurd (some_one refl)
  fanout-sinks v ((k, id) ∷ []) g some_one h =
      rw (sink-deliver lib fuel k v id g h.0 h.1) (calls-deliver g k v j)
  fanout-sinks v ((k, id) ∷ n ∷ ns) g some_one h =
      rw (sink-deliver lib fuel k v id g h.0 h.1, ← calls-deliver g k v j)
        (fanout-sinks v (n ∷ ns) (deliver g k v) (λ e. cc)
          (AreSinks-deliver (type_of v) (n ∷ ns) g k v h.2))

  deal-sinks :
      (t : ℕ) (vs : List ℕ) (ns : List (ℕ × ℕ)) (g : Graph)
      → AreSinks (plain t) ns g
      → Returns
          (λ _ g'. (g' j).calls ≡ with_dealt j t vs ns (g j).calls)
          (deal lib (execute lib (suc fuel)) t vs ns g)
  unfolding deal
  deal-sinks t [] ns g h = refl
  deal-sinks t (v ∷ vs) [] g h = refl
  deal-sinks t (v ∷ vs) ((k, id) ∷ ns) g h =
      rw (sink-deliver lib fuel k (item t v) id g h.0 h.1, ← calls-deliver g k (item t v) j)
        (deal-sinks t vs ns (deliver g k (item t v))
          (AreSinks-deliver (plain t) ns g k (item t v) h.2))

  -- A source under the Fanout policy, with at least one consumer and only sinks of its type as
  -- consumers: an execution that finds a value calls every other object's `process` on that value as
  -- often as the object stands among the consumers.
  pub source_fanout :
      (src : ℕ) (v : Value) (a : Any) (id : ℕ) (g : Graph)
      → j ≢ src
      → (g src).block ≡ source
      → (g src).policy ≡ fanout
      → (g src).process ([] ∷ (g src).calls) ≡ some v
      → (g src).next_nodes ≢ []
      → AreSinks (type_of v) (g src).next_nodes g
      → lib.is_nullopt a ≡ false
      → Returns
          (λ _ g'. (g' j).calls ≡ with_each j v (g src).next_nodes (g j).calls)
          (execute lib (suc (suc fuel)) src a id g)
  source_fanout src v a id g other b p r some_one h na =
      rw (source-fanout lib (suc fuel) src v a id g b p r na, ← asked-other j g src other)
        (fanout-sinks v (g src).next_nodes (asked g src) some_one
          (AreSinks-calls (type_of v) (g src).next_nodes g src _ h))

  -- A source under the RoundRobin policy with a vector of outputs and only sinks of the element type as
  -- consumers: consumer number i is called on output number i, as long as there are both; what is left
  -- of the outputs is dropped.
  pub source_round_robin :
      (src : ℕ) (t : ℕ) (vs : List ℕ) (a : Any) (id : ℕ) (g : Graph)
      → j ≢ src
      → (g src).block ≡ source
      → (g src).policy ≡ round_robin
      → (g src).out_type ≡ vector t
      → (g src).process ([] ∷ (g src).calls) ≡ some (batch t vs)
      → AreSinks (plain t) (g src).next_nodes g
      → lib.is_nullopt a ≡ false
      → Returns
          (λ _ g'. (g' j).calls ≡ with_dealt j t vs (g src).next_nodes (g j).calls)
          (execute lib (suc (suc fuel)) src a id g)
  source_round_robin src t vs a id g other b p o r h na =
      rw (source-round_robin lib (suc fuel) src t vs a id g b p o r na, ← asked-other j g src other)
        (deal-sinks t vs (g src).next_nodes (asked g src)
          (AreSinks-calls (plain t) (g src).next_nodes g src _ h))
