-- ===== src/Flow/Execute/Rounds.antt =====
-- An aggregator from one round to the next: its mask of bits is the set of the producers that have
-- delivered.
pub mod Fires
use Prim.Native.Nat.{bit_and, bit_or}
use pipeline_tools.Prelude.{
  ℕ, zero, suc, ◌+◌, ◌-◌, ◌^◌, ◌≤◌, ◌<◌, ◌≡◌, ◌≢◌, refl, sym, ap, ◌∙◌, Bool, true, false, not,
  Option, none, some, List, [], ◌∷◌, ◌++◌, map, arith, ltb, ltb-false, ◌==◌, if◌then◌else◌,
  Bool-cases, inl, inr,
}
use native.Mathlib.Nat.{one-le-pow}
use pipeline_tools.Prelude.Bits.{mask, include, all_below, mask-bit_and, mask-include, mask-full}
use pipeline_tools.Prelude.Store.{update, update_self}
use pipeline_tools.Prelude.Outcome.{Outcome, done, Returns}
use pipeline_tools.Flow.Any.{Value, AnyLib, type_of, same_type}
use pipeline_tools.Flow.Graph.{Flow, Graph}
use pipeline_tools.Flow.Execute.{
  assign, bit_of, some_any, call_process, any_cast_with_info, collect, aggregate,
  process_aggregator,
}

-- The values that have been stored come from producers in the set.
abbrev pub Within : (ℕ → Bool) → List (ℕ × Value) → Type 0
Within d [] = Unit {0}
Within d ((j, w) ∷ got) = (d j ≡ true) × Within d got

-- The object has become `f`, and no other object has changed.
pub record Becomes (id : ℕ) (f : Flow) (g g' : Graph) : Type 0 where
  pub itself : g' id ≡ f
  pub others : (j : ℕ) → j ≢ id → g' j ≡ g j

-- The aggregator `f`, with the producers of `d` delivered and their values stored as `got`.
abbrev pub collecting : Flow → (ℕ → Bool) → List (ℕ × Value) → Flow
collecting f d got = record f { state = mask f.producer_count d; latest = got }

-- What the aggregator hands to `process` at the end of a round, and what it is then.
abbrev pub inputs_of : Flow → List (ℕ × Value) → List Value
inputs_of f got = map (λ (_, v). f.fetch v) (f.order got)

abbrev pub fired : Flow → List (ℕ × Value) → Flow
fired f got = record f { state = 0; latest = []; calls = inputs_of f got ∷ f.calls }

assign-new :
    (d : ℕ → Bool) (i : ℕ) (v : Value) (got : List (ℕ × Value))
    → d i ≡ false
    → Within d got
    → assign i v got ≡ got ++ (i, v) ∷ []
unfolding assign
assign-new d i v [] new h = refl
assign-new d i v ((j, w) ∷ got) new h = ground (arith, h.0, ap d, assign-new d i v got new h.1)

pub updated : (g : Graph) (id : ℕ) (f f' : Flow) → Becomes id f g (update (update g id f') id f)
unfolding update
updated g id f f' = record { itself = ground arith; others = λ j h. ground arith }

module _ {Any : Type 0} (lib : AnyLib Any) (id : ℕ) (f : Flow) (few : f.producer_count ≤ 30) where
  pub collect-open :
      (d : ℕ → Bool) (got : List (ℕ × Value)) (g : Graph)
      → g id ≡ collecting f d got
      → all_below f.producer_count d ≡ false
      → collect lib id g ≡ done lib.empty g
  unfolding collect
  collect-open d got g e open_ =
      rw (e, collect, ltb-false 30 f.producer_count few, mask-full f.producer_count d, open_) refl

  pub collect-fired :
      (d : ℕ → Bool) (got : List (ℕ × Value)) (g : Graph)
      → g id ≡ collecting f d got
      → all_below f.producer_count d ≡ true
      → Returns
          (λ a g'.
            (a ≡ some_any lib (f.process (inputs_of f got ∷ f.calls)))
            × Becomes id (fired f got) g g')
          (collect lib id g)
  unfolding collect call_process
  collect-fired d got g e full =
      rw
        (
          collect,
          e,
          ltb-false 30 f.producer_count few,
          mask-full f.producer_count d,
          full,
          update_self g id (record f { state = 0; latest = [] }),
        )
        (refl, updated g id (fired f got) (record f { state = 0; latest = [] }))

  bit_of_small : (i : ℕ) → i < f.producer_count → bit_of i ≡ some (2 ^ i)
  unfolding bit_of
  bit_of_small i h = ground arith

  not_yet :
      (d : ℕ → Bool) (i : ℕ)
      → i < f.producer_count
      → (bit_and (mask f.producer_count d) (2 ^ i) == 0) ≡ not (d i)
  not_yet d i h = ground (arith, mask-bit_and f.producer_count d i h, one-le-pow i 2)

  module _ (d : ℕ → Bool) (got : List (ℕ × Value)) (g : Graph) (i : ℕ) (v : Value)
      (e : g id ≡ collecting f d got) (known : i < f.producer_count) where
    -- A second value from a producer in the same round is dropped.
    pub deliver-again : d i ≡ true → process_aggregator lib id (lib.wrap v) i g ≡ done lib.empty g
    unfolding process_aggregator aggregate
    deliver-again old =
        rw (bit_of_small i known, process_aggregator, e, aggregate, not_yet d i known, old) refl

    abbrev pub stored : Graph
    stored = update g id (collecting f (include d i) (got ++ (i, f.store v) ∷ []))

    pub deliver-collect :
        d i ≡ false
        → Within d got
        → same_type (type_of v) f.in_type ≡ true
        → process_aggregator lib id (lib.wrap v) i g ≡ collect lib id stored
    unfolding process_aggregator aggregate
    deliver-collect new within fits =
        rw
          (
            bit_of_small i known,
            process_aggregator,
            e,
            aggregate,
            not_yet d i known,
            new,
            any_cast_with_info,
            lib.cast-wrap f.in_type v,
            fits,
            e,
            mask-include f.producer_count d i known,
            assign-new d i (f.store v) got new within,
          )
          refl
