-- ===== src/Flow/Tests.antt =====
-- The theorems on flow objects at small graphs, with an `any` that is one of three things.
mod Streams
use pipeline_tools.Flow.Execute.Rounds.Fires.{Fired, stores, deliveries, deliveries-Fired}
use pipeline_tools.Prelude.{
  map, ◌≤◌, ◌<◌, ◌++◌, ltb, ℕ, zero, suc, ◌≡◌, refl, Bool, true, false, Option, none, some, List,
  [], ◌∷◌, arith, inr, ◌==◌, if◌then◌else◌,
}
use pipeline_tools.Prelude.Store.{update}
use pipeline_tools.Prelude.Outcome.{
  unordered_sources, ◌>>◌, thrown, undefined, bad_any_cast, Returns,
}
use pipeline_tools.Flow.Any.{TypeId, plain, vector, Value, item, batch, type_of, same_type, AnyLib}
use pipeline_tools.Flow.Graph.{
  fanout, round_robin, Block, source, module_block, aggregator, sink, Flow, Graph,
}
use pipeline_tools.Flow.Execute.{execute}
use pipeline_tools.Flow.Execute.Failures.{module_without_value, source_without_consumer}
use pipeline_tools.Flow.Execute.Delivery.{with_each, with_dealt, source_fanout, source_round_robin}
use pipeline_tools.Flow.Pipeline.Execution.{execute_pipeline-Ends}
use pipeline_tools.Flow.Pipeline.{execute_pipeline, State, source_like, add}
use pipeline_tools.Flow.Pipeline.Wiring.{
  consumers, targets, documented, empty, build, build-documented, source_after_nodes,
}
use pipeline_tools.Flow.Execute.Depth.{SameLinks, Ends, Ranked, execute-Ends}

data Box : Type 0 where
  nothing no_option : Box
  holds : Value → Box

has : Box → Bool
has nothing = false
has _ = true

is_none : Box → Bool
is_none no_option = true
is_none _ = false

cast_to : TypeId → Box → Option Value
cast_to t (holds v) = if same_type (type_of v) t then some v else none
cast_to t _ = none

boxes : AnyLib Box
unfolding has is_none cast_to
boxes = record {
  empty = nothing;
  nullopt = no_option;
  wrap = holds;
  has_value = has;
  is_nullopt = is_none;
  cast = cast_to;
  has_value-empty = refl;
  has_value-nullopt = refl;
  has_value-wrap = λ _. refl;
  is_nullopt-empty = refl;
  is_nullopt-nullopt = refl;
  is_nullopt-wrap = λ _. refl;
  cast-empty = λ _. refl;
  cast-nullopt = λ _. refl;
  cast-wrap = λ _ _. refl;
}

-- An object of plain types 1, whose `process` always returns `r`.
abbrev object : Block → Option Value → List (ℕ × ℕ) → Flow
object b r ns = record {
  block = b;
  in_type = plain 1;
  out_type = plain 1;
  process = λ _. r;
  policy = fanout;
  next_nodes = ns;
  calls = [];
  state = 0;
  producer_count = 0;
  latest = [];
  store = λ v. v;
  fetch = λ v. v;
  order = λ l. l;
}

-- Object 0 is a source, linked to the sinks 1 and 2.
abbrev two_sinks : Graph
two_sinks =
    update (λ _. object sink none []) 0 (object source (some (item 1 5)) ((1, 0) ∷ (2, 0) ∷ []))

-- The same with three outputs at a time, dealt.
abbrev dealer : Graph
dealer =
    update (λ _. object sink none []) 0
      (record (object source (some (batch 1 (5 ∷ 6 ∷ 7 ∷ []))) ((1, 0) ∷ (2, 0) ∷ [])) {
        policy = round_robin;
        out_type = vector 1;
      })

-- Each object alone.
abbrev alone : Block → Graph
alone b _ = object b (some (item 1 5)) []

source_fanout_example :
    Returns
      (λ _ g'. (g' 2).calls ≡ with_each 2 (item 1 5) ((1, 0) ∷ (2, 0) ∷ []) [])
      (execute boxes 2 0 nothing 0 two_sinks)
unfolding update boxes is_none
source_fanout_example =
    source_fanout boxes 0 2 0 (item 1 5) nothing 0 two_sinks (omega arith) refl refl refl (λ e. cc)
      (refl, refl, (refl, refl, tt)) refl

source_round_robin_example :
    Returns
      (λ _ g'. (g' 2).calls ≡ with_dealt 2 1 (5 ∷ 6 ∷ 7 ∷ []) ((1, 0) ∷ (2, 0) ∷ []) [])
      (execute boxes 2 0 nothing 0 dealer)
unfolding update boxes is_none
source_round_robin_example =
    source_round_robin boxes 0 2 0 1 (5 ∷ 6 ∷ 7 ∷ []) nothing 0 dealer (omega arith) refl refl refl
      refl (refl, refl, (refl, refl, tt)) refl

source_without_consumer_example : execute boxes 1 0 nothing 0 (alone source) ≡ undefined
unfolding boxes is_none
source_without_consumer_example =
    source_without_consumer boxes 0 0 nothing 0 (alone source) refl refl refl refl

-- The source above the sinks.
abbrev height : ℕ → ℕ
height id = if id == 0 then 1 else 0

heights : Ranked height two_sinks
unfolding update
heights zero = (omega arith, (omega arith, tt))
heights (suc id) = let other : (0 == suc id) ≡ false = ground arith in rw other tt

execute-Ends_example : Ends (SameLinks two_sinks) (execute boxes 2 0 nothing 0 two_sinks)
execute-Ends_example = execute-Ends boxes height 2 0 nothing 0 two_sinks (omega arith) heights

-- Unlinked objects: 0 and 1 are sources, 2 and 3 modules, the others sinks.
abbrev unlinked : Graph
unlinked id =
    if ltb id 2
    then object source none []
    else if ltb id 4
    then object module_block none []
    else object sink none []

build-documented_example :
    Returns
      (λ _ t.
        consumers t.graph 3
        ≡ consumers unlinked 3 ++ targets 3 (documented (0 ∷ 1 ∷ []) (2 ∷ 3 ∷ []) (4 ∷ 5 ∷ [])))
      (build (0 ∷ 1 ∷ []) (2 ∷ 3 ∷ []) (4 ∷ 5 ∷ []) (empty unlinked))
build-documented_example = build-documented (0 ∷ 1 ∷ []) (2 ∷ 3 ∷ []) (4 ∷ 5 ∷ []) unlinked 3

-- The last module hands its outputs to both sinks.
documented_links : targets 3 (documented (0 ∷ 1 ∷ []) (2 ∷ 3 ∷ []) (4 ∷ 5 ∷ [])) ≡ 4 ∷ 5 ∷ []
documented_links = refl

deep_enough : (id : ℕ) → height id < 2
deep_enough id = ground arith

abbrev payload : Value → ℕ
payload (item t n) = n
payload (batch t ns) = 0

-- An aggregator of two producers that passes their values on as a vector, with its map in the order of insertion.
abbrev two_producers : Flow
two_producers = record {
  block = aggregator;
  in_type = plain 1;
  out_type = plain 1;
  process = λ calls. elim calls [ [] ↦ none | c ∷ cs ↦ some (batch 1 (map payload c)) ];
  policy = fanout;
  next_nodes = [];
  calls = [];
  state = 0;
  producer_count = 2;
  latest = [];
  store = λ v. v;
  fetch = λ v. v;
  order = λ l. l;
}

few_producers : two_producers.producer_count ≤ 30
few_producers = omega arith

-- The second producer delivers first.
deliveries-Fired_example :
    Returns
      (Fired boxes 0 two_producers few_producers
        (stores two_producers ((1, item 1 8) ∷ (0, item 1 7) ∷ []))
        ((1, item 1 8) ∷ [])
        (λ _. two_producers))
      (deliveries boxes 0 ((1, item 1 8) ∷ (0, item 1 7) ∷ []) (λ _. two_producers))
deliveries-Fired_example =
    deliveries-Fired boxes 0 two_producers few_producers ((1, item 1 8) ∷ []) (λ _. two_producers) 0
      (item 1 7) refl (omega arith, refl, refl, (omega arith, refl, refl, tt)) refl
