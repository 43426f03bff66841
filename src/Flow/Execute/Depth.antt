-- ===== src/Flow/Execute/Depth.antt =====
-- The fuel of `execute`: a graph without cycles needs no more than its depth, and keeps its links.
use pipeline_tools.Prelude.{
  ◌-◌, ◌⊎◌, ◌^◌, ◌||◌, ℕ, zero, suc, ◌<◌, ◌≡◌, refl, ◌∙◌, true, false, Bool, List, [], ◌∷◌, arith,
  ◌==◌, if◌then◌else◌, Option-cases, Bool-cases, inl, inr, ◌&&◌, not,
}
use Prim.Native.Nat.{bit_or}
use pipeline_tools.Prelude.Store.{update}
use pipeline_tools.Prelude.Outcome.{
  Outcome, done, thrown, blocked, undefined, out_of_fuel, terminated, and_then, Cmd, ◌>>=◌,
}
use pipeline_tools.Flow.Any.{TypeId, plain, vector, Value, item, batch, AnyLib}
use pipeline_tools.Flow.Graph.{
  fanout, round_robin, Block, source, module_block, aggregator, sink, Graph,
}
use pipeline_tools.Flow.Execute.Fanout.{call_each, fanout_produce-each}
use pipeline_tools.Flow.Execute.{
  bit_and, ltb, ProductionPolicy, pure, M, execute, execute_block, fanout_produce, deal, deal_batch,
  round_robin_produce, produce, process_any, any_cast_with_info, call_process, aggregate, collect,
  bit_of, process_aggregator, execute_sink, assign,
}

-- The links of two graphs are the same.
abbrev pub SameLinks : Graph → Graph → Type 0
SameLinks g g' = (j : ℕ) → (g' j).next_nodes ≡ (g j).next_nodes

-- The fuel did not run out, and what is left satisfies `P`.
abbrev pub Ends : {A : Type 0} → (Graph → Type 0) → Outcome Graph A → Type 0
Ends P (done a g) = P g
Ends P (thrown e g) = P g
Ends P blocked = Unit {0}
Ends P undefined = Unit {0}
Ends P out_of_fuel = ⊥
Ends P terminated = ⊥

pub Ends-bind :
    {A B : Type 0} (P : Graph → Type 0) (o : Outcome Graph A) (k : A → Cmd Graph B)
    → Ends P o
    → ((a : A) (g : Graph) → P g → Ends P (k a g))
    → Ends P (and_then o k)
Ends-bind P (done a g) k r h = h a g r
Ends-bind P (thrown e g) k r h = r
Ends-bind P blocked k r h = tt
Ends-bind P undefined k r h = tt
Ends-bind P out_of_fuel k r h = absurd r
Ends-bind P terminated k r h = absurd r

module _ {Any : Type 0} (lib : AnyLib Any) where
  call_process-links : (id : ℕ) (vs : List Value) (g : Graph) → SameLinks g (call_process id vs g).1
  unfolding call_process update
  call_process-links id vs g j = ground arith

  cast-Ends :
      (P : Graph → Type 0) (t : TypeId) (a : Any) (g : Graph)
      → P g
      → Ends P (any_cast_with_info lib t a g)
  unfolding any_cast_with_info
  cast-Ends P t a g h = elim (Option-cases (lib.cast t a)) [
    | inl e ↦ rw (e, any_cast_with_info) h
    | inr (v, e) ↦ rw (e, any_cast_with_info) h
  ]

  -- The two members that a full aggregator resets, and those that a delivery sets, are no links.
  cleared-links :
      (id : ℕ) (h : Graph) → SameLinks h (update h id (record (h id) { state = 0; latest = [] }))
  unfolding update
  cleared-links id h j = ground arith

  stored-links :
      (id : ℕ) (h : Graph) (l : List (ℕ × Value)) (n : ℕ)
      → SameLinks h (update h id (record (h id) { latest = l; state = n }))
  unfolding update
  stored-links id h l n j = ground arith

  collect-Ends : (id : ℕ) (g h : Graph) → SameLinks g h → Ends (SameLinks g) (collect lib id h)
  unfolding collect
  collect-Ends id g h same = elim (Bool-cases (ltb 30 (h id).producer_count)) [
    | inl many ↦ rw (many, collect) tt
    | inr few ↦ elim (Bool-cases ((h id).state == 2 ^ (h id).producer_count - 1)) [
      | inl full ↦
          rw (few, collect, full) (λ j. call_process-links id _ _ j ∙ cleared-links id h j ∙ same j)
      | inr waiting ↦ rw (few, collect, waiting) same
    ]
  ]

  aggregate-Ends :
      (id : ℕ) (a : Any) (producer_id idx : ℕ) (g : Graph)
      → Ends (SameLinks g) (aggregate lib id a producer_id idx g)
  unfolding aggregate
  aggregate-Ends id a producer_id idx g = elim (Bool-cases (bit_and (g id).state idx == 0)) [
    | inl new ↦
        rw (new, aggregate)
          (Ends-bind (SameLinks g) (any_cast_with_info lib (g id).in_type a g) _
            (cast-Ends (SameLinks g) (g id).in_type a g (λ j. refl))
            λ v h same.
              let latest = assign producer_id ((h id).store v) (h id).latest in
              let state = bit_or (h id).state idx in
              collect-Ends id g (update h id (record (h id) { latest = latest; state = state }))
                (λ j. stored-links id h latest state j ∙ same j))
    | inr old ↦ rw (old, aggregate) (λ j. refl)
  ]

  process_any-Ends :
      (b : Block) (id : ℕ) (a : Any) (producer_id : ℕ) (g : Graph)
      → Ends (SameLinks g) (process_any lib b id a producer_id g)
  unfolding process_any
  process_any-Ends source id a producer_id g = call_process-links id [] g
  process_any-Ends module_block id a producer_id g =
      Ends-bind (SameLinks g) (any_cast_with_info lib (g id).in_type a g) _
        (cast-Ends (SameLinks g) (g id).in_type a g (λ j. refl))
        λ v h same j. call_process-links id (v ∷ []) h j ∙ same j
  process_any-Ends aggregator id a producer_id g = elim (Option-cases (bit_of producer_id)) [
    | inl e ↦ rw (e, process_aggregator) tt
    | inr (idx, e) ↦ rw (e, process_aggregator) (aggregate-Ends id a producer_id idx g)
  ]
  process_any-Ends sink id a producer_id g =
      Ends-bind (SameLinks g) (any_cast_with_info lib (g id).in_type a g) _
        (cast-Ends (SameLinks g) (g id).in_type a g (λ j. refl))
        λ v h same j. call_process-links id (v ∷ []) h j ∙ same j

policy-cases : (p : ProductionPolicy) → (p ≡ fanout) ⊎ (p ≡ round_robin)
policy-cases fanout = inl refl
policy-cases round_robin = inr refl

-- Every link leads to an object of a lower rank.
abbrev pub AllBelow : (ℕ → ℕ) → ℕ → List (ℕ × ℕ) → Type 0
AllBelow rank r [] = Unit {0}
AllBelow rank r ((n, _) ∷ ns) = (rank n < r) × AllBelow rank r ns

abbrev pub Ranked : (ℕ → ℕ) → Graph → Type 0
Ranked rank g = (id : ℕ) → AllBelow rank (rank id) (g id).next_nodes

pub Ranked-same : (rank : ℕ → ℕ) (g h : Graph) → SameLinks g h → Ranked rank g → Ranked rank h
Ranked-same rank g h same r id = rw (same id) (r id)

module _ {Any : Type 0} (lib : AnyLib Any) (rank : ℕ → ℕ) (r : ℕ)
    (exec : ℕ → Any → ℕ → M (Unit {0}))
    (rec : (n : ℕ) (a : Any) (id : ℕ) (g : Graph)
      → rank n < r
      → Ranked rank g
      → Ends (SameLinks g) (exec n a id g)) where
  trans_links : (f g h : Graph) → SameLinks f g → SameLinks g h → SameLinks f h
  trans_links f g h p q j = q j ∙ p j

  Ends-trans :
      {A : Type 0} (f g : Graph) (o : Outcome Graph A)
      → SameLinks f g
      → Ends (SameLinks g) o
      → Ends (SameLinks f) o
  Ends-trans f g (done a h) p q = trans_links f g h p q
  Ends-trans f g (thrown e h) p q = trans_links f g h p q
  Ends-trans f g blocked p q = tt
  Ends-trans f g undefined p q = tt
  Ends-trans f g out_of_fuel p q = q
  Ends-trans f g terminated p q = q

  each-Ends :
      (a : Any) (ns : List (ℕ × ℕ)) (g : Graph)
      → AllBelow rank r ns
      → Ranked rank g
      → Ends (SameLinks g) (call_each lib exec a ns g)
  unfolding call_each
  each-Ends a [] g b k = tt
  each-Ends a ((n, id) ∷ []) g b k = rec n a id g b.0 k
  each-Ends a ((n, id) ∷ m ∷ ns) g b k =
      Ends-bind (SameLinks g) (exec n a id g) _ (rec n a id g b.0 k)
        λ _ h same. Ends-trans g h _ same (each-Ends a (m ∷ ns) h b.1 (Ranked-same rank g h same k))

  fanout-Ends :
      (a : Any) (ns : List (ℕ × ℕ)) (g : Graph)
      → AllBelow rank r ns
      → Ranked rank g
      → Ends (SameLinks g) (fanout_produce lib exec a ns g)
  fanout-Ends a ns g b k = rw (fanout_produce-each lib exec a ns g) (each-Ends a ns g b k)

  deal-Ends :
      (t : ℕ) (vs : List ℕ) (ns : List (ℕ × ℕ)) (g : Graph)
      → AllBelow rank r ns
      → Ranked rank g
      → Ends (SameLinks g) (deal lib exec t vs ns g)
  unfolding deal
  deal-Ends t [] ns g b k = λ j. refl
  deal-Ends t (v ∷ vs) [] g b k = λ j. refl
  deal-Ends t (v ∷ vs) ((n, id) ∷ ns) g b k =
      Ends-bind (SameLinks g) (exec n (lib.wrap (item t v)) id g) _ (rec n _ id g b.0 k)
        λ _ h same. Ends-trans g h _ same (deal-Ends t vs ns h b.1 (Ranked-same rank g h same k))

  deal_batch-Ends :
      (v : Value) (ns : List (ℕ × ℕ)) (g : Graph)
      → AllBelow rank r ns
      → Ranked rank g
      → Ends (SameLinks g) (deal_batch lib exec v ns g)
  unfolding deal_batch
  deal_batch-Ends (item t v) ns g b k = tt
  deal_batch-Ends (batch t vs) ns g b k = deal-Ends t vs ns g b k

  round_robin-Ends :
      (t : TypeId) (a : Any) (ns : List (ℕ × ℕ)) (g : Graph)
      → AllBelow rank r ns
      → Ranked rank g
      → Ends (SameLinks g) (round_robin_produce lib exec t a ns g)
  unfolding round_robin_produce
  round_robin-Ends (plain t) a ns g b k = λ j. refl
  round_robin-Ends (vector t) a ns g b k =
      Ends-bind (SameLinks g) (any_cast_with_info lib (vector t) a g) _
        (cast-Ends lib (SameLinks g) (vector t) a g (λ j. refl))
        λ v h same. Ends-trans g h _ same (deal_batch-Ends v ns h b (Ranked-same rank g h same k))

  produce-Ends :
      (id : ℕ) (a : Any) (g : Graph)
      → rank id ≡ r
      → Ranked rank g
      → Ends (SameLinks g) (produce lib exec id a g)
  unfolding produce
  produce-Ends id a g e k = elim (policy-cases (g id).policy) [
    | inl p ↦ rw (p, produce) (fanout-Ends a (g id).next_nodes g (rw e at (k id)) k)
    | inr p ↦
        rw (p, produce) (round_robin-Ends (g id).out_type a (g id).next_nodes g (rw e at (k id)) k)
  ]

  produce_if-Ends :
      (b : Bool) (id : ℕ) (a : Any) (g : Graph)
      → rank id ≡ r
      → Ranked rank g
      → Ends (SameLinks g) ((if b then produce lib exec id a else pure tt) g)
  produce_if-Ends true id a g e k = produce-Ends id a g e k
  produce_if-Ends false id a g e k = λ j. refl

  -- A block that is no sink: it processes and then produces.
  passes_on-Ends :
      (bl : Block) (id : ℕ) (a : Any) (producer_id : ℕ) (g : Graph)
      → rank id ≡ r
      → Ranked rank g
      → Ends (SameLinks g) (
          (do
            output ← process_any lib bl id a producer_id
            if lib.has_value output && not (lib.is_nullopt a)
                then produce lib exec id output
                else pure tt)
            g)
  passes_on-Ends bl id a producer_id g e k =
      Ends-bind (SameLinks g) (process_any lib bl id a producer_id g) _
        (process_any-Ends lib bl id a producer_id g)
        λ output h same. Ends-trans g h _ same (
          produce_if-Ends (lib.has_value output && not (lib.is_nullopt a)) id output h e
            (Ranked-same rank g h same k))

  execute_block-Ends :
      (bl : Block) (id : ℕ) (a : Any) (producer_id : ℕ) (g : Graph)
      → rank id ≡ r
      → Ranked rank g
      → Ends (SameLinks g) (execute_block lib exec bl id a producer_id g)
  unfolding execute_block
  execute_block-Ends source id a producer_id g e k = passes_on-Ends source id a producer_id g e k
  execute_block-Ends module_block id a producer_id g e k =
      passes_on-Ends module_block id a producer_id g e k
  execute_block-Ends aggregator id a producer_id g e k =
      passes_on-Ends aggregator id a producer_id g e k
  execute_block-Ends sink id a producer_id g e k =
      elim (Bool-cases (not (lib.has_value a) || lib.is_nullopt a)) [
        | inl skips ↦ rw (skips, execute_sink) (λ j. refl)
        | inr takes ↦
            rw (takes, execute_sink)
              (Ends-bind (SameLinks g) (process_any lib sink id a producer_id g) _
                (process_any-Ends lib sink id a producer_id g) (λ _ h same. same))
      ]

-- In a graph without cycles, fuel above the rank of the object is enough: an execution returns,
-- throws or is undefined, but never runs out of fuel; and no execution changes a link.
pub execute-Ends :
    {Any : Type 0} (lib : AnyLib Any) (rank : ℕ → ℕ) (fuel id : ℕ) (a : Any) (producer_id : ℕ)
    (g : Graph)
    → rank id < fuel
    → Ranked rank g
    → Ends (SameLinks g) (execute lib fuel id a producer_id g)
unfolding execute
execute-Ends lib rank zero id a producer_id g h k = absurd (omega arith)
execute-Ends lib rank (suc fuel) id a producer_id g h k =
    execute_block-Ends lib rank (rank id) (execute lib fuel)
      (λ n b p g' below k'. execute-Ends lib rank fuel n b p g' (omega arith) k') (g id).block id a
      producer_id g refl k
