-- ===== src/Flow/Execute/Rounds/Fires.antt =====
-- A round of an aggregator, by the deliveries that it consists of.
use mathlib.Core.Path.{subst}
use pipeline_tools.Prelude.{
  ℕ, zero, suc, ◌≤◌, ◌<◌, ◌≡◌, ap, Bool, true, false, List, [], ◌∷◌, ◌++◌, map, arith, append_assoc,
  Bool-cases, inl, inr,
}
use pipeline_tools.Prelude.Bits.{include, all_below, mask-none}
use pipeline_tools.Prelude.Store.{update, update_self}
use pipeline_tools.Prelude.Outcome.{Returns, Returns-bind, pure, ◌>>=◌}
use pipeline_tools.Flow.Any.{Value, AnyLib, type_of, same_type}
use pipeline_tools.Flow.Graph.{Flow, Graph}
use pipeline_tools.Flow.Execute.{M, some_any, collect, process_aggregator}
use pipeline_tools.Flow.Execute.Rounds.{
  Within, Becomes, collecting, inputs_of, fired, collect-open, collect-fired, deliver-collect,
  stored,
}

abbrev pub none_yet : ℕ → Bool
none_yet _ = false

-- The producers of `d` and those of the deliveries.
abbrev pub joined : (ℕ → Bool) → List (ℕ × Value) → ℕ → Bool
joined d [] = d
joined d ((i, v) ∷ ds) = joined (include d i) ds

-- Each delivery is a value of the aggregator's input type, from a producer with a number below its count
-- that is not in `d` and has not delivered before.
abbrev pub Fresh : Flow → (ℕ → Bool) → List (ℕ × Value) → Type 0
Fresh f d [] = Unit {0}
Fresh f d ((i, v) ∷ ds) =
    (i < f.producer_count)
    × (d i ≡ false)
    × (same_type (type_of v) f.in_type ≡ true)
    × Fresh f (include d i) ds

abbrev pub stores : Flow → List (ℕ × Value) → List (ℕ × Value)
stores f ds = map (λ (i, v). (i, f.store v)) ds

abbrev pub empties : {Any : Type 0} → AnyLib Any → List (ℕ × Value) → List Any
empties lib [] = []
empties lib (_ ∷ ds) = lib.empty ∷ empties lib ds

module _ {Any : Type 0} (lib : AnyLib Any) (id : ℕ) where
  -- The calls of `process_any` on these deliveries, with what each returns.
  unfoldable pub deliveries : List (ℕ × Value) → M (List Any)
  deliveries [] = pure []
  deliveries ((i, v) ∷ ds) = do
    a ← process_aggregator lib id (lib.wrap v) i
    results ← deliveries ds
    pure (a ∷ results)

Within-include :
    (d : ℕ → Bool) (i : ℕ) (w : Value) (got : List (ℕ × Value))
    → Within d got
    → Within (include d i) (got ++ (i, w) ∷ [])
Within-include d i w [] h = ground arith
Within-include d i w ((j, u) ∷ got) h = (ground (arith, h.0), Within-include d i w got h.1)

full_below : (n : ℕ) (d : ℕ → Bool) (i : ℕ) → all_below n d ≡ true → i < n → d i ≡ true
full_below zero d i h k = absurd (omega arith)
full_below (suc n) d zero h k = ground arith
full_below (suc n) d (suc i) h k = full_below n (λ j. d (suc j)) i (ground arith) (omega arith)

-- While a producer is missing, the set is not full.
missing : (n : ℕ) (d : ℕ → Bool) (i : ℕ) → i < n → d i ≡ false → all_below n d ≡ false
missing n d i k e = elim (Bool-cases (all_below n d)) [
  | inl full ↦ absurd (ground (arith, full_below n d i full k))
  | inr open_ ↦ open_
]

first-missing :
    (f : Flow) (d : ℕ → Bool) (ds : List (ℕ × Value)) (i : ℕ) (v : Value)
    → Fresh f d (ds ++ (i, v) ∷ [])
    → all_below f.producer_count d ≡ false
first-missing f d [] i v h = missing f.producer_count d i h.0 h.1
first-missing f d ((j, w) ∷ ds) i v h = missing f.producer_count d j h.0 h.1

Becomes-after :
    {id : ℕ} {f : Flow} (f' : Flow) {g g' : Graph}
    → Becomes id f (update g id f') g'
    → Becomes id f g g'
unfolding update
Becomes-after f' b = record { itself = b.itself; others = λ j h. ground (arith, b.others j h) }

module _ {Any : Type 0} (lib : AnyLib Any) (id : ℕ) (f : Flow) (few : f.producer_count ≤ 30) where
  -- What a round that stores `got` gives, after the deliveries `ds`.
  abbrev pub Fired : List (ℕ × Value) → List (ℕ × Value) → Graph → List Any → Graph → Type 0
  Fired got ds g results g' =
      (results ≡ empties lib ds ++ some_any lib (f.process (inputs_of f got ∷ f.calls)) ∷ [])
      × Becomes id (fired f got) g g'

  last_delivery :
      (d : ℕ → Bool) (got : List (ℕ × Value)) (g : Graph) (i : ℕ) (v : Value)
      → g id ≡ collecting f d got
      → Within d got
      → Fresh f d ((i, v) ∷ [])
      → all_below f.producer_count (include d i) ≡ true
      → Returns (Fired (got ++ (i, f.store v) ∷ []) [] g) (deliveries lib id ((i, v) ∷ []) g)
  unfolding deliveries
  last_delivery d got g i v e within fresh full =
      let to : Graph = stored lib id f few d got g i v e fresh.0 in
      let all : List (ℕ × Value) = got ++ (i, f.store v) ∷ [] in
      rw (deliver-collect lib id f few d got g i v e fresh.0 fresh.1 within fresh.2) (
        Returns-bind (Fired all [] g) (collect lib id to) (λ a. pure (a ∷ []))
          (collect-fired lib id f few (include d i) all to (update_self g id _) full)
          (λ a g' h. (ap (λ b. b ∷ []) h.0, Becomes-after _ h.1)))

  all_deliveries :
      (ds : List (ℕ × Value)) (d : ℕ → Bool) (got : List (ℕ × Value)) (g : Graph) (i : ℕ)
      (v : Value)
      → g id ≡ collecting f d got
      → Within d got
      → Fresh f d (ds ++ (i, v) ∷ [])
      → all_below f.producer_count (joined d (ds ++ (i, v) ∷ [])) ≡ true
      → Returns
          (Fired (got ++ stores f (ds ++ (i, v) ∷ [])) ds g)
          (deliveries lib id (ds ++ (i, v) ∷ []) g)
  unfolding deliveries
  all_deliveries [] d got g i v e within fresh full = last_delivery d got g i v e within fresh full
  all_deliveries ((j, w) ∷ ds) d got g i v e within fresh full =
      let to : Graph = stored lib id f few d got g j w e fresh.0 in
      let more : List (ℕ × Value) = got ++ (j, f.store w) ∷ [] in
      let rest : List (ℕ × Value) = ds ++ (i, v) ∷ [] in
      let ih =
        all_deliveries ds (include d j) more to i v (update_self g id _)
          (Within-include d j (f.store w) got within) fresh.3 full in
      rw
        (
          deliveries,
          deliver-collect lib id f few d got g j w e fresh.0 fresh.1 within fresh.2,
          collect-open lib id f few (include d j) more to (update_self g id _)
              (first-missing f (include d j) ds i v fresh.3),
        )
        (Returns-bind (Fired (got ++ (j, f.store w) ∷ stores f rest) ((j, w) ∷ ds) g)
          (deliveries lib id rest to) (λ results. pure (lib.empty ∷ results))
          (subst (λ l. Returns (Fired l ds to) (deliveries lib id rest to))
            (append_assoc got ((j, f.store w) ∷ []) (stores f rest)) ih)
          (λ results g' h. (ap (◌∷◌ lib.empty) h.0, Becomes-after _ h.1)))

  -- A round of an aggregator with at most 30 producers: from a state in which nothing has been delivered,
  -- deliveries of one value from each producer, in any order, give nothing but at the last of them; this
  -- one calls `process` on the values in the order of the map and returns its result, and then the
  -- aggregator is ready for the next round.
  pub deliveries-Fired :
      (ds : List (ℕ × Value)) (g : Graph) (i : ℕ) (v : Value)
      → g id ≡ record f { state = 0; latest = [] }
      → Fresh f none_yet (ds ++ (i, v) ∷ [])
      → all_below f.producer_count (joined none_yet (ds ++ (i, v) ∷ [])) ≡ true
      → Returns
          (Fired (stores f (ds ++ (i, v) ∷ [])) ds g)
          (deliveries lib id (ds ++ (i, v) ∷ []) g)
  deliveries-Fired ds g i v e fresh full =
      all_deliveries ds none_yet [] g i v (rw (mask-none f.producer_count) e) tt fresh full
