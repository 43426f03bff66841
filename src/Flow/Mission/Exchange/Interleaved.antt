-- ===== src/Flow/Mission/Exchange/Interleaved.antt =====
-- Any interleaving of the two neighbours' turns.
use pipeline_tools.Prelude.{
  ℕ, suc, ◌<◌, ◌≡◌, refl, sym, ap, ◌∙◌, none, some, List, [], ◌∷◌, ◌++◌, length, length-append,
  arith, append-nil,
}
use pipeline_tools.Prelude.Outcome.{Returns, Returns-mono, Returns-bind, and_then, pure}
use pipeline_tools.Prelude.Store.{update}
use pipeline_tools.Flow.Any.{TypeId, Value, AnyLib}
use pipeline_tools.Flow.Graph.{Graph, source, fanout}
use pipeline_tools.Flow.Execute.{execute, fanout_produce}
use pipeline_tools.Flow.Pipeline.Streams.{sunk}
use pipeline_tools.Flow.Mission.Exchange.Turns.{reading-calls, Second, Line-reading}
use pipeline_tools.Flow.Execute.Chains.{cut_off, nullopt-cut_off, Line-Kept}
use pipeline_tools.Flow.Execute.Delivery.{asked}
use pipeline_tools.Flow.Pipeline.{execute_pipeline, execute_all}
use pipeline_tools.Queues.{source_process, std_queue, pop}
use pipeline_tools.Flow.Mission.Exchange.{
  false, Neighbours, first_turn, second_turn, in_second, reading,
}
use pipeline_tools.Flow.Mission.Exchange.Delivered.{
  Turn, firsts, seconds, Fed, Ends, last_of, value_of, run_turns, Through, Through-first,
  Through-second, Ready, Ready-first, Ready-second, first_turn-Round, second_turn-Round,
}

module _ {Any : Type 0} (lib : AnyLib Any) (fuel : ℕ) (out : Value) (t : TypeId) (a b : Ends)
    (deep_a : length a.rest < fuel) (deep_b : length b.rest < fuel)
    (one_a : a.pipeline.sources ≡ a.src ∷ []) (one_b : b.pipeline.sources ≡ b.src ∷ []) where
  run-Through :
      (us : List Turn) (xs queue : List Value) (s : Neighbours)
      → s.queue ≡ queue
      → Ready t a b s xs
      → Fed (length queue) us xs
      → Returns (λ _ s'. Through a b s xs s') (run_turns lib (suc fuel) out a b us s)
  unfolding run_turns sunk
  run-Through [] [] queue s full k f = ([], sym (append-nil s.queue), refl)
  run-Through [] (x ∷ xs) queue s full k f = absurd f
  run-Through (firsts ∷ us) [] queue s full k f = absurd f
  run-Through (firsts ∷ us) (x ∷ xs) queue s full k f =
      Returns-bind (λ _ s'. Through a b s (x ∷ xs) s')
        (first_turn lib (suc fuel) out a.pipeline (last_of a) s) _
        (first_turn-Round lib fuel out a.compute a.pipeline a.src a.head a.rest s x xs deep_a one_a
          k.giver)
        λ _ s' (r, q, e).
          let longer : length (queue ++ value_of a x ∷ []) ≡ suc (length queue) =
            omega (arith, length-append queue (value_of a x ∷ [])) in
          Returns-mono {Q = λ _ v. Through a b s (x ∷ xs) v}
            (run_turns lib (suc fuel) out a b us s')
            (λ _ v th. Through-first a b s s' v x xs q e th)
            (run-Through us xs (queue ++ value_of a x ∷ []) s'
              (q ∙ ap (λ l. l ++ value_of a x ∷ []) full) (Ready-first t a b s s' x xs k r q e)
              (rw longer f))
  run-Through (seconds ∷ us) xs [] s full k f = absurd f
  run-Through (seconds ∷ us) xs (y ∷ queue) s full k f =
      Returns-bind (λ _ s'. Through a b s xs s') (second_turn lib (suc fuel) out b.pipeline b.src s)
        _
        (second_turn-Round lib fuel out b.compute b.pipeline b.src b.head b.rest s y queue deep_b
          one_b k.taker full ((rw full at k.typed).0 ∙ sym k.takes))
        λ _ s' (r, q, e).
          let got : (s'.second (last_of b)).calls
              ≡ (value_of b y ∷ []) ∷ (s.second (last_of b)).calls =
            r.received
            ∙ ap (λ l. (value_of b y ∷ []) ∷ l)
                (reading-calls b.src (some y) s.second (last_of b)) in
          Returns-mono {Q = λ _ v. Through a b s xs v} (run_turns lib (suc fuel) out a b us s')
            (λ _ v th. Through-second a b s s' v y queue xs full q got th)
            (run-Through us xs queue s' q (Ready-second t a b s s' y queue xs k full r q e) f)

  -- Two pipelines on one queue, the first a source with modules down to a QueueSink, the second a
  -- QueueSource with modules down to a sink, each module a function of its input and the types fitting:
  -- however their executions are interleaved, as long as the second one has no turn while the queue is
  -- empty, they all return. Then the values that the first one's modules have made, behind those that
  -- were queued, are the values that the second one has taken, in order, and behind them those that are
  -- queued; and the last sink has been called with what the second one's modules make of each value that
  -- was taken, in that order.
  pub run_turns-Through :
      (us : List Turn) (xs : List Value) (s : Neighbours)
      → Ready t a b s xs
      → Fed (length s.queue) us xs
      → Returns (λ _ s'. Through a b s xs s') (run_turns lib (suc fuel) out a b us s)
  run_turns-Through us xs s k f = run-Through us xs s.queue s refl k f

-- The source finds no value.
source-nullopt :
    {Any : Type 0} (lib : AnyLib Any) (fuel src m id : ℕ) (a : Any) (g : Graph)
    → (g src).block ≡ source
    → (g src).policy ≡ fanout
    → (g src).next_nodes ≡ (m, id) ∷ []
    → (g src).process ([] ∷ (g src).calls) ≡ none
    → lib.is_nullopt a ≡ false
    → execute lib (suc fuel) src a 0 g ≡ execute lib fuel m lib.nullopt id (asked g src)
unfolding execute fanout_produce update
source-nullopt lib fuel src m id a g b p n e na = ground (arith, lib.has_value-nullopt)

cut_off-pure : (ns : List ℕ) (g : Graph) → and_then (cut_off ns g) (λ _. pure tt) ≡ cut_off ns g
cut_off-pure [] g = refl
cut_off-pure (n ∷ ns) g = refl

-- A turn of the second pipeline while the queue is empty calls no `process` but the source's: if its
-- source is followed by a sink, the turn returns; if it is followed by a module, bad_any_cast is thrown.
pub second_turn-empty :
    {Any : Type 0} (lib : AnyLib Any) (fuel : ℕ) (out : Value) (b : Ends) (s : Neighbours)
    → b.pipeline.sources ≡ b.src ∷ []
    → Second b.compute b.src b.head b.rest s.second
    → s.queue ≡ []
    → second_turn lib (suc (suc fuel)) out b.pipeline b.src s
      ≡ in_second s (cut_off b.rest (asked (reading b.src none s.second) b.src))
unfolding second_turn source_process std_queue pop execute_pipeline execute_all
second_turn-empty lib fuel out b s one f e =
    let g = reading b.src none s.second in
    let line = Line-reading b.src none s.second b.head b.rest f.is_source f.line in
    let run : execute lib (suc (suc fuel)) b.src lib.empty 0 g ≡ cut_off b.rest (asked g b.src) =
      source-nullopt lib (suc fuel) b.src b.head f.next.0 lib.empty g
        (unfold update in ground (arith, f.is_source)) (unfold update in ground (arith, f.copies))
        (unfold update in ground (arith, f.next.1)) (unfold update in ground arith)
        lib.is_nullopt-empty
      ∙ nullopt-cut_off lib fuel b.head b.rest f.next.0 (asked g b.src)
          (Line-Kept g (asked g b.src) b.head b.rest (λ k. unfold update in ground arith) line) in
    rw (e, second_turn, execute_pipeline, one, execute_all, run)
      (rw (cut_off-pure b.rest (asked g b.src)) refl)
