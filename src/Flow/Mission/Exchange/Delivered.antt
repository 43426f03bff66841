-- ===== src/Flow/Mission/Exchange/Delivered.antt =====
-- What comes through from the source of the first neighbour to the sink of the second.
use pipeline_tools.Prelude.{
  ℕ, suc, ◌<◌, ◌≡◌, refl, ap, ◌∙◌, some, List, [], ◌∷◌, ◌++◌, map, length, arith, append_assoc,
}
use pipeline_tools.Prelude.Store.{update}
use pipeline_tools.Prelude.Outcome.{Returns, Returns-done, pure, ◌>>◌}
use pipeline_tools.Flow.Any.{TypeId, Value, AnyLib, type_of}
use pipeline_tools.Flow.Graph.{Graph}
use pipeline_tools.Flow.Execute.{execute}
use pipeline_tools.Flow.Execute.Chains.{Line}
use pipeline_tools.Flow.Execute.Chains.Streams.{AllWork, composed, end_of}
use pipeline_tools.Flow.Pipeline.{Pipeline, execute_pipeline}
use pipeline_tools.Flow.Pipeline.Streams.{sunk, Round, pipeline-Round}
use pipeline_tools.Flow.Mission.Exchange.{
  update, Neighbours, M, inputs_since, push_all, queued, first_turn, second_turn, reading,
}
use pipeline_tools.Flow.Mission.Exchange.Turns.{
  First, Second, newest_one, First-Round, Line-reading, AllWork-reading, Feeds-reading,
  Second-Round,
}
use pipeline_tools.Queues.{std_queue, source_process, sink_process, push_move, pop}

-- Which neighbour has a turn.
pub data Turn : Type 0 where
  firsts seconds : Turn

-- Every value has the type.
abbrev pub AllTyped : TypeId → List Value → Type 0
AllTyped t [] = Unit {0}
AllTyped t (x ∷ xs) = (type_of x ≡ t) × AllTyped t xs

-- With `n` values queued, the source of the first pipeline has exactly the values `xs` for its turns, and
-- the second one has no turn while the queue is empty.
abbrev pub Fed : ℕ → List Turn → List Value → Type 0
Fed n [] [] = Unit {0}
Fed n (firsts ∷ us) (x ∷ xs) = Fed (suc n) us xs
Fed (suc n) (seconds ∷ us) xs = Fed n us xs
Fed _ _ _ = ⊥

module _ {Any : Type 0} (lib : AnyLib Any) (fuel : ℕ) (out : Value) where
  pub first_turn-Round :
      (h : ℕ → Value → Value) (p : Pipeline) (src m : ℕ) (ms : List ℕ) (s : Neighbours) (x : Value)
      (xs : List Value)
      → length ms < fuel
      → p.sources ≡ src ∷ []
      → First h src m ms s.first (x ∷ xs)
      → Returns
          (λ _ t.
            Round s.first src (end_of m ms) (composed h m ms x) t.first
            × (t.queue ≡ s.queue ++ composed h m ms x ∷ [])
            × (t.second ≡ s.second))
          (first_turn lib (suc fuel) out p (end_of m ms) s)
  unfolding first_turn queued push_all sink_process std_queue push_move
  first_turn-Round h p src m ms s x xs deep one f =
      let snk = end_of m ms in
      let (_, g, e, r) = Returns-done (execute_pipeline lib (execute lib (suc fuel)) p s.first) (
        pipeline-Round lib h fuel src m ms deep p s.first x one f.feeds f.line f.works f.gives.0) in
      let new : inputs_since (s.first snk).calls (g snk).calls ≡ composed h m ms x ∷ [] =
        rw r.received (newest_one _ (s.first snk).calls) in
      rw (e, queued, new) (r, refl, refl)

  pub second_turn-Round :
      (h : ℕ → Value → Value) (p : Pipeline) (src m : ℕ) (ms : List ℕ) (s : Neighbours) (x : Value)
      (q : List Value)
      → length ms < fuel
      → p.sources ≡ src ∷ []
      → Second h src m ms s.second
      → s.queue ≡ x ∷ q
      → type_of x ≡ (s.second src).out_type
      → Returns
          (λ _ t.
            Round (reading src (some x) s.second) src (end_of m ms) (composed h m ms x) t.second
            × (t.queue ≡ q)
            × (t.first ≡ s.first))
          (second_turn lib (suc fuel) out p src s)
  unfolding second_turn source_process std_queue pop
  second_turn-Round h p src m ms s x q deep one f full t =
      let g = reading src (some x) s.second in
      let gives : (g src).process ([] ∷ (g src).calls) ≡ some x = unfold update in ground arith in
      let (_, g', e, r) = Returns-done (execute_pipeline lib (execute lib (suc fuel)) p g) (
        pipeline-Round lib h fuel src m ms deep p g x one (Feeds-reading h src m ms s.second x f t)
          (Line-reading src (some x) s.second m ms f.is_source f.line)
          (AllWork-reading h src (some x) s.second m ms f.is_source f.line f.works) gives) in
      rw (full, second_turn, e) (r, refl, refl)

-- The two pipelines, by their objects and what their modules compute.
pub record Ends : Type 0 where
  pub pipeline : Pipeline
  pub src : ℕ
  pub head : ℕ
  pub rest : List ℕ
  pub compute : ℕ → Value → Value

abbrev pub last_of : Ends → ℕ
last_of p = end_of p.head p.rest

abbrev pub value_of : Ends → Value → Value
value_of p = composed p.compute p.head p.rest

module _ {Any : Type 0} (lib : AnyLib Any) (fuel : ℕ) (out : Value) (a b : Ends) where
  unfoldable pub run_turns : List Turn → M (Unit {0})
  unfolding first_turn second_turn
  run_turns [] = pure tt
  run_turns (firsts ∷ us) = do first_turn lib fuel out a.pipeline (last_of a); run_turns us
  run_turns (seconds ∷ us) = do second_turn lib fuel out b.pipeline b.src; run_turns us

-- What has come through: the values `taken`, in front of those that are still queued.
abbrev pub Through : Ends → Ends → Neighbours → List Value → Neighbours → Type 0
Through a b s xs t =
    (taken : List Value) × (taken ++ t.queue ≡ s.queue ++ map (value_of a) xs)
    × ((t.second (last_of b)).calls ≡ sunk (value_of b) taken (s.second (last_of b)).calls)

pub Through-first :
    (a b : Ends) (s s' t : Neighbours) (x : Value) (xs : List Value)
    → s'.queue ≡ s.queue ++ value_of a x ∷ []
    → s'.second ≡ s.second
    → Through a b s' xs t
    → Through a b s (x ∷ xs) t
Through-first a b s s' t x xs q e (taken, came, calls) =
    (taken, came ∙ rw q (append_assoc s.queue (value_of a x ∷ []) _), rw (← e) calls)

pub Through-second :
    (a b : Ends) (s s' t : Neighbours) (y : Value) (q : List Value) (xs : List Value)
    → s.queue ≡ y ∷ q
    → s'.queue ≡ q
    → (s'.second (last_of b)).calls ≡ (value_of b y ∷ []) ∷ (s.second (last_of b)).calls
    → Through a b s' xs t
    → Through a b s xs t
unfolding sunk
Through-second a b s s' t y q xs full rest e (taken, came, calls) = (
  y ∷ taken,
  rw full (ap (λ l. y ∷ l) (came ∙ rw rest refl)),
  calls ∙ ap (sunk (value_of b) taken) e,
)

AllTyped-append :
    (t : TypeId) (xs : List Value) (y : Value)
    → AllTyped t xs
    → type_of y ≡ t
    → AllTyped t (xs ++ y ∷ [])
AllTyped-append t [] y h e = (e, tt)
AllTyped-append t (x ∷ xs) y h e = (h.0, AllTyped-append t xs y h.1 e)

composed-type :
    (h : ℕ → Value → Value) (m : ℕ) (ms : List ℕ) (g : Graph) (x : Value)
    → Line g m ms
    → AllWork h g m ms
    → type_of x ≡ (g m).in_type
    → type_of (composed h m ms x) ≡ (g (end_of m ms)).in_type
unfolding composed
composed-type h m [] g x l w e = e
composed-type h m (n ∷ ns) g x l w e =
    composed-type h n ns g (h m x) l.1 w.1 (l.0.makes _ (h m x) (w.0 [] x e) ∙ l.0.fits)

-- Both pipelines are ready, and the queue is of the type `t`.
pub record Ready (t : TypeId) (a b : Ends) (s : Neighbours) (xs : List Value) : Type 0 where
  pub giver : First a.compute a.src a.head a.rest s.first xs
  pub taker : Second b.compute b.src b.head b.rest s.second
  pub puts : (s.first (last_of a)).in_type ≡ t
  pub takes : (s.second b.src).out_type ≡ t
  pub typed : AllTyped t s.queue

pub Ready-first :
    (t : TypeId) (a b : Ends) (s s' : Neighbours) (x : Value) (xs : List Value)
    → Ready t a b s (x ∷ xs)
    → Round s.first a.src (last_of a) (value_of a x) s'.first
    → s'.queue ≡ s.queue ++ value_of a x ∷ []
    → s'.second ≡ s.second
    → Ready t a b s' xs
Ready-first t a b s s' x xs k r q e =
    let f = k.giver in
    let fits : type_of x ≡ (s.first a.head).in_type = f.feeds.makes _ x f.gives.0 ∙ f.feeds.fits in
    record {
      giver =
          First-Round a.compute a.src a.head a.rest s.first s'.first (last_of a) (value_of a x) x xs
            f r;
      taker = rw e k.taker;
      puts = (r.kept (last_of a)).in_kept ∙ k.puts;
      takes = rw e k.takes;
      typed = rw q (
          AllTyped-append t s.queue (value_of a x) k.typed
            (composed-type a.compute a.head a.rest s.first x f.line f.works fits ∙ k.puts));
    }

pub Ready-second :
    (t : TypeId) (a b : Ends) (s s' : Neighbours) (y : Value) (q : List Value) (xs : List Value)
    → Ready t a b s xs
    → s.queue ≡ y ∷ q
    → Round (reading b.src (some y) s.second) b.src (last_of b) (value_of b y) s'.second
    → s'.queue ≡ q
    → s'.first ≡ s.first
    → Ready t a b s' xs
unfolding update
Ready-second t a b s s' y q xs k full r rest e = record {
  giver = rw e k.giver;
  taker =
      Second-Round b.compute b.src b.head b.rest s.second s'.second (last_of b) (value_of b y) y
        k.taker r;
  puts = rw e k.puts;
  takes = ground (arith, r.kept b.src, k.takes);
  typed = rw rest ((rw full at k.typed).1);
}
