-- ===== src/Flow/Pipeline/Streams.antt =====
-- A pipeline of a source, modules and a sink, executed again and again, as its worker does.
use pipeline_tools.Prelude.{
  ℕ, zero, suc, ◌<◌, ◌≡◌, refl, sym, ◌∙◌, Option, some, List, [], ◌∷◌, length, arith,
}
use pipeline_tools.Prelude.Store.{update}
use pipeline_tools.Prelude.Outcome.{Returns, Returns-mono, Returns-bind, pure, ◌>>◌}
use pipeline_tools.Flow.Any.{Value, AnyLib, type_of}
use pipeline_tools.Flow.Graph.{fanout, source, sink, Graph}
use pipeline_tools.Flow.Execute.Fanout.{call_each}
use pipeline_tools.Flow.Execute.{M, execute}
use pipeline_tools.Flow.Execute.Delivery.{asked, source-fanout}
use pipeline_tools.Flow.Execute.Chains.{Line, Line-Kept, Kept, passed, line-passed, MakesType}
use pipeline_tools.Flow.Execute.Chains.Streams.{
  AllWork, composed, end_of, Handed, end-sink, passed-Handed, Works-Kept,
}
use pipeline_tools.Flow.Pipeline.{Pipeline, execute_all, execute_pipeline}

-- `src` is a source with one consumer, `m`, which takes what it makes.
pub record Feeds (g : Graph) (src m : ℕ) : Type 0 where
  pub is_source : (g src).block ≡ source
  pub copies : (g src).policy ≡ fanout
  pub next : (id : ℕ) × ((g src).next_nodes ≡ (m, id) ∷ [])
  pub makes : MakesType (g src).process (g src).out_type
  pub fits : (g src).out_type ≡ (g m).in_type

-- What a process without inputs makes in its next calls.
abbrev pub Gives : (List (List Value) → Option Value) → List (List Value) → List Value → Type 0
Gives p calls [] = Unit {0}
Gives p calls (x ∷ xs) = (p ([] ∷ calls) ≡ some x) × Gives p ([] ∷ calls) xs

-- The calls of a sink that has been given `f` of each value, one after the other.
unfoldable pub sunk : (Value → Value) → List Value → List (List Value) → List (List Value)
sunk f [] calls = calls
sunk f (x ∷ xs) calls = sunk f xs ((f x ∷ []) ∷ calls)

-- The loop around `execute` in a pipeline's worker.
unfoldable pub repeat : ℕ → M (Unit {0}) → M (Unit {0})
repeat zero m = pure tt
repeat (suc n) m = do m; repeat n m

Kept-asked : (g : Graph) (src k : ℕ) → Kept g (asked g src) k
unfolding update
Kept-asked g src k = ground arith

-- One execution of the pipeline.
pub record Round (g : Graph) (src s : ℕ) (w : Value) (g' : Graph) : Type 0 where
  pub received : (g' s).calls ≡ (w ∷ []) ∷ (g s).calls
  pub kept : (k : ℕ) → Kept g g' k
  pub asked_once : (g' src).calls ≡ [] ∷ (g src).calls

Handed-asked :
    (g : Graph) (src s : ℕ) (w : Value) (g' : Graph)
    → (g src).block ≡ source
    → (g s).block ≡ sink
    → Handed (asked g src) s w g'
    → Round g src s w g'
unfolding update
Handed-asked g src s w g' b e q = record {
  received = ground (arith, q.received);
  kept = λ k. ground (arith, q.kept k);
  asked_once = ground (arith, q.sources src);
}

pub Feeds-Kept :
    (src m : ℕ) (g g' : Graph) → ((k : ℕ) → Kept g g' k) → Feeds g src m → Feeds g' src m
Feeds-Kept src m g g' w f = record {
  is_source = ground (arith, w src, f.is_source);
  copies = ground (arith, w src, f.copies);
  next = (f.next.0, ground (arith, w src, f.next.1));
  makes = rw ((w src).process_kept, (w src).out_kept) f.makes;
  fits = ground (arith, w src, w m, f.fits);
}

module _ {Any : Type 0} (lib : AnyLib Any) (h : ℕ → Value → Value) (fuel src m : ℕ) (ms : List ℕ)
    (deep : length ms < fuel) where
  fanout_one :
      (exec : ℕ → Any → ℕ → M (Unit {0})) (a : Any) (id : ℕ) (ns : List (ℕ × ℕ)) (g : Graph)
      → ns ≡ (m, id) ∷ []
      → call_each lib exec a ns g ≡ exec m a id g
  unfolding call_each
  fanout_one exec a id ns g e = rw e refl

  source-Round :
      (g : Graph) (x : Value)
      → Feeds g src m
      → Line g m ms
      → AllWork h g m ms
      → (g src).process ([] ∷ (g src).calls) ≡ some x
      → Returns
          (λ _ g'. Round g src (end_of m ms) (composed h m ms x) g')
          (execute lib (suc fuel) src lib.empty 0 g)
  source-Round g x f l w e =
      let s = end_of m ms in
      let kept = Kept-asked g src in
      let line = Line-Kept g (asked g src) m ms kept l in
      let fits : type_of x ≡ (asked g src m).in_type =
        f.makes _ x e ∙ f.fits ∙ sym (kept m).in_kept in
      rw
        (source-fanout lib fuel src x lib.empty 0 g f.is_source f.copies e lib.is_nullopt-empty
          ∙ fanout_one (execute lib fuel) (lib.wrap x) f.next.0 (g src).next_nodes (asked g src)
              f.next.1
          ∙ line-passed lib fuel m ms x f.next.0 (asked g src) deep line fits)
        (Returns-mono {Q = λ _ g'. Round g src s (composed h m ms x) g'}
          (passed (asked g src) m ms x)
          (λ _ g' q. Handed-asked g src s _ g' f.is_source (end-sink g m ms l) q)
          (passed-Handed h m ms x (asked g src) line (Works-Kept g _ h m ms kept w) fits))

  pub pipeline-Round :
      (p : Pipeline) (g : Graph) (x : Value)
      → p.sources ≡ src ∷ []
      → Feeds g src m
      → Line g m ms
      → AllWork h g m ms
      → (g src).process ([] ∷ (g src).calls) ≡ some x
      → Returns
          (λ _ g'. Round g src (end_of m ms) (composed h m ms x) g')
          (execute_pipeline lib (execute lib (suc fuel)) p g)
  unfolding execute_pipeline execute_all
  pipeline-Round p g x one f l w e =
      rw (execute_pipeline, one, execute_all)
        (Returns-bind (λ _ g'. Round g src (end_of m ms) (composed h m ms x) g')
          (execute lib (suc fuel) src lib.empty 0 g) (λ _. pure tt) (source-Round g x f l w e)
          (λ _ g' r. r))

  -- A pipeline whose one source feeds modules in a line down to a sink, each module a function of its
  -- input: executed as often as there are values that the source makes next, it calls the sink with the
  -- composition of the modules on each of these values, once for each, in their order.
  pub stream :
      (p : Pipeline) (xs : List Value) (g : Graph)
      → p.sources ≡ src ∷ []
      → Feeds g src m
      → Line g m ms
      → AllWork h g m ms
      → Gives (g src).process (g src).calls xs
      → Returns
          (λ _ g'. (g' (end_of m ms)).calls ≡ sunk (composed h m ms) xs (g (end_of m ms)).calls)
          (repeat (length xs) (execute_pipeline lib (execute lib (suc fuel)) p) g)
  unfolding repeat sunk
  stream p [] g one f l w v = refl
  stream p (x ∷ xs) g one f l w (e, v) =
      let s = end_of m ms in
      let run = execute_pipeline lib (execute lib (suc fuel)) p in
      Returns-bind (λ _ g'. (g' s).calls ≡ sunk (composed h m ms) (x ∷ xs) (g s).calls) (run g)
        (λ _. repeat (length xs) run) (pipeline-Round p g x one f l w e)
        λ _ g' r. rw (← r.received) (
          stream p xs g' one (Feeds-Kept src m g g' r.kept f) (Line-Kept g g' m ms r.kept l)
            (Works-Kept g g' h m ms r.kept w) (rw ((r.kept src).process_kept, r.asked_once) v))
