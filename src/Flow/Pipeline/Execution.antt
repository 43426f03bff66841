-- ===== src/Flow/Pipeline/Execution.antt =====
-- `Pipeline::execute` on a graph without cycles.
use pipeline_tools.Prelude.{ℕ, ◌<◌, refl, ◌∙◌, List, [], ◌∷◌}
use pipeline_tools.Prelude.Outcome.{
  Outcome, done, thrown, blocked, undefined, out_of_fuel, terminated,
}
use pipeline_tools.Flow.Any.{AnyLib}
use pipeline_tools.Flow.Graph.{Graph}
use pipeline_tools.Flow.Execute.{execute}
use pipeline_tools.Flow.Execute.Depth.{
  SameLinks, Ends, Ends-bind, Ranked, Ranked-same, execute-Ends,
}
use pipeline_tools.Flow.Pipeline.{Pipeline, execute_all, execute_pipeline}

Ends-mono :
    {A : Type 0} (f g : Graph) (o : Outcome Graph A)
    → SameLinks f g
    → Ends (SameLinks g) o
    → Ends (SameLinks f) o
Ends-mono f g (done a h) p q = λ j. q j ∙ p j
Ends-mono f g (thrown e h) p q = λ j. q j ∙ p j
Ends-mono f g blocked p q = tt
Ends-mono f g undefined p q = tt
Ends-mono f g out_of_fuel p q = q
Ends-mono f g terminated p q = q

module _ {Any : Type 0} (lib : AnyLib Any) (rank : ℕ → ℕ) (fuel : ℕ)
    (deep : (id : ℕ) → rank id < fuel) where
  execute_all-Ends :
      (ss : List ℕ) (g : Graph)
      → Ranked rank g
      → Ends (SameLinks g) (execute_all lib (execute lib fuel) ss g)
  unfolding execute_all
  execute_all-Ends [] g k = λ j. refl
  execute_all-Ends (src ∷ ss) g k =
      Ends-bind (SameLinks g) (execute lib fuel src lib.empty 0 g) _
        (execute-Ends lib rank fuel src lib.empty 0 g (deep src) k)
        λ _ h same. Ends-mono g h _ same (execute_all-Ends ss h (Ranked-same rank g h same k))

  -- If every link leads to an object of a lower rank, fuel above all ranks is enough for an execution
  -- of a pipeline: it does not run out of fuel, and whether it returns or throws it keeps the links.
  pub execute_pipeline-Ends :
      (p : Pipeline) (g : Graph)
      → Ranked rank g
      → Ends (SameLinks g) (execute_pipeline lib (execute lib fuel) p g)
  unfolding execute_pipeline
  execute_pipeline-Ends p g k = by_members p.sources p.nodes
    where
      by_members :
          (ss ns : List ℕ)
          → Ends
              (SameLinks g)
              (execute_pipeline lib (execute lib fuel) (record { sources = ss; nodes = ns }) g)
      by_members (src ∷ ss) ns = execute_all-Ends (src ∷ ss) g k
      by_members [] [] = λ j. refl
      by_members [] (n ∷ ns) = execute-Ends lib rank fuel n lib.empty 0 g (deep n) k
