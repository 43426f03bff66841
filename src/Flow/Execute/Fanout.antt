-- ===== src/Flow/Execute/Fanout.antt =====
-- The loop of `produce` under the Fanout policy: its indices against the consumers themselves.
use pipeline_tools.Prelude.{
  ℕ, zero, suc, ◌≡◌, refl, ap, ◌∙◌, List, [], ◌∷◌, Option-cases, inl, inr, get_elem?, length,
}
use pipeline_tools.Prelude.Outcome.{
  Outcome, done, thrown, blocked, undefined, out_of_fuel, terminated, Cmd, and_then, ◌>>◌,
}
use pipeline_tools.Flow.Any.{AnyLib}
use pipeline_tools.Flow.Graph.{Graph}
use pipeline_tools.Flow.Execute.{M, fanout_loop, fanout_produce, call_at}

and_then_assoc :
    {S A B C : Type 0} (o : Outcome S A) (k : A → Cmd S B) (h : B → Cmd S C)
    → and_then (and_then o k) h ≡ and_then o (λ a s. and_then (k a s) h)
and_then_assoc (done a s) k h = refl
and_then_assoc (thrown e s) k h = refl
and_then_assoc blocked k h = refl
and_then_assoc undefined k h = refl
and_then_assoc out_of_fuel k h = refl
and_then_assoc terminated k h = refl

module _ {Any : Type 0} (lib : AnyLib Any) (exec : ℕ → Any → ℕ → M (Unit {0})) (a : Any) where
  -- A call for each consumer, one after the other.
  unfoldable pub call_each : List (ℕ × ℕ) → M (Unit {0})
  call_each [] g = undefined
  call_each ((k, id) ∷ []) g = exec k a id g
  call_each ((k, id) ∷ n ∷ ns) g = (do exec k a id; call_each (n ∷ ns)) g

  loop_shift :
      (count i : ℕ) (n : ℕ × ℕ) (ns : List (ℕ × ℕ))
      → fanout_loop lib exec a count (suc i) (n ∷ ns) ≡ fanout_loop lib exec a count i ns
  unfolding fanout_loop
  loop_shift zero i n ns = refl
  loop_shift (suc count) i n ns = elim (Option-cases (get_elem? ns i)) [
    | inl e ↦ rw (fanout_loop, e) refl
    | inr ((k, id), e) ↦ rw (fanout_loop, e, loop_shift count (suc i) n ns) refl
  ]

  pub fanout_produce-each :
      (ns : List (ℕ × ℕ)) (g : Graph) → fanout_produce lib exec a ns g ≡ call_each ns g
  unfolding fanout_produce call_each
  fanout_produce-each [] g = refl
  fanout_produce-each ((k, id) ∷ []) g = refl
  fanout_produce-each ((k, id) ∷ n ∷ ns) g =
      ap
        (λ (loop : M (Unit {0})).
          and_then (and_then (exec k a id g) (λ _. loop))
            (λ _. call_at lib exec a (length ns) (n ∷ ns)))
        (loop_shift (length ns) 0 (k, id) (n ∷ ns))
      ∙ and_then_assoc (exec k a id g) _ _
      ∙ (λ i. and_then (exec k a id g) (λ _ s. fanout_produce-each (n ∷ ns) s i))

  -- Without consumers the bound is 2^64 - 1, and the first round reads past the end.
  pub fanout_produce-nil : (g : Graph) → fanout_produce lib exec a [] g ≡ undefined
  unfolding call_each
  fanout_produce-nil g = fanout_produce-each [] g
