-- ===== src/Queues/Moodycamel/Kept.antt =====
-- The queues of the library between a sink and a source.
use mathlib.Core.Path.{subst}
use mathlib.Core.List.{Sublist, nil-sublist}
use mathlib.Core.List.Sublist
use pipeline_tools.Prelude.{
  length, ◌<◌, ◌≡◌, refl, sym, ap, ◌∙◌, List, [], ◌∷◌, ◌++◌, append-nil, append_assoc, Bool-cases,
  inl, inr, ◌⊎◌,
}
use pipeline_tools.Prelude.Outcome.{Outcome, done, Returns, Returns-mono}
use pipeline_tools.Queues.{std_queue, source_process, sink_process}
use pipeline_tools.Queues.Fifo.{Use, takes, puts, run, inputs}
use pipeline_tools.Queues.Moodycamel.{MoodyQueue, pop, moodycamel_queue}

module _ {Q T : Type 0} (moody : MoodyQueue Q T) (out : T) where
  -- What is taken and what is left is what was there and then some of the inputs, in their order.
  abbrev pub Keeps : List T → List T → List T → Q → Type 0
  Keeps before ins got q =
      (kept : List T) × Sublist kept ins × ((got ++ moody.items q) ≡ before ++ kept)

  Keeps-more :
      (before ins got : List T) (x : T) (q : Q)
      → Keeps (before ++ x ∷ []) ins got q
      → Keeps before (x ∷ ins) got q
  Keeps-more before ins got x q (kept, s, e) =
      (x ∷ kept, Sublist.cons-cons x s, e ∙ append_assoc before (x ∷ []) kept)

  Keeps-lost :
      (before ins got : List T) (x : T) (q : Q)
      → Keeps before ins got q
      → Keeps before (x ∷ ins) got q
  Keeps-lost before ins got x q (kept, s, e) = (kept, Sublist.cons x s, e)

  takes-empty :
      (us : List (Use T)) (got : List T) (q : Q)
      → moody.items q ≡ []
      → run (moodycamel_queue moody) out (takes ∷ us) got q
        ≡ run (moodycamel_queue moody) out us got (moody.try_dequeue q).1
  unfolding run source_process moodycamel_queue
  takes-empty us got q e = rw (pop, (moody.dequeue-empty q e).0) refl

  takes-front :
      (us : List (Use T)) (got : List T) (q : Q) (x : T) (xs : List T)
      → moody.items q ≡ x ∷ xs
      → run (moodycamel_queue moody) out (takes ∷ us) got q
        ≡ run (moodycamel_queue moody) out us (got ++ x ∷ []) (moody.try_dequeue q).1
  unfolding run source_process moodycamel_queue
  takes-front us got q x xs e = rw (pop, (moody.dequeue-front q x xs e).0) refl

  puts_lem :
      (us : List (Use T)) (got : List T) (q : Q) (x : T)
      → run (moodycamel_queue moody) out (puts x ∷ us) got q
        ≡ run (moodycamel_queue moody) out us got (moody.try_enqueue x q).1
  unfolding run moodycamel_queue sink_process
  puts_lem us got q x = refl

  List-cases : (l : List T) → (l ≡ []) ⊎ ((x : T) × (xs : List T) × (l ≡ x ∷ xs))
  List-cases [] = inl refl
  List-cases (x ∷ xs) = inr (x, xs, refl)

  -- However the executions of a sink and of a source on one queue of the library are interleaved, they
  -- all return, and what the source has produced, followed by what is still queued, is what was queued at
  -- the start followed by some of the inputs of the sink in their order: none is doubled or overtaken.
  pub run-Keeps :
      (us : List (Use T)) (got : List T) (q : Q)
      → Returns
          (Keeps (got ++ moody.items q) (inputs us))
          (run (moodycamel_queue moody) out us got q)
  unfolding run
  run-Keeps [] got q = ([], nil-sublist [], sym (append-nil _))
  run-Keeps (takes ∷ us) got q = elim (List-cases (moody.items q)) [
    | inl e ↦ rw (takes-empty us got q e) (
        subst
          (λ l.
            Returns (Keeps (got ++ l) (inputs us))
              (run (moodycamel_queue moody) out us got (moody.try_dequeue q).1))
          ((moody.dequeue-empty q e).1 ∙ sym e) (run-Keeps us got (moody.try_dequeue q).1))
    | inr (x, xs, e) ↦ rw (takes-front us got q x xs e) (
        subst
          (λ l.
            Returns (Keeps l (inputs us))
              (run (moodycamel_queue moody) out us (got ++ x ∷ []) (moody.try_dequeue q).1))
          (append_assoc got (x ∷ []) (moody.items (moody.try_dequeue q).1)
            ∙ ap (λ l. got ++ l) (ap (◌∷◌ x) (moody.dequeue-front q x xs e).1 ∙ sym e))
          (run-Keeps us (got ++ x ∷ []) (moody.try_dequeue q).1))
  ]
  run-Keeps (puts x ∷ us) got q =
      let q' : Q = (moody.try_enqueue x q).1 in
      rw (puts_lem us got q x) (elim (Bool-cases (moody.try_enqueue x q).0) [
        | inl room ↦
            Returns-mono _
              (λ got' q'' k. Keeps-more (got ++ moody.items q) (inputs us) got' x q'' k)
              (subst
                (λ l. Returns (Keeps l (inputs us)) (run (moodycamel_queue moody) out us got q'))
                (ap (λ l. got ++ l) (moody.enqueue-items x q ∙ rw room refl)
                  ∙ sym (append_assoc got (moody.items q) (x ∷ [])))
                (run-Keeps us got q'))
        | inr no_room ↦
            Returns-mono _
              (λ got' q'' k. Keeps-lost (got ++ moody.items q) (inputs us) got' x q'' k)
              (subst
                (λ l.
                  Returns (Keeps (got ++ l) (inputs us))
                    (run (moodycamel_queue moody) out us got q'))
                (moody.enqueue-items x q ∙ rw no_room refl) (run-Keeps us got q'))
      ])

  std_takes-empty :
      (us : List (Use T)) (got l : List T)
      → l ≡ []
      → run std_queue out (takes ∷ us) got l ≡ run std_queue out us got []
  unfolding run std_queue source_process
  std_takes-empty us got l e = rw e refl

  std_takes-front :
      (us : List (Use T)) (got l : List T) (x : T) (xs : List T)
      → l ≡ x ∷ xs
      → run std_queue out (takes ∷ us) got l ≡ run std_queue out us (got ++ x ∷ []) xs
  unfolding run std_queue source_process
  std_takes-front us got l x xs e = rw e refl

  std_puts :
      (us : List (Use T)) (got l : List T) (x : T)
      → run std_queue out (puts x ∷ us) got l ≡ run std_queue out us got (l ++ x ∷ [])
  unfolding run std_queue sink_process
  std_puts us got l x = refl

  std_same :
      (us : List (Use T)) (got : List T) (q : Q) {r r' : Outcome (List T) (List T)}
      → r' ≡ r
      → Returns
          (λ got' q'. r ≡ done got' (moody.items q'))
          (run (moodycamel_queue moody) out us got q)
      → Returns
          (λ got' q'. r' ≡ done got' (moody.items q'))
          (run (moodycamel_queue moody) out us got q)
  std_same us got q e h =
      subst
        (λ o.
          Returns (λ got' q'. o ≡ done got' (moody.items q'))
            (run (moodycamel_queue moody) out us got q))
        (sym e) h

  -- Whenever the sink puts an item in, a `StdQueue` would have fewer items than the capacity.
  abbrev pub Fits : List (Use T) → List T → Type 0
  Fits [] l = Unit {0}
  Fits (takes ∷ us) [] = Fits us []
  Fits (takes ∷ us) (x ∷ l) = Fits us l
  Fits (puts x ∷ us) l = (length l < moody.capacity) × Fits us (l ++ x ∷ [])

  -- As long as it is never asked to hold more than its capacity, a queue of the library is, between a
  -- sink and a source, as a `StdQueue` with the same items: the interleaving returns, the source produces
  -- the same items, and the same items are left.
  pub run-std :
      (us : List (Use T)) (got : List T) (q : Q)
      → Fits us (moody.items q)
      → Returns
          (λ got' q'. run std_queue out us got (moody.items q) ≡ done got' (moody.items q'))
          (run (moodycamel_queue moody) out us got q)
  unfolding run
  run-std [] got q fits = refl
  run-std (takes ∷ us) got q fits = elim (List-cases (moody.items q)) [
    | inl e ↦ rw (takes-empty us got q e) (
        std_same us got (moody.try_dequeue q).1
          (std_takes-empty us got (moody.items q) e
            ∙ ap (run std_queue out us got) (sym (moody.dequeue-empty q e).1))
          (run-std us got (moody.try_dequeue q).1
            (subst (Fits us) (sym (moody.dequeue-empty q e).1) (subst (Fits (takes ∷ us)) e fits))))
    | inr (x, xs, e) ↦ rw (takes-front us got q x xs e) (
        std_same us (got ++ x ∷ []) (moody.try_dequeue q).1
          (std_takes-front us got (moody.items q) x xs e
            ∙ ap (run std_queue out us (got ++ x ∷ [])) (sym (moody.dequeue-front q x xs e).1))
          (run-std us (got ++ x ∷ []) (moody.try_dequeue q).1 (
            subst (Fits us) (sym (moody.dequeue-front q x xs e).1)
              (subst (Fits (takes ∷ us)) e fits))))
  ]
  run-std (puts x ∷ us) got q (room, fits) =
      let grows : moody.items (moody.try_enqueue x q).1 ≡ moody.items q ++ x ∷ [] =
        moody.enqueue-items x q ∙ rw (moody.enqueue-room x q room) refl in
      rw (puts_lem us got q x) (
        std_same us got (moody.try_enqueue x q).1
          (std_puts us got (moody.items q) x ∙ ap (run std_queue out us got) (sym grows))
          (run-std us got (moody.try_enqueue x q).1 (subst (Fits us) (sym grows) fits)))
