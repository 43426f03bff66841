-- ===== src/Queues/Tests.antt =====
-- The theorem on queues at a small interleaving.
use pipeline_tools.Queues.Moodycamel.{MoodyQueue, moodycamel_queue}
use pipeline_tools.Queues.Moodycamel.Kept.{run-std}
use pipeline_tools.Prelude.{
  ◌<◌, arith, Bool, true, false, none, some, ltb, length, if◌then◌else◌, Bool-cases, inl, inr, ℕ,
  ◌≡◌, refl, List, [], ◌∷◌, ◌++◌,
}
use pipeline_tools.Prelude.Outcome.{Returns, done}
use pipeline_tools.Queues.{std_queue}
use pipeline_tools.Queues.Fifo.{Use, takes, puts, run, inputs, run-inputs}

-- The source finds the queue empty, then gets the first of two items, with another one queued before.
abbrev uses : List (Use ℕ)
uses = takes ∷ takes ∷ puts 5 ∷ puts 6 ∷ takes ∷ []

run-inputs_example :
    Returns
      (λ got' queue'. got' ++ queue' ≡ (([] ++ 4 ∷ []) ++ inputs uses))
      (run std_queue 0 uses [] (4 ∷ []))
run-inputs_example = run-inputs 0 uses [] (4 ∷ [])

takes_in_order : run std_queue 0 uses [] (4 ∷ []) ≡ done (4 ∷ 5 ∷ []) (6 ∷ [])
unfolding run std_queue
takes_in_order = refl

abbrev enqueue_two : ℕ → List ℕ → Bool × List ℕ
enqueue_two x q = if ltb (length q) 2 then (true, q ++ x ∷ []) else (false, q)

enqueue_two-items :
    (x : ℕ) (q : List ℕ) → (enqueue_two x q).1 ≡ (if (enqueue_two x q).0 then q ++ x ∷ [] else q)
enqueue_two-items x q = elim (Bool-cases (ltb (length q) 2)) [
  | inl e ↦ rw e refl
  | inr e ↦ rw e refl
]

enqueue_two-room : (x : ℕ) (q : List ℕ) → length q < 2 → (enqueue_two x q).0 ≡ true
enqueue_two-room x q h = ground arith

-- A queue of the library with room for two items.
abbrev small_queue : MoodyQueue (List ℕ) ℕ
small_queue = record {
  fresh = [];
  items = λ q. q;
  capacity = 2;
  peek = λ q. elim q [ [] ↦ none | x ∷ xs ↦ some x ];
  try_dequeue = λ q. elim q [ [] ↦ (none, []) | x ∷ xs ↦ (some x, xs) ];
  try_enqueue = enqueue_two;
  items-fresh = refl;
  peek-empty = λ q e. rw e refl;
  peek-front = λ q x xs e. rw e refl;
  dequeue-empty = λ q e. (rw e refl, rw e refl);
  dequeue-front = λ q x xs e. (rw e refl, rw e refl);
  enqueue-items = enqueue_two-items;
  enqueue-room = enqueue_two-room;
}

abbrev many : List (Use ℕ)
many = puts 5 ∷ puts 6 ∷ puts 7 ∷ takes ∷ takes ∷ takes ∷ []

loses_the_third : run (moodycamel_queue small_queue) 0 many [] [] ≡ done (5 ∷ 6 ∷ []) []
unfolding run moodycamel_queue
loses_the_third = refl

run-std_example :
    Returns
      (λ got' q'. run std_queue 0 uses [] [] ≡ done got' q')
      (run (moodycamel_queue small_queue) 0 uses [] [])
run-std_example = run-std small_queue 0 uses [] [] (omega arith, (omega arith, tt))
