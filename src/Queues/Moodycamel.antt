-- ===== src/Queues/Moodycamel.antt =====
-- MoodycamelQueue.hpp, BlockingQueue.hpp, LockFreeQueue.hpp and QueueFactory.hpp. The queues of the
-- library moodycamel are a parameter: a queue of the library has items, front first, and room for some
-- more; the laws are what its header documents of the calls that the repository makes.
pub mod Kept
use pipeline_tools.Prelude.{
  ℕ, ◌≡◌, ◌<◌, length, Bool, true, false, Option, none, some, List, [], ◌∷◌, ◌++◌, if◌then◌else◌,
}
use pipeline_tools.Prelude.Outcome.{Outcome, done, undefined, thrown, runtime_error, Cmd}
use pipeline_tools.Queues
use pipeline_tools.Queues.{IQueue}

-- `peek` returns a null pointer, `none`, on an empty queue; `try_dequeue` and `try_enqueue` say whether
-- they succeeded. `capacity` is the number of items that a default construction makes room for (at least
-- 15); `try_enqueue` succeeds while there are fewer, and may fail from there on.
pub record MoodyQueue (Q T : Type 0) : Type 0 where
  pub fresh : Q
  pub items : Q → List T
  pub capacity : ℕ
  pub peek : Q → Option T
  pub try_dequeue : Q → Option T × Q
  pub try_enqueue : T → Q → Bool × Q
  pub items-fresh : items fresh ≡ []
  pub peek-empty : (q : Q) → items q ≡ [] → peek q ≡ none
  pub peek-front : (q : Q) (x : T) (xs : List T) → items q ≡ x ∷ xs → peek q ≡ some x
  pub dequeue-empty :
      (q : Q) → items q ≡ [] → ((try_dequeue q).0 ≡ none) × (items (try_dequeue q).1 ≡ [])
  pub dequeue-front :
      (q : Q) (x : T) (xs : List T)
      → items q ≡ x ∷ xs
      → ((try_dequeue q).0 ≡ some x) × (items (try_dequeue q).1 ≡ xs)
  pub enqueue-items :
      (x : T) (q : Q)
      → items (try_enqueue x q).1 ≡ (if (try_enqueue x q).0 then items q ++ x ∷ [] else items q)
  pub enqueue-room : (x : T) (q : Q) → length (items q) < capacity → (try_enqueue x q).0 ≡ true

module _ {Q T : Type 0} (moody : MoodyQueue Q T) where
  unfoldable pub peek : Cmd Q T
  peek q = elim (moody.peek q) [ none ↦ undefined | some x ↦ done x q ]

  unfoldable pub pop : T → Cmd Q (Bool × T)
  pop item q =
      let (front, q') = moody.try_dequeue q in
      elim front [ none ↦ done (false, item) q' | some x ↦ done (true, x) q' ]

  unfoldable pub push_copy : (copyable : Bool) → T → Cmd Q Bool
  push_copy copyable item q =
      let (ok, q') = moody.try_enqueue item q in
      if copyable then done ok q' else thrown runtime_error q

  unfoldable pub push_move : T → Cmd Q Bool
  push_move item q = let (ok, q') = moody.try_enqueue item q in done ok q'

  unfoldable pub moodycamel_queue : IQueue Q T
  unfolding peek pop push_copy push_move
  moodycamel_queue = record { peek = peek; pop = pop; push_copy = push_copy; push_move = push_move }

-- The value behind the last line of `make_queue` is one that is none of the three.
pub data QueueType : Type 0 where
  std_queue blocking lock_free other : QueueType

-- An empty queue of some class.
pub record Made (T : Type 0) : Type 1 where
  pub State : Type 0
  pub state : State
  pub queue : IQueue State T

module _ {Q R T : Type 0} (blocking_queue : MoodyQueue Q T) (lock_free_queue : MoodyQueue R T) where
  unfoldable pub make_queue : QueueType → Made T
  unfolding moodycamel_queue
  make_queue std_queue = record { State = List T; state = []; queue = Queues.std_queue }
  make_queue blocking = record {
    State = Q;
    state = blocking_queue.fresh;
    queue = moodycamel_queue blocking_queue;
  }
  make_queue lock_free = record {
    State = R;
    state = lock_free_queue.fresh;
    queue = moodycamel_queue lock_free_queue;
  }
  make_queue other = record { State = List T; state = []; queue = Queues.std_queue }
