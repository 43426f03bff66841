-- ===== src/Queues.antt =====
-- core/src/utils/queues and the modules that read and write queues: IQueue.hpp,
-- StdQueue.hpp, QueueSource.hpp and QueueSink.hpp. A `StdQueue` is the list of its items, front first; the
-- lock guard of a method makes it one step.
mod Tests
pub mod Fifo
pub mod Moodycamel
use pipeline_tools.Prelude.{
  ℕ, Bool, true, false, Option, none, some, List, [], ◌∷◌, ◌++◌, if◌then◌else◌,
}
use pipeline_tools.Prelude.Outcome.{
  Outcome, done, undefined, thrown, runtime_error, Cmd, pure, ◌>>=◌, ◌>>◌,
}

module _ {T : Type 0} where
  -- `peek`; `front` of an empty queue is undefined.
  unfoldable pub peek : Cmd (List T) T
  peek [] = undefined
  peek (x ∷ queue) = done x (x ∷ queue)

  -- `pop(item)`: what it returns, and the new value of `item`.
  unfoldable pub pop : T → Cmd (List T) (Bool × T)
  pop item [] = done (false, item) []
  pop item (x ∷ queue) = done (true, x) queue

  -- `push(const T&)`; a type that cannot be copied is refused.
  unfoldable pub push_copy : (copyable : Bool) → T → Cmd (List T) Bool
  push_copy copyable item queue =
      if copyable then done true (queue ++ item ∷ []) else thrown runtime_error queue

  -- `push(T&&)`.
  unfoldable pub push_move : T → Cmd (List T) Bool
  push_move item queue = done true (queue ++ item ∷ [])

-- The methods of `IQueue<T>`, for queues with the state `S`.
pub record IQueue (S T : Type 0) : Type 0 where
  pub peek : Cmd S T
  pub pop : T → Cmd S (Bool × T)
  pub push_copy : (copyable : Bool) → T → Cmd S Bool
  pub push_move : T → Cmd S Bool

unfoldable pub std_queue : {T : Type 0} → IQueue (List T) T
unfolding peek pop push_copy push_move
std_queue = record { peek = peek; pop = pop; push_copy = push_copy; push_move = push_move }

module _ {S T : Type 0} (queue : IQueue S T) where
  -- `QueueSource::process`; `out` is the value that a default construction gives.
  unfoldable pub source_process : (out : T) → Cmd S (Option T)
  source_process out = do (ok, item) ← queue.pop out; if ok then pure (some item) else pure none

  -- `QueueSink::process`, which drops the result of the push.
  unfoldable pub sink_process : T → Cmd S (Unit {0})
  sink_process input = do queue.push_move input; pure tt
