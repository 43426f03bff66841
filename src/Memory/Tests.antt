-- ===== src/Memory/Tests.antt =====
-- The theorems on the buffers and the pool at small examples.
use pipeline_tools.Prelude.{◌+◌, ◌*◌, ◌≡◌, refl, some, List, [], ◌∷◌, arith, inl}
use pipeline_tools.Prelude.Store.{update, tally}
use pipeline_tools.Prelude.Outcome.{done, thrown, invalid_argument}
use pipeline_tools.Memory.Buffer.{host}
use pipeline_tools.Memory.Unique.{unowned, owning}
use pipeline_tools.Memory.Pool.{MemPool, construct}
use pipeline_tools.Memory.Pool.Blocks.{construct-zero}
use pipeline_tools.Memory.Pool.Ownership.{
  Act, allocates, does, acts, free, fresh, block_in_one_place,
}
use pipeline_tools.Memory.Unique.Ownership.{
  Calls, State, Op, moves, swaps, resets, run, record_call, calls_of, total, run-once,
}

-- Variable 0 holds the pointer 9 with deleter 4.
abbrev one_owner : State Calls
one_owner = record {
  scope = record { buffers = update (λ _. unowned) 0 (owning 9 3 (some 4) host); world = [] };
  released = [];
}

abbrev some_moves : List Op
some_moves = moves 1 0 ∷ swaps 0 1 ∷ moves 0 0 ∷ resets 0 ∷ resets 0 ∷ []

run-once_example : calls_of 4 9 (run record_call some_moves one_owner).scope.world ≡ 1
unfolding run total tally update
run-once_example =
    run-once 4 9 2 some_moves one_owner (omega arith)
      (
        (omega arith, omega arith),
        (
          (omega arith, omega arith),
          ((omega arith, omega arith), (omega arith, (omega arith, tt))),
        ),
      )
      refl refl refl

abbrev no_pool : MemPool
no_pool = record {
  block_size_ = 0;
  block_count_ = 0;
  location_ = host;
  extent = 0;
  free_blocks_ = [];
}

abbrev uses : List Act
uses = allocates 0 ∷ allocates 1 ∷ does (moves 1 0) ∷ allocates 0 ∷ []

construct-zero_example : construct 100 0 4 host no_pool ≡ thrown invalid_argument no_pool
construct-zero_example = construct-zero 100 0 4 host no_pool (inl refl)

block_in_one_place_example :
    (pool : MemPool) × (construct 100 8 4 host no_pool ≡ done tt pool)
    × (total 5 (100 + 1 * 8) (free (100 + 1 * 8)) 2 (acts 5 uses (fresh pool)) ≡ 1)
block_in_one_place_example =
    block_in_one_place 5 100 8 4 host no_pool 2 1 uses (omega arith) (omega arith) (omega arith)
      (omega arith) (omega arith, (omega arith, ((omega arith, omega arith), (omega arith, tt))))
