-- ===== src/Memory/Pool.antt =====
-- MemPool.hpp: a pool of equal blocks in one vector. Addresses count elements of `T`; `base` is the
-- address of the vector's first element, and a `size_t` has 64 bits. No method of the pool calls
-- another one while it holds the mutex, so that each call is one step.
pub mod Blocks
pub mod Ownership
use pipeline_tools.Prelude.{
  ℕ, zero, suc, ◌+◌, ◌*◌, ◌%◌, ◌^◌, Bool, ◌||◌, Option, none, some, List, [], ◌∷◌, ◌++◌, ltb, ◌==◌,
  if◌then◌else◌, length,
}
use pipeline_tools.Prelude.Outcome.{
  Outcome, done, thrown, undefined, runtime_error, invalid_argument, Cmd, pure, throw, ◌>>=◌, ◌>>◌,
  modify,
}
use pipeline_tools.Memory.Buffer.{MemoryLocation, Ptr, Deleter}
use pipeline_tools.Memory.Unique.{UniqueBuffer, owning}

pub record MemPool : Type 0 where
  pub block_size_ : ℕ
  pub block_count_ : ℕ
  pub location_ : MemoryLocation
  pub extent : ℕ
  pub free_blocks_ : List Ptr

abbrev pub M : Type 0 → Type 0
M A = Cmd MemPool A

-- `free_blocks_.push(&data_[i * block_size_])` for `i` from `i` on; an index at or past the end of the
-- vector is undefined.
unfoldable pub push_blocks : ℕ → Ptr → ℕ → M (Unit {0})
push_blocks zero base i pool = done tt pool
push_blocks (suc rounds) base i pool =
    let index : ℕ = i * pool.block_size_ % 2 ^ 64 in
    let rest =
      push_blocks rounds base (i + 1)
        (record pool { free_blocks_ = pool.free_blocks_ ++ (base + index) ∷ [] }) in
    if ltb index pool.extent then rest else undefined

-- The constructor; the state that it starts from does not matter.
unfoldable pub construct : Ptr → ℕ → ℕ → MemoryLocation → M (Unit {0})
unfolding push_blocks
construct base block_size block_count loc pool =
    if block_size == 0 || block_count == 0
    then thrown invalid_argument pool
    else push_blocks block_count base 0 (record {
      block_size_ = block_size;
      block_count_ = block_count;
      location_ = loc;
      extent = block_size * block_count % 2 ^ 64;
      free_blocks_ = [];
    })

-- `release` is the number of the pool's own deleter.
unfoldable pub allocate : (release : Deleter) → M UniqueBuffer
allocate release pool = elim pool.free_blocks_ [
  | [] ↦ thrown runtime_error pool
  | ptr ∷ rest ↦
      done (owning ptr pool.block_size_ (some release) pool.location_)
        (record pool { free_blocks_ = rest })
]

unfoldable pub release_block : Ptr → MemPool → MemPool
release_block p pool = record pool { free_blocks_ = pool.free_blocks_ ++ p ∷ [] }

-- What deleters do to the pool: its own gives the block back, others do not touch it.
unfoldable pub call : (release : Deleter) → Deleter → Ptr → MemPool → MemPool
unfolding release_block
call release d p pool = if d == release then release_block p pool else pool

abbrev pub block_size : MemPool → ℕ
block_size pool = pool.block_size_

abbrev pub capacity : MemPool → ℕ
capacity pool = pool.block_count_

abbrev pub available : MemPool → ℕ
available pool = length pool.free_blocks_
