-- ===== src/Memory/Pool/Ownership.antt =====
-- The pool with the unique buffers that it hands out.
use pipeline_tools.Prelude.{
  some, ℕ, zero, suc, ◌+◌, ◌*◌, ◌^◌, ◌≤◌, ◌<◌, ◌≡◌, ◌≢◌, refl, ◌∙◌, List, [], ◌∷◌, ◌++◌, arith,
}
use pipeline_tools.Prelude.Store.{update, tally, tally-update, tally-pair}
use pipeline_tools.Prelude.Outcome.{done, Outcome}
use pipeline_tools.Memory.Buffer.{MemoryLocation, Ptr, null, Deleter}
use pipeline_tools.Memory.Unique.{unowned, UniqueBuffer, reset, owning}
use pipeline_tools.Memory.Unique.Ownership.{
  call_if-counts, Op, InScope, State, step, owns, one_if, is_pair, total, step-total,
}
use pipeline_tools.Memory.Pool.{MemPool, allocate, call, construct}
use pipeline_tools.Memory.Pool.Blocks.{count_of, blocks, count_of-blocks, construct-blocks}

-- A client of the pool: `buf[i] = pool.allocate()`, or something done with the buffers. An allocation
-- that throws changes nothing.
pub data Act : Type 0 where
  allocates : ℕ → Act
  does : Op → Act

module _ (release : Deleter) where
  -- The buffer that `allocate` returns goes into variable `i` by a move assignment.
  unfoldable pub store_result : ℕ → State MemPool → Outcome MemPool UniqueBuffer → State MemPool
  unfolding reset
  store_result i s (done b pool) =
      let (_, pool') = reset (call release) (s.scope.buffers i) pool in
      record s { scope = record { buffers = update s.scope.buffers i b; world = pool' } }
  store_result i s _ = s

  unfoldable pub act : Act → State MemPool → State MemPool
  unfolding store_result step
  act (allocates i) s = store_result i s (allocate release s.scope.world)
  act (does o) s = step (call release) o s

  unfoldable pub acts : List Act → State MemPool → State MemPool
  unfolding act
  acts [] s = s
  acts (a ∷ as') s = acts as' (act a s)

abbrev pub Within : ℕ → Act → Type 0
Within n (allocates i) = i < n
Within n (does o) = InScope n o

abbrev pub AllWithin : ℕ → List Act → Type 0
AllWithin n [] = Unit {0}
AllWithin n (a ∷ as') = Within n a × AllWithin n as'

abbrev pub free : Ptr → MemPool → ℕ
free p pool = count_of p pool.free_blocks_

count_of-append :
    (p : Ptr) (xs ys : List Ptr) → count_of p (xs ++ ys) ≡ count_of p xs + count_of p ys
count_of-append p [] ys = omega arith
count_of-append p (x ∷ xs) ys = omega (arith, count_of-append p xs ys)

call-counts :
    (release : Deleter) (p : Ptr) (e : Deleter) (q : Ptr) (pool : MemPool)
    → free p (call release e q pool) ≡ one_if (is_pair release p e q) + free p pool
unfolding call
call-counts release p e q pool = ground (arith, count_of-append p pool.free_blocks_ (q ∷ []))

module _ (release : Deleter) (p : Ptr) (n : ℕ) (real : p ≢ null) where
  -- The move assignment of a new buffer gives the old block back and holds the new one.
  store_result-total :
      (i : ℕ) (s : State MemPool) (ptr : Ptr) (rest : List Ptr)
      → i < n
      → s.scope.world.free_blocks_ ≡ ptr ∷ rest
      → total release p (free p) n (store_result release i s (allocate release s.scope.world))
        ≡ total release p (free p) n s
  unfolding store_result allocate total
  store_result-total i s ptr rest h e =
      let pool : MemPool = record s.scope.world { free_blocks_ = rest } in
      let b = s.scope.buffers i in
      ground (
        arith,
        tally-update n i (owns release p) s.scope.buffers
            (owning ptr s.scope.world.block_size_ (some release) s.scope.world.location_) h,
        call_if-counts (call release) release p (free p) (call-counts release p) n real b.deleter_
            b.data_ pool,
      )

  act-total :
      (a : Act) (s : State MemPool)
      → Within n a
      → total release p (free p) n (act release a s) ≡ total release p (free p) n s
  unfolding act
  act-total (allocates i) s h = by_free s.scope.world.free_blocks_ refl
    where
      by_free :
          (l : List Ptr)
          → s.scope.world.free_blocks_ ≡ l
          → total release p (free p) n (store_result release i s (allocate release s.scope.world))
            ≡ total release p (free p) n s
      by_free [] e = unfold allocate store_result in ground arith
      by_free (ptr ∷ rest) e = store_result-total i s ptr rest h e
  act-total (does o) s h =
      step-total (call release) release p (free p) (call-counts release p) n real o s h

  -- Whatever a client does with the pool and its buffers, for each address the free entries, the
  -- buffers that hold it with the pool's deleter, and its releases stay as many as they were.
  pub acts-total :
      (as' : List Act) (s : State MemPool)
      → AllWithin n as'
      → total release p (free p) n (acts release as' s) ≡ total release p (free p) n s
  unfolding acts
  acts-total [] s h = refl
  acts-total (a ∷ as') s h = acts-total as' (act release a s) h.1 ∙ act-total a s h.0

-- A pool with which nothing has been done: no variable owns anything.
abbrev pub fresh : MemPool → State MemPool
fresh pool = record { scope = record { buffers = λ _. unowned; world = pool }; released = [] }

fresh-tally : (release : Deleter) (p : Ptr) (n : ℕ) → tally n (owns release p) (λ _. unowned) ≡ 0
unfolding tally
fresh-tally release p zero = refl
fresh-tally release p (suc n) = ground (arith, fresh-tally release p n)

-- After any use of a newly constructed pool, each block is in one place: it is free, or one buffer
-- holds it with the pool's deleter, or one release handed it out with that deleter.
pub block_in_one_place :
    (release : Deleter) (base : Ptr) (size count : ℕ) (loc : MemoryLocation) (old : MemPool)
    (n k : ℕ) (as' : List Act)
    → 0 < size
    → size * count < 2 ^ 64
    → base ≢ null
    → k < count
    → AllWithin n as'
    → (pool : MemPool) × (construct base size count loc old ≡ done tt pool)
      × (total release (base + k * size) (free (base + k * size)) n (acts release as' (fresh pool))
          ≡ 1)
block_in_one_place release base size count loc old n k as' hs fits real hk within =
    let pool : MemPool = record {
      block_size_ = size;
      block_count_ = count;
      location_ = loc;
      extent = size * count;
      free_blocks_ = blocks count base size 0;
    } in
    let p : Ptr = base + k * size in
    let kept = acts-total release p n (omega arith) as' (fresh pool) within in
    let once = count_of-blocks count base size 0 k hs (omega arith) (omega arith) in
    (
      pool,
      construct-blocks base size count loc old hs (omega arith) fits,
      unfold total in omega (arith, kept, once, fresh-tally release p n),
    )

-- So, after any use of a newly constructed pool, no two variables hold the same block, and none holds
-- a block that is among the free ones.
pub block_exclusive :
    (release : Deleter) (base : Ptr) (size count : ℕ) (loc : MemoryLocation) (old : MemPool)
    (n k i j : ℕ) (as' : List Act)
    → 0 < size
    → size * count < 2 ^ 64
    → base ≢ null
    → k < count
    → AllWithin n as'
    → i < j
    → j < n
    → (pool : MemPool) × (construct base size count loc old ≡ done tt pool)
      × (let t = acts release as' (fresh pool) in
          owns release (base + k * size) (t.scope.buffers i)
            + owns release (base + k * size) (t.scope.buffers j)
            + free (base + k * size) t.scope.world
          ≤ 1)
block_exclusive release base size count loc old n k i j as' hs fits real hk within hi hj =
    let (pool, made, one) =
      block_in_one_place release base size count loc old n k as' hs fits real hk within in
    let buffers = (acts release as' (fresh pool)).scope.buffers in
    let two = tally-pair n i j (owns release (base + k * size)) buffers hi hj in
    (pool, made, unfold total in omega (arith, one, two))
