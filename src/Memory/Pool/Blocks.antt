-- ===== src/Memory/Pool/Blocks.antt =====
-- The blocks of a new pool.
use pipeline_tools.Prelude.{
  false, ◌||◌, ◌==◌, if◌then◌else◌, true, ◌⊎◌, ℕ, zero, suc, ◌+◌, ◌*◌, ◌%◌, ◌^◌, ◌≤◌, ◌<◌, ◌≡◌,
  refl, ap, ◌∙◌, List, [], ◌∷◌, ◌++◌, append-nil, append_assoc, arith, length, lt_or_le, inl, inr,
  ltb,
}
use pipeline_tools.Prelude.Outcome.{done}
use pipeline_tools.Memory.Buffer.{MemoryLocation, Ptr}
use pipeline_tools.Memory.Pool.{invalid_argument, thrown, MemPool, push_blocks, construct}

-- `rounds` block addresses, `size` apart, from block `i` on.
abbrev pub blocks : ℕ → Ptr → ℕ → ℕ → List Ptr
blocks zero base size i = []
blocks (suc rounds) base size i = (base + i * size) ∷ blocks rounds base size (i + 1)

pub length-blocks : (n : ℕ) (base : Ptr) (size i : ℕ) → length (blocks n base size i) ≡ n
length-blocks zero base size i = refl
length-blocks (suc n) base size i = ap suc (length-blocks n base size (i + 1))

index_below : (i n size : ℕ) → i < n → 0 < size → i * size < n * size
index_below i n size h k = grind arith

push_blocks-blocks :
    (rounds : ℕ) (base : Ptr) (i count : ℕ) (pool : MemPool)
    → i + rounds ≡ count
    → 0 < pool.block_size_
    → pool.extent ≡ count * pool.block_size_
    → pool.extent < 2 ^ 64
    → push_blocks rounds base i pool
      ≡ done tt (record pool {
        free_blocks_ = pool.free_blocks_ ++ blocks rounds base pool.block_size_ i;
      })
unfolding push_blocks
push_blocks-blocks zero base i count pool e pos whole fits = rw append-nil
push_blocks-blocks (suc rounds) base i count pool e pos whole fits =
    let size : ℕ = pool.block_size_ in
    let inside : i * size < count * size = index_below i count size (omega arith) pos in
    let plain : i * size % 2 ^ 64 ≡ i * size = omega arith in
    let within : ltb (i * size) pool.extent ≡ true = ground arith in
    rw (plain, within)
      (push_blocks-blocks rounds base (i + 1) count
          (record pool { free_blocks_ = pool.free_blocks_ ++ (base + i * size) ∷ [] }) (omega arith)
          pos whole fits
        ∙ ap (λ l. done tt (record pool { free_blocks_ = l }))
            (append_assoc pool.free_blocks_ ((base + i * size) ∷ []) _))

-- With sizes above zero whose product fits a `size_t`, the constructor ends, and the free blocks are
-- all the blocks of the vector, in order.
pub construct-blocks :
    (base : Ptr) (size count : ℕ) (loc : MemoryLocation) (old : MemPool)
    → 0 < size
    → 0 < count
    → size * count < 2 ^ 64
    → construct base size count loc old
      ≡ done tt (record {
        block_size_ = size;
        block_count_ = count;
        location_ = loc;
        extent = size * count;
        free_blocks_ = blocks count base size 0;
      })
unfolding construct
construct-blocks base size count loc old hs hc fits =
    let plain : size * count % 2 ^ 64 ≡ size * count = omega arith in
    let nonzero : (size == 0 || count == 0) ≡ false = ground arith in
    rw (nonzero, plain)
      (push_blocks-blocks count base 0 count _ (omega arith) hs (omega arith) (omega arith))

-- A size or a count of zero is refused.
pub construct-zero :
    (base : Ptr) (size count : ℕ) (loc : MemoryLocation) (old : MemPool)
    → (size ≡ 0) ⊎ (count ≡ 0)
    → construct base size count loc old ≡ thrown invalid_argument old
unfolding construct
construct-zero base size count loc old h = ground arith

abbrev pub count_of : Ptr → List Ptr → ℕ
count_of p [] = 0
count_of p (q ∷ qs) = (if q == p then 1 else 0) + count_of p qs

-- An element of the vector lies in one block at most, and every block lies in the vector.
pub blocks-apart :
    (size count i j a : ℕ)
    → i < j
    → j < count
    → a < size
    → (i * size + a < j * size) × (j * size + a < size * count)
blocks-apart size count i j a hi hj ha = (grind arith, grind arith)

count_of-before :
    (n : ℕ) (base : Ptr) (size i k : ℕ)
    → 0 < size
    → k < i
    → count_of (base + k * size) (blocks n base size i) ≡ 0
count_of-before zero base size i k hs h = refl
count_of-before (suc n) base size i k hs h =
    ground (arith, count_of-before n base size (i + 1) k hs, index_below k i size h hs)

-- Each block of a new pool stands once among its free blocks.
pub count_of-blocks :
    (n : ℕ) (base : Ptr) (size i k : ℕ)
    → 0 < size
    → i ≤ k
    → k < i + n
    → count_of (base + k * size) (blocks n base size i) ≡ 1
count_of-blocks zero base size i k hs h b = absurd (omega arith)
count_of-blocks (suc n) base size i k hs h b = elim (lt_or_le i k) [
  | inl later ↦
      ground (arith, count_of-blocks n base size (i + 1) k hs, index_below i k size later hs)
  | inr now ↦
      let e : k ≡ i = omega arith in
      let same : k * size ≡ i * size = ap (λ t. t * size) e in
      ground (arith, same, count_of-before n base size (i + 1) k hs (omega arith))
]
