-- ===== src/Threads/CpuManager.antt =====
-- core/src/utils/threads/CPUManager.h and CPUManager.cpp: the pools of cores, `allocate` and
-- `deallocate`. A vector is a list in the vector's order, so `back` and `pop_back` work at its end.
-- The singleton is the state; its mutex is the field `locked`, and taking it twice blocks.
pub mod ParseCpus
pub mod Loops
pub mod Allocate
pub mod Conserves
pub mod Ledger
pub mod Race
pub mod Pinned
use pipeline_tools.Prelude.{
  ℕ, zero, suc, ◌+◌, ◌-◌, min, Bool, true, false, ◌&&◌, ◌||◌, not, Option, none, some, List, [],
  ◌∷◌, ◌++◌, ltb, if◌then◌else◌, length, is_empty, get_elem?,
}
use pipeline_tools.Prelude.Int.{ℤ, ◌==ℤ◌}
use pipeline_tools.Prelude.Outcome.{
  runtime_error, out_of_range, Outcome, blocked, undefined, out_of_fuel, terminated, Cmd, pure,
  throw, ◌>>=◌, ◌>>◌, modify, finally,
}
use pipeline_tools.Threads.Policy.{AffinityType, normal, pinned, isolated, ThreadPolicy, Core, core}

-- The lines that the manager hands to its logger, with the values that they show.
pub data Entry : Type 0 where
  not_enough not_enough_isolated : ℕ → Entry
  pinned_instead exhausted : Entry
  no_such_core not_allocated : ℤ → Entry

pub record CpuManager : Type 0 where
  pub pinned_core_pool : List ℤ
  pub isol_core_pool : List ℤ
  pub online_cores : List ℤ
  pub locked : Bool
  pub log : List Entry

abbrev pub M : Type 0 → Type 0
M A = Cmd CpuManager A

abbrev pub logged : Entry → CpuManager → CpuManager
logged e m = record m { log = m.log ++ e ∷ [] }

-- `std::vector::back` and `pop_back`; `back` of an empty vector is undefined.
unfoldable pub back {ℓ} : {A : Type ℓ} → List A → Option A
back [] = none
back (x ∷ []) = some x
back (x ∷ y ∷ ys) = back (y ∷ ys)

unfoldable pub pop_back {ℓ} : {A : Type ℓ} → List A → List A
pop_back [] = []
pop_back (x ∷ []) = []
pop_back (x ∷ y ∷ ys) = x ∷ pop_back (y ∷ ys)

-- The loop of the NORMAL case: `allocated.emplace_back(pool.at(i), NORMAL)`.
unfoldable pub copy_cores : ℕ → ℕ → List ℤ → List Core → M (List Core)
copy_cores zero i pool allocated = pure allocated
copy_cores (suc n) i pool allocated = elim (get_elem? pool i) [
  | none ↦ throw out_of_range
  | some c ↦ copy_cores n (i + 1) pool (allocated ++ core normal c ∷ [])
]

-- The loops of the other cases: `allocated.emplace_back(pool.back(), a); pool.pop_back()`.
unfoldable pub take_cores : AffinityType → ℕ → List ℤ → List Core → M (List Core × List ℤ)
take_cores a zero pool allocated = pure (allocated, pool)
take_cores a (suc n) pool allocated = elim (back pool) [
  | none ↦ λ _. undefined
  | some c ↦ take_cores a n (pop_back pool) (allocated ++ core a c ∷ [])
]

-- The end of `allocate`: the copies become the pools, and an emptied pool is reported.
unfoldable pub commit : ℕ → List ℤ → List ℤ → CpuManager → CpuManager
commit original pins isols m =
    let m' : CpuManager = record m { pinned_core_pool = pins; isol_core_pool = isols } in
    if ltb 0 original && is_empty pins then logged exhausted m' else m'

abbrev pub get : M CpuManager
get m = Outcome.done m m

-- The shortfall of isolated cores: refused if strict, otherwise asked for as pinned ones.
unfoldable pub fall_back : (ThreadPolicy → M (List Core)) → ThreadPolicy → ℕ → M (List Core)
fall_back self policy missing =
    if policy.strict
    then (do modify (logged (not_enough_isolated policy.cores)); throw runtime_error)
    else do
      allocated ← self (record policy { cores = missing; affinity_type = pinned })
      modify (logged pinned_instead)
      pure allocated

unfoldable pub allocate_isolated :
    (ThreadPolicy → M (List Core)) → ThreadPolicy → ℕ → CpuManager → M (List Core)
unfolding fall_back
allocate_isolated self policy original m = do
  let count = min policy.cores (length m.isol_core_pool)
  allocated ←
      (if ltb count policy.cores then fall_back self policy (policy.cores - count) else pure [])
  now ← get
  (cores, isols) ← take_cores isolated count now.isol_core_pool allocated
  modify (commit original now.pinned_core_pool isols)
  pure cores

-- The `switch` over the affinity; `original` is the size of the pinned pool on entry.
unfoldable pub allocate_by :
    (ThreadPolicy → M (List Core)) → AffinityType → ThreadPolicy → ℕ → CpuManager → M (List Core)
unfolding allocate_isolated copy_cores take_cores commit
allocate_by self normal policy original m = do
  cores ← copy_cores policy.cores 0 m.pinned_core_pool []
  modify (commit original m.pinned_core_pool m.isol_core_pool)
  pure cores
allocate_by self pinned policy original m = do
  (cores, pins) ← take_cores pinned policy.cores m.pinned_core_pool []
  modify (commit original pins m.isol_core_pool)
  pure cores
allocate_by self isolated policy original m = allocate_isolated self policy original m

-- `total_cpus`: isolated cores count for a policy that asks for isolated ones only.
abbrev pub available : AffinityType → CpuManager → ℕ
available normal m = length m.pinned_core_pool
available pinned m = length m.pinned_core_pool
available isolated m = length m.pinned_core_pool + length m.isol_core_pool

-- What `allocate` does while it holds the mutex.
unfoldable pub allocate_locked : (ThreadPolicy → M (List Core)) → ThreadPolicy → M (List Core)
unfolding allocate_by
allocate_locked self policy m =
    if ltb (available policy.affinity_type m) policy.cores
    then (do modify (logged (not_enough policy.cores)); throw runtime_error) m
    else allocate_by self policy.affinity_type policy (length m.pinned_core_pool) m m

abbrev pub unlock : CpuManager → CpuManager
unlock m = record m { locked = false }

-- `allocate`, whose calls of itself go `depth` deep at most. The lock guard takes the mutex, which is
-- no recursive one, and gives it back on every way out.
unfoldable pub allocate_at : (depth : ℕ) → ThreadPolicy → M (List Core)
unfolding allocate_locked
allocate_at zero policy m = out_of_fuel
allocate_at (suc depth) policy m =
    if m.locked
    then blocked
    else finally (allocate_locked (allocate_at depth) policy (record m { locked = true })) unlock

-- A call of itself asks for pinned cores, so two levels are all that there can be.
unfoldable pub allocate : ThreadPolicy → M (List Core)
unfolding allocate_at
allocate = allocate_at 2

unfoldable pub contains_id : List ℤ → ℤ → Bool
contains_id [] c = false
contains_id (x ∷ xs) c = (x ==ℤ c) || contains_id xs c

abbrev pub warn_if : Bool → Entry → CpuManager → CpuManager
warn_if b e m = if b then logged e m else m

-- The `switch` of `deallocate`.
unfoldable pub put_back : AffinityType → ℤ → CpuManager → CpuManager
unfolding contains_id
put_back normal id m = m
put_back isolated id m =
    let m' = warn_if (contains_id m.isol_core_pool id) (not_allocated id) m in
    record m' { isol_core_pool = m'.isol_core_pool ++ id ∷ [] }
put_back pinned id m =
    let m' = warn_if (contains_id m.pinned_core_pool id) (not_allocated id) m in
    record m' { pinned_core_pool = m'.pinned_core_pool ++ id ∷ [] }

-- `deallocate(Core)`; it takes no lock, and an unknown core is reported but not refused.
unfoldable pub deallocate : Core → CpuManager → CpuManager
unfolding put_back contains_id
deallocate c m =
    put_back c.affinity_type c.cpu_id
      (warn_if (not (contains_id m.online_cores c.cpu_id)) (no_such_core c.cpu_id) m)

-- `deallocate(const std::vector<Core>&)`.
unfoldable pub deallocate_all : List Core → CpuManager → CpuManager
unfolding deallocate
deallocate_all [] m = m
deallocate_all (c ∷ cs) m = deallocate_all cs (deallocate c m)
