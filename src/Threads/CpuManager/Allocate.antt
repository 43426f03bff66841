-- ===== src/Threads/CpuManager/Allocate.antt =====
-- `CPUManager::allocate` on each of its branches.
use pipeline_tools.Prelude.{
  refl, inr, inl, Bool-cases, lt_or_le, ◌+◌, ◌≤◌, ◌<◌, ◌≡◌, true, false, List, [], ◌∷◌, ◌++◌, map,
  arith, length, take,
}
use pipeline_tools.Prelude.Int.{ℤ}
use pipeline_tools.Prelude.Outcome.{Outcome, runtime_error, thrown, blocked, done}
use pipeline_tools.Threads.Policy.{AffinityType, normal, pinned, isolated, ThreadPolicy, Core, core}
use pipeline_tools.Threads.CpuManager.{
  Entry, CpuManager, Entry, exhausted, logged, not_enough, not_enough_isolated, available, commit,
  allocate,
}
use pipeline_tools.Threads.CpuManager.Loops.{Taken, take_cores-Taken, copy_cores_lem}

module _ (p : ThreadPolicy) (m : CpuManager) (free : m.locked ≡ false) where
  pub allocate-refused :
      available p.affinity_type m < p.cores
      → allocate p m ≡ thrown runtime_error (logged (not_enough p.cores) m)
  unfolding allocate
  allocate-refused h = ground arith

  pub allocate-normal :
      p.affinity_type ≡ normal
      → p.cores ≤ length m.pinned_core_pool
      → allocate p m ≡ done (map (core normal) (take p.cores m.pinned_core_pool)) m
  unfolding allocate
  allocate-normal e h =
      ground (arith, copy_cores_lem p.cores 0 m.pinned_core_pool [] (record m { locked = true }))

  pub allocate-pinned :
      p.affinity_type ≡ pinned
      → p.cores ≤ length m.pinned_core_pool
      → (taken rest : List ℤ) × (allocate p m
          ≡ done
              (map (core pinned) taken)
              (commit (length m.pinned_core_pool) rest m.isol_core_pool m))
        × Taken p.cores m.pinned_core_pool taken rest
  unfolding allocate
  allocate-pinned e h =
      let (taken, rest, run, t) =
        take_cores-Taken pinned p.cores m.pinned_core_pool [] (record m { locked = true }) h in
      (taken, rest, ground (arith, run), t)

  pub allocate-isolated :
      p.affinity_type ≡ isolated
      → p.cores ≤ length m.isol_core_pool
      → (taken rest : List ℤ) × (allocate p m
          ≡ done
              (map (core isolated) taken)
              (commit (length m.pinned_core_pool) m.pinned_core_pool rest m))
        × Taken p.cores m.isol_core_pool taken rest
  unfolding allocate
  allocate-isolated e h =
      let (taken, rest, run, t) =
        take_cores-Taken isolated p.cores m.isol_core_pool [] (record m { locked = true }) h in
      (taken, rest, ground (arith, run), t)

  pub allocate-strict :
      p.affinity_type ≡ isolated
      → length m.isol_core_pool < p.cores
      → p.cores ≤ length m.pinned_core_pool + length m.isol_core_pool
      → p.strict ≡ true
      → allocate p m ≡ thrown runtime_error (logged (not_enough_isolated p.cores) m)
  unfolding allocate
  allocate-strict e few h s = ground arith

  pub allocate-blocked :
      p.affinity_type ≡ isolated
      → length m.isol_core_pool < p.cores
      → p.cores ≤ length m.pinned_core_pool + length m.isol_core_pool
      → p.strict ≡ false
      → allocate p m ≡ blocked
  unfolding allocate
  allocate-blocked e few h s = ground arith

-- The log behind a change of the pinned pool: a pool that was emptied is noted.
abbrev pub noted : (old new : List ℤ) → List Entry → List Entry
noted [] new log = log
noted (c ∷ cs) (d ∷ ds) log = log
noted (c ∷ cs) [] log = log ++ exhausted ∷ []

-- The manager with these pools.
abbrev pub with_pools : List ℤ → List ℤ → CpuManager → CpuManager
with_pools pins isols m = record m {
  pinned_core_pool = pins;
  isol_core_pool = isols;
  log = noted m.pinned_core_pool pins m.log;
}

noted_lem :
    (old new isols : List ℤ) (m : CpuManager)
    → commit (length old) new isols m
      ≡ record m { pinned_core_pool = new; isol_core_pool = isols; log = noted old new m.log }
unfolding commit
noted_lem [] new isols m = refl
noted_lem (c ∷ cs) (d ∷ ds) isols m = ground arith
noted_lem (c ∷ cs) [] isols m = ground arith

-- The six ways in which `allocate` can end, each with the condition under which it does.
pub data Allocates (p : ThreadPolicy) (m : CpuManager)
    : Outcome CpuManager (List Core) → Type 0 where
  refused :
      available p.affinity_type m < p.cores
      → Allocates p m (thrown runtime_error (logged (not_enough p.cores) m))
  copied :
      p.affinity_type ≡ normal
      → p.cores ≤ length m.pinned_core_pool
      → Allocates p m (done (map (core normal) (take p.cores m.pinned_core_pool)) m)
  pinned_taken :
      {taken rest : List ℤ}
      → p.affinity_type ≡ pinned
      → Taken p.cores m.pinned_core_pool taken rest
      → Allocates p m (done (map (core pinned) taken) (with_pools rest m.isol_core_pool m))
  isolated_taken :
      {taken rest : List ℤ}
      → p.affinity_type ≡ isolated
      → Taken p.cores m.isol_core_pool taken rest
      → Allocates p m (done (map (core isolated) taken) (with_pools m.pinned_core_pool rest m))
  short_strict :
      p.affinity_type ≡ isolated
      → length m.isol_core_pool < p.cores
      → p.cores ≤ length m.pinned_core_pool + length m.isol_core_pool
      → p.strict ≡ true
      → Allocates p m (thrown runtime_error (logged (not_enough_isolated p.cores) m))
  short_blocked :
      p.affinity_type ≡ isolated
      → length m.isol_core_pool < p.cores
      → p.cores ≤ length m.pinned_core_pool + length m.isol_core_pool
      → p.strict ≡ false
      → Allocates p m blocked

module _ (p : ThreadPolicy) (m : CpuManager) (free : m.locked ≡ false) where
  short-Allocates :
      p.affinity_type ≡ isolated
      → length m.isol_core_pool < p.cores
      → p.cores ≤ length m.pinned_core_pool + length m.isol_core_pool
      → Allocates p m (allocate p m)
  short-Allocates e few h = elim (Bool-cases p.strict) [
    | inl s ↦ rw (allocate-strict p m free e few h s) (short_strict e few h s)
    | inr s ↦ rw (allocate-blocked p m free e few h s) (short_blocked e few h s)
  ]

  enough-Allocates :
      (a : AffinityType)
      → p.affinity_type ≡ a
      → p.cores ≤ available p.affinity_type m
      → Allocates p m (allocate p m)
  enough-Allocates normal e h =
      let few : p.cores ≤ length m.pinned_core_pool = ground arith in
      rw (allocate-normal p m free e few) (copied e few)
  enough-Allocates pinned e h =
      let (taken, rest, run, t) = allocate-pinned p m free e (ground arith) in
      rw (run, noted_lem m.pinned_core_pool rest m.isol_core_pool m) (pinned_taken e t)
  enough-Allocates isolated e h = elim (lt_or_le (length m.isol_core_pool) p.cores) [
    | inl few ↦ short-Allocates e few (ground arith)
    | inr enough ↦
        let (taken, rest, run, t) = allocate-isolated p m free e enough in
        rw (run, noted_lem m.pinned_core_pool m.pinned_core_pool rest m) (isolated_taken e t)
  ]

  -- While the mutex is free, `allocate` ends in one of the six ways: it throws and only logs; it copies
  -- the first cores of the pinned pool and changes nothing (NORMAL); it takes as many cores as were asked
  -- for off the back of one pool, leaves the rest there and the other pool as it was, and logs when that
  -- empties the pinned pool; or, if isolated cores run short and the policy is not strict, it blocks on
  -- its own mutex.
  pub allocate-Allocates : Allocates p m (allocate p m)
  allocate-Allocates = elim (lt_or_le (available p.affinity_type m) p.cores) [
    | inl few ↦ rw (allocate-refused p m free few) (refused few)
    | inr h ↦ enough-Allocates p.affinity_type refl h
  ]
