-- ===== src/Threads/CpuManager/Pinned.antt =====
-- A request for pinned cores that the pool can serve.
use pipeline_tools.Prelude.{
  ◌<◌, ℕ, ◌+◌, ◌≤◌, ◌≡◌, refl, ap, false, List, map, arith, length, length-append, length-reverse,
  length-map,
}
use pipeline_tools.Prelude.Int.{ℤ}
use pipeline_tools.Prelude.Outcome.{thrown, runtime_error, Outcome, done}
use pipeline_tools.Threads.Policy.{ThreadPolicy, Core, core, pinned}
use pipeline_tools.Threads.CpuManager.{CpuManager, allocate, available, logged, not_enough}
use pipeline_tools.Threads.CpuManager.Allocate.{
  with_pools, Allocates, refused, copied, pinned_taken, isolated_taken, short_strict, short_blocked,
  allocate-Allocates,
}
use pipeline_tools.Threads.CpuManager.Loops.{Taken}

-- The call returns as many cores as were asked for, and the pool is shorter by them.
pub record Serves (p : ThreadPolicy) (m : CpuManager) (r : Outcome CpuManager (List Core))
    : Type 0 where
  pub cores : List Core
  pub after : CpuManager
  pub returns : r ≡ done cores after
  pub as_many : length cores ≡ p.cores
  pub shorter : length after.pinned_core_pool + p.cores ≡ length m.pinned_core_pool

Taken-shorter :
    {n : ℕ} {pool taken rest : List ℤ} → Taken n pool taken rest → length rest + n ≡ length pool
Taken-shorter {taken = taken} {rest = rest} t =
    omega (arith, ap length t.whole, length-append rest _, length-reverse taken, t.size)

Allocates-Serves :
    (p : ThreadPolicy) (m : CpuManager) (r : Outcome CpuManager (List Core))
    → p.affinity_type ≡ pinned
    → p.cores ≤ length m.pinned_core_pool
    → Allocates p m r
    → Serves p m r
Allocates-Serves p m _ e enough (refused few) = absurd (omega (arith, ap (λ a. available a m) e))
Allocates-Serves p m _ e enough (copied a h) = absurd (cc)
Allocates-Serves p m _ e enough (pinned_taken {taken} {rest} a t) = record {
  cores = map (core pinned) taken;
  after = with_pools rest m.isol_core_pool m;
  returns = refl;
  as_many = omega (arith, length-map (core pinned) taken, t.size);
  shorter = Taken-shorter t;
}
Allocates-Serves p m _ e enough (isolated_taken a t) = absurd (cc)
Allocates-Serves p m _ e enough (short_strict a few h s) = absurd (cc)
Allocates-Serves p m _ e enough (short_blocked a few h s) = absurd (cc)

pub allocate-Serves :
    (p : ThreadPolicy) (m : CpuManager)
    → m.locked ≡ false
    → p.affinity_type ≡ pinned
    → p.cores ≤ length m.pinned_core_pool
    → Serves p m (allocate p m)
allocate-Serves p m free e enough = Allocates-Serves p m _ e enough (allocate-Allocates p m free)

-- One that the pool cannot serve.
Allocates-refused :
    (p : ThreadPolicy) (m : CpuManager) (r : Outcome CpuManager (List Core))
    → p.affinity_type ≡ pinned
    → length m.pinned_core_pool < p.cores
    → Allocates p m r
    → r ≡ thrown runtime_error (logged (not_enough p.cores) m)
Allocates-refused p m _ e few (refused _) = refl
Allocates-refused p m _ e few (copied a h) = absurd (cc)
Allocates-refused p m _ e few (pinned_taken a t) = absurd (omega (arith, Taken-shorter t))
Allocates-refused p m _ e few (isolated_taken a t) = absurd (cc)
Allocates-refused p m _ e few (short_strict a _ h s) = absurd (cc)
Allocates-refused p m _ e few (short_blocked a _ h s) = absurd (cc)

pub allocate-refused :
    (p : ThreadPolicy) (m : CpuManager)
    → m.locked ≡ false
    → p.affinity_type ≡ pinned
    → length m.pinned_core_pool < p.cores
    → allocate p m ≡ thrown runtime_error (logged (not_enough p.cores) m)
allocate-refused p m free e few = Allocates-refused p m _ e few (allocate-Allocates p m free)
