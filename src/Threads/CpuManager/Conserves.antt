-- ===== src/Threads/CpuManager/Conserves.antt =====
-- A successful call of `allocate` moves cores from the pools to the caller, one that throws moves none.
use mathlib.Core.List.{filter_map, reverse_perm}
use mathlib.Core.List.Perm
use pipeline_tools.Prelude.{
  ℕ, ◌≡◌, refl, ◌∙◌, Bool, true, false, Option, none, some, List, [], ◌∷◌, ◌++◌, map, Perm,
  append-nil, arith, Bool-cases, inl, inr, if◌then◌else◌,
}
use pipeline_tools.Prelude.Int.{ℤ}
use pipeline_tools.Prelude.Outcome.{Outcome, Exception, thrown, done}
use pipeline_tools.Threads.Policy.{AffinityType, normal, pinned, isolated, ThreadPolicy, Core, core}
use pipeline_tools.Threads.CpuManager.{CpuManager, commit, allocate, deallocate}
use pipeline_tools.Threads.CpuManager.Loops.{Taken}
use pipeline_tools.Threads.CpuManager.Allocate.{
  with_pools, Allocates, refused, copied, pinned_taken, isolated_taken, short_strict, short_blocked,
  allocate-Allocates,
}

unfoldable pub same : AffinityType → AffinityType → Bool
same normal normal = true
same pinned pinned = true
same isolated isolated = true
same _ _ = false

-- The id of a core that was handed out as `a`.
unfoldable pub id_as : AffinityType → Core → Option ℤ
unfolding same
id_as a c = if same a c.affinity_type then some c.cpu_id else none

abbrev pub ids : AffinityType → List Core → List ℤ
ids a = filter_map (id_as a)

pub ids_lem :
    (a b : AffinityType) (l : List ℤ) → ids a (map (core b) l) ≡ (if same a b then l else [])
unfolding filter_map id_as
ids_lem a b [] = ground arith
ids_lem a b (x ∷ l) = elim (Bool-cases (same a b)) [
  | inl e ↦ ground (arith, ids_lem a b l)
  | inr e ↦ ground (arith, ids_lem a b l)
]

-- The pinned and the isolated cores of `cs` and of the pools of `m'` are those of the pools of `m`.
pub record Conserves (m : CpuManager) (cs : List Core) (m' : CpuManager) : Type 0 where
  pub pinned_kept : Perm (m'.pinned_core_pool ++ ids pinned cs) m.pinned_core_pool
  pub isol_kept : Perm (m'.isol_core_pool ++ ids isolated cs) m.isol_core_pool
  pub unlocked : m'.locked ≡ false
  pub online_kept : m'.online_cores ≡ m.online_cores

pub Taken-perm :
    {n : ℕ} {pool taken rest : List ℤ} → Taken n pool taken rest → Perm (rest ++ taken) pool
Taken-perm {taken} {rest} t = rw t.whole (Perm.append_left rest (Perm.symm (reverse_perm taken)))

Conserves-done :
    {m m₁ m₂ : CpuManager} {cs₁ cs₂ : List Core}
    → done cs₁ m₁ ≡ done cs₂ m₂
    → Conserves m cs₁ m₁
    → Conserves m cs₂ m₂
Conserves-done {m₁} {m₂} {cs₁} {cs₂} e k =
    let ec : cs₁ ≡ cs₂ = cc in let em : m₁ ≡ m₂ = cc in rw (← ec, ← em) k

-- `commit` puts the two pools in place and touches nothing else but the log.
pub record Commits (pins isols : List ℤ) (m m' : CpuManager) : Type 0 where
  pub pinned_set : m'.pinned_core_pool ≡ pins
  pub isol_set : m'.isol_core_pool ≡ isols
  pub lock_kept : m'.locked ≡ m.locked
  pub online_kept : m'.online_cores ≡ m.online_cores

pub commit-Commits :
    (n : ℕ) (pins isols : List ℤ) (m : CpuManager) → Commits pins isols m (commit n pins isols m)
unfolding commit
commit-Commits n pins isols m = ground arith

with_pools-Commits :
    (pins isols : List ℤ) (m : CpuManager) → Commits pins isols m (with_pools pins isols m)
with_pools-Commits pins isols m = record {
  pinned_set = refl;
  isol_set = refl;
  lock_kept = refl;
  online_kept = refl;
}

module _ {m m' : CpuManager} {pins isols taken : List ℤ} (free : m.locked ≡ false)
    (c : Commits pins isols m m') where
  Conserves-pinned :
      {n : ℕ}
      → isols ≡ m.isol_core_pool
      → Taken n m.pinned_core_pool taken pins
      → Conserves m (map (core pinned) taken) m'
  unfolding same
  Conserves-pinned e t = record {
    pinned_kept = rw (c.pinned_set, ids_lem pinned pinned taken) (Taken-perm t);
    isol_kept = rw (c.isol_set, ids_lem isolated pinned taken, e, append-nil) (Perm.refl _);
    unlocked = c.lock_kept ∙ free;
    online_kept = c.online_kept;
  }

  Conserves-isolated :
      {n : ℕ}
      → pins ≡ m.pinned_core_pool
      → Taken n m.isol_core_pool taken isols
      → Conserves m (map (core isolated) taken) m'
  unfolding same
  Conserves-isolated e t = record {
    pinned_kept = rw (c.pinned_set, ids_lem pinned isolated taken, e, append-nil) (Perm.refl _);
    isol_kept = rw (c.isol_set, ids_lem isolated isolated taken) (Taken-perm t);
    unlocked = c.lock_kept ∙ free;
    online_kept = c.online_kept;
  }

pub Conserves-normal :
    (m : CpuManager) (l : List ℤ) → m.locked ≡ false → Conserves m (map (core normal) l) m
unfolding same
Conserves-normal m l free = record {
  pinned_kept = rw (ids_lem pinned normal l, append-nil) (Perm.refl _);
  isol_kept = rw (ids_lem isolated normal l, append-nil) (Perm.refl _);
  unlocked = free;
  online_kept = refl;
}

Conserves-of :
    {p : ThreadPolicy} {m m' : CpuManager} {cs : List Core} {r : Outcome CpuManager (List Core)}
    → m.locked ≡ false
    → Allocates p m r
    → r ≡ done cs m'
    → Conserves m cs m'
Conserves-of free (refused few) e = absurd (cc)
Conserves-of {m} free (copied a h) e = Conserves-done e (Conserves-normal m _ free)
Conserves-of {m} free (pinned_taken {rest} a t) e =
    Conserves-done e (Conserves-pinned free (with_pools-Commits rest m.isol_core_pool m) refl t)
Conserves-of {m} free (isolated_taken {rest} a t) e =
    Conserves-done e (Conserves-isolated free (with_pools-Commits m.pinned_core_pool rest m) refl t)
Conserves-of free (short_strict a few h s) e = absurd (cc)
Conserves-of free (short_blocked a few h s) e = absurd (cc)

-- A call of `allocate` that returns, made while the mutex is free, keeps the pinned and the isolated
-- cores, those returned and those in the pools together, what the pools were; it leaves the mutex free
-- and keeps the list of online cores.
pub allocate-Conserves :
    (p : ThreadPolicy) (m m' : CpuManager) (cs : List Core)
    → m.locked ≡ false
    → allocate p m ≡ done cs m'
    → Conserves m cs m'
allocate-Conserves p m m' cs free = Conserves-of free (allocate-Allocates p m free)

pub pools_kept :
    {p : ThreadPolicy} {m m' : CpuManager} {x : Exception} {r : Outcome CpuManager (List Core)}
    → Allocates p m r
    → r ≡ thrown x m'
    → Commits m.pinned_core_pool m.isol_core_pool m m'
pools_kept (refused few) e = ground arith
pools_kept (copied a h) e = absurd (cc)
pools_kept (pinned_taken a t) e = absurd (cc)
pools_kept (isolated_taken a t) e = absurd (cc)
pools_kept (short_strict a few h s) e = ground arith
pools_kept (short_blocked a few h s) e = absurd (cc)

pub deallocate-pools :
    (c : Core) (m : CpuManager)
    → ((deallocate c m).pinned_core_pool ≡ m.pinned_core_pool ++ ids pinned (c ∷ []))
      × ((deallocate c m).isol_core_pool ≡ m.isol_core_pool ++ ids isolated (c ∷ []))
      × ((deallocate c m).locked ≡ m.locked)
      × ((deallocate c m).online_cores ≡ m.online_cores)
unfolding deallocate filter_map id_as
deallocate-pools c m = ground (arith, append-nil m.pinned_core_pool, append-nil m.isol_core_pool)
