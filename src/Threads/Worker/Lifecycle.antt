-- ===== src/Threads/Worker/Lifecycle.antt =====
-- Starting and stopping a worker: the cores that it takes and gives back, and the ways to fail.
use mathlib.Core.List.{filter_map, filter_map-append}
use pipeline_tools.Prelude.{
  inr, inl, ◌⊎◌, ◌≡◌, ◌≢◌, refl, sym, ap, ◌∙◌, Bool, true, false, List, [], ◌∷◌, ◌++◌, map, Perm,
  append-nil, append_assoc, arith,
}
use pipeline_tools.Prelude.Int.{ℤ}
use pipeline_tools.Prelude.Outcome.{Returns-mono, Returns, done, thrown, undefined, runtime_error}
use pipeline_tools.Threads.Policy.{pinned, isolated, Core}
use pipeline_tools.Threads.CpuManager.{CpuManager, allocate, deallocate, deallocate_all}
use pipeline_tools.Threads.CpuManager.Conserves.{id_as, ids, allocate-Conserves, deallocate-pools}
use pipeline_tools.Threads.Worker.{
  failed_allocating, with_log, Pthread, System, running, terminated, with_stop_flag, with_manager,
  start, stop,
}

-- What `deallocate` of a vector does to the pools.
pub deallocate_all-pools :
    (cs : List Core) (m : CpuManager)
    → ((deallocate_all cs m).pinned_core_pool ≡ m.pinned_core_pool ++ ids pinned cs)
      × ((deallocate_all cs m).isol_core_pool ≡ m.isol_core_pool ++ ids isolated cs)
unfolding deallocate_all filter_map
deallocate_all-pools [] m = (sym (append-nil _), sym (append-nil _))
deallocate_all-pools (c ∷ cs) m =
    let one = deallocate-pools c m in
    let rest = deallocate_all-pools cs (deallocate c m) in
    (
      rest.0
          ∙ rw (one.0, append_assoc)
              (ap (◌++◌ m.pinned_core_pool) (sym (filter_map-append (id_as pinned) (c ∷ []) cs))),
      rest.1
          ∙ rw (one.1, append_assoc)
              (ap (◌++◌ m.isol_core_pool) (sym (filter_map-append (id_as isolated) (c ∷ []) cs))),
    )

-- The pools that a started worker leaves behind when it is stopped.
pub record Restored (m m' : CpuManager) : Type 0 where
  pub pinned_back : Perm m'.pinned_core_pool m.pinned_core_pool
  pub isol_back : Perm m'.isol_core_pool m.isol_core_pool

-- The worker holds the cores `cs` that the manager `m` is without.
pub record Holds (m : CpuManager) (cs : List Core) (t : System) : Type 0 where
  pub allocated : t.worker.allocated_cores ≡ cs
  pub unstopped : t.worker.stop_flag ≡ false
  pub manager : t.manager ≡ m

-- A thread with this priority gets to its job: it is not strict, or it may set the priority and any
-- affinity.
abbrev pub GetsReady : Pthread → Bool → ℤ → Type 0
GetsReady os strict priority =
    (strict ≡ false)
    ⊎ ((os.setschedparam priority ≡ true) × ((cpus : List ℤ) → os.setaffinity cpus ≡ true))

-- The same of one mask.
pub ready-at :
    (os : Pthread) (strict : Bool) (priority : ℤ) (cpus : List ℤ)
    → GetsReady os strict priority
    → (strict ≡ false) ⊎ ((os.setschedparam priority ≡ true) × (os.setaffinity cpus ≡ true))
ready-at os strict priority cpus (inl lax) = inl lax
ready-at os strict priority cpus (inr (p, a)) = inr (p, a cpus)

abbrev pub cpu_ids : List Core → List ℤ
cpu_ids = map (λ c. c.cpu_id)

module _ (os : Pthread) (strict : Bool) (s : System) (m : CpuManager) (c : Core) (cs : List Core)
    (ready : GetsReady os strict s.worker.policy.priority) (idle : s.worker.thread ≢ running)
    (got : allocate s.worker.policy s.manager ≡ done (c ∷ cs) m) where
  -- With cores at hand and a thread that reads its captures in time, `start` returns: the worker holds
  -- the cores that were allocated, its flag is clear, and the manager is left as `allocate` left it.
  pub start-Holds : Returns (λ _ t. Holds m (c ∷ cs) t) (start os true strict s)
  unfolding start
  start-Holds = ground (arith, ready-at os strict s.worker.policy.priority (cpu_ids (c ∷ cs)) ready)

  -- A thread that reads its captures after `start` has returned reads a dead stack frame.
  pub start-late : start os false strict s ≡ undefined
  unfolding start
  start-late = ground arith

  Holds-Restored :
      (t : System)
      → s.manager.locked ≡ false
      → Holds m (c ∷ cs) t
      → Restored s.manager (stop t).manager
  unfolding stop
  Holds-Restored t free h =
      let pools = deallocate_all-pools (c ∷ cs) m in
      let k = allocate-Conserves s.worker.policy s.manager m (c ∷ cs) free got in
      rw (h.allocated, h.manager)
        (record { pinned_back = rw pools.0 k.pinned_kept; isol_back = rw pools.1 k.isol_kept })

  -- A worker that was started with cores at hand and then stopped leaves both pools with the cores
  -- that they had, though perhaps in another order.
  pub stop-start :
      s.manager.locked ≡ false
      → Returns (λ _ t. Restored s.manager (stop t).manager) (start os true strict s)
  stop-start free =
      Returns-mono (start os true strict s) (λ _ t h. Holds-Restored t free h) start-Holds

-- The destructor stops the worker once more; that gives no core back a second time.
pub stop-stop : (s : System) → stop (stop s) ≡ stop s
unfolding stop
stop-stop s = refl

-- If the manager refuses, `start` does not see it: the thread passes a mask on that was never
-- written, unless the priority fails first in strict mode.
pub start-short :
    (os : Pthread) (strict : Bool) (s : System) (m : CpuManager)
    → s.worker.thread ≢ running
    → allocate s.worker.policy s.manager ≡ thrown runtime_error m
    → s.worker.policy.cores ≢ 0
    → (os.setschedparam s.worker.policy.priority ≡ true) ⊎ (strict ≡ false)
    → start os true strict s ≡ undefined
unfolding start
start-short os strict s m idle short some_cores h = ground arith

-- A policy that asks for no core cannot be started.
pub start-none :
    (os : Pthread) (in_time strict : Bool) (s : System) (m : CpuManager)
    → allocate s.worker.policy s.manager ≡ done [] m
    → start os in_time strict s
      ≡ thrown runtime_error (with_log failed_allocating (with_manager m (with_stop_flag false s)))
unfolding start
start-none os in_time strict s m e = ground arith

-- Without the privilege to set the priority, a strict start ends the process, whether the manager has
-- cores or not.
pub start-unprivileged :
    (os : Pthread) (s : System)
    → s.worker.thread ≢ running
    → os.setschedparam s.worker.policy.priority ≡ false
    → ((m : CpuManager) × (c : Core) × (cs : List Core) × (allocate s.worker.policy s.manager
          ≡ done (c ∷ cs) m))
      ⊎ ((m : CpuManager) × (allocate s.worker.policy s.manager ≡ thrown runtime_error m))
    → start os true true s ≡ terminated
unfolding start
start-unprivileged os s idle p (inl (m, c, cs, got)) = ground (arith, got, p)
start-unprivileged os s idle p (inr (m, short)) = ground (arith, short, p)
