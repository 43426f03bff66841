-- ===== src/Threads/CpuManager/Race.antt =====
-- `deallocate` takes no mutex: a call of it between the copies of the pools in `allocate` and the end of
-- that call. The copies are the manager that `allocate_by` is given, the state is the one behind the
-- `deallocate`.
use pipeline_tools.Prelude.{◌≤◌, ◌≡◌, refl, List, [], ◌++◌, Perm, length}
use pipeline_tools.Prelude.Outcome.{Returns}
use pipeline_tools.Threads.Policy.{ThreadPolicy, pinned, Core}
use pipeline_tools.Threads.CpuManager.{CpuManager, M, allocate_by, deallocate}
use pipeline_tools.Threads.CpuManager.Loops.{take_cores-Taken}
use pipeline_tools.Threads.CpuManager.Conserves.{same, ids, ids_lem, Taken-perm, commit-Commits}

-- A call for pinned cores has copied the pools, which have enough of them, when another thread gives the
-- core `c` back: the call returns, and the pools are then, with the cores that it hands out, what the
-- copies were. So the core that was given back is in no pool, and out with no one.
pub return_lost :
    (self : ThreadPolicy → M (List Core)) (p : ThreadPolicy) (m : CpuManager) (c : Core)
    → p.cores ≤ length m.pinned_core_pool
    → Returns
        (λ cs t.
          Perm (t.pinned_core_pool ++ ids pinned cs) m.pinned_core_pool
          × (t.isol_core_pool ≡ m.isol_core_pool))
        (allocate_by self pinned p (length m.pinned_core_pool) m (deallocate c m))
unfolding allocate_by same
return_lost self p m c enough =
    let (taken, rest, run, t) =
      take_cores-Taken pinned p.cores m.pinned_core_pool [] (deallocate c m) enough in
    let k = commit-Commits (length m.pinned_core_pool) rest m.isol_core_pool (deallocate c m) in
    rw (run, k.pinned_set, k.isol_set, ids_lem pinned pinned taken) (Taken-perm t, refl)
