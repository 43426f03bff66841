-- ===== src/Threads/Tests.antt =====
-- The theorems on the allocator and the worker at small examples.
use mathlib.Core.List.{Nodup, Nodup-cons, Nodup-nil, not-mem-nil, mem-cons}
use mathlib.Core.Logic.Or
use mathlib.Core.List.Perm
use pipeline_tools.Prelude.{
  inr, ℕ, ◌≡◌, ◌≢◌, refl, true, false, some, List, [], ◌∷◌, ◌++◌, Perm, arith,
}
use pipeline_tools.Prelude.Int.{ℤ, pos}
use pipeline_tools.Prelude.Outcome.{blocked, done, thrown, runtime_error, Returns}
use pipeline_tools.Utils.Ranges.{parse_numeric_ranges}
use pipeline_tools.Threads.Policy.{AffinityType, pinned, isolated, ThreadPolicy, core}
use pipeline_tools.Threads.CpuManager.{
  back, pop_back, CpuManager, allocate, allocate_by, deallocate, deallocate_all, logged, not_enough,
}
use pipeline_tools.Threads.CpuManager.ParseCpus.{
  parse_cpus, parse_cpus-lem, parse_cpus-none_isolated,
}
use pipeline_tools.Threads.CpuManager.Allocate.{Allocates, allocate-Allocates}
use pipeline_tools.Threads.CpuManager.Conserves.{Conserves, ids}
use pipeline_tools.Threads.CpuManager.Race.{return_lost}
use pipeline_tools.Threads.CpuManager.Ledger.{
  Reach, here, next, allocates, returns, Reach-Conserves,
}
use pipeline_tools.Threads.Worker.{Pthread, System, absent, running, start, stop, job_ends}
use pipeline_tools.Threads.Worker.Restart.{Runs, restart}

-- Cores 0 and 1 are pinned ones, core 2 is isolated.
abbrev three_cores : CpuManager
three_cores = record {
  pinned_core_pool = pos 0 ∷ pos 1 ∷ [];
  isol_core_pool = pos 2 ∷ [];
  online_cores = pos 0 ∷ pos 1 ∷ pos 2 ∷ [];
  locked = false;
  log = [];
}

abbrev asks : AffinityType → ℕ → ThreadPolicy
asks a n = record {
  thread_name = [];
  cores = n;
  affinity_type = a;
  strict = false;
  priority = pos 0;
}

-- What is left behind two calls for one pinned core, and a return of the first one.
abbrev one_left : CpuManager
one_left = record three_cores { pinned_core_pool = pos 0 ∷ [] }

allocate-Allocates_example :
    Allocates (asks isolated 2) three_cores (allocate (asks isolated 2) three_cores)
allocate-Allocates_example = allocate-Allocates (asks isolated 2) three_cores refl

one_pinned : allocate (asks pinned 1) three_cores ≡ done (core pinned (pos 1) ∷ []) one_left
unfolding allocate back pop_back
one_pinned = refl

-- One core goes out, comes back and goes out again.
abbrev after_return : CpuManager
after_return = deallocate (core pinned (pos 1)) one_left

out_again : allocate (asks pinned 1) after_return ≡ done (core pinned (pos 1) ∷ []) one_left
unfolding allocate deallocate back pop_back
out_again = refl

there_and_back : Reach (three_cores, []) (one_left, core pinned (pos 1) ∷ [])
there_and_back =
    next
      (next (next here (allocates (asks pinned 1) one_pinned))
        (returns {held' = []} (core pinned (pos 1)) (Perm.refl _)))
      (allocates (asks pinned 1) out_again)

Reach-Conserves_example : Conserves three_cores (core pinned (pos 1) ∷ []) one_left
Reach-Conserves_example =
    Reach-Conserves three_cores one_left (core pinned (pos 1) ∷ []) refl there_and_back

pools_once : Nodup three_cores.pinned_core_pool
pools_once = Nodup-cons.1 (
  (λ h. Or.elim (λ a b. absurd a) (mem-cons.0 h) (λ same. absurd (cc)) not-mem-nil),
  Nodup-cons.1 (not-mem-nil, Nodup-nil),
)

parse_cpus-none_isolated_example :
    parse_cpus (some (b'0' ∷ b'-' ∷ b'1' ∷ [])) (some []) three_cores
    ≡ done tt (record three_cores {
      pinned_core_pool = pos 0 ∷ pos 1 ∷ [];
      isol_core_pool = [];
      online_cores = pos 0 ∷ pos 1 ∷ [];
    })
unfolding parse_numeric_ranges
parse_cpus-none_isolated_example =
    parse_cpus-none_isolated (b'0' ∷ b'-' ∷ b'1' ∷ []) three_cores (pos 0 ∷ pos 1 ∷ []) refl

parse_cpus-lem_example :
    (pool : List ℤ) × (parse_cpus (some (b'0' ∷ b'-' ∷ b'2' ∷ [])) (some (b'1' ∷ [])) three_cores
      ≡ done tt (record three_cores {
        pinned_core_pool = pool;
        isol_core_pool = pos 1 ∷ [];
        online_cores = pos 0 ∷ pos 1 ∷ pos 2 ∷ [];
      }))
    × Perm pool (pos 0 ∷ pos 2 ∷ [])
unfolding parse_numeric_ranges
parse_cpus-lem_example =
    parse_cpus-lem (b'0' ∷ b'-' ∷ b'2' ∷ []) (b'1' ∷ []) three_cores (pos 0 ∷ pos 1 ∷ pos 2 ∷ [])
      (pos 1 ∷ []) (pos 0 ∷ pos 2 ∷ []) refl refl (Perm.swap (pos 1) (pos 0) (pos 2 ∷ []))

abbrev privileged : Pthread
privileged = record { setschedparam = λ _. true; setaffinity = λ _. true; setname = λ _. true }

abbrev unprivileged : Pthread
unprivileged = record { setschedparam = λ _. false; setaffinity = λ _. true; setname = λ _. true }

-- A worker that has not been started, and asks for pinned cores.
abbrev idle : ℕ → System
idle n = record {
  manager = three_cores;
  worker = record {
    policy = asks pinned n;
    allocated_cores = [];
    stop_flag = false;
    thread = absent;
    log = [];
  };
}

not_running : absent ≢ running
not_running e = cc

too_many :
    allocate (asks pinned 3) three_cores ≡ thrown runtime_error (logged (not_enough 3) three_cores)
unfolding allocate
too_many = refl

-- The worker behind a start with the second pinned core.
abbrev started : System
started = record {
  manager = one_left;
  worker = record (idle 1).worker { allocated_cores = core pinned (pos 1) ∷ []; thread = running };
}

cores_back :
    allocate (asks pinned 1) (stop started).manager ≡ done (core pinned (pos 1) ∷ []) one_left
unfolding allocate stop deallocate_all deallocate back pop_back
cores_back = refl

restart_example :
    Returns (λ _ u. Runs u) (start privileged true true (job_ends (stop started)))
    × (start privileged false true (stop started) ≡ blocked)
restart_example =
    restart privileged started one_left (core pinned (pos 1)) []
      (record { thread_runs = refl; unstopped = refl }) cores_back false true
      (inr (refl, λ _. refl))

-- Core 1 is out and comes back while a call for core 0 is in progress.
return_lost_example :
    Returns
      (λ cs t.
        Perm (t.pinned_core_pool ++ ids pinned cs) (pos 0 ∷ []) × (t.isol_core_pool ≡ pos 2 ∷ []))
      (allocate_by
        (λ _ m. blocked)
        pinned
        (asks pinned 1)
        1
        one_left
        (deallocate (core pinned (pos 1)) one_left))
return_lost_example =
    return_lost (λ _ m. blocked) (asks pinned 1) one_left (core pinned (pos 1)) (omega arith)
