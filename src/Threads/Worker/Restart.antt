-- ===== src/Threads/Worker/Restart.antt =====
-- A worker that is stopped and started again: `stop` does not wait for the thread, and `start` clears the
-- flag before it waits for the thread of before.
use pipeline_tools.Prelude.{◌≡◌, Bool, true, false, List, ◌∷◌, arith}
use pipeline_tools.Prelude.Outcome.{Returns, done, blocked}
use pipeline_tools.Threads.Policy.{Core}
use pipeline_tools.Threads.CpuManager.{CpuManager, allocate}
use pipeline_tools.Threads.Worker.Lifecycle.{GetsReady, ready-at, cpu_ids}
use pipeline_tools.Threads.Worker.{Pthread, System, running, start, stop, job_ends}

-- The job of a started worker runs with the flag clear.
pub record Runs (t : System) : Type 0 where
  pub thread_runs : t.worker.thread ≡ running
  pub unstopped : t.worker.stop_flag ≡ false

module _ (os : Pthread) (t : System) (m : CpuManager) (d : Core) (ds : List Core) (runs : Runs t)
    (got : allocate t.worker.policy (stop t).manager ≡ done (d ∷ ds) m) where
  -- A running worker is stopped, and started again with cores at hand, where its thread gets to the job.
  -- If the job of before has seen the flag in between, the start returns with the new job running; if it
  -- has not, the start has cleared the flag, and waits for ever for the job of before.
  pub restart :
      (in_time strict : Bool)
      → GetsReady os strict t.worker.policy.priority
      → Returns (λ _ u. Runs u) (start os true strict (job_ends (stop t)))
        × (start os in_time strict (stop t) ≡ blocked)
  unfolding start stop job_ends
  restart in_time strict ready =
      let r = ready-at os strict t.worker.policy.priority (cpu_ids (d ∷ ds)) ready in
      (ground (arith, r), ground (arith, r))
