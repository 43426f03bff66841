-- ===== src/Flow/Mission/Run.antt =====
-- Mission.cpp: `start` and `stop`. `build` is the user's; `lowest` is `sched_get_priority_min`, and
-- `in_time` says of each worker, by its number, whether its thread reads its captures in time.
pub mod Cores
pub mod Few
pub mod Unprivileged
use pipeline_tools.Prelude.{ℕ, Bool, false, List, [], ◌∷◌, ◌++◌, length, reverse}
use pipeline_tools.Prelude.Int.{ℤ}
use pipeline_tools.Prelude.Outcome.{
  Outcome, done, thrown, blocked, undefined, out_of_fuel, terminated, Cmd, pure, ◌>>=◌, ◌>>◌,
}
use pipeline_tools.Threads.Policy.{ThreadPolicy, pinned}
use pipeline_tools.Threads.CpuManager.{CpuManager}
use pipeline_tools.Threads.Worker.{Pthread, Worker, System, absent}
use pipeline_tools.Threads.Worker
use pipeline_tools.Flow.Pipeline.{Pipeline}
use pipeline_tools.Flow.Mission.{Mission}

-- A worker, and the pipeline that its job executes until the worker is stopped.
pub record Job : Type 0 where
  pub worker : Worker
  pub pipeline : Pipeline

pub record Run : Type 0 where
  pub mission : Mission
  pub manager : CpuManager
  pub workers : List Job

abbrev pub lowest_policy : ℤ → ThreadPolicy
lowest_policy lowest = record {
  thread_name = [];
  cores = 1;
  affinity_type = pinned;
  strict = false;
  priority = lowest;
}

abbrev pub new_worker : ℤ → Worker
new_worker lowest = record {
  policy = lowest_policy lowest;
  allocated_cores = [];
  stop_flag = false;
  thread = absent;
  log = [];
}

-- The state in which the last worker has become that of `t`.
abbrev pub with_last : Run → Pipeline → System → Run
with_last r p t = record r {
  manager = t.manager;
  workers = r.workers ++ record { worker = t.worker; pipeline = p } ∷ [];
}

abbrev pub in_run : Run → Pipeline → Outcome System (Unit {0}) → Outcome Run (Unit {0})
in_run r p (done a t) = done a (with_last r p t)
in_run r p (thrown e t) = thrown e (with_last r p t)
in_run r p blocked = blocked
in_run r p undefined = undefined
in_run r p out_of_fuel = out_of_fuel
in_run r p terminated = terminated

abbrev pub built : Run → Outcome Mission (Unit {0}) → Outcome Run (Unit {0})
built r (done a m) = done a (record r { mission = m })
built r (thrown e m) = thrown e (record r { mission = m })
built r blocked = blocked
built r undefined = undefined
built r out_of_fuel = out_of_fuel
built r terminated = terminated

module _ (os : Pthread) (lowest : ℤ) (in_time : ℕ → Bool) (strict : Bool) where
  -- The body of the loop: a new worker at the end of the list, which is started there.
  unfoldable pub start_worker : Pipeline → Cmd Run (Unit {0})
  start_worker p r = in_run r p (
      Worker.start os (in_time (length r.workers)) strict
        (record { manager = r.manager; worker = new_worker lowest }))

  unfoldable pub start_each : List Pipeline → Cmd Run (Unit {0})
  unfolding start_worker
  start_each [] = pure tt
  start_each (p ∷ ps) = do start_worker p; start_each ps

  unfoldable pub start : (build : Cmd Mission (Unit {0})) → Cmd Run (Unit {0})
  unfolding start_each
  start build = do
    (λ r. built r (build r.mission))
    (λ r. start_each (reverse r.mission.pipelines) r)

-- `stop` of one worker, and of each from the last to the first.
unfoldable pub stop_worker : Job → CpuManager → Job × CpuManager
stop_worker j m =
    let s : System = Worker.stop (record { manager = m; worker = j.worker }) in
    (record j { worker = s.worker }, s.manager)

unfoldable pub stop_each : List Job → CpuManager → List Job × CpuManager
unfolding stop_worker
stop_each [] m = ([], m)
stop_each (j ∷ js) m =
    let (j', m') = stop_worker j m in let (js', m'') = stop_each js m' in (j' ∷ js', m'')

unfoldable pub stop : Run → Run
unfolding stop_each
stop r =
    let (js, m) = stop_each (reverse r.workers) r.manager in
    record r { workers = reverse js; manager = m }
