-- ===== src/Threads/Worker.antt =====
-- core/src/utils/threads/Worker.h and Worker.cpp: one worker, with the manager of cores that it
-- shares. The calls of pthread are a parameter, by their results. The job is taken to run until it
-- sees the stop flag, as the one that Mission.cpp passes does; what the new thread does before its job is
-- taken to be done before `start` goes on.
pub mod Lifecycle
pub mod Restart
use pipeline_tools.Prelude.{
  ℕ, Bool, true, false, Option, none, some, List, [], ◌∷◌, ◌++◌, map, ◌==◌, ◌||◌, not,
  if◌then◌else◌, is_empty,
}
use pipeline_tools.Prelude.Int.{ℤ}
use pipeline_tools.Prelude.Outcome.{
  Exception, Outcome, done, thrown, blocked, undefined, out_of_fuel, terminated, runtime_error, Cmd,
  pure, throw, ◌>>=◌, ◌>>◌, modify,
}
use pipeline_tools.Threads.Policy.{ThreadPolicy, Core}
use pipeline_tools.Threads.CpuManager.{CpuManager, allocate, deallocate_all}

-- Whether a call succeeds: `pthread_setschedparam`, `pthread_setaffinity_np` on the set of cores, and
-- `pthread_setname_np`.
pub record Pthread : Type 0 where
  pub setschedparam : ℤ → Bool
  pub setaffinity : List ℤ → Bool
  pub setname : List ℕ → Bool

-- A thread whose job has returned is `absent`: joining it does not wait.
pub data Thread : Type 0 where
  absent running : Thread

pub data Line : Type 0 where
  failed_allocating no_priority no_affinity no_name : Line

pub record Worker : Type 0 where
  pub policy : ThreadPolicy
  pub allocated_cores : List Core
  pub stop_flag : Bool
  pub thread : Thread
  pub log : List Line

pub record System : Type 0 where
  pub manager : CpuManager
  pub worker : Worker

abbrev pub M : Type 0 → Type 0
M A = Cmd System A

abbrev pub with_log : Line → System → System
with_log l s = record s { worker = record s.worker { log = s.worker.log ++ l ∷ [] } }

abbrev pub with_stop_flag : Bool → System → System
with_stop_flag b s = record s { worker = record s.worker { stop_flag = b } }

abbrev pub with_cores : List Core → System → System
with_cores cs s = record s { worker = record s.worker { allocated_cores = cs } }

abbrev pub with_thread : Thread → System → System
with_thread t s = record s { worker = record s.worker { thread = t } }

abbrev pub with_manager : CpuManager → System → System
with_manager m s = record s { manager = m }

-- What `allocate_cores` returns, and the mask: `none` where nothing was written to it.
abbrev pub Mask : Type 0
Mask = Option (List ℤ)

-- The rest of `allocate_cores` behind the call of `allocate`. Only a `runtime_error` is caught; the
-- cores that the handler gives back are the empty vector from before the call.
unfoldable pub after_allocate :
    System → Outcome CpuManager (List Core) → Outcome System (Bool × Mask)
after_allocate s (done cores m) =
    let s' : System = with_manager m s in
    if is_empty cores
    then thrown runtime_error (with_log failed_allocating s')
    else done (true, some (map (λ c. c.cpu_id) cores)) (with_cores cores s')
after_allocate s (thrown runtime_error m) =
    done (false, none) (with_manager (deallocate_all [] m) s)
after_allocate s (thrown e m) = thrown e (with_manager m s)
after_allocate s blocked = blocked
after_allocate s undefined = undefined
after_allocate s out_of_fuel = out_of_fuel
after_allocate s terminated = terminated

unfoldable pub allocate_cores : M (Bool × Mask)
unfolding after_allocate
allocate_cores s = after_allocate s (allocate s.worker.policy s.manager)

module _ (os : Pthread) where
  -- A mask that was never written is read where it is passed on.
  unfoldable pub set_affinity : Mask → M Bool
  set_affinity mask s =
      if s.worker.policy.cores == 0
      then done true s
      else elim mask [ none ↦ undefined | some cpus ↦ done (os.setaffinity cpus) s ]

  unfoldable pub set_priority : M Bool
  set_priority s = done (os.setschedparam s.worker.policy.priority) s

  unfoldable pub set_name : M Bool
  set_name s =
      let name = s.worker.policy.thread_name in
      done (if is_empty name then true else os.setname name) s

  -- The report of a failure, which is an exception in strict mode.
  abbrev pub check : Bool → Bool → Line → M (Unit {0})
  check true strict l = pure tt
  check false strict l = do
    modify (with_log l)
    if strict then (do modify (with_log l); throw runtime_error) else pure tt

  -- `worker_target` up to the call of the job.
  unfoldable pub worker_target : Bool → Mask → M (Unit {0})
  unfolding set_affinity set_priority set_name
  worker_target strict mask = do
    p ← set_priority
    check p strict no_priority
    a ← set_affinity mask
    check a strict no_affinity
    n ← set_name
    check n false no_name

  -- An exception that leaves the function of a thread ends the process.
  abbrev pub thread_result : Outcome System (Unit {0}) → Outcome System (Unit {0})
  thread_result (done _ s) = done tt s
  thread_result (thrown e s) = terminated
  thread_result blocked = blocked
  thread_result undefined = undefined
  thread_result out_of_fuel = out_of_fuel
  thread_result terminated = terminated

  -- Whether a thread that is joined runs on for ever: its job ends once the flag is set.
  abbrev pub never_ends : Worker → Bool
  never_ends w = elim w.thread [ absent ↦ false | running ↦ not w.stop_flag ]

  -- The assignment to `work_thread` joins the thread that it held, then holds the new one.
  unfoldable pub assign_thread : M (Unit {0})
  assign_thread s = if never_ends s.worker then blocked else done tt (with_thread running s)

  -- `start`. The new thread is there, and runs `worker_target` up to its job, before the assignment joins
  -- the old one. It reads `strict` and `mask` through references to locals of `start`: `in_time` says
  -- whether it does so before `start` returns, if that returns; while it waits for the old thread, the
  -- locals are there. The flag that `allocate_cores` returns is dropped.
  unfoldable pub start : (in_time strict : Bool) → M (Unit {0})
  unfolding allocate_cores worker_target assign_thread
  start in_time strict = do
    modify (with_stop_flag false)
    (_, mask) ← allocate_cores
    λ s.
        if in_time || never_ends s.worker
        then (do (λ t. thread_result (worker_target strict mask t)); assign_thread) s
        else undefined

-- `stop`, which the destructor calls again.
unfoldable pub stop : System → System
unfolding deallocate_all
stop s =
    let s' : System = with_stop_flag true s in
    with_cores [] (with_manager (deallocate_all s.worker.allocated_cores s.manager) s')

-- The job returns once it sees the flag.
unfoldable pub job_ends : System → System
job_ends s = if s.worker.stop_flag then with_thread absent s else s
