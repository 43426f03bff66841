-- ===== src/Flow/Mission/Tests.antt =====
-- The theorems on the queues of a mission at a mission without pipelines.
use pipeline_tools.Prelude.Int.{pos}
use pipeline_tools.Threads.CpuManager.{CpuManager}
use pipeline_tools.Threads.Worker.{Pthread}
use pipeline_tools.Threads.Worker.Lifecycle.{Restored}
use pipeline_tools.Flow.Mission.Run.{start, stop}
use pipeline_tools.Flow.Mission.Run.Few.{start-few}
use pipeline_tools.Flow.Mission.Run.Cores.{pipeline_of, stop-start_mission}
use pipeline_tools.Flow.Mission.Run.Unprivileged.{start-unprivileged_mission}
use pipeline_tools.Prelude.{inr, map, reverse, false, arith, ◌≡◌, refl, true, none, [], ◌∷◌}
use pipeline_tools.Prelude.Outcome.{undefined, terminated, done, Returns}
use pipeline_tools.Flow.Any.{plain, vector}
use pipeline_tools.Flow.Graph.{source, fanout, Flow}
use pipeline_tools.Flow.Mission.{Mission, take_unused}
use pipeline_tools.Flow.Mission.Joins.{joins, numbered, joins-numbered}

abbrev some_object : Flow
some_object = record {
  block = source;
  in_type = plain 1;
  out_type = plain 1;
  process = λ _. none;
  policy = fanout;
  next_nodes = [];
  calls = [];
  state = 0;
  producer_count = 0;
  latest = [];
  store = λ v. v;
  fetch = λ v. v;
  order = λ l. l;
}

abbrev no_pipelines : Mission
no_pipelines = record { pipelines = []; queues = []; graph = λ _. some_object; next_object = 0 }

joins-numbered_example :
    Returns
      (λ r m'. (r ≡ numbered 0 (plain 1 ∷ vector 1 ∷ [])) × (take_unused m'.queues ≡ none))
      (joins (plain 1 ∷ vector 1 ∷ []) no_pipelines)
unfolding take_unused
joins-numbered_example = joins-numbered (plain 1 ∷ vector 1 ∷ []) no_pipelines refl

-- A machine with three pinned cores, and a mission whose `build` adds two pipelines.
abbrev three_pinned : CpuManager
three_pinned = record {
  pinned_core_pool = pos 0 ∷ pos 1 ∷ pos 2 ∷ [];
  isol_core_pool = [];
  online_cores = pos 0 ∷ pos 1 ∷ pos 2 ∷ [];
  locked = false;
  log = [];
}

abbrev two_pipelines : Mission
two_pipelines = record no_pipelines {
  pipelines =
      record { sources = 1 ∷ []; nodes = [] } ∷ record { sources = 2 ∷ []; nodes = [] } ∷ [];
}

abbrev granted : Pthread
granted = record { setschedparam = λ _. true; setaffinity = λ _. true; setname = λ _. true }

stop-start_mission_example :
    Returns
      (λ _ r.
        (map pipeline_of r.workers ≡ reverse two_pipelines.pipelines)
        × Restored three_pinned (stop r).manager)
      (start granted
        (pos 1)
        (λ _. true)
        true
        (λ _. done tt two_pipelines)
        (record { mission = no_pipelines; manager = three_pinned; workers = [] }))
stop-start_mission_example =
    stop-start_mission three_pinned granted (pos 1) true (inr (refl, λ _. refl))
      (λ _. done tt two_pipelines) no_pipelines two_pipelines refl refl (omega arith)

abbrev one_pinned : CpuManager
one_pinned = record three_pinned { pinned_core_pool = pos 0 ∷ [] }

start-few_example :
    start granted
      (pos 1)
      (λ _. true)
      true
      (λ _. done tt two_pipelines)
      (record { mission = no_pipelines; manager = one_pinned; workers = [] })
    ≡ undefined
start-few_example =
    start-few one_pinned granted (pos 1) true (inr (refl, λ _. refl)) (λ _. done tt two_pipelines)
      no_pipelines two_pipelines refl refl (omega arith)

abbrev not_granted : Pthread
not_granted = record granted { setschedparam = λ _. false }

start-unprivileged_mission_example :
    start not_granted
      (pos 1)
      (λ _. true)
      true
      (λ _. done tt two_pipelines)
      (record { mission = no_pipelines; manager = three_pinned; workers = [] })
    ≡ terminated
start-unprivileged_mission_example =
    start-unprivileged_mission not_granted (pos 1) refl (λ _. done tt two_pipelines) no_pipelines
      two_pipelines three_pinned refl refl (omega arith)
