-- ===== src/Flow/Mission/Run/Unprivileged.antt =====
-- A strict mission in a process that may not set the priority of its threads.
use pipeline_tools.Prelude.{
  ◌⊎◌, ◌<◌, ◌≡◌, refl, true, false, List, [], ◌∷◌, reverse, arith, length, length-reverse, lt_or_le,
  inl, inr,
}
use pipeline_tools.Prelude.Int.{ℤ}
use pipeline_tools.Prelude.Outcome.{Cmd, done, thrown, terminated, runtime_error}
use pipeline_tools.Threads.Policy.{Core}
use pipeline_tools.Threads.CpuManager.{CpuManager, allocate, logged, not_enough}
use pipeline_tools.Threads.CpuManager.Pinned.{allocate-refused, allocate-Serves}
use pipeline_tools.Threads.Worker.{Pthread}
use pipeline_tools.Threads.Worker.Lifecycle.{start-unprivileged}
use pipeline_tools.Flow.Pipeline.{Pipeline}
use pipeline_tools.Flow.Mission.{Mission}
use pipeline_tools.Flow.Mission.Run.{
  Run, new_worker, lowest_policy, start_worker, start_each, start,
}

module _ (os : Pthread) (lowest : ℤ) (refused : os.setschedparam lowest ≡ false) where
  some_core :
      (m m' : CpuManager) (cs : List Core)
      → allocate (lowest_policy lowest) m ≡ done cs m'
      → length cs ≡ 1
      → (m'' : CpuManager) × (d : Core) × (ds : List Core) × (allocate (lowest_policy lowest) m
          ≡ done (d ∷ ds) m'')
  some_core m m' [] got one = absurd (omega (arith, one))
  some_core m m' (c ∷ cs) got one = (m', c, cs, got)

  served_or_refused :
      (m : CpuManager)
      → m.locked ≡ false
      → ((m' : CpuManager) × (d : Core) × (ds : List Core) × (allocate (lowest_policy lowest) m
            ≡ done (d ∷ ds) m'))
        ⊎ ((m' : CpuManager) × (allocate (lowest_policy lowest) m ≡ thrown runtime_error m'))
  served_or_refused m free = elim (lt_or_le (length m.pinned_core_pool) 1) [
    | inl few ↦
        inr (logged (not_enough 1) m, allocate-refused (lowest_policy lowest) m free refl few)
    | inr enough ↦
        let s = allocate-Serves (lowest_policy lowest) m free refl (omega arith) in
        inl (some_core m s.after s.cores s.returns s.as_many)
  ]

  start_each-unprivileged :
      (ps : List Pipeline) (r : Run)
      → r.manager.locked ≡ false
      → 0 < length ps
      → start_each os lowest (λ _. true) true ps r ≡ terminated
  unfolding start_each start_worker
  start_each-unprivileged [] r free some_one = absurd (omega arith)
  start_each-unprivileged (p ∷ ps) r free some_one =
      let first =
        start-unprivileged os (record { manager = r.manager; worker = new_worker lowest }) (λ e. cc)
          refused (served_or_refused r.manager free) in
      rw first refl

  -- Starting a strict mission without workers, whose pipelines are built and are one at least, ends the
  -- process in `std::terminate` where the priority may not be set, if the mutex of the manager is free and
  -- every thread reads its captures in time: whether there are cores or not.
  pub start-unprivileged_mission :
      (build : Cmd Mission (Unit {0})) (before after : Mission) (m : CpuManager)
      → build before ≡ done tt after
      → m.locked ≡ false
      → 0 < length after.pipelines
      → start os lowest
          (λ _. true)
          true
          build
          (record { mission = before; manager = m; workers = [] })
        ≡ terminated
  unfolding start
  start-unprivileged_mission build before after m e free some_one = rw e (
      start_each-unprivileged (reverse after.pipelines)
        (record { mission = after; manager = m; workers = [] }) free
        (omega (arith, length-reverse after.pipelines)))
