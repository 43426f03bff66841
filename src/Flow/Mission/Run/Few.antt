-- ===== src/Flow/Mission/Run/Few.antt =====
-- A mission with more pipelines than pinned cores.
use pipeline_tools.Prelude.{
  ◌⊎◌, ◌<◌, ◌≡◌, refl, ap, Bool, true, false, List, [], ◌∷◌, reverse, arith, length, length-reverse,
  lt_or_le, inl, inr,
}
use pipeline_tools.Prelude.Int.{ℤ}
use pipeline_tools.Prelude.Outcome.{
  Outcome, Returns, Cmd, and_then, done, thrown, blocked, undefined, out_of_fuel, terminated,
}
use pipeline_tools.Threads.CpuManager.{CpuManager, logged, not_enough}
use pipeline_tools.Threads.CpuManager.Conserves.{Conserves-normal}
use pipeline_tools.Threads.CpuManager.Ledger.{Balanced}
use pipeline_tools.Threads.CpuManager.Pinned.{allocate-refused}
use pipeline_tools.Threads.Worker.{Pthread}
use pipeline_tools.Threads.Worker.Lifecycle.{GetsReady, start-short}
use pipeline_tools.Flow.Pipeline.{Pipeline}
use pipeline_tools.Flow.Mission.{Mission}
use pipeline_tools.Flow.Mission.Run.{
  Run, new_worker, lowest_policy, in_run, start_worker, start_each, start,
}
use pipeline_tools.Flow.Mission.Run.Cores.{held, start_worker-Started}

Returns-undefined :
    {S A B : Type 0} {P : A → S → Type 0} (o : Outcome S A) (k : A → Cmd S B)
    → Returns P o
    → ((a : A) (s : S) → P a s → k a s ≡ undefined)
    → and_then o k ≡ undefined
Returns-undefined (done a s) k h f = f a s h
Returns-undefined (thrown e s) k h f = absurd h
Returns-undefined blocked k h f = absurd h
Returns-undefined undefined k h f = absurd h
Returns-undefined out_of_fuel k h f = absurd h
Returns-undefined terminated k h f = absurd h

priority_set :
    (os : Pthread) (strict : Bool) (priority : ℤ)
    → GetsReady os strict priority
    → (os.setschedparam priority ≡ true) ⊎ (strict ≡ false)
priority_set os strict priority (inl lax) = inr lax
priority_set os strict priority (inr (p, a)) = inl p

module _ (m : CpuManager) (os : Pthread) (lowest : ℤ) (strict : Bool)
    (ready : GetsReady os strict lowest) where
  start_worker-none :
      (p : Pipeline) (r : Run)
      → Balanced m (r.manager, held r.workers)
      → length r.manager.pinned_core_pool < 1
      → start_worker os lowest (λ _. true) strict p r ≡ undefined
  unfolding start_worker
  start_worker-none p r b none_left = ap (in_run r p) (
      start-short os strict (record { manager = r.manager; worker = new_worker lowest })
        (logged (not_enough 1) r.manager) (λ e. cc)
        (allocate-refused (lowest_policy lowest) r.manager b.unlocked refl none_left) (omega arith)
        (priority_set os strict lowest ready))

  start_each-few :
      (ps : List Pipeline) (r : Run)
      → Balanced m (r.manager, held r.workers)
      → length r.manager.pinned_core_pool < length ps
      → start_each os lowest (λ _. true) strict ps r ≡ undefined
  unfolding start_each
  start_each-few [] r b few = absurd (omega arith)
  start_each-few (p ∷ ps) r b few = elim (lt_or_le (length r.manager.pinned_core_pool) 1) [
    | inl none_left ↦ rw (start_worker-none p r b none_left) refl
    | inr some_left ↦
        Returns-undefined (start_worker os lowest (λ _. true) strict p r) _
          (start_worker-Started m os lowest strict ready p r b some_left)
          (λ _ r1 s. start_each-few ps r1 s.balanced (omega (arith, s.left_over)))
  ]

  -- Starting a mission without workers, whose pipelines are built and are more than the pinned cores of a
  -- manager with a free mutex, is undefined behaviour, if every thread reads its captures in time and,
  -- when strict, may set its priority and its affinity.
  pub start-few :
      (build : Cmd Mission (Unit {0})) (before after : Mission)
      → build before ≡ done tt after
      → m.locked ≡ false
      → length m.pinned_core_pool < length after.pipelines
      → start os lowest
          (λ _. true)
          strict
          build
          (record { mission = before; manager = m; workers = [] })
        ≡ undefined
  unfolding start
  start-few build before after e free few = rw e (
      start_each-few (reverse after.pipelines)
        (record { mission = after; manager = m; workers = [] }) (Conserves-normal m [] free)
        (omega (arith, length-reverse after.pipelines)))
