-- ===== src/Flow/Mission/Run/Cores.antt =====
-- The cores of a mission's workers.
use mathlib.Core.List.{filter_map, reverse-cons, perm_append_comm}
use mathlib.Core.List.Perm
use pipeline_tools.Prelude.{
  ◌+◌, ◌≤◌, ◌≡◌, refl, sym, ap, ◌∙◌, Bool, true, false, List, [], ◌∷◌, ◌++◌, map, map-append,
  reverse, Perm, append-nil, append_assoc, arith, length, length-reverse,
}
use pipeline_tools.Prelude.Int.{ℤ}
use pipeline_tools.Prelude.Outcome.{
  Outcome, Returns, Returns-mono, Returns-bind, Cmd, done, thrown, blocked, undefined, out_of_fuel,
  terminated,
}
use pipeline_tools.Threads.Policy.{Core}
use pipeline_tools.Threads.CpuManager.{CpuManager, allocate}
use pipeline_tools.Threads.CpuManager.Conserves.{Conserves-normal}
use pipeline_tools.Threads.CpuManager.Ledger.{
  deallocate_all-Balanced, Balanced-perm, allocates, Balanced, Step-Balanced,
}
use pipeline_tools.Threads.CpuManager.Pinned.{allocate-Serves}
use pipeline_tools.Threads.Worker.{Pthread, System}
use pipeline_tools.Threads.Worker
use pipeline_tools.Threads.Worker.Lifecycle.{GetsReady, Holds, start-Holds, Restored}
use pipeline_tools.Flow.Pipeline.{Pipeline}
use pipeline_tools.Flow.Mission.{Mission}
use pipeline_tools.Flow.Mission.Run.{
  Job, Run, new_worker, lowest_policy, with_last, in_run, start_worker, start_each, start,
  stop_each, stop,
}

-- The cores that the workers hold.
abbrev pub held : List Job → List Core
held [] = []
held (j ∷ js) = j.worker.allocated_cores ++ held js

held-append : (js ks : List Job) → held (js ++ ks) ≡ held js ++ held ks
held-append [] ks = refl
held-append (j ∷ js) ks =
    ap (◌++◌ j.worker.allocated_cores) (held-append js ks)
    ∙ sym (append_assoc j.worker.allocated_cores (held js) (held ks))

abbrev pub pipeline_of : Job → Pipeline
pipeline_of j = j.pipeline

-- From the manager `m`, workers for the pipelines `ps` have been added to those of `r`, and the cores that
-- they hold are missing in the pools, one pinned core for each.
pub record Started (m : CpuManager) (r : Run) (ps : List Pipeline) (r' : Run) : Type 0 where
  pub balanced : Balanced m (r'.manager, held r'.workers)
  pub one_each : map pipeline_of r'.workers ≡ map pipeline_of r.workers ++ ps
  pub left_over : length r'.manager.pinned_core_pool + length ps ≡ length r.manager.pinned_core_pool

in_run-Returns :
    (Q : Run → Type 0) (r : Run) (p : Pipeline) (o : Outcome System (Unit {0}))
    → Returns (λ _ t. Q (with_last r p t)) o
    → Returns (λ _ r'. Q r') (in_run r p o)
in_run-Returns Q r p (done a t) h = h
in_run-Returns Q r p (thrown e t) h = h
in_run-Returns Q r p blocked h = h
in_run-Returns Q r p undefined h = h
in_run-Returns Q r p out_of_fuel h = h
in_run-Returns Q r p terminated h = h

module _ (m : CpuManager) where
  Holds-Started :
      (lowest : ℤ) (r : Run) (p : Pipeline) (m' : CpuManager) (cs : List Core) (t : System)
      → Balanced m (r.manager, held r.workers)
      → allocate (lowest_policy lowest) r.manager ≡ done cs m'
      → length m'.pinned_core_pool + 1 ≡ length r.manager.pinned_core_pool
      → Holds m' cs t
      → Started m r (p ∷ []) (with_last r p t)
  Holds-Started lowest r p m' cs t b got enough h = record {
    balanced =
        rw
          (
            h.manager,
            held-append r.workers (record { worker = t.worker; pipeline = p } ∷ []),
            h.allocated,
            append-nil cs,
          )
          (Step-Balanced (allocates (lowest_policy lowest) got) b);
    one_each = map-append pipeline_of r.workers (record { worker = t.worker; pipeline = p } ∷ []);
    left_over = rw h.manager enough;
  }

  stop_each-Balanced :
      (js : List Job) (out : List Core) (m' : CpuManager)
      → Perm out (held js)
      → Balanced m (m', out)
      → Balanced m ((stop_each js m').1, [])
  unfolding stop_each Worker.stop
  stop_each-Balanced [] out m' e b = Balanced-perm m e b
  stop_each-Balanced (j ∷ js) out m' e b = stop_each-Balanced js (held js) _ (Perm.refl _) (
      deallocate_all-Balanced m j.worker.allocated_cores (held js) out m'
        (Perm.trans e (perm_append_comm j.worker.allocated_cores (held js))) b)

  held-reverse : (js : List Job) → Perm (held js) (held (reverse js))
  held-reverse [] = Perm.refl _
  held-reverse (j ∷ js) =
      rw (reverse-cons j js, held-append (reverse js) (j ∷ []), append-nil j.worker.allocated_cores)
        (Perm.trans (Perm.append_left j.worker.allocated_cores (held-reverse js))
          (perm_append_comm j.worker.allocated_cores (held (reverse js))))

  stop-Restored : (r : Run) → Balanced m (r.manager, held r.workers) → Restored m (stop r).manager
  unfolding stop filter_map
  stop-Restored r b =
      let k =
        stop_each-Balanced (reverse r.workers) (held r.workers) r.manager (held-reverse r.workers)
          b in
      record {
        pinned_back =
            rw (sym (append-nil (stop_each (reverse r.workers) r.manager).1.pinned_core_pool))
              k.pinned_kept;
        isol_back =
            rw (sym (append-nil (stop_each (reverse r.workers) r.manager).1.isol_core_pool))
              k.isol_kept;
      }

  module _ (os : Pthread) (lowest : ℤ) (strict : Bool) (ready : GetsReady os strict lowest) where
    start_worker_with :
        (p : Pipeline) (r : Run) (m' : CpuManager) (cs : List Core)
        → Balanced m (r.manager, held r.workers)
        → allocate (lowest_policy lowest) r.manager ≡ done cs m'
        → length cs ≡ 1
        → length m'.pinned_core_pool + 1 ≡ length r.manager.pinned_core_pool
        → Returns (λ _ r'. Started m r (p ∷ []) r') (start_worker os lowest (λ _. true) strict p r)
    unfolding start_worker
    start_worker_with p r m' [] b got one enough = absurd (omega (arith, one))
    start_worker_with p r m' (c ∷ cs) b got one enough =
        in_run-Returns (λ r'. Started m r (p ∷ []) r') r p _
          (Returns-mono _ (λ _ t h. Holds-Started lowest r p m' (c ∷ cs) t b got enough h)
            (start-Holds os strict (record { manager = r.manager; worker = new_worker lowest }) m' c
              cs ready (λ e. cc) got))

    pub start_worker-Started :
        (p : Pipeline) (r : Run)
        → Balanced m (r.manager, held r.workers)
        → 1 ≤ length r.manager.pinned_core_pool
        → Returns (λ _ r'. Started m r (p ∷ []) r') (start_worker os lowest (λ _. true) strict p r)
    start_worker-Started p r b enough =
        let s = allocate-Serves (lowest_policy lowest) r.manager b.unlocked refl (omega arith) in
        start_worker_with p r s.after s.cores b s.returns s.as_many (omega (arith, s.shorter))

    Started-cons :
        {p : Pipeline} {ps : List Pipeline} {r r1 r2 : Run}
        → Started m r (p ∷ []) r1
        → Started m r1 ps r2
        → Started m r (p ∷ ps) r2
    Started-cons {p = p} {ps = ps} {r = r} s t = record {
      balanced = t.balanced;
      one_each = t.one_each ∙ rw s.one_each (append_assoc (map pipeline_of r.workers) (p ∷ []) ps);
      left_over = omega (arith, s.left_over, t.left_over);
    }

    start_each-Started :
        (ps : List Pipeline) (r : Run)
        → Balanced m (r.manager, held r.workers)
        → length ps ≤ length r.manager.pinned_core_pool
        → Returns (λ _ r'. Started m r ps r') (start_each os lowest (λ _. true) strict ps r)
    unfolding start_each
    start_each-Started [] r b enough = record {
      balanced = b;
      one_each = sym (append-nil _);
      left_over = omega arith;
    }
    start_each-Started (p ∷ ps) r b enough =
        Returns-bind _ (start_worker os lowest (λ _. true) strict p r) _
          (start_worker-Started p r b (omega arith))
          (λ _ r1 s.
            Returns-mono (start_each os lowest (λ _. true) strict ps r1)
              (λ _ r2 t. Started-cons s t)
              (start_each-Started ps r1 s.balanced (omega (arith, s.left_over))))

    -- A mission without workers, whose pipelines are built and are no more than the pinned cores of a
    -- manager with a free mutex, starts, if every thread reads its captures in time and, when strict, may
    -- set its priority and its affinity: it then has one worker for each pipeline, from the last to the first, and stopping it leaves both pools with the
    -- cores that they had, though perhaps in another order.
    pub stop-start_mission :
        (build : Cmd Mission (Unit {0})) (before after : Mission)
        → build before ≡ done tt after
        → m.locked ≡ false
        → length after.pipelines ≤ length m.pinned_core_pool
        → Returns
            (λ _ r.
              (map pipeline_of r.workers ≡ reverse after.pipelines) × Restored m (stop r).manager)
            (start os lowest
              (λ _. true)
              strict
              build
              (record { mission = before; manager = m; workers = [] }))
    unfolding start
    stop-start_mission build before after e free enough = rw e (
        Returns-mono
          {Q = λ _ r.
            (map pipeline_of r.workers ≡ reverse after.pipelines) × Restored m (stop r).manager}
          _ (λ _ r s. (s.one_each, stop-Restored r s.balanced))
          (start_each-Started (reverse after.pipelines)
            (record { mission = after; manager = m; workers = [] }) (Conserves-normal m [] free)
            (omega (arith, length-reverse after.pipelines))))
