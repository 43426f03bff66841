-- ===== src/Threads/CpuManager/Ledger.antt =====
-- The pools against the cores that are out: no sequence of calls loses a core or hands one out twice.
use mathlib.Core.List.{filter_map, filter_map-append, Nodup, perm_append_comm}
use mathlib.Core.List.Perm
use pipeline_tools.Prelude.{◌≡◌, ◌∙◌, false, List, [], ◌∷◌, ◌++◌, Perm, append_assoc, append-nil}
use pipeline_tools.Prelude.Outcome.{Exception, thrown, done}
use pipeline_tools.Threads.Policy.{AffinityType, pinned, isolated, ThreadPolicy, Core}
use pipeline_tools.Threads.CpuManager.{CpuManager, allocate, deallocate, deallocate_all}
use pipeline_tools.Threads.CpuManager.Allocate.{allocate-Allocates}
use pipeline_tools.Threads.CpuManager.Conserves.{
  ids, id_as, Conserves, Conserves-normal, allocate-Conserves, pools_kept, deallocate-pools,
}

-- The manager and the cores that are out. A core comes back at most once for each time that it went out.
pub data Step : CpuManager × List Core → CpuManager × List Core → Type 0 where
  allocates :
      {m m' : CpuManager} {held cs : List Core} (p : ThreadPolicy)
      → allocate p m ≡ done cs m'
      → Step (m, held) (m', held ++ cs)
  fails :
      {m m' : CpuManager} {held : List Core} {e : Exception} (p : ThreadPolicy)
      → allocate p m ≡ thrown e m'
      → Step (m, held) (m', held)
  returns :
      {m : CpuManager} {held held' : List Core} (c : Core)
      → Perm held (held' ++ c ∷ [])
      → Step (m, held) (deallocate c m, held')

pub data Reach (s : CpuManager × List Core) : CpuManager × List Core → Type 0 where
  here : Reach s s
  next : {t u : CpuManager × List Core} → Reach s t → Step t u → Reach s u

-- Pools and cores that are out make up the pools of `m`, and the mutex is free.
abbrev pub Balanced : CpuManager → CpuManager × List Core → Type 0
Balanced m (m', held) = Conserves m held m'

module _ {A : Type 0} where
  out_perm : (a h c p q : List A) → Perm (a ++ c) p → Perm (p ++ h) q → Perm (a ++ (h ++ c)) q
  out_perm a h c p q x y =
      Perm.trans (Perm.append_left a (perm_append_comm h c))
        (rw (← append_assoc a c h) (Perm.trans (Perm.append_right h x) y))

  back_perm : (a h k c q : List A) → Perm h (k ++ c) → Perm (a ++ h) q → Perm ((a ++ c) ++ k) q
  back_perm a h k c q x y =
      rw (append_assoc a c k)
        (Perm.trans (Perm.append_left a (Perm.trans (perm_append_comm c k) (Perm.symm x))) y)

came_back :
    (a : AffinityType) (c : Core) (left : List Core) {held : List Core}
    → Perm held (left ++ c ∷ [])
    → Perm (ids a held) (ids a left ++ ids a (c ∷ []))
came_back a c left e =
    rw (← filter_map-append (id_as a) left (c ∷ [])) (Perm.filter_map (id_as a) e)

pub Step-Balanced :
    {m : CpuManager} {s t : CpuManager × List Core} → Step s t → Balanced m s → Balanced m t
Step-Balanced (allocates {m = m₁} {m' = m₂} {held} {cs} p run) b =
    let k = allocate-Conserves p m₁ m₂ cs b.unlocked run in
    record {
      pinned_kept =
          rw (filter_map-append (id_as pinned) held cs)
            (out_perm _ (ids pinned held) (ids pinned cs) _ _ k.pinned_kept b.pinned_kept);
      isol_kept =
          rw (filter_map-append (id_as isolated) held cs)
            (out_perm _ (ids isolated held) (ids isolated cs) _ _ k.isol_kept b.isol_kept);
      unlocked = k.unlocked;
      online_kept = k.online_kept ∙ b.online_kept;
    }
Step-Balanced (fails {m = m₁} p run) b =
    let k = pools_kept (allocate-Allocates p m₁ b.unlocked) run in
    record {
      pinned_kept = rw k.pinned_set b.pinned_kept;
      isol_kept = rw k.isol_set b.isol_kept;
      unlocked = k.lock_kept ∙ b.unlocked;
      online_kept = k.online_kept ∙ b.online_kept;
    }
Step-Balanced (returns {m = m₁} {held} {held' = left} c e) b =
    let k = deallocate-pools c m₁ in
    record {
      pinned_kept =
          rw k.0 (back_perm _ _ (ids pinned left) _ _ (came_back pinned c left e) b.pinned_kept);
      isol_kept =
          rw k.1 (back_perm _ _ (ids isolated left) _ _ (came_back isolated c left e) b.isol_kept);
      unlocked = k.2 ∙ b.unlocked;
      online_kept = k.3 ∙ b.online_kept;
    }

Reach-Balanced :
    {m : CpuManager} {s t : CpuManager × List Core} → Reach s t → Balanced m s → Balanced m t
Reach-Balanced here b = b
Reach-Balanced (next r st) b = Step-Balanced st (Reach-Balanced r b)

-- From a free manager with no core out, any calls of `allocate` and any returns of cores that are out
-- keep the pools and the cores that are out, together, what the pools were.
pub Reach-Conserves :
    (m m' : CpuManager) (held : List Core)
    → m.locked ≡ false
    → Reach (m, []) (m', held)
    → Conserves m held m'
unfolding filter_map
Reach-Conserves m m' held free r = Reach-Balanced r (Conserves-normal m [] free)

-- So, if the pool had no core twice, no pinned core is held twice or held and in the pool.
pub Reach-Nodup :
    (m m' : CpuManager) (held : List Core)
    → m.locked ≡ false
    → Nodup m.pinned_core_pool
    → Reach (m, []) (m', held)
    → Nodup (m'.pinned_core_pool ++ ids pinned held)
Reach-Nodup m m' held free once r =
    Perm.nodup (Perm.symm (Reach-Conserves m m' held free r).pinned_kept) once

module _ (m : CpuManager) where
  pub Balanced-perm :
      {cs ds : List Core} {m' : CpuManager} → Perm cs ds → Balanced m (m', cs) → Balanced m (m', ds)
  Balanced-perm e b = record {
    pinned_kept =
        Perm.trans (Perm.append_left _ (Perm.filter_map (id_as pinned) (Perm.symm e)))
          b.pinned_kept;
    isol_kept =
        Perm.trans (Perm.append_left _ (Perm.filter_map (id_as isolated) (Perm.symm e)))
          b.isol_kept;
    unlocked = b.unlocked;
    online_kept = b.online_kept;
  }

  pub deallocate_all-Balanced :
      (cs h out : List Core) (m' : CpuManager)
      → Perm out (h ++ cs)
      → Balanced m (m', out)
      → Balanced m (deallocate_all cs m', h)
  unfolding deallocate_all
  deallocate_all-Balanced [] h out m' e b = Balanced-perm (rw (← append-nil h) e) b
  deallocate_all-Balanced (c ∷ cs) h out m' e b =
      deallocate_all-Balanced cs h (h ++ cs) (deallocate c m') (Perm.refl _) (
        Step-Balanced
          (returns c (
            Perm.trans e (
              rw (append_assoc h cs (c ∷ [])) (Perm.append_left h (perm_append_comm (c ∷ []) cs)))))
          b)
