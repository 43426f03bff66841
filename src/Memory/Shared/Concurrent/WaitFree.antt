-- ===== src/Memory/Shared/Concurrent/WaitFree.antt =====
-- How far a method is from its end.
use pipeline_tools.Prelude.{
  ℕ, ◌≤◌, ◌<◌, ◌≡◌, ◌≢◌, ◌⊎◌, refl, false, Option, arith, ◌==◌, Bool-cases, inl, inr,
}
use pipeline_tools.Prelude.Store.{update}
use pipeline_tools.Prelude.Outcome.{done}
use pipeline_tools.Memory.Shared.Concurrent.{
  Pc, idle, constructing, assigning, dropping, last, deleting, cleared, exchanging, taking, taken,
  System, var, advance, advance_at, Allowed, Step, calls, advances, Pc, begin, Call, resets,
  releases, constructs, copy_constructs, copy_assigns, move_constructs, move_assigns, swaps, Ready,
  Free,
}

-- The accesses that a method has ahead of it at most; the last one may be the end of the method.
abbrev pub rank : Pc → ℕ
rank idle = 0
rank (cleared k) = 1
rank (constructing j) = 1
rank (deleting k) = 2
rank (last k) = 3
rank (dropping k) = 4
rank (assigning j x) = 5
rank (taken r) = 1
rank taking = 2
rank exchanging = 3

module _ (n : ℕ) (s : System) where
  apart : (i j : ℕ) → (s.vars i).pc ≢ idle → Free j s → (j == i) ≡ false
  apart i j busy free = ground (arith, free.quiet)

  begin-elsewhere :
      (i j : ℕ) (o : Call) → (s.vars i).pc ≢ idle → Ready n j o s → (begin j o s).vars i ≡ s.vars i
  unfolding begin update
  begin-elsewhere i j (constructs fresh ptr size d loc) busy ok =
      ground (arith, apart i j busy ok.0)
  begin-elsewhere i j (copy_constructs k) busy ok = ground (arith, apart i j busy ok.0)
  begin-elsewhere i j (copy_assigns k) busy ok = ground (arith, apart i j busy ok.0)
  begin-elsewhere i j (move_constructs k) busy ok =
      ground (arith, apart i j busy ok.0.left, apart i k busy ok.0.right)
  begin-elsewhere i j (move_assigns k) busy ok = ground (arith, apart i j busy ok.left)
  begin-elsewhere i j (swaps k) busy ok =
      ground (arith, apart i j busy ok.left, apart i k busy ok.right)
  begin-elsewhere i j resets busy ok = ground (arith, apart i j busy ok)
  begin-elsewhere i j releases busy ok = ground (arith, apart i j busy ok)

  -- The access of one variable's method.
  advance_at-own :
      {t : System} (i : ℕ) (c : Option ℕ) (p : Pc)
      → s.vars i ≡ var c p
      → p ≢ idle
      → Allowed n i p s
      → advance_at i c p s ≡ done tt t
      → rank (t.vars i).pc < rank p
  unfolding advance_at update
  advance_at-own i c p e busy ok r = ground arith

  advance_at-elsewhere :
      {t : System} (i j : ℕ) (c : Option ℕ) (p : Pc)
      → (j == i) ≡ false
      → (s.vars i).pc ≢ idle
      → Allowed n j p s
      → advance_at j c p s ≡ done tt t
      → t.vars i ≡ s.vars i
  unfolding advance_at update
  advance_at-elsewhere i j c p other busy ok r = ground arith

-- A step changes a method in progress only by one of its own accesses, and each of these brings it nearer
-- to its end, of which it is at most five away. So no method waits for another one.
pub Step-nearer :
    (n : ℕ) (s t : System) (i : ℕ)
    → Step n s t
    → (s.vars i).pc ≢ idle
    → ((t.vars i ≡ s.vars i) ⊎ (rank (t.vars i).pc < rank (s.vars i).pc)) × (rank (s.vars i).pc ≤ 5)
unfolding advance
Step-nearer n s t i (calls j o lt ok) busy = (inl (begin-elsewhere n s i j o busy ok), ground arith)
Step-nearer n s t i (advances j lt ok r) busy = elim (Bool-cases (j == i)) [
  | inl same ↦
      let e : i ≡ j = ground arith in
      rw e (inr (advance_at-own n s j _ _ refl (rw e at busy) ok r), ground arith)
  | inr other ↦ (inl (advance_at-elsewhere n s i j _ _ other busy ok r), ground arith)
]
