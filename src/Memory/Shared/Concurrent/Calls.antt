-- ===== src/Memory/Shared/Concurrent/Calls.antt =====
-- The methods up to their first access to a block, against the counts.
use pipeline_tools.Prelude.{
  ℕ, ◌<◌, ◌≡◌, ◌≢◌, refl, Option, none, some, arith, ◌==◌, Bool-cases, inl, inr, ◌||◌,
}
use pipeline_tools.Prelude.Store.{update}
use pipeline_tools.Memory.Buffer.{ReleasedBuffer, Ptr, Deleter, MemoryLocation, null}
use pipeline_tools.Memory.Shared.Concurrent.{
  After, keep, take_from, idle, constructing, assigning, exchanging, System, var, start_drop, Free,
  steal, exchange, set_var, begin, Call, constructs, copy_constructs, copy_assigns, move_constructs,
  move_assigns, swaps, resets, releases, Ready, read_other, assign_other, open_release,
}
use pipeline_tools.Memory.Shared.Concurrent.Changes.{changes, pair-Inv}
use pipeline_tools.Memory.Shared.Concurrent.Counted.{held, weigh, Inv}

module _ (n : ℕ) (f : ReleasedBuffer → ℕ) (i : ℕ) (lt : i < n) (s : System) (inv : Inv n f s) where
  open inv use {at, sound}

  -- A free variable is what it points to.
  quiet_var : (j : ℕ) → Free j s → s.vars j ≡ var (s.vars j).ctrl idle
  quiet_var j free = ground (arith, free.quiet)

  construct-Inv :
      (fresh : ℕ) (ptr : Ptr) (size : ℕ) (d : Option Deleter) (loc : MemoryLocation)
      → Ready n i (constructs fresh ptr size d loc) s
      → Inv n f (begin i (constructs fresh ptr size d loc) s)
  unfolding begin update weigh
  construct-Inv fresh ptr size d loc (free, empty, unused) =
      let e : s.vars i ≡ var none idle = ground (arith, free.quiet) in
      elim (Bool-cases (ptr == null || size == 0)) [
        | inl nothing ↦ rw nothing (
            changes n f i lt s inv _ (var none idle) _ e free.unread refl tt
              λ a m. ground (arith, at a, m))
        | inr real ↦ rw real (
            changes n f i lt s inv _ (var (some fresh) idle) _ e free.unread refl tt
              λ a m. ground (arith, at a, at fresh, m))
      ]

  drops-Inv :
      (k : After) (c : Option ℕ)
      → s.vars i ≡ var c idle
      → Free i s
      → ((a : ℕ) → held a k ≡ 0)
      → Inv n f (set_var i (start_drop k c) s)
  unfolding update
  drops-Inv k c e free bare =
      changes n f i lt s inv _ (start_drop k c) _ e free.unread refl (ground arith)
        λ a m. ground (arith, at a, m, bare a)

  read_other-Inv :
      (j : ℕ) (d : Option ℕ)
      → s.vars j ≡ var d idle
      → s.vars i ≡ var none idle
      → Free i s
      → i ≢ j
      → j < n
      → Inv n f (read_other i j d s)
  unfolding update
  read_other-Inv j none there e free apart hj =
      changes n f i lt s inv _ (var none idle) _ e free.unread refl tt
        λ a m. ground (arith, at a, m)
  read_other-Inv j (some d) there e free apart hj =
      changes n f i lt s inv _ (var (some d) (constructing j)) _ e free.unread refl (ground arith)
        λ a m. ground (arith, at a, m)

  assign_other-Inv :
      (j : ℕ) (c d : Option ℕ)
      → s.vars j ≡ var d idle
      → s.vars i ≡ var c idle
      → Free i s
      → i ≢ j
      → j < n
      → Inv n f (assign_other i j d s)
  unfolding update
  assign_other-Inv j c none there e free apart hj = rw e (drops-Inv (keep none) c e free λ a. refl)
  assign_other-Inv j c (some d) there e free apart hj = rw e (
      changes n f i lt s inv _ (var c (assigning j d)) _ e free.unread refl (ground arith)
        λ a m. ground (arith, at a, m))

  open_release-Inv :
      (c : Option ℕ) → s.vars i ≡ var c idle → Free i s → Inv n f (open_release i c s)
  unfolding update
  open_release-Inv none e free = inv
  open_release-Inv (some a) e free =
      changes n f i lt s inv _ (var (some a) exchanging) _ e free.unread refl (ground arith)
        λ x m. ground (arith, at x, m)

  steal-Inv :
      (j : ℕ) → Free i s → Free j s → (s.vars i).ctrl ≡ none → i ≢ j → j < n → Inv n f (steal i j s)
  unfolding update
  steal-Inv j free other empty apart hj =
      let d = (s.vars j).ctrl in
      let here : s.vars i ≡ var none idle = ground (arith, free.quiet) in
      let there : s.vars j ≡ var d idle = quiet_var j other in
      pair-Inv n f i lt s inv j none d d none idle _ hj here (ground arith) refl
        (refl, refl, refl, refl) free.unread other.unread λ a. (omega arith, refl, refl)

  exchange-Inv : (j : ℕ) → Free i s → Free j s → j < n → Inv n f (exchange i j s)
  unfolding update
  exchange-Inv j free other hj =
      let c = (s.vars i).ctrl in
      let d = (s.vars j).ctrl in
      let there : s.vars j ≡ var d idle = quiet_var j other in
      pair-Inv n f i lt s inv j c d d c idle _ hj (quiet_var i free) (ground arith) refl
        (refl, refl, refl, refl) free.unread other.unread λ a. (omega arith, refl, refl)

  copy_assign-Inv : (j : ℕ) → Ready n i (copy_assigns j) s → Inv n f (begin i (copy_assigns j) s)
  unfolding begin
  copy_assign-Inv j (free, hj, quiet) = elim (Bool-cases (i == j)) [
    | inl same ↦ rw same inv
    | inr apart ↦
        rw apart
          (assign_other-Inv j _ _ (ground (arith, quiet)) (quiet_var i free) free (ground arith) hj)
  ]

  move_assign-Inv : (j : ℕ) → Ready n i (move_assigns j) s → Inv n f (begin i (move_assigns j) s)
  unfolding begin
  move_assign-Inv j two = elim (Bool-cases (i == j)) [
    | inl same ↦ rw same inv
    | inr apart ↦ rw apart (drops-Inv (take_from j) _ (quiet_var i two.left) two.left λ a. refl)
  ]

  -- A method that its caller may start keeps the counts up to its first access.
  pub begin-Inv : (o : Call) → Ready n i o s → Inv n f (begin i o s)
  unfolding begin
  begin-Inv (constructs fresh ptr size d loc) ok = construct-Inv fresh ptr size d loc ok
  begin-Inv (copy_constructs j) (free, empty, apart, hj, quiet) =
      read_other-Inv j _ (ground (arith, quiet)) (ground (arith, free.quiet)) free apart hj
  begin-Inv (copy_assigns j) ok = copy_assign-Inv j ok
  begin-Inv (move_constructs j) (two, empty, apart) =
      steal-Inv j two.left two.right empty apart two.within
  begin-Inv (move_assigns j) two = move_assign-Inv j two
  begin-Inv (swaps j) two = exchange-Inv j two.left two.right two.within
  begin-Inv resets free = drops-Inv (keep none) _ (quiet_var i free) free λ a. refl
  begin-Inv releases free = open_release-Inv _ (quiet_var i free) free
