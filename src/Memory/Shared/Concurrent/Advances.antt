-- ===== src/Memory/Shared/Concurrent/Advances.antt =====
-- The accesses of a method, against the counts.
use pipeline_tools.Prelude.{
  ℕ, ◌+◌, ◌^◌, ◌<◌, ◌≡◌, ◌≢◌, refl, false, Option, none, some, arith, ◌==◌, Bool-cases, inl, inr,
  Option-cases,
}
use pipeline_tools.Prelude.Store.{update, tally, tally-one}
use pipeline_tools.Prelude.Outcome.{Returns}
use pipeline_tools.Memory.Buffer.{ReleasedBuffer}
use pipeline_tools.Memory.Shared.{ControlBlock, parts}
use pipeline_tools.Memory.Shared.Concurrent.{
  After, keep, take_from, Pc, idle, constructing, assigning, dropping, last, deleting, cleared,
  exchanging, taking, taken, Var, System, var, reads, advance_at, advance, deref, Allowed,
  start_drop, Free, steal, set_var, try_exchange, count_up, count_down, call_deleter, delete_block,
  take_parts,
}
use pipeline_tools.Memory.Shared.Concurrent.Changes.{Share, share, changes, pair-Inv, not_read}
use pipeline_tools.Memory.Shared.Concurrent.Counted.{
  own, to_end, to_delete, weigh, Sound, Inv, tally-own,
}

module _ (n : ℕ) (f : ReleasedBuffer → ℕ) (small : n + n < 2 ^ 64) (i : ℕ) (lt : i < n) (s : System)
    (inv : Inv n f s) where
  open inv use {at, sound}

  -- A block that a variable has a part in is there.
  found :
      (a : ℕ)
      → 0 < tally n (own a) s.vars + tally n (to_end a) s.vars + tally n (to_delete a) s.vars
      → (b : ControlBlock) × (s.heap a ≡ some b)
  found a part = elim (Option-cases (s.heap a)) [
    | inl gone ↦ absurd (ground (arith, at a))
    | inr (b, e) ↦ (b, e)
  ]

  deref-Inv :
      (a : ℕ) (k : ℕ → ControlBlock → System)
      → 0 < tally n (own a) s.vars + tally n (to_end a) s.vars + tally n (to_delete a) s.vars
      → ((b : ControlBlock) → s.heap a ≡ some b → Inv n f (k a b))
      → Returns (λ _ t. Inv n f t) (deref (some a) s k)
  deref-Inv a k part h = let (b, e) = found a part in rw (deref, e) (h b e)

  Sound-here : (v : Var) → s.vars i ≡ v → Sound n s.vars v.ctrl v.pc
  Sound-here v e = rw (← e) (sound i)

  unread : (v : Var) → s.vars i ≡ v → v.pc ≢ idle → (k : ℕ) → reads i (s.vars k).pc ≡ false
  unread v e busy k = not_read n s.vars i _ _ (rw e busy) (sound k)

  Share-of : (v : Var) (a : ℕ) → s.vars i ≡ v → Share n s.vars v a
  Share-of v a e = share n s.vars i v a lt e

  exchanging-Inv :
      (a : ℕ)
      → s.vars i ≡ var (some a) exchanging
      → Returns (λ _ t. Inv n f t) (deref (some a) s (try_exchange i s))
  unfolding update
  exchanging-Inv a e =
      let part = Share-of _ a e in
      deref-Inv a (try_exchange i s) (ground arith) λ b there. elim (Bool-cases (b.ref == 1)) [
        | inl one ↦ rw one (
            changes n f i lt s inv _ (var (some a) taking) _ e (unread _ e (ground arith)) refl
              (ground arith) λ x m. ground (arith, at x, m))
        | inr more ↦ rw more (
            changes n f i lt s inv _ (var (some a) idle) _ e (unread _ e (ground arith)) refl tt
              λ x m. ground (arith, at x, m))
      ]

  dropping-Inv :
      (a : ℕ) (k : After)
      → s.vars i ≡ var (some a) (dropping k)
      → Returns (λ _ t. Inv n f t) (deref (some a) s (count_down i k s))
  unfolding update
  dropping-Inv a k e =
      let part = Share-of _ a e in
      deref-Inv a (count_down i k s) (ground arith) λ b there. elim (Bool-cases (b.ref == 1)) [
        | inl one ↦ rw one (
            changes n f i lt s inv _ (var (some a) (last k)) _ e (unread _ e (ground arith)) refl
              (ground arith) λ x m. ground (arith, at x, m, tally-own n a s.vars))
        | inr more ↦ rw more (
            changes n f i lt s inv _ (var none (cleared k)) _ e (unread _ e (ground arith)) refl tt
              λ x m. ground (arith, at x, m, tally-own n a s.vars))
      ]

  last-Inv :
      (a : ℕ) (k : After)
      → s.vars i ≡ var (some a) (last k)
      → Returns (λ _ t. Inv n f t) (deref (some a) s (call_deleter i k s))
  unfolding update weigh
  last-Inv a k e =
      let part = Share-of _ a e in
      deref-Inv a (call_deleter i k s) (ground arith) λ b there.
        changes n f i lt s inv _ (var (some a) (deleting k)) _ e (unread _ e (ground arith)) refl
          (ground arith) λ x m. ground (arith, at x, m)

  taking-Inv :
      (a : ℕ)
      → s.vars i ≡ var (some a) taking
      → Returns (λ _ t. Inv n f t) (deref (some a) s (take_parts i s))
  unfolding update weigh
  taking-Inv a e =
      let part = Share-of _ a e in
      deref-Inv a (take_parts i s) (ground arith) λ b there.
        changes n f i lt s inv _ (var (some a) (taken (parts b))) _ e (unread _ e (ground arith))
          refl (ground arith) λ x m. ground (arith, at x, m)

  deleting-Inv :
      (a : ℕ) (k : After)
      → s.vars i ≡ var (some a) (deleting k)
      → Returns (λ _ t. Inv n f t) (deref (some a) s (delete_block i (var none (cleared k)) s))
  unfolding update
  deleting-Inv a k e =
      let part = Share-of _ a e in
      deref-Inv a (delete_block i (var none (cleared k)) s) (ground arith) λ b there.
        changes n f i lt s inv _ (var none (cleared k)) _ e (unread _ e (ground arith)) refl tt
          λ x m. ground (arith, at x, m)

  taken-Inv :
      (a : ℕ) (r : ReleasedBuffer)
      → s.vars i ≡ var (some a) (taken r)
      → Returns (λ _ t. Inv n f t) (deref (some a) s (delete_block i (var none idle) s))
  unfolding update
  taken-Inv a r e =
      let part = Share-of _ a e in
      deref-Inv a (delete_block i (var none idle) s) (ground arith) λ b there.
        changes n f i lt s inv _ (var none idle) _ e (unread _ e (ground arith)) refl tt
          λ x m. ground (arith, at x, m)

  -- A variable that is read holds its block meanwhile.
  holds :
      (j a : ℕ)
      → j < n
      → (s.vars j).pc ≡ idle
      → (s.vars j).ctrl ≡ some a
      → 0 < tally n (own a) s.vars
  holds j a hj q c = ground (arith, tally-one n j (own a) s.vars hj)

  constructing-Inv :
      (c : Option ℕ) (j : ℕ)
      → s.vars i ≡ var c (constructing j)
      → Returns (λ _ t. Inv n f t) (deref c s (count_up i (var c idle) s))
  unfolding update
  constructing-Inv none j e = absurd (ground (arith, Sound-here _ e))
  constructing-Inv (some a) j e =
      let (hj, quiet, same, _) = Sound-here _ e in
      let other = holds j a hj quiet same in
      deref-Inv a (count_up i (var (some a) idle) s) (ground arith) λ b there.
        changes n f i lt s inv _ (var (some a) idle) _ e (unread _ e (ground arith)) refl tt
          λ x m. ground (arith, at x, m, tally-own n a s.vars)

  assigning-Inv :
      (c : Option ℕ) (j a : ℕ)
      → s.vars i ≡ var c (assigning j a)
      → Returns (λ _ t. Inv n f t) (deref (some a) s (count_up i (start_drop (keep (some a)) c) s))
  unfolding update
  assigning-Inv c j a e =
      let (hj, quiet, same) = Sound-here _ e in
      let other = holds j a hj quiet same in
      deref-Inv a (count_up i (start_drop (keep (some a)) c) s) (ground arith) λ b there.
        changes n f i lt s inv _ (start_drop (keep (some a)) c) _ e (unread _ e (ground arith)) refl
          (ground arith) λ x m. ground (arith, at x, m, tally-own n a s.vars)

  cleared-Inv :
      (c x : Option ℕ) → s.vars i ≡ var c (cleared (keep x)) → Inv n f (set_var i (var x idle) s)
  unfolding update
  cleared-Inv c x e =
      changes n f i lt s inv _ (var x idle) _ e (unread _ e (ground arith)) refl tt
        λ a m. ground (arith, at a, m)

  stealing-Inv :
      (c : Option ℕ) (j : ℕ)
      → s.vars i ≡ var c (cleared (take_from j))
      → Free j s
      → j < n
      → i ≢ j
      → Inv n f (steal i j s)
  unfolding update
  stealing-Inv c j e free hj apart =
      let d = (s.vars j).ctrl in
      let there : s.vars j ≡ var d idle = ground (arith, free.quiet) in
      pair-Inv n f i lt s inv j c d d none (cleared (take_from j)) _ hj e (ground arith) refl
        (refl, refl, refl, refl) (unread _ e (ground arith)) free.unread
        (λ a. (omega arith, refl, refl))

  advance_at-Inv :
      (c : Option ℕ) (p : Pc)
      → s.vars i ≡ var c p
      → Allowed n i p s
      → Returns (λ _ t. Inv n f t) (advance_at i c p s)
  unfolding advance_at
  advance_at-Inv c idle e ok = inv
  advance_at-Inv c (constructing j) e ok = constructing-Inv c j e
  advance_at-Inv c (assigning j x) e ok = assigning-Inv c j x e
  advance_at-Inv c (cleared (keep x)) e ok = cleared-Inv c x e
  advance_at-Inv c (cleared (take_from j)) e ok = stealing-Inv c j e ok.0 ok.1 ok.2
  advance_at-Inv none p e ok = absurd (ground (arith, Sound-here _ e))
  advance_at-Inv (some a) (dropping k) e ok = dropping-Inv a k e
  advance_at-Inv (some a) (last k) e ok = last-Inv a k e
  advance_at-Inv (some a) (deleting k) e ok = deleting-Inv a k e
  advance_at-Inv (some a) exchanging e ok = exchanging-Inv a e
  advance_at-Inv (some a) taking e ok = taking-Inv a e
  advance_at-Inv (some a) (taken r) e ok = taken-Inv a r e

  -- The next access of a method finds its block, and keeps the counts.
  pub advance-Inv : Allowed n i (s.vars i).pc s → Returns (λ _ t. Inv n f t) (advance i s)
  unfolding advance
  advance-Inv ok = advance_at-Inv (s.vars i).ctrl (s.vars i).pc refl ok
