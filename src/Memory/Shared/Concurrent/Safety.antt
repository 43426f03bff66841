-- ===== src/Memory/Shared/Concurrent/Safety.antt =====
-- What holds in every state that threads may bring shared buffers to.
use pipeline_tools.Prelude.{
  ℕ, zero, suc, ◌+◌, ◌^◌, ◌≤◌, ◌<◌, ◌≡◌, ◌≢◌, refl, none, arith, lt_or_le, inl, inr,
}
use pipeline_tools.Prelude.Store.{tally, tally-one, tally-pair}
use pipeline_tools.Prelude.Outcome.{Returns, Returns-done}
use pipeline_tools.Memory.Buffer.{ReleasedBuffer}
use pipeline_tools.Memory.Shared.Counting.{ref_of}
use pipeline_tools.Memory.Shared.Concurrent.{
  idle, System, var, advance, Allowed, calls, advances, Reach, start, later, init,
}
use pipeline_tools.Memory.Shared.Concurrent.Advances.{advance-Inv}
use pipeline_tools.Memory.Shared.Concurrent.Calls.{begin-Inv}
use pipeline_tools.Memory.Shared.Concurrent.Counted.{own, to_end, to_delete, due, weigh, Inv}

tally-none :
    {A : Type 0} (n : ℕ) (g : A → ℕ) (v : ℕ → A) → ((k : ℕ) → k < n → g (v k) ≡ 0) → tally n g v ≡ 0
unfolding tally
tally-none zero g v h = refl
tally-none (suc n) g v h =
    omega (arith, tally-none n g v (λ k l. h k (omega arith)), h n (omega arith))

module _ (n : ℕ) (f : ReleasedBuffer → ℕ) (small : n + n < 2 ^ 64) where
  init-Inv : Inv n f init
  unfolding weigh
  init-Inv = record {
    at = λ a.
        let w = tally-none n (own a) (λ _. var none idle) (λ k l. refl) in
        let e = tally-none n (to_end a) (λ _. var none idle) (λ k l. refl) in
        let d = tally-none n (to_delete a) (λ _. var none idle) (λ k l. refl) in ground arith;
    sound = λ k. tt;
  }

  Reach-Inv : {s : System} → Reach n s → Inv n f s
  Reach-Inv start = init-Inv
  Reach-Inv (later {s} r (calls i o lt ok)) = begin-Inv n f i lt s (Reach-Inv r) o ok
  Reach-Inv (later {s} r (advances i lt ok e)) =
      rw e at (advance-Inv n f small i lt s (Reach-Inv r) ok)

  -- No handle, no method.
  empty_counts :
      (s : System) (a : ℕ)
      → Reach n s
      → ((k : ℕ) → k < n → s.vars k ≡ var none idle)
      → (s.heap a ≡ none) × (weigh f a s.made ≡ weigh f a s.ended + weigh f a s.given)
  empty_counts s a r h =
      let k = (Reach-Inv r).at a in
      let w = tally-none n (own a) s.vars (λ j l. rw (h j l) refl) in
      let e = tally-none n (to_end a) s.vars (λ j l. rw (h j l) refl) in
      let d = tally-none n (to_delete a) s.vars (λ j l. rw (h j l) refl) in ground (arith, k)

module _ (n : ℕ) (small : n + n < 2 ^ 64) (s : System) (r : Reach n s) where
  inv : Inv n (λ _. 0) s
  inv = Reach-Inv n (λ _. 0) small r

  -- In every state that threads reach, the count of each block is the number of handles on it: of the
  -- variables that point to it and are in no method that has given it up or has not counted it yet, and
  -- of the assignments that have counted it and not stored it yet.
  pub Reach-counts : (a : ℕ) → ref_of (s.heap a) ≡ tally n (own a) s.vars
  Reach-counts a = (inv.at a).counted

  -- Whatever the other threads did, the next access of a method finds its block, and the method goes on
  -- to a state that is again reached.
  pub advance-Reach :
      (i : ℕ) → i < n → Allowed n i (s.vars i).pc s → Returns (λ _ t. Reach n t) (advance i s)
  advance-Reach i lt ok =
      let (_, t, e, _) = Returns-done (advance i s) (advance-Inv n (λ _. 0) small i lt s inv ok) in
      rw e (later r (advances i lt ok e))

  only_end :
      (i j a : ℕ)
      → i < n
      → j < n
      → 0 < to_end a (s.vars i)
      → i ≢ j
      → (to_end a (s.vars j) ≡ 0) × (to_delete a (s.vars j) ≡ 0)
  only_end i j a lt hj h apart =
      let k = inv.at a in
      let mine = tally-one n i (to_end a) s.vars lt in
      let due_le : due (s.heap a) ≤ 1 = ground arith in
      let both : to_end a (s.vars i) + to_end a (s.vars j) ≤ tally n (to_end a) s.vars =
        elim (lt_or_le i j) [
          | inl below ↦ tally-pair n i j (to_end a) s.vars below hj
          | inr above ↦ omega (arith, tally-pair n j i (to_end a) s.vars (omega arith) lt)
        ] in
      (
        omega (arith, both, k.ending),
        omega (arith, tally-one n j (to_delete a) s.vars hj, k.ending),
      )

  no_handle : (i j a : ℕ) → i < n → j < n → 0 < to_end a (s.vars i) → own a (s.vars j) ≡ 0
  no_handle i j a lt hj h =
      ground (arith, inv.at a, tally-one n i (to_end a) s.vars lt, tally-one n j (own a) s.vars hj)

  -- A variable that is about to call the deleter of the block at `a`, or to take its parts out, is the
  -- only one about to do so or to delete the block, and neither it nor another one has a handle on it.
  pub end_alone :
      (i j a : ℕ)
      → i < n
      → j < n
      → i ≢ j
      → 0 < to_end a (s.vars i)
      → (own a (s.vars i) ≡ 0)
        × (own a (s.vars j) ≡ 0)
        × (to_end a (s.vars j) ≡ 0)
        × (to_delete a (s.vars j) ≡ 0)
  end_alone i j a lt hj apart h =
      let (ends, deletes) = only_end i j a lt hj h apart in
      (no_handle i i a lt lt h, no_handle i j a lt hj h, ends, deletes)

-- Once the variables are empty and no method is in progress, no block is left, and of what was made at
-- an address each was ended once or handed out once, with the parts that it was made with: `f` weighs
-- parts, in any way.
pub all_ended :
    (n : ℕ) (f : ReleasedBuffer → ℕ) (s : System) (a : ℕ)
    → n + n < 2 ^ 64
    → Reach n s
    → ((k : ℕ) → k < n → s.vars k ≡ var none idle)
    → (s.heap a ≡ none) × (weigh f a s.made ≡ weigh f a s.ended + weigh f a s.given)
all_ended n f s a small r h = empty_counts n f small s a r h
