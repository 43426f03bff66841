-- ===== src/Memory/Shared/Counting.antt =====
-- The reference counts of shared buffers: every method keeps each count equal to the number of
-- variables that hold the block, and a block lives as long as a variable holds it.
use mathlib.Core.Path.{fun_ext}
use pipeline_tools.Prelude.{
  ℕ, zero, suc, ◌+◌, ◌^◌, ◌≤◌, ◌<◌, ◌≡◌, ◌≢◌, refl, ap, Option, none, some, arith, ◌==◌,
  if◌then◌else◌, Option-cases, inl, inr,
}
use pipeline_tools.Prelude.Store.{update, tally, tally-update, tally-one, tally-update_two}
use pipeline_tools.Prelude.Outcome.{Returns}
use pipeline_tools.Memory.Shared.{
  after_drop, ControlBlock, State, set_ctrl, steal, add_ref, after_drop, release_ctrl, swap,
}

abbrev pub points : ℕ → Option ℕ → ℕ
points a none = 0
points a (some c) = if c == a then 1 else 0

abbrev pub ref_of : Option ControlBlock → ℕ
ref_of none = 0
ref_of (some b) = b.ref

abbrev pub live : Option ControlBlock → ℕ
live none = 1
live (some b) = b.ref

-- The handles on the block at `a`: the first `n` variables, and a local one, `held`.
abbrev pub handles : ℕ → ℕ → Option ℕ → State → ℕ
handles n a held s = tally n (points a) s.ctrl + points a held

-- Each count is the number of handles, and no block has a count of zero.
pub record CountsAt (n : ℕ) (held : Option ℕ) (s : State) (a : ℕ) : Type 0 where
  pub counted : ref_of (s.heap a) ≡ handles n a held s
  pub alive : 0 < live (s.heap a)

abbrev pub Counts : ℕ → Option ℕ → State → Type 0
Counts n held s = (a : ℕ) → CountsAt n held s a

module _ (n : ℕ) (small : n + 1 < 2 ^ 64) where
  pub tally-points : (k a : ℕ) (c : ℕ → Option ℕ) → tally k (points a) c ≤ k
  unfolding tally
  tally-points zero a c = omega arith
  tally-points (suc k) a c = ground (arith, tally-points k a c)

  -- `fetch_add` through a handle that a variable has gives a local handle.
  pub add_ref-Counts :
      (j : ℕ) (s : State)
      → j < n
      → Counts n none s
      → Returns (λ _ t. Counts n (s.ctrl j) t × (t.ctrl ≡ s.ctrl)) (add_ref (s.ctrl j) s)
  unfolding add_ref update
  add_ref-Counts j s h w = elim (Option-cases (s.ctrl j)) [
    | inl e ↦ rw e (w, refl)
    | inr (c, e) ↦ elim (Option-cases (s.heap c)) [
      | inl dead ↦ absurd (ground (arith, w c, tally-one n j (points c) s.ctrl h))
      | inr (b, found) ↦
          rw (e, add_ref, found)
            (λ a. ground (arith, w a, w c, tally-points n a s.ctrl, tally-points n c s.ctrl), refl)
    ]
  ]

  after_drop-at :
      (c : ℕ) (b : ControlBlock) (s : State) (a : ℕ)
      → s.heap c ≡ some b
      → 0 < b.ref
      → b.ref < 2 ^ 64
      → let t = after_drop c b s in
        (ref_of (t.heap a) + points a (some c) ≡ ref_of (s.heap a))
        × (0 < live (s.heap a) → 0 < live (t.heap a))
        × (t.ctrl ≡ s.ctrl)
  unfolding after_drop update
  after_drop-at c b s a found pos fits = (ground arith, λ l. ground arith, ground arith)

  -- `release_ctrl` gives up one handle, and leaves the variable empty.
  pub release_ctrl-Counts :
      (held : Option ℕ) (i : ℕ) (s : State)
      → i < n
      → Counts n held s
      → Returns (λ _ t. Counts n held t × (t.ctrl ≡ update s.ctrl i none)) (release_ctrl i s)
  unfolding release_ctrl
  release_ctrl-Counts held i s h w = elim (Option-cases (s.ctrl i)) [
    | inl e ↦ rw (e, release_ctrl) (w, fun_ext (λ k. unfold update in ground arith))
    | inr (c, e) ↦ elim (Option-cases (s.heap c)) [
      | inl dead ↦ absurd (ground (arith, w c, tally-one n i (points c) s.ctrl h))
      | inr (b, found) ↦
          let bound = tally-points n c s.ctrl in
          let pos : 0 < b.ref = ground (arith, w c) in
          let fits : b.ref < 2 ^ 64 = ground (arith, w c, bound) in
          let drop = λ (a : ℕ). after_drop-at c b s a found pos fits in
          rw (e, release_ctrl, found)
            (
              λ a. record {
                counted = rw ((drop a).2) (
                    omega (
                      arith,
                      (drop a).0,
                      (w a).counted,
                      tally-update n i (points a) s.ctrl none h,
                      ap (points a) e,
                    ));
                alive = (drop a).1 (w a).alive;
              },
              rw ((drop c).2),
            )
    ]
  ]

  -- The local handle goes into an empty variable.
  pub place-Counts :
      (held : Option ℕ) (i : ℕ) (s : State)
      → i < n
      → s.ctrl i ≡ none
      → Counts n held s
      → Counts n none (set_ctrl i held s)
  place-Counts held i s h e w a = ground (arith, w a, tally-update n i (points a) s.ctrl held h)

  pub swap-Counts :
      (i j : ℕ) (s : State)
      → i < n
      → j < n
      → Counts n none s
      → Returns (λ _ t. Counts n none t) (swap i j s)
  unfolding swap update
  swap-Counts i j s hi hj w a =
      let c = s.ctrl in
      let same : update c i (c j) j ≡ c j = ground arith in
      ground (arith, w a, tally-update_two n i j (points a) c (c j) (c i) same hi hj)

  pub steal-Counts :
      (i j : ℕ) (s : State)
      → i < n
      → j < n
      → i ≢ j
      → s.ctrl i ≡ none
      → Counts n none s
      → Counts n none (steal i j s)
  unfolding update
  steal-Counts i j s hi hj apart e w a =
      let c = s.ctrl in
      let same : update c i (c j) j ≡ c j = ground arith in
      ground (arith, w a, tally-update_two n i j (points a) c (c j) none same hi hj)
