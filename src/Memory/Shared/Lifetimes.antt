-- ===== src/Memory/Shared/Lifetimes.antt =====
-- When a block ends: with its last variable, and never before.
use pipeline_tools.Prelude.{◌-◌, ℕ, ◌+◌, ◌^◌, ◌<◌, ◌≡◌, ◌≢◌, none, some, List, [], ◌∷◌, arith}
use pipeline_tools.Prelude.Store.{update, tally}
use pipeline_tools.Prelude.Outcome.{done, Returns, Returns-bind, ◌>>◌}
use pipeline_tools.Memory.Shared.{
  release_block, after_drop, release_ctrl, ControlBlock, State, M, parts, call_if, with_ref,
  copy_assign, move_assign, reset, swap, release,
}
use pipeline_tools.Memory.Shared.Counting.{points, tally-points, Counts, swap-Counts}
use pipeline_tools.Memory.Shared.Methods.{
  copy_assign-Counts, move_assign-Counts, reset-Counts, release-Counts,
}

pub data Op : Type 0 where
  copies moves swaps : ℕ → ℕ → Op
  resets releases : ℕ → Op

unfoldable pub perform : Op → M (Unit {0})
perform (copies i j) = copy_assign i j
perform (moves i j) = move_assign i j
perform (swaps i j) = swap i j
perform (resets i) = reset i
perform (releases i) = do release i; λ t. done tt t

unfoldable pub run : List Op → M (Unit {0})
unfolding perform
run [] s = done tt s
run (o ∷ os) s = (do perform o; run os) s

abbrev pub InScope : ℕ → Op → Type 0
InScope n (copies i j) = (i < n) × (j < n)
InScope n (moves i j) = (i < n) × (j < n)
InScope n (swaps i j) = (i < n) × (j < n)
InScope n (resets i) = i < n
InScope n (releases i) = i < n

abbrev pub AllInScope : ℕ → List Op → Type 0
AllInScope n [] = Unit {0}
AllInScope n (o ∷ os) = InScope n o × AllInScope n os

module _ (n : ℕ) (small : n + 1 < 2 ^ 64) where
  perform-Counts :
      (o : Op) (s : State)
      → InScope n o
      → Counts n none s
      → Returns (λ _ t. Counts n none t) (perform o s)
  unfolding perform
  perform-Counts (copies i j) s h w = copy_assign-Counts n small i j s h.0 h.1 w
  perform-Counts (moves i j) s h w = move_assign-Counts n small i j s h.0 h.1 w
  perform-Counts (swaps i j) s h w = swap-Counts n small i j s h.0 h.1 w
  perform-Counts (resets i) s h w = reset-Counts n small i s h w
  perform-Counts (releases i) s h w =
      Returns-bind (λ _ t. Counts n none t) (release i s) _ (release-Counts n small i s h w)
        λ _ t c. c

  -- Any sequence of copies, moves, swaps, resets and releases of the first `n` variables ends without
  -- an access to a block that is gone, with each count equal to the number of variables that hold the
  -- block, and with no block that no variable holds.
  pub run-Counts :
      (os : List Op) (s : State)
      → AllInScope n os
      → Counts n none s
      → Returns (λ _ t. Counts n none t) (run os s)
  unfolding run
  run-Counts [] s h w = w
  run-Counts (o ∷ os) s h w =
      Returns-bind (λ _ t. Counts n none t) (perform o s) _ (perform-Counts o s h.0 w)
        λ _ t c. run-Counts os t h.1 c

module _ (n i a : ℕ) (b : ControlBlock) (s : State) (h : i < n) (w : Counts n none s)
    (e : s.ctrl i ≡ some a) (found : s.heap a ≡ some b) where
  ref-tally : b.ref ≡ tally n (points a) s.ctrl
  ref-tally = ground (arith, w a)

  ref-pos : 0 < b.ref
  ref-pos = ground (arith, w a)

  -- `reset` of the only variable that holds a block ends the block after one call of its deleter.
  pub reset-last :
      tally n (points a) s.ctrl ≡ 1
      → Returns
          (λ _ t.
            (t.heap a ≡ none) × (t.ctrl i ≡ none) × (t.calls ≡ (call_if b.deleter b.ptr s).calls))
          (reset i s)
  unfolding reset release_ctrl after_drop update
  reset-last one = rw (e, release_ctrl, found) (ground (arith, ref-tally))

  -- `reset` of a variable whose block another one holds too lowers the count and calls nothing.
  pub reset-shared :
      tally n (points a) s.ctrl ≢ 1
      → n + 1 < 2 ^ 64
      → Returns
          (λ _ t.
            (t.heap a ≡ some (with_ref (b.ref - 1) b)) × (t.ctrl i ≡ none) × (t.calls ≡ s.calls))
          (reset i s)
  unfolding reset release_ctrl after_drop update
  reset-shared many small =
      rw (e, release_ctrl, found)
        (ground (arith, ref-tally, ref-pos, tally-points n small n a s.ctrl))

  -- `release` by the only variable that holds a block hands its parts out and calls no deleter.
  pub release-sole :
      tally n (points a) s.ctrl ≡ 1
      → Returns
          (λ r t.
            (r ≡ some (parts b)) × (t.heap a ≡ none) × (t.ctrl i ≡ none) × (t.calls ≡ s.calls))
          (release i s)
  unfolding release update
  release-sole one = rw (e, release, found, release_block) (ground (arith, ref-tally))

  -- `release` of a block that another variable holds too fails and changes nothing.
  pub release-shared : tally n (points a) s.ctrl ≢ 1 → release i s ≡ done none s
  unfolding release
  release-shared many = rw (e, release, found, release_block) (ground (arith, ref-tally))
