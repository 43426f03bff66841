-- ===== src/Memory/Shared/Methods.antt =====
-- Each method of shared_buffer.hpp keeps the counts right, and accesses no block that is gone.
use pipeline_tools.Prelude.{
  Bool-cases, ℕ, ◌+◌, ◌^◌, ◌<◌, ◌≡◌, ap, Option, none, some, arith, ◌==◌, Option-cases, inl, inr,
}
use pipeline_tools.Prelude.Store.{update_self, update, tally-update, tally-one}
use pipeline_tools.Prelude.Outcome.{Returns-bind, Returns}
use pipeline_tools.Memory.Buffer.{Ptr, Deleter, MemoryLocation}
use pipeline_tools.Memory.Shared.{
  release_block, State, construct, add_ref, release_ctrl, copy_construct, copy_assign, move_assign,
  reset, release,
}
use pipeline_tools.Memory.Shared.Counting.{
  points, Counts, add_ref-Counts, release_ctrl-Counts, place-Counts, steal-Counts,
}

module _ (n : ℕ) (small : n + 1 < 2 ^ 64) where
  pub copy_construct-Counts :
      (i j : ℕ) (s : State)
      → i < n
      → j < n
      → s.ctrl i ≡ none
      → Counts n none s
      → Returns (λ _ t. Counts n none t) (copy_construct i j s)
  unfolding copy_construct
  copy_construct-Counts i j s hi hj e w =
      Returns-bind (λ _ t. Counts n none t) (add_ref (s.ctrl j) s) _
        (add_ref-Counts n small j s hj w)
        λ _ t (counts, same). place-Counts n small (s.ctrl j) i t hi (rw same e) counts

  pub copy_assign-Counts :
      (i j : ℕ) (s : State)
      → i < n
      → j < n
      → Counts n none s
      → Returns (λ _ t. Counts n none t) (copy_assign i j s)
  unfolding copy_assign
  copy_assign-Counts i j s hi hj w = elim (Bool-cases (i == j)) [
    | inl self ↦ rw self w
    | inr other ↦ rw other (
        Returns-bind (λ _ t. Counts n none t) (add_ref (s.ctrl j) s) _
          (add_ref-Counts n small j s hj w)
          λ _ t (counts, same).
            Returns-bind (λ _ u. Counts n none u) (release_ctrl i t) _
              (release_ctrl-Counts n small (s.ctrl j) i t hi counts)
              λ _ u (kept, gone).
                place-Counts n small (s.ctrl j) i u hi (rw gone (update_self t.ctrl i none)) kept)
  ]

  pub move_assign-Counts :
      (i j : ℕ) (s : State)
      → i < n
      → j < n
      → Counts n none s
      → Returns (λ _ t. Counts n none t) (move_assign i j s)
  unfolding move_assign
  move_assign-Counts i j s hi hj w = elim (Bool-cases (i == j)) [
    | inl self ↦ rw self w
    | inr other ↦ rw other (
        Returns-bind (λ _ t. Counts n none t) (release_ctrl i s) _
          (release_ctrl-Counts n small none i s hi w)
          λ _ t (kept, gone).
            steal-Counts n small i j t hi hj (ground arith) (rw gone (update_self s.ctrl i none))
              kept)
  ]

  pub reset-Counts :
      (i : ℕ) (s : State) → i < n → Counts n none s → Returns (λ _ t. Counts n none t) (reset i s)
  unfolding reset
  reset-Counts i s h w =
      Returns-bind (λ _ t. Counts n none t) (release_ctrl i s) _
        (release_ctrl-Counts n small none i s h w)
        λ _ t (kept, gone).
          place-Counts n small none i t h (rw gone (update_self s.ctrl i none)) kept

  pub release-Counts :
      (i : ℕ) (s : State) → i < n → Counts n none s → Returns (λ _ t. Counts n none t) (release i s)
  unfolding release update
  release-Counts i s h w = elim (Option-cases (s.ctrl i)) [
    | inl e ↦ rw (e, release) w
    | inr (c, e) ↦ elim (Option-cases (s.heap c)) [
      | inl dead ↦ absurd (ground (arith, w c, tally-one n i (points c) s.ctrl h))
      | inr (b, found) ↦ elim (Bool-cases (b.ref == 1)) [
        | inl sole ↦
            rw (e, release, found, release_block, sole)
              (λ a.
                ground
                  (arith, w a, w c, ap (points a) e, tally-update n i (points a) s.ctrl none h))
        | inr many ↦ rw (e, release, found, release_block, many) w
      ]
    ]
  ]

  pub construct-Counts :
      (fresh i : ℕ) (ptr : Ptr) (size : ℕ) (d : Option Deleter) (loc : MemoryLocation) (s : State)
      → i < n
      → s.ctrl i ≡ none
      → s.heap fresh ≡ none
      → Counts n none s
      → Counts n none (construct fresh i ptr size d loc s)
  unfolding construct update
  construct-Counts fresh i ptr size d loc s h e new w a = ground (
    arith,
    w a,
    w fresh,
    tally-update n i (points a) s.ctrl none h,
    tally-update n i (points a) s.ctrl (some fresh) h,
    tally-update n i (points fresh) s.ctrl (some fresh) h,
  )
