-- ===== src/Memory/Shared/Concurrent/Changes.antt =====
-- What a change of one variable, or of two, does to the counts.
use pipeline_tools.Prelude.{ℕ, ◌+◌, ◌≤◌, ◌<◌, ◌≡◌, ◌≢◌, false, Option, arith}
use pipeline_tools.Prelude.Store.{update, tally, tally-update, tally-one}
use pipeline_tools.Memory.Buffer.{ReleasedBuffer}
use pipeline_tools.Memory.Shared.Counting.{points}
use pipeline_tools.Memory.Shared.Concurrent.{Pc, idle, Var, System, var, reads}
use pipeline_tools.Memory.Shared.Concurrent.Counted.{
  owned, undecided, settled, own, to_end, to_delete, CountsAt, Sound, Inv, Sound-update,
}

-- What one variable's change does to the three sums of a block.
pub record Moved (n : ℕ) (vars : ℕ → Var) (i : ℕ) (v x : Var) (a : ℕ) : Type 0 where
  pub owns : tally n (own a) (update vars i x) + own a v ≡ tally n (own a) vars + own a x
  pub ends :
      tally n (to_end a) (update vars i x) + to_end a v ≡ tally n (to_end a) vars + to_end a x
  pub deletes :
      tally n (to_delete a) (update vars i x) + to_delete a v
      ≡ tally n (to_delete a) vars + to_delete a x

pub record Share (n : ℕ) (vars : ℕ → Var) (v : Var) (a : ℕ) : Type 0 where
  pub owns_of : own a v ≤ tally n (own a) vars
  pub ends_of : to_end a v ≤ tally n (to_end a) vars
  pub deletes_of : to_delete a v ≤ tally n (to_delete a) vars

pub moved :
    (n : ℕ) (vars : ℕ → Var) (i : ℕ) (v x : Var) (a : ℕ) → i < n → vars i ≡ v → Moved n vars i v x a
moved n vars i v x a h e = rw (← e) (record {
  owns = tally-update n i (own a) vars x h;
  ends = tally-update n i (to_end a) vars x h;
  deletes = tally-update n i (to_delete a) vars x h;
})

pub share :
    (n : ℕ) (vars : ℕ → Var) (i : ℕ) (v : Var) (a : ℕ) → i < n → vars i ≡ v → Share n vars v a
share n vars i v a h e = rw (← e) (record {
  owns_of = tally-one n i (own a) vars h;
  ends_of = tally-one n i (to_end a) vars h;
  deletes_of = tally-one n i (to_delete a) vars h;
})

pub not_read :
    (n : ℕ) (v : ℕ → Var) (i : ℕ) (c : Option ℕ) (p : Pc)
    → (v i).pc ≢ idle
    → Sound n v c p
    → reads i p ≡ false
unfolding reads
not_read n v i c p busy w = ground arith

module _ (n : ℕ) (f : ReleasedBuffer → ℕ) (i : ℕ) (lt : i < n) (s : System) (inv : Inv n f s) where
  open inv use {at, sound}

  -- A variable that no method reads changes to `x`, with the counts right at every address.
  pub changes :
      (v x : Var) (t : System)
      → s.vars i ≡ v
      → ((k : ℕ) → reads i (s.vars k).pc ≡ false)
      → t.vars ≡ update s.vars i x
      → Sound n (update s.vars i x) x.ctrl x.pc
      → ((a : ℕ) → Moved n s.vars i v x a → CountsAt n f t a)
      → Inv n f t
  changes v x t e unread same new counts = record {
    at = λ a. counts a (moved n s.vars i v x a lt e);
    sound = rw same (Sound-update n s.vars i x unread sound new);
  }

  -- Two variables change hands: the first has `c`, and the second `d` once the first has changed to `x`.
  pub pair-Inv :
      (j : ℕ) (c d x y : Option ℕ) (p : Pc) (t : System)
      → j < n
      → s.vars i ≡ var c p
      → update s.vars i (var x idle) j ≡ var d idle
      → t.vars ≡ update (update s.vars i (var x idle)) j (var y idle)
      → (t.heap ≡ s.heap) × (t.made ≡ s.made) × (t.ended ≡ s.ended) × (t.given ≡ s.given)
      → ((k : ℕ) → reads i (s.vars k).pc ≡ false)
      → ((k : ℕ) → reads j (s.vars k).pc ≡ false)
      → ((a : ℕ)
          → (owned a c p + points a d ≡ points a x + points a y)
            × (undecided a c p ≡ 0)
            × (settled a c p ≡ 0))
      → Inv n f t
  unfolding update reads
  pair-Inv j c d x y p t hj e e' same (heap, mades, ends, gives) ui uj bal = record {
    at = λ a.
        let m = moved n s.vars i _ (var x idle) a lt e in
        let m' = moved n (update s.vars i (var x idle)) j _ (var y idle) a hj e' in
        rw (same, heap, mades, ends, gives) (ground (arith, at a, m, m', bal a));
    sound = rw same (
        Sound-update n _ j (var y idle) (λ k. ground (arith, uj k))
          (Sound-update n s.vars i (var x idle) ui sound tt) tt);
  }
