-- ===== src/Memory/Shared/Concurrent/AloneMethods.antt =====
-- Each method, with no other method in between, against the method as a whole.
use pipeline_tools.Prelude.{
  ap, ◌∷◌, ℕ, suc, ◌≡◌, ◌≢◌, refl, Option, none, some, arith, ◌==◌, Bool-cases, inl, inr,
  Option-cases,
}
use pipeline_tools.Prelude.Store.{update, update_self}
use pipeline_tools.Prelude.Outcome.{modify, ◌>>◌}
use pipeline_tools.Memory.Shared.{
  ReleasedBuffer, List, release_block, add_ref, ControlBlock, parts, State, set_ctrl, release_ctrl,
  with_ref,
}
use pipeline_tools.Memory.Shared.Concurrent.Alone.{
  Same, Agree, Gives, alone, alone-at, alone-idle, dropping-Same, deleter_calls,
}
use pipeline_tools.Memory.Shared.Concurrent.{
  set_block, take_parts, keep, idle, constructing, assigning, exchanging, taking, taken, System,
  var, advance_at, deref, set_var, count_up, delete_block,
}

pub assigning-Same :
    {r : List (ℕ × ReleasedBuffer)} (i j x : ℕ) (c : Option ℕ) (s : System) (u : State)
    → s.vars i ≡ var c (assigning j x)
    → Same r s u
    → Agree r (alone 5 i s) ((do add_ref (some x); release_ctrl i; modify (set_ctrl i (some x))) u)
unfolding update advance_at add_ref
assigning-Same i j x c s u e w = elim (Option-cases (s.heap x)) [
  | inl h ↦
      let h' : u.heap x ≡ none = ground (arith, w.heap_same x) in
      rw (alone-at 4 i _ s e, advance_at, deref, h, add_ref, h') tt
  | inr (b, h) ↦
      let h' : u.heap x ≡ some b = ground (arith, w.heap_same x) in
      rw (alone-at 4 i _ s e, advance_at, deref, h, add_ref, h')
        (dropping-Same 0 i (keep (some x)) c _ _ tt (ground arith) (record {
          heap_same = λ a. ground (arith, w.heap_same a);
          ctrl_same = λ k. ground (arith, w.ctrl_same k, w.ctrl_same i);
          calls_same = w.calls_same;
          given_same = w.given_same;
        }))
]

pub constructing-Same :
    {r : List (ℕ × ReleasedBuffer)} (i j x : ℕ) (s : System) (u : State)
    → s.vars i ≡ var (some x) (constructing j)
    → ((k : ℕ) → i ≢ k → (s.vars k).ctrl ≡ u.ctrl k)
    → ((a : ℕ) → s.heap a ≡ u.heap a)
    → deleter_calls s.ended ≡ u.calls
    → s.given ≡ r
    → Agree r (alone 5 i s) ((do add_ref (some x); modify (set_ctrl i (some x))) u)
unfolding update advance_at add_ref
constructing-Same i j x s u e ctrls heaps ends gone = elim (Option-cases (s.heap x)) [
  | inl h ↦
      let h' : u.heap x ≡ none = ground (arith, heaps x) in
      rw (alone-at 4 i _ s e, advance_at, deref, h, add_ref, h') tt
  | inr (b, h) ↦
      let h' : u.heap x ≡ some b = ground (arith, heaps x) in
      rw
        (
          alone-at 4 i _ s e,
          advance_at,
          deref,
          h,
          add_ref,
          h',
          alone-idle 4 i (some x) (count_up i (var (some x) idle) s x b) (update_self s.vars i _),
        )
        (record {
          heap_same = λ a. ground (arith, heaps a);
          ctrl_same = λ k. ground (arith, ctrls k);
          calls_same = ends;
          given_same = gone;
        })
]

alone-taking :
    (m i a : ℕ) (b : ControlBlock) (s : System)
    → s.vars i ≡ var (some a) taking
    → s.heap a ≡ some b
    → alone (suc (suc m)) i s ≡ alone m i (delete_block i (var none idle) (take_parts i s a b) a b)
unfolding advance_at
alone-taking m i a b s e h =
    rw
      (
        alone-at (suc m) i _ s e,
        advance_at,
        deref,
        h,
        alone-at m i (var (some a) (taken (parts b))) (take_parts i s a b) (update_self s.vars i _),
        advance_at,
        deref,
        h,
      )
      refl

pub exchanging-Same :
    {r : List (ℕ × ReleasedBuffer)} (i x : ℕ) (s : System) (u : State)
    → s.vars i ≡ var (some x) exchanging
    → Same r s u
    → Gives r (alone 5 i s) (release_block i x u)
unfolding update advance_at release_block
exchanging-Same i x s u e w = elim (Option-cases (s.heap x)) [
  | inl h ↦
      let h' : u.heap x ≡ none = ground (arith, w.heap_same x) in
      rw (alone-at 4 i _ s e, advance_at, deref, h, release_block, h') tt
  | inr (b, h) ↦
      let h' : u.heap x ≡ some b = ground (arith, w.heap_same x) in
      let t = set_var i (var (some x) taking) (set_block x (some (with_ref 0 b)) s) in
      let v = delete_block i (var none idle) (take_parts i t x (with_ref 0 b)) x (with_ref 0 b) in
      elim (Bool-cases (b.ref == 1)) [
        | inl one ↦
            rw
              (
                alone-at 4 i _ s e,
                advance_at,
                deref,
                h,
                release_block,
                h',
                one,
                alone-taking 2 i x (with_ref 0 b) t (update_self s.vars i _)
                    (update_self s.heap x _),
                alone-idle 2 i none v (ground arith),
              )
              (
                x,
                record {
                  heap_same = λ a. ground (arith, w.heap_same a);
                  ctrl_same = λ k. ground (arith, w.ctrl_same k);
                  calls_same = w.calls_same;
                  given_same = ap (λ l. (x, parts b) ∷ l) w.given_same;
                },
              )
        | inr more ↦
            rw
              (
                alone-at 4 i _ s e,
                advance_at,
                deref,
                h,
                release_block,
                h',
                more,
                alone-idle 4 i (some x) (set_var i (var (some x) idle) s) (update_self s.vars i _),
              )
              (record {
                heap_same = λ a. ground (arith, w.heap_same a);
                ctrl_same = λ k. ground (arith, w.ctrl_same k, w.ctrl_same i);
                calls_same = w.calls_same;
                given_same = w.given_same;
              })
      ]
]
