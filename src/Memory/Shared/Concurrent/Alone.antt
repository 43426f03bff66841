-- ===== src/Memory/Shared/Concurrent/Alone.antt =====
-- Methods that no other method interrupts.
use pipeline_tools.Prelude.{
  ℕ, zero, suc, ◌+◌, ◌-◌, ◌%◌, ◌^◌, ◌≡◌, ◌≢◌, refl, Option, none, some, List, [], ◌∷◌, arith, ◌==◌,
  Bool-cases, inl, inr, Option-cases,
}
use pipeline_tools.Prelude.Store.{update, update_self}
use pipeline_tools.Prelude.Outcome.{Outcome, done, modify, and_then, undefined, Cmd, ◌>>◌}
use pipeline_tools.Memory.Buffer.{ReleasedBuffer, Ptr, Deleter}
use pipeline_tools.Memory.Shared
use pipeline_tools.Memory.Shared.{
  release_block, add_ref, ControlBlock, parts, State, set_ctrl, release_ctrl, after_drop, with_ref,
}
use pipeline_tools.Memory.Shared.Concurrent
use pipeline_tools.Memory.Shared.Concurrent.{
  After, keep, take_from, Pc, idle, constructing, assigning, dropping, last, deleting, cleared,
  exchanging, taking, taken, Var, System, M, var, reads, start_drop, advance, advance_at, deref,
  begin, Call, resets, releases, set_var, count_up, fetch_sub, delete_block, call_deleter,
  count_down,
}

-- The calls of deleters among the blocks that were ended.
abbrev pub deleter_calls : List (ℕ × ReleasedBuffer) → List (Deleter × Ptr)
deleter_calls [] = []
deleter_calls ((a, r) ∷ xs) = elim r.deleter [
  | none ↦ deleter_calls xs
  | some d ↦ (d, r.ptr) ∷ deleter_calls xs
]

-- A state of the variables as a whole, and a state that threads reach, in which `r` has been handed out.
pub record Same (r : List (ℕ × ReleasedBuffer)) (t : System) (u : State) : Type 0 where
  pub heap_same : (a : ℕ) → t.heap a ≡ u.heap a
  pub ctrl_same : (k : ℕ) → (t.vars k).ctrl ≡ u.ctrl k
  pub calls_same : deleter_calls t.ended ≡ u.calls
  pub given_same : t.given ≡ r

abbrev pub Agree :
    List (ℕ × ReleasedBuffer) → Outcome System (Unit {0}) → Outcome State (Unit {0}) → Type 0
Agree r (done _ t) (done _ u) = Same r t u
Agree r undefined undefined = Unit {0}
Agree _ _ _ = ⊥

-- What was handed out is `r`, and before it what the method returns.
abbrev pub HandsOut : List (ℕ × ReleasedBuffer) → Option ReleasedBuffer → System → State → Type 0
HandsOut r none t u = Same r t u
HandsOut r (some b) t u = (a : ℕ) × Same ((a, b) ∷ r) t u

abbrev pub Gives :
    List (ℕ × ReleasedBuffer)
    → Outcome System (Unit {0})
    → Outcome State (Option ReleasedBuffer)
    → Type 0
Gives r (done _ t) (done b u) = HandsOut r b t u
Gives r undefined undefined = Unit {0}
Gives _ _ _ = ⊥

unfoldable pub alone : ℕ → ℕ → M (Unit {0})
alone zero i s = done tt s
alone (suc k) i s = (do advance i; alone k i) s

pub alone-at :
    (k i : ℕ) (v : Var) (s : System)
    → s.vars i ≡ v
    → alone (suc k) i s ≡ and_then (advance_at i v.ctrl v.pc s) (λ _. alone k i)
unfolding alone advance
alone-at k i v s e = rw (← e) refl

pub alone-idle :
    (k i : ℕ) (c : Option ℕ) (s : System) → s.vars i ≡ var c idle → alone k i s ≡ done tt s
unfolding alone advance_at
alone-idle zero i c s e = refl
alone-idle (suc k) i c s e = rw (alone-at k i (var c idle) s e, advance_at) (alone-idle k i c s e)

-- `release_ctrl` and what follows it.
abbrev pub finish : ℕ → After → Cmd State (Unit {0})
finish i (keep c) = modify (set_ctrl i c)
finish i (take_from j) = modify (Shared.steal i j)

abbrev pub Apart : ℕ → After → Type 0
Apart i (keep c) = Unit {0}
Apart i (take_from j) = i ≢ j

cleared-Same :
    {r : List (ℕ × ReleasedBuffer)} (m i : ℕ) (k : After) (c : Option ℕ) (s : System) (u : State)
    → Apart i k
    → s.vars i ≡ var c (cleared k)
    → Same r s u
    → Agree r (alone (suc m) i s) (finish i k u)
unfolding update advance_at
cleared-Same m i (keep x) c s u ok e w =
    rw
      (
        alone-at m i _ s e,
        advance_at,
        alone-idle m i x (set_var i (var x idle) s) (update_self s.vars i _),
      )
      (record {
        heap_same = w.heap_same;
        ctrl_same = λ k. ground (arith, w.ctrl_same k);
        calls_same = w.calls_same;
        given_same = w.given_same;
      })
cleared-Same m i (take_from j) c s u ok e w =
    let left : (Concurrent.steal i j s).vars i ≡ var (s.vars j).ctrl idle = ground (arith, ok) in
    rw (alone-at m i _ s e, advance_at, alone-idle m i _ (Concurrent.steal i j s) left)
      (record {
        heap_same = w.heap_same;
        ctrl_same = λ k. ground (arith, w.ctrl_same k, w.ctrl_same j);
        calls_same = w.calls_same;
        given_same = w.given_same;
      })

abbrev dropped : ControlBlock → ControlBlock
dropped b = with_ref ((b.ref + 2 ^ 64 - 1) % 2 ^ 64) b

-- The last owner ends the block.
abbrev ended_block : ℕ → After → ℕ → ControlBlock → System → System
ended_block i k a b s = delete_block i (var none (cleared k)) (call_deleter i k s a b) a b

alone-last :
    (m i a : ℕ) (k : After) (b : ControlBlock) (s : System)
    → s.vars i ≡ var (some a) (last k)
    → s.heap a ≡ some b
    → alone (suc (suc m)) i s ≡ alone m i (ended_block i k a b s)
unfolding advance_at
alone-last m i a k b s e h =
    rw
      (
        alone-at (suc m) i _ s e,
        advance_at,
        deref,
        h,
        alone-at m i (var (some a) (deleting k)) (call_deleter i k s a b) (update_self s.vars i _),
        advance_at,
        deref,
        h,
      )
      refl

pub dropping-Same :
    {r : List (ℕ × ReleasedBuffer)} (m i : ℕ) (k : After) (c : Option ℕ) (s : System) (u : State)
    → Apart i k
    → s.vars i ≡ start_drop k c
    → Same r s u
    → Agree r (alone (suc (suc (suc (suc m)))) i s) ((do release_ctrl i; finish i k) u)
unfolding update advance_at release_ctrl after_drop
dropping-Same m i k none s u ok e w =
    let c : u.ctrl i ≡ none = ground (arith, w.ctrl_same i) in
    rw (c, release_ctrl) (cleared-Same (suc (suc (suc m))) i k none s u ok e w)
dropping-Same m i k (some a) s u ok e w =
    let c : u.ctrl i ≡ some a = ground (arith, w.ctrl_same i) in
    elim (Option-cases (s.heap a)) [
      | inl h ↦
          let h' : u.heap a ≡ none = ground (arith, w.heap_same a) in
          rw (alone-at _ i _ s e, advance_at, deref, h, c, release_ctrl, h') tt
      | inr (b, h) ↦
          let h' : u.heap a ≡ some b = ground (arith, w.heap_same a) in
          elim (Bool-cases (b.ref == 1)) [
            | inl one ↦
                rw (alone-at _ i _ s e, advance_at, deref, h, c, release_ctrl, h', one)
                  (rw
                    (alone-last (suc m) i a k (dropped b)
                      (set_var i (var (some a) (last k)) (fetch_sub a b s)) (update_self s.vars i _)
                      (update_self s.heap a _))
                    (cleared-Same m i k none _ _ ok (ground arith) (record {
                      heap_same = λ x. ground (arith, w.heap_same x);
                      ctrl_same = λ x. ground (arith, w.ctrl_same x);
                      calls_same = ground (arith, w.calls_same);
                      given_same = w.given_same;
                    })))
            | inr more ↦
                rw (alone-at _ i _ s e, advance_at, deref, h, c, release_ctrl, h', more)
                  (cleared-Same (suc (suc m)) i k none _ _ ok (update_self s.vars i _) (record {
                    heap_same = λ x. ground (arith, w.heap_same x);
                    ctrl_same = λ x. ground (arith, w.ctrl_same x);
                    calls_same = w.calls_same;
                    given_same = w.given_same;
                  }))
          ]
    ]
