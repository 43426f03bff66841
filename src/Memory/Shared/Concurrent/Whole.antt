-- ===== src/Memory/Shared/Concurrent/Whole.antt =====
-- The steps of a method, with no step of another in between, against the method as one step.
use pipeline_tools.Prelude.{
  ℕ, ◌≡◌, ◌≢◌, Option, none, some, arith, ◌==◌, Bool-cases, inl, inr, Option-cases, ◌||◌,
}
use pipeline_tools.Prelude.Store.{update, update_self}
use pipeline_tools.Prelude.Outcome.{
  and_then, done, thrown, blocked, undefined, out_of_fuel, terminated, modify, Cmd, ◌>>◌,
}
use pipeline_tools.Memory.Buffer.{ReleasedBuffer, Ptr, Deleter, MemoryLocation, null}
use pipeline_tools.Memory.Shared
use pipeline_tools.Memory.Shared.{
  Outcome, pure, List, release_block, add_ref, construct, copy_construct, copy_assign,
  move_construct, move_assign, reset, release, ControlBlock, parts, State, set_ctrl, release_ctrl,
  after_drop, with_ref,
}
use pipeline_tools.Memory.Shared.Concurrent.AloneMethods.{
  assigning-Same, constructing-Same, exchanging-Same,
}
use pipeline_tools.Memory.Shared.Concurrent.Alone.{
  Gives, Same, Agree, alone, alone-idle, dropping-Same,
}
use pipeline_tools.Memory.Shared.Concurrent.{
  After, keep, take_from, idle, System, var, start_drop, begin, Call, resets, releases, constructs,
  copy_constructs, copy_assigns, move_constructs, move_assigns, swaps, Ready, set_var,
}

-- The methods as one step; only `release` returns something.
abbrev pub method : ℕ → Call → Cmd State (Option ReleasedBuffer)
method i (constructs fresh ptr size d loc) = do modify (construct fresh i ptr size d loc); pure none
method i (copy_constructs j) = do copy_construct i j; pure none
method i (copy_assigns j) = do copy_assign i j; pure none
method i (move_constructs j) = do move_construct i j; pure none
method i (move_assigns j) = do move_assign i j; pure none
method i (swaps j) = do Shared.swap i j; pure none
method i resets = do reset i; pure none
method i releases = release i

Agree-Gives :
    (r : List (ℕ × ReleasedBuffer)) (o : Outcome System (Unit {0})) (u : Outcome State (Unit {0}))
    → Agree r o u
    → Gives r o (and_then u (λ _. pure none))
Agree-Gives r (done _ t) (done _ u) w = w
Agree-Gives r (done _ t) (thrown e u) w = elim w [ ]
Agree-Gives r (done _ t) blocked w = elim w [ ]
Agree-Gives r (done _ t) undefined w = elim w [ ]
Agree-Gives r (done _ t) out_of_fuel w = elim w [ ]
Agree-Gives r (done _ t) terminated w = elim w [ ]
Agree-Gives r undefined (done _ u) w = elim w [ ]
Agree-Gives r undefined (thrown e u) w = elim w [ ]
Agree-Gives r undefined blocked w = elim w [ ]
Agree-Gives r undefined undefined w = tt
Agree-Gives r undefined out_of_fuel w = elim w [ ]
Agree-Gives r undefined terminated w = elim w [ ]
Agree-Gives r (thrown e t) u w = elim w [ ]
Agree-Gives r blocked u w = elim w [ ]
Agree-Gives r out_of_fuel u w = elim w [ ]
Agree-Gives r terminated u w = elim w [ ]

-- The method ended with `t`, and the whole method with `v`.
quiet-Same :
    {r : List (ℕ × ReleasedBuffer)} (i : ℕ) (c : Option ℕ) (t : System) (v : State)
    → t.vars i ≡ var c idle
    → Same r t v
    → Agree r (alone 5 i t) (done tt v)
quiet-Same i c t v e w = rw (alone-idle 5 i c t e) w

module _ {r : List (ℕ × ReleasedBuffer)} (i : ℕ) (s : System) (u : State) (w : Same r s u) where
  construct-Same :
      (fresh : ℕ) (ptr : Ptr) (size : ℕ) (d : Option Deleter) (loc : MemoryLocation)
      → Agree r
          (alone 5 i (begin i (constructs fresh ptr size d loc) s))
          (done tt (construct fresh i ptr size d loc u))
  unfolding begin construct update
  construct-Same fresh ptr size d loc = elim (Bool-cases (ptr == null || size == 0)) [
    | inl nothing ↦ rw nothing (
        quiet-Same i none _ _ (update_self s.vars i _) (record {
          heap_same = w.heap_same;
          ctrl_same = λ k. ground (arith, w.ctrl_same k);
          calls_same = w.calls_same;
          given_same = w.given_same;
        }))
    | inr real ↦ rw real (
        quiet-Same i (some fresh) _ _ (update_self s.vars i _) (record {
          heap_same = λ a. ground (arith, w.heap_same a);
          ctrl_same = λ k. ground (arith, w.ctrl_same k);
          calls_same = w.calls_same;
          given_same = w.given_same;
        }))
  ]

  copy_construct-Same :
      (j : ℕ) → Agree r (alone 5 i (begin i (copy_constructs j) s)) (copy_construct i j u)
  unfolding begin copy_construct update add_ref
  copy_construct-Same j = elim (Option-cases (s.vars j).ctrl) [
    | inl h ↦
        let h' : u.ctrl j ≡ none = ground (arith, w.ctrl_same j) in
        rw (h, h', add_ref)
          (quiet-Same i none _ _ (update_self s.vars i _) (record {
            heap_same = w.heap_same;
            ctrl_same = λ k. ground (arith, w.ctrl_same k);
            calls_same = w.calls_same;
            given_same = w.given_same;
          }))
    | inr (x, h) ↦
        let h' : u.ctrl j ≡ some x = ground (arith, w.ctrl_same j) in
        rw (h, h')
          (constructing-Same i j x _ u (update_self s.vars i _)
            (λ k apart. ground (arith, w.ctrl_same k)) w.heap_same w.calls_same w.given_same)
  ]

  starts-Same : (k : After) → Same r (set_var i (start_drop k (s.vars i).ctrl) s) u
  unfolding update
  starts-Same k = record {
    heap_same = w.heap_same;
    ctrl_same = λ x. ground (arith, w.ctrl_same x);
    calls_same = w.calls_same;
    given_same = w.given_same;
  }

  reset-Same : Agree r (alone 5 i (begin i resets s)) (reset i u)
  unfolding begin reset
  reset-Same =
      dropping-Same 1 i (keep none) (s.vars i).ctrl _ u tt (update_self s.vars i _)
        (starts-Same (keep none))

  copy_assign-Same :
      (j : ℕ)
      → (s.vars i).pc ≡ idle
      → Agree r (alone 5 i (begin i (copy_assigns j) s)) (copy_assign i j u)
  unfolding begin copy_assign update add_ref
  copy_assign-Same j quiet = elim (Bool-cases (i == j)) [
    | inl same ↦ rw same (quiet-Same i (s.vars i).ctrl s u (ground (arith, quiet)) w)
    | inr apart ↦ elim (Option-cases (s.vars j).ctrl) [
      | inl h ↦
          let h' : u.ctrl j ≡ none = ground (arith, w.ctrl_same j) in
          rw (apart, h, h', add_ref)
            (dropping-Same 1 i (keep none) (s.vars i).ctrl _ u tt (update_self s.vars i _)
              (starts-Same (keep none)))
      | inr (x, h) ↦
          let h' : u.ctrl j ≡ some x = ground (arith, w.ctrl_same j) in
          rw (apart, h, h')
            (assigning-Same i j x (s.vars i).ctrl _ u (update_self s.vars i _) (record {
              heap_same = w.heap_same;
              ctrl_same = λ k. ground (arith, w.ctrl_same k);
              calls_same = w.calls_same;
              given_same = w.given_same;
            }))
    ]
  ]

  move_assign-Same :
      (j : ℕ)
      → (s.vars i).pc ≡ idle
      → Agree r (alone 5 i (begin i (move_assigns j) s)) (move_assign i j u)
  unfolding begin move_assign
  move_assign-Same j quiet = elim (Bool-cases (i == j)) [
    | inl same ↦ rw same (quiet-Same i (s.vars i).ctrl s u (ground (arith, quiet)) w)
    | inr apart ↦ rw apart (
        dropping-Same 1 i (take_from j) (s.vars i).ctrl _ u (ground arith) (update_self s.vars i _)
          (starts-Same (take_from j)))
  ]

  release-Same : (s.vars i).pc ≡ idle → Gives r (alone 5 i (begin i releases s)) (release i u)
  unfolding begin release update
  release-Same quiet = elim (Option-cases (s.vars i).ctrl) [
    | inl h ↦
        let h' : u.ctrl i ≡ none = ground (arith, w.ctrl_same i) in
        rw (h, h', release, alone-idle 5 i none s (ground (arith, quiet))) w
    | inr (x, h) ↦
        let h' : u.ctrl i ≡ some x = ground (arith, w.ctrl_same i) in
        rw (h, h', release)
          (exchanging-Same i x _ u (update_self s.vars i _) (record {
            heap_same = w.heap_same;
            ctrl_same = λ k. ground (arith, w.ctrl_same k);
            calls_same = w.calls_same;
            given_same = w.given_same;
          }))
  ]

  move_construct-Same :
      (j : ℕ) → i ≢ j → Agree r (alone 5 i (begin i (move_constructs j) s)) (move_construct i j u)
  unfolding begin move_construct update
  move_construct-Same j apart = quiet-Same i (s.vars j).ctrl _ _ (ground (arith, apart)) (record {
    heap_same = w.heap_same;
    ctrl_same = λ k. ground (arith, w.ctrl_same k, w.ctrl_same j);
    calls_same = w.calls_same;
    given_same = w.given_same;
  })

  swap-Same : (j : ℕ) → Agree r (alone 5 i (begin i (swaps j) s)) (Shared.swap i j u)
  unfolding begin Shared.swap update
  swap-Same j = elim (Bool-cases (i == j)) [
    | inl same ↦ quiet-Same i (s.vars i).ctrl _ _ (ground (arith, same)) (record {
      heap_same = w.heap_same;
      ctrl_same = λ k. ground (arith, w.ctrl_same k, w.ctrl_same i, w.ctrl_same j);
      calls_same = w.calls_same;
      given_same = w.given_same;
    })
    | inr apart ↦ quiet-Same i (s.vars j).ctrl _ _ (ground (arith, apart)) (record {
      heap_same = w.heap_same;
      ctrl_same = λ k. ground (arith, w.ctrl_same k, w.ctrl_same i, w.ctrl_same j);
      calls_same = w.calls_same;
      given_same = w.given_same;
    })
  ]

-- A method that its caller may start, and that runs its accesses with none of another method in
-- between, does what the method does as one step: the same blocks, the same pointers, the same calls
-- of deleters, and the parts it hands out are those that the method returns; and one accesses a block
-- that is not there when the other does.
pub alone-method :
    (n i : ℕ) (o : Call) {r : List (ℕ × ReleasedBuffer)} (s : System) (u : State)
    → Ready n i o s
    → Same r s u
    → Gives r (alone 5 i (begin i o s)) (method i o u)
alone-method n i (constructs fresh ptr size d loc) s u ok w =
    Agree-Gives _ _ _ (construct-Same i s u w fresh ptr size d loc)
alone-method n i (copy_constructs j) s u ok w = Agree-Gives _ _ _ (copy_construct-Same i s u w j)
alone-method n i (copy_assigns j) s u (free, _, _) w =
    Agree-Gives _ _ _ (copy_assign-Same i s u w j free.quiet)
alone-method n i (move_constructs j) s u (two, empty, apart) w =
    Agree-Gives _ _ _ (move_construct-Same i s u w j apart)
alone-method n i (move_assigns j) s u two w =
    Agree-Gives _ _ _ (move_assign-Same i s u w j two.left.quiet)
alone-method n i (swaps j) s u two w = Agree-Gives _ _ _ (swap-Same i s u w j)
alone-method n i resets s u free w = Agree-Gives _ _ _ (reset-Same i s u w)
alone-method n i releases s u free w = release-Same i s u w free.quiet
