-- ===== src/Memory/Unique/Ownership.antt =====
-- Who owns a pointer: whatever is done with a set of unique buffers, a deleter runs once at most, and
-- it runs for each pointer that is neither held by a buffer nor released to the caller.
use pipeline_tools.Prelude.{
  ℕ, ◌+◌, ◌<◌, ◌≡◌, ◌≢◌, refl, ap, ◌∙◌, Bool, false, ◌&&◌, Option, none, some, List, [], ◌∷◌, arith,
  ◌==◌, if◌then◌else◌,
}
use pipeline_tools.Prelude.Store.{update, tally, tally-update}
use pipeline_tools.Memory.Buffer.{Ptr, null, Deleter, ReleasedBuffer}
use pipeline_tools.Memory.Unique.{
  call_if, UniqueBuffer, Scope, move_construct, swap, release_at, reset_at, move_assign, unowned,
}

-- The calls of deleters so far.
abbrev pub Calls : Type 0
Calls = List (Deleter × Ptr)

abbrev pub record_call : Deleter → Ptr → Calls → Calls
record_call d p calls = (d, p) ∷ calls

pub data Op : Type 0 where
  moves swaps : ℕ → ℕ → Op
  resets releases : ℕ → Op

pub record State (W : Type 0) : Type 0 where
  pub scope : Scope W
  pub released : List ReleasedBuffer

module _ {W : Type 0} (call : Deleter → Ptr → W → W) where
  unfoldable pub step : Op → State W → State W
  unfolding move_assign swap reset_at release_at
  step (moves i j) s = record s { scope = move_assign call i j s.scope }
  step (swaps i j) s = record s { scope = swap i j s.scope }
  step (resets i) s = record s { scope = reset_at call i s.scope }
  step (releases i) s =
      let (rb, scope) = release_at i s.scope in record { scope = scope; released = rb ∷ s.released }

  unfoldable pub run : List Op → State W → State W
  unfolding step
  run [] s = s
  run (o ∷ os) s = run os (step o s)

abbrev pub is_deleter : Option Deleter → Deleter → Bool
is_deleter none d = false
is_deleter (some e) d = e == d

abbrev pub one_if : Bool → ℕ
one_if b = if b then 1 else 0

module _ (d : Deleter) (p : Ptr) where
  abbrev pub owns : UniqueBuffer → ℕ
  owns b = one_if (b.data_ == p && is_deleter b.deleter_ d)

  abbrev pub released_of : List ReleasedBuffer → ℕ
  released_of [] = 0
  released_of (rb ∷ rbs) = one_if (rb.ptr == p && is_deleter rb.deleter d) + released_of rbs

  abbrev pub is_pair : Deleter → Ptr → Bool
  is_pair e q = q == p && e == d

  abbrev pub calls_of : Calls → ℕ
  calls_of [] = 0
  calls_of ((e, q) ∷ cs) = one_if (is_pair e q) + calls_of cs

  -- The buffers among the first `n` that hold the pair, the calls of it that the world counts by
  -- `measure`, and its releases.
  unfoldable pub total : {W : Type 0} → (W → ℕ) → ℕ → State W → ℕ
  total measure n s = tally n owns s.scope.buffers + measure s.scope.world + released_of s.released

abbrev pub InScope : ℕ → Op → Type 0
InScope n (moves i j) = (i < n) × (j < n)
InScope n (swaps i j) = (i < n) × (j < n)
InScope n (resets i) = i < n
InScope n (releases i) = i < n

abbrev pub AllInScope : ℕ → List Op → Type 0
AllInScope n [] = Unit {0}
AllInScope n (o ∷ os) = InScope n o × AllInScope n os

module _ {W : Type 0} (call : Deleter → Ptr → W → W) (d : Deleter) (p : Ptr) (measure : W → ℕ)
    (counts : (e : Deleter) (q : Ptr) (w : W)
      → measure (call e q w) ≡ one_if (is_pair d p e q) + measure w)
    (n : ℕ) (real : p ≢ null) where
  pub call_if-counts :
      (o : Option Deleter) (q : Ptr) (w : W)
      → measure (call_if call o q w) ≡ one_if (q == p && is_deleter o d) + measure w
  call_if-counts none q w = ground arith
  call_if-counts (some e) q w = counts e q w

  pub reset_at-total :
      (i : ℕ) (s : State W)
      → i < n
      → let t : State W = record s { scope = reset_at call i s.scope } in
        (total d p measure n t ≡ total d p measure n s) × (owns d p (t.scope.buffers i) ≡ 0)
  unfolding reset_at total update
  reset_at-total i s h =
      let b = s.scope.buffers i in
      ground (
        arith,
        tally-update n i (owns d p) s.scope.buffers unowned h,
        tally-update n i (owns d p) s.scope.buffers (record b { deleter_ = none }) h,
        call_if-counts b.deleter_ b.data_ s.scope.world,
      )

  -- Two writes, at different places.
  tally-two :
      (i j : ℕ) (s : ℕ → UniqueBuffer) (a b : UniqueBuffer)
      → i ≢ j
      → i < n
      → j < n
      → tally n (owns d p) (update (update s i a) j b) + owns d p (s j) + owns d p (s i)
        ≡ tally n (owns d p) s + owns d p a + owns d p b
  unfolding update
  tally-two i j s a b apart hi hj =
      let second = tally-update n j (owns d p) (update s i a) b hj in
      let same : update s i a j ≡ s j = ground arith in
      omega (arith, second, ap (owns d p) same, tally-update n i (owns d p) s a hi)

  move_construct-total :
      (i j : ℕ) (s : State W)
      → i ≢ j
      → i < n
      → j < n
      → owns d p (s.scope.buffers i) ≡ 0
      → total d p measure n (record s { scope = move_construct i j s.scope })
        ≡ total d p measure n s
  unfolding move_construct total
  move_construct-total i j s apart hi hj e =
      ground (arith, tally-two i j s.scope.buffers (s.scope.buffers j) unowned apart hi hj)

  moves-total :
      (i j : ℕ) (s : State W)
      → i < n
      → j < n
      → total d p measure n (record s { scope = move_assign call i j s.scope })
        ≡ total d p measure n s
  unfolding move_assign
  moves-total i j s hi hj =
      let (kept, freed) = reset_at-total i s hi in
      let t : State W = record s { scope = reset_at call i s.scope } in
      ground (arith, kept, λ (apart : i ≢ j). move_construct-total i j t apart hi hj freed)

  swaps-total :
      (i j : ℕ) (s : State W)
      → i < n
      → j < n
      → total d p measure n (record s { scope = swap i j s.scope }) ≡ total d p measure n s
  unfolding swap total update
  swaps-total i j s hi hj =
      let b = s.scope.buffers in
      let same : update b i (b j) j ≡ b j = ground arith in
      omega (
        arith,
        tally-update n j (owns d p) (update b i (b j)) (b i) hj,
        ap (owns d p) same,
        tally-update n i (owns d p) b (b j) hi,
      )

  pub step-total :
      (o : Op) (s : State W)
      → InScope n o
      → total d p measure n (step call o s) ≡ total d p measure n s
  unfolding step
  step-total (moves i j) s h = moves-total i j s h.0 h.1
  step-total (swaps i j) s h = swaps-total i j s h.0 h.1
  step-total (resets i) s h = (reset_at-total i s h).0
  step-total (releases i) s h =
      unfold total in ground (arith, tally-update n i (owns d p) s.scope.buffers unowned h)

  -- No sequence of moves, swaps, resets and releases changes, for a pointer and its deleter, the number
  -- of buffers that hold them plus the calls that were made plus the releases.
  pub run-total :
      (os : List Op) (s : State W)
      → AllInScope n os
      → total d p measure n (run call os s) ≡ total d p measure n s
  unfolding run
  run-total [] s h = refl
  run-total (o ∷ os) s h = run-total os (step call o s) h.1 ∙ step-total o s h.0

pub record_call-counts :
    (d : Deleter) (p : Ptr) (e : Deleter) (q : Ptr) (calls : Calls)
    → calls_of d p (record_call e q calls) ≡ one_if (is_pair d p e q) + calls_of d p calls
record_call-counts d p e q calls = refl

-- In particular: a pointer that one buffer holds, that was never passed to its deleter and never
-- released, has been passed to its deleter once when no buffer holds it and none has released it.
pub run-once :
    (d : Deleter) (p : Ptr) (n : ℕ) (os : List Op) (s : State Calls)
    → p ≢ null
    → AllInScope n os
    → total d p (calls_of d p) n s ≡ 1
    → tally n (owns d p) (run record_call os s).scope.buffers ≡ 0
    → released_of d p (run record_call os s).released ≡ 0
    → calls_of d p (run record_call os s).scope.world ≡ 1
run-once d p n os s real h one gone kept =
    let e = run-total record_call d p (calls_of d p) (record_call-counts d p) n real os s h in
    unfold total in omega (arith, e)
