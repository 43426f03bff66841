-- ===== src/Memory/Shared/Concurrent/Counted.antt =====
-- The counts among threads: who holds a handle on a block, and who is about to end it.
use pipeline_tools.Prelude.{
  ℕ, zero, suc, ◌+◌, ◌≤◌, ◌<◌, ◌≡◌, ◌≢◌, false, Option, none, some, List, [], ◌∷◌, arith, ◌==◌,
  if◌then◌else◌, Bool-cases, inl, inr,
}
use pipeline_tools.Prelude.Store.{update, tally}
use pipeline_tools.Memory.Buffer.{ReleasedBuffer}
use pipeline_tools.Memory.Shared.{ControlBlock, parts}
use pipeline_tools.Memory.Shared.Counting.{points, ref_of}
use pipeline_tools.Memory.Shared.Concurrent.{
  After, keep, take_from, Pc, idle, constructing, assigning, dropping, last, deleting, cleared,
  exchanging, taking, taken, Var, System, reads,
}

-- The handles that a variable counts for: its own, and the one that an assignment has added.
abbrev pub held : ℕ → After → ℕ
held a (keep new) = points a new
held a (take_from j) = 0

abbrev pub owned : ℕ → Option ℕ → Pc → ℕ
owned a c idle = points a c
owned a c (constructing j) = 0
owned a c (assigning j x) = points a c
owned a c (dropping k) = points a c + held a k
owned a c (last k) = held a k
owned a c (deleting k) = held a k
owned a c (cleared k) = held a k
owned a c exchanging = points a c
owned a c taking = 0
owned a c (taken r) = 0

-- The variable is to run the deleter of the block or to take its parts out.
abbrev pub undecided : ℕ → Option ℕ → Pc → ℕ
undecided a c (last k) = points a c
undecided a c taking = points a c
undecided a c _ = 0

-- It has done so, and is to delete the block.
abbrev pub settled : ℕ → Option ℕ → Pc → ℕ
settled a c (deleting k) = points a c
settled a c (taken r) = points a c
settled a c _ = 0

abbrev pub own : ℕ → Var → ℕ
own a v = owned a v.ctrl v.pc

abbrev pub to_end : ℕ → Var → ℕ
to_end a v = undecided a v.ctrl v.pc

abbrev pub to_delete : ℕ → Var → ℕ
to_delete a v = settled a v.ctrl v.pc

-- A block whose count is zero is owed an end.
abbrev pub due : Option ControlBlock → ℕ
due none = 0
due (some b) = if b.ref == 0 then 1 else 0

-- The weight of the parts that a list of blocks has at the address `a`.
unfoldable pub weigh : (ReleasedBuffer → ℕ) → ℕ → List (ℕ × ReleasedBuffer) → ℕ
weigh f a [] = 0
weigh f a ((c, r) ∷ xs) = (if c == a then f r else 0) + weigh f a xs

abbrev pub weight : (ReleasedBuffer → ℕ) → Option ControlBlock → ℕ
weight f none = 0
weight f (some b) = f (parts b)

-- Each count is the number of handles; one variable is to end a block whose count is zero, and none a
-- block that has handles; what was made has been ended, was handed out, or is still there.
pub record CountsAt (n : ℕ) (f : ReleasedBuffer → ℕ) (s : System) (a : ℕ) : Type 0 where
  pub counted : ref_of (s.heap a) ≡ tally n (own a) s.vars
  pub ending : tally n (to_end a) s.vars + tally n (to_delete a) s.vars ≡ due (s.heap a)
  pub ledger :
      weigh f a s.made
      ≡ weigh f a s.ended
        + weigh f a s.given
        + (if tally n (to_delete a) s.vars == 0 then weight f (s.heap a) else 0)

-- A method that is to reach a block through a variable finds it there.
abbrev pub Sound : ℕ → (ℕ → Var) → Option ℕ → Pc → Type 0
Sound n v c (constructing j) = (j < n) × ((v j).pc ≡ idle) × ((v j).ctrl ≡ c) × (c ≢ none)
Sound n v c (assigning j x) = (j < n) × ((v j).pc ≡ idle) × ((v j).ctrl ≡ some x)
Sound n v c idle = Unit {0}
Sound n v c (cleared k) = Unit {0}
Sound n v c _ = c ≢ none

pub record Inv (n : ℕ) (f : ReleasedBuffer → ℕ) (s : System) : Type 0 where
  pub at : (a : ℕ) → CountsAt n f s a
  pub sound : (k : ℕ) → Sound n s.vars (s.vars k).ctrl (s.vars k).pc

owned-le : (a : ℕ) (v : Var) → own a v ≤ 2
owned-le a v = ground arith

tally-le : {A : Type 0} (n : ℕ) (f : A → ℕ) (s : ℕ → A) → ((x : A) → f x ≤ 2) → tally n f s ≤ n + n
unfolding tally
tally-le zero f s h = omega arith
tally-le (suc n) f s h = omega (arith, tally-le n f s h, h (s n))

pub tally-own : (n a : ℕ) (v : ℕ → Var) → tally n (own a) v ≤ n + n
tally-own n a v = tally-le n (own a) v (owned-le a)

Sound-set :
    (n : ℕ) (v : ℕ → Var) (i : ℕ) (x : Var) (c : Option ℕ) (p : Pc)
    → reads i p ≡ false
    → Sound n v c p
    → Sound n (update v i x) c p
unfolding update reads
Sound-set n v i x c p u w = ground arith

-- A variable that no method reads may change.
pub Sound-update :
    (n : ℕ) (v : ℕ → Var) (i : ℕ) (x : Var)
    → ((k : ℕ) → reads i (v k).pc ≡ false)
    → ((k : ℕ) → Sound n v (v k).ctrl (v k).pc)
    → Sound n (update v i x) x.ctrl x.pc
    → (k : ℕ) → Sound n (update v i x) (update v i x k).ctrl (update v i x k).pc
Sound-update n v i x u w new k = elim (Bool-cases (i == k)) [
  | inl e ↦ unfold update in rw e new
  | inr e ↦ let old = Sound-set n v i x (v k).ctrl (v k).pc (u k) (w k) in unfold update in rw e old
]
