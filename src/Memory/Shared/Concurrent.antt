-- ===== src/Memory/Shared/Concurrent.antt =====
-- shared_buffer.hpp among threads: the methods one access to the shared control block at a time, in any
-- order of the variables. The caller's part is that of any object: no variable is used while a method
-- changes it, except that several may read one. The accesses themselves are sequentially consistent.
mod Tests
pub mod Counted
pub mod Changes
pub mod Advances
pub mod Calls
pub mod Safety
pub mod Alone
pub mod AloneMethods
pub mod Whole
pub mod WaitFree
use pipeline_tools.Prelude.{
  ℕ, zero, ◌+◌, ◌-◌, ◌%◌, ◌^◌, ◌≤◌, ◌<◌, ◌≡◌, ◌≢◌, Bool, true, false, ◌||◌, Option, none, some,
  List, [], ◌∷◌, ◌==◌, if◌then◌else◌,
}
use pipeline_tools.Prelude.Store.{update}
use pipeline_tools.Prelude.Outcome.{Outcome, done, undefined, Cmd, modify}
use pipeline_tools.Memory.Buffer.{MemoryLocation, Ptr, null, Deleter, ReleasedBuffer}
use pipeline_tools.Memory.Shared.{ControlBlock, with_ref, parts}

-- What a method does behind its `release_ctrl`: `ctrl_ = new_ctrl`, or the move out of a variable.
pub data After : Type 0 where
  keep : Option ℕ → After
  take_from : ℕ → After

-- Where a method of a variable stands: in none, before the `fetch_add` of the copy constructor or the
-- copy assignment, before the `fetch_sub`, before the deleter, before a `delete`, behind `release_ctrl`,
-- and before the exchange, the reads and the `delete` of `release`.
pub data Pc : Type 0 where
  idle : Pc
  constructing : (other : ℕ) → Pc
  assigning : (other new_ctrl : ℕ) → Pc
  dropping last deleting cleared : After → Pc
  exchanging taking : Pc
  taken : ReleasedBuffer → Pc

pub record Var : Type 0 where
  pub ctrl : Option ℕ
  pub pc : Pc

-- `made`, `ended` and `given` list the blocks that were made, ended by a deleter and handed out.
pub record System : Type 0 where
  pub heap : ℕ → Option ControlBlock
  pub vars : ℕ → Var
  pub made : List (ℕ × ReleasedBuffer)
  pub ended : List (ℕ × ReleasedBuffer)
  pub given : List (ℕ × ReleasedBuffer)

abbrev pub M : Type 0 → Type 0
M A = Cmd System A

abbrev pub var : Option ℕ → Pc → Var
var c p = record { ctrl = c; pc = p }

abbrev pub set_var : ℕ → Var → System → System
set_var i v s = record s { vars = update s.vars i v }

abbrev pub set_block : ℕ → Option ControlBlock → System → System
set_block a b s = record s { heap = update s.heap a b }

-- Another method call, up to its first access to a block.
pub data Call : Type 0 where
  constructs : (fresh : ℕ) → Ptr → (size : ℕ) → Option Deleter → MemoryLocation → Call
  copy_constructs copy_assigns move_constructs move_assigns swaps : (other : ℕ) → Call
  resets releases : Call

-- `release_ctrl` up to its `fetch_sub`, from a variable that has `c`.
abbrev pub start_drop : After → Option ℕ → Var
start_drop k none = var none (cleared k)
start_drop k (some a) = var (some a) (dropping k)

abbrev pub steal : ℕ → ℕ → System → System
steal i j s = record s {
  vars = update (update s.vars i (var (s.vars j).ctrl idle)) j (var none idle);
}

abbrev pub exchange : ℕ → ℕ → System → System
exchange i j s = record s {
  vars = update (update s.vars i (var (s.vars j).ctrl idle)) j (var (s.vars i).ctrl idle);
}

abbrev pub read_other : ℕ → ℕ → Option ℕ → System → System
read_other i j none s = set_var i (var none idle) s
read_other i j (some a) s = set_var i (var (some a) (constructing j)) s

abbrev pub assign_other : ℕ → ℕ → Option ℕ → System → System
assign_other i j none s = set_var i (start_drop (keep none) (s.vars i).ctrl) s
assign_other i j (some a) s = set_var i (var (s.vars i).ctrl (assigning j a)) s

abbrev pub open_release : ℕ → Option ℕ → System → System
open_release i none s = s
open_release i (some a) s = set_var i (var (some a) exchanging) s

abbrev pub new_block : Ptr → ℕ → Option Deleter → MemoryLocation → ControlBlock
new_block ptr size d loc = record { ref = 1; ptr = ptr; size = size; deleter = d; location = loc }

unfoldable pub begin : ℕ → Call → System → System
begin i (constructs fresh ptr size d loc) s =
    if ptr == null || size == 0 then set_var i (var none idle) s else record s {
      heap = update s.heap fresh (some (new_block ptr size d loc));
      vars = update s.vars i (var (some fresh) idle);
      made = (fresh, parts (new_block ptr size d loc)) ∷ s.made;
    }
begin i (copy_constructs j) s = read_other i j (s.vars j).ctrl s
begin i (copy_assigns j) s = if i == j then s else assign_other i j (s.vars j).ctrl s
begin i (move_constructs j) s = steal i j s
begin i (move_assigns j) s =
    if i == j then s else set_var i (start_drop (take_from j) (s.vars i).ctrl) s
begin i (swaps j) s = exchange i j s
begin i resets s = set_var i (start_drop (keep none) (s.vars i).ctrl) s
begin i releases s = open_release i (s.vars i).ctrl s

-- An access to the block that `c` points to.
abbrev pub deref : Option ℕ → System → (ℕ → ControlBlock → System) → Outcome System (Unit {0})
deref none s k = undefined
deref (some a) s k = elim (s.heap a) [ none ↦ undefined | some b ↦ done tt (k a b) ]

abbrev pub fetch_add : ℕ → ControlBlock → System → System
fetch_add a b = set_block a (some (with_ref ((b.ref + 1) % 2 ^ 64) b))

abbrev pub fetch_sub : ℕ → ControlBlock → System → System
fetch_sub a b = set_block a (some (with_ref ((b.ref + 2 ^ 64 - 1) % 2 ^ 64) b))

-- What each access of a method of variable `i`, which points to `a`, does up to the next one.
abbrev pub count_up : ℕ → Var → System → ℕ → ControlBlock → System
count_up i v s a b = set_var i v (fetch_add a b s)

abbrev pub count_down : ℕ → After → System → ℕ → ControlBlock → System
count_down i k s a b =
    if b.ref == 1
    then set_var i (var (some a) (last k)) (fetch_sub a b s)
    else set_var i (var none (cleared k)) (fetch_sub a b s)

abbrev pub call_deleter : ℕ → After → System → ℕ → ControlBlock → System
call_deleter i k s a b = record s {
  ended = (a, parts b) ∷ s.ended;
  vars = update s.vars i (var (some a) (deleting k));
}

abbrev pub delete_block : ℕ → Var → System → ℕ → ControlBlock → System
delete_block i v s a b = set_var i v (set_block a none s)

abbrev pub try_exchange : ℕ → System → ℕ → ControlBlock → System
try_exchange i s a b =
    if b.ref == 1
    then set_var i (var (some a) taking) (set_block a (some (with_ref 0 b)) s)
    else set_var i (var (some a) idle) s

abbrev pub take_parts : ℕ → System → ℕ → ControlBlock → System
take_parts i s a b = record s {
  given = (a, parts b) ∷ s.given;
  vars = update s.vars i (var (some a) (taken (parts b)));
}

-- The next access of the method that variable `i` is in, with what follows it up to the next one.
unfoldable pub advance_at : ℕ → Option ℕ → Pc → System → Outcome System (Unit {0})
advance_at i c idle s = done tt s
advance_at i c (constructing j) s = deref c s (count_up i (var c idle) s)
advance_at i c (assigning j x) s = deref (some x) s (count_up i (start_drop (keep (some x)) c) s)
advance_at i c (dropping k) s = deref c s (count_down i k s)
advance_at i c (last k) s = deref c s (call_deleter i k s)
advance_at i c (deleting k) s = deref c s (delete_block i (var none (cleared k)) s)
advance_at i c (cleared (keep x)) s = done tt (set_var i (var x idle) s)
advance_at i c (cleared (take_from j)) s = done tt (steal i j s)
advance_at i c exchanging s = deref c s (try_exchange i s)
advance_at i c taking s = deref c s (take_parts i s)
advance_at i c (taken r) s = deref c s (delete_block i (var none idle) s)

unfoldable pub advance : ℕ → M (Unit {0})
unfolding advance_at
advance i s = advance_at i (s.vars i).ctrl (s.vars i).pc s

-- The variable that a method is about to reach the count of.
unfoldable pub reads : ℕ → Pc → Bool
reads j (constructing k) = j == k
reads j (assigning k a) = j == k
reads j _ = false

-- No method uses the variable.
pub record Free (i : ℕ) (s : System) : Type 0 where
  pub quiet : (s.vars i).pc ≡ idle
  pub unread : (k : ℕ) → reads i (s.vars k).pc ≡ false

pub record Pair (n i j : ℕ) (s : System) : Type 0 where
  pub left : Free i s
  pub right : Free j s
  pub within : j < n

-- What a caller owes: a variable that is constructed holds nothing yet, and `new` gives an unused address.
abbrev pub Ready : ℕ → ℕ → Call → System → Type 0
Ready n i (constructs fresh ptr size d loc) s =
    Free i s × ((s.vars i).ctrl ≡ none) × (s.heap fresh ≡ none)
Ready n i (copy_constructs j) s =
    Free i s × ((s.vars i).ctrl ≡ none) × (i ≢ j) × (j < n) × ((s.vars j).pc ≡ idle)
Ready n i (copy_assigns j) s = Free i s × (j < n) × ((s.vars j).pc ≡ idle)
Ready n i (move_constructs j) s = Pair n i j s × ((s.vars i).ctrl ≡ none) × (i ≢ j)
Ready n i (move_assigns j) s = Pair n i j s
Ready n i (swaps j) s = Pair n i j s
Ready n i resets s = Free i s
Ready n i releases s = Free i s

-- A variable that is moved from is still the caller's when it is emptied.
abbrev pub Allowed : ℕ → ℕ → Pc → System → Type 0
Allowed n i (cleared (take_from j)) s = Free j s × (j < n) × (i ≢ j)
Allowed n i _ s = Unit {0}

-- The first `n` variables; one of them moves.
pub data Step (n : ℕ) (s : System) : System → Type 0 where
  calls : (i : ℕ) (o : Call) → i < n → Ready n i o s → Step n s (begin i o s)
  advances :
      {t : System} (i : ℕ)
      → i < n
      → Allowed n i (s.vars i).pc s
      → advance i s ≡ done tt t
      → Step n s t

-- No variable holds anything.
abbrev pub init : System
init = record { heap = λ _. none; vars = λ _. var none idle; made = []; ended = []; given = [] }

pub data Reach (n : ℕ) : System → Type 0 where
  start : Reach n init
  later : {s t : System} → Reach n s → Step n s t → Reach n t
