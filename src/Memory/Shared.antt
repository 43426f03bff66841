-- ===== src/Memory/Shared.antt =====
-- shared_buffer.hpp. Control blocks live at addresses of a heap, the buffers are numbered variables
-- that hold a block's address or nothing. An access to a block that is not there is undefined. Each
-- atomic operation is one step of its method; the count is a `size_t` of 64 bits. `calls` lists the
-- calls of deleters, latest first.
pub mod Counting
pub mod Methods
pub mod Lifetimes
pub mod Concurrent
use pipeline_tools.Prelude.{
  ℕ, ◌+◌, ◌-◌, ◌%◌, ◌^◌, Bool, true, false, ◌||◌, not, Option, none, some, List, [], ◌∷◌, ◌==◌,
  if◌then◌else◌,
}
use pipeline_tools.Prelude.Store.{update}
use pipeline_tools.Prelude.Outcome.{Outcome, done, undefined, Cmd, pure, ◌>>=◌, ◌>>◌, modify}
use pipeline_tools.Memory.Buffer.{
  MemoryLocation, host, Ptr, null, Deleter, BufferBase, ReleasedBuffer, span, Span, byte_span,
}

pub record ControlBlock : Type 0 where
  pub ref : ℕ
  pub ptr : Ptr
  pub size : ℕ
  pub deleter : Option Deleter
  pub location : MemoryLocation

pub record State : Type 0 where
  pub heap : ℕ → Option ControlBlock
  pub ctrl : ℕ → Option ℕ
  pub calls : List (Deleter × Ptr)

abbrev pub M : Type 0 → Type 0
M A = Cmd State A

abbrev pub store : ℕ → Option ControlBlock → State → State
store a b s = record s { heap = update s.heap a b }

abbrev pub set_ctrl : ℕ → Option ℕ → State → State
set_ctrl i c s = record s { ctrl = update s.ctrl i c }

abbrev pub with_ref : ℕ → ControlBlock → ControlBlock
with_ref r b = record b { ref = r }

abbrev pub call_if : Option Deleter → Ptr → State → State
call_if none p s = s
call_if (some d) p s = record s { calls = (d, p) ∷ s.calls }

-- The constructor of variable `i` from raw parts; `fresh` is the address that `new` returns.
unfoldable pub construct :
    (fresh : ℕ) → ℕ → Ptr → ℕ → Option Deleter → MemoryLocation → State → State
construct fresh i ptr size d loc s =
    if ptr == null || size == 0
    then set_ctrl i none s
    else set_ctrl i (some fresh) (
        store fresh (some (record { ref = 1; ptr = ptr; size = size; deleter = d; location = loc }))
          s)

-- The constructor from a released buffer, and, with a `release` of it before, from a unique buffer.
unfoldable pub construct_released : (fresh : ℕ) → ℕ → ReleasedBuffer → State → State
unfolding construct
construct_released fresh i rb s = construct fresh i rb.ptr rb.count rb.deleter rb.location s

-- `ref.fetch_add(1)`, if there is a block.
unfoldable pub add_ref : Option ℕ → M (Unit {0})
add_ref none s = done tt s
add_ref (some a) s = elim (s.heap a) [
  | none ↦ undefined
  | some b ↦ done tt (store a (some (with_ref ((b.ref + 1) % 2 ^ 64) b)) s)
]

-- `ref.fetch_sub(1)`, and the call of the deleter and the end of the block if the count was 1.
unfoldable pub after_drop : ℕ → ControlBlock → State → State
after_drop a b s =
    let s' = store a (some (with_ref ((b.ref + 2 ^ 64 - 1) % 2 ^ 64) b)) s in
    if b.ref == 1 then store a none (call_if b.deleter b.ptr s') else s'

unfoldable pub release_ctrl : ℕ → M (Unit {0})
unfolding after_drop
release_ctrl i s = elim (s.ctrl i) [
  | none ↦ done tt s
  | some a ↦ elim (s.heap a) [
    | none ↦ undefined
    | some b ↦ done tt (set_ctrl i none (after_drop a b s))
  ]
]

-- The copy constructor of variable `i`.
unfoldable pub copy_construct : ℕ → ℕ → M (Unit {0})
unfolding add_ref
copy_construct i j s = (do add_ref (s.ctrl j); modify (set_ctrl i (s.ctrl j))) s

unfoldable pub copy_assign : ℕ → ℕ → M (Unit {0})
unfolding add_ref release_ctrl
copy_assign i j s =
    if i == j
    then done tt s
    else (do add_ref (s.ctrl j); release_ctrl i; modify (set_ctrl i (s.ctrl j))) s

abbrev pub steal : ℕ → ℕ → State → State
steal i j s = record s { ctrl = update (update s.ctrl i (s.ctrl j)) j none }

unfoldable pub move_construct : ℕ → ℕ → M (Unit {0})
move_construct i j = modify (steal i j)

unfoldable pub move_assign : ℕ → ℕ → M (Unit {0})
unfolding release_ctrl
move_assign i j s = if i == j then done tt s else (do release_ctrl i; modify (steal i j)) s

-- `reset`; the destructor is its first half.
unfoldable pub reset : ℕ → M (Unit {0})
unfolding release_ctrl
reset i = do release_ctrl i; modify (set_ctrl i none)

unfoldable pub swap : ℕ → ℕ → M (Unit {0})
swap i j s = done tt (record s { ctrl = update (update s.ctrl i (s.ctrl j)) j (s.ctrl i) })

abbrev pub parts : ControlBlock → ReleasedBuffer
parts b = record { ptr = b.ptr; count = b.size; deleter = b.deleter; location = b.location }

-- What `release` does behind a successful exchange of the count from 1 to 0.
unfoldable pub take_out : ℕ → ℕ → ControlBlock → M (Option ReleasedBuffer)
take_out i a b = do
  modify (store a (some (with_ref 0 b)))
  modify (store a none)
  modify (set_ctrl i none)
  pure (some (parts b))

-- `release`: the parts if this is the only owner; the exchange fails otherwise.
unfoldable pub release_block : ℕ → ℕ → M (Option ReleasedBuffer)
unfolding take_out
release_block i a s = elim (s.heap a) [
  | none ↦ undefined
  | some b ↦ if b.ref == 1 then take_out i a b s else done none s
]

unfoldable pub release : ℕ → M (Option ReleasedBuffer)
unfolding release_block
release i s = elim (s.ctrl i) [ none ↦ done none s | some a ↦ release_block i a s ]

-- The observers.
unfoldable pub view : ℕ → M BufferBase
view i s = elim (s.ctrl i) [
  | none ↦ done (record { data_ = null; count_ = 0; location_ = host }) s
  | some a ↦ elim (s.heap a) [
    | none ↦ undefined
    | some b ↦ done (record { data_ = b.ptr; count_ = b.size; location_ = b.location }) s
  ]
]

unfoldable pub use_count : ℕ → M ℕ
use_count i s = elim (s.ctrl i) [
  | none ↦ done 0 s
  | some a ↦ elim (s.heap a) [ none ↦ undefined | some b ↦ done b.ref s ]
]

abbrev pub to_bool : ℕ → State → Bool
to_bool i s = elim (s.ctrl i) [ none ↦ false | some a ↦ true ]
