-- ===== src/Memory/Unique.antt =====
-- unique_buffer.hpp. The buffers are numbered variables, so that a call may name one object twice;
-- the state has them and the world that deleters work on. `call d p` is what the deleter `d` does with
-- the pointer `p`; an exception of it is swallowed by `reset`.
pub mod Ownership
use pipeline_tools.Prelude.{ℕ, Bool, true, false, not, Option, none, some, ◌==◌, if◌then◌else◌}
use pipeline_tools.Prelude.Store.{update}
use pipeline_tools.Memory.Buffer.{
  MemoryLocation, host, Ptr, null, Deleter, BufferBase, no_buffer, ReleasedBuffer,
}

-- The base class is the field `base`.
pub record UniqueBuffer : Type 0 where
  pub base : BufferBase
  pub open base use *
  pub deleter_ : Option Deleter

abbrev pub unowned : UniqueBuffer
unowned = record { base = no_buffer; deleter_ = none }

-- `unique_buffer(ptr, count, deleter, loc)`.
abbrev pub owning : Ptr → ℕ → Option Deleter → MemoryLocation → UniqueBuffer
owning ptr count d loc = record {
  base = record { data_ = ptr; count_ = count; location_ = loc };
  deleter_ = d;
}

-- `unique_buffer(count, loc)`: `fresh` is what `new T[count]` returns, `delete_array` the deleter.
abbrev pub allocating : (fresh : Ptr) (delete_array : Deleter) → ℕ → MemoryLocation → UniqueBuffer
allocating fresh delete_array count loc = owning fresh count (some delete_array) loc

-- `unique_buffer(released_buffer)`.
abbrev pub from_released : ReleasedBuffer → UniqueBuffer
from_released rb = owning rb.ptr rb.count rb.deleter rb.location

abbrev pub get : UniqueBuffer → Ptr
get b = b.data_

abbrev pub is_null : UniqueBuffer → Bool
is_null b = b.data_ == null

abbrev pub to_bool : UniqueBuffer → Bool
to_bool b = not (b.data_ == null)

abbrev pub view : UniqueBuffer → BufferBase
view b = record { data_ = b.data_; count_ = b.count_; location_ = b.location_ }

abbrev pub get_deleter : UniqueBuffer → Option Deleter
get_deleter b = b.deleter_

-- `release`: the parts, and what is left of the buffer.
unfoldable pub release : UniqueBuffer → ReleasedBuffer × UniqueBuffer
release b = (
  record { ptr = b.data_; count = b.count_; deleter = b.deleter_; location = b.location_ },
  unowned,
)

-- `steal_from(other)`: the new values of this buffer and of the other.
unfoldable pub steal_from : UniqueBuffer → UniqueBuffer × UniqueBuffer
steal_from other = (owning other.data_ other.count_ other.deleter_ other.location_, unowned)

pub record Scope (W : Type 0) : Type 0 where
  pub buffers : ℕ → UniqueBuffer
  pub world : W

module _ {W : Type 0} where
  -- The move constructor of variable `i`.
  unfoldable pub move_construct : ℕ → ℕ → Scope W → Scope W
  unfolding steal_from
  move_construct i j s =
      let (this, other) = steal_from (s.buffers j) in
      record s { buffers = update (update s.buffers i this) j other }

  -- The four swaps of `swap`, member by member.
  unfoldable pub swap : ℕ → ℕ → Scope W → Scope W
  swap i j s =
      let a = s.buffers i in
      let b = s.buffers j in record s { buffers = update (update s.buffers i b) j a }

  unfoldable pub release_at : ℕ → Scope W → ReleasedBuffer × Scope W
  unfolding release
  release_at i s =
      let (rb, rest) = release (s.buffers i) in (rb, record s { buffers = update s.buffers i rest })

module _ {W : Type 0} (call : Deleter → Ptr → W → W) where
  abbrev pub call_if : Option Deleter → Ptr → W → W
  call_if none p w = w
  call_if (some d) p w = call d p w

  -- `reset`, which the destructor calls too. A null buffer keeps its count and location.
  unfoldable pub reset : UniqueBuffer → W → UniqueBuffer × W
  reset b w =
      if b.data_ == null
      then (record b { deleter_ = none }, w)
      else (unowned, call_if b.deleter_ b.data_ w)

  unfoldable pub reset_at : ℕ → Scope W → Scope W
  unfolding reset
  reset_at i s =
      let (b, w) = reset (s.buffers i) s.world in
      record { buffers = update s.buffers i b; world = w }

  -- `operator=(unique_buffer&&)` with its test for self-assignment.
  unfoldable pub move_assign : ℕ → ℕ → Scope W → Scope W
  unfolding reset_at move_construct
  move_assign i j s = if i == j then s else move_construct i j (reset_at i s)
