-- ===== src/Memory/Buffer.antt =====
-- memory_location.h, buffer_base.hpp and released_buffer.hpp: the view without ownership, and the raw
-- parts that a `release` hands out. A pointer is its address; a deleter is known by its number.
use pipeline_tools.Prelude.{ℕ, ◌*◌, ◌%◌, ◌^◌, Bool, Option, ◌==◌}

pub data MemoryLocation : Type 0 where
  host host_pinned device unified : MemoryLocation

abbrev pub Ptr : Type 0
Ptr = ℕ

abbrev pub null : Ptr
null = 0

abbrev pub Deleter : Type 0
Deleter = ℕ

pub record BufferBase : Type 0 where
  pub data_ : Ptr
  pub count_ : ℕ
  pub location_ : MemoryLocation

-- The default members.
abbrev pub no_buffer : BufferBase
no_buffer = record { data_ = null; count_ = 0; location_ = host }

-- `std::span`: where it begins, and how many elements it has.
pub record Span : Type 0 where
  pub first : Ptr
  pub extent : ℕ

abbrev pub size : BufferBase → ℕ
size b = b.count_

abbrev pub empty : BufferBase → Bool
empty b = b.count_ == 0

abbrev pub span : BufferBase → Span
span b = record { first = b.data_; extent = b.count_ }

-- `sizeof(T)` is a parameter; a `size_t` has 64 bits.
unfoldable pub size_bytes : ℕ → BufferBase → ℕ
size_bytes sizeof b = (span b).extent * sizeof % 2 ^ 64

unfoldable pub byte_span : ℕ → BufferBase → Span
byte_span sizeof b = record { first = b.data_; extent = b.count_ * sizeof % 2 ^ 64 }

pub record ReleasedBuffer : Type 0 where
  pub ptr : Ptr
  pub count : ℕ
  pub deleter : Option Deleter
  pub location : MemoryLocation
