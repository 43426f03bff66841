-- ===== src/Threads/Policy.antt =====
-- core/src/utils/threads/ThreadPolicy.h: what a thread asks for, and a core that it was given.
use pipeline_tools.Prelude.{ℕ, Bool, List}
use pipeline_tools.Prelude.Int.{ℤ}

pub data AffinityType : Type 0 where
  normal pinned isolated : AffinityType

-- The name is its bytes.
pub record ThreadPolicy : Type 0 where
  pub thread_name : List ℕ
  pub cores : ℕ
  pub affinity_type : AffinityType
  pub strict : Bool
  pub priority : ℤ

pub record Core : Type 0 where
  pub cpu_id : ℤ
  pub affinity_type : AffinityType

abbrev pub core : AffinityType → ℤ → Core
core a c = record { cpu_id = c; affinity_type = a }
