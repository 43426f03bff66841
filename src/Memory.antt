-- ===== src/Memory.antt =====
-- core/src/utils/memory: the smart buffers and the memory pool.
mod Tests
pub mod Buffer
pub mod Unique
pub mod Pool
pub mod Shared
