-- ===== src/Threads.antt =====
-- core/src/utils/threads: the policies, the allocator of cores and the worker thread.
mod Tests
pub mod Policy
pub mod CpuManager
pub mod Worker
