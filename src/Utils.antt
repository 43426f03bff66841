-- ===== src/Utils.antt =====
-- core/src/utils: the helpers that stand by themselves.
mod Tests
pub mod Ranges
pub mod Strings
pub mod Singleton
pub mod Config
pub mod Logging
pub mod Demangle
