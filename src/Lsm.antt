-- ===== src/Lsm.antt =====
-- lsm/: the log-structured merge tree.
pub mod MemTable
pub mod Wal
pub mod Bloom
pub mod SsTable
pub mod Builder
pub mod Levels
pub mod Engine
mod Tests
mod TableTests
