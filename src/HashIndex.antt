-- ===== src/HashIndex.antt =====
-- hashindex/: the append-only log with an index in memory.
pub mod Segment
pub mod Shard
pub mod Engine
pub mod Recovery
pub mod Compaction
mod Tests
