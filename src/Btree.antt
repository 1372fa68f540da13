-- ===== src/Btree.antt =====
-- btree/: the page-based B-tree.
pub mod Varint
pub mod Page
pub mod Node
pub mod Wal
pub mod Pager
pub mod Tree
pub mod Merge
pub mod Recovery
mod Tests
mod PageTests
mod WalTests
mod TreeTests
mod SplitTests
