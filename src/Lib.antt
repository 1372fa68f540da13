-- ===== src/Lib.antt =====
-- Three storage engines in Go: a hash index over append-only segments (hashindex/), a log-structured
-- merge tree (lsm/) and a page-based B-tree (btree/).
--
-- Parts and files. Base and Bytes hold what the engines share: outcomes with errors and panics, Go's
-- sort.Search, byte strings and their order, little-endian integers, CRC-32 (hash/crc32) and FNV
-- (hash/fnv), and Go's map as an association list.
--   HashIndex.Segment      hashindex/segment.go: one data file with its reference count (newSegment,
--                          acquire, release, append, read, readRecord)
--   HashIndex.Shard        hashindex/shard.go: the index in 256 shards (Get, Put, Delete, UpdateBatch)
--   HashIndex.Engine       hashindex/hashindex.go: Put with the rotation of segments, Get, Delete,
--                          Close, Compact as a request, and the decision to compact
--   HashIndex.Recovery     hashindex/recovery.go: recover, and New on a directory
--   HashIndex.Compaction   hashindex/compaction.go, and doCompact of hashindex/hashindex.go
--   Lsm.MemTable           lsm/memtable.go
--   Lsm.Wal                lsm/wal.go: Append and ReadAll on the bytes of the log
--   Lsm.Bloom              lsm/bloom.go
--   Lsm.SsTable            lsm/sstable.go: OpenSSTable, Get, Overlaps and the decoders
--   Lsm.Builder            lsm/sstable_builder.go: Add, flushBlock, Finish and the encoders
--   Lsm.Levels             lsm/levels.go
--   Lsm.Engine             lsm/lsm.go: Put, Get, Delete, New with recoverFromWAL and loadSSTables,
--                          flushMemtable, a round of flushWorker, Close
--   Btree.Varint           btree/varint.go
--   Btree.Page             btree/page.go on the bytes of the page, in both formats of the cells
--   Btree.Wal              btree/wal.go on the bytes of the log
--   Btree.Pager            btree/pager.go: page objects at addresses, the cache, the file
--   Btree.Tree             btree/btree.go and btree/split.go: Get, and Put with the splits
--   Btree.Merge            btree/merge.go, and Delete of btree/btree.go
--   Btree.Recovery         btree/btree.go: New with recoverFromWAL, Sync and Close
--   Btree.Node             btree/node.go, and searchLeaf, findChild and the change of the leaf in
--                          deleteFromLeaf of btree/btree.go
--   Btree.Tree.Keys        btree/node.go: GetMinKey and GetMaxKey
-- Beside a module stand its lemmas, in child modules named for what they prove, and the runs at
-- concrete inputs in HashIndex/Tests, Lsm/Tests, Lsm/TableTests, Btree/Tests,
-- Btree/PageTests, Btree/WalTests, Btree/TreeTests and Btree/SplitTests.
--
-- How the code is read. A method is a function on the state of its object, since its lock makes it
-- atomic; a background worker is a function for one of its rounds. A file is the list of its bytes,
-- and appending, syncing, creating and closing a file do not fail; of the errors of reading, the end
-- of the file is modelled. Errors are kinds, without their text, and a run-time panic is an error of
-- its own kind. Strings and byte slices are lists of numbers; a nil slice is the empty one. A uint32
-- or uint64 that can wrap has its modulus written out; counters that are only reported do not wrap.
-- A Go map is an association list, whose order stands for the order of a range over it. Time is an
-- argument. The part of NewBloomFilter that is computed in floating point is an argument too.
--
-- Loops. sort.Search is given a round for each element of the interval, and each round at least
-- halves it. Reading a log or scanning a segment is given a round for each byte, and each round takes
-- a whole header; the compaction reads the segments in the same way. Counting the entries of a block
-- likewise. searchCell of a page is given a round for each cell and halves the interval in each;
-- InsertCell calls itself after a deletion and is given a call for each cell and one more, of which it
-- makes two at most. Get, Put and Delete of a tree are
-- given a level for each page of the file: a tree without a cycle is no deeper. The B-tree's log is read
-- with a round for each byte. The other loops are structural.
--
-- Not modelled: compaction of the merge tree, its iterators, the B-tree's iterator and
-- its latches, adapters, statistics, commands and benchmarks; writes that run beside
-- a compaction of the hash index, between its reading of the segments and its update of the index;
-- the data race of a Get in the merge tree with a flush between its reads of the memtables and of
-- the tables.
pub mod Base
pub mod Bytes
pub mod Lsm
pub mod Btree
pub mod HashIndex
