-- ===== src/HashIndex/Compaction.antt =====
-- hashindex/compaction.go, and doCompact of hashindex/hashindex.go: the oldest segments are merged
-- into one. Maps are walked in the order of their lists; `now` and `fresh` are as in the engine.
pub mod Laws
use storage_engines.Base.{
  ℕ, zero, suc, ◌+◌, ◌-◌, ◌/◌, Bool, true, false, ◌||◌, List, [], ◌∷◌, ◌++◌, length, take, ltb, leb,
  ◌==◌, not, if◌then◌else◌, Option, none, some, Outcome, ok, err, ◌>>=◌, Error, end_of_file,
  out_of_fuel, segment_closed,
}
use storage_engines.Bytes.{Bytes}
use storage_engines.Bytes.Assoc.{Assoc, lookup, insert}
use storage_engines.HashIndex.Segment
use storage_engines.HashIndex.Segment.{Segment, Place, new_segment}
use storage_engines.HashIndex.Shard
use storage_engines.HashIndex.Shard.{IndexEntry, ShardedIndex, num_shards, update_batch}
use storage_engines.HashIndex.Engine
use storage_engines.HashIndex.Engine.{HashIndex, Result, close_all, sync_segment}

abbrev Values : Type 0
Values = Assoc Bytes

-- The end of the file ends the loop; any other error ends the compaction.
abbrev stop : Values → Error → Outcome Values
stop latest end_of_file = ok latest
stop latest e = err e

abbrev after_read :
    Values → (Bytes → Bytes → ℕ → Outcome Values) → Outcome (Bytes × Bytes × ℕ) → Outcome Values
after_read latest go (ok (key, value, next)) = go key value next
after_read latest go (err e) = stop latest e

-- The latest value of each key of one segment.
unfoldable pub read_values : ℕ → Segment → ℕ → Values → Outcome Values
unfolding Segment.read_record
read_values zero s offset latest = if ltb offset s.size then err out_of_fuel else ok latest
read_values (suc fuel) s offset latest =
    let next =
      after_read latest (λ key value end. read_values fuel s end (insert key value latest))
        (Segment.read_record s offset).0 in
    if ltb offset s.size then next else ok latest

-- A record takes at least its header, so that a round for each byte is more than enough.
unfoldable pub latest_values : List Segment → Values → Outcome Values
unfolding read_values
latest_values [] latest = ok latest
latest_values (s ∷ ss) latest = do latest' ← read_values s.size s 0 latest; latest_values ss latest'

pub record Written : Type 0 where
  pub segment : Segment
  pub index : Assoc IndexEntry
  pub bytes_written : ℕ

abbrev wrote : Written → Bytes → ℕ → Place × Segment → Written
wrote w key now (place, s) = record {
  segment = s;
  index =
      insert key (record { segment_id = s.id; offset = place.0; size = place.1; timestamp = now })
        w.index;
  bytes_written = w.bytes_written + place.1;
}

-- The tombstones are left out.
unfoldable pub write_values : Values → ℕ → Written → Outcome Written
unfolding Segment.append
write_values [] now w = ok w
write_values ((key, value) ∷ latest) now w =
    let rest : Outcome Written = (do
      placed ← Segment.append w.segment now key value
      write_values latest now (wrote w key now placed)) in
    if length value == 0 then write_values latest now w else rest

-- On an error the new segment is closed and its file removed.
unfoldable pub compact_segments : List Segment → ℕ → ℕ → Outcome Written
unfolding latest_values write_values new_segment sync_segment
compact_segments ss now fresh = do
  latest ← latest_values ss []
  w ←
      write_values latest now
        (record { segment = new_segment fresh []; index = []; bytes_written = 0 })
  u ← sync_segment w.segment
  ok w

-- `compactedIDs`
unfoldable pub has_id : List Segment → ℕ → Bool
has_id [] id = false
has_id (s ∷ ss) id = s.id == id || has_id ss id

-- The updates and the deletions that a compaction makes of the index.
pub record Batch : Type 0 where
  pub updates : Assoc IndexEntry
  pub deletions : List Bytes

abbrev moved : Batch → Bytes → Option IndexEntry → Batch
moved b key none = record b { deletions = b.deletions ++ (key ∷ []) }
moved b key (some e) = record b { updates = insert key e b.updates }

unfoldable pub batch_entry : List Segment → Assoc IndexEntry → Bytes → IndexEntry → Batch → Batch
unfolding has_id lookup
batch_entry old new_index key e b =
    if has_id old e.segment_id then moved b key (lookup key new_index) else b

unfoldable pub batch_shard : List Segment → Assoc IndexEntry → Assoc IndexEntry → Batch → Batch
unfolding batch_entry
batch_shard old new_index [] b = b
batch_shard old new_index ((key, e) ∷ entries) b =
    batch_shard old new_index entries (batch_entry old new_index key e b)

-- The shards below `n`, in their order.
unfoldable pub batch_shards : List Segment → Assoc IndexEntry → ShardedIndex → ℕ → Batch
unfolding batch_shard
batch_shards old new_index si zero = record { updates = []; deletions = [] }
batch_shards old new_index si (suc n) =
    batch_shard old new_index (si.shards n) (batch_shards old new_index si n)

unfoldable pub without : List Segment → List Segment → List Segment
unfolding has_id
without old [] = []
without old (s ∷ ss) = let rest = without old ss in if has_id old s.id then rest else s ∷ rest

-- The old segments leave the list, so that closing them is not seen; their files are removed.
unfoldable pub apply_compaction : HashIndex → List Segment → Written → HashIndex
unfolding batch_shards update_batch without
apply_compaction h old w =
    let b = batch_shards old w.index h.index num_shards in
    record h {
      index = update_batch h.index b.updates b.deletions;
      segments = without old h.segments ++ (w.segment ∷ []);
      stats = record h.stats {
        compact_count = h.stats.compact_count + 1;
        bytes_written_to_disk = h.stats.bytes_written_to_disk + w.bytes_written;
      };
    }

-- All of two or three segments, and the older half of more.
unfoldable pub num_to_compact : ℕ → ℕ
num_to_compact n = if ltb 3 n then (n + 1) / 2 else n

unfoldable pub any_closed : List Segment → Bool
any_closed [] = false
any_closed (s ∷ ss) = s.closed || any_closed ss

abbrev compacted : HashIndex → List Segment → Outcome Written → Result
compacted h old (ok w) = (none, apply_compaction h old w)
compacted h old (err e) = (some e, h)

-- A round of the worker, after it took the request. A closed segment cannot be acquired (the
-- references that were taken before it are then kept, and are not modelled).
unfoldable pub do_compact : HashIndex → ℕ → ℕ → Result
unfolding num_to_compact any_closed compact_segments apply_compaction
do_compact h now fresh =
    let old = take (num_to_compact (length h.segments)) h.segments in
    let h' : HashIndex = record h { compact_requested = false } in
    if ltb (length h.segments) 2
    then (none, h')
    else if any_closed old
    then (some segment_closed, h')
    else compacted h' old (compact_segments old now fresh)
