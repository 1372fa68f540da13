-- ===== src/HashIndex/Engine.antt =====
-- hashindex/hashindex.go: the engine. A method is a function on the state; `now` is `time.Now().Unix`
-- and `fresh` is the `time.Now().UnixNano` that names a segment that is made. Where the value of
-- fsync, which changes nothing that is modelled, is ignored, it is left out.
pub mod Invariant
pub mod Laws
use storage_engines.Base.{
  ℕ, zero, suc, ◌+◌, ◌-◌, ◌*◌, Bool, true, false, ◌&&◌, ◌||◌, List, [], ◌∷◌, ◌++◌, length, ltb, leb,
  ◌==◌, if◌then◌else◌, Option, none, some, Outcome, ok, err, key_empty, key_not_found,
  segment_missing, closed as closed_error, segment_closed, compaction_in_progress, Error,
}
use storage_engines.Bytes.{Bytes}
use storage_engines.Bytes.Assoc.{Assoc}
use storage_engines.HashIndex.Segment
use storage_engines.HashIndex.Segment.{Segment, Place, new_segment, header_size}
use storage_engines.HashIndex.Shard
use storage_engines.HashIndex.Shard.{
  ShardedIndex, IndexEntry, new_sharded_index, sum_shards, num_shards,
}

pub record Stats : Type 0 where
  pub write_count : ℕ
  pub read_count : ℕ
  pub compact_count : ℕ
  pub bytes_written : ℕ
  pub bytes_written_to_disk : ℕ
  pub bytes_read : ℕ

-- `compact_requested` is the channel of capacity one. The data directory and SyncOnWrite are left
-- out.
pub record HashIndex : Type 0 where
  pub segment_size_bytes : ℕ
  pub max_segments : ℕ
  pub index : ShardedIndex
  pub active : Segment
  pub segments : List Segment
  pub compact_requested : Bool
  pub stats : Stats
  pub closed : Bool

abbrev no_stats : Stats
no_stats = record {
  write_count = 0;
  read_count = 0;
  compact_count = 0;
  bytes_written = 0;
  bytes_written_to_disk = 0;
  bytes_read = 0;
}

-- `New` on an empty directory: nothing to recover, and a first segment.
unfoldable pub new : ℕ → ℕ → ℕ → HashIndex
unfolding new_segment
new segment_size_bytes max_segments fresh = record {
  segment_size_bytes = segment_size_bytes;
  max_segments = max_segments;
  index = new_sharded_index;
  active = new_segment fresh [];
  segments = [];
  compact_requested = false;
  stats = no_stats;
  closed = false;
}

-- What follows a successful append to the active segment, in `Put` and twice in `putWithRotation`.
unfoldable pub record_write : HashIndex → Bytes → Bytes → ℕ → Place → Segment → HashIndex
record_write h key value now place active = record h {
  active = active;
  index =
      Shard.put h.index key
        (record { segment_id = active.id; offset = place.0; size = place.1; timestamp = now });
  stats = record h.stats {
    write_count = h.stats.write_count + 1;
    bytes_written = h.stats.bytes_written + (length key + length value);
    bytes_written_to_disk = h.stats.bytes_written_to_disk + place.1;
  };
}

entry_bytes : Assoc IndexEntry → ℕ
entry_bytes [] = 0
entry_bytes ((k, e) ∷ m) = (e.size - header_size) + entry_bytes m

-- The shards are summed in parallel; every recorded size includes a header.
unfoldable pub get_logical_size : HashIndex → ℕ
unfolding entry_bytes sum_shards
get_logical_size h = sum_shards (λ i. entry_bytes (h.index.shards i)) num_shards

unfoldable pub sum_sizes : List Segment → ℕ
sum_sizes [] = 0
sum_sizes (s ∷ ss) = s.size + sum_sizes ss

-- `float64(diskSize)/float64(logicalSize) > 3.0`, without rounding.
unfoldable pub should_compact : HashIndex → Bool
unfolding get_logical_size sum_sizes
should_compact h =
    let logical = get_logical_size h in
    let disk = sum_sizes h.segments + h.active.size in
    leb h.max_segments (length h.segments)
    || (leb 2 (length h.segments) && (ltb 0 logical && ltb (3 * logical) disk))

-- The send on the channel, which is dropped where one is waiting.
unfoldable pub request_compaction : HashIndex → HashIndex
unfolding should_compact
request_compaction h = record h { compact_requested = should_compact h || h.compact_requested }

-- `sync` fails on a closed file only.
unfoldable pub sync_segment : Segment → Outcome (Unit {0})
sync_segment s = elim s.file [ none ↦ err segment_closed | some file ↦ ok tt ]

unfoldable pub rotate_segment : HashIndex → ℕ → Outcome HashIndex
unfolding sync_segment new_segment
rotate_segment h fresh = elim (sync_segment h.active) [
  | ok u ↦ ok (record h { segments = h.segments ++ (h.active ∷ []); active = new_segment fresh [] })
  | err e ↦ err e
]

-- The result of a method is its error, if any, beside the state.
abbrev pub Result : Type 0
Result = Option Error × HashIndex

abbrev pub finish : HashIndex → Outcome HashIndex → Result
finish h (ok h') = (none, h')
finish h (err e) = (some e, h)

abbrev pub after_append :
    HashIndex → Bytes → Bytes → ℕ → Outcome (Place × Segment) → Outcome HashIndex
after_append h key value now (ok (place, active)) = ok (record_write h key value now place active)
after_append h key value now (err e) = err e

unfoldable pub write_active : HashIndex → Bytes → Bytes → ℕ → Outcome HashIndex
unfolding record_write Segment.append
write_active h key value now = after_append h key value now (Segment.append h.active now key value)

abbrev has_room : HashIndex → Bool
has_room h = ltb h.active.size h.segment_size_bytes

-- An error behind the rotation leaves the rotated state.
abbrev pub after_rotated_write : HashIndex → Outcome HashIndex → Result
after_rotated_write h (ok h') = (none, request_compaction h')
after_rotated_write h (err e) = (some e, h)

unfoldable pub write_rotated : HashIndex → Bytes → Bytes → ℕ → Result
unfolding write_active request_compaction
write_rotated h key value now = after_rotated_write h (write_active h key value now)

abbrev pub after_rotation : HashIndex → Bytes → Bytes → ℕ → Outcome HashIndex → Result
after_rotation h key value now (ok h') = write_rotated h' key value now
after_rotation h key value now (err e) = (some e, h)

unfoldable pub put_with_rotation : HashIndex → Bytes → Bytes → ℕ → ℕ → Result
unfolding write_active rotate_segment write_rotated
put_with_rotation h key value now fresh =
    if has_room h
    then finish h (write_active h key value now)
    else after_rotation h key value now (rotate_segment h fresh)

abbrev pub or_rotation : Outcome HashIndex → Result → Result
or_rotation (ok h') r = (none, h')
or_rotation (err e) r = r

unfoldable pub put : HashIndex → Bytes → Bytes → ℕ → ℕ → Result
unfolding write_active put_with_rotation
put h key value now fresh =
    let rotated = put_with_rotation h key value now fresh in
    if length key == 0
    then (some key_empty, h)
    else if h.closed
    then (some closed_error, h)
    else if has_room h
    then or_rotation (write_active h key value now) rotated
    else rotated

unfoldable pub delete : HashIndex → Bytes → ℕ → ℕ → Result
unfolding put
delete h key now fresh = put h key [] now fresh

unfoldable pub find_segment : List Segment → ℕ → Option Segment
find_segment [] id = none
find_segment (s ∷ ss) id = if s.id == id then some s else find_segment ss id

unfoldable pub segment_of : HashIndex → ℕ → Option Segment
unfolding find_segment
segment_of h id = if h.active.id == id then some h.active else find_segment h.segments id

-- A read of an open segment gives back the state of its counter, so that only the counters of the
-- engine change.
abbrev count_read : HashIndex → Bytes → HashIndex
count_read h value = record h {
  stats = record h.stats {
    read_count = h.stats.read_count + 1;
    bytes_read = h.stats.bytes_read + length value;
  };
}

abbrev found_value : HashIndex → Outcome Bytes → Outcome Bytes × HashIndex
found_value h (err e) = (err e, h)
found_value h (ok []) = (err key_not_found, h)
found_value h (ok (b ∷ bs)) = (ok (b ∷ bs), count_read h (b ∷ bs))

abbrev read_from : HashIndex → ℕ → Option Segment → Outcome Bytes × HashIndex
read_from h offset none = (err segment_missing, h)
read_from h offset (some s) = found_value h (Segment.read s offset).0

abbrev get_entry : HashIndex → Option IndexEntry → Outcome Bytes × HashIndex
get_entry h none = (err key_not_found, h)
get_entry h (some e) = read_from h e.offset (segment_of h e.segment_id)

unfoldable pub get : HashIndex → Bytes → Outcome Bytes × HashIndex
unfolding segment_of Segment.read Shard.get
get h key = if h.closed then (err closed_error, h) else get_entry h (Shard.get h.index key)

unfoldable pub close_all : List Segment → List Segment
close_all [] = []
close_all (s ∷ ss) = Segment.close s ∷ close_all ss

-- The background worker is stopped before the segments are closed.
unfoldable pub close : HashIndex → HashIndex
unfolding close_all Segment.close
close h = if h.closed then h else record h {
  closed = true;
  active = Segment.close h.active;
  segments = close_all h.segments;
}

unfoldable pub compact : HashIndex → Result
compact h =
    if h.closed
    then (some closed_error, h)
    else if h.compact_requested
    then (some compaction_in_progress, h)
    else (none, record h { compact_requested = true })
