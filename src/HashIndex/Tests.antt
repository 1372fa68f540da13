-- ===== src/HashIndex/Tests.antt =====
-- Runs of hashindex/ at concrete inputs.
use storage_engines.Base.{
  suc, ◌+◌, some, ◌++◌, ℕ, ◌≡◌, ◌≢◌, refl, List, [], ◌∷◌, length, arith, ok, err, map, none,
  if◌then◌else◌, key_not_found,
}
use storage_engines.Bytes.{Bytes}
use storage_engines.Bytes.Order.{key_eq}
use storage_engines.Bytes.Assoc.{lookup}
use storage_engines.HashIndex.Segment.{
  crc_data, record_bytes, Segment, Place, new_segment, append, read,
}
use storage_engines.HashIndex.Segment.Record.{Fits}
use storage_engines.HashIndex.Segment.Laws.{IsOpen, read-append}
use storage_engines.HashIndex.Shard
use storage_engines.HashIndex.Shard.{IndexEntry, ShardedIndex, new_sharded_index, update_batch}
use storage_engines.HashIndex.Shard.Laws.{HasUniqueKeys, contains, or_else, get-update_batch}
use storage_engines.HashIndex.Engine.{HashIndex, new, put, delete, get}
use storage_engines.HashIndex.Engine.Invariant.{IsValid, IsFresh, reply}
use storage_engines.HashIndex.Engine.Laws.{get-put_engine, get-delete_engine}
use storage_engines.HashIndex.Shard.Placed.{IsSharded, put-IsSharded, new-IsSharded}
use storage_engines.HashIndex.Compaction.{Written, apply_compaction}
use storage_engines.HashIndex.Compaction.Laws.{moved_entry, get-apply_compaction}
use storage_engines.HashIndex.Recovery.{open_dir, recover_file}
use storage_engines.HashIndex.Recovery.Torn.{IsTorn, recover_file-torn}
use storage_engines.Bytes.Endian.{put_le}
use storage_engines.Bytes.Hash.{checksum_ieee}
use storage_engines.HashIndex.Recovery.Scan.{indexed, bytes_of, Rec}
use storage_engines.HashIndex.Recovery.Known.{
  DirFits, IsIncreasing, file_of, records_of, last_value,
}
use storage_engines.HashIndex.Recovery.Laws.{found_reply, open_dir_lem}

abbrev key_a : Bytes
key_a = 97 ∷ []

abbrev value_7 : Bytes
value_7 = 7 ∷ 8 ∷ []

a7-Fits : Fits 1700 key_a value_7
a7-Fits = record { sizes = omega arith; time = omega arith }

a_gone-Fits : Fits 1701 key_a []
a_gone-Fits = record { sizes = omega arith; time = omega arith }

segment_5-IsOpen : IsOpen (new_segment 5 []) []
unfolding new_segment
segment_5-IsOpen = record { opened = refl; holds = refl; sized = refl; held = omega arith }

read-append_example :
    (place : Place) × (s : Segment) × (append (new_segment 5 []) 1700 key_a value_7 ≡ ok (place, s))
    × (read s place.0 ≡ (ok value_7, s))
    × ((offset : ℕ) (v : Bytes)
        → read (new_segment 5 []) offset ≡ (ok v, new_segment 5 [])
        → read s offset ≡ (ok v, s))
read-append_example = read-append (new_segment 5 []) [] 1700 key_a value_7 segment_5-IsOpen a7-Fits

abbrev some_entry : IndexEntry
some_entry = record { segment_id = 5; offset = 0; size = 23; timestamp = 1700 }

one_update-HasUniqueKeys : HasUniqueKeys ((key_a, some_entry) ∷ [])
unfolding lookup
one_update-HasUniqueKeys = (refl, tt)

get-update_batch_example :
    Shard.get (update_batch new_sharded_index ((key_a, some_entry) ∷ []) []) key_a ≡ (
      if contains key_a []
      then none
      else or_else (lookup key_a ((key_a, some_entry) ∷ [])) (Shard.get new_sharded_index key_a))
get-update_batch_example =
    get-update_batch new_sharded_index ((key_a, some_entry) ∷ []) [] key_a one_update-HasUniqueKeys

abbrev engine : HashIndex
engine = new 1000 3 5

get-nothing : (k : Bytes) → Shard.get engine.index k ≡ none
unfolding new Shard.get new_sharded_index lookup
get-nothing k = refl

engine-IsValid : IsValid engine
unfolding new
engine-IsValid = record {
  running = refl;
  active_file = [];
  active_open = segment_5-IsOpen;
  apart = tt;
  readable = λ k e at. absurd (ground (arith, at, get-nothing k));
}

engine-IsFresh : IsFresh engine 6
unfolding new new_segment
engine-IsFresh = record { not_active = λ h. omega (arith, h); not_sealed = tt }

key_a-nonempty : length key_a ≢ 0
key_a-nonempty h = omega (arith, h)

get-put_engine_example :
    (h : HashIndex) × (put engine key_a value_7 1700 6 ≡ (none, h))
    × IsValid h
    × ((j : Bytes) → (get h j).0 ≡ (if key_eq key_a j then reply value_7 else (get engine j).0))
get-put_engine_example =
    get-put_engine engine key_a value_7 1700 6 engine-IsValid engine-IsFresh a7-Fits key_a-nonempty

get-delete_engine_example :
    (h : HashIndex) × (delete engine key_a 1701 6 ≡ (none, h))
    × IsValid h
    × ((j : Bytes) → (get h j).0 ≡ (if key_eq key_a j then err key_not_found else (get engine j).0))
get-delete_engine_example =
    get-delete_engine engine key_a 1701 6 engine-IsValid engine-IsFresh a_gone-Fits key_a-nonempty

abbrev first_file : ℕ × List Rec
first_file = (5, record { key = key_a; value = value_7; time = 1700 } ∷ [])

abbrev second_file : ℕ × List Rec
second_file = (6, record { key = key_a; value = []; time = 1701 } ∷ [])

two_files-DirFits : DirFits (first_file ∷ second_file ∷ [])
two_files-DirFits = (((a7-Fits, omega arith), tt), (((a_gone-Fits, omega arith), tt), tt))

two_files-IsIncreasing : IsIncreasing (first_file ∷ second_file ∷ [])
two_files-IsIncreasing = ((omega arith, tt), (tt, tt))

open_dir_lem_example :
    (h : HashIndex) × (open_dir 1000 3 7 (map file_of (first_file ∷ second_file ∷ [])) 1800 ≡ ok h)
    × IsValid h
    × ((k : Bytes)
        → (get h k).0 ≡ found_reply (last_value k (records_of (first_file ∷ second_file ∷ []))))
open_dir_lem_example =
    open_dir_lem 1000 3 7 first_file (second_file ∷ []) 1800 two_files-DirFits
      two_files-IsIncreasing

-- The record of the first file but for its first byte and its last two.
abbrev torn_front : Bytes
torn_front =
    167 ∷ 23 ∷ 223 ∷ 164 ∷ 6 ∷ 0 ∷ 0 ∷ 0 ∷ 0 ∷ 0 ∷ 0 ∷ 1 ∷ 0 ∷ 0 ∷ 0 ∷ 2 ∷ 0 ∷ 0 ∷ 0 ∷ 97 ∷ []

abbrev first_rec : Rec
first_rec = record { key = key_a; value = value_7; time = 1700 }

first_rec-IsTorn : IsTorn first_rec (71 ∷ torn_front)
unfolding record_bytes crc_data put_le checksum_ieee
first_rec-IsTorn = record { next = 7; back = 8 ∷ []; split = refl }

recover_file-torn_example :
    (s : Segment) × (recover_file (5, bytes_of (first_rec ∷ []) ++ (71 ∷ torn_front)) 1800 []
      ≡ ok (s, indexed 5 1800 0 (first_rec ∷ []) []))
    × (recover_file (5, bytes_of (first_rec ∷ [])) 1800 []
        ≡ ok (
          record (new_segment 5 (bytes_of (first_rec ∷ []))) {
            size = length (bytes_of (first_rec ∷ []));
          },
          indexed 5 1800 0 (first_rec ∷ []) [],
        ))
    × (s.file ≡ some (bytes_of (first_rec ∷ []) ++ (71 ∷ torn_front)))
    × (s.size ≡ length (bytes_of (first_rec ∷ [])) + suc (length torn_front))
recover_file-torn_example =
    recover_file-torn 5 1800 (first_rec ∷ []) first_rec 71 torn_front []
      ((a7-Fits, omega arith), tt) (a7-Fits, omega arith) first_rec-IsTorn

abbrev one_entry : ShardedIndex
one_entry = Shard.put new_sharded_index key_a some_entry

put-IsSharded_example : IsSharded one_entry
put-IsSharded_example = put-IsSharded new_sharded_index key_a some_entry new-IsSharded

abbrev merged_entry : IndexEntry
merged_entry = record { segment_id = 6; offset = 0; size = 23; timestamp = 1800 }

abbrev merged : Written
merged = record {
  segment = new_segment 6 [];
  index = (key_a, merged_entry) ∷ [];
  bytes_written = 23;
}

abbrev with_entry : HashIndex
with_entry = record engine { index = one_entry; segments = new_segment 5 [] ∷ [] }

get-apply_compaction_example :
    Shard.get (apply_compaction with_entry (new_segment 5 [] ∷ []) merged).index key_a
    ≡ moved_entry (new_segment 5 [] ∷ []) merged.index key_a (Shard.get one_entry key_a)
get-apply_compaction_example =
    get-apply_compaction with_entry (new_segment 5 [] ∷ []) merged key_a
      (put-IsSharded new_sharded_index key_a some_entry new-IsSharded)
