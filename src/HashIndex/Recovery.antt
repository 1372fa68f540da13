-- ===== src/HashIndex/Recovery.antt =====
-- hashindex/recovery.go: the index is rebuilt from the files of the directory. The listing of the
-- directory and the parse of the names are left out: a file is its id and its bytes.
pub mod Scan
pub mod Known
pub mod Laws
pub mod Torn
use storage_engines.Base.{
  ℕ, zero, suc, ◌+◌, ◌-◌, Bool, true, false, List, [], ◌∷◌, length, take, ltb, leb, if◌then◌else◌,
  Option, none, some, Outcome, ok, err, ◌>>=◌, Error, end_of_file, panic_slice, out_of_fuel,
}
use storage_engines.Bytes.{Bytes}
use storage_engines.Bytes.Assoc.{Assoc, insert}
use storage_engines.HashIndex.Segment
use storage_engines.HashIndex.Segment.{Segment, u32, new_segment}
use storage_engines.HashIndex.Shard
use storage_engines.HashIndex.Shard.{IndexEntry, ShardedIndex}
use storage_engines.HashIndex.Engine
use storage_engines.HashIndex.Engine.{HashIndex}

abbrev pub File : Type 0
File = ℕ × Bytes

-- `sort.Slice` by id.
unfoldable pub insert_file : File → List File → List File
insert_file f [] = f ∷ []
insert_file f (g ∷ gs) = let rest = insert_file f gs in if leb f.0 g.0 then f ∷ g ∷ gs else g ∷ rest

unfoldable pub sort_files : List File → List File
unfolding insert_file
sort_files [] = []
sort_files (f ∷ fs) = insert_file f (sort_files fs)

abbrev pub Latest : Type 0
Latest = Assoc IndexEntry

abbrev cut : ℕ → Option Bytes → Option Bytes
cut offset none = none
cut offset (some file) = some (take offset file)

abbrev truncate : Segment → ℕ → Segment
truncate s offset = record s { file = cut offset s.file; size = offset }

-- The end of the file stops the loop and changes nothing; another error truncates the file where the
-- record begins; a panic is not caught.
abbrev pub stop : Segment → ℕ → Latest → Error → Outcome (Segment × Latest)
stop s offset latest end_of_file = ok (s, latest)
stop s offset latest panic_slice = err panic_slice
stop s offset latest _ = ok (truncate s offset, latest)

abbrev pub after_read :
    Segment
    → ℕ
    → Latest
    → (Bytes → ℕ → Outcome (Segment × Latest))
    → Outcome (Bytes × Bytes × ℕ)
    → Outcome (Segment × Latest)
after_read s offset latest go (ok (key, value, next)) = go key next
after_read s offset latest go (err e) = stop s offset latest e

abbrev pub found_at : ℕ → ℕ → ℕ → ℕ → IndexEntry
found_at id offset next now = record {
  segment_id = id;
  offset = offset;
  size = u32 (next - offset);
  timestamp = now;
}

-- The loop over one file, which was `limit` bytes long when it was opened.
unfoldable pub scan : ℕ → Segment → ℕ → ℕ → ℕ → Latest → Outcome (Segment × Latest)
unfolding Segment.read_record
scan zero s limit offset now latest = if ltb offset limit then err out_of_fuel else ok (s, latest)
scan (suc fuel) s limit offset now latest =
    let next =
      after_read s offset latest
        (λ key end. scan fuel s limit end now (insert key (found_at s.id offset end now) latest))
        (Segment.read_record s offset).0 in
    if ltb offset limit then next else ok (s, latest)

-- A record takes at least its header, so that a round for each byte is more than enough.
unfoldable pub recover_file : File → ℕ → Latest → Outcome (Segment × Latest)
unfolding new_segment scan
recover_file (id, bytes) now latest =
    scan (length bytes) (record (new_segment id bytes) { size = length bytes }) (length bytes) 0 now
      latest

unfoldable pub recover_files : List File → ℕ → Latest → Outcome (List Segment × Latest)
unfolding recover_file
recover_files [] now latest = ok ([], latest)
recover_files (f ∷ fs) now latest = do
  (s, latest') ← recover_file f now latest
  (ss, latest'') ← recover_files fs now latest'
  ok (s ∷ ss, latest'')

-- All segments but the last, and the last.
unfoldable pub split_last : Segment → List Segment → List Segment × Segment
split_last s [] = ([], s)
split_last s (t ∷ ts) = (s ∷ (split_last t ts).0, (split_last t ts).1)

-- The map is walked in the order of the list. The recorded size is never zero: a record has a
-- header, so that the tombstones are kept as well.
unfoldable pub rebuild : Latest → ShardedIndex → ShardedIndex
unfolding Shard.put
rebuild [] si = si
rebuild ((key, e) ∷ latest) si =
    let rest = rebuild latest (Shard.put si key e) in
    if leb e.size 0 then rebuild latest si else rest

abbrev pub install : HashIndex → List Segment × Latest → HashIndex
install h ([], latest) = h
install h (s ∷ ss, latest) = record h {
  active = (split_last s ss).1;
  segments = (split_last s ss).0;
  index = rebuild latest h.index;
}

unfoldable pub recover : HashIndex → List File → ℕ → Outcome HashIndex
unfolding sort_files recover_files split_last rebuild
recover h files now = do r ← recover_files (sort_files files) now []; ok (install h r)

-- `New`: a first segment is made where there is nothing to recover.
unfoldable pub open_dir : ℕ → ℕ → ℕ → List File → ℕ → Outcome HashIndex
unfolding Engine.new recover
open_dir segment_size_bytes max_segments fresh files now =
    recover (Engine.new segment_size_bytes max_segments fresh) files now
