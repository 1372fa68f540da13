-- ===== src/Btree/Wal/Replay.antt =====
-- The log of page writes as a whole: what NewWAL and ReadAll make of the file after a crash.
use storage_engines.Base.{
  All, List, [], append_assoc, arith, drop-append, false, length, length-append, le→ltb_false, none,
  ok, refl, ◌++◌, ◌+◌, ◌<◌, ◌==◌, ◌^◌, ◌∷◌, ◌≡◌,
}
use storage_engines.Bytes.{Bytes}
use storage_engines.Bytes.Slice.{le_at, slice}
use storage_engines.Bytes.Order.{compare_bytes}
use storage_engines.Btree.Wal.{
  Wal, header, new_wal, read_all, truncate, validate_header, wal_header_size, wal_magic,
  wal_version, write_header,
}
use storage_engines.Btree.Wal.Record.{Fits, checkpoint_record-Fits, page_write_record-Fits}
use storage_engines.Btree.Wal.Run.{
  LogOp, checkpoint, encodings, records_of, run, run-write_records, until_checkpoint, write,
  write_records-file,
}
use storage_engines.Btree.Wal.Read.{IsTorn, read_loop-encodings}

length-header : (rest : Bytes) → length (header ++ rest) ≡ 8 + length rest
unfolding header
length-header rest = omega (arith, length-append header rest)

magic_there : (rest : Bytes) → slice 0 4 (header ++ rest) ≡ wal_magic
unfolding header slice
magic_there rest = refl

version_there : (rest : Bytes) → le_at 4 4 (header ++ rest) ≡ wal_version
unfolding header le_at
version_there rest = refl

validate_header-header : (rest : Bytes) → validate_header (header ++ rest) ≡ ok tt
unfolding validate_header compare_bytes
validate_header-header rest =
    rw
      (
        le→ltb_false (length (header ++ rest)) wal_header_size (omega (arith, length-header rest)),
        magic_there rest,
        version_there rest,
      )
      refl

new_wal-header :
    (rest : Bytes)
    → new_wal (header ++ rest)
      ≡ ok (record {
        file = header ++ rest;
        offset = length (header ++ rest);
        flushed = length (header ++ rest);
      })
unfolding new_wal
new_wal-header rest =
    let some_bytes : (length (header ++ rest) == 0) ≡ false = ground (arith, length-header rest) in
    rw (validate_header-header rest, some_bytes) refl

-- Every page write fits.
abbrev pub OpFits : LogOp → Type 0
OpFits (write page_id page_offset content) =
    (page_id < 2 ^ 32) × (page_offset < 2 ^ 32) × (length content + 13 < 2 ^ 32)
OpFits checkpoint = Unit

records_of-Fits : (ops : List LogOp) → All OpFits ops → All Fits (records_of ops)
records_of-Fits [] fs = tt
records_of-Fits (write page_id page_offset content ∷ ops) fs = (
  page_write_record-Fits page_id page_offset content fs.0.0 fs.0.1 fs.0.2,
  records_of-Fits ops fs.1,
)
records_of-Fits (checkpoint ∷ ops) fs = (checkpoint_record-Fits, records_of-Fits ops fs.1)

truncate_lem : (w : Wal) → (truncate w).file ≡ header
unfolding truncate write_header header
truncate_lem w = refl

header_size_is : length header ≡ 8
unfolding header
header_size_is = refl

same :
    (w : Wal) (ops : List LogOp) (torn : Bytes)
    → (run (truncate w) ops).file ++ torn ≡ header ++ (encodings (records_of ops) ++ torn)
same w ops torn =
    rw
      (
        run-write_records ops (truncate w),
        write_records-file (records_of ops) (truncate w) start,
        truncate_lem w,
      )
      (append_assoc header (encodings (records_of ops)) torn)
  where
    start : (truncate w).offset ≡ length (truncate w).file
    start = rw (truncate_lem w, header_size_is) (unfold truncate in refl)

-- If the log is truncated, page writes and checkpoints whose numbers fit are logged, and a crash then
-- leaves a proper front of one more record at the end of the file, possibly nothing, then NewWAL opens
-- the file, and ReadAll answers the whole records up to the first checkpoint, without an error.
pub read_all-run :
    (w : Wal) (ops : List LogOp) (torn : Bytes)
    → All OpFits ops
    → IsTorn torn
    → (v : Wal) × (new_wal ((run (truncate w) ops).file ++ torn) ≡ ok v)
      × (read_all v ≡ (until_checkpoint (records_of ops), none))
unfolding read_all
read_all-run w ops torn fs t = (
  v,
  rw (same w ops torn) (new_wal-header rest),
  read_loop-encodings (records_of ops) (length (header ++ rest)) v wal_header_size [] torn
      (records_of-Fits ops fs) t (drop-append 8 header rest header_size_is)
      (omega (arith, length-header rest)) (omega (arith, length-header rest)),
)
  where
    rest : Bytes
    rest = encodings (records_of ops) ++ torn

    v : Wal
    v = record {
      file = header ++ rest;
      offset = length (header ++ rest);
      flushed = length (header ++ rest);
    }
