-- ===== src/Btree/Wal.antt =====
-- btree/wal.go: the log of page writes. The file is the list of its bytes, and its calls do not fail,
-- but for a read that ends before it is full.
pub mod Record
pub mod Run
pub mod Read
pub mod Replay
use storage_engines.Base.{
  Error, List, Option, Outcome, [], bad_magic, bad_version, crc_mismatch, data_truncated, drop,
  end_of_file, err, header_truncated, if◌then◌else◌, length, ltb, none, not, ok, out_of_fuel,
  panic_slice, replicate, some, suc, take, zero, ℕ, ◌%◌, ◌++◌, ◌+◌, ◌-◌, ◌==◌, ◌>>◌, ◌^◌, ◌∷◌,
}
use storage_engines.Bytes.{Bytes}
use storage_engines.Bytes.Endian.{put_le}
use storage_engines.Bytes.Slice.{byte_at, le_at, slice}
use storage_engines.Bytes.Patch.{patch}
use storage_engines.Bytes.Order.{key_eq}
use storage_engines.Bytes.Hash.{checksum_ieee}

abbrev pub wal_record_page_write : ℕ
wal_record_page_write = 1

abbrev pub wal_record_checkpoint : ℕ
wal_record_checkpoint = 2

abbrev pub wal_header_size : ℕ
wal_header_size = 8

-- "BWAL"
abbrev wal_magic : Bytes
wal_magic = 0x42 ∷ 0x57 ∷ 0x41 ∷ 0x4c ∷ []

abbrev wal_version : ℕ
wal_version = 1

pub record Wal : Type 0 where
  pub file : Bytes
  pub offset : ℕ
  pub flushed : ℕ

pub record WalRecord : Type 0 where
  pub kind : ℕ
  pub page_id : ℕ
  pub page_offset : ℕ
  pub size : ℕ
  pub page_data : Bytes
  pub checksum : ℕ

abbrev u32 : ℕ → ℕ
u32 n = n % 2 ^ 32

-- `file.WriteAt`; what is missing before the offset is filled with zeros.
unfoldable pub write_at : Bytes → Bytes → ℕ → Bytes
unfolding patch
write_at file content offset = patch (file ++ replicate (offset - length file) 0) offset content

unfoldable pub header : Bytes
unfolding put_le
header = wal_magic ++ put_le 4 wal_version

unfoldable pub write_header : Bytes → Bytes
unfolding write_at header
write_header file = write_at file header 0

unfoldable pub validate_header : Bytes → Outcome (Unit {0})
unfolding slice le_at
validate_header file =
    if ltb (length file) wal_header_size
    then err end_of_file
    else if not (key_eq (slice 0 4 file) wal_magic)
    then err bad_magic
    else if not (le_at 4 4 file == wal_version)
    then err bad_version
    else ok tt

-- `NewWAL` on the bytes that the file holds, none for a new file.
unfoldable pub new_wal : Bytes → Outcome Wal
unfolding write_header validate_header
new_wal file =
    let existing : Outcome Wal =
      validate_header file
      >> ok (record { file = file; offset = length file; flushed = length file }) in
    if length file == 0
    then ok
        (record { file = write_header file; offset = wal_header_size; flushed = wal_header_size })
    else existing

-- The bytes that the checksum is made of.
unfoldable pub checked_bytes : WalRecord → Bytes
unfolding put_le
checked_bytes r =
    r.kind ∷ (put_le 4 r.page_id ++ (put_le 4 r.page_offset ++ (put_le 4 r.size ++ r.page_data)))

unfoldable pub calculate_checksum : WalRecord → ℕ
unfolding checked_bytes checksum_ieee
calculate_checksum r = checksum_ieee (checked_bytes r)

unfoldable pub encode_record : WalRecord → Bytes
unfolding put_le
encode_record r =
    r.kind
    ∷ (put_le 4 r.page_id
        ++ (put_le 4 r.page_offset ++ (put_le 4 r.size ++ (r.page_data ++ put_le 4 r.checksum))))

abbrev summed : WalRecord → WalRecord
summed r = record r { checksum = calculate_checksum r }

abbrev pub page_write_record : ℕ → ℕ → Bytes → WalRecord
page_write_record page_id page_offset content = summed (record {
  kind = wal_record_page_write;
  page_id = page_id;
  page_offset = page_offset;
  size = u32 (length content);
  page_data = content;
  checksum = 0;
})

abbrev pub checkpoint_record : WalRecord
checkpoint_record = summed (record {
  kind = wal_record_checkpoint;
  page_id = 0;
  page_offset = 0;
  size = 0;
  page_data = [];
  checksum = 0;
})

abbrev logged : Wal → Bytes → Wal
logged w encoded = record w {
  file = write_at w.file encoded w.offset;
  offset = w.offset + length encoded;
}

unfoldable pub log_page_write : Wal → ℕ → ℕ → Bytes → Wal
unfolding write_at calculate_checksum encode_record
log_page_write w page_id page_offset content =
    logged w (encode_record (page_write_record page_id page_offset content))

unfoldable pub log_checkpoint : Wal → Wal
unfolding write_at calculate_checksum encode_record
log_checkpoint w = logged w (encode_record checkpoint_record)

-- The sums `13+record.Length` are uint32; a slice from 13 on to a smaller end panics.
unfoldable pub decode_record : Bytes → Outcome WalRecord
unfolding slice le_at byte_at calculate_checksum
decode_record buf =
    let size = le_at 9 4 buf in
    let found : WalRecord = record {
      kind = byte_at 0 buf;
      page_id = le_at 1 4 buf;
      page_offset = le_at 5 4 buf;
      size = size;
      page_data = slice 13 size buf;
      checksum = le_at (u32 (13 + size)) 4 buf;
    } in
    if ltb (length buf) 17
    then err header_truncated
    else if ltb (length buf) (13 + size + 4)
    then err data_truncated
    else if ltb (u32 (13 + size)) 13
    then err panic_slice
    else if not (found.checksum == calculate_checksum found)
    then err crc_mismatch
    else ok found

unfoldable pub sync : Wal → Wal
sync w = record w { flushed = w.offset }

-- What is answered with the records: the error that ended the loop, or none.
abbrev pub Records : Type 0
Records = List WalRecord × Option Error

abbrev decoded : Outcome WalRecord → List WalRecord → (WalRecord → Records) → Records
decoded (err e) records more = (records, some e)
decoded (ok r) records more = more r

-- The loop of `ReadAll` at an offset. A header or a record that is cut short ends it.
unfoldable pub read_loop : ℕ → Wal → ℕ → List WalRecord → Records
read_loop zero w offset records =
    if ltb offset w.offset then (records, some out_of_fuel) else (records, none)
read_loop (suc fuel) w offset records =
    let left = drop offset w.file in
    let record_size = 13 + le_at 9 4 left + 4 in
    let next = decoded (decode_record (take record_size left)) records (λ r.
      let more = read_loop fuel w (offset + record_size) (records ++ (r ∷ [])) in
      if byte_at 0 left == wal_record_checkpoint then (records ++ (r ∷ []), none) else more) in
    if not (ltb offset w.offset)
    then (records, none)
    else if ltb (length left) 13
    then (records, none)
    else if ltb (length left) record_size
    then (records, none)
    else next

-- Each round reads 17 bytes or more, so a round for each byte is more than enough.
unfoldable pub read_all : Wal → Records
unfolding read_loop
read_all w = read_loop w.offset w wal_header_size []

unfoldable pub truncate : Wal → Wal
unfolding write_header
truncate w = record { file = write_header []; offset = wal_header_size; flushed = wal_header_size }
