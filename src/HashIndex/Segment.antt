-- ===== src/HashIndex/Segment.antt =====
-- hashindex/segment.go: one data file with a reference count. The lock makes each method atomic.
-- `time.Now` is the argument `now`; of the file's errors the end of the file is modelled.
pub mod Record
pub mod Laws
use storage_engines.Base.{
  ℕ, zero, suc, ◌+◌, ◌-◌, ◌%◌, ◌^◌, Bool, true, false, List, [], ◌∷◌, ◌++◌, length, take, drop, ltb,
  leb, ◌==◌, not, if◌then◌else◌, Option, none, some, Outcome, ok, err, ◌>>=◌, segment_closed,
  end_of_file, crc_mismatch, panic_slice,
}
use storage_engines.Bytes.{Bytes}
use storage_engines.Bytes.Endian.{put_le}
use storage_engines.Bytes.Slice.{le_at}
use storage_engines.Bytes.Hash.{checksum_ieee}

abbrev pub header_size : ℕ
header_size = 20

abbrev pub u32 : ℕ → ℕ
u32 n = n % 2 ^ 32

-- The file is `none` when its pointer is nil. The counter is taken once when the segment is made and
-- once by each `acquire`, and given back as often, so it does not pass below zero.
pub record Segment : Type 0 where
  pub id : ℕ
  pub file : Option Bytes
  pub size : ℕ
  pub closed : Bool
  pub ref_count : ℕ

unfoldable pub new_segment : ℕ → Bytes → Segment
new_segment id file = record { id = id; file = some file; size = 0; closed = false; ref_count = 1 }

-- The state of a segment that was acquired; a closed one is not.
unfoldable pub acquire : Segment → Option Segment
acquire s = if s.closed then none else some (record s { ref_count = s.ref_count + 1 })

unfoldable pub close_file : Segment → Segment
close_file s = if s.closed then s else record s { closed = true; file = none }

unfoldable pub release : Segment → Segment
unfolding close_file
release s =
    let s' : Segment = record s { ref_count = s.ref_count - 1 } in
    if leb (s.ref_count - 1) 0 then close_file s' else s'

unfoldable pub close : Segment → Segment
unfolding release
close s = release s

-- What the checksum is taken over.
unfoldable pub crc_data : ℕ → ℕ → ℕ → Bytes → Bytes
crc_data timestamp key_size value_size texts =
    put_le 8 timestamp ++ (put_le 4 key_size ++ (put_le 4 value_size ++ texts))

unfoldable pub record_bytes : ℕ → Bytes → Bytes → Bytes
unfolding crc_data
record_bytes now key value =
    put_le 4 (checksum_ieee (crc_data now (u32 (length key)) (u32 (length value)) (key ++ value)))
    ++ crc_data now (u32 (length key)) (u32 (length value)) (key ++ value)

abbrev pub Place : Type 0
Place = ℕ × ℕ

-- Three writes at the end of the file, which is opened with O_APPEND; the offset and the size of the
-- record, as the bits of an int32, are returned.
unfoldable pub append : Segment → ℕ → Bytes → Bytes → Outcome (Place × Segment)
unfolding record_bytes
append s now key value =
    let record_size = header_size + length key + length value in
    if s.closed then err segment_closed else elim s.file [
      | none ↦ err segment_closed
      | some file ↦ ok (
        (s.size, u32 record_size),
        record s { file = some (file ++ record_bytes now key value); size = s.size + record_size },
      )
    ]

-- The part that `read` and `readRecord` share, on the bytes from the offset on: `ReadAt` of the
-- header and of the data, which end in io.EOF where the file is too short, the checksum over the
-- fields encoded anew, and the split of the data, which panics if the sum of the sizes has wrapped.
unfoldable pub parse_record : Bytes → Outcome (Bytes × Bytes)
unfolding crc_data
parse_record bytes =
    let key_size = le_at 12 4 bytes in
    let value_size = le_at 16 4 bytes in
    let data_size = u32 (key_size + value_size) in
    let texts = take data_size (drop header_size bytes) in
    if ltb (length bytes) header_size
    then err end_of_file
    else if ltb (length (drop header_size bytes)) data_size
    then err end_of_file
    else if not
        (checksum_ieee (crc_data (le_at 4 8 bytes) key_size value_size texts) == le_at 0 4 bytes)
    then err crc_mismatch
    else if ltb data_size key_size
    then err panic_slice
    else ok (take key_size texts, drop key_size texts)

unfoldable pub parse_at : Option Bytes → ℕ → Outcome (Bytes × Bytes)
parse_at none offset = err segment_closed
parse_at (some file) offset = parse_record (drop offset file)

abbrev locked {ℓ} : {A : Type ℓ} → Segment → (Segment → Outcome A) → Outcome A × Segment
locked s body = elim (acquire s) [
  | none ↦ (err segment_closed, s)
  | some s' ↦ (body s', release s')
]

-- The value of the record at the offset.
unfoldable pub read : Segment → ℕ → Outcome Bytes × Segment
unfolding acquire release parse_at
read s offset = locked s (λ s'. do (key, value) ← parse_at s'.file offset; ok value)

-- Key, value and the offset behind the record. The sizes are added without wrapping here.
unfoldable pub read_record : Segment → ℕ → Outcome (Bytes × Bytes × ℕ) × Segment
unfolding acquire release parse_at
read_record s offset = locked s (λ s'. do
  (key, value) ← parse_at s'.file offset
  ok (key, value, offset + header_size + length key + length value))
