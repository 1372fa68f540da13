-- ===== src/Lsm/Wal.antt =====
-- lsm/wal.go: the write-ahead log. The file, opened with O_APPEND, is the list of its bytes.
pub mod Record
pub mod Replay
use storage_engines.Base.{
  ℕ, zero, suc, ◌+◌, ◌%◌, ◌^◌, Bool, true, false, List, [], ◌∷◌, ◌++◌, length, take, drop, ltb,
  ◌==◌, not, if◌then◌else◌, Outcome, ok, err, ◌>>=◌, header_truncated, data_truncated, crc_mismatch,
  panic_slice, out_of_fuel,
}
use storage_engines.Bytes.{Bytes}
use storage_engines.Bytes.Endian.{put_le}
use storage_engines.Bytes.Slice.{slice, le_at, byte_at}
use storage_engines.Bytes.Hash.{checksum_ieee}

pub record WalEntry : Type 0 where
  pub key : Bytes
  pub value : Bytes
  pub sequence : ℕ
  pub deleted : Bool

abbrev pub u32 : ℕ → ℕ
u32 n = n % 2 ^ 32

abbrev pub flag : Bool → ℕ
flag true = 1
flag false = 0

-- The record behind the checksum. The two `copy` calls fill `keySize + valueSize` bytes: the second
-- starts at `keySize`, so of each text as much stands there as its uint32 size says.
unfoldable pub record_body : Bytes → Bytes → ℕ → Bool → Bytes
record_body key value seq deleted =
    put_le 8 seq
    ++ (put_le 4 (u32 (length key))
        ++ (put_le 4 (u32 (length value))
            ++ (flag deleted ∷ (take (u32 (length key)) key ++ take (u32 (length value)) value))))

unfoldable pub encode_record : Bytes → Bytes → ℕ → Bool → Bytes
unfolding record_body
encode_record key value seq deleted =
    put_le 4 (checksum_ieee (record_body key value seq deleted))
    ++ record_body key value seq deleted

-- `Append`: one `Write` at the end of the file.
unfoldable pub append : Bytes → Bytes → Bytes → ℕ → Bool → Bytes
append file key value seq deleted = file ++ encode_record key value seq deleted

abbrev pub header_size : ℕ
header_size = 21

-- One round of the loop of `ReadAll` on the bytes that are left, which are not none: `ReadFull` of
-- the header and of the data, the checksum, and the slices `data[:keySize]` and `data[keySize:]`,
-- which panic if `keySize + valueSize` has wrapped round.
unfoldable pub read_record : Bytes → Outcome (WalEntry × Bytes)
read_record buf =
    let key_size = le_at 12 4 buf in
    let value_size = le_at 16 4 buf in
    let data_size = u32 (key_size + value_size) in
    let rest = drop header_size buf in
    let data_bytes = take data_size rest in
    let entry : WalEntry = record {
      key = take key_size data_bytes;
      value = drop key_size data_bytes;
      sequence = le_at 4 8 buf;
      deleted = byte_at 20 buf == 1;
    } in
    if ltb (length buf) header_size
    then err header_truncated
    else if ltb (length rest) data_size
    then err data_truncated
    else if not (le_at 0 4 buf == checksum_ieee (slice 4 17 buf ++ data_bytes))
    then err crc_mismatch
    else if ltb data_size key_size
    then err panic_slice
    else ok (entry, drop data_size rest)

read_loop : ℕ → Bytes → List WalEntry → Outcome (List WalEntry)
read_loop fuel [] entries = ok entries
read_loop zero (b ∷ bs) entries = err out_of_fuel
read_loop (suc fuel) (b ∷ bs) entries = do
  (entry, rest) ← read_record (b ∷ bs)
  read_loop fuel rest (entries ++ (entry ∷ []))

-- `ReadAll`. Each round takes at least the header, so a round for each byte is more than enough.
unfoldable pub read_all : Bytes → Outcome (List WalEntry)
unfolding read_loop
read_all file = read_loop (length file) file []
