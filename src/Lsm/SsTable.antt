-- ===== src/Lsm/SsTable.antt =====
-- lsm/sstable.go: the immutable table, on the bytes of its file. A buffer of more than 2 ^ 63 bytes
-- panics when it is made; no other failure of an allocation is modelled.
use storage_engines.Base.{
  ℕ, zero, suc, ◌+◌, ◌-◌, ◌%◌, ◌^◌, Bool, true, false, ◌||◌, ◌&&◌, List, [], ◌∷◌, length, take,
  drop, get_elem?, ltb, leb, ◌==◌, not, if◌then◌else◌, Option, none, some, Outcome, ok, err, ◌>>=◌,
  end_of_file, panic_slice, panic_nil, panic_index, index_truncated, metadata_truncated,
  block_truncated, file_too_small, bad_magic, negative_offset,
}
use storage_engines.Base.Search.{search}
use storage_engines.Bytes.{Bytes}
use storage_engines.Bytes.Order.{key_lt, key_eq}
use storage_engines.Bytes.Slice.{le_at, byte_at}
use storage_engines.Lsm.Bloom.{BloomFilter, decode_bloom_filter, may_contain}

abbrev pub block_size : ℕ
block_size = 4096

abbrev pub sstable_magic : ℕ
sstable_magic = 1398030924

abbrev pub footer_size : ℕ
footer_size = 28

abbrev pub SsTableEntry : Type 0
SsTableEntry = Bytes × Bytes × Bool

abbrev pub IndexEntry : Type 0
IndexEntry = Bytes × ℕ

-- The decoded filter is nil where its bytes are too few.
pub record SsTable : Type 0 where
  pub file : Bytes
  pub level : ℕ
  pub file_num : ℕ
  pub min_key : Bytes
  pub max_key : Bytes
  pub index : List IndexEntry
  pub bloom_filter : Option BloomFilter
  pub index_offset : ℕ
  pub bloom_offset : ℕ

-- The slice `data[lo:hi]`.
abbrev sub_slice : Bytes → ℕ → ℕ → Outcome Bytes
sub_slice bytes lo hi =
    if ltb hi lo || ltb (length bytes) hi
    then err panic_slice
    else ok (take (hi - lo) (drop lo bytes))

unfoldable pub decode_metadata : Bytes → Outcome (Bytes × Bytes)
decode_metadata bytes =
    let min_size = le_at 0 4 bytes in
    let max_size = le_at 4 4 bytes in
    let lo = (8 + min_size) % 2 ^ 32 in
    let hi = (lo + max_size) % 2 ^ 32 in
    if ltb (length bytes) 8
    then err metadata_truncated
    else if ltb (length bytes) (8 + min_size + max_size)
    then err metadata_truncated
    else do min_key ← sub_slice bytes 8 lo; max_key ← sub_slice bytes lo hi; ok (min_key, max_key)

-- The loop of `decodeIndex` on the bytes from its offset on.
unfoldable pub decode_entries : ℕ → Bytes → Outcome (List IndexEntry)
decode_entries zero rest = ok []
decode_entries (suc n) rest =
    let key_size = le_at 0 4 rest in
    let more = decode_entries n (drop (12 + key_size) rest) in
    if ltb (length rest) 12
    then err index_truncated
    else if ltb (length rest) (12 + key_size)
    then err index_truncated
    else do entries ← more; ok ((take key_size (drop 12 rest), le_at 4 8 rest) ∷ entries)

unfoldable pub decode_index : Bytes → Outcome (List IndexEntry)
unfolding decode_entries
decode_index bytes =
    let entries = decode_entries (le_at 0 4 bytes) (drop 4 bytes) in
    if ltb (length bytes) 4 then err index_truncated else entries

-- The loop of `searchBlock` on the bytes from its offset on. A deleted key is not found.
unfoldable pub search_entries : ℕ → Bytes → Bytes → Outcome (Option Bytes)
search_entries zero rest key = ok none
search_entries (suc n) rest key =
    let key_size = le_at 0 4 rest in
    let value_size = le_at 4 4 rest in
    let deleted = byte_at 8 rest == 1 in
    let entry_key = take key_size (drop 9 rest) in
    let more = search_entries n (drop (9 + key_size + value_size) rest) key in
    if ltb (length rest) 9
    then err block_truncated
    else if ltb (length rest) (9 + key_size + value_size)
    then err block_truncated
    else if key_eq entry_key key
    then (if deleted then ok none else ok (some (take value_size (drop (9 + key_size) rest))))
    else if key_lt key entry_key
    then ok none
    else more

unfoldable pub search_block : Bytes → Bytes → Outcome (Option Bytes)
unfolding search_entries
search_block block key =
    let found = search_entries (le_at 0 4 block) (drop 4 block) key in
    if ltb (length block) 4 then ok none else found

-- `ReadAt` of a buffer of `size` bytes, whose end of the file is an error.
unfoldable pub read_at : Bytes → ℕ → ℕ → Outcome Bytes
read_at file offset size =
    if leb (2 ^ 63) size
    then err panic_slice
    else if leb (2 ^ 63) offset
    then err negative_offset
    else if size == 0
    then ok []
    else if ltb (length file) (offset + size)
    then err end_of_file
    else ok (take size (drop offset file))

-- Here the end of the file shortens the block.
unfoldable pub read_block : SsTable → ℕ → Outcome Bytes
read_block sst offset =
    if leb (2 ^ 63) offset then err negative_offset else ok (take block_size (drop offset sst.file))

-- The difference of two offsets, as a uint64.
abbrev gap : ℕ → ℕ → ℕ
gap a b = (a + 2 ^ 64 - b) % 2 ^ 64

abbrev load : Bytes → ℕ → ℕ → ℕ → ℕ → ℕ → Outcome SsTable
load file level file_num index_offset bloom_offset metadata_offset =
    let bloom_size = length file - footer_size - bloom_offset in
    let bloom_bytes =
      if ltb (length file - footer_size) bloom_offset
      then err panic_slice
      else read_at file bloom_offset bloom_size in
    do
      metadata ← read_at file metadata_offset (gap bloom_offset metadata_offset)
      (min_key, max_key) ← decode_metadata metadata
      index_bytes ← read_at file index_offset (gap metadata_offset index_offset)
      index ← decode_index index_bytes
      bloom ← bloom_bytes
      ok (record {
        file = file;
        level = level;
        file_num = file_num;
        min_key = min_key;
        max_key = max_key;
        index = index;
        bloom_filter = decode_bloom_filter bloom;
        index_offset = index_offset;
        bloom_offset = bloom_offset;
      })

-- `OpenSSTable` of a file that exists.
unfoldable pub open_sstable : Bytes → ℕ → ℕ → Outcome SsTable
unfolding read_at decode_metadata decode_index
open_sstable file level file_num =
    let footer = drop (length file - footer_size) file in
    if ltb (length file) footer_size
    then err file_too_small
    else if not (le_at 24 4 footer == sstable_magic)
    then err bad_magic
    else load file level file_num (le_at 0 8 footer) (le_at 8 8 footer) (le_at 16 8 footer)

abbrev pub maybe_contains : Option BloomFilter → Bytes → Outcome Bool
maybe_contains none key = err panic_nil
maybe_contains (some bf) key = may_contain bf key

abbrev key_above : Bytes → Option IndexEntry → Bool
key_above key none = false
key_above key (some e) = key_lt key e.0

-- The first index entry whose key is above the key.
unfoldable pub find_block : List IndexEntry → Bytes → ℕ
find_block index key = search (length index) (λ i. key_above key (get_elem? index i))

abbrev in_block : SsTable → Bytes → Option IndexEntry → Outcome (Option Bytes)
in_block sst key none = err panic_index
in_block sst key (some e) = do block ← read_block sst e.1; search_block block key

-- `none` where the second result of `Get` is false.
unfoldable pub get : SsTable → Bytes → Outcome (Option Bytes)
unfolding find_block read_block search_block
get sst key = do
  maybe ← maybe_contains sst.bloom_filter key
  if not maybe
      then ok none
      else if find_block sst.index key == 0
      then ok none
      else in_block sst key (get_elem? sst.index (find_block sst.index key - 1))

-- The range of the table meets [start, end]; an empty bound is open.
unfoldable pub overlaps : SsTable → Bytes → Bytes → Bool
overlaps sst start end =
    if not (length start == 0) && key_lt sst.max_key start
    then false
    else if not (length end == 0) && key_lt end sst.min_key
    then false
    else true
