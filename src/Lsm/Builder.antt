-- ===== src/Lsm/Builder.antt =====
-- lsm/sstable_builder.go: the table is written block by block. A method is a function on the state;
-- the writes do not fail, and the file holds what was written.
pub mod Block
pub mod Flush
pub mod Codec
use storage_engines.Base.{
  ℕ, zero, suc, ◌+◌, ◌-◌, ◌%◌, ◌^◌, Bool, true, false, List, [], ◌∷◌, ◌++◌, length, take, drop,
  replicate, ltb, leb, ◌==◌, if◌then◌else◌, Option, none, some, Outcome, ok, err, ◌>>=◌,
  block_too_small, block_truncated,
}
use storage_engines.Bytes.{Bytes}
use storage_engines.Bytes.Endian.{put_le}
use storage_engines.Bytes.Slice.{le_at}
use storage_engines.Lsm.Bloom
use storage_engines.Lsm.Bloom.{BloomFilter}
use storage_engines.Lsm.SsTable.{IndexEntry, block_size, sstable_magic}

pub record SsTableBuilder : Type 0 where
  pub file : Bytes
  pub current_block : Bytes
  pub block_offset : ℕ
  pub index : List IndexEntry
  pub bloom_filter : BloomFilter
  pub min_key : Bytes
  pub max_key : Bytes
  pub num_entries : ℕ

abbrev pub empty_block : Bytes
empty_block = replicate 4 0

-- The filter is that which `NewBloomFilter` makes for the expected number of keys.
unfoldable pub new_sstable_builder : BloomFilter → SsTableBuilder
new_sstable_builder bloom_filter = record {
  file = [];
  current_block = empty_block;
  block_offset = 0;
  index = [];
  bloom_filter = bloom_filter;
  min_key = [];
  max_key = [];
  num_entries = 0;
}

abbrev u32 : ℕ → ℕ
u32 n = n % 2 ^ 32

abbrev pub flag : Bool → ℕ
flag true = 1
flag false = 0

-- The sizes are cut to 32 bits, and the buffer is made for the sizes that were cut, so that a longer
-- key or value is cut as well.
unfoldable pub encode_entry : Bytes → Bytes → Bool → Bytes
encode_entry key value deleted =
    put_le 4 (u32 (length key))
    ++ (put_le 4 (u32 (length value))
        ++ (flag deleted ∷ (take (u32 (length key)) key ++ take (u32 (length value)) value)))

unfoldable pub get_first_key_from_block : Bytes → Outcome Bytes
get_first_key_from_block block =
    let key_size = le_at 4 4 block in
    if ltb (length block) 13
    then err block_too_small
    else if ltb (length block) (13 + key_size)
    then err block_truncated
    else ok (take key_size (drop 13 block))

-- The loop of `getNumEntriesInBlock` on the bytes from its offset on; a round takes nine bytes at
-- least, so that a round for each byte is more than enough.
unfoldable pub count_entries : ℕ → Bytes → ℕ
count_entries zero rest = 0
count_entries (suc fuel) rest =
    let size = 9 + le_at 0 4 rest + le_at 4 4 rest in
    let more = count_entries fuel (drop size rest) in
    if ltb (length rest) 9 then 0 else if ltb (length rest) size then 0 else more + 1

unfoldable pub get_num_entries_in_block : Bytes → ℕ
unfolding count_entries
get_num_entries_in_block block = u32 (count_entries (length block) (drop 4 block))

-- The block with its number of entries, as it is written.
unfoldable pub seal_block : Bytes → Bytes
unfolding get_num_entries_in_block
seal_block block = put_le 4 (get_num_entries_in_block block) ++ drop 4 block

-- The padding fills a short block only.
unfoldable pub flush_block : SsTableBuilder → Outcome SsTableBuilder
unfolding get_first_key_from_block seal_block
flush_block b =
    let block = seal_block b.current_block in
    let padding = replicate (block_size - length block) 0 in
    let flushed : Outcome SsTableBuilder = (do
      first_key ← get_first_key_from_block b.current_block
      ok (record b {
        file = b.file ++ (block ++ padding);
        index = b.index ++ ((first_key, b.block_offset) ∷ []);
        block_offset = b.block_offset + length block + length padding;
        current_block = empty_block;
      })) in
    if leb (length b.current_block) 4 then ok b else flushed

abbrev push : SsTableBuilder → Bytes → SsTableBuilder
push b entry = record b { current_block = b.current_block ++ entry }

unfoldable pub add : SsTableBuilder → Bytes → Bytes → Bool → Outcome SsTableBuilder
unfolding flush_block encode_entry
add b key value deleted =
    let entry = encode_entry key value deleted in
    do
      bloom ← Bloom.add b.bloom_filter key
      let b' : SsTableBuilder = record b {
        min_key = if b.num_entries == 0 then key else b.min_key;
        max_key = key;
        num_entries = b.num_entries + 1;
        bloom_filter = bloom;
      }
      b'' ←
          if ltb block_size (length b'.current_block + length entry) then flush_block b' else ok b'
      ok (push b'' entry)

unfoldable pub encode_metadata : SsTableBuilder → Bytes
encode_metadata b =
    put_le 4 (u32 (length b.min_key))
    ++ (put_le 4 (u32 (length b.max_key)) ++ (b.min_key ++ b.max_key))

unfoldable pub encode_entries : List IndexEntry → Bytes
encode_entries [] = []
encode_entries ((key, offset) ∷ index) =
    put_le 4 (u32 (length key)) ++ (put_le 8 offset ++ (key ++ encode_entries index))

unfoldable pub encode_index : SsTableBuilder → Bytes
unfolding encode_entries
encode_index b = put_le 4 (u32 (length b.index)) ++ encode_entries b.index

-- The file that is left when the builder has finished.
unfoldable pub finish : SsTableBuilder → Outcome Bytes
unfolding flush_block encode_index encode_metadata Bloom.encode
finish b = do
  b' ← if ltb 4 (length b.current_block) then flush_block b else ok b
  let index_bytes : Bytes = encode_index b'
  let metadata : Bytes = encode_metadata b'
  let metadata_offset : ℕ = b'.block_offset + length index_bytes
  let bloom_offset : ℕ = metadata_offset + length metadata
  ok (
      b'.file
      ++ (index_bytes
          ++ (metadata
              ++ (Bloom.encode b'.bloom_filter
                  ++ (put_le 8 b'.block_offset
                      ++ (put_le 8 bloom_offset
                          ++ (put_le 8 metadata_offset ++ put_le 4 sstable_magic)))))))
