-- ===== src/Lsm/TableTests.antt =====
-- Runs of the tables and of the engine of lsm/ at concrete inputs.
use storage_engines.Base.{
  ℕ, ◌+◌, ◌<◌, ◌≡◌, ◌↔◌, refl, Bool, true, false, List, [], ◌∷◌, ◌++◌, length, arith, Outcome, ok,
  err, ◌>>=◌, All, Option, some, none, if◌then◌else◌, get_elem?,
}
use storage_engines.Bytes.{Bytes}
use storage_engines.Bytes.Order.{key_eq}
use storage_engines.Lsm.MemTable
use storage_engines.Lsm.MemTable.Laws.{new_mem_table-IsValid}
use storage_engines.Lsm.Bloom.{BloomFilter, new_bloom_filter}
use storage_engines.Lsm.SsTable
use storage_engines.Lsm.SsTable.{
  SsTable, SsTableEntry, IndexEntry, decode_metadata, decode_index, read_block, search_block,
}
use storage_engines.Lsm.Builder.{
  SsTableBuilder, new_sstable_builder, empty_block, flush_block, encode_metadata, encode_index,
}
use storage_engines.Lsm.Builder.Block.{Fits, encode_block, find_entry, IsSorted}
use storage_engines.Lsm.Builder.Flush.{search-flush_block}
use storage_engines.Lsm.Builder.Codec.{decode_metadata-encode, decode_index-encode}
use storage_engines.Lsm.Levels.{new_level_manager, add_sstable, get_all_sstables, empty_level}
use storage_engines.Lsm.Levels.Laws.{IsAscending, add_sstable_lem}
use storage_engines.Lsm.Engine.{Lsm, empty_lsm, put, delete, get, open_lsm, search_l0}
use storage_engines.Lsm.Engine.Durable.{Op, OpFits, run, open_lsm-run}
use storage_engines.Lsm.Engine.Reads.{get-put_lsm, get-delete_lsm, get-add_sstable}

abbrev key_a : Bytes
key_a = 97 ∷ []

abbrev key_b : Bytes
key_b = 98 ∷ []

abbrev entry_a : SsTableEntry
entry_a = (key_a, 7 ∷ [], false)

abbrev entry_b : SsTableEntry
entry_b = (key_b, [], true)

abbrev builder : SsTableBuilder
builder = record (new_sstable_builder (new_bloom_filter 20 7)) {
  current_block = empty_block ++ encode_block (entry_a ∷ entry_b ∷ []);
  min_key = key_a;
  max_key = key_b;
  index = (key_a, 0) ∷ [];
}

two_entries-Fits : All Fits (entry_a ∷ entry_b ∷ [])
two_entries-Fits = (
  record { key_fits = omega arith; value_fits = omega arith },
  (record { key_fits = omega arith; value_fits = omega arith }, tt),
)

two_entries-IsSorted : IsSorted (entry_a ∷ entry_b ∷ [])
unfolding storage_engines.Bytes.Order.compare_bytes
two_entries-IsSorted = ((refl, tt), (tt, tt))

search-flush_block_example :
    (b : SsTableBuilder) × (flush_block builder ≡ ok b)
    × (b.current_block ≡ empty_block)
    × (length b.file ≡ b.block_offset)
    × (b.index ≡ builder.index ++ ((key_a, builder.block_offset) ∷ []))
    × ((sst : SsTable) (more key : Bytes)
        → sst.file ≡ b.file ++ more
        → (do block ← read_block sst builder.block_offset; search_block block key)
          ≡ ok (find_entry (entry_a ∷ entry_b ∷ []) key))
unfolding new_sstable_builder encode_block storage_engines.Lsm.Builder.encode_entry
    storage_engines.Bytes.Endian.put_le
search-flush_block_example =
    search-flush_block entry_a (entry_b ∷ []) two_entries-Fits builder refl two_entries-IsSorted
      refl (omega arith) (omega arith)

decode_metadata-encode_example : decode_metadata (encode_metadata builder) ≡ ok (key_a, key_b)
decode_metadata-encode_example = decode_metadata-encode builder (omega arith)

decode_index-encode_example : decode_index (encode_index builder) ≡ ok ((key_a, 0) ∷ [])
decode_index-encode_example =
    decode_index-encode builder (omega arith) ((omega arith, omega arith), tt)

-- A table of one block, with the value 7 under the key a; its filter answers true for every key.
abbrev table : SsTable
table = record {
  file = 1 ∷ 0 ∷ 0 ∷ 0 ∷ 1 ∷ 0 ∷ 0 ∷ 0 ∷ 1 ∷ 0 ∷ 0 ∷ 0 ∷ 0 ∷ 97 ∷ 7 ∷ [];
  level = 0;
  file_num = 0;
  min_key = key_a;
  max_key = key_a;
  index = (key_a, 0) ∷ [];
  bloom_filter = some (record { bits = 255 ∷ []; num_bits = 8; num_hashes = 1 });
  index_offset = 15;
  bloom_offset = 15;
}

level_1 : get_elem? new_level_manager 1 ≡ some (empty_level 419430400)
unfolding new_level_manager
level_1 = refl

add_sstable_lem_example :
    ((P : SsTable → Type 0)
      → (All P (get_all_sstables new_level_manager 1) × P table)
        ↔ All P (get_all_sstables (add_sstable new_level_manager table 1) 1))
    × (0 < 1 → IsAscending (get_all_sstables (add_sstable new_level_manager table 1) 1))
add_sstable_lem_example = add_sstable_lem new_level_manager (empty_level 419430400) table 1 level_1

abbrev ops : List Op
ops = Op.put_op key_a (7 ∷ []) ∷ Op.delete_op key_a ∷ []

ops-OpFits : All OpFits ops
ops-OpFits = (omega arith, (omega arith, tt))

open_lsm-run_example :
    (r : Lsm) × (open_lsm 100 (run (empty_lsm 100 [] []) ops).wal [] ≡ ok r)
    × ((k : Bytes) → (get r k).0 ≡ (get (run (empty_lsm 100 [] []) ops) k).0)
open_lsm-run_example = open_lsm-run 100 ops ops-OpFits

empty-IsValid : MemTable.Laws.IsValid (empty_lsm 100 [] []).active_memtable
unfolding empty_lsm
empty-IsValid = new_mem_table-IsValid 100

get-put_lsm_example :
    (get (put (empty_lsm 100 [] []) key_a (7 ∷ [])) key_a).0
    ≡ (if key_eq key_a key_a then ok (some (7 ∷ [])) else (get (empty_lsm 100 [] []) key_a).0)
get-put_lsm_example = get-put_lsm (empty_lsm 100 [] []) key_a key_a (7 ∷ []) empty-IsValid

get-delete_lsm_example :
    (get (delete (empty_lsm 100 [] []) key_a) key_a).0
    ≡ (if key_eq key_a key_a then ok none else (get (empty_lsm 100 [] []) key_a).0)
get-delete_lsm_example = get-delete_lsm (empty_lsm 100 [] []) key_a key_a empty-IsValid

abbrev with_table : Lsm
with_table = record (empty_lsm 100 [] []) {
  levels = record (empty_level 1) { sstables = table ∷ [] } ∷ [];
}

-- A table with the value 8 under a key.
abbrev newer_table : Bytes → ℕ → SsTable
newer_table key letter = record table {
  file = 1 ∷ 0 ∷ 0 ∷ 0 ∷ 1 ∷ 0 ∷ 0 ∷ 0 ∷ 1 ∷ 0 ∷ 0 ∷ 0 ∷ 0 ∷ letter ∷ 8 ∷ [];
  file_num = 1;
  min_key = key;
  max_key = key;
  index = (key, 0) ∷ [];
}

with_table-misses : (MemTable.get with_table.active_memtable key_b) ≡ ([], 0, false, false)
unfolding empty_lsm MemTable.get MemTable.new_mem_table MemTable.find
    storage_engines.Base.Search.search
with_table-misses = refl

table_lacks : search_l0 (table ∷ []) key_b ≡ ok none
unfolding search_l0 SsTable.get SsTable.find_block SsTable.read_block SsTable.search_block
    storage_engines.Lsm.Bloom.may_contain storage_engines.Bytes.Hash.fnv64a
    storage_engines.Bytes.Hash.fnv64 storage_engines.Base.Search.search
    storage_engines.Bytes.Order.compare_bytes storage_engines.Bytes.Slice.le_at
    storage_engines.Bytes.Slice.byte_at
table_lacks = refl

newer_found : SsTable.get (newer_table key_b 98) key_b ≡ ok (some (8 ∷ []))
unfolding SsTable.get SsTable.find_block SsTable.read_block SsTable.search_block
    storage_engines.Lsm.Bloom.may_contain storage_engines.Bytes.Hash.fnv64a
    storage_engines.Bytes.Hash.fnv64 storage_engines.Base.Search.search
    storage_engines.Bytes.Order.compare_bytes storage_engines.Bytes.Slice.le_at
    storage_engines.Bytes.Slice.byte_at
newer_found = refl

-- The older of two tables that have the key is asked first.
older_answered : search_l0 (table ∷ newer_table key_a 97 ∷ []) key_a ≡ ok (some (7 ∷ []))
unfolding search_l0 SsTable.get SsTable.find_block SsTable.read_block SsTable.search_block
    storage_engines.Lsm.Bloom.may_contain storage_engines.Bytes.Hash.fnv64a
    storage_engines.Bytes.Hash.fnv64 storage_engines.Base.Search.search
    storage_engines.Bytes.Order.compare_bytes storage_engines.Bytes.Slice.le_at
    storage_engines.Bytes.Slice.byte_at
older_answered = refl

get-add_sstable_example :
    (get
      (record with_table { levels = add_sstable with_table.levels (newer_table key_b 98) 0 })
      key_b).0
    ≡ ok (some (8 ∷ []))
unfolding empty_lsm
get-add_sstable_example =
    get-add_sstable with_table (record (empty_level 1) { sstables = table ∷ [] })
      (newer_table key_b 98) key_b (8 ∷ []) refl with_table-misses refl table_lacks newer_found
