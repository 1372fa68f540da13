-- ===== src/Lsm/Tests.antt =====
-- Runs of lsm/ at concrete inputs.
use storage_engines.Base.{
  ℕ, ◌^◌, ◌<◌, ◌-◌, ◌≡◌, refl, Bool, true, false, List, [], ◌∷◌, ◌++◌, arith, Outcome, ok, err, All,
  Option, some, if◌then◌else◌, header_truncated, data_truncated,
}
use storage_engines.Bytes.{Bytes}
use storage_engines.Bytes.Endian.{put_le}
use storage_engines.Bytes.Hash.{checksum_ieee}
use storage_engines.Bytes.Order.{key_eq, compare_bytes}
use storage_engines.Lsm.MemTable
use storage_engines.Lsm.MemTable.{MemTable, new_mem_table, put, delete, get}
use storage_engines.Lsm.MemTable.Laws.{
  get-put, get-delete, put-IsValid, delete-IsValid, new_mem_table-IsValid,
}
use storage_engines.Lsm.Wal.{append, WalEntry, read_all, encode_record}
use storage_engines.Lsm.Wal.Replay.{write_all, read_all-write_all}
use storage_engines.Lsm.Bloom.{
  BloomFilter, new_bloom_filter, may_contain, encode, decode_bloom_filter,
}
use storage_engines.Lsm.Bloom.Laws.{
  add_all, no_false_negatives, decode_bloom_filter-encode, new_bloom_filter-IsValid,
}

abbrev key_a : Bytes
key_a = 97 ∷ []

abbrev key_b : Bytes
key_b = 98 ∷ []

abbrev one_entry : MemTable
one_entry = put (new_mem_table 100) key_b (1 ∷ 2 ∷ []) 1

get_after_put : get (put one_entry key_a (7 ∷ []) 2) key_b ≡ (1 ∷ 2 ∷ [], 1, false, true)
unfolding get put new_mem_table MemTable.find storage_engines.Base.Search.search compare_bytes
get_after_put = refl

one_entry-IsValid : MemTable.Laws.IsValid one_entry
one_entry-IsValid = put-IsValid (new_mem_table 100) key_b (1 ∷ 2 ∷ []) 1 (new_mem_table-IsValid 100)

put-IsValid_example : MemTable.Laws.IsValid one_entry
put-IsValid_example =
    put-IsValid (new_mem_table 100) key_b (1 ∷ 2 ∷ []) 1 (new_mem_table-IsValid 100)

delete-IsValid_example : MemTable.Laws.IsValid (delete one_entry key_b 2)
delete-IsValid_example = delete-IsValid one_entry key_b 2 one_entry-IsValid

get-put_example :
    get (put one_entry key_a (7 ∷ []) 2) key_a
    ≡ (if key_eq key_a key_a then (7 ∷ [], 2, false, true) else get one_entry key_a)
get-put_example = get-put one_entry key_a key_a (7 ∷ []) 2 one_entry-IsValid

get-delete_example :
    get (delete one_entry key_b 2) key_b
    ≡ (if key_eq key_b key_b then ([], 2, true, true) else get one_entry key_b)
get-delete_example = get-delete one_entry key_b key_b 2 one_entry-IsValid

abbrev logged : WalEntry
logged = record { key = key_a; value = 7 ∷ 8 ∷ []; sequence = 3; deleted = false }

abbrev logged_delete : WalEntry
logged_delete = record { key = key_b; value = []; sequence = 4; deleted = true }

read_all-write_all_example :
    read_all (write_all [] (logged ∷ logged_delete ∷ [])) ≡ ok (logged ∷ logged_delete ∷ [])
read_all-write_all_example = read_all-write_all (logged ∷ logged_delete ∷ []) (omega arith)

-- The record of `logged` but for its first byte and its last two: a crash cut it short.
abbrev torn_front : Bytes
torn_front =
    34 ∷ 115 ∷ 113 ∷ 3 ∷ 0 ∷ 0 ∷ 0 ∷ 0 ∷ 0 ∷ 0 ∷ 0 ∷ 1 ∷ 0 ∷ 0 ∷ 0 ∷ 2 ∷ 0 ∷ 0 ∷ 0 ∷ 0 ∷ 97 ∷ []

-- ReadAll answers none of the whole records before it either.
read_torn : read_all (write_all [] (logged_delete ∷ []) ++ (183 ∷ torn_front)) ≡ err data_truncated
unfolding read_all write_all append encode_record put_le checksum_ieee
    storage_engines.Lsm.Wal.read_record storage_engines.Bytes.Slice.le_at
read_torn = refl

no_false_negatives_example :
    (new : BloomFilter) × (add_all (new_bloom_filter 20 7) (key_a ∷ key_b ∷ []) ≡ ok new)
    × All (λ k. may_contain new k ≡ ok true) (key_a ∷ key_b ∷ [])
    × ((k : Bytes) → may_contain (new_bloom_filter 20 7) k ≡ ok true → may_contain new k ≡ ok true)
no_false_negatives_example =
    no_false_negatives (new_bloom_filter 20 7) (key_a ∷ key_b ∷ [])
      (new_bloom_filter-IsValid 20 7 (omega arith))

decode_bloom_filter-encode_example :
    decode_bloom_filter (encode (new_bloom_filter 20 7)) ≡ some (new_bloom_filter 20 7)
unfolding new_bloom_filter
decode_bloom_filter-encode_example =
    decode_bloom_filter-encode (new_bloom_filter 20 7) (omega arith) (omega arith)
