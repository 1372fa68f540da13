-- ===== src/Lsm/Builder/Flush.antt =====
-- A block that the builder flushed, read back from the file.
use storage_engines.Base.{
  ℕ, ◌+◌, ◌-◌, ◌%◌, ◌^◌, ◌<◌, ◌≤◌, ◌≡◌, refl, List, [], ◌∷◌, ◌++◌, length, replicate, take-append,
  drop-append, length-append, length-replicate, append_assoc, All, arith, ok, ◌>>=◌,
}
use storage_engines.Bytes.{Bytes}
use storage_engines.Bytes.Endian.{put_le, length-put_le}
use storage_engines.Bytes.Slice.{le_at-skip, drop-skip}
use storage_engines.Lsm.SsTable.{SsTable, SsTableEntry, read_block, search_block, block_size}
use storage_engines.Lsm.Builder.{
  SsTableBuilder, empty_block, flush_block, seal_block, get_num_entries_in_block,
  get_first_key_from_block,
}
use storage_engines.Lsm.Builder.Block.{
  Fits, encode_block, entry_bytes, find_entry, IsSorted, search_block-encode_block,
  length-encode_block, count_entries-encode_block, key_size, texts, length-entry,
}

length_le : (es : List SsTableEntry) → All Fits es → length es ≤ length (encode_block es)
length_le [] fs = omega arith
length_le (e ∷ es) fs = omega (arith, length_le es fs.1, length-encode_block e es fs.0)

module _ (e : SsTableEntry) (es : List SsTableEntry) (fs : All Fits (e ∷ es)) where
  abbrev current : Bytes
  current = empty_block ++ encode_block (e ∷ es)

  abbrev sealed : Bytes
  sealed = put_le 4 (length (e ∷ es)) ++ encode_block (e ∷ es)

  abbrev tail : Bytes
  tail = encode_block es

  first-current : get_first_key_from_block current ≡ ok e.0
  unfolding get_first_key_from_block encode_block
  first-current =
      rw
        (
          le_at-skip 4 4 0 4 empty_block (entry_bytes e ++ tail) refl refl,
          key_size e fs.0 tail,
          drop-skip 13 4 9 empty_block (entry_bytes e ++ tail) refl refl,
          texts e fs.0 tail,
          take-append (length e.0) e.0 (e.1 ++ tail) refl,
        )
        (ground (arith, length-entry e fs.0 tail))

  seal-current : length (e ∷ es) < 2 ^ 32 → seal_block current ≡ sealed
  unfolding seal_block get_num_entries_in_block
  seal-current n =
      let counted : length (e ∷ es) % 2 ^ 32 ≡ length (e ∷ es) = omega (arith, n) in
      rw (count_entries-encode_block (e ∷ es) (length current) fs (omega arith), counted) refl

  abbrev padding : Bytes
  padding = replicate (block_size - length sealed) 0

  abbrev flushed : SsTableBuilder → SsTableBuilder
  flushed b = record b {
    file = b.file ++ (sealed ++ padding);
    index = b.index ++ ((e.0, b.block_offset) ∷ []);
    block_offset = b.block_offset + length sealed + length padding;
    current_block = empty_block;
  }

  flush_block-flushed :
      (b : SsTableBuilder)
      → b.current_block ≡ current
      → length (e ∷ es) < 2 ^ 32
      → flush_block b ≡ ok (flushed b)
  unfolding flush_block
  flush_block-flushed b h n =
      rw (h, first-current, seal-current n) (ground (arith, length-encode_block e es fs.0))

  length-sealed : length sealed ≡ length current
  length-sealed = omega (
    arith,
    length-append (put_le 4 (length (e ∷ es))) (encode_block (e ∷ es)),
    length-put_le 4 (length (e ∷ es)),
  )

  read-flushed :
      (b : SsTableBuilder) (sst : SsTable) (more : Bytes)
      → length b.file ≡ b.block_offset
      → b.block_offset < 2 ^ 63
      → length current ≤ block_size
      → sst.file ≡ (flushed b).file ++ more
      → read_block sst b.block_offset ≡ ok (sealed ++ padding)
  unfolding read_block
  read-flushed b sst more at small short h =
      rw
        (
          h,
          append_assoc b.file (sealed ++ padding) more,
          drop-append b.block_offset b.file ((sealed ++ padding) ++ more) at,
          take-append block_size (sealed ++ padding) more whole,
        )
        (ground (arith, small))
    where
      whole : length (sealed ++ padding) ≡ block_size
      whole = omega (
        arith,
        length-append sealed padding,
        length-replicate {A = ℕ} (block_size - length sealed) 0,
        length-sealed,
        short,
      )

  -- Flushing a builder whose block holds the given entries, at least one, sorted and with sizes that
  -- fit, and is no longer than 4096 bytes, and whose offset is below 2^63 and the length of its file,
  -- succeeds and empties the block. The offset stays the length of the file, the index gets an entry
  -- with the first key and the offset before, and in every table whose file begins with the file
  -- written, the search of the block read at that offset finds for every key what the entries hold
  -- (nothing for a deleted key).
  pub search-flush_block :
      (b : SsTableBuilder)
      → b.current_block ≡ current
      → IsSorted (e ∷ es)
      → length b.file ≡ b.block_offset
      → b.block_offset < 2 ^ 63
      → length current ≤ block_size
      → (b' : SsTableBuilder) × (flush_block b ≡ ok b')
        × (b'.current_block ≡ empty_block)
        × (length b'.file ≡ b'.block_offset)
        × (b'.index ≡ b.index ++ ((e.0, b.block_offset) ∷ []))
        × ((sst : SsTable) (more key : Bytes)
            → sst.file ≡ b'.file ++ more
            → (do block ← read_block sst b.block_offset; search_block block key)
              ≡ ok (find_entry (e ∷ es) key))
  search-flush_block b h s at small short = (
    flushed b,
    flush_block-flushed b h few,
    refl,
    offset,
    refl,
    λ sst more key w. rw (read-flushed b sst more at small short w) (
        rw (append_assoc (put_le 4 (length (e ∷ es))) (encode_block (e ∷ es)) padding)
          (search_block-encode_block (e ∷ es) padding key few fs s)),
  )
    where
      few : length (e ∷ es) < 2 ^ 32
      few = omega (arith, short, length_le es fs.1, length-encode_block e es fs.0)

      offset : length (flushed b).file ≡ (flushed b).block_offset
      offset =
          omega (arith, at, length-append b.file (sealed ++ padding), length-append sealed padding)
