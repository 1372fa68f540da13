-- ===== src/Lsm/Builder/Codec.antt =====
-- The metadata and the index of a table, encoded by the builder and decoded when it is opened.
use storage_engines.Base.{
  ◌+◌, ◌-◌, ◌%◌, ◌^◌, ◌<◌, ◌≡◌, refl, ap, ◌∙◌, List, [], ◌∷◌, ◌++◌, length, take, drop, take-append,
  take-length, drop-append, length-append, All, arith, ok, drop-add,
}
use storage_engines.Bytes.{Bytes}
use storage_engines.Bytes.Endian.{put_le, length-put_le}
use storage_engines.Bytes.Slice.{le_at-here, le_at-next, drop-next}
use storage_engines.Lsm.SsTable.{IndexEntry, decode_metadata, decode_entries, decode_index}
use storage_engines.Lsm.Builder.{SsTableBuilder, encode_metadata, encode_entries, encode_index}

abbrev metadata_bytes : SsTableBuilder → Bytes
metadata_bytes b =
    put_le 4 (length b.min_key) ++ (put_le 4 (length b.max_key) ++ (b.min_key ++ b.max_key))

-- The metadata block of a builder is decoded as its least and its greatest key, if the two lengths
-- and the eight bytes of the sizes together are below 2^32.
pub decode_metadata-encode :
    (b : SsTableBuilder)
    → 8 + length b.min_key + length b.max_key < 2 ^ 32
    → decode_metadata (encode_metadata b) ≡ ok (b.min_key, b.max_key)
unfolding decode_metadata encode_metadata
decode_metadata-encode b h =
    rw
      (
        emin,
        emax,
        le_at-here 4 (length b.min_key) (put_le 4 (length b.max_key) ++ (b.min_key ++ b.max_key))
            (omega (arith, h)),
        le_at-next 4 4 0 4 (length b.min_key)
            (put_le 4 (length b.max_key) ++ (b.min_key ++ b.max_key)) refl,
        le_at-here 4 (length b.max_key) (b.min_key ++ b.max_key) (omega (arith, h)),
        elo,
        ehi,
        low,
        high,
      )
      (ground (arith, whole))
  where
    texts : drop 8 (metadata_bytes b) ≡ b.min_key ++ b.max_key
    texts =
        drop-next 8 4 4 (length b.min_key) (put_le 4 (length b.max_key) ++ (b.min_key ++ b.max_key))
          refl
        ∙ drop-next 4 4 0 (length b.max_key) (b.min_key ++ b.max_key) refl

    low : take (8 + length b.min_key - 8) (drop 8 (metadata_bytes b)) ≡ b.min_key
    low = rw texts (take-append (8 + length b.min_key - 8) b.min_key b.max_key (omega arith))

    high :
        take
          (8 + length b.min_key + length b.max_key - (8 + length b.min_key))
          (drop (8 + length b.min_key) (metadata_bytes b))
        ≡ b.max_key
    high =
        let size : 8 + length b.min_key + length b.max_key - (8 + length b.min_key)
            ≡ length b.max_key =
          omega arith in
        rw
          (
            size,
            drop-add 8 (length b.min_key) (8 + length b.min_key) (metadata_bytes b) refl,
            texts,
            drop-append (length b.min_key) b.min_key b.max_key refl,
          )
          (take-length b.max_key)

    whole : length (metadata_bytes b) ≡ 8 + length b.min_key + length b.max_key
    whole = simp (length-append, length-put_le) (omega arith)

    emin : length b.min_key % 2 ^ 32 ≡ length b.min_key
    emin = omega (arith, h)

    emax : length b.max_key % 2 ^ 32 ≡ length b.max_key
    emax = omega (arith, h)

    elo : (8 + length b.min_key) % 2 ^ 32 ≡ 8 + length b.min_key
    elo = omega (arith, h)

    ehi :
        (8 + length b.min_key + length b.max_key) % 2 ^ 32 ≡ 8 + length b.min_key + length b.max_key
    ehi = omega (arith, h)

abbrev pub EntryFits : IndexEntry → Type 0
EntryFits e = (length e.0 < 2 ^ 32) × (e.1 < 2 ^ 64)

entry-layout :
    (e : IndexEntry) (es : List IndexEntry)
    → EntryFits e
    → encode_entries (e ∷ es)
      ≡ put_le 4 (length e.0) ++ (put_le 8 e.1 ++ (e.0 ++ encode_entries es))
unfolding encode_entries
entry-layout (key, offset) es f =
    let ek : length key % 2 ^ 32 ≡ length key = omega (arith, f.0) in rw ek refl

decode_entries-encode :
    (es : List IndexEntry)
    → All EntryFits es
    → decode_entries (length es) (encode_entries es) ≡ ok es
unfolding decode_entries
decode_entries-encode [] fs = refl
decode_entries-encode (e ∷ es) fs =
    rw
      (
        entry-layout e es fs.0,
        le_at-here 4 (length e.0) (put_le 8 e.1 ++ (e.0 ++ encode_entries es)) fs.0.0,
        le_at-next 4 4 0 8 (length e.0) (put_le 8 e.1 ++ (e.0 ++ encode_entries es)) refl,
        le_at-here 8 e.1 (e.0 ++ encode_entries es) fs.0.1,
        text,
        behind,
        take-append (length e.0) e.0 (encode_entries es) refl,
        decode_entries-encode es fs.1,
      )
      (ground (arith, whole))
  where
    whole :
        length (put_le 4 (length e.0) ++ (put_le 8 e.1 ++ (e.0 ++ encode_entries es)))
        ≡ 12 + length e.0 + length (encode_entries es)
    whole = simp (length-append, length-put_le) (omega arith)

    text :
        drop 12 (put_le 4 (length e.0) ++ (put_le 8 e.1 ++ (e.0 ++ encode_entries es)))
        ≡ e.0 ++ encode_entries es
    text =
        drop-next 12 4 8 (length e.0) (put_le 8 e.1 ++ (e.0 ++ encode_entries es)) refl
        ∙ drop-next 8 8 0 e.1 (e.0 ++ encode_entries es) refl

    behind :
        drop
          (12 + length e.0)
          (put_le 4 (length e.0) ++ (put_le 8 e.1 ++ (e.0 ++ encode_entries es)))
        ≡ encode_entries es
    behind =
        drop-add 12 (length e.0) (12 + length e.0) _ refl
        ∙ ap (drop (length e.0)) text
        ∙ drop-append (length e.0) e.0 (encode_entries es) refl

-- The index block of a builder is decoded as its index, if there are fewer than 2^32 entries, each
-- with a key of fewer than 2^32 bytes and an offset below 2^64.
pub decode_index-encode :
    (b : SsTableBuilder)
    → length b.index < 2 ^ 32
    → All EntryFits b.index
    → decode_index (encode_index b) ≡ ok b.index
unfolding decode_index encode_index
decode_index-encode b n fs =
    let few : length b.index % 2 ^ 32 ≡ length b.index = omega (arith, n) in
    rw
      (
        few,
        le_at-here 4 (length b.index) (encode_entries b.index) n,
        drop-next 4 4 0 (length b.index) (encode_entries b.index) refl,
        decode_entries-encode b.index fs,
      )
      (ground (
        arith,
        length-append (put_le 4 (length b.index)) (encode_entries b.index),
        length-put_le 4 (length b.index),
      ))
