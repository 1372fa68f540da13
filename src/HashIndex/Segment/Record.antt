-- ===== src/HashIndex/Segment/Record.antt =====
-- One record of a segment, written and parsed back.
use storage_engines.Base.{
  append-nil, sym, [], ℕ, ◌+◌, ◌^◌, ◌<◌, ◌≡◌, refl, ◌∙◌, true, ◌++◌, length, drop, ◌==◌, arith,
  length-append, take-append, drop-append, append_assoc, ok, ==_refl,
}
use storage_engines.Bytes.{Bytes}
use storage_engines.Bytes.Endian.{put_le, length-put_le}
use storage_engines.Bytes.Slice.{le_at, le_at-here, le_at-next, drop-next}
use storage_engines.Bytes.Hash.{checksum_ieee, checksum_ieee_lt}
use storage_engines.HashIndex.Segment.{u32, crc_data, record_bytes, parse_record}

-- The sizes and the time fit the fields that they are written to.
pub record Fits (now : ℕ) (key value : Bytes) : Type 0 where
  pub sizes : length key + length value < 2 ^ 32
  pub time : now < 2 ^ 64

module _ (now : ℕ) (key value : Bytes) where
  abbrev head : Bytes → Bytes
  head tail = put_le 8 now ++ (put_le 4 (length key) ++ (put_le 4 (length value) ++ tail))

  abbrev crc_of : ℕ
  crc_of = checksum_ieee (head (key ++ value))

  abbrev layout : Bytes → Bytes
  layout rest = put_le 4 crc_of ++ head ((key ++ value) ++ rest)

  module _ (f : Fits now key value) where
    data-head :
        crc_data now (u32 (length key)) (u32 (length value)) (key ++ value) ≡ head (key ++ value)
    unfolding crc_data
    data-head =
        let ek : u32 (length key) ≡ length key = omega (arith, f.sizes) in
        let ev : u32 (length value) ≡ length value = omega (arith, f.sizes) in rw (ek, ev)

    record-layout : (rest : Bytes) → record_bytes now key value ++ rest ≡ layout rest
    unfolding record_bytes
    record-layout rest = rw data-head (simp append_assoc)

    pub length-record_bytes : length (record_bytes now key value) ≡ 20 + length key + length value
    unfolding record_bytes
    length-record_bytes = rw data-head (simp (length-append, length-put_le) (omega arith))

    whole-layout : record_bytes now key value ≡ layout []
    whole-layout = sym (append-nil (record_bytes now key value)) ∙ record-layout []

    module _ (rest : Bytes) where
      crc_field : le_at 0 4 (layout rest) ≡ crc_of
      crc_field = le_at-here 4 crc_of _ (checksum_ieee_lt (head (key ++ value)))

      time_field : le_at 4 8 (layout rest) ≡ now
      time_field = le_at-next 4 4 0 8 crc_of _ refl ∙ le_at-here 8 now _ f.time

      key_size_field : le_at 12 4 (layout rest) ≡ length key
      key_size_field =
          le_at-next 12 4 8 4 crc_of _ refl
          ∙ le_at-next 8 8 0 4 now _ refl
          ∙ le_at-here 4 (length key) _ (omega (arith, f.sizes))

      value_size_field : le_at 16 4 (layout rest) ≡ length value
      value_size_field =
          le_at-next 16 4 12 4 crc_of _ refl
          ∙ le_at-next 12 8 4 4 now _ refl
          ∙ le_at-next 4 4 0 4 (length key) _ refl
          ∙ le_at-here 4 (length value) _ (omega (arith, f.sizes))

      tail_field : drop 20 (layout rest) ≡ (key ++ value) ++ rest
      tail_field =
          drop-next 20 4 16 crc_of _ refl
          ∙ drop-next 16 8 8 now _ refl
          ∙ drop-next 8 4 4 (length key) _ refl
          ∙ drop-next 4 4 0 (length value) _ refl

      length-layout : length (layout rest) ≡ 20 + length ((key ++ value) ++ rest)
      length-layout = simp (length-append, length-put_le) (omega arith)

      data_size : u32 (length key + length value) ≡ length (key ++ value)
      data_size = simp length-append (omega (arith, f.sizes))

      crc-matches :
          (checksum_ieee (crc_data now (length key) (length value) (key ++ value)) == crc_of) ≡ true
      unfolding crc_data
      crc-matches = ==_refl crc_of

      parse_record-layout : parse_record (layout rest) ≡ ok (key, value)
      unfolding parse_record
      parse_record-layout =
          rw
            (
              key_size_field,
              value_size_field,
              time_field,
              crc_field,
              tail_field,
              data_size,
              take-append (length (key ++ value)) (key ++ value) rest refl,
              take-append (length key) key value refl,
              drop-append (length key) key value refl,
              crc-matches,
            )
            (ground
              (arith, length-layout, length-append (key ++ value) rest, length-append key value))

      -- A record that fits is parsed as it was written, whatever follows it.
      pub parse_record-record_bytes :
          parse_record (record_bytes now key value ++ rest) ≡ ok (key, value)
      parse_record-record_bytes = rw (record-layout rest) parse_record-layout

pub key_size_whole :
    (now : ℕ) (key value : Bytes)
    → Fits now key value
    → le_at 12 4 (record_bytes now key value) ≡ length key
key_size_whole now key value f =
    rw (whole-layout now key value f) (key_size_field now key value f [])

pub value_size_whole :
    (now : ℕ) (key value : Bytes)
    → Fits now key value
    → le_at 16 4 (record_bytes now key value) ≡ length value
value_size_whole now key value f =
    rw (whole-layout now key value f) (value_size_field now key value f [])
