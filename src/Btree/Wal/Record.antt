-- ===== src/Btree/Wal/Record.antt =====
-- One record of the log of page writes, encoded and decoded.
use storage_engines.Base.{
  [], ap, append-nil, append_assoc, arith, drop, drop-add, drop-append, length, length-append, ok,
  refl, sym, take, take-append, ℕ, ◌++◌, ◌+◌, ◌<◌, ◌^◌, ◌∙◌, ◌∷◌, ◌≡◌,
}
use storage_engines.Bytes.{Bytes}
use storage_engines.Bytes.Endian.{get_le, length-put_le, put_le}
use storage_engines.Bytes.Slice.{byte_at, drop-next, le_at, le_at-here, le_at-next, slice}
use storage_engines.Bytes.Hash.{checksum_ieee_lt}
use storage_engines.Btree.Wal.{
  WalRecord, calculate_checksum, checked_bytes, checkpoint_record, decode_record, encode_record,
  page_write_record, u32,
}

-- The numbers fit their fields, the size is that of the page's bytes, and the checksum is right.
pub record Fits (r : WalRecord) : Type 0 where
  pub page_fits : r.page_id < 2 ^ 32
  pub offset_fits : r.page_offset < 2 ^ 32
  pub size_is : r.size ≡ length r.page_data
  pub size_fits : r.size + 13 < 2 ^ 32
  pub sum : r.checksum ≡ calculate_checksum r

pub page_write_record-Fits :
    (page_id page_offset : ℕ) (content : Bytes)
    → page_id < 2 ^ 32
    → page_offset < 2 ^ 32
    → length content + 13 < 2 ^ 32
    → Fits (page_write_record page_id page_offset content)
unfolding calculate_checksum checked_bytes
page_write_record-Fits page_id page_offset content hp ho hs = record {
  page_fits = hp;
  offset_fits = ho;
  size_is = omega arith;
  size_fits = omega arith;
  sum = refl;
}

pub checkpoint_record-Fits : Fits checkpoint_record
unfolding calculate_checksum checked_bytes
checkpoint_record-Fits = record {
  page_fits = omega arith;
  offset_fits = omega arith;
  size_is = refl;
  size_fits = omega arith;
  sum = refl;
}

-- A record with any bytes behind its header.
abbrev pub layout : WalRecord → Bytes → Bytes
layout r tail =
    r.kind ∷ (put_le 4 r.page_id ++ (put_le 4 r.page_offset ++ (put_le 4 r.size ++ tail)))

module _ (r : WalRecord) (tail : Bytes) where
  page_field : r.page_id < 2 ^ 32 → le_at 1 4 (layout r tail) ≡ r.page_id
  unfolding le_at slice
  page_field h = le_at-here 4 r.page_id _ h

  offset_field : r.page_offset < 2 ^ 32 → le_at 5 4 (layout r tail) ≡ r.page_offset
  unfolding le_at slice
  offset_field h = le_at-next 4 4 0 4 r.page_id _ refl ∙ le_at-here 4 r.page_offset _ h

  pub size_field : r.size < 2 ^ 32 → le_at 9 4 (layout r tail) ≡ r.size
  unfolding le_at slice
  size_field h =
      le_at-next 8 4 4 4 r.page_id _ refl
      ∙ le_at-next 4 4 0 4 r.page_offset _ refl
      ∙ le_at-here 4 r.size _ h

  tail_field : drop 13 (layout r tail) ≡ tail
  tail_field =
      drop-next 12 4 8 r.page_id _ refl
      ∙ drop-next 8 4 4 r.page_offset _ refl
      ∙ drop-next 4 4 0 r.size _ refl

  pub kind_field : byte_at 0 (layout r tail) ≡ r.kind
  unfolding byte_at
  kind_field = refl

pub length-layout : (r : WalRecord) (tail : Bytes) → length (layout r tail) ≡ 13 + length tail
length-layout r tail = simp (length-append, length-put_le) (omega arith)

pub encode_record-layout :
    (r : WalRecord) (rest : Bytes)
    → encode_record r ++ rest ≡ layout r (r.page_data ++ (put_le 4 r.checksum ++ rest))
unfolding encode_record
encode_record-layout r rest = simp append_assoc

pub length-encode_record : (r : WalRecord) → length (encode_record r) ≡ 17 + length r.page_data
unfolding encode_record
length-encode_record r = simp (length-append, length-put_le) (omega arith)

encode_record_whole :
    (r : WalRecord) → encode_record r ≡ layout r (r.page_data ++ put_le 4 r.checksum)
unfolding encode_record
encode_record_whole r = refl

module _ (r : WalRecord) (f : Fits r) where
  abbrev whole : Bytes
  whole = layout r (r.page_data ++ put_le 4 r.checksum)

  page_data_field : slice 13 r.size whole ≡ r.page_data
  unfolding slice
  page_data_field =
      ap (take r.size) (tail_field r (r.page_data ++ put_le 4 r.checksum))
      ∙ take-append r.size r.page_data (put_le 4 r.checksum) (sym f.size_is)

  checksum_lt : r.checksum < 2 ^ 32
  unfolding calculate_checksum
  checksum_lt = omega (arith, f.sum, checksum_ieee_lt (checked_bytes r))

  checksum_field : le_at (u32 (13 + r.size)) 4 whole ≡ r.checksum
  unfolding le_at slice
  checksum_field =
      let at : u32 (13 + r.size) ≡ 13 + r.size = omega (arith, f.size_fits) in
      ap (λ (b : Bytes). get_le (take 4 b))
        (drop-add 13 r.size (u32 (13 + r.size)) whole at
          ∙ ap (drop r.size) (tail_field r (r.page_data ++ put_le 4 r.checksum))
          ∙ drop-append r.size r.page_data (put_le 4 r.checksum) (sym f.size_is)
          ∙ sym (append-nil (put_le 4 r.checksum)))
      ∙ le_at-here 4 r.checksum [] checksum_lt

  decode_record-whole : decode_record whole ≡ ok r
  unfolding decode_record
  decode_record-whole =
      let tail : Bytes = r.page_data ++ put_le 4 r.checksum in
      rw
        (
          size_field r tail (omega (arith, f.size_fits)),
          page_field r tail f.page_fits,
          offset_field r tail f.offset_fits,
          kind_field r tail,
          page_data_field,
          checksum_field,
        )
        (ground (
          arith,
          f.sum,
          f.size_is,
          f.size_fits,
          length-layout r tail,
          length-append r.page_data (put_le 4 r.checksum),
          length-put_le 4 r.checksum,
        ))

-- A record that fits is decoded as it was encoded.
pub decode_record-encode : (r : WalRecord) → Fits r → decode_record (encode_record r) ≡ ok r
decode_record-encode r f = rw (encode_record_whole r) (decode_record-whole r f)
