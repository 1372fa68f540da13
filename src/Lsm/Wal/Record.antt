-- ===== src/Lsm/Wal/Record.antt =====
-- One record of the log, written and read back.
use storage_engines.Base.{
  ℕ, ◌+◌, ◌^◌, ◌<◌, ◌≡◌, refl, ap, ◌∙◌, Bool, true, false, [], ◌∷◌, ◌++◌, length, drop, ◌==◌, arith,
  length-append, take-append, drop-append, take-length, append_assoc, append-nil, sym, ok, ==_refl,
}
use storage_engines.Bytes.{Bytes}
use storage_engines.Bytes.Endian.{put_le, length-put_le}
use storage_engines.Bytes.Slice.{
  slice, le_at, byte_at, le_at-here, le_at-next, drop-next, byte_at-next, slice-skip, slice-here,
}
use storage_engines.Bytes.Hash.{checksum_ieee, checksum_ieee_lt}
use storage_engines.Lsm.Wal.{WalEntry, encode_record, record_body, read_record, u32, flag}

-- Sizes and the sequence number fit the fields that they are written to.
pub record Fits (e : WalEntry) : Type 0 where
  pub sizes : length e.key + length e.value < 2 ^ 32
  pub number : e.sequence < 2 ^ 64

unfoldable pub encode_entry : WalEntry → Bytes
encode_entry e = encode_record e.key e.value e.sequence e.deleted

-- The layout of a record that fits, and the rest of the file behind it.
abbrev head : WalEntry → Bytes → Bytes
head e tail =
    put_le 8 e.sequence
    ++ (put_le 4 (length e.key) ++ (put_le 4 (length e.value) ++ (flag e.deleted ∷ tail)))

abbrev layout : WalEntry → ℕ → Bytes → Bytes
layout e crc tail = put_le 4 crc ++ head e tail

abbrev payload : WalEntry → Bytes
payload e = e.key ++ e.value

u32-id : (n : ℕ) → n < 2 ^ 32 → u32 n ≡ n
u32-id n h = omega arith

body-head :
    (e : WalEntry) → Fits e → record_body e.key e.value e.sequence e.deleted ≡ head e (payload e)
unfolding record_body
body-head e f = rw (
  u32-id (length e.key) (omega (arith, f.sizes)),
  u32-id (length e.value) (omega (arith, f.sizes)),
  take-length e.key,
  take-length e.value,
)

flag-eq : (b : Bool) → (flag b == 1) ≡ b
flag-eq true = refl
flag-eq false = refl

head-append : (e : WalEntry) (tail : Bytes) → head e tail ≡ head e [] ++ tail
head-append e tail = simp append_assoc

length-head : (e : WalEntry) → length (head e []) ≡ 17
length-head e = simp (length-append, length-put_le)

abbrev crc_of : WalEntry → ℕ
crc_of e = checksum_ieee (head e (payload e))

-- What the file holds from a record on.
encode-layout :
    (e : WalEntry) (rest : Bytes)
    → Fits e
    → encode_entry e ++ rest ≡ layout e (crc_of e) (payload e ++ rest)
unfolding encode_entry encode_record
encode-layout e rest f = rw (body-head e f) (simp append_assoc)

pub length-encode_entry :
    (e : WalEntry) → Fits e → length (encode_entry e) ≡ 21 + length e.key + length e.value
unfolding encode_entry encode_record
length-encode_entry e f = rw (body-head e f) (simp (length-append, length-put_le) (omega arith))

module _ (e : WalEntry) (crc : ℕ) (tail : Bytes) where
  crc_field : crc < 2 ^ 32 → le_at 0 4 (layout e crc tail) ≡ crc
  crc_field h = le_at-here 4 crc _ h

  sequence_field : e.sequence < 2 ^ 64 → le_at 4 8 (layout e crc tail) ≡ e.sequence
  sequence_field h = le_at-next 4 4 0 8 crc _ refl ∙ le_at-here 8 e.sequence _ h

  key_size_field : length e.key < 2 ^ 32 → le_at 12 4 (layout e crc tail) ≡ length e.key
  key_size_field h =
      le_at-next 12 4 8 4 crc _ refl
      ∙ le_at-next 8 8 0 4 e.sequence _ refl
      ∙ le_at-here 4 (length e.key) _ h

  value_size_field : length e.value < 2 ^ 32 → le_at 16 4 (layout e crc tail) ≡ length e.value
  value_size_field h =
      le_at-next 16 4 12 4 crc _ refl
      ∙ le_at-next 12 8 4 4 e.sequence _ refl
      ∙ le_at-next 4 4 0 4 (length e.key) _ refl
      ∙ le_at-here 4 (length e.value) _ h

  flag_field : byte_at 20 (layout e crc tail) ≡ flag e.deleted
  unfolding byte_at
  flag_field =
      byte_at-next 20 4 16 crc _ refl
      ∙ byte_at-next 16 8 8 e.sequence _ refl
      ∙ byte_at-next 8 4 4 (length e.key) _ refl
      ∙ byte_at-next 4 4 0 (length e.value) _ refl

  tail_field : drop 21 (layout e crc tail) ≡ tail
  tail_field =
      drop-next 21 4 17 crc _ refl
      ∙ drop-next 17 8 9 e.sequence _ refl
      ∙ drop-next 9 4 5 (length e.key) _ refl
      ∙ drop-next 5 4 1 (length e.value) _ refl

  body_field : slice 4 17 (layout e crc tail) ≡ head e []
  body_field =
      slice-skip 4 4 0 17 (put_le 4 crc) _ (length-put_le 4 crc) refl
      ∙ ap (slice 0 17) (head-append e tail)
      ∙ slice-here 17 (head e []) tail (length-head e)

length-layout :
    (e : WalEntry) (crc : ℕ) (tail : Bytes) → length (layout e crc tail) ≡ 21 + length tail
length-layout e crc tail = simp (length-append, length-put_le) (omega arith)

-- The checksum is that of the bytes that were written.
crc-matches :
    (e : WalEntry) (rest : Bytes)
    → (crc_of e
        == checksum_ieee (slice 4 17 (layout e (crc_of e) (payload e ++ rest)) ++ payload e))
      ≡ true
crc-matches e rest =
    rw (body_field e (crc_of e) (payload e ++ rest), ← head-append e (payload e))
      (==_refl (crc_of e))

module _ (e : WalEntry) (f : Fits e) (rest : Bytes) where
  abbrev written : Bytes
  written = layout e (crc_of e) (payload e ++ rest)

  data_size : u32 (length e.key + length e.value) ≡ length (payload e)
  data_size = simp length-append (omega (arith, f.sizes))

  read_record-layout : read_record written ≡ ok (e, rest)
  unfolding read_record
  read_record-layout =
      rw
        (
          key_size_field e (crc_of e) (payload e ++ rest) (omega (arith, f.sizes)),
          value_size_field e (crc_of e) (payload e ++ rest) (omega (arith, f.sizes)),
          sequence_field e (crc_of e) (payload e ++ rest) f.number,
          flag_field e (crc_of e) (payload e ++ rest),
          crc_field e (crc_of e) (payload e ++ rest) (checksum_ieee_lt (head e (payload e))),
          tail_field e (crc_of e) (payload e ++ rest),
          flag-eq e.deleted,
          data_size,
          take-append (length (payload e)) (payload e) rest refl,
          drop-append (length (payload e)) (payload e) rest refl,
          take-append (length e.key) e.key e.value refl,
          drop-append (length e.key) e.key e.value refl,
        )
        (ground (
          arith,
          crc-matches e rest,
          length-layout e (crc_of e) (payload e ++ rest),
          length-append (payload e) rest,
          length-append e.key e.value,
        ))

  -- A record that fits is read back as it was written, and the rest of the file is left.
  pub read_record-encode : read_record (encode_entry e ++ rest) ≡ ok (e, rest)
  read_record-encode = rw (encode-layout e rest f) read_record-layout

pub key_size_whole : (e : WalEntry) → Fits e → le_at 12 4 (encode_entry e) ≡ length e.key
key_size_whole e f =
    ap (le_at 12 4) (sym (append-nil (encode_entry e)) ∙ encode-layout e [] f)
    ∙ key_size_field e (crc_of e) (payload e ++ []) (omega (arith, f.sizes))

pub value_size_whole : (e : WalEntry) → Fits e → le_at 16 4 (encode_entry e) ≡ length e.value
value_size_whole e f =
    ap (le_at 16 4) (sym (append-nil (encode_entry e)) ∙ encode-layout e [] f)
    ∙ value_size_field e (crc_of e) (payload e ++ []) (omega (arith, f.sizes))
