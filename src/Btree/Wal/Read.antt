-- ===== src/Btree/Wal/Read.antt =====
-- The loop of ReadAll on whole records and on one that a crash cut short.
use storage_engines.Base.{
  All, Bool-cases, List, [], ap, append-nil, append_assoc, arith, drop, drop-add, drop-append,
  if◌then◌else◌, inl, inr, length, length-append, le→ltb_false, ltb, ltb_false→le, lt→ltb, none,
  refl, suc, sym, take, take-append, zero, ℕ, ◌++◌, ◌+◌, ◌<◌, ◌==◌, ◌∙◌, ◌∷◌, ◌≡◌, ◌≤◌,
}
use storage_engines.Bytes.{Bytes}
use storage_engines.Bytes.Endian.{put_le}
use storage_engines.Bytes.Slice.{byte_at, le_at, le_at-prefix}
use storage_engines.Btree.Wal.{Wal, WalRecord, encode_record, read_loop, wal_record_checkpoint}
use storage_engines.Btree.Wal.Record.{
  Fits, decode_record-encode, encode_record-layout, kind_field, length-encode_record, size_field,
}
use storage_engines.Btree.Wal.Run.{encodings, until_checkpoint}

-- A record that a crash cut short, or nothing.
pub record IsTorn (torn : Bytes) : Type 0 where
  pub whole : WalRecord
  pub fits : Fits whole
  pub next : ℕ
  pub lost : Bytes
  pub is_front : encode_record whole ≡ torn ++ (next ∷ lost)

torn_size : (torn : Bytes) (t : IsTorn torn) → 13 ≤ length torn → le_at 9 4 torn ≡ t.whole.size
torn_size torn t h =
    sym (le_at-prefix 9 4 torn (t.next ∷ t.lost) (omega arith))
    ∙ ap (le_at 9 4) (
        sym t.is_front ∙ sym (append-nil (encode_record t.whole)) ∙ encode_record-layout t.whole [])
    ∙ size_field t.whole (t.whole.page_data ++ (put_le 4 t.whole.checksum ++ []))
        (omega (arith, t.fits.size_fits))

torn_length : (torn : Bytes) (t : IsTorn torn) → length torn < 17 + t.whole.size
torn_length torn t = omega (
  arith,
  ap (λ (b : Bytes). length b) t.is_front,
  length-append torn (t.next ∷ t.lost),
  length-encode_record t.whole,
  t.fits.size_is,
)

read_loop-torn :
    (fuel : ℕ) (w : Wal) (offset : ℕ) (records : List WalRecord) (torn : Bytes)
    → IsTorn torn
    → drop offset w.file ≡ torn
    → w.offset ≡ offset + length torn
    → length torn ≤ fuel
    → read_loop fuel w offset records ≡ (records, none)
unfolding read_loop
read_loop-torn zero w offset records torn t d e h =
    rw (le→ltb_false offset w.offset (omega arith)) refl
read_loop-torn (suc fuel) w offset records torn t d e h = elim (Bool-cases (ltb offset w.offset)) [
  | inr n ↦ rw n refl
  | inl y ↦ elim (Bool-cases (ltb (length torn) 13)) [
    | inl short ↦ rw (y, d, short) refl
    | inr long ↦
        rw
          (
            y,
            d,
            long,
            torn_size torn t (ltb_false→le (length torn) 13 long),
            lt→ltb (length torn) (13 + t.whole.size + 4) (omega (arith, torn_length torn t)),
          )
          refl
  ]
]

-- The fields of the first record of what is left.
module _ (r : WalRecord) (f : Fits r) (rest : Bytes) where
  size_next : le_at 9 4 (encode_record r ++ rest) ≡ r.size
  size_next =
      ap (le_at 9 4) (encode_record-layout r rest)
      ∙ size_field r (r.page_data ++ (put_le 4 r.checksum ++ rest)) (omega (arith, f.size_fits))

  kind_next : byte_at 0 (encode_record r ++ rest) ≡ r.kind
  kind_next =
      ap (byte_at 0) (encode_record-layout r rest)
      ∙ kind_field r (r.page_data ++ (put_le 4 r.checksum ++ rest))

  length_next : length (encode_record r ++ rest) ≡ 17 + r.size + length rest
  length_next =
      omega (arith, length-append (encode_record r) rest, length-encode_record r, f.size_is)

  take_next : take (13 + r.size + 4) (encode_record r ++ rest) ≡ encode_record r
  take_next =
      take-append (13 + r.size + 4) (encode_record r) rest
        (omega (arith, length-encode_record r, f.size_is))

  drop_next : drop (13 + r.size + 4) (encode_record r ++ rest) ≡ rest
  drop_next =
      drop-append (13 + r.size + 4) (encode_record r) rest
        (omega (arith, length-encode_record r, f.size_is))

  read_loop-next :
      (fuel : ℕ) (w : Wal) (offset : ℕ) (records : List WalRecord)
      → drop offset w.file ≡ encode_record r ++ rest
      → offset < w.offset
      → read_loop (suc fuel) w offset records ≡ (
          if r.kind == wal_record_checkpoint
          then (records ++ (r ∷ []), none)
          else read_loop fuel w (offset + (13 + r.size + 4)) (records ++ (r ∷ [])))
  unfolding read_loop
  read_loop-next fuel w offset records d lt =
      rw
        (
          lt→ltb offset w.offset lt,
          d,
          le→ltb_false (length (encode_record r ++ rest)) 13 (omega (arith, length_next)),
          size_next,
          le→ltb_false (length (encode_record r ++ rest)) (13 + r.size + 4)
              (omega (arith, length_next)),
          take_next,
          decode_record-encode r f,
          kind_next,
        )
        refl

pub read_loop-encodings :
    (rs : List WalRecord) (fuel : ℕ) (w : Wal) (offset : ℕ) (records : List WalRecord)
    (torn : Bytes)
    → All Fits rs
    → IsTorn torn
    → drop offset w.file ≡ encodings rs ++ torn
    → w.offset ≡ offset + length (encodings rs ++ torn)
    → length (encodings rs ++ torn) ≤ fuel
    → read_loop fuel w offset records ≡ (records ++ until_checkpoint rs, none)
unfolding encodings until_checkpoint
read_loop-encodings [] fuel w offset records torn fs t d e h =
    rw (append-nil records) (read_loop-torn fuel w offset records torn t d e h)
read_loop-encodings (r ∷ rs) zero w offset records torn fs t d e h = absurd (
    omega (
      arith,
      length_next r fs.0 (encodings rs ++ torn),
      ap (λ (b : Bytes). length b) (append_assoc (encode_record r) (encodings rs) torn),
    ))
read_loop-encodings (r ∷ rs) (suc fuel) w offset records torn fs t d e h =
    let rest : Bytes = encodings rs ++ torn in
    let there : drop offset w.file ≡ encode_record r ++ rest =
      d ∙ append_assoc (encode_record r) (encodings rs) torn in
    let room : length ((encode_record r ++ encodings rs) ++ torn) ≡ 17 + r.size + length rest =
      ap (λ (b : Bytes). length b) (append_assoc (encode_record r) (encodings rs) torn)
      ∙ length_next r fs.0 rest in
    read_loop-next r fs.0 rest fuel w offset records there (omega (arith, room, e))
    ∙ elim (Bool-cases (r.kind == wal_record_checkpoint)) [
      | inl y ↦ rw (until_checkpoint, y) refl
      | inr n ↦
          rw (until_checkpoint, n)
            (read_loop-encodings rs fuel w (offset + (13 + r.size + 4)) (records ++ (r ∷ [])) torn
                fs.1 t
                (drop-add offset (13 + r.size + 4) (offset + (13 + r.size + 4)) w.file refl
                  ∙ ap (drop (13 + r.size + 4)) there
                  ∙ drop_next r fs.0 rest)
                (omega (arith, e, room)) (omega (arith, h, room))
              ∙ ap (λ (l : List WalRecord). (l, none))
                  (append_assoc records (r ∷ []) (until_checkpoint rs)))
    ]
