-- ===== src/Btree/Wal/Run.antt =====
-- A run of LogPageWrite and LogCheckpoint, and the bytes that it adds to the file.
use storage_engines.Base.{
  List, [], ap, append-nil, append_assoc, arith, drop, if◌then◌else◌, length, length-append, refl,
  suc, sym, take-length, zero, ℕ, ◌++◌, ◌+◌, ◌-◌, ◌==◌, ◌∙◌, ◌∷◌, ◌≡◌, ◌≤◌,
}
use storage_engines.Bytes.{Bytes}
use storage_engines.Bytes.Patch.{patch}
use storage_engines.Btree.Wal.{
  Wal, WalRecord, checkpoint_record, encode_record, log_checkpoint, log_page_write, logged,
  page_write_record, wal_record_checkpoint, write_at,
}

pub data LogOp : Type 0 where
  write : (page_id page_offset : ℕ) (content : Bytes) → LogOp
  checkpoint : LogOp

unfoldable pub run : Wal → List LogOp → Wal
unfolding log_page_write log_checkpoint
run w [] = w
run w (write page_id page_offset content ∷ ops) =
    run (log_page_write w page_id page_offset content) ops
run w (checkpoint ∷ ops) = run (log_checkpoint w) ops

abbrev pub record_of : LogOp → WalRecord
record_of (write page_id page_offset content) = page_write_record page_id page_offset content
record_of checkpoint = checkpoint_record

abbrev pub records_of : List LogOp → List WalRecord
records_of [] = []
records_of (op ∷ ops) = record_of op ∷ records_of ops

-- The records up to the first checkpoint.
unfoldable pub until_checkpoint : List WalRecord → List WalRecord
until_checkpoint [] = []
until_checkpoint (r ∷ rs) =
    if r.kind == wal_record_checkpoint then r ∷ [] else r ∷ until_checkpoint rs

unfoldable pub encodings : List WalRecord → Bytes
encodings [] = []
encodings (r ∷ rs) = encode_record r ++ encodings rs

write_at-end :
    (file content : Bytes) (offset : ℕ)
    → offset ≡ length file
    → write_at file content offset ≡ file ++ content
unfolding write_at patch
write_at-end file content offset e =
    let none_left : offset - length file ≡ 0 = omega (arith, e) in
    rw (none_left, append-nil file, e, take-length file)
      (ap (λ (t : Bytes). file ++ t)
        (ap (λ (t : Bytes). content ++ t)
            (drop-end (length file + length content) file (omega arith))
          ∙ append-nil content))
  where
    drop-end : (n : ℕ) (xs : Bytes) → length xs ≤ n → drop n xs ≡ []
    drop-end zero [] h = refl
    drop-end (suc n) [] h = refl
    drop-end zero (x ∷ xs) h = absurd (omega arith)
    drop-end (suc n) (x ∷ xs) h = drop-end n xs (omega arith)

pub write_records : Wal → List WalRecord → Wal
write_records w [] = w
write_records w (r ∷ rs) = write_records (logged w (encode_record r)) rs

log_page_write_lem :
    (w : Wal) (page_id page_offset : ℕ) (content : Bytes)
    → log_page_write w page_id page_offset content
      ≡ logged w (encode_record (page_write_record page_id page_offset content))
unfolding log_page_write
log_page_write_lem w page_id page_offset content = refl

log_checkpoint_lem : (w : Wal) → log_checkpoint w ≡ logged w (encode_record checkpoint_record)
unfolding log_checkpoint
log_checkpoint_lem w = refl

pub run-write_records : (ops : List LogOp) (w : Wal) → run w ops ≡ write_records w (records_of ops)
unfolding run write_records
run-write_records [] w = refl
run-write_records (write page_id page_offset content ∷ ops) w =
    ap (λ (v : Wal). run v ops) (log_page_write_lem w page_id page_offset content)
    ∙ run-write_records ops
        (logged w (encode_record (page_write_record page_id page_offset content)))
run-write_records (checkpoint ∷ ops) w =
    ap (λ (v : Wal). run v ops) (log_checkpoint_lem w)
    ∙ run-write_records ops (logged w (encode_record checkpoint_record))

pub write_records-file :
    (rs : List WalRecord) (w : Wal)
    → w.offset ≡ length w.file
    → (write_records w rs).file ≡ w.file ++ encodings rs
unfolding write_records encodings
write_records-file [] w e = sym (append-nil w.file)
write_records-file (r ∷ rs) w e =
    let there = write_at-end w.file (encode_record r) w.offset e in
    write_records-file rs (logged w (encode_record r))
      (omega (arith, e, ap (λ (t : Bytes). length t) there, length-append w.file (encode_record r)))
    ∙ ap (λ (t : Bytes). t ++ encodings rs) there
    ∙ append_assoc w.file (encode_record r) (encodings rs)
