-- ===== src/Btree/WalTests.antt =====
-- Runs of the B-tree's log at concrete inputs.
use storage_engines.Base.{List, [], arith, drop, none, ok, refl, ◌++◌, ◌∷◌, ◌≡◌}
use storage_engines.Bytes.{Bytes}
use storage_engines.Btree.Wal.{
  Wal, checkpoint_record, encode_record, new_wal, page_write_record, read_all, truncate,
}
use storage_engines.Btree.Wal.Record.{checkpoint_record-Fits}
use storage_engines.Btree.Wal.Run.{LogOp, checkpoint, run, until_checkpoint, write}
use storage_engines.Btree.Wal.Read.{IsTorn}
use storage_engines.Btree.Wal.Replay.{read_all-run}

abbrev empty_wal : Wal
empty_wal = record { file = []; offset = 0; flushed = 0 }

abbrev ops : List LogOp
ops = write 1 4094 (7 ∷ 8 ∷ []) ∷ checkpoint ∷ write 2 0 (9 ∷ []) ∷ []

-- The front of a checkpoint.
abbrev torn : Bytes
torn = 2 ∷ 0 ∷ 0 ∷ []

torn-IsTorn : IsTorn torn
unfolding encode_record
torn-IsTorn = record {
  whole = checkpoint_record;
  fits = checkpoint_record-Fits;
  next = 0;
  lost = drop 4 (encode_record checkpoint_record);
  is_front = refl;
}

read_all-run_example :
    (v : Wal) × (new_wal ((run (truncate empty_wal) ops).file ++ torn) ≡ ok v)
    × (read_all v ≡ (page_write_record 1 4094 (7 ∷ 8 ∷ []) ∷ checkpoint_record ∷ [], none))
unfolding until_checkpoint
read_all-run_example =
    read_all-run empty_wal ops torn
      ((omega arith, omega arith, omega arith), (tt, ((omega arith, omega arith, omega arith), tt)))
      torn-IsTorn
