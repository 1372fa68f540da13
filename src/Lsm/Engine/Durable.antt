-- ===== src/Lsm/Engine/Durable.antt =====
-- The write-ahead log: what was written before a crash is answered after it.
use storage_engines.Base.{
  ℕ, ◌+◌, ◌%◌, ◌^◌, ◌<◌, ◌≡◌, refl, sym, ap, ◌∙◌, true, false, List, [], ◌∷◌, length, arith, All,
  Option, none, some, Outcome, ok, inl, inr, Bool-cases,
}
use storage_engines.Bytes.{Bytes}
use storage_engines.Lsm.MemTable
use storage_engines.Lsm.MemTable.{MemTable, Answer, new_mem_table, is_full}
use storage_engines.Lsm.MemTable.Laws.{
  IsValid, new_mem_table-IsValid, put-IsValid, delete-IsValid, get-put, get-delete,
}
use storage_engines.Lsm.Wal.{WalEntry, read_all}
use storage_engines.Lsm.Wal.Record.{Fits}
use storage_engines.Lsm.Wal.Replay.{write_all, read_all-write_all}
use storage_engines.Lsm.Engine.{
  Lsm, empty_lsm, freeze_if_full, put, delete, get, replay_entry, replay, recover_from_wal,
  open_lsm, load_sstables, freeze, put_active, delete_active, or_below, answer_of, next_sequence,
}

pub data Op : Type 0 where
  put_op : Bytes → Bytes → Op
  delete_op : Bytes → Op

unfoldable pub apply : Lsm → Op → Lsm
unfolding put delete
apply s (put_op k v) = put s k v
apply s (delete_op k) = delete s k

-- A run of calls of `Put` and `Delete`, while the flush worker does not run.
unfoldable pub run : Lsm → List Op → Lsm
unfolding apply
run s [] = s
run s (o ∷ os) = run (apply s o) os

abbrev pub OpFits : Op → Type 0
OpFits (put_op k v) = length k + length v < 2 ^ 32
OpFits (delete_op k) = length k < 2 ^ 32

-- The record that an operation logs.
abbrev logged : ℕ → Op → WalEntry
logged seq (put_op k v) = record { key = k; value = v; sequence = seq; deleted = false }
logged seq (delete_op k) = record { key = k; value = []; sequence = seq; deleted = true }

abbrev log_of : ℕ → List Op → List WalEntry
log_of seq [] = []
log_of seq (o ∷ os) = logged ((seq + 1) % 2 ^ 64) o ∷ log_of ((seq + 1) % 2 ^ 64) os

log_of-Fits : (os : List Op) (seq : ℕ) → All OpFits os → All Fits (log_of seq os)
log_of-Fits [] seq fs = tt
log_of-Fits (put_op k v ∷ os) seq fs =
    (record { sizes = fs.0; number = omega arith }, log_of-Fits os ((seq + 1) % 2 ^ 64) fs.1)
log_of-Fits (delete_op k ∷ os) seq fs = (
  record { sizes = omega (arith, fs.0); number = omega arith },
  log_of-Fits os ((seq + 1) % 2 ^ 64) fs.1,
)

-- The answer of the younger memtable, and else that of the older.
abbrev pub over : Answer → Answer → Answer
over (v, n, d, true) below = (v, n, d, true)
over (v, n, d, false) below = below

pub or_below-over :
    (a b : Answer) (below : Outcome (Option Bytes))
    → or_below a (or_below b below) ≡ or_below (over a b) below
or_below-over (v, n, true, true) b below = refl
or_below-over (v, n, false, true) b below = refl
or_below-over (v, n, true, false) b below = refl
or_below-over (v, n, false, false) b below = refl

-- The running engine `s`, and `r`, which has replayed the log of `s`, answer alike.
record Mirrors (s r : Lsm) : Type 0 where
  active_valid : IsValid s.active_memtable
  replayed_valid : IsValid r.active_memtable
  same_levels : s.levels ≡ r.levels
  nothing_frozen : r.immutable_memtable ≡ none
  alike :
      (k : Bytes)
      → over (MemTable.get s.active_memtable k) (answer_of s.immutable_memtable k)
        ≡ MemTable.get r.active_memtable k

get-Mirrors : (s r : Lsm) (k : Bytes) → Mirrors s r → (get s k).0 ≡ (get r k).0
unfolding get
get-Mirrors s r k m =
    or_below-over (MemTable.get s.active_memtable k) (answer_of s.immutable_memtable k) _
    ∙ rw (m.alike k, m.same_levels, m.nothing_frozen) refl

pub get-new : (size : ℕ) (k : Bytes) → MemTable.get (new_mem_table size) k ≡ ([], 0, false, false)
unfolding MemTable.get new_mem_table
get-new size k = ground arith

pub over-get :
    (m : MemTable) (k : Bytes) → over (MemTable.get m k) ([], 0, false, false) ≡ MemTable.get m k
unfolding MemTable.get
over-get m k = ground arith

frozen-Mirrors :
    (s r : Lsm)
    → Mirrors s r
    → s.immutable_memtable ≡ none
    → Mirrors
        (record s {
          immutable_memtable = some s.active_memtable;
          active_memtable = new_mem_table s.mem_table_size;
          flush_requested = true;
        })
        r
frozen-Mirrors s r m e = record {
  active_valid = new_mem_table-IsValid s.mem_table_size;
  replayed_valid = m.replayed_valid;
  same_levels = m.same_levels;
  nothing_frozen = m.nothing_frozen;
  alike = λ k.
      rw (get-new s.mem_table_size k) (sym (over-get s.active_memtable k) ∙ (rw e at m.alike k));
}

freeze-Mirrors :
    (s r : Lsm) (o : Option MemTable)
    → s.immutable_memtable ≡ o
    → Mirrors s r
    → Mirrors (freeze o s) r
freeze-Mirrors s r none e m = frozen-Mirrors s r m e
freeze-Mirrors s r (some t) e m = m

freeze_if_full-Mirrors : (s r : Lsm) → Mirrors s r → Mirrors (freeze_if_full s) r
unfolding freeze_if_full
freeze_if_full-Mirrors s r m = elim (Bool-cases (is_full s.active_memtable)) [
  | inr room ↦ rw room m
  | inl full ↦ rw full (freeze-Mirrors s r s.immutable_memtable refl m)
]

-- The log and the counter are not touched when a memtable is frozen.
SameLog : Lsm → Lsm → Type 0
SameLog s t = (s.wal ≡ t.wal) × (s.sequence ≡ t.sequence)

freeze-SameLog : (s : Lsm) (o : Option MemTable) → SameLog (freeze o s) s
unfolding SameLog
freeze-SameLog s none = (refl, refl)
freeze-SameLog s (some t) = (refl, refl)

freeze_if_full-SameLog : (s : Lsm) → SameLog (freeze_if_full s) s
unfolding freeze_if_full SameLog
freeze_if_full-SameLog s = elim (Bool-cases (is_full s.active_memtable)) [
  | inr room ↦ rw room (refl, refl)
  | inl full ↦ rw full (freeze-SameLog s s.immutable_memtable)
]

apply-Mirrors :
    (s r : Lsm) (o : Op)
    → Mirrors s r
    → Mirrors (apply s o) (replay_entry r (logged (next_sequence s) o))
unfolding apply put delete put_active delete_active replay_entry
apply-Mirrors s r (put_op k v) m =
    freeze_if_full-Mirrors (put_active s k v)
      (replay_entry r (logged (next_sequence s) (put_op k v)))
      (record {
        active_valid = put-IsValid s.active_memtable k v (next_sequence s) m.active_valid;
        replayed_valid = put-IsValid r.active_memtable k v (next_sequence s) m.replayed_valid;
        same_levels = m.same_levels;
        nothing_frozen = m.nothing_frozen;
        alike = λ j.
            rw
              (
                get-put s.active_memtable j k v (next_sequence s) m.active_valid,
                get-put r.active_memtable j k v (next_sequence s) m.replayed_valid,
              )
              (ground (arith, m.alike j));
      })
apply-Mirrors s r (delete_op k) m =
    freeze_if_full-Mirrors (delete_active s k)
      (replay_entry r (logged (next_sequence s) (delete_op k)))
      (record {
        active_valid = delete-IsValid s.active_memtable k (next_sequence s) m.active_valid;
        replayed_valid = delete-IsValid r.active_memtable k (next_sequence s) m.replayed_valid;
        same_levels = m.same_levels;
        nothing_frozen = m.nothing_frozen;
        alike = λ j.
            rw
              (
                get-delete s.active_memtable j k (next_sequence s) m.active_valid,
                get-delete r.active_memtable j k (next_sequence s) m.replayed_valid,
              )
              (ground (arith, m.alike j));
      })

apply-log :
    (s : Lsm) (o : Op)
    → ((apply s o).wal ≡ write_all s.wal (logged (next_sequence s) o ∷ []))
      × ((apply s o).sequence ≡ next_sequence s)
unfolding apply put delete put_active delete_active SameLog write_all
apply-log s (put_op k v) = freeze_if_full-SameLog (put_active s k v)
apply-log s (delete_op k) = freeze_if_full-SameLog (delete_active s k)

run-Mirrors :
    (os : List Op) (s r : Lsm) (seq : ℕ)
    → s.sequence ≡ seq
    → Mirrors s r
    → Mirrors (run s os) (replay r (log_of seq os))
unfolding run replay
run-Mirrors [] s r seq e m = m
run-Mirrors (o ∷ os) s r seq e m = rw (← e) (
    run-Mirrors os (apply s o) (replay_entry r (logged (next_sequence s) o)) (next_sequence s)
      (apply-log s o).1 (apply-Mirrors s r o m))

run-log :
    (os : List Op) (s : Lsm) (seq : ℕ)
    → s.sequence ≡ seq
    → (run s os).wal ≡ write_all s.wal (log_of seq os)
unfolding run write_all
run-log [] s seq e = refl
run-log (o ∷ os) s seq e = rw (← e) (
    run-log os (apply s o) (next_sequence s) (apply-log s o).1
    ∙ ap (λ (b : Bytes). write_all b (log_of (next_sequence s) os)) (apply-log s o).0)

empty-Mirrors : (size : ℕ) (wal : Bytes) → Mirrors (empty_lsm size [] []) (empty_lsm size wal [])
unfolding empty_lsm
empty-Mirrors size wal = record {
  active_valid = new_mem_table-IsValid size;
  replayed_valid = new_mem_table-IsValid size;
  same_levels = refl;
  nothing_frozen = refl;
  alike = λ k. rw (get-new size k) refl;
}

-- On a new engine in an empty directory let any run of Put and Delete calls be made whose sizes fit,
-- memtables frozen on the way included, while the flush worker does not run. Opening an engine on
-- the log that is left succeeds, and it answers Get under every key as the first engine does.
pub open_lsm-run :
    (size : ℕ) (os : List Op)
    → All OpFits os
    → (r : Lsm) × (open_lsm size (run (empty_lsm size [] []) os).wal [] ≡ ok r)
      × ((k : Bytes) → (get r k).0 ≡ (get (run (empty_lsm size [] []) os) k).0)
unfolding open_lsm recover_from_wal load_sstables empty_lsm
open_lsm-run size os fs =
    let s : Lsm = run (empty_lsm size [] []) os in
    let es : List WalEntry = log_of 0 os in
    (
      replay (empty_lsm size s.wal []) es,
      rw (read_log) refl,
      λ k. sym (
          get-Mirrors s (replay (empty_lsm size s.wal []) es) k (
            run-Mirrors os (empty_lsm size [] []) (empty_lsm size s.wal []) 0 refl
              (empty-Mirrors size s.wal))),
    )
  where
    read_log : read_all (run (empty_lsm size [] []) os).wal ≡ ok (log_of 0 os)
    read_log =
        rw (run-log os (empty_lsm size [] []) 0 refl)
          (read_all-write_all (log_of 0 os) (log_of-Fits os 0 fs))
