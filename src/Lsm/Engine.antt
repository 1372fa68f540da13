-- ===== src/Lsm/Engine.antt =====
-- lsm/lsm.go: the engine. The methods and the two workers are functions on the state, one step each;
-- `files` are the tables of the data directory by level and number. Opening and syncing a file does
-- not fail.
pub mod Durable
pub mod Reads
use storage_engines.Base.{
  ℕ, zero, suc, ◌+◌, ◌-◌, ◌%◌, ◌^◌, Bool, true, false, ◌||◌, ◌&&◌, List, [], ◌∷◌, ◌++◌, length, ltb,
  leb, ◌==◌, if◌then◌else◌, Option, none, some, Outcome, ok, err, ◌>>=◌, Error,
}
use storage_engines.Bytes.{Bytes}
use storage_engines.Bytes.Order.{key_le}
use storage_engines.Lsm.MemTable
use storage_engines.Lsm.MemTable.{
  MemTable, MemTableEntry, Answer, new_mem_table, is_full, len, get_all_entries,
}
use storage_engines.Lsm.Wal
use storage_engines.Lsm.Wal.{WalEntry, read_all}
use storage_engines.Lsm.Bloom.{BloomFilter, new_bloom_filter}
use storage_engines.Lsm.SsTable
use storage_engines.Lsm.SsTable.{SsTable, open_sstable}
use storage_engines.Lsm.Builder
use storage_engines.Lsm.Builder.{SsTableBuilder, new_sstable_builder}
use storage_engines.Lsm.Levels.{
  LevelInfo, LevelManager, new_level_manager, add_sstable, get_all_sstables, should_compact,
}

-- A table's file: its level, its number and its bytes.
abbrev pub TableFile : Type 0
TableFile = ℕ × ℕ × Bytes

pub record Lsm : Type 0 where
  pub mem_table_size : ℕ
  pub active_memtable : MemTable
  pub immutable_memtable : Option MemTable
  pub wal : Bytes
  pub levels : LevelManager
  pub sequence : ℕ
  pub next_file_num : ℕ
  pub flush_requested : Bool
  pub compaction_requested : Bool
  pub write_count : ℕ
  pub read_count : ℕ
  pub flush_count : ℕ
  pub files : List TableFile

-- `New` before it recovers.
unfoldable pub empty_lsm : ℕ → Bytes → List TableFile → Lsm
unfolding new_mem_table new_level_manager
empty_lsm mem_table_size wal files = record {
  mem_table_size = mem_table_size;
  active_memtable = new_mem_table mem_table_size;
  immutable_memtable = none;
  wal = wal;
  levels = new_level_manager;
  sequence = 0;
  next_file_num = 0;
  flush_requested = false;
  compaction_requested = false;
  write_count = 0;
  read_count = 0;
  flush_count = 0;
  files = files;
}

abbrev freeze : Option MemTable → Lsm → Lsm
freeze (some m) lsm = lsm
freeze none lsm = record lsm {
  immutable_memtable = some lsm.active_memtable;
  active_memtable = new_mem_table lsm.mem_table_size;
  flush_requested = true;
}

-- The end of `Put` and of `Delete`: a full memtable is frozen unless one waits to be flushed.
unfoldable pub freeze_if_full : Lsm → Lsm
unfolding is_full new_mem_table
freeze_if_full lsm = if is_full lsm.active_memtable then freeze lsm.immutable_memtable lsm else lsm

abbrev pub next_sequence : Lsm → ℕ
next_sequence lsm = (lsm.sequence + 1) % 2 ^ 64

-- The record goes to the log and then to the active memtable. The atomic counter wraps.
unfoldable pub put_active : Lsm → Bytes → Bytes → Lsm
unfolding MemTable.put Wal.append
put_active lsm key value = record lsm {
  sequence = next_sequence lsm;
  wal = Wal.append lsm.wal key value (next_sequence lsm) false;
  active_memtable = MemTable.put lsm.active_memtable key value (next_sequence lsm);
  write_count = lsm.write_count + 1;
}

unfoldable pub put : Lsm → Bytes → Bytes → Lsm
unfolding put_active freeze_if_full
put lsm key value = freeze_if_full (put_active lsm key value)

unfoldable pub delete_active : Lsm → Bytes → Lsm
unfolding MemTable.delete Wal.append
delete_active lsm key = record lsm {
  sequence = next_sequence lsm;
  wal = Wal.append lsm.wal key [] (next_sequence lsm) true;
  active_memtable = MemTable.delete lsm.active_memtable key (next_sequence lsm);
}

unfoldable pub delete : Lsm → Bytes → Lsm
unfolding delete_active freeze_if_full
delete lsm key = freeze_if_full (delete_active lsm key)

-- What a memtable settles, and what is asked behind it.
abbrev pub or_below : Answer → Outcome (Option Bytes) → Outcome (Option Bytes)
or_below (value, seq, true, true) below = ok none
or_below (value, seq, false, true) below = ok (some value)
or_below (value, seq, deleted, false) below = below

abbrev pub answer_of : Option MemTable → Bytes → Answer
answer_of none key = ([], 0, false, false)
answer_of (some m) key = MemTable.get m key

-- A table that has the key ends the search, and so does an error; a table that lacks it, or has its
-- tombstone, does not.
abbrev pub or_next : Outcome (Option Bytes) → Outcome (Option Bytes) → Outcome (Option Bytes)
or_next (err e) next = err e
or_next (ok (some value)) next = ok (some value)
or_next (ok none) next = next

-- Level 0: every table, in the order of the level.
unfoldable pub search_l0 : List SsTable → Bytes → Outcome (Option Bytes)
unfolding SsTable.get
search_l0 [] key = ok none
search_l0 (sst ∷ ssts) key = or_next (SsTable.get sst key) (search_l0 ssts key)

-- Another level: the first table whose range has the key.
unfoldable pub search_level : List SsTable → Bytes → Outcome (Option Bytes)
unfolding SsTable.get
search_level [] key = ok none
search_level (sst ∷ ssts) key =
    let rest = search_level ssts key in
    if key_le sst.min_key key && key_le key sst.max_key then SsTable.get sst key else rest

unfoldable pub search_tables : LevelManager → Bytes → Outcome (Option Bytes)
unfolding search_l0 search_level get_all_sstables
search_tables lm key = or_next (search_l0 (get_all_sstables lm 0) key) (
    or_next (search_level (get_all_sstables lm 1) key) (
      or_next (search_level (get_all_sstables lm 2) key) (
        or_next (search_level (get_all_sstables lm 3) key)
          (search_level (get_all_sstables lm 4) key))))

-- `none` where the second result of `Get` is false.
unfoldable pub get : Lsm → Bytes → Outcome (Option Bytes) × Lsm
unfolding search_tables MemTable.get
get lsm key = (
  or_below (MemTable.get lsm.active_memtable key)
      (or_below (answer_of lsm.immutable_memtable key) (search_tables lsm.levels key)),
  record lsm { read_count = lsm.read_count + 1 },
)

-- One round of the loop of `recoverFromWAL`.
unfoldable pub replay_entry : Lsm → WalEntry → Lsm
unfolding MemTable.put MemTable.delete
replay_entry lsm e = record lsm {
  sequence = if ltb lsm.sequence e.sequence then e.sequence else lsm.sequence;
  active_memtable =
      if e.deleted
      then MemTable.delete lsm.active_memtable e.key e.sequence
      else MemTable.put lsm.active_memtable e.key e.value e.sequence;
}

unfoldable pub replay : Lsm → List WalEntry → Lsm
unfolding replay_entry
replay lsm [] = lsm
replay lsm (e ∷ es) = replay (replay_entry lsm e) es

unfoldable pub recover_from_wal : Lsm → Outcome Lsm
unfolding replay read_all
recover_from_wal lsm = do es ← read_all lsm.wal; ok (replay lsm es)

abbrev load_table : Lsm → ℕ → ℕ → Outcome SsTable → Lsm
load_table lsm level file_num (err e) = lsm
load_table lsm level file_num (ok sst) = record lsm {
  levels = add_sstable lsm.levels sst level;
  next_file_num = if leb lsm.next_file_num file_num then file_num + 1 else lsm.next_file_num;
}

-- The files in the order of the directory; a file that does not open is passed over. (An opening
-- that panics is not told apart from one that fails.)
unfoldable pub load_sstables : Lsm → List TableFile → Lsm
unfolding open_sstable add_sstable
load_sstables lsm [] = lsm
load_sstables lsm ((level, file_num, bytes) ∷ fs) =
    load_sstables (load_table lsm level file_num (open_sstable bytes level file_num)) fs

-- `New`
unfoldable pub open_lsm : ℕ → Bytes → List TableFile → Outcome Lsm
unfolding empty_lsm recover_from_wal load_sstables
open_lsm mem_table_size wal files = do
  lsm ← recover_from_wal (empty_lsm mem_table_size wal files)
  ok (load_sstables lsm files)

unfoldable pub add_entries : SsTableBuilder → List MemTableEntry → Outcome SsTableBuilder
unfolding Builder.add
add_entries b [] = ok b
add_entries b (e ∷ es) = do b' ← Builder.add b e.key e.value e.deleted; add_entries b' es

unfoldable pub build_table : BloomFilter → List MemTableEntry → Outcome Bytes
unfolding new_sstable_builder add_entries Builder.finish
build_table bloom es = do b ← add_entries (new_sstable_builder bloom) es; Builder.finish b

abbrev pub Result : Type 0
Result = Option Error × Lsm

abbrev opened_table : Lsm → ℕ → Outcome SsTable → Result
opened_table lsm file_num (err e) = (some e, lsm)
opened_table lsm file_num (ok sst) = (none, record lsm { levels = add_sstable lsm.levels sst 0 })

abbrev built_table : Lsm → ℕ → Outcome Bytes → Result
built_table lsm file_num (err e) = (some e, lsm)
built_table lsm file_num (ok bytes) =
    opened_table (record lsm { files = lsm.files ++ ((0, file_num, bytes) ∷ []) }) file_num
      (open_sstable bytes 0 file_num)

-- `sizes` is the floating-point part of `NewBloomFilter`: the number of bits and of hash functions
-- for a number of keys.
unfoldable pub flush_memtable : (ℕ → ℕ × ℕ) → Lsm → MemTable → Result
unfolding get_all_entries build_table open_sstable add_sstable new_bloom_filter
flush_memtable sizes lsm memtable =
    let entries = get_all_entries memtable in
    let (num_bits, num_hashes) = sizes (length entries) in
    let counted : Lsm = record lsm {
      next_file_num = lsm.next_file_num + 1;
      flush_count = lsm.flush_count + 1;
    } in
    if length entries == 0
    then (none, lsm)
    else built_table counted lsm.next_file_num
        (build_table (new_bloom_filter num_bits num_hashes) entries)

-- After a flush the log starts anew: it is deleted, with what was logged since the memtable was
-- frozen.
abbrev flushed : Result → Lsm
flushed (some e, lsm) = lsm
flushed (none, lsm) = record lsm { immutable_memtable = none; wal = [] }

abbrev flush_frozen : (ℕ → ℕ × ℕ) → Lsm → Option MemTable → Lsm
flush_frozen sizes lsm none = lsm
flush_frozen sizes lsm (some m) = flushed (flush_memtable sizes lsm m)

abbrev ask_compaction : Lsm → Lsm
ask_compaction lsm = record lsm {
  compaction_requested = should_compact lsm.levels 0 || lsm.compaction_requested;
}

-- One round of `flushWorker` on a message.
unfoldable pub flush_step : (ℕ → ℕ × ℕ) → Lsm → Lsm
unfolding flush_memtable should_compact
flush_step sizes lsm =
    ask_compaction
      (flush_frozen sizes (record lsm { flush_requested = false }) lsm.immutable_memtable)

-- `Close`, when the workers have stopped. A memtable that waits to be flushed is not flushed, and
-- stays in the log only.
unfoldable pub close : (ℕ → ℕ × ℕ) → Lsm → Result
unfolding len flush_memtable
close sizes lsm =
    if ltb 0 (len lsm.active_memtable)
    then flush_memtable sizes lsm lsm.active_memtable
    else (none, lsm)
