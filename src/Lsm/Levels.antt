-- ===== src/Lsm/Levels.antt =====
-- lsm/levels.go: the tables of the five levels. The lock makes each method atomic, so that a method
-- is a function on the state.
pub mod Laws
use storage_engines.Base.{
  ℕ, zero, suc, ◌+◌, ◌*◌, Bool, true, false, List, [], ◌∷◌, ◌++◌, length, set, get_elem?, leb, ◌==◌,
  if◌then◌else◌, Option, none, some,
}
use storage_engines.Bytes.{Bytes}
use storage_engines.Bytes.Order.{key_lt}
use storage_engines.Lsm.SsTable.{SsTable, overlaps}

pub record LevelInfo : Type 0 where
  pub sstables : List SsTable
  pub size : ℕ
  pub max_size : ℕ

abbrev pub LevelManager : Type 0
LevelManager = List LevelInfo

abbrev pub max_l0_files : ℕ
max_l0_files = 4

abbrev megabyte : ℕ
megabyte = 1024 * 1024

abbrev pub empty_level : ℕ → LevelInfo
empty_level max_size = record { sstables = []; size = 0; max_size = max_size }

unfoldable pub new_level_manager : LevelManager
new_level_manager =
    empty_level (40 * megabyte)
    ∷ empty_level (400 * megabyte)
    ∷ empty_level (4 * 1024 * megabyte)
    ∷ empty_level (40 * 1024 * megabyte)
    ∷ empty_level (400 * 1024 * megabyte)
    ∷ []

-- A table moves in front of those whose least key is not below its own. `sort.Slice` leaves the
-- order of equal keys open; here it is kept.
unfoldable pub insert_table : SsTable → List SsTable → List SsTable
insert_table t [] = t ∷ []
insert_table t (s ∷ ss) =
    let rest = insert_table t ss in if key_lt s.min_key t.min_key then s ∷ rest else t ∷ s ∷ ss

unfoldable pub sort_tables : List SsTable → List SsTable
unfolding insert_table
sort_tables [] = []
sort_tables (s ∷ ss) = insert_table s (sort_tables ss)

-- The size is a guess: four megabytes for each file.
unfoldable pub update_level_size : LevelInfo → LevelInfo
update_level_size l = record l { size = length l.sstables * 4 * megabyte }

abbrev written : LevelManager → ℕ → (LevelInfo → LevelInfo) → Option LevelInfo → LevelManager
written lm level change none = lm
written lm level change (some l) = set lm level (update_level_size (change l))

abbrev on_level : LevelManager → ℕ → (LevelInfo → LevelInfo) → LevelManager
on_level lm level change = written lm level change (get_elem? lm level)

-- Level 0 keeps the order in which the tables came.
unfoldable pub add_sstable : LevelManager → SsTable → ℕ → LevelManager
unfolding sort_tables update_level_size
add_sstable lm sst level = on_level lm level (λ l. record l {
  sstables =
      if level == 0 then l.sstables ++ (sst ∷ []) else sort_tables (l.sstables ++ (sst ∷ []));
})

-- The first table with the number of the file.
unfoldable pub remove_table : ℕ → List SsTable → List SsTable
remove_table n [] = []
remove_table n (s ∷ ss) = let rest = remove_table n ss in if s.file_num == n then ss else s ∷ rest

unfoldable pub remove_sstable : LevelManager → SsTable → ℕ → LevelManager
unfolding remove_table update_level_size
remove_sstable lm sst level =
    on_level lm level (λ l. record l { sstables = remove_table sst.file_num l.sstables })

abbrev tables_of : Option LevelInfo → List SsTable
tables_of none = []
tables_of (some l) = l.sstables

unfoldable pub get_all_sstables : LevelManager → ℕ → List SsTable
get_all_sstables lm level = tables_of (get_elem? lm level)

unfoldable pub overlapping : List SsTable → Bytes → Bytes → List SsTable
unfolding overlaps
overlapping [] start end = []
overlapping (s ∷ ss) start end =
    let rest = overlapping ss start end in if overlaps s start end then s ∷ rest else rest

unfoldable pub get_overlapping : LevelManager → ℕ → Bytes → Bytes → List SsTable
unfolding overlapping get_all_sstables
get_overlapping lm level start end = overlapping (get_all_sstables lm level) start end

unfoldable pub should_compact : LevelManager → ℕ → Bool
should_compact lm level = elim (get_elem? lm level) [
  | none ↦ false
  | some l ↦ if level == 0 then leb max_l0_files (length l.sstables) else leb l.max_size l.size
]

unfoldable pub num_files : LevelManager → ℕ → ℕ
unfolding get_all_sstables
num_files lm level = length (get_all_sstables lm level)

unfoldable pub level_size : LevelManager → ℕ → ℕ
level_size lm level = elim (get_elem? lm level) [ none ↦ 0 | some l ↦ l.size ]

abbrev first_table : List SsTable → List SsTable
first_table [] = []
first_table (s ∷ ss) = s ∷ []

-- All of level 0, and the first table of another level.
unfoldable pub pick_compaction_files : LevelManager → ℕ → List SsTable
unfolding get_all_sstables
pick_compaction_files lm level =
    if level == 0 then get_all_sstables lm level else first_table (get_all_sstables lm level)

unfoldable pub get_total_files : LevelManager → ℕ
get_total_files [] = 0
get_total_files (l ∷ lm) = length l.sstables + get_total_files lm

unfoldable pub get_total_size : LevelManager → ℕ
get_total_size [] = 0
get_total_size (l ∷ lm) = l.size + get_total_size lm
