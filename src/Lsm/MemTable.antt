-- ===== src/Lsm/MemTable.antt =====
-- lsm/memtable.go: the sorted slice of recent writes. The lock makes each method atomic, so a method
-- is a function on the state. A nil value and an empty one are both the empty list.
pub mod Spec
pub mod Refine
pub mod Laws
use storage_engines.Base.{
  ℕ, ◌+◌, ◌-◌, Bool, true, false, ◌&&◌, List, [], ◌∷◌, length, get_or, set, ltb, leb, zero, suc,
  if◌then◌else◌,
}
use storage_engines.Base.Search.{search}
use storage_engines.Bytes.{Bytes}
use storage_engines.Bytes.Order.{key_le, key_eq}

pub record MemTableEntry : Type 0 where
  pub key : Bytes
  pub value : Bytes
  pub sequence : ℕ
  pub deleted : Bool

pub record MemTable : Type 0 where
  pub entries : List MemTableEntry
  pub size : ℕ
  pub max_size : ℕ

unfoldable pub new_mem_table : ℕ → MemTable
new_mem_table max_size = record { entries = []; size = 0; max_size = max_size }

-- The zero value of the struct; `entries[i]` is read in range only.
abbrev pub blank : MemTableEntry
blank = record { key = []; value = []; sequence = 0; deleted = false }

abbrev pub entry_at : List MemTableEntry → ℕ → MemTableEntry
entry_at es i = get_or es i blank

-- The `sort.Search` that every method begins with.
unfoldable pub find : List MemTableEntry → Bytes → ℕ
find es key = search (length es) (λ i. key_le key (entry_at es i).key)

-- `idx < len(m.entries) && m.entries[idx].Key == key`
abbrev pub present : List MemTableEntry → ℕ → Bytes → Bool
present es i key = ltb i (length es) && key_eq (entry_at es i).key key

-- The append of a blank entry, the shift of the tail by `copy`, and the write at `idx`.
abbrev pub insert_at : List MemTableEntry → ℕ → MemTableEntry → List MemTableEntry
insert_at es zero e = e ∷ es
insert_at [] (suc i) e = e ∷ []
insert_at (x ∷ es) (suc i) e = x ∷ insert_at es i e

-- `size` is the sum of what is added below, so adding before subtracting is exact.
unfoldable pub put : MemTable → Bytes → Bytes → ℕ → MemTable
put m key value seq =
    let idx = find m.entries key in
    let entry : MemTableEntry = record {
      key = key;
      value = value;
      sequence = seq;
      deleted = false;
    } in
    if present m.entries idx key
    then record m {
      entries = set m.entries idx entry;
      size = m.size + length value - length (entry_at m.entries idx).value;
    }
    else record m {
      entries = insert_at m.entries idx entry;
      size = m.size + (length key + length value + 16);
    }

unfoldable pub delete : MemTable → Bytes → ℕ → MemTable
delete m key seq =
    let idx = find m.entries key in
    let entry : MemTableEntry = record { key = key; value = []; sequence = seq; deleted = true } in
    if present m.entries idx key
    then record m {
      entries = set m.entries idx entry;
      size = m.size - length (entry_at m.entries idx).value;
    }
    else record m { entries = insert_at m.entries idx entry; size = m.size + (length key + 16) }

-- Value, sequence number, deleted, found.
abbrev pub Answer : Type 0
Answer = Bytes × ℕ × Bool × Bool

unfoldable pub get : MemTable → Bytes → Answer
get m key =
    let idx = find m.entries key in
    let entry = entry_at m.entries idx in
    if present m.entries idx key
    then (entry.value, entry.sequence, entry.deleted, true)
    else ([], 0, false, false)

unfoldable pub is_full : MemTable → Bool
is_full m = leb m.max_size m.size

unfoldable pub len : MemTable → ℕ
len m = length m.entries

unfoldable pub get_all_entries : MemTable → List MemTableEntry
get_all_entries m = m.entries
