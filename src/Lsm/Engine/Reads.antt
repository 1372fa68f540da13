-- ===== src/Lsm/Engine/Reads.antt =====
-- What Get answers after a write, and after a table is added to level 0.
use storage_engines.Base.{
  ◌≡◌, refl, sym, ◌∙◌, false, List, [], ◌∷◌, ◌++◌, arith, Option, none, some, ok, inl, inr,
  Bool-cases, if◌then◌else◌, get_elem?,
}
use storage_engines.Bytes.{Bytes}
use storage_engines.Bytes.Order.{key_eq}
use storage_engines.Lsm.MemTable
use storage_engines.Lsm.MemTable.{MemTable, Answer, new_mem_table, is_full}
use storage_engines.Lsm.MemTable.Laws.{IsValid, get-put, get-delete}
use storage_engines.Lsm.SsTable
use storage_engines.Lsm.SsTable.{SsTable}
use storage_engines.Lsm.Levels.{LevelInfo, add_sstable}
use storage_engines.Lsm.Levels.Laws.{add_sstable-at}
use storage_engines.Lsm.Engine.{
  Lsm, freeze, freeze_if_full, put, delete, put_active, delete_active, get, or_below, answer_of,
  search_l0, search_tables, next_sequence,
}
use storage_engines.Lsm.Engine.Durable.{over, or_below-over, over-get, get-new}

-- What the two memtables answer together.
answer : Lsm → Bytes → Answer
answer s k = over (MemTable.get s.active_memtable k) (answer_of s.immutable_memtable k)

get-answer : (s : Lsm) (k : Bytes) → (get s k).0 ≡ or_below (answer s k) (search_tables s.levels k)
unfolding get answer
get-answer s k =
    or_below-over (MemTable.get s.active_memtable k) (answer_of s.immutable_memtable k)
      (search_tables s.levels k)

Alike : Lsm → Lsm → Type 0
Alike s t = (s.levels ≡ t.levels) × ((k : Bytes) → answer s k ≡ answer t k)

freeze-Alike : (s : Lsm) (o : Option MemTable) → s.immutable_memtable ≡ o → Alike (freeze o s) s
unfolding Alike answer
freeze-Alike s none e =
    (refl, λ k. rw (get-new s.mem_table_size k, e) (sym (over-get s.active_memtable k)))
freeze-Alike s (some m) e = (refl, λ k. refl)

freeze_if_full-Alike : (s : Lsm) → Alike (freeze_if_full s) s
unfolding freeze_if_full Alike
freeze_if_full-Alike s = elim (Bool-cases (is_full s.active_memtable)) [
  | inr room ↦ rw room (refl, λ k. refl)
  | inl full ↦ rw full (unfold Alike in freeze-Alike s s.immutable_memtable refl)
]

get-Alike : (s t : Lsm) (k : Bytes) → Alike s t → (get s k).0 ≡ (get t k).0
unfolding Alike
get-Alike s t k a = get-answer s k ∙ rw (a.1 k, a.0) (sym (get-answer t k))

-- If the active memtable is valid, then after Put, whether or not it freezes the memtable, Get
-- answers the value under the key that was written, and under every other key what it answered
-- before, whatever the other memtable and the tables hold.
pub get-put_lsm :
    (s : Lsm) (j k v : Bytes)
    → IsValid s.active_memtable
    → (get (put s k v) j).0 ≡ (if key_eq k j then ok (some v) else (get s j).0)
unfolding put put_active answer
get-put_lsm s j k v w =
    get-Alike (freeze_if_full (put_active s k v)) (put_active s k v) j
      (freeze_if_full-Alike (put_active s k v))
    ∙ get-answer (put_active s k v) j
    ∙ rw (get-put s.active_memtable j k v (next_sequence s) w, get-answer s j)
        (elim (Bool-cases (key_eq k j)) [ inl same ↦ rw same refl | inr other ↦ rw other refl ])

-- If the active memtable is valid, then after Delete, whether or not it freezes the memtable, Get
-- finds nothing under the deleted key, and answers under every other key what it answered before,
-- whatever the other memtable and the tables hold.
pub get-delete_lsm :
    (s : Lsm) (j k : Bytes)
    → IsValid s.active_memtable
    → (get (delete s k) j).0 ≡ (if key_eq k j then ok none else (get s j).0)
unfolding delete delete_active answer
get-delete_lsm s j k w =
    get-Alike (freeze_if_full (delete_active s k)) (delete_active s k) j
      (freeze_if_full-Alike (delete_active s k))
    ∙ get-answer (delete_active s k) j
    ∙ rw (get-delete s.active_memtable j k (next_sequence s) w, get-answer s j)
        (elim (Bool-cases (key_eq k j)) [ inl same ↦ rw same refl | inr other ↦ rw other refl ])

search_l0-append :
    (ss : List SsTable) (t : SsTable) (key v : Bytes)
    → search_l0 ss key ≡ ok none
    → SsTable.get t key ≡ ok (some v)
    → search_l0 (ss ++ (t ∷ [])) key ≡ ok (some v)
unfolding search_l0
search_l0-append [] t key v lacks found = rw found refl
search_l0-append (s ∷ ss) t key v lacks found = ground (arith, search_l0-append ss t key v)

-- A flushed value is found: if the two memtables lack a key, no older table of level 0 answers a value
-- for it, and a table has one, then after that table is added to level 0 Get answers its value,
-- whatever the deeper levels hold.
pub get-add_sstable :
    (s : Lsm) (l : LevelInfo) (t : SsTable) (key v : Bytes)
    → get_elem? s.levels 0 ≡ some l
    → MemTable.get s.active_memtable key ≡ ([], 0, false, false)
    → answer_of s.immutable_memtable key ≡ ([], 0, false, false)
    → search_l0 l.sstables key ≡ ok none
    → SsTable.get t key ≡ ok (some v)
    → (get (record s { levels = add_sstable s.levels t 0 }) key).0 ≡ ok (some v)
unfolding get search_tables
get-add_sstable s l t key v h active frozen lacks found =
    rw
      (
        active,
        frozen,
        add_sstable-at s.levels l t 0 h,
        search_l0-append l.sstables t key v lacks found,
      )
      refl
