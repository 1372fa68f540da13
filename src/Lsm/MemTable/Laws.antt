-- ===== src/Lsm/MemTable/Laws.antt =====
-- What the methods of the memtable promise.
use storage_engines.Base.{
  ℕ, ◌+◌, ◌-◌, ◌≤◌, ◌≡◌, refl, ap, true, false, List, [], ◌∷◌, length, Ordering, if◌then◌else◌,
  arith,
}
use storage_engines.Bytes.{Bytes}
use storage_engines.Bytes.Order.{compare_bytes, key_eq, eq_of_compare_bytes}
use storage_engines.Lsm.MemTable.{
  MemTableEntry, MemTable, put, delete, get, new_mem_table, present, entry_at,
}
use storage_engines.Lsm.MemTable.Spec.{
  IsSorted, rank, lookup, upsert, weight, answer, lookup-upsert, upsert-IsSorted,
}
use storage_engines.Lsm.MemTable.Refine.{find-rank, answer-rank, write-upsert}

-- A memtable's invariant: ascending keys, and a size that is the weight of the entries.
pub record IsValid (m : MemTable) : Type 0 where
  pub sorted : IsSorted m.entries
  pub sized : m.size ≡ weight m.entries

pub new_mem_table-IsValid : (n : ℕ) → IsValid (new_mem_table n)
unfolding new_mem_table weight
new_mem_table-IsValid n = record { sorted = tt; sized = refl }

abbrev value_entry : Bytes → Bytes → ℕ → MemTableEntry
value_entry k v n = record { key = k; value = v; sequence = n; deleted = false }

abbrev tombstone : Bytes → ℕ → MemTableEntry
tombstone k n = record { key = k; value = []; sequence = n; deleted = true }

module _ (m : MemTable) (s : IsSorted m.entries) where
  pub get-lookup : (k : Bytes) → get m k ≡ answer (lookup k m.entries)
  unfolding get
  get-lookup k = rw (find-rank k m.entries s) (answer-rank k m.entries s)

  pub entries-put :
      (k v : Bytes) (n : ℕ) → (put m k v n).entries ≡ upsert (value_entry k v n) m.entries
  unfolding put
  entries-put k v n =
      rw (find-rank k m.entries s) (ground (arith, write-upsert (value_entry k v n) m.entries s))

  pub entries-delete :
      (k : Bytes) (n : ℕ) → (delete m k n).entries ≡ upsert (tombstone k n) m.entries
  unfolding delete
  entries-delete k n =
      rw (find-rank k m.entries s) (ground (arith, write-upsert (tombstone k n) m.entries s))

weight-ge :
    (k : Bytes) (es : List MemTableEntry)
    → present es (rank k es) k ≡ true
    → length (entry_at es (rank k es)).value ≤ weight es
unfolding weight rank
weight-ge k [] h = ground arith
weight-ge k (x ∷ xs) h = ground (arith, weight-ge k xs)

length-eq_of_compare : (a b : Bytes) → compare_bytes a b ≡ Ordering.eq → length a ≡ length b
length-eq_of_compare a b h = ap (λ (c : Bytes). length c) (eq_of_compare_bytes a b h)

-- The size after a write: what is replaced goes, and what is new comes with its overhead.
weight-write :
    (e : MemTableEntry) (es : List MemTableEntry)
    → (if present es (rank e.key es) e.key
        then weight es + length e.value - length (entry_at es (rank e.key es)).value
        else weight es + (length e.key + length e.value + 16))
      ≡ weight (upsert e es)
unfolding weight upsert rank
weight-write e [] = ground arith
weight-write e (x ∷ xs) =
    ground (arith, weight-write e xs, weight-ge e.key xs, length-eq_of_compare x.key e.key)

weight-put :
    (m : MemTable) (k v : Bytes) (n : ℕ)
    → IsValid m
    → (put m k v n).size ≡ weight (upsert (value_entry k v n) m.entries)
unfolding put
weight-put m k v n w =
    rw (find-rank k m.entries w.sorted, w.sized)
      (ground (arith, weight-write (value_entry k v n) m.entries, w.sized))

weight-delete :
    (m : MemTable) (k : Bytes) (n : ℕ)
    → IsValid m
    → (delete m k n).size ≡ weight (upsert (tombstone k n) m.entries)
unfolding delete
weight-delete m k n w =
    rw (find-rank k m.entries w.sorted)
      (ground (arith, weight-write (tombstone k n) m.entries, w.sized))

-- Put keeps the keys strictly ascending and the size exact, whether it replaces or inserts.
pub put-IsValid : (m : MemTable) (k v : Bytes) (n : ℕ) → IsValid m → IsValid (put m k v n)
put-IsValid m k v n w = record {
  sorted =
      rw (entries-put m w.sorted k v n) (upsert-IsSorted (value_entry k v n) m.entries w.sorted);
  sized = rw (entries-put m w.sorted k v n) (weight-put m k v n w);
}

-- Delete keeps the keys strictly ascending and the size exact, whether it replaces or inserts.
pub delete-IsValid : (m : MemTable) (k : Bytes) (n : ℕ) → IsValid m → IsValid (delete m k n)
delete-IsValid m k n w = record {
  sorted = rw (entries-delete m w.sorted k n) (upsert-IsSorted (tombstone k n) m.entries w.sorted);
  sized = rw (entries-delete m w.sorted k n) (weight-delete m k n w);
}

-- In a valid memtable, Get after Put answers the new value, with its sequence number, at the key
-- that was written, and at every other key what it answered before.
pub get-put :
    (m : MemTable) (j k v : Bytes) (n : ℕ)
    → IsValid m
    → get (put m k v n) j ≡ (if key_eq k j then (v, n, false, true) else get m j)
get-put m j k v n w =
    rw
      (
        get-lookup (put m k v n) (put-IsValid m k v n w).sorted j,
        get-lookup m w.sorted j,
        entries-put m w.sorted k v n,
        lookup-upsert j (value_entry k v n) m.entries w.sorted,
      )
      (ground arith)

-- In a valid memtable, Get after Delete answers a tombstone at the deleted key, and at every other
-- key what it answered before.
pub get-delete :
    (m : MemTable) (j k : Bytes) (n : ℕ)
    → IsValid m
    → get (delete m k n) j ≡ (if key_eq k j then ([], n, true, true) else get m j)
get-delete m j k n w =
    rw
      (
        get-lookup (delete m k n) (delete-IsValid m k n w).sorted j,
        get-lookup m w.sorted j,
        entries-delete m w.sorted k n,
        lookup-upsert j (tombstone k n) m.entries w.sorted,
      )
      (ground arith)
