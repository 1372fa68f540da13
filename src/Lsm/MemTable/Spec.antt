-- ===== src/Lsm/MemTable/Spec.antt =====
-- A memtable as a sorted association list: the reference operations, by recursion on the list.
use storage_engines.Base.{
  ℕ, suc, ◌+◌, ◌≡◌, true, false, List, [], ◌∷◌, length, All, Ordering, if◌then◌else◌, arith, Option,
  none, some,
}
use storage_engines.Bytes.{Bytes}
use storage_engines.Bytes.Order.{
  compare_bytes, key_lt, key_eq, compare_bytes_refl, eq_of_compare_bytes, compare_bytes-flip,
  compare_bytes_trans,
}
use storage_engines.Lsm.MemTable.{MemTableEntry, Answer}

-- Strictly ascending keys.
abbrev pub Below : Bytes → List MemTableEntry → Type 0
Below k es = All (λ e. compare_bytes k e.key ≡ Ordering.lt) es

abbrev pub IsSorted : List MemTableEntry → Type 0
IsSorted [] = Unit
IsSorted (e ∷ es) = Below e.key es × IsSorted es

-- The bytes that the entries stand for.
unfoldable pub weight : List MemTableEntry → ℕ
weight [] = 0
weight (e ∷ es) = length e.key + length e.value + 16 + weight es

-- How many keys are smaller.
unfoldable pub rank : Bytes → List MemTableEntry → ℕ
rank k [] = 0
rank k (e ∷ es) = if key_lt e.key k then suc (rank k es) else 0

unfoldable pub lookup : Bytes → List MemTableEntry → Option MemTableEntry
lookup k [] = none
lookup k (e ∷ es) = if key_eq e.key k then some e else lookup k es

unfoldable pub upsert : MemTableEntry → List MemTableEntry → List MemTableEntry
upsert e [] = e ∷ []
upsert e (x ∷ xs) = elim (compare_bytes x.key e.key) [
  | Ordering.lt ↦ x ∷ upsert e xs
  | Ordering.eq ↦ e ∷ xs
  | Ordering.gt ↦ e ∷ x ∷ xs
]

abbrev pub answer : Option MemTableEntry → Answer
answer none = ([], 0, false, false)
answer (some e) = (e.value, e.sequence, e.deleted, true)

pub Below-trans :
    (j k : Bytes) (es : List MemTableEntry)
    → compare_bytes j k ≡ Ordering.lt
    → Below k es
    → Below j es
Below-trans j k [] h b = tt
Below-trans j k (e ∷ es) h b = (compare_bytes_trans j k e.key h b.0, Below-trans j k es h b.1)

pub lookup-Below : (k : Bytes) (es : List MemTableEntry) → Below k es → lookup k es ≡ none
unfolding lookup
lookup-Below k [] b = ground arith
lookup-Below k (e ∷ es) b = ground (arith, compare_bytes-flip k e.key, lookup-Below k es b.1)

pub Below-upsert :
    (k : Bytes) (e : MemTableEntry) (es : List MemTableEntry)
    → compare_bytes k e.key ≡ Ordering.lt
    → Below k es
    → Below k (upsert e es)
unfolding upsert
Below-upsert k e [] h b = (h, tt)
Below-upsert k e (x ∷ xs) h b = ground (arith, Below-upsert k e xs h b.1)

pub upsert-IsSorted :
    (e : MemTableEntry) (es : List MemTableEntry) → IsSorted es → IsSorted (upsert e es)
unfolding upsert
upsert-IsSorted e [] s = (tt, tt)
upsert-IsSorted e (x ∷ xs) s = ground (
  arith,
  compare_bytes-flip x.key e.key,
  Below-upsert x.key e xs,
  upsert-IsSorted e xs s.1,
  Below-trans e.key x.key xs,
  eq_of_compare_bytes x.key e.key,
)

-- The map law of the reference operations; no order is needed.
pub lookup-upsert :
    (k : Bytes) (e : MemTableEntry) (es : List MemTableEntry)
    → IsSorted es
    → lookup k (upsert e es) ≡ (if key_eq e.key k then some e else lookup k es)
unfolding lookup upsert
lookup-upsert k e [] s = ground arith
lookup-upsert k e (x ∷ xs) s = ground (
  arith,
  lookup-upsert k e xs s.1,
  eq_of_compare_bytes x.key e.key,
  eq_of_compare_bytes x.key k,
  eq_of_compare_bytes e.key k,
  compare_bytes-flip x.key e.key,
  compare_bytes_refl k,
)
