-- ===== src/Lsm/MemTable/Refine.antt =====
-- The binary search and the shifts of the slice compute the reference operations.
use storage_engines.Base.{
  ℕ, zero, suc, ◌≤◌, ◌<◌, ◌≡◌, inl, inr, Bool, true, false, List, [], ◌∷◌, length, set, Ordering,
  if◌then◌else◌, arith, none, Bool-cases,
}
use storage_engines.Base.Search.{IsFirst, search-IsFirst}
use storage_engines.Bytes.{Bytes}
use storage_engines.Bytes.Order.{
  compare_bytes, key_lt, key_le, eq_of_compare_bytes, compare_bytes-flip, compare_bytes_trans,
}
use storage_engines.Lsm.MemTable.{MemTableEntry, entry_at, find, present, insert_at}
use storage_engines.Lsm.MemTable.Spec.{
  Below, IsSorted, rank, lookup, upsert, answer, lookup-Below, Below-trans,
}

-- The test that the search is run with.
abbrev at_least : Bytes → List MemTableEntry → ℕ → Bool
at_least k es i = key_le k (entry_at es i).key

key_le-trans_lt :
    (a b c : Bytes) → key_le a b ≡ true → compare_bytes b c ≡ Ordering.lt → key_le a c ≡ true
key_le-trans_lt a b c h l = ground (arith, eq_of_compare_bytes a b, compare_bytes_trans a b c)

Below-at :
    (k : Bytes) (es : List MemTableEntry) (i : ℕ)
    → Below k es
    → i < length es
    → compare_bytes k (entry_at es i).key ≡ Ordering.lt
Below-at k [] i b h = absurd (omega arith)
Below-at k (e ∷ es) zero b h = b.0
Below-at k (e ∷ es) (suc i) b h = Below-at k es i b.1 (omega arith)

at_least_mono :
    (k : Bytes) (es : List MemTableEntry)
    → IsSorted es
    → (i j : ℕ) → i ≤ j
    → j < length es
    → at_least k es i ≡ true
    → at_least k es j ≡ true
at_least_mono k [] s i j le lt h = absurd (omega arith)
at_least_mono k (e ∷ es) s zero zero le lt h = h
at_least_mono k (e ∷ es) s zero (suc j) le lt h =
    key_le-trans_lt k e.key (entry_at es j).key h (Below-at e.key es j s.0 (omega arith))
at_least_mono k (e ∷ es) s (suc i) zero le lt h = absurd (omega arith)
at_least_mono k (e ∷ es) s (suc i) (suc j) le lt h =
    at_least_mono k es s.1 i j (omega arith) (omega arith) h

rank-le-length : (k : Bytes) (es : List MemTableEntry) → rank k es ≤ length es
unfolding rank
rank-le-length k [] = omega arith
rank-le-length k (e ∷ es) = ground (arith, rank-le-length k es)

below_rank : (k : Bytes) (es : List MemTableEntry) (i : ℕ) → i < rank k es → at_least k es i ≡ false
unfolding rank
below_rank k [] i h = absurd (omega arith)
below_rank k (e ∷ es) zero h = ground (arith, compare_bytes-flip k e.key)
below_rank k (e ∷ es) (suc i) h = ground (arith, below_rank k es i)

at_rank :
    (k : Bytes) (es : List MemTableEntry) → rank k es < length es → at_least k es (rank k es) ≡ true
unfolding rank
at_rank k [] h = absurd (omega arith)
at_rank k (e ∷ es) h = elim (Bool-cases (key_lt e.key k)) [
  | inl lt ↦ rw lt (at_rank k es (omega (arith, smaller lt)))
  | inr ge ↦ rw ge (ground (arith, compare_bytes-flip k e.key))
]
  where
    smaller : key_lt e.key k ≡ true → rank k es < length es
    smaller lt = ground arith

rank-IsFirst :
    (k : Bytes) (es : List MemTableEntry)
    → IsSorted es
    → IsFirst (at_least k es) (length es) (rank k es)
rank-IsFirst k es s = record {
  bounded = rank-le-length k es;
  below = below_rank k es;
  above = λ i le lt. at_least_mono k es s (rank k es) i le lt (at_rank k es (omega arith));
}

IsFirst-unique : (f : ℕ → Bool) (n a b : ℕ) → IsFirst f n a → IsFirst f n b → a ≡ b
IsFirst-unique f n a b p q =
    ground (arith, p.below b, q.above b, q.below a, p.above a, p.bounded, q.bounded)

-- The binary search finds the number of smaller keys.
pub find-rank : (k : Bytes) (es : List MemTableEntry) → IsSorted es → find es k ≡ rank k es
unfolding find
find-rank k es s =
    IsFirst-unique (at_least k es) (length es) _ _
      (search-IsFirst (at_least k es) (length es) (at_least_mono k es s)) (rank-IsFirst k es s)

smaller_absent :
    (k : Bytes) (e : MemTableEntry) (es : List MemTableEntry)
    → Below e.key es
    → compare_bytes e.key k ≡ Ordering.gt
    → lookup k es ≡ none
smaller_absent k e es b h =
    lookup-Below k es (Below-trans k e.key es (ground (arith, compare_bytes-flip e.key k)) b)

-- What stands at the rank, if it is the key's entry.
pub answer-rank :
    (k : Bytes) (es : List MemTableEntry)
    → IsSorted es
    → (if present es (rank k es) k
        then (
          (entry_at es (rank k es)).value,
          (entry_at es (rank k es)).sequence,
          (entry_at es (rank k es)).deleted,
          true,
        )
        else ([], 0, false, false))
      ≡ answer (lookup k es)
unfolding rank lookup
answer-rank k [] s = ground arith
answer-rank k (e ∷ es) s = ground (arith, answer-rank k es s.1, smaller_absent k e es s.0)

-- The write at the rank, by overwriting or by shifting, is the upsert.
pub write-upsert :
    (e : MemTableEntry) (es : List MemTableEntry)
    → IsSorted es
    → (if present es (rank e.key es) e.key
        then set es (rank e.key es) e
        else insert_at es (rank e.key es) e)
      ≡ upsert e es
unfolding rank upsert
write-upsert e [] s = ground arith
write-upsert e (x ∷ xs) s = ground (arith, write-upsert e xs s.1)
