-- ===== src/HashIndex/Shard/Laws.antt =====
-- The sharded index is a map: the laws of get after each operation.
use storage_engines.Base.{
  inr, inl, Bool-cases, ◌∙◌, ℕ, ◌≡◌, refl, Bool, true, false, List, [], ◌∷◌, ◌==◌, if◌then◌else◌,
  Option, none, some, arith, ==_refl, ==_iff, ◌||◌,
}
use storage_engines.Bytes.{Bytes}
use storage_engines.Bytes.Order.{key_eq}
use storage_engines.Bytes.Assoc.{
  Assoc, lookup, lookup-insert, lookup-remove, insert, key_eq_refl, key_eq_sound,
}
use storage_engines.HashIndex.Shard.{
  IndexEntry, ShardedIndex, shard_of, get, put, delete, Applied, apply_updates, apply_deletions,
  updates_for, deletions_for, apply_shard, update_batch,
}

pub shard_of-key_eq : (j k : Bytes) → key_eq k j ≡ true → shard_of k ≡ shard_of j
shard_of-key_eq j k h = ground (arith, key_eq_sound k j h)

-- Get after Put finds the new entry under its key, and under every other key what it found before.
pub get-put :
    (si : ShardedIndex) (j k : Bytes) (e : IndexEntry)
    → get (put si k e) j ≡ (if key_eq k j then some e else get si j)
unfolding get put
get-put si j k e = ground (
  arith,
  lookup-insert j k e (si.shards (shard_of k)),
  ==_refl (shard_of j),
  shard_of-key_eq j k,
  ==_iff (shard_of k) (shard_of j),
)

-- Get after Delete finds nothing under the deleted key, and under every other key what it found
-- before.
pub get-delete :
    (si : ShardedIndex) (j k : Bytes)
    → get (delete si k).0 j ≡ (if key_eq k j then none else get si j)
unfolding get delete
get-delete si j k = ground (
  arith,
  lookup-remove j k (si.shards (shard_of k)),
  ==_refl (shard_of j),
  shard_of-key_eq j k,
  ==_iff (shard_of k) (shard_of j),
)

abbrev pub contains : Bytes → List Bytes → Bool
contains j [] = false
contains j (k ∷ ks) = key_eq k j || contains j ks

-- A Go map has a key at most once.
abbrev pub HasUniqueKeys : Assoc IndexEntry → Type 0
HasUniqueKeys [] = Unit
HasUniqueKeys ((k, v) ∷ ups) = (lookup k ups ≡ none) × HasUniqueKeys ups

pub insert-HasUniqueKeys :
    (k : Bytes) (e : IndexEntry) (m : Assoc IndexEntry)
    → HasUniqueKeys m
    → HasUniqueKeys (insert k e m)
unfolding insert lookup
insert-HasUniqueKeys k e [] u = (refl, tt)
insert-HasUniqueKeys k e ((j, w) ∷ m) u = elim (Bool-cases (key_eq j k)) [
  | inl same ↦ rw (same, ← key_eq_sound j k same) u
  | inr other ↦ rw other (
    rw (lookup-insert j k e m) (ground (arith, u.0, key_eq_sound k j, key_eq_refl j, other)),
    insert-HasUniqueKeys k e m u.1,
  )
]

abbrev pub or_else {ℓ} : {A : Type ℓ} → Option A → Option A → Option A
or_else none o = o
or_else (some e) o = some e

lookup-apply_updates :
    (ups : Assoc IndexEntry) (a : Applied) (j : Bytes)
    → HasUniqueKeys ups
    → lookup j (apply_updates ups a).entries ≡ or_else (lookup j ups) (lookup j a.entries)
unfolding lookup apply_updates
lookup-apply_updates [] a j u = refl
lookup-apply_updates ((k, v) ∷ ups) a j u =
    lookup-apply_updates ups _ j u.1
    ∙ rw (lookup-insert j k v a.entries) (ground (arith, u.0, key_eq_sound k j))

lookup-apply_deletions :
    (dels : List Bytes) (a : Applied) (j : Bytes)
    → lookup j (apply_deletions dels a).entries
      ≡ (if contains j dels then none else lookup j a.entries)
unfolding apply_deletions
lookup-apply_deletions [] a j = refl
lookup-apply_deletions (k ∷ dels) a j =
    lookup-apply_deletions dels _ j ∙ rw (lookup-remove j k a.entries) (ground arith)

lookup-updates_for-none :
    (i : ℕ) (ups : Assoc IndexEntry) (k : Bytes)
    → lookup k ups ≡ none
    → lookup k (updates_for i ups) ≡ none
unfolding lookup updates_for
lookup-updates_for-none i [] k h = refl
lookup-updates_for-none i ((m, v) ∷ ups) k h = ground (arith, lookup-updates_for-none i ups k)

updates_for-HasUniqueKeys :
    (i : ℕ) (ups : Assoc IndexEntry) → HasUniqueKeys ups → HasUniqueKeys (updates_for i ups)
unfolding updates_for
updates_for-HasUniqueKeys i [] u = tt
updates_for-HasUniqueKeys i ((k, v) ∷ ups) u = elim (Bool-cases (shard_of k == i)) [
  | inl same ↦ rw same (lookup-updates_for-none i ups k u.0, updates_for-HasUniqueKeys i ups u.1)
  | inr other ↦ rw other (updates_for-HasUniqueKeys i ups u.1)
]

lookup-updates_for :
    (ups : Assoc IndexEntry) (j : Bytes) → lookup j (updates_for (shard_of j) ups) ≡ lookup j ups
unfolding lookup updates_for
lookup-updates_for [] j = refl
lookup-updates_for ((k, v) ∷ ups) j =
    ground (arith, lookup-updates_for ups j, shard_of-key_eq j k, ==_iff (shard_of k) (shard_of j))

contains-deletions_for :
    (dels : List Bytes) (j : Bytes) → contains j (deletions_for (shard_of j) dels) ≡ contains j dels
unfolding deletions_for
contains-deletions_for [] j = refl
contains-deletions_for (k ∷ dels) j =
    ground
      (arith, contains-deletions_for dels j, shard_of-key_eq j k, ==_iff (shard_of k) (shard_of j))

-- After UpdateBatch with a map of updates (its keys are unique), Get finds nothing under a key of
-- the deletions, else the entry that the updates have for the key, and else what it found before:
-- splitting the batch over the shards loses nothing.
pub get-update_batch :
    (si : ShardedIndex) (ups : Assoc IndexEntry) (dels : List Bytes) (j : Bytes)
    → HasUniqueKeys ups
    → get (update_batch si ups dels) j
      ≡ (if contains j dels then none else or_else (lookup j ups) (get si j))
unfolding get update_batch apply_shard
get-update_batch si ups dels j u =
    lookup-apply_deletions (deletions_for (shard_of j) dels) _ j
    ∙ rw (
      lookup-apply_updates (updates_for (shard_of j) ups) _ j
          (updates_for-HasUniqueKeys (shard_of j) ups u),
      lookup-updates_for ups j,
      contains-deletions_for dels j,
    )
