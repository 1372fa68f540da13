-- ===== src/HashIndex/Shard.antt =====
-- hashindex/shard.go: the index, a map split over 256 shards by a hash of the key. Each method holds
-- the lock of its shard, and is a function on the state.
pub mod Laws
pub mod Placed
use storage_engines.Base.{
  ℕ, zero, suc, ◌+◌, ◌-◌, bit_and, Bool, true, false, List, [], ◌∷◌, length, ◌==◌, if◌then◌else◌,
  Option, none, some,
}
use storage_engines.Bytes.{Bytes}
use storage_engines.Bytes.Hash.{fnv32a}
use storage_engines.Bytes.Assoc.{Assoc, lookup, insert, remove}

-- Where a key's record stands.
pub record IndexEntry : Type 0 where
  pub segment_id : ℕ
  pub offset : ℕ
  pub size : ℕ
  pub timestamp : ℕ

abbrev pub num_shards : ℕ
num_shards = 256

-- The array of shards is a function of the shard's number.
pub record ShardedIndex : Type 0 where
  pub shards : ℕ → Assoc IndexEntry
  pub count : ℕ

unfoldable pub new_sharded_index : ShardedIndex
new_sharded_index = record { shards = λ i. []; count = 0 }

-- `hash & shardMask`
unfoldable pub shard_of : Bytes → ℕ
shard_of key = bit_and (fnv32a key) (num_shards - 1)

abbrev pub write_shard : (ℕ → Assoc IndexEntry) → ℕ → Assoc IndexEntry → ℕ → Assoc IndexEntry
write_shard shards i entries j = if i == j then entries else shards j

unfoldable pub get : ShardedIndex → Bytes → Option IndexEntry
get si key = lookup key (si.shards (shard_of key))

abbrev pub bump : Option IndexEntry → ℕ → ℕ
bump none n = n + 1
bump (some e) n = n

unfoldable pub put : ShardedIndex → Bytes → IndexEntry → ShardedIndex
put si key entry =
    let i = shard_of key in
    record {
      shards = write_shard si.shards i (insert key entry (si.shards i));
      count = bump (lookup key (si.shards i)) si.count;
    }

abbrev pub drop_one : Option IndexEntry → ℕ → ℕ
drop_one none n = n
drop_one (some e) n = n - 1

abbrev pub existed : Option IndexEntry → Bool
existed none = false
existed (some e) = true

unfoldable pub delete : ShardedIndex → Bytes → ShardedIndex × Bool
delete si key =
    let i = shard_of key in
    (
      record {
        shards = write_shard si.shards i (remove key (si.shards i));
        count = drop_one (lookup key (si.shards i)) si.count;
      },
      existed (lookup key (si.shards i)),
    )

-- What one shard does of a batch: the updates, then the deletions, with how many keys are new and
-- how many are gone.
pub record Applied : Type 0 where
  pub entries : Assoc IndexEntry
  pub added : ℕ
  pub gone : ℕ

unfoldable pub apply_updates : Assoc IndexEntry → Applied → Applied
apply_updates [] a = a
apply_updates ((k, v) ∷ ups) a = apply_updates ups (record {
  entries = insert k v a.entries;
  added = bump (lookup k a.entries) a.added;
  gone = a.gone;
})

unfoldable pub apply_deletions : List Bytes → Applied → Applied
apply_deletions [] a = a
apply_deletions (k ∷ dels) a = apply_deletions dels (record {
  entries = remove k a.entries;
  added = a.added;
  gone = if existed (lookup k a.entries) then a.gone + 1 else a.gone;
})

-- The operations that fall to shard `i`.
unfoldable pub updates_for : ℕ → Assoc IndexEntry → Assoc IndexEntry
updates_for i [] = []
updates_for i ((k, v) ∷ ups) =
    let rest = updates_for i ups in if shard_of k == i then (k, v) ∷ rest else rest

unfoldable pub deletions_for : ℕ → List Bytes → List Bytes
deletions_for i [] = []
deletions_for i (k ∷ dels) =
    let rest = deletions_for i dels in if shard_of k == i then k ∷ rest else rest

unfoldable pub apply_shard : ShardedIndex → Assoc IndexEntry → List Bytes → ℕ → Applied
unfolding apply_updates apply_deletions updates_for deletions_for
apply_shard si updates deletions i =
    apply_deletions (deletions_for i deletions) (
      apply_updates (updates_for i updates) (record { entries = si.shards i; added = 0; gone = 0 }))

-- The sum over the shards below `n`.
unfoldable pub sum_shards : (ℕ → ℕ) → ℕ → ℕ
sum_shards f zero = 0
sum_shards f (suc n) = sum_shards f n + f n

-- The shards are applied in parallel, each under its own lock, and do not share state; the counter
-- changes once, by the sum of their deltas.
unfoldable pub update_batch : ShardedIndex → Assoc IndexEntry → List Bytes → ShardedIndex
unfolding apply_shard sum_shards
update_batch si updates deletions = record {
  shards = λ i. (apply_shard si updates deletions i).entries;
  count =
      si.count
      + sum_shards (λ i. (apply_shard si updates deletions i).added) num_shards
      - sum_shards (λ i. (apply_shard si updates deletions i).gone) num_shards;
}
