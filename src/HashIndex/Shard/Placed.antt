-- ===== src/HashIndex/Shard/Placed.antt =====
-- Every key stands in its own shard, once.
use storage_engines.Base.{ℕ, ◌<◌, ◌≡◌, sym, ◌∙◌, some, inl, inr, Bool-cases, ◌==◌, ==_iff, arith}
use storage_engines.Bytes.{Bytes}
use storage_engines.Bytes.Bits.{bit_and_le}
use storage_engines.Bytes.Hash.{fnv32a}
use storage_engines.Bytes.Order.{key_eq}
use storage_engines.Bytes.Assoc.{lookup, lookup-insert}
use storage_engines.HashIndex.Shard
use storage_engines.HashIndex.Shard.{IndexEntry, ShardedIndex, shard_of, num_shards}
use storage_engines.HashIndex.Shard.Laws.{HasUniqueKeys, insert-HasUniqueKeys, shard_of-key_eq}

-- Each shard has each key once, and only keys that fall to it.
pub record IsSharded (si : ShardedIndex) : Type 0 where
  pub once : (i : ℕ) → HasUniqueKeys (si.shards i)
  pub own : (i : ℕ) (k : Bytes) (e : IndexEntry) → lookup k (si.shards i) ≡ some e → shard_of k ≡ i

-- Put keeps the index sharded: afterwards too each shard has each key at most once, and only keys
-- whose hash leads to it.
pub put-IsSharded :
    (si : ShardedIndex) (k : Bytes) (e : IndexEntry) → IsSharded si → IsSharded (Shard.put si k e)
unfolding Shard.put
put-IsSharded si k e v = record {
  once = λ i. elim (Bool-cases (shard_of k == i)) [
    | inl same ↦ rw same (insert-HasUniqueKeys k e (si.shards (shard_of k)) (v.once (shard_of k)))
    | inr other ↦ rw other (v.once i)
  ];
  own = λ i j x at. elim (Bool-cases (shard_of k == i)) [
    | inl same ↦
        let here : shard_of k ≡ i = (==_iff (shard_of k) i).0 same in
        elim (Bool-cases (key_eq k j)) [
          | inl hit ↦ sym (shard_of-key_eq j k hit) ∙ here
          | inr miss ↦
              v.own (shard_of k) j x
                (ground (arith, same, miss, at, lookup-insert j k e (si.shards (shard_of k))))
              ∙ here
        ]
    | inr other ↦ v.own i j x (rw other at at)
  ];
}

pub new-IsSharded : IsSharded Shard.new_sharded_index
unfolding Shard.new_sharded_index lookup
new-IsSharded = record { once = λ i. tt; own = λ i k e at. cc }

pub shard_of_lt : (k : Bytes) → shard_of k < num_shards
unfolding shard_of
shard_of_lt k = omega (arith, bit_and_le (fnv32a k) 255)
