-- ===== src/HashIndex/Compaction/Laws.antt =====
-- What applying a compaction makes of the index.
use storage_engines.Base.{
  ℕ, zero, suc, ◌≤◌, ◌<◌, ◌≡◌, refl, ◌∙◌, false, ◌||◌, List, [], ◌∷◌, ◌++◌, arith, Option, none,
  some, if◌then◌else◌, inl, inr, Bool-cases, Option-cases, ◌==◌, ==_iff,
}
use storage_engines.Bytes.{Bytes}
use storage_engines.Bytes.Order.{key_eq}
use storage_engines.Bytes.Assoc.{Assoc, lookup, lookup-insert, key_eq_sound, key_eq_refl}
use storage_engines.HashIndex.Segment.{Segment}
use storage_engines.HashIndex.Shard
use storage_engines.HashIndex.Shard.{IndexEntry, ShardedIndex, shard_of, num_shards, update_batch}
use storage_engines.HashIndex.Shard.Laws.{
  HasUniqueKeys, contains, or_else, get-update_batch, insert-HasUniqueKeys,
}
use storage_engines.HashIndex.Shard.Placed.{IsSharded, shard_of_lt}
use storage_engines.HashIndex.Engine.{HashIndex}
use storage_engines.HashIndex.Compaction.{
  Written, Batch, has_id, batch_entry, batch_shard, batch_shards, moved, apply_compaction,
}

-- What becomes of an entry: one of a compacted segment is looked up in the new index.
abbrev pub moved_entry :
    List Segment → Assoc IndexEntry → Bytes → Option IndexEntry → Option IndexEntry
moved_entry old new_index k none = none
moved_entry old new_index k (some e) =
    if has_id old e.segment_id then lookup k new_index else some e

-- What a batch says of a key that the index has under `o`.
abbrev says : Batch → Bytes → Option IndexEntry → Option IndexEntry
says b k o = if contains k b.deletions then none else or_else (lookup k b.updates) o

contains-append :
    (k j : Bytes) (ks : List Bytes) → contains k (ks ++ (j ∷ [])) ≡ (contains k ks || key_eq j k)
contains-append k j [] = ground arith
contains-append k j (i ∷ ks) = ground (arith, contains-append k j ks)

-- A shard without the key leaves what the batch says of it.
module _ (old : List Segment) (new_index : Assoc IndexEntry) (k : Bytes) where
  Same : Batch → Batch → Type 0
  Same b c =
      (contains k b.deletions ≡ contains k c.deletions) × (lookup k b.updates ≡ lookup k c.updates)

  moved-other :
      (b : Batch) (j : Bytes) (o : Option IndexEntry) → key_eq j k ≡ false → Same (moved b j o) b
  unfolding Same
  moved-other b j none h = (rw (contains-append k j b.deletions, h) (ground arith), refl)
  moved-other b j (some e) h = (refl, rw (lookup-insert k j e b.updates, h) refl)

  batch_entry-other :
      (b : Batch) (j : Bytes) (e : IndexEntry)
      → key_eq j k ≡ false
      → Same (batch_entry old new_index j e b) b
  unfolding batch_entry Same
  batch_entry-other b j e h = elim (Bool-cases (has_id old e.segment_id)) [
    | inl gone ↦ rw gone (unfold Same in moved-other b j (lookup j new_index) h)
    | inr stays ↦ rw stays (refl, refl)
  ]

  Same-trans : (a b c : Batch) → Same a b → Same b c → Same a c
  unfolding Same
  Same-trans a b c s t = (s.0 ∙ t.0, s.1 ∙ t.1)

  batch_shard-absent :
      (m : Assoc IndexEntry) (b : Batch)
      → lookup k m ≡ none
      → Same (batch_shard old new_index m b) b
  unfolding Same batch_shard lookup
  batch_shard-absent [] b h = (refl, refl)
  batch_shard-absent ((j, e) ∷ m) b h = elim (Bool-cases (key_eq j k)) [
    | inl same ↦ absurd (ground (arith, same, h))
    | inr other ↦
        Same-trans (batch_shard old new_index ((j, e) ∷ m) b) (batch_entry old new_index j e b) b
          (batch_shard-absent m (batch_entry old new_index j e b) (ground (arith, other, h)))
          (batch_entry-other b j e other)
  ]

  -- The batch does not speak of the key.
  IsClean : Batch → Type 0
  IsClean b = (contains k b.deletions ≡ false) × (lookup k b.updates ≡ none)

  IsClean-Same : (b c : Batch) → Same b c → IsClean c → IsClean b
  unfolding Same IsClean
  IsClean-Same b c s l = (s.0 ∙ l.0, s.1 ∙ l.1)

  says-Same : (b c : Batch) (o : Option IndexEntry) → Same b c → says b k o ≡ says c k o
  unfolding Same
  says-Same b c o s = rw (s.0, s.1) refl

  says-moved :
      (b : Batch) (e : IndexEntry)
      → IsClean b
      → says (batch_entry old new_index k e b) k (some e) ≡ moved_entry old new_index k (some e)
  unfolding IsClean batch_entry
  says-moved b e l = elim (Bool-cases (has_id old e.segment_id)) [
    | inr stays ↦ rw (stays, l.0, l.1) refl
    | inl gone ↦ elim (Option-cases (lookup k new_index)) [
      | inl n ↦ rw (gone, n, contains-append k k b.deletions, key_eq_refl k) (ground arith)
      | inr (x, n) ↦ rw (gone, n, l.0, lookup-insert k k x b.updates, key_eq_refl k) refl
    ]
  ]

  batch_shard-present :
      (m : Assoc IndexEntry) (b : Batch) (e : IndexEntry)
      → HasUniqueKeys m
      → lookup k m ≡ some e
      → IsClean b
      → says (batch_shard old new_index m b) k (some e) ≡ moved_entry old new_index k (some e)
  unfolding batch_shard lookup
  batch_shard-present [] b e u h l = cc
  batch_shard-present ((j, w) ∷ m) b e u h l = elim (Bool-cases (key_eq j k)) [
    | inl same ↦
        let jk : j ≡ k = key_eq_sound j k same in
        let we : w ≡ e = ground (arith, same, h) in
        says-Same (batch_shard old new_index ((j, w) ∷ m) b) (batch_entry old new_index j w b)
          (some e) (batch_shard-absent m (batch_entry old new_index j w b) (rw jk at u.0))
        ∙ rw (jk, we) (says-moved b e l)
    | inr other ↦
        batch_shard-present m (batch_entry old new_index j w b) e u.1 (ground (arith, other, h))
          (IsClean-Same (batch_entry old new_index j w b) b (batch_entry-other b j w other) l)
  ]

  module _ (si : ShardedIndex) (sharded : IsSharded si) where
    absent-elsewhere : (i : ℕ) → (shard_of k ≡ i → ⊥) → lookup k (si.shards i) ≡ none
    absent-elsewhere i away = elim (Option-cases (lookup k (si.shards i))) [
      | inl n ↦ n
      | inr (e, at) ↦ absurd (away (sharded.own i k e at))
    ]

    absent-everywhere :
        lookup k (si.shards (shard_of k)) ≡ none → (i : ℕ) → lookup k (si.shards i) ≡ none
    absent-everywhere h i = elim (Bool-cases (shard_of k == i)) [
      | inl here ↦ rw ((==_iff (shard_of k) i).0 here) at h
      | inr away ↦ absent-elsewhere i (λ e. ground (arith, away, ==_iff (shard_of k) i, e))
    ]

    abbrev batch : ℕ → Batch
    batch n = batch_shards old new_index si n

    IsClean-before : (n : ℕ) → n ≤ shard_of k → IsClean (batch n)
    unfolding batch_shards IsClean lookup
    IsClean-before zero le = (refl, refl)
    IsClean-before (suc n) le =
        IsClean-Same (batch (suc n)) (batch n)
          (batch_shard-absent (si.shards n) (batch n) (absent-elsewhere n (λ h. omega (arith, h))))
          (IsClean-before n (omega arith))

    says-batch :
        (n : ℕ) (e : IndexEntry)
        → shard_of k < n
        → lookup k (si.shards (shard_of k)) ≡ some e
        → says (batch n) k (some e) ≡ moved_entry old new_index k (some e)
    unfolding batch_shards
    says-batch zero e lt at = absurd (omega arith)
    says-batch (suc n) e lt at = elim (Bool-cases (shard_of k == n)) [
      | inl here ↦
          let i : shard_of k ≡ n = (==_iff (shard_of k) n).0 here in
          batch_shard-present (si.shards n) (batch n) e (sharded.once n) (rw i at at)
            (IsClean-before n (omega arith))
      | inr away ↦
          let apart : shard_of k ≡ n → ⊥ = λ h. ground (arith, away, ==_iff (shard_of k) n, h) in
          says-Same (batch (suc n)) (batch n) (some e)
            (batch_shard-absent (si.shards n) (batch n) (absent-elsewhere n apart))
          ∙ says-batch n e (ground (arith, apart, lt)) at
    ]

    IsClean-absent : (n : ℕ) → lookup k (si.shards (shard_of k)) ≡ none → IsClean (batch n)
    unfolding batch_shards IsClean lookup
    IsClean-absent zero h = (refl, refl)
    IsClean-absent (suc n) h =
        IsClean-Same (batch (suc n)) (batch n)
          (batch_shard-absent (si.shards n) (batch n) (absent-everywhere h n)) (IsClean-absent n h)

  says-IsClean : (b : Batch) → IsClean b → says b k none ≡ none
  unfolding IsClean
  says-IsClean b l = rw (l.0, l.1) refl

says_lem :
    (old : List Segment) (new_index : Assoc IndexEntry) (k : Bytes) (si : ShardedIndex)
    → IsSharded si
    → (o : Option IndexEntry) → Shard.get si k ≡ o
    → says (batch_shards old new_index si num_shards) k (Shard.get si k)
      ≡ moved_entry old new_index k (Shard.get si k)
unfolding Shard.get
says_lem old new_index k si sharded none h = rw h (
    says-IsClean old new_index k (batch_shards old new_index si num_shards)
      (IsClean-absent old new_index k si sharded num_shards h))
says_lem old new_index k si sharded (some e) h =
    rw h (says-batch old new_index k si sharded num_shards e (shard_of_lt k) h)

module _ (old : List Segment) (new_index : Assoc IndexEntry) where
  entry_unique :
      (b : Batch) (j : Bytes) (e : IndexEntry)
      → HasUniqueKeys b.updates
      → HasUniqueKeys (batch_entry old new_index j e b).updates
  unfolding batch_entry
  entry_unique b j e u = elim (Bool-cases (has_id old e.segment_id)) [
    | inr stays ↦ rw stays u
    | inl gone ↦ elim (Option-cases (lookup j new_index)) [
      | inl n ↦ rw (gone, n) u
      | inr (x, n) ↦ rw (gone, n) (insert-HasUniqueKeys j x b.updates u)
    ]
  ]

  updates_unique :
      (m : Assoc IndexEntry) (b : Batch)
      → HasUniqueKeys b.updates
      → HasUniqueKeys (batch_shard old new_index m b).updates
  unfolding batch_shard
  updates_unique [] b u = u
  updates_unique ((j, e) ∷ m) b u =
      updates_unique m (batch_entry old new_index j e b) (entry_unique b j e u)

  batch_unique :
      (si : ShardedIndex) (n : ℕ) → HasUniqueKeys (batch_shards old new_index si n).updates
  unfolding batch_shards
  batch_unique si zero = tt
  batch_unique si (suc n) = updates_unique (si.shards n) _ (batch_unique si n)

-- On an index that is sharded, what Get of the index finds under a key after a compaction is applied
-- is settled by what it found before: nothing, if that was nothing; the entry of the new index, or
-- nothing if it lacks the key, if the entry was in a segment that was compacted; and else the entry
-- that it was.
pub get-apply_compaction :
    (h : HashIndex) (old : List Segment) (w : Written) (k : Bytes)
    → IsSharded h.index
    → Shard.get (apply_compaction h old w).index k ≡ moved_entry old w.index k (Shard.get h.index k)
unfolding apply_compaction
get-apply_compaction h old w k sharded =
    let b : Batch = batch_shards old w.index h.index num_shards in
    get-update_batch h.index b.updates b.deletions k (batch_unique old w.index h.index num_shards)
    ∙ says_lem old w.index k h.index sharded (Shard.get h.index k) refl
