-- ===== src/HashIndex/Engine/Laws.antt =====
-- What Put and Delete promise.
use storage_engines.Base.{
  ltb, ℕ, ◌≡◌, ◌≢◌, ap, ◌∙◌, [], length, none, some, ok, err, arith, if◌then◌else◌, ◌==◌, ==_refl,
  key_not_found, Bool-cases, inl, inr, Option-cases,
}
use storage_engines.Bytes.{Bytes}
use storage_engines.Bytes.Order.{key_eq}
use storage_engines.HashIndex.Segment.{Segment, Place}
use storage_engines.HashIndex.Segment.Record.{Fits}
use storage_engines.HashIndex.Segment.Laws.{Appended, append_lem, read-Appended, read-Appended_new}
use storage_engines.HashIndex.Shard
use storage_engines.HashIndex.Shard.{IndexEntry}
use storage_engines.HashIndex.Shard.Laws.{get-put as get-put_index}
use storage_engines.HashIndex.Engine.{
  HashIndex, segment_of, get, put, delete, write_active, record_write, write_rotated,
  put_with_rotation, request_compaction, after_append, after_rotation, after_rotated_write, finish,
}
use storage_engines.HashIndex.Engine.Invariant.{
  Holds, IsValid, IsFresh, reply, get-Holds, get-absent, rotated, rotate_segment-rotated,
  Holds-rotated, rotated-IsValid,
}

-- A state that follows a valid one by one write of `value` under `key`.
pub record Wrote (h h' : HashIndex) (key value : Bytes) : Type 0 where
  pub valid : IsValid h'
  pub entry : IndexEntry
  pub index :
      (j : Bytes)
      → Shard.get h'.index j ≡ (if key_eq key j then some entry else Shard.get h.index j)
  pub written : Holds h' entry value
  pub kept : (e : IndexEntry) (v : Bytes) → Holds h e v → Holds h' e v

module _ (h : HashIndex) (key value : Bytes) (now : ℕ) (valid : IsValid h)
    (f : Fits now key value) where
  module _ (place : Place) (active : Segment)
      (a : Appended h.active active valid.active_file key value place) where
    abbrev after : HashIndex
    after = record_write h key value now place active

    abbrev new_entry : IndexEntry
    new_entry = record { segment_id = active.id; offset = place.0; size = place.1; timestamp = now }

    kept_after : (e : IndexEntry) (v : Bytes) → Holds h e v → Holds after e v
    unfolding segment_of record_write
    kept_after e v holds = elim (Bool-cases (h.active.id == e.segment_id)) [
      | inl here ↦ record {
        segment = active;
        stands = ground (arith, here, a.same_id);
        reads =
            let same : h.active ≡ holds.segment = ground (arith, here, holds.stands) in
            read-Appended h.active active valid.active_file key value place e.offset v
              valid.active_open a (rw same holds.reads);
      }
      | inr there ↦ record {
        segment = holds.segment;
        stands = ground (arith, there, a.same_id, holds.stands);
        reads = holds.reads;
      }
    ]

    holds_new : Holds after new_entry value
    unfolding segment_of record_write
    holds_new = record {
      segment = active;
      stands = ground (arith, ==_refl active.id);
      reads = read-Appended_new h.active active valid.active_file key value place a;
    }

    index_after :
        (j : Bytes)
        → Shard.get after.index j ≡ (if key_eq key j then some new_entry else Shard.get h.index j)
    unfolding record_write
    index_after j = get-put_index h.index j key new_entry

    readable_after :
        (j : Bytes) (e : IndexEntry)
        → Shard.get after.index j ≡ some e
        → (v : Bytes) × Holds after e v
    readable_after j e at = elim (Bool-cases (key_eq key j)) [
      | inl same ↦
          let is_new : new_entry ≡ e = ground (arith, index_after j, same, at) in
          (value, rw (← is_new) holds_new)
      | inr other ↦
          let (v, holds) = valid.readable j e (ground (arith, index_after j, other, at)) in
          (v, kept_after e v holds)
    ]

    after-Wrote : Wrote h after key value
    unfolding record_write
    after-Wrote = record {
      valid = record {
        running = valid.running;
        active_file = a.new_file;
        active_open = a.in_use;
        apart = rw a.same_id valid.apart;
        readable = readable_after;
      };
      entry = new_entry;
      index = index_after;
      written = holds_new;
      kept = kept_after;
    }

  write_active_lem :
      (h' : HashIndex) × (write_active h key value now ≡ ok h') × Wrote h h' key value
  unfolding write_active
  write_active_lem =
      let (place, active, e, a) =
        append_lem h.active valid.active_file now key value valid.active_open f in
      (
        record_write h key value now place active,
        ap (after_append h key value now) e,
        after-Wrote place active a,
      )

-- Asking for a compaction changes nothing that a reader sees.
requested-IsValid : (h : HashIndex) → IsValid h → IsValid (request_compaction h)
unfolding request_compaction segment_of
requested-IsValid h v = record {
  running = v.running;
  active_file = v.active_file;
  active_open = v.active_open;
  apart = v.apart;
  readable = λ k e at.
      let (value, holds) = v.readable k e at in
      (value, record { segment = holds.segment; stands = holds.stands; reads = holds.reads });
}

requested-Wrote :
    (h h' : HashIndex) (key value : Bytes)
    → Wrote h h' key value
    → Wrote h (request_compaction h') key value
unfolding request_compaction segment_of
requested-Wrote h h' key value w = record {
  valid = unfold request_compaction in requested-IsValid h' w.valid;
  entry = w.entry;
  index = w.index;
  written = record {
    segment = w.written.segment;
    stands = w.written.stands;
    reads = w.written.reads;
  };
  kept = λ e v holds.
      let k = w.kept e v holds in
      record { segment = k.segment; stands = k.stands; reads = k.reads };
}

Wrote-rotated :
    (h h' : HashIndex) (key value : Bytes) (fresh : ℕ)
    → IsValid h
    → IsFresh h fresh
    → Wrote (rotated h fresh) h' key value
    → Wrote h h' key value
Wrote-rotated h h' key value fresh v f w = record {
  valid = w.valid;
  entry = w.entry;
  index = w.index;
  written = w.written;
  kept = λ e x holds. w.kept e x (Holds-rotated h fresh e x v f holds);
}

module _ (h : HashIndex) (key value : Bytes) (now fresh : ℕ) where
  put_with_rotation_lem :
      IsValid h
      → IsFresh h fresh
      → Fits now key value
      → (h' : HashIndex) × (put_with_rotation h key value now fresh ≡ (none, h'))
        × Wrote h h' key value
  unfolding put_with_rotation
  put_with_rotation_lem v fr f =
      let (h1, e1, w1) = write_active_lem h key value now v f in
      let (h2, e2, w2) =
        write_active_lem (rotated h fresh) key value now (rotated-IsValid h fresh v fr) f in
      elim (Bool-cases (ltb h.active.size h.segment_size_bytes)) [
        | inl room ↦ (h1, rw room (ap (finish h) e1), w1)
        | inr full ↦ (
          request_compaction h2,
          rw full (
              ap (after_rotation h key value now) (rotate_segment-rotated h fresh v)
              ∙ unfold write_rotated in ap (after_rotated_write (rotated h fresh)) e2),
          Wrote-rotated h (request_compaction h2) key value fresh v fr
              (requested-Wrote (rotated h fresh) h2 key value w2),
        )
      ]

  -- Put of a key that is not empty into a valid engine succeeds, with or without a rotation.
  pub put_lem :
      IsValid h
      → IsFresh h fresh
      → Fits now key value
      → length key ≢ 0
      → (h' : HashIndex) × (put h key value now fresh ≡ (none, h')) × Wrote h h' key value
  unfolding put
  put_lem v fr f some_key =
      let (h1, e1, w1) = write_active_lem h key value now v f in
      let (h2, e2, w2) = put_with_rotation_lem v fr f in
      elim (Bool-cases (ltb h.active.size h.segment_size_bytes)) [
        | inl room ↦ (h1, ground (arith, room, e1, v.running, some_key), w1)
        | inr full ↦ (h2, ground (arith, full, e2, v.running, some_key), w2)
      ]

get-Wrote :
    (h h' : HashIndex) (key value j : Bytes)
    → IsValid h
    → Wrote h h' key value
    → (get h' j).0 ≡ (if key_eq key j then reply value else (get h j).0)
get-Wrote h h' key value j v w = elim (Bool-cases (key_eq key j)) [
  | inl same ↦
      rw same
        (get-Holds h' j w.entry value w.valid.running (ground (arith, w.index j, same)) w.written)
  | inr other ↦ elim (Option-cases (Shard.get h.index j)) [
    | inl absent ↦
        rw (other, get-absent h j v.running absent)
          (get-absent h' j w.valid.running (ground (arith, w.index j, other, absent)))
    | inr (e, at) ↦
        let (x, holds) = v.readable j e at in
        rw (other, get-Holds h j e x v.running at holds)
          (get-Holds h' j e x w.valid.running (ground (arith, w.index j, other, at))
            (w.kept e x holds))
  ]
]

-- On an engine whose index points to readable records, Put of a nonempty key succeeds if the sizes
-- and the time fit their fields and the id for a new segment is not in use, whether or not it
-- rotates. The engine stays valid, and Get then answers the value under that key (not found, if the
-- value is empty), and under every other key what it answered before.
pub get-put_engine :
    (h : HashIndex) (key value : Bytes) (now fresh : ℕ)
    → IsValid h
    → IsFresh h fresh
    → Fits now key value
    → length key ≢ 0
    → (h' : HashIndex) × (put h key value now fresh ≡ (none, h'))
      × IsValid h'
      × ((j : Bytes) → (get h' j).0 ≡ (if key_eq key j then reply value else (get h j).0))
get-put_engine h key value now fresh v fr f some_key =
    let (h', e, w) = put_lem h key value now fresh v fr f some_key in
    (h', e, w.valid, λ j. get-Wrote h h' key value j v w)

-- On an engine whose index points to readable records, Delete of a nonempty key succeeds if the size
-- and the time fit their fields and the id for a new segment is not in use, whether or not it
-- rotates. The engine stays valid, and Get then answers not found under that key, and under every
-- other key what it answered before.
pub get-delete_engine :
    (h : HashIndex) (key : Bytes) (now fresh : ℕ)
    → IsValid h
    → IsFresh h fresh
    → Fits now key []
    → length key ≢ 0
    → (h' : HashIndex) × (delete h key now fresh ≡ (none, h'))
      × IsValid h'
      × ((j : Bytes) → (get h' j).0 ≡ (if key_eq key j then err key_not_found else (get h j).0))
unfolding delete
get-delete_engine h key now fresh v fr f some_key =
    get-put_engine h key [] now fresh v fr f some_key
