-- ===== src/HashIndex/Engine/Invariant.antt =====
-- What holds between the calls of the engine: every entry of the index points to a record that can
-- be read.
use storage_engines.Base.{
  ℕ, ◌≡◌, ◌≢◌, refl, false, List, [], ◌∷◌, ◌++◌, none, some, Outcome, ok, err, arith, All, ◌==◌,
  ==_refl, ==_iff, key_not_found, Bool-cases, inl, inr,
}
use storage_engines.Bytes.{Bytes}
use storage_engines.HashIndex.Segment
use storage_engines.HashIndex.Segment.{Segment, new_segment}
use storage_engines.HashIndex.Segment.Laws.{IsOpen}
use storage_engines.HashIndex.Shard
use storage_engines.HashIndex.Shard.{IndexEntry}
use storage_engines.HashIndex.Engine.{
  HashIndex, segment_of, find_segment, get, found_value, rotate_segment, sync_segment,
}

-- The entry's record can be read, and holds the value.
pub record Holds (h : HashIndex) (e : IndexEntry) (value : Bytes) : Type 0 where
  pub segment : Segment
  pub stands : segment_of h e.segment_id ≡ some segment
  pub reads : (Segment.read segment e.offset).0 ≡ ok value

pub record IsValid (h : HashIndex) : Type 0 where
  pub running : h.closed ≡ false
  pub active_file : Bytes
  pub active_open : IsOpen h.active active_file
  pub apart : All (λ s. s.id ≢ h.active.id) h.segments
  pub readable :
      (k : Bytes) (e : IndexEntry) → Shard.get h.index k ≡ some e → (v : Bytes) × Holds h e v

-- An empty value is the tombstone of a deleted key.
abbrev pub reply : Bytes → Outcome Bytes
reply [] = err key_not_found
reply (b ∷ bs) = ok (b ∷ bs)

found_value-reply : (h : HashIndex) (v : Bytes) → (found_value h (ok v)).0 ≡ reply v
found_value-reply h [] = refl
found_value-reply h (b ∷ bs) = refl

-- What Get answers under a key that the index has, and under one that it lacks.
pub get-Holds :
    (h : HashIndex) (k : Bytes) (e : IndexEntry) (v : Bytes)
    → h.closed ≡ false
    → Shard.get h.index k ≡ some e
    → Holds h e v
    → (get h k).0 ≡ reply v
unfolding get
get-Holds h k e v run at holds = rw (run, at, holds.stands) (rw holds.reads (found_value-reply _ v))

pub get-absent :
    (h : HashIndex) (k : Bytes)
    → h.closed ≡ false
    → Shard.get h.index k ≡ none
    → (get h k).0 ≡ err key_not_found
unfolding get
get-absent h k run at = rw (run, at)

-- No segment of the engine has the id.
pub record IsFresh (h : HashIndex) (id : ℕ) : Type 0 where
  pub not_active : h.active.id ≢ id
  pub not_sealed : All (λ s. s.id ≢ id) h.segments

find_segment-append :
    (ss : List Segment) (last s : Segment) (id : ℕ)
    → find_segment ss id ≡ some s
    → find_segment (ss ++ (last ∷ [])) id ≡ some s
unfolding find_segment
find_segment-append [] last s id h = cc
find_segment-append (t ∷ ss) last s id h = ground (arith, find_segment-append ss last s id)

pub find_segment-last :
    (ss : List Segment) (last : Segment)
    → All (λ s. s.id ≢ last.id) ss
    → find_segment (ss ++ (last ∷ [])) last.id ≡ some last
unfolding find_segment
find_segment-last [] last h = ground (arith, ==_refl last.id)
find_segment-last (t ∷ ss) last h = ground (arith, find_segment-last ss last h.1, h.0)

find_segment-absent :
    (ss : List Segment) (id : ℕ) → All (λ s. s.id ≢ id) ss → find_segment ss id ≡ none
unfolding find_segment
find_segment-absent [] id h = refl
find_segment-absent (t ∷ ss) id h = ground (arith, find_segment-absent ss id h.1, h.0)

pub segment_of-fresh : (h : HashIndex) (id : ℕ) → IsFresh h id → segment_of h id ≡ none
unfolding segment_of
segment_of-fresh h id f =
    ground (arith, f.not_active, find_segment-absent h.segments id f.not_sealed)

abbrev pub rotated : HashIndex → ℕ → HashIndex
rotated h fresh = record h {
  segments = h.segments ++ (h.active ∷ []);
  active = new_segment fresh [];
}

pub rotate_segment-rotated :
    (h : HashIndex) (fresh : ℕ) → IsValid h → rotate_segment h fresh ≡ ok (rotated h fresh)
unfolding rotate_segment sync_segment
rotate_segment-rotated h fresh v = rw v.active_open.holds

-- After a rotation every segment is found under the id that it had.
segment_of-rotated :
    (h : HashIndex) (fresh id : ℕ) (s : Segment)
    → IsValid h
    → IsFresh h fresh
    → segment_of h id ≡ some s
    → segment_of (rotated h fresh) id ≡ some s
unfolding segment_of new_segment
segment_of-rotated h fresh id s v f e = elim (Bool-cases (fresh == id)) [
  | inl same ↦
      let same_id : fresh ≡ id = (==_iff fresh id).0 same in
      cc (segment_of-fresh h fresh f, rw (← same_id) at e)
  | inr other ↦ elim (Bool-cases (h.active.id == id)) [
    | inl active ↦
        ground
          (arith, (==_iff h.active.id id).0 active, find_segment-last h.segments h.active v.apart)
    | inr sealed ↦ ground (arith, find_segment-append h.segments h.active s id)
  ]
]

pub Holds-rotated :
    (h : HashIndex) (fresh : ℕ) (e : IndexEntry) (v : Bytes)
    → IsValid h
    → IsFresh h fresh
    → Holds h e v
    → Holds (rotated h fresh) e v
Holds-rotated h fresh e v valid f holds = record {
  segment = holds.segment;
  stands = segment_of-rotated h fresh e.segment_id holds.segment valid f holds.stands;
  reads = holds.reads;
}

apart-append :
    (ss : List Segment) (last : Segment) (id : ℕ)
    → All (λ s. s.id ≢ id) ss
    → last.id ≢ id
    → All (λ s. s.id ≢ id) (ss ++ (last ∷ []))
apart-append [] last id h k = (k, tt)
apart-append (t ∷ ss) last id h k = (h.0, apart-append ss last id h.1 k)

-- Rotation with a fresh id keeps the invariant.
pub rotated-IsValid :
    (h : HashIndex) (fresh : ℕ) → IsValid h → IsFresh h fresh → IsValid (rotated h fresh)
unfolding new_segment
rotated-IsValid h fresh v f = record {
  running = v.running;
  active_file = [];
  active_open = record { opened = refl; holds = refl; sized = refl; held = omega arith };
  apart = apart-append h.segments h.active fresh f.not_sealed f.not_active;
  readable = λ k e at.
      let (value, holds) = v.readable k e at in (value, Holds-rotated h fresh e value v f holds);
}
