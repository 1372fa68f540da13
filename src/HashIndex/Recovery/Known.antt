-- ===== src/HashIndex/Recovery/Known.antt =====
-- What the scan of all files of a directory knows of each key.
use storage_engines.Base.{
  ==_refl, Bool-cases, ℕ, ◌+◌, ◌≤◌, ◌<◌, ◌≡◌, refl, sym, ◌∙◌, ◌⊎◌, inl, inr, List, [], ◌∷◌, ◌++◌,
  length, arith, All, if◌then◌else◌, map, Option, none, some, ok,
}
use storage_engines.Bytes.{Bytes}
use storage_engines.Bytes.Order.{key_eq}
use storage_engines.Bytes.Assoc.{lookup, insert, lookup-insert, key_eq_sound}
use storage_engines.HashIndex.Segment
use storage_engines.HashIndex.Segment.{record_bytes, Segment, parse_at, new_segment}
use storage_engines.HashIndex.Segment.Laws.{IsOpen, read-open}
use storage_engines.HashIndex.Shard.{IndexEntry}
use storage_engines.HashIndex.Shard.Laws.{or_else}
use storage_engines.HashIndex.Engine.{find_segment}
use storage_engines.HashIndex.Recovery.{found_at, File, Latest, recover_file, recover_files}
use storage_engines.HashIndex.Recovery.Scan.{
  Rec, RecFits, rec_size, bytes_of, indexed, scan-bytes_of, parse_at-bytes_of, front_step,
  front_length,
}

-- The value of the last record of a key.
abbrev pub last_value : Bytes → List Rec → Option Bytes
last_value k [] = none
last_value k (r ∷ rs) = or_else (last_value k rs) (if key_eq r.key k then some r.value else none)

-- The entry is that of a record of the file which has the key and the value.
record Points (file : Bytes) (id : ℕ) (k v : Bytes) (e : IndexEntry) : Type 0 where
  in_file : e.segment_id ≡ id
  some_size : 1 ≤ e.size
  parsed : parse_at (some file) e.offset ≡ ok (k, v)

-- What a scan says of a key: the entry of its last record, or what was known before.
Knows : Bytes → ℕ → Bytes → List Rec → Option IndexEntry → Option IndexEntry → Type 0
Knows file id k rs before after =
    ((last_value k rs ≡ none) × (after ≡ before))
    ⊎ ((v : Bytes) × (e : IndexEntry) × (last_value k rs ≡ some v)
        × (after ≡ some e)
        × Points file id k v e)

indexed-Knows :
    (rs : List Rec) (front : Bytes) (id now offset : ℕ) (latest : Latest) (k : Bytes)
    → All RecFits rs
    → offset ≡ length front
    → Knows
        (front ++ bytes_of rs)
        id
        k
        rs
        (lookup k latest)
        (lookup k (indexed id now offset rs latest))
unfolding indexed Knows
indexed-Knows [] front id now offset latest k fs at = inl (refl, refl)
indexed-Knows (r ∷ rs) front id now offset latest k fs at =
    elim (indexed-Knows rs (front ++ record_bytes r.time r.key r.value) id now (offset + rec_size r)
      (insert r.key (found_at id offset (offset + rec_size r) now) latest) k fs.1
      (omega (arith, at, front_length front r fs.0))) [
        | inr (v, e, last, after, p) ↦
            inr (v, e, rw last refl, after, rw (← front_step front r rs) p)
        | inl (last, after) ↦ elim (Bool-cases (key_eq r.key k)) [
          | inl hit ↦ inr (
            r.value,
            found_at id offset (offset + rec_size r) now,
            rw (last, hit) refl,
            after
                ∙ rw
                    (
                      lookup-insert k r.key (found_at id offset (offset + rec_size r) now) latest,
                      hit,
                    )
                    refl,
            record {
              in_file = refl;
              some_size = omega (arith, fs.0.1);
              parsed = rw (at, ← key_eq_sound r.key k hit) (parse_at-bytes_of front r rs fs.0);
            },
          )
          | inr miss ↦ inl (
            rw (last, miss) refl,
            after
                ∙ rw
                    (
                      lookup-insert k r.key (found_at id offset (offset + rec_size r) now) latest,
                      miss,
                    )
                    refl,
          )
        ]
      ]

-- A directory: the ids of its files, with the records that each was written with.
abbrev pub Dir : Type 0
Dir = List (ℕ × List Rec)

abbrev pub file_of : ℕ × List Rec → File
file_of f = (f.0, bytes_of f.1)

abbrev pub records_of : Dir → List Rec
records_of [] = []
records_of (f ∷ d) = f.1 ++ records_of d

abbrev pub DirFits : Dir → Type 0
DirFits d = All (λ f. All RecFits f.1) d

-- A later file has a greater id.
abbrev pub IsIncreasing : Dir → Type 0
IsIncreasing [] = Unit
IsIncreasing (f ∷ d) = All (λ g. f.0 < g.0) d × IsIncreasing d

abbrev pub opened : ℕ × List Rec → Segment
opened f = record (new_segment f.0 (bytes_of f.1)) { size = length (bytes_of f.1) }

pub opened-IsOpen : (f : ℕ × List Rec) → IsOpen (opened f) (bytes_of f.1)
unfolding new_segment
opened-IsOpen f = record { opened = refl; holds = refl; sized = refl; held = omega arith }

recover_file_lem :
    (f : ℕ × List Rec) (now : ℕ) (latest : Latest)
    → All RecFits f.1
    → recover_file (file_of f) now latest ≡ ok (opened f, indexed f.0 now 0 f.1 latest)
unfolding recover_file new_segment
recover_file_lem (id, rs) now latest fs =
    scan-bytes_of rs (length (bytes_of rs)) (opened (id, rs)) [] (length (bytes_of rs)) 0 now latest
      fs (opened-IsOpen (id, rs)) refl refl (omega arith)

unfoldable pub indexed_all : Dir → ℕ → Latest → Latest
indexed_all [] now latest = latest
indexed_all (f ∷ d) now latest = indexed_all d now (indexed f.0 now 0 f.1 latest)

pub recover_files_lem :
    (d : Dir) (now : ℕ) (latest : Latest)
    → DirFits d
    → recover_files (map file_of d) now latest ≡ ok (map opened d, indexed_all d now latest)
unfolding recover_files indexed_all
recover_files_lem [] now latest fs = refl
recover_files_lem (f ∷ d) now latest fs =
    rw (recover_file_lem f now latest fs.0)
      (rw (recover_files_lem d now (indexed f.0 now 0 f.1 latest) fs.1) refl)

-- What the segments hold at an entry.
pub record Reads (segs : List Segment) (e : IndexEntry) (v : Bytes) : Type 0 where
  pub segment : Segment
  pub found : find_segment segs e.segment_id ≡ some segment
  pub reads : (Segment.read segment e.offset).0 ≡ ok v

unfoldable pub KnowsAll : Dir → Bytes → Option IndexEntry → Option IndexEntry → Type 0
KnowsAll d k before after =
    ((last_value k (records_of d) ≡ none) × (after ≡ before))
    ⊎ ((v : Bytes) × (e : IndexEntry) × (last_value k (records_of d) ≡ some v)
        × (after ≡ some e)
        × Reads (map opened d) e v)

pub or_else-none {ℓ} : {A : Type ℓ} (o : Option A) → or_else o none ≡ o
or_else-none none = refl
or_else-none (some v) = refl

or_else_assoc : (o p q : Option Bytes) → or_else (or_else o p) q ≡ or_else o (or_else p q)
or_else_assoc none p q = refl
or_else_assoc (some v) p q = refl

last_value-append :
    (k : Bytes) (rs qs : List Rec)
    → last_value k (rs ++ qs) ≡ or_else (last_value k qs) (last_value k rs)
last_value-append k [] qs = sym (or_else-none (last_value k qs))
last_value-append k (r ∷ rs) qs =
    rw (last_value-append k rs qs) (or_else_assoc (last_value k qs) (last_value k rs) _)

Points-Reads :
    (f : ℕ × List Rec) (ss : List Segment) (k v : Bytes) (e : IndexEntry)
    → Points (bytes_of f.1) f.0 k v e
    → Reads (opened f ∷ ss) e v
unfolding find_segment new_segment
Points-Reads f ss k v e p = record {
  segment = opened f;
  found = ground (arith, p.in_file, ==_refl f.0);
  reads = rw (read-open (opened f) (bytes_of f.1) e.offset (opened-IsOpen f), p.parsed) refl;
}

find_segment-later :
    (id : ℕ) (d : Dir) (s : Segment)
    → All (λ g. id < g.0) d
    → find_segment (map opened d) id ≡ some s
    → ⊥
unfolding find_segment new_segment
find_segment-later id [] s a h = ground arith
find_segment-later id (f ∷ d) s a h = ground (arith, a.0, find_segment-later id d s a.1)

Reads-later :
    (f : ℕ × List Rec) (d : Dir) (v : Bytes) (e : IndexEntry)
    → All (λ g. f.0 < g.0) d
    → Reads (map opened d) e v
    → Reads (map opened (f ∷ d)) e v
unfolding find_segment new_segment
Reads-later f d v e a r = record {
  segment = r.segment;
  found = ground (arith, r.found, find_segment-later f.0 d r.segment a);
  reads = r.reads;
}

pub indexed_all-Knows :
    (d : Dir) (now : ℕ) (latest : Latest) (k : Bytes)
    → DirFits d
    → IsIncreasing d
    → KnowsAll d k (lookup k latest) (lookup k (indexed_all d now latest))
unfolding indexed_all KnowsAll Knows
indexed_all-Knows [] now latest k fs inc = inl (refl, refl)
indexed_all-Knows (f ∷ d) now latest k fs inc =
    elim (indexed_all-Knows d now (indexed f.0 now 0 f.1 latest) k fs.1 inc.1) [
      | inr (v, e, last, after, r) ↦ inr (
        v,
        e,
        rw (last_value-append k f.1 (records_of d), last) refl,
        after,
        Reads-later f d v e inc.0 r,
      )
      | inl (last, after) ↦ elim (indexed-Knows f.1 [] f.0 now 0 latest k fs.0 refl) [
        | inl (last', after') ↦
            inl (rw (last_value-append k f.1 (records_of d), last, last') refl, after ∙ after')
        | inr (v, e, last', after', p) ↦ inr (
          v,
          e,
          rw (last_value-append k f.1 (records_of d), last, last') refl,
          after ∙ after',
          Points-Reads f (map opened d) k v e p,
        )
      ]
    ]
