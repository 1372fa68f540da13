-- ===== src/HashIndex/Recovery/Laws.antt =====
-- The engine that a directory of segment files is opened as.
use storage_engines.Base.{
  ==_iff, ◌==◌, map, Bool-cases, ℕ, ◌+◌, ◌≤◌, ◌<◌, ◌≡◌, ◌≢◌, refl, sym, ap, ◌∙◌, inl, inr, List, [],
  ◌∷◌, ◌++◌, arith, All, if◌then◌else◌, Option, none, some, Outcome, ok, err, key_not_found,
}
use storage_engines.Bytes.{Bytes}
use storage_engines.Bytes.Order.{key_eq}
use storage_engines.Bytes.Assoc.{lookup, insert, key_eq_sound}
use storage_engines.HashIndex.Segment.{Segment, new_segment}
use storage_engines.HashIndex.Segment.Laws.{IsOpen}
use storage_engines.HashIndex.Shard
use storage_engines.HashIndex.Shard.{IndexEntry, ShardedIndex}
use storage_engines.HashIndex.Shard.Laws.{
  insert-HasUniqueKeys, HasUniqueKeys, or_else, get-put as get-put_index,
}
use storage_engines.HashIndex.Engine.{HashIndex, find_segment, segment_of, get, new}
use storage_engines.HashIndex.Engine.Invariant.{
  IsValid, Holds, reply, get-Holds, get-absent, find_segment-last,
}
use storage_engines.HashIndex.Recovery.{
  new_segment, Latest, sort_files, insert_file, recover, open_dir, split_last, rebuild, install,
}
use storage_engines.HashIndex.Recovery.Scan.{Rec, RecFits, bytes_of, indexed, rec_size}
use storage_engines.HashIndex.Recovery.Known.{
  or_else-none, Dir, DirFits, IsIncreasing, file_of, records_of, last_value, opened, opened-IsOpen,
  Reads, KnowsAll, indexed_all, recover_files_lem, indexed_all-Knows,
}

-- The index of the scan has each key once, and no size of zero.
record IsSound (latest : Latest) : Type 0 where
  once : HasUniqueKeys latest
  sized : All (λ p. 1 ≤ p.1.size) latest

insert-sized :
    (k : Bytes) (e : IndexEntry) (m : Latest)
    → 1 ≤ e.size
    → All (λ p. 1 ≤ p.1.size) m
    → All (λ p. 1 ≤ p.1.size) (insert k e m)
unfolding insert
insert-sized k e [] h a = (h, tt)
insert-sized k e ((j, w) ∷ m) h a = elim (Bool-cases (key_eq j k)) [
  | inl same ↦ rw same (h, a.1)
  | inr other ↦ rw other (a.0, insert-sized k e m h a.1)
]

indexed-IsSound :
    (id now offset : ℕ) (rs : List Rec) (latest : Latest)
    → All RecFits rs
    → IsSound latest
    → IsSound (indexed id now offset rs latest)
unfolding indexed
indexed-IsSound id now offset [] latest fs s = s
indexed-IsSound id now offset (r ∷ rs) latest fs s =
    indexed-IsSound id now (offset + rec_size r) rs _ fs.1 (record {
      once = insert-HasUniqueKeys r.key _ latest s.once;
      sized = insert-sized r.key _ latest (omega (arith, fs.0.1)) s.sized;
    })

indexed_all-IsSound :
    (d : Dir) (now : ℕ) (latest : Latest)
    → DirFits d
    → IsSound latest
    → IsSound (indexed_all d now latest)
unfolding indexed_all
indexed_all-IsSound [] now latest fs s = s
indexed_all-IsSound (f ∷ d) now latest fs s =
    indexed_all-IsSound d now _ fs.1 (indexed-IsSound f.0 now 0 f.1 latest fs.0 s)

get-rebuild :
    (m : Latest) (si : ShardedIndex) (k : Bytes)
    → IsSound m
    → Shard.get (rebuild m si) k ≡ or_else (lookup k m) (Shard.get si k)
unfolding rebuild lookup
get-rebuild [] si k s = refl
get-rebuild ((j, e) ∷ m) si k s = ground (
  arith,
  s.sized.0,
  get-rebuild m (Shard.put si j e) k (record { once = s.once.1; sized = s.sized.1 }),
  get-put_index si k j e,
  s.once.0,
  key_eq_sound j k,
)

-- The split keeps the segments, in their order.
split_last-append :
    (s : Segment) (ss : List Segment) → (split_last s ss).0 ++ ((split_last s ss).1 ∷ []) ≡ s ∷ ss
unfolding split_last
split_last-append s [] = refl
split_last-append s (t ∷ ss) = ap (λ r. s ∷ r) (split_last-append t ss)

sort_files-IsIncreasing : (d : Dir) → IsIncreasing d → sort_files (map file_of d) ≡ map file_of d
unfolding sort_files insert_file
sort_files-IsIncreasing [] inc = refl
sort_files-IsIncreasing (f ∷ []) inc = refl
sort_files-IsIncreasing (f ∷ g ∷ d) inc =
    rw (sort_files-IsIncreasing (g ∷ d) inc.1) (ground (arith, inc.0.0))

abbrev sealed : ℕ × List Rec → Dir → List Segment
sealed f d = (split_last (opened f) (map opened d)).0

abbrev last : ℕ × List Rec → Dir → Segment
last f d = (split_last (opened f) (map opened d)).1

last-above :
    (id : ℕ) (g : ℕ × List Rec) (d : Dir) → All (λ h. id < h.0) (g ∷ d) → id < (last g d).id
unfolding split_last new_segment
last-above id g [] a = a.0
last-above id g (h ∷ d) a = last-above id h d a.1

sealed-apart :
    (f : ℕ × List Rec) (d : Dir)
    → IsIncreasing (f ∷ d)
    → All (λ s. s.id ≢ (last f d).id) (sealed f d)
unfolding split_last new_segment
sealed-apart f [] inc = tt
sealed-apart f (g ∷ d) inc =
    (λ h. omega (arith, h, last-above f.0 g d inc.0), sealed-apart g d inc.1)

last-IsOpen : (f : ℕ × List Rec) (d : Dir) → (file : Bytes) × IsOpen (last f d) file
unfolding split_last
last-IsOpen f [] = (bytes_of f.1, opened-IsOpen f)
last-IsOpen f (g ∷ d) = last-IsOpen g d

find_segment-front :
    (ss : List Segment) (s : Segment) (id : ℕ)
    → s.id ≢ id
    → find_segment (ss ++ (s ∷ [])) id ≡ find_segment ss id
unfolding find_segment
find_segment-front [] s id h = ground (arith, h)
find_segment-front (t ∷ ss) s id h = rw (find_segment-front ss s id h)

-- The engine finds in its active and sealed segments what stands in the whole list.
find-split :
    (ss : List Segment) (s t : Segment) (id : ℕ)
    → All (λ r. r.id ≢ s.id) ss
    → find_segment (ss ++ (s ∷ [])) id ≡ some t
    → (if s.id == id then some s else find_segment ss id) ≡ some t
find-split ss s t id apart h = elim (Bool-cases (s.id == id)) [
  | inl here ↦ rw here (sym (find_segment-last ss s apart) ∙ rw (← (==_iff s.id id).0 here) at h)
  | inr there ↦
      rw there
        (sym (find_segment-front ss s id (λ e. ground (arith, there, ==_iff s.id id, e))) ∙ h)
]

abbrev installed : ℕ → ℕ → ℕ → ℕ × List Rec → Dir → ℕ → HashIndex
installed size most fresh f d now =
    install (new size most fresh) (map opened (f ∷ d), indexed_all (f ∷ d) now [])

open_dir-installed :
    (size most fresh : ℕ) (f : ℕ × List Rec) (d : Dir) (now : ℕ)
    → DirFits (f ∷ d)
    → IsIncreasing (f ∷ d)
    → open_dir size most fresh (map file_of (f ∷ d)) now ≡ ok (installed size most fresh f d now)
unfolding open_dir recover
open_dir-installed size most fresh f d now fs inc =
    rw (sort_files-IsIncreasing (f ∷ d) inc, recover_files_lem (f ∷ d) now [] fs) refl

abbrev pub found_reply : Option Bytes → Outcome Bytes
found_reply none = err key_not_found
found_reply (some v) = reply v

lookup-nil : (k : Bytes) → lookup {V = IndexEntry} k [] ≡ none
unfolding lookup
lookup-nil k = refl

module _ (size most fresh : ℕ) (f : ℕ × List Rec) (d : Dir) (now : ℕ) (fs : DirFits (f ∷ d))
    (inc : IsIncreasing (f ∷ d)) where
  abbrev h : HashIndex
  h = installed size most fresh f d now

  get-installed : (k : Bytes) → Shard.get h.index k ≡ lookup k (indexed_all (f ∷ d) now [])
  unfolding new Shard.get Shard.new_sharded_index lookup
  get-installed k =
      get-rebuild (indexed_all (f ∷ d) now []) Shard.new_sharded_index k
        (indexed_all-IsSound (f ∷ d) now [] fs (record { once = tt; sized = tt }))
      ∙ or_else-none _

  Holds-Reads : (e : IndexEntry) (v : Bytes) → Reads (map opened (f ∷ d)) e v → Holds h e v
  unfolding segment_of
  Holds-Reads e v r = record {
    segment = r.segment;
    stands =
        find-split (sealed f d) (last f d) r.segment e.segment_id (sealed-apart f d inc)
          (rw (split_last-append (opened f) (map opened d)) r.found);
    reads = r.reads;
  }

  IsValid-installed : IsValid h
  unfolding new KnowsAll
  IsValid-installed =
      let (file, open_last) = last-IsOpen f d in
      record {
        running = refl;
        active_file = file;
        active_open = open_last;
        apart = sealed-apart f d inc;
        readable = λ k e at. elim (indexed_all-Knows (f ∷ d) now [] k fs inc) [
          | inl (none_left, after) ↦
              absurd (ground (arith, get-installed k, at, after, lookup-nil k))
          | inr (v, e', value, after, r) ↦
              let same : e' ≡ e = ground (arith, get-installed k, at, after) in
              (v, rw (← same) (Holds-Reads e' v r))
        ];
      }

  answers : (k : Bytes) → (get h k).0 ≡ found_reply (last_value k (records_of (f ∷ d)))
  unfolding KnowsAll
  answers k = elim (indexed_all-Knows (f ∷ d) now [] k fs inc) [
    | inl (none_left, after) ↦
        rw none_left
          (get-absent h k IsValid-installed.running (get-installed k ∙ after ∙ lookup-nil k))
    | inr (v, e, value, after, r) ↦
        rw value (
          get-Holds h k e v IsValid-installed.running (get-installed k ∙ after) (Holds-Reads e v r))
  ]

-- New on a directory of at least one segment file, each a run of records that fit and with ids that
-- increase in the order of the listing, succeeds with a valid engine; Get then answers under every
-- key the value of the last record of that key, over the files in the order of their ids (not found
-- if that value is empty), and not found under a key without a record.
pub open_dir_lem :
    (size most fresh : ℕ) (f : ℕ × List Rec) (d : Dir) (now : ℕ)
    → DirFits (f ∷ d)
    → IsIncreasing (f ∷ d)
    → (h : HashIndex) × (open_dir size most fresh (map file_of (f ∷ d)) now ≡ ok h)
      × IsValid h
      × ((k : Bytes) → (get h k).0 ≡ found_reply (last_value k (records_of (f ∷ d))))
open_dir_lem size most fresh f d now fs inc = (
  installed size most fresh f d now,
  open_dir-installed size most fresh f d now fs inc,
  IsValid-installed size most fresh f d now fs inc,
  answers size most fresh f d now fs inc,
)
