-- ===== src/HashIndex/Recovery/Scan.antt =====
-- Scanning a file that is a run of records.
use storage_engines.Base.{
  ◌^◌, true, drop-append, some, append_assoc, length-append, ok, ℕ, zero, suc, ◌+◌, ◌≤◌, ◌<◌, ◌≡◌,
  refl, List, [], ◌∷◌, ◌++◌, length, ltb, arith, All,
}
use storage_engines.Bytes.{Bytes}
use storage_engines.HashIndex.Segment
use storage_engines.HashIndex.Segment.{
  Segment, parse_at, record_bytes, acquire, release, close_file,
}
use storage_engines.HashIndex.Segment.Record.{Fits, length-record_bytes, parse_record-record_bytes}
use storage_engines.HashIndex.Segment.Laws.{IsOpen}
use storage_engines.HashIndex.Recovery.{insert, Latest, scan, found_at}

-- A record as it was written: its key, its value and its time.
pub record Rec : Type 0 where
  pub key : Bytes
  pub value : Bytes
  pub time : ℕ

abbrev pub rec_size : Rec → ℕ
rec_size r = 20 + length r.key + length r.value

-- The sizes and the time fit their fields, and the size of the record its own.
abbrev pub RecFits : Rec → Type 0
RecFits r = Fits r.time r.key r.value × (rec_size r < 2 ^ 32)

unfoldable pub bytes_of : List Rec → Bytes
bytes_of [] = []
bytes_of (r ∷ rs) = record_bytes r.time r.key r.value ++ bytes_of rs

-- The index that the scan builds.
unfoldable pub indexed : ℕ → ℕ → ℕ → List Rec → Latest → Latest
indexed id now offset [] latest = latest
indexed id now offset (r ∷ rs) latest =
    indexed id now (offset + rec_size r) rs
      (insert r.key (found_at id offset (offset + rec_size r) now) latest)

pub read_record-open :
    (s : Segment) (file : Bytes) (offset : ℕ) (key value : Bytes)
    → IsOpen s file
    → parse_at (some file) offset ≡ ok (key, value)
    → (Segment.read_record s offset).0 ≡ ok (key, value, offset + 20 + length key + length value)
unfolding Segment.read_record acquire release close_file
read_record-open s file offset key value o h = rw (o.opened, o.holds) (rw h refl)

-- Behind any front, the first record of a run is parsed.
pub parse_at-bytes_of :
    (front : Bytes) (r : Rec) (rs : List Rec)
    → RecFits r
    → parse_at (some (front ++ bytes_of (r ∷ rs))) (length front) ≡ ok (r.key, r.value)
unfolding parse_at bytes_of
parse_at-bytes_of front r rs f =
    rw (drop-append (length front) front (record_bytes r.time r.key r.value ++ bytes_of rs) refl)
      (parse_record-record_bytes r.time r.key r.value f.0 (bytes_of rs))

pub front_step :
    (front : Bytes) (r : Rec) (rs : List Rec)
    → (front ++ record_bytes r.time r.key r.value) ++ bytes_of rs ≡ front ++ bytes_of (r ∷ rs)
unfolding bytes_of
front_step front r rs = append_assoc front (record_bytes r.time r.key r.value) (bytes_of rs)

pub front_length :
    (front : Bytes) (r : Rec)
    → RecFits r
    → length (front ++ record_bytes r.time r.key r.value) ≡ length front + rec_size r
front_length front r f = omega (
  arith,
  length-append front (record_bytes r.time r.key r.value),
  length-record_bytes r.time r.key r.value f.0,
)

length-bytes_of :
    (r : Rec) (rs : List Rec)
    → RecFits r
    → length (bytes_of (r ∷ rs)) ≡ rec_size r + length (bytes_of rs)
unfolding bytes_of
length-bytes_of r rs f = omega (
  arith,
  length-append (record_bytes r.time r.key r.value) (bytes_of rs),
  length-record_bytes r.time r.key r.value f.0,
)

length-bytes_of_nil : length (bytes_of []) ≡ 0
unfolding bytes_of
length-bytes_of_nil = refl

-- The scan of a run of records keeps the segment and gives the index.
pub scan-bytes_of :
    (rs : List Rec) (fuel : ℕ) (s : Segment) (front : Bytes) (limit offset now : ℕ)
    (latest : Latest)
    → All RecFits rs
    → IsOpen s (front ++ bytes_of rs)
    → limit ≡ length (front ++ bytes_of rs)
    → offset ≡ length front
    → length (bytes_of rs) ≤ fuel
    → scan fuel s limit offset now latest ≡ ok (s, indexed s.id now offset rs latest)
unfolding scan indexed
scan-bytes_of [] zero s front limit offset now latest fs o lim at enough =
    ground (arith, lim, at, length-append front (bytes_of []), length-bytes_of_nil)
scan-bytes_of [] (suc fuel) s front limit offset now latest fs o lim at enough =
    ground (arith, lim, at, length-append front (bytes_of []), length-bytes_of_nil)
scan-bytes_of (r ∷ rs) zero s front limit offset now latest fs o lim at enough =
    absurd (omega (arith, length-bytes_of r rs fs.0))
scan-bytes_of (r ∷ rs) (suc fuel) s front limit offset now latest fs o lim at enough =
    rw (more, read, next_offset)
      (scan-bytes_of rs fuel s (front ++ record_bytes r.time r.key r.value) limit
        (offset + rec_size r) now _ fs.1 (rw (front_step front r rs) o)
        (rw (front_step front r rs) lim) (omega (arith, at, front_length front r fs.0))
        (omega (arith, enough, length-bytes_of r rs fs.0)))
  where
    next_offset : offset + 20 + length r.key + length r.value ≡ offset + rec_size r
    next_offset = omega arith

    more : ltb offset limit ≡ true
    more =
        ground (arith, lim, at, length-append front (bytes_of (r ∷ rs)), length-bytes_of r rs fs.0)

    read :
        (Segment.read_record s offset).0
        ≡ ok (r.key, r.value, offset + 20 + length r.key + length r.value)
    read =
        read_record-open s (front ++ bytes_of (r ∷ rs)) offset r.key r.value o
          (rw at (parse_at-bytes_of front r rs fs.0))
