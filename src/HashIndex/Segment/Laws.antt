-- ===== src/HashIndex/Segment/Laws.antt =====
-- A segment is append-only: what was written is read back, now and after every later append.
use storage_engines.Base.{
  Outcome-cases, ℕ, ◌+◌, ◌≤◌, ◌≡◌, refl, sym, ap, ◌∙◌, false, [], ◌++◌, length, drop, ltb, arith,
  length-append, length-drop, append-nil, some, Outcome, ok, ◌>>=◌, Bool-cases, inl, inr,
  ltb_false→le, drop-append,
}
use storage_engines.Bytes.{Bytes}
use storage_engines.Bytes.Slice.{le_at, le_at-prefix, drop-prefix, take-prefix}
use storage_engines.HashIndex.Segment.{
  Segment, Place, u32, header_size, append, read, parse_at, parse_record, record_bytes, acquire,
  release, close_file,
}
use storage_engines.HashIndex.Segment.Record.{Fits, length-record_bytes, parse_record-record_bytes}

-- A parse that succeeds does not look past the record.
pub parse_record-append :
    (bytes more : Bytes) (r : Bytes × Bytes)
    → parse_record bytes ≡ ok r
    → parse_record (bytes ++ more) ≡ ok r
unfolding parse_record
parse_record-append bytes more r h = elim (Bool-cases (ltb (length bytes) header_size)) [
  | inl short ↦ ground (arith, short)
  | inr long ↦
      let enough : 20 ≤ length bytes = ltb_false→le _ _ long in
      rw
        (
          le_at-prefix 12 4 bytes more (omega arith),
          le_at-prefix 16 4 bytes more (omega arith),
          le_at-prefix 4 8 bytes more (omega arith),
          le_at-prefix 0 4 bytes more (omega arith),
          drop-prefix 20 bytes more enough,
        )
        (ground (
          arith,
          enough,
          length-append bytes more,
          length-append (drop 20 bytes) more,
          take-prefix (u32 (le_at 12 4 bytes + le_at 16 4 bytes)) (drop 20 bytes) more,
        ))
]

-- A successful parse has a whole header before it.
parse_record-long :
    (bytes : Bytes) (r : Bytes × Bytes) → parse_record bytes ≡ ok r → 20 ≤ length bytes
unfolding parse_record
parse_record-long bytes r h = ground arith

pub parse_at-append :
    (file more : Bytes) (offset : ℕ) (r : Bytes × Bytes)
    → parse_at (some file) offset ≡ ok r
    → parse_at (some (file ++ more)) offset ≡ ok r
unfolding parse_at
parse_at-append file more offset r h =
    rw
      (drop-prefix offset file more
        (omega (arith, parse_record-long (drop offset file) r h, length-drop offset file)))
      (parse_record-append (drop offset file) more r h)

-- A segment in use: its file is open, its size is that of the file, and its maker holds it.
pub record IsOpen (s : Segment) (file : Bytes) : Type 0 where
  pub opened : s.closed ≡ false
  pub holds : s.file ≡ some file
  pub sized : s.size ≡ length file
  pub held : 1 ≤ s.ref_count

-- Reading an open segment leaves it as it was.
pub read-open :
    (s : Segment) (file : Bytes) (offset : ℕ)
    → IsOpen s file
    → read s offset ≡ ((do (key, value) ← parse_at (some file) offset; ok value), s)
unfolding read acquire release close_file
read-open s file offset o = ground (arith, o.opened, o.holds, o.held)

abbrev appended : Segment → Bytes → ℕ → Bytes → Bytes → Segment
appended s file now key value = record s {
  file = some (file ++ record_bytes now key value);
  size = s.size + (20 + length key + length value);
}

append-open :
    (s : Segment) (file : Bytes) (now : ℕ) (key value : Bytes)
    → IsOpen s file
    → append s now key value
      ≡ ok ((s.size, u32 (20 + length key + length value)), appended s file now key value)
unfolding append
append-open s file now key value o = ground (arith, o.opened, o.holds)

appended-IsOpen :
    (s : Segment) (file : Bytes) (now : ℕ) (key value : Bytes)
    → Fits now key value
    → IsOpen s file
    → IsOpen (appended s file now key value) (file ++ record_bytes now key value)
appended-IsOpen s file now key value f o = record {
  opened = o.opened;
  holds = refl;
  sized = omega (
    arith,
    o.sized,
    length-append file (record_bytes now key value),
    length-record_bytes now key value f,
  );
  held = o.held;
}

-- What one append has done: the segment is in use, the new record is parsed at the offset that was
-- returned, and every record that was parsed before is parsed as before.
pub record Appended (s new : Segment) (file : Bytes) (key value : Bytes) (place : Place)
    : Type 0 where
  pub new_file : Bytes
  pub in_use : IsOpen new new_file
  pub same_id : new.id ≡ s.id
  pub offset : place.0 ≡ s.size
  pub written : parse_at (some new_file) place.0 ≡ ok (key, value)
  pub kept :
      (offset : ℕ) (r : Bytes × Bytes)
      → parse_at (some file) offset ≡ ok r
      → parse_at (some new_file) offset ≡ ok r

pub append_lem :
    (s : Segment) (file : Bytes) (now : ℕ) (key value : Bytes)
    → IsOpen s file
    → Fits now key value
    → (place : Place) × (new : Segment) × (append s now key value ≡ ok (place, new))
      × Appended s new file key value place
append_lem s file now key value o f = (
  (s.size, u32 (20 + length key + length value)),
  appended s file now key value,
  append-open s file now key value o,
  record {
    new_file = file ++ record_bytes now key value;
    in_use = appended-IsOpen s file now key value f o;
    same_id = refl;
    offset = refl;
    written = rw o.sized (
        unfold parse_at in
        (rw
          (
            drop-append (length file) file (record_bytes now key value) refl,
            ← append-nil (record_bytes now key value),
          )
          (parse_record-record_bytes now key value f [])));
    kept = λ offset r h. parse_at-append file (record_bytes now key value) offset r h;
  },
)

read_kept :
    (file new_file : Bytes) (offset : ℕ) (v : Bytes)
    → ((offset : ℕ) (r : Bytes × Bytes)
        → parse_at (some file) offset ≡ ok r
        → parse_at (some new_file) offset ≡ ok r)
    → (do (key, value) ← parse_at (some file) offset; ok value) ≡ ok v
    → (do (key, value) ← parse_at (some new_file) offset; ok value) ≡ ok v
read_kept file new_file offset v kept h = elim (Outcome-cases (parse_at (some file) offset)) [
  | inl (r, e) ↦ rw (kept offset r e) (rw e at h)
  | inr (x, e) ↦ cc (rw e at h)
]

-- Appending to a segment in use a record whose sizes and time fit their fields succeeds; reading at
-- the offset that it returns gives the value, and every earlier read that gave a value gives the
-- same value. Reads leave the segment as it is.
pub read-append :
    (s : Segment) (file : Bytes) (now : ℕ) (key value : Bytes)
    → IsOpen s file
    → Fits now key value
    → (place : Place) × (new : Segment) × (append s now key value ≡ ok (place, new))
      × (read new place.0 ≡ (ok value, new))
      × ((offset : ℕ) (v : Bytes) → read s offset ≡ (ok v, s) → read new offset ≡ (ok v, new))
read-append s file now key value o f =
    let (place, new, e, a) = append_lem s file now key value o f in
    (
      place,
      new,
      e,
      rw (read-open new a.new_file place.0 a.in_use, a.written) refl,
      λ offset v h.
          rw
            (
              read-open new a.new_file offset a.in_use,
              read_kept file a.new_file offset v a.kept
                  (ap (λ (p : Outcome Bytes × Segment). p.0) (sym (read-open s file offset o) ∙ h)),
            )
            refl,
    )

-- The value of a read that succeeded stays the same behind an append.
pub read-Appended :
    (s new : Segment) (file key value : Bytes) (place : Place) (offset : ℕ) (v : Bytes)
    → IsOpen s file
    → Appended s new file key value place
    → (read s offset).0 ≡ ok v
    → (read new offset).0 ≡ ok v
read-Appended s new file key value place offset v o a h =
    rw (read-open new a.new_file offset a.in_use)
      (read_kept file a.new_file offset v a.kept (rw (read-open s file offset o) at h))

pub read-Appended_new :
    (s new : Segment) (file key value : Bytes) (place : Place)
    → Appended s new file key value place
    → (read new place.0).0 ≡ ok value
read-Appended_new s new file key value place a =
    rw (read-open new a.new_file place.0 a.in_use, a.written)
