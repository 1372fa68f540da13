-- ===== src/HashIndex/Recovery/Torn.antt =====
-- A file whose last record was cut short by a crash.
use storage_engines.Base.{
  some, ℕ, zero, suc, ◌+◌, ◌≤◌, ◌≡◌, refl, sym, ap, ◌∙◌, true, List, [], ◌∷◌, ◌++◌, length, drop,
  ltb, arith, All, ok, err, end_of_file, inl, inr, Bool-cases, length-append, length-drop,
  append_assoc, drop-append, ltb_false→le,
}
use storage_engines.Bytes.{Bytes}
use storage_engines.Bytes.Slice.{le_at, le_at-prefix}
use storage_engines.HashIndex.Segment
use storage_engines.HashIndex.Segment.{
  Segment, parse_record, parse_at, record_bytes, new_segment, acquire, release, close_file,
}
use storage_engines.HashIndex.Segment.Record.{
  length-record_bytes, parse_record-record_bytes, key_size_whole, value_size_whole,
}
use storage_engines.HashIndex.Segment.Laws.{IsOpen}
use storage_engines.HashIndex.Recovery.{Latest, scan, recover_file}
use storage_engines.HashIndex.Recovery.Scan.{
  Rec, RecFits, rec_size, bytes_of, indexed, front_length, read_record-open, scan-bytes_of,
}

-- A nonempty proper front of a record.
pub record IsTorn (r : Rec) (front : Bytes) : Type 0 where
  pub next : ℕ
  pub back : Bytes
  pub split : record_bytes r.time r.key r.value ≡ front ++ (next ∷ back)

module _ (r : Rec) (front : Bytes) (f : RecFits r) (t : IsTorn r front) where
  room : length front + suc (length t.back) ≡ rec_size r
  room = omega (
    arith,
    length-append front (t.next ∷ t.back),
    ap (λ (b : Bytes). length b) t.split,
    length-record_bytes r.time r.key r.value f.0,
  )

  key_size_front : 20 ≤ length front → le_at 12 4 front ≡ length r.key
  key_size_front n =
      sym (le_at-prefix 12 4 front (t.next ∷ t.back) (omega arith))
      ∙ ap (le_at 12 4) (sym t.split)
      ∙ key_size_whole r.time r.key r.value f.0

  value_size_front : 20 ≤ length front → le_at 16 4 front ≡ length r.value
  value_size_front n =
      sym (le_at-prefix 16 4 front (t.next ∷ t.back) (omega arith))
      ∙ ap (le_at 16 4) (sym t.split)
      ∙ value_size_whole r.time r.key r.value f.0

  -- What is left of the record reads as the end of the file.
  parse_record_torn : parse_record front ≡ err end_of_file
  unfolding parse_record
  parse_record_torn = elim (Bool-cases (ltb (length front) 20)) [
    | inl short ↦ rw short refl
    | inr long ↦
        rw (long, key_size_front (ltb_false→le _ _ long), value_size_front (ltb_false→le _ _ long))
          (ground (arith, room, length-drop 20 front, f.0.sizes))
  ]

read_record-torn :
    (s : Segment) (file : Bytes) (offset : ℕ)
    → IsOpen s file
    → parse_record (drop offset file) ≡ err end_of_file
    → (Segment.read_record s offset).0 ≡ err end_of_file
unfolding Segment.read_record acquire release close_file parse_at
read_record-torn s file offset o h = rw (o.opened, o.holds) (rw h refl)

module _ (front : Bytes) (r : Rec) (rs : List Rec) (tail : Bytes) where
  front_step :
      (front ++ record_bytes r.time r.key r.value) ++ (bytes_of rs ++ tail)
      ≡ front ++ (bytes_of (r ∷ rs) ++ tail)
  unfolding bytes_of
  front_step = simp append_assoc

  parse_at-first :
      RecFits r
      → parse_at (some (front ++ (bytes_of (r ∷ rs) ++ tail))) (length front) ≡ ok (r.key, r.value)
  unfolding parse_at
  parse_at-first f =
      rw
        (
          ← front_step,
          append_assoc front (record_bytes r.time r.key r.value) (bytes_of rs ++ tail),
          drop-append (length front) front
              (record_bytes r.time r.key r.value ++ (bytes_of rs ++ tail)) refl,
        )
        (parse_record-record_bytes r.time r.key r.value f.0 (bytes_of rs ++ tail))

length-first :
    (r : Rec) (rs : List Rec) (tail : Bytes)
    → RecFits r
    → length (bytes_of (r ∷ rs) ++ tail) ≡ rec_size r + length (bytes_of rs ++ tail)
unfolding bytes_of
length-first r rs tail f =
    rw (append_assoc (record_bytes r.time r.key r.value) (bytes_of rs) tail) (
      omega (
        arith,
        length-append (record_bytes r.time r.key r.value) (bytes_of rs ++ tail),
        length-record_bytes r.time r.key r.value f.0,
      ))

-- The scan indexes the records and stops at a tail that reads as the end of the file.
scan-tail :
    (rs : List Rec) (fuel : ℕ) (s : Segment) (front tail : Bytes) (limit offset now : ℕ)
    (latest : Latest)
    → All RecFits rs
    → parse_record tail ≡ err end_of_file
    → IsOpen s (front ++ (bytes_of rs ++ tail))
    → limit ≡ length front + length (bytes_of rs ++ tail)
    → offset ≡ length front
    → length (bytes_of rs ++ tail) ≤ fuel
    → scan fuel s limit offset now latest ≡ ok (s, indexed s.id now offset rs latest)
unfolding scan indexed bytes_of
scan-tail [] zero s front tail limit offset now latest fs h o lim at enough =
    ground (arith, lim, at, enough)
scan-tail [] (suc fuel) s front tail limit offset now latest fs h o lim at enough =
    rw
      (read_record-torn s (front ++ tail) offset o
        (rw (at, drop-append (length front) front tail refl) h))
      (ground arith)
scan-tail (r ∷ rs) zero s front tail limit offset now latest fs h o lim at enough =
    absurd (omega (arith, length-first r rs tail fs.0, enough))
scan-tail (r ∷ rs) (suc fuel) s front tail limit offset now latest fs h o lim at enough =
    rw
      (
        more,
        read_record-open s _ offset r.key r.value o (rw at (parse_at-first front r rs tail fs.0)),
        next_offset,
      )
      (scan-tail rs fuel s (front ++ record_bytes r.time r.key r.value) tail limit
        (offset + rec_size r) now _ fs.1 h (rw (front_step front r rs tail) o)
        (omega (arith, lim, front_length front r fs.0, length-first r rs tail fs.0))
        (omega (arith, at, front_length front r fs.0))
        (omega (arith, enough, length-first r rs tail fs.0)))
  where
    next_offset : offset + 20 + length r.key + length r.value ≡ offset + rec_size r
    next_offset = omega arith

    more : ltb offset limit ≡ true
    more = ground (arith, lim, at, length-first r rs tail fs.0)

-- If a file holds a run of records that fit and then a record that was cut short, so that a nonempty
-- front of it stands there that is not whole, then recovering the file succeeds and indexes the
-- whole records as if the tail were not there; the segment keeps the tail, and its size counts it.
pub recover_file-torn :
    (id now : ℕ) (rs : List Rec) (r : Rec) (b : ℕ) (front : Bytes) (latest : Latest)
    → All RecFits rs
    → RecFits r
    → IsTorn r (b ∷ front)
    → (s : Segment) × (recover_file (id, bytes_of rs ++ (b ∷ front)) now latest
        ≡ ok (s, indexed id now 0 rs latest))
      × (recover_file (id, bytes_of rs) now latest
          ≡ ok (
            record (new_segment id (bytes_of rs)) { size = length (bytes_of rs) },
            indexed id now 0 rs latest,
          ))
      × (s.file ≡ some (bytes_of rs ++ (b ∷ front)))
      × (s.size ≡ length (bytes_of rs) + suc (length front))
unfolding recover_file new_segment
recover_file-torn id now rs r b front latest fs f t =
    let tail : Bytes = b ∷ front in
    let file : Bytes = bytes_of rs ++ tail in
    let s : Segment = record (new_segment id file) { size = length file } in
    (
      s,
      scan-tail rs (length file) s [] tail (length file) 0 now latest fs
          (parse_record_torn r tail f t)
          (record { opened = refl; holds = refl; sized = refl; held = omega arith }) (omega arith)
          refl (omega arith),
      scan-bytes_of rs (length (bytes_of rs))
          (record (new_segment id (bytes_of rs)) { size = length (bytes_of rs) }) []
          (length (bytes_of rs)) 0 now latest fs
          (record { opened = refl; holds = refl; sized = refl; held = omega arith }) refl refl
          (omega arith),
      refl,
      omega (arith, length-append (bytes_of rs) tail),
    )
