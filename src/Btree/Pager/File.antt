-- ===== src/Btree/Pager/File.antt =====
-- The pages in the file of a pager, and what the write of a page changes.
use storage_engines.Base.{
  Bool-cases, Option, [], ap, arith, drop, false, if◌then◌else◌, inl, inr, length, length-append,
  length-drop, length-replicate, length-take, le→ltb_false, ltb, ltb_false→le, ltb→lt, none,
  replicate, some, sym, take, ℕ, ◌*◌, ◌++◌, ◌+◌, ◌-◌, ◌∙◌, ◌≡◌, ◌≢◌, ◌≤◌,
}
use storage_engines.Bytes.{Bytes}
use storage_engines.Bytes.Slice.{slice, slice-prefix}
use storage_engines.Bytes.Patch.{
  length-patch_any, slice-patch_before, slice-patch_behind, slice-patch_here,
}
use storage_engines.Btree.Page.{page_size}
use storage_engines.Btree.Wal.{write_at}

-- The bytes of a page in the file, if they are all there.
unfoldable pub stored : Bytes → ℕ → Option Bytes
unfolding slice
stored file id =
    if ltb (length file) (id * page_size + page_size)
    then none
    else some (slice (id * page_size) page_size file)

abbrev padded : Bytes → ℕ → Bytes
padded file offset = file ++ replicate (offset - length file) 0

length-padded : (file : Bytes) (offset : ℕ) → offset ≤ length (padded file offset)
length-padded file offset = omega (
  arith,
  length-append file (replicate (offset - length file) 0),
  length-replicate {A = ℕ} (offset - length file) 0,
)

module _ (file content : Bytes) (id : ℕ) (size : length content ≡ page_size) where
  after : Bytes
  unfolding write_at
  after = write_at file content (id * page_size)

  length-after : (length file ≤ length after) × (id * page_size + page_size ≤ length after)
  unfolding after write_at
  length-after =
      let total =
        length-patch_any (padded file (id * page_size)) (id * page_size) content
          (length-padded file (id * page_size)) in
      let more = length-append file (replicate (id * page_size - length file) 0) in
      (omega (arith, size, total, more), omega (arith, size, total, more))

  pub stored-write_here : stored (write_at file content (id * page_size)) id ≡ some content
  unfolding stored after write_at
  stored-write_here = rw (le→ltb_false (length after) (id * page_size + page_size) length-after.1) (
      ap some (
        slice-patch_here (padded file (id * page_size)) (id * page_size) page_size content
          (length-padded file (id * page_size)) size))

  slice-after :
      (j : ℕ)
      → j ≢ id
      → j * page_size + page_size ≤ length file
      → slice (j * page_size) page_size after ≡ slice (j * page_size) page_size file
  unfolding after write_at
  slice-after j ne h = elim (Bool-cases (ltb j id)) [
    | inl t ↦
        slice-patch_before (padded file (id * page_size)) (id * page_size) (j * page_size) page_size
          content (length-padded file (id * page_size)) (omega (arith, ltb→lt j id t))
        ∙ slice-prefix (j * page_size) page_size file (replicate (id * page_size - length file) 0) h
    | inr t ↦
        slice-patch_behind (padded file (id * page_size)) (id * page_size) (j * page_size) page_size
          content (length-padded file (id * page_size))
          (omega (arith, size, ltb_false→le j id t, ne))
        ∙ slice-prefix (j * page_size) page_size file (replicate (id * page_size - length file) 0) h
  ]

  pub stored-write_other :
      (j : ℕ) (b : Bytes)
      → j ≢ id
      → stored file j ≡ some b
      → stored (write_at file content (id * page_size)) j ≡ some b
  unfolding stored after write_at
  stored-write_other j b ne e = elim (Bool-cases (ltb (length file) (j * page_size + page_size))) [
    | inl t ↦ absurd (ground (arith, e))
    | inr t ↦
        let h : j * page_size + page_size ≤ length file =
          ltb_false→le (length file) (j * page_size + page_size) t in
        rw
          (le→ltb_false (length after) (j * page_size + page_size)
            (omega (arith, h, length-after.0)))
          (ap some (slice-after j ne h) ∙ (rw t at e))
  ]

abbrev pub bytes_of : Option Bytes → Bytes
bytes_of none = []
bytes_of (some b) = b

-- A page that is stored is there as a whole.
pub stored-slice :
    (file b : Bytes) (j : ℕ)
    → stored file j ≡ some b
    → (ltb (length file) (j * page_size + page_size) ≡ false)
      × (slice (j * page_size) page_size file ≡ b)
      × (length b ≡ page_size)
unfolding stored slice
stored-slice file b j e = elim (Bool-cases (ltb (length file) (j * page_size + page_size))) [
  | inl t ↦ absurd (ground (arith, e))
  | inr t ↦
      let whole : j * page_size + page_size ≤ length file =
        ltb_false→le (length file) (j * page_size + page_size) t in
      let there : slice (j * page_size) page_size file ≡ b = ap bytes_of (rw t at e) in
      (t, there, ap (λ (x : Bytes). length x) (sym there) ∙ length_slice (j * page_size) file whole)
]
  where
    length_slice :
        (o : ℕ) (f : Bytes)
        → o + page_size ≤ length f
        → length (take page_size (drop o f)) ≡ page_size
    length_slice o f h = omega (arith, length-take page_size (drop o f), length-drop o f)
