-- ===== src/Btree/Pager/Durable.antt =====
-- Sync: what could be read is in the file after it.
use storage_engines.Base.{
  ==_refl, Bool-cases, List, Option-cases, [], ap, arith, false, inl, inr, length, length-append,
  none, refl, some, sym, true, ℕ, ◌==◌, ◌∙◌, ◌∷◌, ◌≡◌, ◌≢◌,
}
use storage_engines.Base.Table.{find, member, member-without, without}
use storage_engines.Bytes.{Bytes}
use storage_engines.Bytes.Endian.{length-put_be}
use storage_engines.Btree.Page.{page_size}
use storage_engines.Btree.Pager.{
  Metadata, Pager, flush, flush_one, flush_pages, metadata_bytes, page_at, sync, write_metadata,
  write_page,
}
use storage_engines.Btree.Pager.File.{stored-write_other, stored}
use storage_engines.Btree.Pager.Cache.{
  view-cached, view-stored, IsCoherent, Keeps, flushed, flushed-IsCoherent, flushed-Keeps,
  same_page, saved_here, saved_other, view,
}

-- Every cached page that is not in a list of numbers is in the file.
SavedBut : Pager → List ℕ → Type 0
SavedBut p ids =
    (j c : ℕ)
    → find j p.cache ≡ some c
    → member j ids ≡ false
    → stored p.file j ≡ some (page_at p c).bytes

module _ (p : Pager) (w : IsCoherent p) (i a : ℕ) (there : find i p.cache ≡ some a) where
  one : Pager
  unfolding write_page
  one = flush_one p (some a)

  one-IsCoherent : IsCoherent one
  unfolding one flushed
  one-IsCoherent =
      let v : IsCoherent (flushed p w i a there) = flushed-IsCoherent p w i a there in
      record { known = v.known; saved = λ j c at unmarked. v.saved j c at (still j unmarked) }
    where
      still : (j : ℕ) → member j p.dirty ≡ false → member j (without i p.dirty) ≡ false
      still j h = ground (arith, member-without j i p.dirty)

  one-Keeps : Keeps p one
  unfolding one flushed Keeps view
  one-Keeps = flushed-Keeps p w i a there

  one-SavedBut : (ids : List ℕ) → SavedBut p (i ∷ ids) → SavedBut one ids
  unfolding SavedBut one flushed member
  one-SavedBut ids s j c at out = elim (Bool-cases (j == i)) [
    | inl y ↦
        let q : j ≡ i = eq_of j i y in
        let r : a ≡ c = same_address c (rw q at at) in
        rw q (
          saved_here p w i a there
          ∙ ap (λ (n : ℕ). some (page_at p n).bytes) r
          ∙ ap some (sym (same_page p w i a there c).1))
    | inr n ↦
        saved_other p w i a there j (page_at p c).bytes (ne_of j n) (s j c at (rw (n, out) refl))
        ∙ ap some (sym (same_page p w i a there c).1)
  ]
    where
      eq_of : (m n : ℕ) → (m == n) ≡ true → m ≡ n
      eq_of m n e = ground arith

      same_address : (b : ℕ) → find i p.cache ≡ some b → a ≡ b
      same_address b at = cc

      ne_of : (m : ℕ) → (m == i) ≡ false → m ≢ i
      ne_of m n q = ground (arith, ==_refl i, ap (λ (k : ℕ). k == i) q)

skip-SavedBut :
    (p : Pager) (i : ℕ) (ids : List ℕ)
    → find i p.cache ≡ none
    → SavedBut p (i ∷ ids)
    → SavedBut p ids
unfolding SavedBut member
skip-SavedBut p i ids gone s j c at out = elim (Bool-cases (j == i)) [
  | inl y ↦ let f : find i p.cache ≡ some c = rw (eq_of j y) at at in absurd cc
  | inr n ↦ s j c at (rw (n, out) refl)
]
  where
    eq_of : (m : ℕ) → (m == i) ≡ true → m ≡ i
    eq_of m e = ground arith

-- What the loop over the marked pages leaves.
record IsFlushed (p p' : Pager) : Type 0 where
  coherent : IsCoherent p'
  keeps : Keeps p p'
  saved_all : SavedBut p' []

flush_pages-IsFlushed :
    (ids : List ℕ) (p : Pager) → IsCoherent p → SavedBut p ids → IsFlushed p (flush_pages p ids)
unfolding flush_pages one
flush_pages-IsFlushed [] p w s = record {
  coherent = w;
  keeps = unfold Keeps in λ j b e. e;
  saved_all = s;
}
flush_pages-IsFlushed (i ∷ ids) p w s = elim (Option-cases (find i p.cache)) [
  | inl gone ↦ rw gone (flush_pages-IsFlushed ids p w (skip-SavedBut p i ids gone s))
  | inr (a, there) ↦ rw there (
      joined p (one p w i a there) (one-Keeps p w i a there) (
        flush_pages-IsFlushed ids (one p w i a there) (one-IsCoherent p w i a there)
          (one-SavedBut p w i a there ids s)))
]
  where
    joined : (x y : Pager) → Keeps x y → {z : Pager} → IsFlushed y z → IsFlushed x z
    joined x y k f = record {
      coherent = f.coherent;
      keeps = unfold Keeps in λ j b e. f.keeps j b (k j b e);
      saved_all = f.saved_all;
    }

-- A page that can be read is in the file then.
in_file :
    (p q : Pager)
    → IsFlushed p q
    → (j : ℕ) (b : Bytes) → view p j ≡ some b
    → stored q.file j ≡ some b
unfolding SavedBut member Keeps
in_file p q f j b e =
    let now : view q j ≡ some b = f.keeps j b e in
    elim (Option-cases (find j q.cache)) [
      | inl gone ↦ sym (view-stored q j gone) ∙ now
      | inr (c, at) ↦ f.saved_all j c at refl ∙ sym (view-cached q j c at) ∙ now
    ]

length-metadata_bytes : (m : Metadata) → length (metadata_bytes m) ≡ page_size
unfolding metadata_bytes
length-metadata_bytes m = simp (length-append, length-put_be) refl

-- If a pager is open and coherent, then Sync succeeds, and after it every page that could be read
-- before, but for page 0 of the metadata, is in the file with the same bytes.
pub sync-stored :
    (p : Pager)
    → IsCoherent p
    → p.closed ≡ false
    → (p' : Pager) × (sync p ≡ (none, p'))
      × ((j : ℕ) (b : Bytes) → j ≢ 0 → view p j ≡ some b → stored p'.file j ≡ some b)
unfolding sync flush write_metadata
sync-stored p w open_now =
    let f = flush_pages-IsFlushed p.dirty p w (unfold SavedBut in w.saved) in
    (
      write_metadata (record (flush_pages p p.dirty) { dirty = [] }),
      rw open_now refl,
      λ j b ne e.
          stored-write_other (flush_pages p p.dirty).file
            (metadata_bytes (flush_pages p p.dirty).metadata) 0
            (length-metadata_bytes (flush_pages p p.dirty).metadata) j b ne
            (in_file p (flush_pages p p.dirty) f j b e),
    )
