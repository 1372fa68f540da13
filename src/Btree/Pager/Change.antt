-- ===== src/Btree/Pager/Change.antt =====
-- A change of a page object in the cache, and MarkDirty after it.
use storage_engines.Base.{
  ==_refl, Bool, Bool-cases, List, Option-cases, ap, arith, false, get_or, if◌then◌else◌, inl, inr,
  length, length-set, refl, set, some, sym, true, ℕ, ◌<◌, ◌==◌, ◌∙◌, ◌≡◌, ◌≢◌,
}
use storage_engines.Base.Table.{find, include, member, member-include}
use storage_engines.Bytes.{Bytes}
use storage_engines.Btree.Page.{Page, page_size}
use storage_engines.Btree.Pager.{Pager, blank_page, mark_dirty, page_at, store_page}
use storage_engines.Btree.Pager.File.{stored}
use storage_engines.Btree.Pager.Cache.{
  IsCoherent, apart, get_or-set, view, view-cached, view-stored,
}

module _ (p : Pager) (w : IsCoherent p) (i a : ℕ) (there : find i p.cache ≡ some a) (page : Page)
    (number : page.id ≡ i) (size : length page.bytes ≡ page_size) where
  changed : Pager
  unfolding mark_dirty
  changed = mark_dirty (store_page p a page) i

  cache_changed : changed.cache ≡ p.cache
  unfolding changed mark_dirty
  cache_changed = rw there refl

  file_changed : changed.file ≡ p.file
  unfolding changed mark_dirty
  file_changed = rw there refl

  marks_changed : changed.dirty ≡ include i p.dirty
  unfolding changed mark_dirty
  marks_changed = rw there refl

  heap_changed :
      changed.heap
      ≡ set
          (set p.heap a page)
          a
          (record (get_or (set p.heap a page) a blank_page) { dirty = true })
  unfolding changed mark_dirty
  heap_changed = rw there refl

  length_changed : length changed.heap ≡ length p.heap
  length_changed =
      ap (λ (t : List Page). length t) heap_changed
      ∙ length-set (set p.heap a page) a
          (record (get_or (set p.heap a page) a blank_page) { dirty = true })
      ∙ length-set p.heap a page

  read_changed :
      (b : ℕ)
      → page_at changed b ≡ (
          if b == a
          then record (get_or (set p.heap a page) a blank_page) { dirty = true }
          else get_or (set p.heap a page) b blank_page)
  read_changed b =
      ap (λ (t : List Page). get_or t b blank_page) heap_changed
      ∙ get_or-set (set p.heap a page) a b
          (record (get_or (set p.heap a page) a blank_page) { dirty = true }) blank_page
          (omega (arith, length-set p.heap a page, (w.known i a there).0))

  here_at : page_at changed a ≡ record page { dirty = true }
  here_at =
      read_changed a
      ∙ rw (==_refl a, get_or-set p.heap a a page blank_page (w.known i a there).0, ==_refl a) refl

  other_at : (b : ℕ) → (b == a) ≡ false → page_at changed b ≡ page_at p b
  other_at b n =
      read_changed b ∙ rw (n, get_or-set p.heap a b page blank_page (w.known i a there).0, n) refl

  -- An address stands for one number.
  same_number : (j c : ℕ) → find j p.cache ≡ some c → (c == a) ≡ true → j ≡ i
  same_number j c at y =
      sym (w.known j c at).1
      ∙ ap (λ (n : ℕ). (page_at p n).id) (eq_of c a y)
      ∙ (w.known i a there).1
    where
      eq_of : (m n : ℕ) → (m == n) ≡ true → m ≡ n
      eq_of m n e = ground arith

  before : (j c : ℕ) → find j changed.cache ≡ some c → find j p.cache ≡ some c
  before j c at = sym (ap (find j) cache_changed) ∙ at

  known_changed :
      (j c : ℕ)
      → find j changed.cache ≡ some c
      → (c < length changed.heap)
        × ((page_at changed c).id ≡ j)
        × (length (page_at changed c).bytes ≡ page_size)
  known_changed j c at =
      let old = w.known j c (before j c at) in
      let within : c < length changed.heap = omega (arith, old.0, length_changed) in
      elim (Bool-cases (c == a)) [
        | inr n ↦ (within, rw (other_at c n) old.1, rw (other_at c n) old.2)
        | inl y ↦
            let q : j ≡ i = same_number j c (before j c at) y in
            let r : c ≡ a = ground arith in
            (within, rw (r, here_at) (number ∙ sym q), rw (r, here_at) size)
      ]

  saved_changed :
      (j c : ℕ)
      → find j changed.cache ≡ some c
      → member j changed.dirty ≡ false
      → stored changed.file j ≡ some (page_at changed c).bytes
  saved_changed j c at unmarked =
      let still : (if j == i then true else member j p.dirty) ≡ false =
        sym (ap (member j) marks_changed ∙ member-include j i p.dirty) ∙ unmarked in
      elim (Bool-cases (c == a)) [
        | inr n ↦
            rw (file_changed, other_at c n)
              (w.saved j c (before j c at) (unmarked_before (j == i) (member j p.dirty) still))
        | inl y ↦
            let m : (j == i) ≡ true = rw (same_number j c (before j c at) y) (==_refl i) in
            let f : true ≡ false = marked_one (j == i) (member j p.dirty) m still in absurd cc
      ]
    where
      unmarked_before : (x m : Bool) → (if x then true else m) ≡ false → m ≡ false
      unmarked_before true m e = cc
      unmarked_before false m e = e

      marked_one : (x m : Bool) → x ≡ true → (if x then true else m) ≡ false → true ≡ false
      marked_one true m h e = e
      marked_one false m h e = cc

  changed-IsCoherent : IsCoherent changed
  changed-IsCoherent = record { known = known_changed; saved = saved_changed }

  -- If a pager is coherent and a page object of its cache is changed to a page of the same number and of
  -- 4096 bytes, then after MarkDirty the pager is coherent, the changed bytes are read for that
  -- number, and every other page reads the same.
  pub mark_dirty-view :
      IsCoherent (mark_dirty (store_page p a page) i)
      × ((j : ℕ)
          → view (mark_dirty (store_page p a page) i) j
            ≡ (if j == i then some page.bytes else view p j))
  unfolding changed
  mark_dirty-view = (
    changed-IsCoherent,
    λ j. elim (Option-cases (find j p.cache)) [
      | inl gone ↦
          let n : (j == i) ≡ false = ne_false j i (apart p.cache i j a there gone) in
          rw n (
            view-stored changed j (ap (find j) cache_changed ∙ gone)
            ∙ ap (λ (f : Bytes). stored f j) file_changed
            ∙ sym (view-stored p j gone))
      | inr (c, at) ↦ view-cached changed j c (ap (find j) cache_changed ∙ at) ∙ read_as j c at
    ],
  )
    where
      ne_false : (m n : ℕ) → m ≢ n → (m == n) ≡ false
      ne_false m n h = ground arith

      eq_of : (m n : ℕ) → (m == n) ≡ true → m ≡ n
      eq_of m n e = ground arith

      same_address : (c : ℕ) → find i p.cache ≡ some c → c ≡ a
      same_address c at = cc

      read_as :
          (j c : ℕ)
          → find j p.cache ≡ some c
          → some (page_at changed c).bytes ≡ (if j == i then some page.bytes else view p j)
      read_as j c at = elim (Bool-cases (j == i)) [
        | inl y ↦ let r : c ≡ a = same_address c (rw (eq_of j i y) at at) in rw (y, r, here_at) refl
        | inr n ↦ elim (Bool-cases (c == a)) [
          | inl y ↦
              let m : (j == i) ≡ true = rw (same_number j c at y) (==_refl i) in
              let f : true ≡ false = sym m ∙ n in absurd cc
          | inr u ↦ rw (n, other_at c u) (sym (view-cached p j c at))
        ]
      ]
