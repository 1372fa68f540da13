-- ===== src/Btree/Pager/Transparent.antt =====
-- GetPage with a cache of any size: what it answers, and what stays readable.
use storage_engines.Base.{
  Bool-cases, Option-cases, [], ap, arith, false, if◌then◌else◌, inl, inr, length, length-append,
  lt→leb_false, none, ok, refl, some, sym, true, ℕ, ◌++◌, ◌+◌, ◌<◌, ◌==◌, ◌∙◌, ◌∷◌, ◌≡◌,
}
use storage_engines.Base.Table.{find, find-put, member, put}
use storage_engines.Bytes.{Bytes}
use storage_engines.Bytes.Slice.{byte_at}
use storage_engines.Btree.Page.{Page, load_page, page_size}
use storage_engines.Btree.Pager.{
  Pager, add_to_cache, blank_page, get_page, page_at, read_page, touch,
}
use storage_engines.Btree.Pager.File.{bytes_of, stored, stored-slice}
use storage_engines.Btree.Pager.Cache.{
  IsCoherent, Keeps, get_or-append_new, get_or-append_old, view, view-cached, view-stored,
}
use storage_engines.Btree.Pager.Evict.{IsEvicted, Keeps-trans, room, room-IsEvicted}

-- A page that is read from the file comes into the cache.
module _ (p : Pager) (w : IsCoherent p) (i : ℕ) (page : Page) (gone : find i p.cache ≡ none)
    (number : page.id ≡ i) (size : length page.bytes ≡ page_size)
    (there : stored p.file i ≡ some page.bytes) where
  added : Pager
  unfolding put
  added = record p {
    heap = p.heap ++ (page ∷ []);
    cache = put i (length p.heap) p.cache;
    lru = i ∷ p.lru;
  }

  found_added :
      (j : ℕ) → find j added.cache ≡ (if j == i then some (length p.heap) else find j p.cache)
  unfolding added
  found_added j = find-put j i (length p.heap) p.cache

  new_page_at : page_at added (length p.heap) ≡ page
  unfolding added
  new_page_at = get_or-append_new p.heap page blank_page

  old_page_at : (a : ℕ) → a < length p.heap → page_at added a ≡ page_at p a
  unfolding added
  old_page_at a h = get_or-append_old p.heap page blank_page a h

  more : length added.heap ≡ length p.heap + 1
  unfolding added
  more = omega (arith, length-append p.heap (page ∷ []))

  same_file : added.file ≡ p.file
  unfolding added
  same_file = refl

  same_marks : added.dirty ≡ p.dirty
  unfolding added
  same_marks = refl

  new_at : (j a : ℕ) → find j added.cache ≡ some a → (j == i) ≡ true → (j ≡ i) × (a ≡ length p.heap)
  new_at j a at y = (ground arith, ground (arith, found_added j))

  old_at : (j a : ℕ) → find j added.cache ≡ some a → (j == i) ≡ false → find j p.cache ≡ some a
  old_at j a at n = ground (arith, found_added j)

  known_added :
      (j a : ℕ)
      → find j added.cache ≡ some a
      → (a < length added.heap)
        × ((page_at added a).id ≡ j)
        × (length (page_at added a).bytes ≡ page_size)
  known_added j a at = elim (Bool-cases (j == i)) [
    | inl y ↦
        let (q, new) = new_at j a at y in
        rw (q, new) (omega (arith, more), rw new_page_at number, rw new_page_at size)
    | inr n ↦
        let old = w.known j a (old_at j a at n) in
        rw (old_page_at a old.0) (omega (arith, more, old.0), old.1, old.2)
  ]

  saved_added :
      (j a : ℕ)
      → find j added.cache ≡ some a
      → member j added.dirty ≡ false
      → stored added.file j ≡ some (page_at added a).bytes
  saved_added j a at unmarked = elim (Bool-cases (j == i)) [
    | inl y ↦ let (q, new) = new_at j a at y in rw (q, new, new_page_at, same_file) there
    | inr n ↦
        let before : find j p.cache ≡ some a = old_at j a at n in
        rw (old_page_at a (w.known j a before).0, same_file)
          (w.saved j a before (sym (ap (member j) same_marks) ∙ unmarked))
  ]

  added-IsCoherent : IsCoherent added
  added-IsCoherent = record { known = known_added; saved = saved_added }

  added-Keeps : Keeps p added
  unfolding Keeps
  added-Keeps j b e = elim (Bool-cases (j == i)) [
    | inl y ↦
        let (q, same) = new_at j (length p.heap) (found_added j ∙ rw y refl) y in
        view-cached added j (length p.heap) (found_added j ∙ rw y refl)
        ∙ ap (λ (r : Page). some r.bytes) new_page_at
        ∙ sym there
        ∙ ap (stored p.file) (sym q)
        ∙ sym (view-stored p j (ap (λ (n : ℕ). find n p.cache) q ∙ gone))
        ∙ e
    | inr n ↦ elim (Option-cases (find j p.cache)) [
      | inl none_there ↦
          view-stored added j (found_added j ∙ rw n none_there)
          ∙ ap (λ (f : Bytes). stored f j) same_file
          ∙ sym (view-stored p j none_there)
          ∙ e
      | inr (a, at) ↦
          view-cached added j a (found_added j ∙ rw n at)
          ∙ ap (λ (r : Page). some r.bytes) (old_page_at a (w.known j a at).0)
          ∙ sym (view-cached p j a at)
          ∙ e
    ]
  ]

-- The page that readPage answers.
read_page-stored :
    (p : Pager) (i : ℕ) (b : Bytes)
    → i < p.metadata.num_pages
    → stored p.file i ≡ some b
    → (page : Page) × (read_page p i ≡ ok page)
      × (page.id ≡ i)
      × (page.bytes ≡ b)
      × (length b ≡ page_size)
unfolding read_page load_page
read_page-stored p i b lt e =
    let (t, there, size) = stored-slice p.file b i e in
    let whole : (length b == page_size) ≡ true = rw size refl in
    (
      record { id = i; bytes = b; page_type = byte_at 0 b; dirty = false },
      rw (lt→leb_false p.metadata.num_pages i lt, t, there, whole) refl,
      refl,
      refl,
      size,
    )

get_page-miss :
    (p : Pager) (i : ℕ) (page : Page)
    → p.closed ≡ false
    → find i p.cache ≡ none
    → read_page p i ≡ ok page
    → get_page p i ≡ (
      ok (length (room p).heap),
      record (room p) {
        heap = (room p).heap ++ (page ∷ []);
        cache = put i (length (room p).heap) (room p).cache;
        lru = i ∷ (room p).lru;
      },
    )
unfolding get_page add_to_cache
get_page-miss p i page open_now gone ran = rw (gone, ran, open_now) refl

-- If a pager is open and coherent, so that every cached page that is not marked dirty is in the file,
-- then GetPage of an allocated page that is in the cache or in the file answers a page object with its
-- bytes, whatever it evicts for it. The pager is coherent after it, and every page that could be read
-- before reads the same.
pub get_page-view :
    (p : Pager) (i : ℕ) (b : Bytes)
    → IsCoherent p
    → p.closed ≡ false
    → i < p.metadata.num_pages
    → view p i ≡ some b
    → (a : ℕ) × (p' : Pager) × (get_page p i ≡ (ok a, p'))
      × ((page_at p' a).bytes ≡ b)
      × IsCoherent p'
      × Keeps p p'
unfolding get_page added
get_page-view p i b w open_now lt e = elim (Option-cases (find i p.cache)) [
  | inr (a, at) ↦ (
    a,
    record p { lru = touch i p.lru },
    rw (open_now, at) refl,
    ap bytes_of (sym (view-cached p i a at) ∙ e),
    record { known = w.known; saved = w.saved },
    (unfold Keeps in λ j c f. f),
  )
  | inl gone ↦
      let (page, ran, number, same, size) =
        read_page-stored p i b lt (sym (view-stored p i gone) ∙ e) in
      let v : IsEvicted p (room p) = room-IsEvicted p w in
      let kept : view (room p) i ≡ some b = unfold Keeps in v.keeps i b e in
      let there : stored (room p).file i ≡ some page.bytes =
        sym (view-stored (room p) i (v.no_more i gone)) ∙ kept ∙ ap some (sym same) in
      let none_there = v.no_more i gone in
      let whole : length page.bytes ≡ page_size = ap (λ (x : Bytes). length x) same ∙ size in
      (
        length (room p).heap,
        added (room p) v.coherent i page none_there number whole there,
        get_page-miss p i page open_now gone ran,
        ap (λ (r : Page). r.bytes)
              (new_page_at (room p) v.coherent i page none_there number whole there)
            ∙ same,
        added-IsCoherent (room p) v.coherent i page none_there number whole there,
        Keeps-trans p (room p) (added (room p) v.coherent i page none_there number whole there)
            v.keeps (added-Keeps (room p) v.coherent i page none_there number whole there),
      )
]
