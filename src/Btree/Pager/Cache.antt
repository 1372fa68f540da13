-- ===== src/Btree/Pager/Cache.antt =====
-- The cache of the pager is transparent: whatever is evicted, the pages read the same.
use storage_engines.Base.{
  ==_refl, Bool-cases, List, Option, Option-cases, [], ap, arith, false, get_or, if◌then◌else◌, inl,
  inr, length, length-set, none, refl, set, some, suc, sym, zero, ℕ, ◌*◌, ◌++◌, ◌<◌, ◌==◌, ◌∙◌, ◌∷◌,
  ◌≡◌, ◌≢◌,
}
use storage_engines.Base.Table.{find, member, member-without, without}
use storage_engines.Bytes.{Bytes}
use storage_engines.Btree.Page.{Page, page_size}
use storage_engines.Btree.Wal.{write_at}
use storage_engines.Btree.Pager.{Pager, blank_page, clean, flush_cached, page_at, write_page}
use storage_engines.Btree.Pager.File.{stored, stored-write_here, stored-write_other}

-- The bytes of a page, in the cache or else in the file.
abbrev chosen : Pager → ℕ → Option ℕ → Option Bytes
chosen p id none = stored p.file id
chosen p id (some a) = some (page_at p a).bytes

unfoldable pub view : Pager → ℕ → Option Bytes
unfolding find stored
view p id = chosen p id (find id p.cache)

-- Every cached page is an object of its number, and is in the file unless it is marked.
pub record IsCoherent (p : Pager) : Type 0 where
  pub known :
      (i a : ℕ)
      → find i p.cache ≡ some a
      → (a < length p.heap) × ((page_at p a).id ≡ i) × (length (page_at p a).bytes ≡ page_size)
  pub saved :
      (i a : ℕ)
      → find i p.cache ≡ some a
      → member i p.dirty ≡ false
      → stored p.file i ≡ some (page_at p a).bytes

-- What could be read can be read.
unfoldable pub Keeps : Pager → Pager → Type 0
unfolding view
Keeps p p' = (j : ℕ) (b : Bytes) → view p j ≡ some b → view p' j ≡ some b

pub get_or-set :
    (pages : List Page) (i j : ℕ) (page blank : Page)
    → i < length pages
    → get_or (set pages i page) j blank ≡ (if j == i then page else get_or pages j blank)
get_or-set [] i j page blank h = absurd (omega arith)
get_or-set (q ∷ pages) zero zero page blank h = refl
get_or-set (q ∷ pages) zero (suc j) page blank h = ground arith
get_or-set (q ∷ pages) (suc i) zero page blank h = ground arith
get_or-set (q ∷ pages) (suc i) (suc j) page blank h =
    ground (arith, get_or-set pages i j page blank (omega arith))

pub get_or-append_old :
    (pages : List Page) (page blank : Page) (j : ℕ)
    → j < length pages
    → get_or (pages ++ (page ∷ [])) j blank ≡ get_or pages j blank
get_or-append_old [] page blank j h = absurd (omega arith)
get_or-append_old (q ∷ pages) page blank zero h = refl
get_or-append_old (q ∷ pages) page blank (suc j) h =
    get_or-append_old pages page blank j (omega arith)

pub get_or-append_new :
    (pages : List Page) (page blank : Page)
    → get_or (pages ++ (page ∷ [])) (length pages) blank ≡ page
get_or-append_new [] page blank = refl
get_or-append_new (q ∷ pages) page blank = get_or-append_new pages page blank

module _ (p : Pager) (j : ℕ) where
  pub view-cached : (c : ℕ) → find j p.cache ≡ some c → view p j ≡ some (page_at p c).bytes
  unfolding view
  view-cached c at = rw at refl

  pub view-stored : find j p.cache ≡ none → view p j ≡ stored p.file j
  unfolding view
  view-stored at = rw at refl

pub apart : (t : List (ℕ × ℕ)) (i j a : ℕ) → find i t ≡ some a → find j t ≡ none → j ≢ i
apart t i j a there at q = let r : find i t ≡ none = rw q at at in cc

-- A marked page is written, and is not marked then.
module _ (p : Pager) (w : IsCoherent p) (i a : ℕ) (there : find i p.cache ≡ some a) where
  unfoldable pub flushed : Pager
  unfolding write_page
  flushed = flush_cached p i (some a)

  pub same_page :
      (b : ℕ)
      → ((page_at flushed b).id ≡ (page_at p b).id)
        × ((page_at flushed b).bytes ≡ (page_at p b).bytes)
  unfolding flushed write_page
  same_page b =
      let e : page_at flushed b ≡ (if b == a then clean (page_at p a) else page_at p b) =
        get_or-set p.heap a b (clean (page_at p a)) blank_page (w.known i a there).0 in
      elim (Bool-cases (b == a)) [
        | inl y ↦ let at : b ≡ a = ground arith in rw (e, y, at) (refl, refl)
        | inr n ↦ rw (e, n) (refl, refl)
      ]

  file_of : flushed.file ≡ write_at p.file (page_at p a).bytes (i * page_size)
  unfolding flushed write_page
  file_of =
      ap (λ (n : ℕ). write_at p.file (page_at p a).bytes (n * page_size)) (w.known i a there).1

  pub saved_here : stored flushed.file i ≡ some (page_at p a).bytes
  saved_here = rw file_of (stored-write_here p.file (page_at p a).bytes i (w.known i a there).2)

  pub saved_other :
      (j : ℕ) (b : Bytes) → j ≢ i → stored p.file j ≡ some b → stored flushed.file j ≡ some b
  saved_other j b ne e =
      rw file_of (stored-write_other p.file (page_at p a).bytes i (w.known i a there).2 j b ne e)

  pub cache_of : flushed.cache ≡ p.cache
  unfolding flushed write_page
  cache_of = refl

  marks_of : flushed.dirty ≡ without i p.dirty
  unfolding flushed write_page
  marks_of = refl

  heap_of : length flushed.heap ≡ length p.heap
  unfolding flushed write_page
  heap_of = length-set p.heap a (clean (page_at p a))

  pub flushed-Keeps : Keeps p flushed
  unfolding Keeps
  flushed-Keeps j b e = elim (Option-cases (find j p.cache)) [
    | inl gone ↦
        view-stored flushed j (ap (find j) cache_of ∙ gone)
        ∙ saved_other j b (apart p.cache i j a there gone) (sym (view-stored p j gone) ∙ e)
    | inr (c, at) ↦
        view-cached flushed j c (ap (find j) cache_of ∙ at)
        ∙ ap some (same_page c).1
        ∙ sym (view-cached p j c at)
        ∙ e
  ]

  pub flushed-IsCoherent : IsCoherent flushed
  flushed-IsCoherent = record {
    known = λ j c at.
        let old = w.known j c (sym (ap (find j) cache_of) ∙ at) in
        (
          omega (arith, old.0, heap_of),
          (same_page c).0 ∙ old.1,
          ap (λ (t : Bytes). length t) (same_page c).1 ∙ old.2,
        );
    saved = λ j c at unmarked.
        let before : find j p.cache ≡ some c = sym (ap (find j) cache_of) ∙ at in
        elim (Bool-cases (j == i)) [
          | inl y ↦
              let q : j ≡ i = ground arith in
              let r : find i p.cache ≡ some c = rw q at before in
              let s : a ≡ c = cc in
              rw q (
                saved_here
                ∙ ap (λ (n : ℕ). some (page_at p n).bytes) s
                ∙ ap some (sym (same_page c).1))
          | inr n ↦
              let ne : j ≢ i = λ q. ground (arith, ==_refl i, ap (λ (k : ℕ). k == i) q) in
              saved_other j (page_at p c).bytes ne (
                w.saved j c before (
                  ground
                    (arith, member-without j i p.dirty, sym (ap (member j) marks_of) ∙ unmarked)))
              ∙ ap some (sym (same_page c).1)
        ];
  }

  pub unmarked_after : member i flushed.dirty ≡ false
  unmarked_after = ap (member i) marks_of ∙ ground (arith, member-without i i p.dirty)
