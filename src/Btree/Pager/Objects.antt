-- ===== src/Btree/Pager/Objects.antt =====
-- The page objects of the heap under NewPage and MarkDirty: only the dirty bit of an object changes.
use storage_engines.Base.{
  Bool, Bool-cases, List, Option, Outcome, [], ap, arith, database_closed, err, false, get_or,
  if◌then◌else◌, inl, inr, leb, length, length-append, length-set, none, ok, refl, set, some, suc,
  true, zero, ℕ, ◌++◌, ◌+◌, ◌<◌, ◌∙◌, ◌∷◌, ◌≡◌,
}
use storage_engines.Base.Table.{find, include, member}
use storage_engines.Btree.Page.{Page, new_page}
use storage_engines.Btree.Pager.{
  Pager, add_to_cache, allocate_page, blank_page, clean, evict, evict_lru, flush_cached, last,
  mark_dirty, marked, page_at, u32, write_page,
}
use storage_engines.Btree.Pager.Evict.{room}
use storage_engines.Btree.Pager.Cache.{get_or-append_new, get_or-append_old}

-- The same page but for its dirty bit.
pub record SamePage (x y : Page) : Type 0 where
  pub same_id : y.id ≡ x.id
  pub same_bytes : y.bytes ≡ x.bytes
  pub same_type : y.page_type ≡ x.page_type

SamePage-refl : (x : Page) → SamePage x x
SamePage-refl x = record { same_id = refl; same_bytes = refl; same_type = refl }

SamePage-trans : (x y z : Page) → SamePage x y → SamePage y z → SamePage x z
SamePage-trans x y z v w = record {
  same_id = w.same_id ∙ v.same_id;
  same_bytes = w.same_bytes ∙ v.same_bytes;
  same_type = w.same_type ∙ v.same_type;
}

set-SamePage :
    (pages : List Page) (a b : ℕ) (page : Page)
    → SamePage (get_or pages a blank_page) page
    → SamePage (get_or pages b blank_page) (get_or (set pages a page) b blank_page)
set-SamePage [] a b page s = SamePage-refl blank_page
set-SamePage (x ∷ pages) zero zero page s = s
set-SamePage (x ∷ pages) zero (suc b) page s = SamePage-refl (get_or pages b blank_page)
set-SamePage (x ∷ pages) (suc a) zero page s = SamePage-refl x
set-SamePage (x ∷ pages) (suc a) (suc b) page s = set-SamePage pages a b page s

pub record SamePages (p q : Pager) : Type 0 where
  pub same_length : length q.heap ≡ length p.heap
  pub same_page : (b : ℕ) → SamePage (page_at p b) (page_at q b)

SamePages-refl : (p : Pager) → SamePages p p
SamePages-refl p = record { same_length = refl; same_page = λ b. SamePage-refl (page_at p b) }

pub SamePages-trans : (p q r : Pager) → SamePages p q → SamePages q r → SamePages p r
SamePages-trans p q r v w = record {
  same_length = w.same_length ∙ v.same_length;
  same_page =
      λ b. SamePage-trans (page_at p b) (page_at q b) (page_at r b) (v.same_page b) (w.same_page b);
}

with_bit-SamePages :
    (p q : Pager) (a : ℕ) (page : Page)
    → SamePage (page_at p a) page
    → q.heap ≡ set p.heap a page
    → SamePages p q
with_bit-SamePages p q a page s e = record {
  same_length = ap (λ (t : List Page). length t) e ∙ length-set p.heap a page;
  same_page = λ b. rw e (set-SamePage p.heap a b page s);
}

pub mark_dirty-SamePages : (p : Pager) (i : ℕ) → SamePages p (mark_dirty p i)
unfolding mark_dirty
mark_dirty-SamePages p i = at_object (find i p.cache)
  where
    at_object : (o : Option ℕ) → SamePages p (marked p i o)
    at_object none = SamePages-refl p
    at_object (some a) =
        with_bit-SamePages p (marked p i (some a)) a (record (page_at p a) { dirty = true })
          (record { same_id = refl; same_bytes = refl; same_type = refl }) refl

flush_cached-SamePages : (p : Pager) (i : ℕ) (o : Option ℕ) → SamePages p (flush_cached p i o)
flush_cached-SamePages p i none = SamePages-refl p
flush_cached-SamePages p i (some a) =
    with_bit-SamePages p (flush_cached p i (some a)) a (clean (page_at p a))
      (record { same_id = refl; same_bytes = refl; same_type = refl }) (unfold write_page in refl)

evict-SamePages : (p : Pager) (o : Option ℕ) → SamePages p (evict p o)
evict-SamePages p none = SamePages-refl p
evict-SamePages p (some i) = elim (Bool-cases (member i p.dirty)) [
  | inr n ↦ rw n (record { same_length = refl; same_page = λ b. SamePage-refl (page_at p b) })
  | inl y ↦
      let s : SamePages p (flush_cached p i (find i p.cache)) =
        flush_cached-SamePages p i (find i p.cache) in
      rw y (record { same_length = s.same_length; same_page = s.same_page })
]

room-SamePages : (p : Pager) → SamePages p (room p)
room-SamePages p = elim (Bool-cases (leb p.cache_size (length p.lru))) [
  | inl y ↦ rw y (unfold evict_lru in evict-SamePages p (last p.lru))
  | inr n ↦ rw n (SamePages-refl p)
]

abbrev Allocated : Type 0
Allocated = Outcome ℕ × Pager

when_open : (b : Bool) (x y : Allocated) → b ≡ false → (if b then x else y) ≡ y
when_open b x y e = rw e refl

-- A new page object, and the old ones.
pub record IsAllocated (p p' : Pager) (page_type : ℕ) : Type 0 where
  pub new_one : page_at p' (length p.heap) ≡ new_page p.metadata.num_pages page_type
  pub old_ones : (b : ℕ) → b < length p.heap → SamePage (page_at p b) (page_at p' b)
  pub one_more : length p'.heap ≡ suc (length p.heap)

pub allocate_page-IsAllocated :
    (p : Pager) (page_type : ℕ)
    → p.closed ≡ false
    → (p' : Pager) × (allocate_page p page_type ≡ (ok (length p.heap), p'))
      × IsAllocated p p' page_type
unfolding allocate_page add_to_cache
allocate_page-IsAllocated p page_type open_now =
    let page : Page = new_page p.metadata.num_pages page_type in
    let counted : Pager = record p {
      metadata = record p.metadata { num_pages = u32 (p.metadata.num_pages + 1) };
    } in
    let r : Pager = room counted in
    let s : SamePages counted r = room-SamePages counted in
    let added : Pager = (add_to_cache counted p.metadata.num_pages page).1 in
    let p' : Pager = record added { dirty = include p.metadata.num_pages added.dirty } in
    let heap : p'.heap ≡ r.heap ++ (page ∷ []) = refl in
    let ran : allocate_page p page_type ≡ (ok (length r.heap), p') =
      when_open p.closed (err database_closed, p) (ok (length r.heap), p') open_now in
    (
      p',
      ran ∙ ap (λ (n : ℕ). (ok n, p')) s.same_length,
      record {
        new_one = rw (heap, ← s.same_length) (get_or-append_new r.heap page blank_page);
        old_ones = λ b lt.
            rw (heap, get_or-append_old r.heap page blank_page b (omega (arith, s.same_length, lt)))
              (s.same_page b);
        one_more = rw heap (omega (arith, length-append r.heap (page ∷ []), s.same_length));
      },
    )
