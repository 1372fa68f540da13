-- ===== src/Btree/Tree/Filled.antt =====
-- The pages of a split: the old one is emptied and gets the left cells, the new one the right cells.
use storage_engines.Base.{
  ==_refl, All, List, [], ap, arith, false, length, length-set, ok, refl, suc, true, ℕ, ◌+◌, ◌<◌,
  ◌==◌, ◌∙◌, ◌≡◌, ◌≤◌,
}
use storage_engines.Btree.Page.{
  Cell, Page, cell_dir_offset, free_ptr, is_leaf, new_page, page_size, page_type_leaf, right_ptr,
}
use storage_engines.Btree.Page.Encoded.{IsCell, is_old}
use storage_engines.Btree.Page.Invariant.{IsSuccessor, Represents, new_page-Represents}
use storage_engines.Btree.Page.Spec.{IsAscending}
use storage_engines.Btree.Pager.{Pager, blank_page, page_at, store_page}
use storage_engines.Btree.Pager.Cache.{get_or-set}
use storage_engines.Btree.Pager.Objects.{IsAllocated, SamePage}
use storage_engines.Btree.Tree.{insert_all, clear}
use storage_engines.Btree.Tree.Halved.{
  Represents-same, clear-IsSuccessor, clear-Represents, clear-free,
}
use storage_engines.Btree.Tree.Rebuild.{IsRebuilt, fill, insert_all-IsRebuilt}

-- A change of one object.
module _ (p : Pager) (a : ℕ) (page : Page) (lt : a < length p.heap) where
  pub stored_here : page_at (store_page p a page) a ≡ page
  stored_here = get_or-set p.heap a a page blank_page lt ∙ rw (==_refl a) refl

  pub stored_other : (b : ℕ) → (b == a) ≡ false → page_at (store_page p a page) b ≡ page_at p b
  stored_other b n = get_or-set p.heap a b page blank_page lt ∙ rw n refl

is_old-new_page : (id : ℕ) → is_old (new_page id page_type_leaf).bytes ≡ false
unfolding is_old new_page
is_old-new_page id = refl

free_ptr-new_page : (id : ℕ) → free_ptr (new_page id page_type_leaf).bytes ≡ page_size
unfolding free_ptr new_page
free_ptr-new_page id = refl

is_leaf-new_page : (id : ℕ) → is_leaf (new_page id page_type_leaf) ≡ true
unfolding is_leaf new_page
is_leaf-new_page id = refl

id-new_page : (id : ℕ) → (new_page id page_type_leaf).id ≡ id
unfolding new_page
id-new_page id = refl

pub lt-apart : (a n : ℕ) → a < n → ((n == a) ≡ false) × ((a == n) ≡ false)
lt-apart a n lt = (ground arith, ground arith)

SamePage-is_leaf : (x y : Page) → SamePage x y → is_leaf y ≡ is_leaf x
unfolding is_leaf
SamePage-is_leaf x y s = ap (λ (t : ℕ). t == page_type_leaf) s.same_type

pub SamePage-from : (x y z : Page) → x ≡ y → SamePage x z → SamePage y z
SamePage-from x y z e s = record {
  same_id = s.same_id ∙ ap (λ (t : Page). t.id) e;
  same_bytes = s.same_bytes ∙ ap (λ (t : Page). t.bytes) e;
  same_type = s.same_type ∙ ap (λ (t : Page). t.page_type) e;
}

-- The old page is emptied and gets the left cells.
left_filled :
    (p p1 : Pager) (a : ℕ) (cells left : List Cell)
    → a < length p.heap
    → IsAllocated p p1 page_type_leaf
    → Represents (page_at p a) cells
    → is_leaf (page_at p a) ≡ true
    → IsAscending left
    → All (IsCell true) left
    → cell_dir_offset (length left) + fill (is_old (page_at p a).bytes) true left ≤ page_size
    → (p3 : Pager) × (insert_all a left (store_page p1 a (clear (page_at p1 a))) ≡ (ok tt, p3))
      × Represents (page_at p3 a) left
      × ((page_at p3 a).id ≡ (page_at p a).id)
      × (right_ptr (page_at p3 a).bytes ≡ right_ptr (page_at p a).bytes)
      × (page_at p3 (length p.heap) ≡ new_page p.metadata.num_pages page_type_leaf)
      × (length p3.heap ≡ suc (length p.heap))
left_filled p p1 a cells left lt al w leaf sl cl fl =
    let n : ℕ = length p.heap in
    let old : Page = page_at p1 a in
    let page : Page = clear old in
    let lt1 : a < length p1.heap = omega (arith, lt, al.one_more) in
    let same : SamePage (page_at p a) old = al.old_ones a lt in
    let w1 : Represents old cells = Represents-same (page_at p a) old cells same w in
    let p2 : Pager = store_page p1 a page in
    let here : page_at p2 a ≡ page = stored_here p1 a page lt1 in
    let emptied : IsSuccessor old page = clear-IsSuccessor old cells w1 in
    let kind : is_leaf (page_at p2 a) ≡ true =
      ap is_leaf here ∙ emptied.same_kind ∙ SamePage-is_leaf (page_at p a) old same ∙ leaf in
    let format : is_old (page_at p2 a).bytes ≡ is_old (page_at p a).bytes =
      ap (λ (x : Page). is_old x.bytes) here ∙ emptied.same_format ∙ ap is_old same.same_bytes in
    let free : free_ptr (page_at p2 a).bytes ≡ page_size =
      ap (λ (x : Page). free_ptr x.bytes) here ∙ clear-free old cells w1 in
    let (p3, ran, r) =
      insert_all-IsRebuilt a left [] p2 (omega (arith, length-set p1.heap a page, lt1))
        (rw here (clear-Represents old cells w1)) sl (rw kind cl)
        (rw (kind, format, free) (omega (arith, fl))) in
    (
      p3,
      ran,
      r.represents,
      r.successor.same_id ∙ ap (λ (x : Page). x.id) here ∙ emptied.same_id ∙ same.same_id,
      r.successor.same_right
          ∙ ap (λ (x : Page). right_ptr x.bytes) here
          ∙ emptied.same_right
          ∙ ap right_ptr same.same_bytes,
      r.others n (lt-apart a n lt).0
          ∙ stored_other p1 a page lt1 n (lt-apart a n lt).0
          ∙ al.new_one,
      r.same_length ∙ length-set p1.heap a page ∙ al.one_more,
    )

-- A new page gets the right cells.
right_filled :
    (p : Pager) (n id : ℕ) (right : List Cell)
    → n < length p.heap
    → page_at p n ≡ new_page id page_type_leaf
    → IsAscending right
    → All (IsCell true) right
    → cell_dir_offset (length right) + fill false true right ≤ page_size
    → (p' : Pager) × (insert_all n right p ≡ (ok tt, p')) × IsRebuilt n right p p'
right_filled p n id right lt new_one sr cr fr =
    let kind : is_leaf (page_at p n) ≡ true = ap is_leaf new_one ∙ is_leaf-new_page id in
    let format : is_old (page_at p n).bytes ≡ false =
      ap (λ (x : Page). is_old x.bytes) new_one ∙ is_old-new_page id in
    let free : free_ptr (page_at p n).bytes ≡ page_size =
      ap (λ (x : Page). free_ptr x.bytes) new_one ∙ free_ptr-new_page id in
    insert_all-IsRebuilt n right [] p lt (rw new_one (new_page-Represents id page_type_leaf)) sr
      (rw kind cr) (rw (kind, format, free) (omega (arith, fr)))

pub filled :
    (p p1 : Pager) (a : ℕ) (cells left right : List Cell)
    → a < length p.heap
    → IsAllocated p p1 page_type_leaf
    → Represents (page_at p a) cells
    → is_leaf (page_at p a) ≡ true
    → IsAscending left
    → IsAscending right
    → All (IsCell true) left
    → All (IsCell true) right
    → cell_dir_offset (length left) + fill (is_old (page_at p a).bytes) true left ≤ page_size
    → cell_dir_offset (length right) + fill false true right ≤ page_size
    → (p3 : Pager) × (p4 : Pager) × (insert_all a left (store_page p1 a (clear (page_at p1 a)))
        ≡ (ok tt, p3))
      × (insert_all (length p.heap) right p3 ≡ (ok tt, p4))
      × Represents (page_at p4 a) left
      × Represents (page_at p4 (length p.heap)) right
      × ((page_at p4 a).id ≡ (page_at p a).id)
      × ((page_at p4 (length p.heap)).id ≡ p.metadata.num_pages)
      × (right_ptr (page_at p4 a).bytes ≡ right_ptr (page_at p a).bytes)
      × (length p4.heap ≡ suc (length p.heap))
filled p p1 a cells left right lt al w leaf sl sr cl cr fl fr =
    let n : ℕ = length p.heap in
    let (p3, ran3, w3, id3, link3, new_one, long3) =
      left_filled p p1 a cells left lt al w leaf sl cl fl in
    let (p4, ran4, r) =
      right_filled p3 n p.metadata.num_pages right (omega (arith, long3)) new_one sr cr fr in
    let kept : page_at p4 a ≡ page_at p3 a = r.others a (lt-apart a n lt).1 in
    (
      p3,
      p4,
      ran3,
      ran4,
      rw kept w3,
      r.represents,
      ap (λ (x : Page). x.id) kept ∙ id3,
      r.successor.same_id ∙ ap (λ (x : Page). x.id) new_one ∙ id-new_page p.metadata.num_pages,
      ap (λ (x : Page). right_ptr x.bytes) kept ∙ link3,
      r.same_length ∙ long3,
    )
