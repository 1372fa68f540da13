-- ===== src/Btree/Tree/Leaves.antt =====
-- The run of splitLeaf on the page objects of a pager.
use storage_engines.Base.{
  All, List, ap, arith, false, length, length-set, ok, refl, true, ℕ, ◌+◌, ◌<◌, ◌^◌, ◌∙◌, ◌∷◌, ◌≡◌,
  ◌≤◌,
}
use storage_engines.Bytes.{Bytes}
use storage_engines.Btree.Page.{
  Cell, Page, cell_at, cell_dir_offset, is_leaf, page_size, page_type_leaf, right_ptr,
  set_right_ptr,
}
use storage_engines.Btree.Page.Encoded.{IsCell, is_old}
use storage_engines.Btree.Page.Header.{right_ptr-set_right_ptr}
use storage_engines.Btree.Page.Invariant.{Represents, cell_at-Represents}
use storage_engines.Btree.Page.Linked.{set_right_ptr-Represents}
use storage_engines.Btree.Page.Spec.{IsAscending}
use storage_engines.Btree.Node.{leaf_cell}
use storage_engines.Btree.Pager.{allocate_page, Pager, mark_dirty, page_at, store_page}
use storage_engines.Btree.Pager.Objects.{
  SamePage, SamePages, SamePages-trans, allocate_page-IsAllocated, mark_dirty-SamePages,
}
use storage_engines.Btree.Tree.{collect_cells, insert_all, clear, halves, split_leaf, with_cell}
use storage_engines.Btree.Tree.Halved.{Represents-same, collect_cells-Represents}
use storage_engines.Btree.Tree.Rebuild.{fill}
use storage_engines.Btree.Tree.Filled.{SamePage-from, filled, lt-apart, stored_here, stored_other}

-- What a split leaves of the object at an address and of the new one.
pub record IsSplit (p p' : Pager) (a : ℕ) (left right : List Cell) : Type 0 where
  pub left_cells : Represents (page_at p' a) left
  pub right_cells : Represents (page_at p' (length p.heap)) right
  pub left_number : (page_at p' a).id ≡ (page_at p a).id
  pub right_number : (page_at p' (length p.heap)).id ≡ p.metadata.num_pages
  pub left_link : right_ptr (page_at p' a).bytes ≡ p.metadata.num_pages
  pub right_link : right_ptr (page_at p' (length p.heap)).bytes ≡ right_ptr (page_at p a).bytes

-- The right pointers of the two pages are set, and both are marked.
abbrev linked : Pager → ℕ → ℕ → Pager
linked p a n =
    let q = store_page p a (set_right_ptr (page_at p a) (page_at p n).id) in
    let r = store_page q n (set_right_ptr (page_at q n) (right_ptr (page_at p a).bytes)) in
    mark_dirty (mark_dirty r (page_at p a).id) (page_at p n).id

linked-SamePage :
    (p : Pager) (a n : ℕ)
    → a < n
    → n < length p.heap
    → SamePage (set_right_ptr (page_at p a) (page_at p n).id) (page_at (linked p a n) a)
      × SamePage
          (set_right_ptr (page_at p n) (right_ptr (page_at p a).bytes))
          (page_at (linked p a n) n)
linked-SamePage p a n lt lt_n =
    let (apart, apart2) = lt-apart a n lt in
    let left : Page = set_right_ptr (page_at p a) (page_at p n).id in
    let q : Pager = store_page p a left in
    let right : Page = set_right_ptr (page_at q n) (right_ptr (page_at p a).bytes) in
    let r : Pager = store_page q n right in
    let lt_q : n < length q.heap = omega (arith, length-set p.heap a left, lt_n) in
    let lt_a : a < length p.heap = omega (arith, lt, lt_n) in
    let marked : SamePages r (linked p a n) =
      SamePages-trans r (mark_dirty r (page_at p a).id) (linked p a n)
        (mark_dirty-SamePages r (page_at p a).id)
        (mark_dirty-SamePages (mark_dirty r (page_at p a).id) (page_at p n).id) in
    let at_a : page_at r a ≡ left =
      stored_other q n right lt_q a apart2 ∙ stored_here p a left lt_a in
    let at_n : page_at r n ≡ set_right_ptr (page_at p n) (right_ptr (page_at p a).bytes) =
      stored_here q n right lt_q
      ∙ ap (λ (x : Page). set_right_ptr x (right_ptr (page_at p a).bytes))
          (stored_other p a left lt_a n apart) in
    (
      SamePage-from (page_at r a) left (page_at (linked p a n) a) at_a (marked.same_page a),
      SamePage-from (page_at r n) (set_right_ptr (page_at p n) (right_ptr (page_at p a).bytes))
          (page_at (linked p a n) n) at_n (marked.same_page n),
    )

set_right_ptr-id : (p : Page) (n : ℕ) → (set_right_ptr p n).id ≡ p.id
unfolding set_right_ptr
set_right_ptr-id p n = refl

-- What one of the two pages holds behind the run.
after_link :
    (x y : Page) (cells : List Cell) (n : ℕ)
    → n < 2 ^ 32
    → Represents x cells
    → SamePage (set_right_ptr x n) y
    → Represents y cells × (y.id ≡ x.id) × (right_ptr y.bytes ≡ n)
after_link x y cells n short w s = (
  Represents-same (set_right_ptr x n) y cells s (set_right_ptr-Represents x cells n w),
  s.same_id ∙ set_right_ptr-id x n,
  ap right_ptr s.same_bytes ∙ right_ptr-set_right_ptr x n (omega (arith, w.size)) short,
)

-- The run, call by call.
ran_split :
    (p p1 p3 p4 p' : Pager) (a n : ℕ) (cells : List Cell) (first : Cell) (key value : Bytes)
    → collect_cells (page_at p a) ≡ ok cells
    → allocate_page p page_type_leaf ≡ (ok n, p1)
    → insert_all a
        (halves (with_cell (leaf_cell key value) cells)).0
        (store_page p1 a (clear (page_at p1 a)))
      ≡ (ok tt, p3)
    → insert_all n (halves (with_cell (leaf_cell key value) cells)).1 p3 ≡ (ok tt, p4)
    → linked p4 a n ≡ p'
    → cell_at (page_at p' n) 0 ≡ ok first
    → split_leaf a key value p ≡ (ok (first.key, (page_at p' n).id), p')
unfolding split_leaf
ran_split p p1 p3 p4 p' a n cells first key value e1 e2 e3 e4 e5 e6 =
    simp (e1, e2) (simp e3 (simp e4 (simp e5 (simp e6 refl))))

pub split_leaf-run :
    (p : Pager) (a : ℕ) (cells : List Cell) (key value : Bytes) (left : List Cell) (first : Cell)
    (right : List Cell)
    → a < length p.heap
    → p.closed ≡ false
    → Represents (page_at p a) cells
    → is_leaf (page_at p a) ≡ true
    → p.metadata.num_pages < 2 ^ 32
    → right_ptr (page_at p a).bytes < 2 ^ 32
    → halves (with_cell (leaf_cell key value) cells) ≡ (left, first ∷ right)
    → IsAscending left × IsAscending (first ∷ right)
    → All (IsCell true) left × All (IsCell true) (first ∷ right)
    → cell_dir_offset (length left) + fill (is_old (page_at p a).bytes) true left ≤ page_size
    → cell_dir_offset (length right + 1) + fill false true (first ∷ right) ≤ page_size
    → (p' : Pager) × (split_leaf a key value p ≡ (ok (first.key, p.metadata.num_pages), p'))
      × IsSplit p p' a left (first ∷ right)
unfolding split_leaf
split_leaf-run p a cells key value left first right lt open_now w leaf few short parts s c fl fr =
    let n : ℕ = length p.heap in
    let (p1, ran1, al) = allocate_page-IsAllocated p page_type_leaf open_now in
    let (p3, p4, ran3, ran4, wl, wr, il, ir, link, long) =
      filled p p1 a cells left (first ∷ right) lt al w leaf s.0 s.1 c.0 c.1 fl
        (omega (arith, fr)) in
    let (sl, sr) = linked-SamePage p4 a n lt (omega (arith, long)) in
    let (wl', il', ll) =
      after_link (page_at p4 a) (page_at (linked p4 a n) a) left (page_at p4 n).id
        (omega (arith, ir, few)) wl sl in
    let (wr', ir', lr) =
      after_link (page_at p4 n) (page_at (linked p4 a n) n) (first ∷ right)
        (right_ptr (page_at p4 a).bytes) (omega (arith, link, short)) wr sr in
    let separator : cell_at (page_at (linked p4 a n) n) 0 ≡ ok first =
      cell_at-Represents (page_at (linked p4 a n) n) (first ∷ right) wr' 0 in
    (
      linked p4 a n,
      ran_split p p1 p3 p4 (linked p4 a n) a n cells first key value
            (collect_cells-Represents (page_at p a) cells w) ran1
            (ap
                (λ (h : List Cell × List Cell).
                  insert_all a h.0 (store_page p1 a (clear (page_at p1 a))))
                parts
              ∙ ran3)
            (ap (λ (h : List Cell × List Cell). insert_all n h.1 p3) parts ∙ ran4) refl separator
          ∙ ap (λ (i : ℕ). (ok (first.key, i), linked p4 a n)) (ir' ∙ ir),
      record {
        left_cells = wl';
        right_cells = wr';
        left_number = il' ∙ il;
        right_number = ir' ∙ ir;
        left_link = ll ∙ ir;
        right_link = lr ∙ link;
      },
    )
