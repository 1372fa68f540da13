-- ===== src/Btree/Tree/Halved.antt =====
-- What splitLeaf does with a page: its cells are collected, and it is emptied.
use storage_engines.Base.{
  All, List, Ordering-cases, [], ap, arith, get_elem?, inl, inr, length, ok, refl, some, suc, ℕ,
  ◌++◌, ◌+◌, ◌∙◌, ◌∷◌, ◌≡◌, ◌≤◌,
}
use storage_engines.Bytes.{Bytes}
use storage_engines.Bytes.Order.{compare_bytes}
use storage_engines.Btree.Page.{
  Cell, Page, free_ptr, header_size, is_leaf, page_size, set_num_cells,
}
use storage_engines.Btree.Page.Encoded.{IsCell}
use storage_engines.Btree.Page.Header.{
  free_ptr-set_free_ptr, is_old-set_free_ptr, is_old-set_num_cells, length-set_free_ptr,
  length-set_num_cells, num_cells-set_free_ptr, num_cells-set_num_cells, right_ptr-set_free_ptr,
  right_ptr-set_num_cells,
}
use storage_engines.Btree.Page.Invariant.{IsSuccessor, Represents}
use storage_engines.Btree.Page.Rest.{IsRest, IsRest-next, IsRest-whole, cell_at-rest}
use storage_engines.Btree.Page.Spec.{put_in}
use storage_engines.Btree.Pager.Objects.{SamePage}
use storage_engines.Btree.Tree.{clear, collect, collect_cells}

collect-rest :
    (p : Page) (cells : List Cell)
    → Represents p cells
    → (rest : List Cell) (i : ℕ) → IsRest cells i rest
    → collect (length rest) p i ≡ ok rest
unfolding collect
collect-rest p cells w [] i h = refl
collect-rest p cells w (c ∷ rest) i h =
    rw
      (
        collect,
        cell_at-rest p cells w i c rest h,
        collect-rest p cells w rest (i + 1) (IsRest-next cells i c rest h),
      )
      refl

pub collect_cells-Represents :
    (p : Page) (cells : List Cell) → Represents p cells → collect_cells p ≡ ok cells
unfolding collect_cells
collect_cells-Represents p cells w =
    ap (λ (n : ℕ). collect n p 0) w.count ∙ collect-rest p cells w cells 0 (IsRest-whole cells)

All-from :
    (P : Cell → Type 0) (cells : List Cell)
    → ((i : ℕ) (c : Cell) → get_elem? cells i ≡ some c → P c)
    → All P cells
All-from P [] f = tt
All-from P (c ∷ cells) f = (f 0 c refl, All-from P cells (λ i d e. f (suc i) d e))

pub All-append : (P : Cell → Type 0) (xs ys : List Cell) → All P (xs ++ ys) → All P xs × All P ys
All-append P [] ys a = (tt, a)
All-append P (x ∷ xs) ys a = let (b, c) = All-append P xs ys a.1 in ((a.0, b), c)

pub put_in-All :
    (P : Cell → Type 0) (c : Cell) (cells : List Cell) → P c → All P cells → All P (put_in c cells)
unfolding put_in
put_in-All P c [] h a = (h, tt)
put_in-All P c (d ∷ cells) h a = elim (Ordering-cases (compare_bytes c.key d.key)) [
  | inl o ↦ rw (put_in, o) (h, a)
  | inr (inl o) ↦ rw (put_in, o) (h, a.1)
  | inr (inr o) ↦ rw (put_in, o) (a.0, put_in-All P c cells h a.1)
]

pub IsCell-All :
    (p : Page) (cells : List Cell) → Represents p cells → All (IsCell (is_leaf p)) cells
IsCell-All p cells w = All-from (IsCell (is_leaf p)) cells (λ i c e. (w.holds i c e).is_cell)

-- An emptied page keeps its number, its kind, its format and its right pointer.
module _ (p : Page) (cells : List Cell) (w : Represents p cells) where
  room : header_size ≤ length p.bytes
  room = omega (arith, w.size)

  counted : Bytes
  counted = set_num_cells p.bytes 0

  room2 : header_size ≤ length counted
  unfolding counted
  room2 = omega (arith, length-set_num_cells p.bytes 0 room (omega arith), w.size)

  pub clear-free : free_ptr (clear p).bytes ≡ page_size
  unfolding clear counted
  clear-free = free_ptr-set_free_ptr counted page_size room2 (omega arith)

  pub clear-Represents : Represents (clear p) []
  unfolding clear counted
  clear-Represents = record {
    size =
        length-set_free_ptr counted page_size room2 (omega arith)
        ∙ length-set_num_cells p.bytes 0 room (omega arith)
        ∙ w.size;
    count =
        num_cells-set_free_ptr counted page_size room2 (omega arith)
        ∙ num_cells-set_num_cells p.bytes 0 room (omega arith);
    apart = omega (arith, clear-free);
    inside = omega (arith, clear-free);
    holds = λ i c e. cc;
  }

  pub clear-IsSuccessor : IsSuccessor p (clear p)
  unfolding clear counted is_leaf
  clear-IsSuccessor = record {
    same_id = refl;
    same_kind = refl;
    same_right =
        right_ptr-set_free_ptr counted page_size room2 (omega arith)
        ∙ right_ptr-set_num_cells p.bytes 0 room (omega arith);
    same_format =
        is_old-set_free_ptr counted page_size room2 (omega arith)
        ∙ is_old-set_num_cells p.bytes 0 room (omega arith);
  }

pub Represents-same :
    (x y : Page) (cells : List Cell) → SamePage x y → Represents x cells → Represents y cells
unfolding is_leaf
Represents-same x y cells s w = record {
  size = rw s.same_bytes w.size;
  count = rw s.same_bytes w.count;
  apart = rw s.same_bytes w.apart;
  inside = rw s.same_bytes w.inside;
  holds = λ i c e. rw (s.same_bytes, s.same_type) (w.holds i c e);
}
