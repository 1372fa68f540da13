-- ===== src/Btree/SplitTests.antt =====
-- A run of splitLeaf at a concrete input.
use storage_engines.Base.{
  All, List, [], ap, arith, false, length, none, ok, refl, true, ◌++◌, ◌+◌, ◌<◌, ◌^◌, ◌≡◌, ◌≤◌, ◌∷◌,
}
use storage_engines.Bytes.Order.{compare_bytes}
use storage_engines.Btree.Page.{
  page_size, right_ptr, Result, is_full, Cell, Page, insert_cell, is_leaf, new_page, page_type_leaf,
}
use storage_engines.Btree.Page.Encoded.{encoded, is_old}
use storage_engines.Btree.Page.Insert.{insert_cell-put_in}
use storage_engines.Btree.Page.Invariant.{Represents, new_page-Represents}
use storage_engines.Btree.Page.Spec.{Above, put_in}
use storage_engines.Btree.Node.{leaf_cell}
use storage_engines.Btree.Node.Leaf.{find_cell}
use storage_engines.Btree.Pager.{Pager, create_pager}
use storage_engines.Btree.Tree.{halves, split_leaf, with_cell}
use storage_engines.Btree.Tree.Rebuild.{fill}
use storage_engines.Btree.Tree.Leaves.{IsSplit}
use storage_engines.Btree.Tree.Divided.{split_leaf-put_in, taken}

abbrev cell_1 : Cell
cell_1 = leaf_cell (1 ∷ []) (10 ∷ [])

abbrev one_page : Page
one_page = (insert_cell (new_page 1 page_type_leaf) cell_1).1

one_page-Represents : Represents one_page (cell_1 ∷ [])
unfolding new_page is_leaf is_full put_in
one_page-Represents =
    let start : Page = new_page 1 page_type_leaf in
    let done =
      insert_cell-put_in start [] cell_1 (new_page-Represents 1 page_type_leaf) tt
        (record {
          key_short = omega arith;
          value_short = omega arith;
          child_short = omega arith;
          leaf_child = λ e. refl;
          internal_value = λ e. cc;
        })
        refl in
    rw (ap (λ (r : Result). r.1) done.1) done.2

-- A pager with that page as its only object.
abbrev holder : Pager
holder = record (create_pager 1) { heap = one_page ∷ [] }

one_page-leaf : is_leaf one_page ≡ true
unfolding insert_cell new_page is_leaf
one_page-leaf = refl

new_key : find_cell (2 ∷ []) (cell_1 ∷ []) ≡ none
unfolding find_cell compare_bytes
new_key = refl

few_pages : right_ptr one_page.bytes < 2 ^ 32
unfolding insert_cell new_page right_ptr
few_pages = omega arith

abbrev two_cells : List Cell
two_cells = with_cell (leaf_cell (2 ∷ []) (20 ∷ [])) (cell_1 ∷ [])

left_room : taken (is_old one_page.bytes) (halves two_cells).0 ≤ page_size
unfolding insert_cell new_page is_old halves with_cell fill encoded compare_bytes
left_room = omega arith

right_room : taken false (halves two_cells).1 ≤ page_size
unfolding halves with_cell fill encoded compare_bytes
right_room = omega arith

split_leaf-put_in_example :
    (left : List Cell) × (first : Cell) × (right : List Cell) × (p' : Pager) × (split_leaf 0
        (2 ∷ [])
        (20 ∷ [])
        holder
      ≡ (ok (first.key, 2), p'))
    × IsSplit holder p' 0 left (first ∷ right)
    × (left ++ (first ∷ right) ≡ put_in (leaf_cell (2 ∷ []) (20 ∷ [])) (cell_1 ∷ []))
    × All (λ (x : Cell). Above x.key (first ∷ right)) left
    × (length left ≤ length right + 1)
    × (length right ≤ length left)
unfolding create_pager
split_leaf-put_in_example =
    split_leaf-put_in holder 0 (cell_1 ∷ []) (2 ∷ []) (20 ∷ []) refl (omega arith) one_page-leaf
      one_page-Represents (tt, tt) new_key (omega arith) (omega arith) (omega arith) few_pages
      left_room right_room
