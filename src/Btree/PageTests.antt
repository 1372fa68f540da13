-- ===== src/Btree/PageTests.antt =====
-- Runs of the pages and nodes of btree/ at concrete inputs.
use storage_engines.Base.{
  [], ap, arith, err, false, if◌then◌else◌, key_not_found, length, none, ok, page_full, panic_index,
  refl, replicate, some, true, ◌++◌, ◌<◌, ◌^◌, ◌∷◌, ◌≡◌,
}
use storage_engines.Base.Int.{negsuc}
use storage_engines.Bytes.{Bytes}
use storage_engines.Bytes.Order.{compare_bytes, key_eq}
use storage_engines.Btree.Page.{
  Cell, Page, Result, cell_size, delete_cell, free_ptr, insert_cell, is_full, is_leaf, new_page,
  page_type_internal, page_type_leaf, parse_cell, search_cell, value_size, write_cell,
}
use storage_engines.Btree.Page.Encoded.{encoded, IsCell}
use storage_engines.Btree.Page.Spec.{IsAscending, find_place, put_in}
use storage_engines.Btree.Page.Invariant.{IsSuccessor, Represents, new_page-Represents}
use storage_engines.Btree.Page.Search.{search_cell-find_place}
use storage_engines.Btree.Page.Delete.{delete_cell-Represents}
use storage_engines.Btree.Page.Insert.{insert_cell-encoded, insert_cell-put_in}
use storage_engines.Btree.Page.RoundTrip.{parse_cell-write_cell}
use storage_engines.Btree.Node.{
  delete_from_leaf, find_child, get_child_page_id, insert_into_leaf, internal_cell, leaf_cell,
  search_leaf,
}
use storage_engines.Btree.Node.Leaf.{
  find_cell, search_leaf-delete_from_leaf, search_leaf-find_cell, search_leaf-insert_into_leaf,
}
use storage_engines.Btree.Node.Child.{find_child-last_child, last_child}

abbrev cell_b : Cell
cell_b = leaf_cell (2 ∷ []) (20 ∷ 21 ∷ [])

abbrev cell_a : Cell
cell_a = leaf_cell (1 ∷ []) (10 ∷ [])

abbrev leaf_page : Page
leaf_page = new_page 7 page_type_leaf

leaf_cell-IsCell :
    (p : Page) (k v : Bytes)
    → is_leaf p ≡ true
    → length k < 2 ^ 16
    → length v < 2 ^ 16
    → IsCell (is_leaf p) (leaf_cell k v)
leaf_cell-IsCell p k v e hk hv = record {
  key_short = hk;
  value_short = hv;
  child_short = omega arith;
  leaf_child = λ f. refl;
  internal_value = λ f. cc;
}

-- The leaf with one cell.
one_cell :
    (p' : Page) × (insert_cell leaf_page cell_b ≡ (none, p'))
    × Represents p' (cell_b ∷ [])
    × IsAscending (cell_b ∷ [])
    × IsSuccessor leaf_page p'
unfolding new_page is_leaf is_full put_in
one_cell =
    insert_cell-put_in leaf_page [] cell_b (new_page-Represents 7 page_type_leaf) tt
      (leaf_cell-IsCell leaf_page (2 ∷ []) (20 ∷ 21 ∷ []) refl (omega arith) (omega arith)) refl

abbrev one_page : Page
one_page = (insert_cell leaf_page cell_b).1

one_page-Represents : Represents one_page (cell_b ∷ [])
one_page-Represents = rw (ap (λ (r : Result). r.1) one_cell.1) one_cell.2

one_page_kind : is_leaf one_page ≡ true
unfolding insert_cell is_leaf new_page
one_page_kind = refl

one_page_room : is_full one_page 1 1 ≡ false
unfolding insert_cell is_full new_page
one_page_room = refl

a_IsCell : IsCell (is_leaf one_page) cell_a
a_IsCell = leaf_cell-IsCell one_page (1 ∷ []) (10 ∷ []) one_page_kind (omega arith) (omega arith)

a_room : is_full one_page (length cell_a.key) (value_size one_page cell_a) ≡ false
a_room = rw one_page_kind one_page_room

insert_cell-put_in_example :
    (p' : Page) × (insert_cell one_page cell_a ≡ (none, p'))
    × Represents p' (cell_a ∷ cell_b ∷ [])
    × IsAscending (cell_a ∷ cell_b ∷ [])
    × IsSuccessor one_page p'
unfolding put_in compare_bytes
insert_cell-put_in_example =
    insert_cell-put_in one_page (cell_b ∷ []) cell_a one_page-Represents (tt, tt) a_IsCell a_room

delete_cell-Represents_example :
    (p' : Page) × (delete_cell one_page 0 ≡ (none, p'))
    × Represents p' []
    × IsSuccessor one_page p'
    × (free_ptr p'.bytes ≡ free_ptr one_page.bytes)
delete_cell-Represents_example =
    delete_cell-Represents one_page (cell_b ∷ []) one_page-Represents 0 (omega arith)

search_cell-find_place_example : search_cell one_page (2 ∷ []) ≡ ok (negsuc 0)
unfolding find_place compare_bytes
search_cell-find_place_example =
    search_cell-find_place one_page (cell_b ∷ []) one_page-Represents (tt, tt) (2 ∷ [])

parse_cell-write_cell_example :
    (b : Bytes) × (write_cell (is_leaf leaf_page) leaf_page.bytes 100 cell_b ≡ ok b)
    × (parse_cell (is_leaf leaf_page) b 100 ≡ ok cell_b)
unfolding new_page is_leaf cell_size
parse_cell-write_cell_example =
    parse_cell-write_cell leaf_page 100 cell_b
      (leaf_cell-IsCell leaf_page (2 ∷ []) (20 ∷ 21 ∷ []) refl (omega arith) (omega arith)) refl
      (omega arith) (omega arith)

-- A value of 4085 bytes does not fit behind the cell that is there.
abbrev wide : Cell
wide = leaf_cell (2 ∷ []) (replicate 4085 0)

wide-IsCell : IsCell (is_leaf one_page) wide
wide-IsCell =
    leaf_cell-IsCell one_page (2 ∷ []) (replicate 4085 0) one_page_kind (omega arith) (omega arith)

insert_cell-encoded_example :
    ((insert_cell one_page wide).0 ≡ some page_full)
    × Represents (insert_cell one_page wide).1 (cell_b ∷ [])
unfolding insert_cell is_full new_page is_leaf encoded storage_engines.Btree.Page.Encoded.is_old
insert_cell-encoded_example =
    insert_cell-encoded one_page (cell_b ∷ []) wide one_page-Represents (tt, tt) wide-IsCell

found_b : search_leaf one_page (2 ∷ []) ≡ ok (20 ∷ 21 ∷ [])
unfolding find_cell compare_bytes
found_b = search_leaf-find_cell one_page (cell_b ∷ []) one_page-Represents (tt, tt) (2 ∷ [])

search_leaf-insert_into_leaf_example :
    (p' : Page) × (insert_into_leaf one_page (1 ∷ []) (10 ∷ []) ≡ (none, p'))
    × ((j : Bytes)
        → search_leaf p' j ≡ (if key_eq j (1 ∷ []) then ok (10 ∷ []) else search_leaf one_page j))
search_leaf-insert_into_leaf_example =
    search_leaf-insert_into_leaf one_page (cell_b ∷ []) (1 ∷ []) (10 ∷ []) one_page-Represents
      (tt, tt) one_page_kind (omega arith) (omega arith) one_page_room

search_leaf-delete_from_leaf_example :
    (p' : Page) × (delete_from_leaf one_page (2 ∷ []) ≡ (none, p'))
    × ((j : Bytes)
        → search_leaf p' j
          ≡ (if key_eq j (2 ∷ []) then err key_not_found else search_leaf one_page j))
search_leaf-delete_from_leaf_example =
    search_leaf-delete_from_leaf one_page (cell_b ∷ []) (2 ∷ []) (20 ∷ 21 ∷ []) one_page-Represents
      (tt, tt) found_b

-- An inner page with one separator.
abbrev inner_page : Page
inner_page = (insert_cell (new_page 3 page_type_internal) (internal_cell (5 ∷ []) 9)).1

inner_page-Represents : Represents inner_page (internal_cell (5 ∷ []) 9 ∷ [])
unfolding new_page is_leaf is_full put_in
inner_page-Represents =
    let start : Page = new_page 3 page_type_internal in
    let c : Cell = internal_cell (5 ∷ []) 9 in
    let done =
      insert_cell-put_in start [] c (new_page-Represents 3 page_type_internal) tt
        (record {
          key_short = omega arith;
          value_short = omega arith;
          child_short = omega arith;
          leaf_child = λ e. cc;
          internal_value = λ e. refl;
        })
        refl in
    rw (ap (λ (r : Result). r.1) done.1) done.2

find_child-last_child_example :
    (find_child inner_page (6 ∷ []) ≡ ok 9) × (get_child_page_id inner_page (6 ∷ []) ≡ ok 9)
unfolding last_child insert_cell is_leaf new_page compare_bytes
find_child-last_child_example =
    find_child-last_child inner_page (internal_cell (5 ∷ []) 9 ∷ []) (6 ∷ []) inner_page-Represents
      (tt, tt) refl

-- A cell of an inner page whose size is a varint of two bytes, at the last offset that is let through:
-- the integer behind it is outside of the page.
abbrev torn_page : Bytes
torn_page = replicate 9 0 ++ (2 ∷ replicate 4081 0) ++ (0x80 ∷ 1 ∷ replicate 3 0)

parse_outside : parse_cell false torn_page 4091 ≡ err panic_index
unfolding parse_cell
parse_outside = refl
