-- ===== src/Btree/Node.antt =====
-- btree/node.go, and the operations of btree/btree.go on one page: the search in a leaf, the insertion
-- into it, and the choice of the child to follow.
pub mod Leaf
pub mod Child
use storage_engines.Base.{
  Bool, Error, Option, Outcome, [], cell_not_found, err, false, if◌then◌else◌, key_not_found, ltb,
  none, not, ok, panic_index, panic_slice, some, suc, true, zero, ℕ, ◌+◌, ◌==◌, ◌>>=◌,
}
use storage_engines.Base.Int.{negsuc, pos, ℤ}
use storage_engines.Bytes.{Bytes}
use storage_engines.Bytes.Order.{key_le}
use storage_engines.Btree.Page.{
  Cell, Page, Result, cell_at, delete_cell, insert_cell, is_leaf, num_cells, right_ptr, search_cell,
  u16,
}

unfoldable pub search_key : Page → Bytes → Outcome ℤ
unfolding search_cell
search_key page key = search_cell page key

abbrev value_at : Page → ℤ → Outcome Bytes
value_at page (negsuc index) = cell_at page (u16 index) >>= λ cell. ok cell.value
value_at page (pos index) = err key_not_found

unfoldable pub search_leaf : Page → Bytes → Outcome Bytes
unfolding search_cell cell_at
search_leaf page key = search_cell page key >>= λ index. value_at page index

abbrev pub leaf_cell : Bytes → Bytes → Cell
leaf_cell key value = record { key = key; value = value; child = 0 }

abbrev pub internal_cell : Bytes → ℕ → Cell
internal_cell key child_page_id = record { key = key; value = []; child = child_page_id }

unfoldable pub insert_into_leaf : Page → Bytes → Bytes → Result
unfolding is_leaf insert_cell
insert_into_leaf page key value =
    if not (is_leaf page)
    then (some cell_not_found, page)
    else insert_cell page (leaf_cell key value)

unfoldable pub insert_into_internal : Page → Bytes → ℕ → Result
unfolding is_leaf insert_cell
insert_into_internal page key child_page_id =
    if is_leaf page
    then (some cell_not_found, page)
    else insert_cell page (internal_cell key child_page_id)

-- The part of `deleteFromLeaf` that changes the leaf.
abbrev deleted_at : Page → Outcome ℤ → Result
deleted_at page (err e) = (some e, page)
deleted_at page (ok (pos index)) = (some key_not_found, page)
deleted_at page (ok (negsuc index)) = delete_cell page (u16 index)

unfoldable pub delete_from_leaf : Page → Bytes → Result
unfolding search_cell delete_cell
delete_from_leaf page key = deleted_at page (search_cell page key)

abbrev pub is_panic : Error → Bool
is_panic panic_index = true
is_panic panic_slice = true
is_panic e = false

-- `err == nil && bytes.Compare(key, nextCell.Key) >= 0`
abbrev passes : Bytes → Outcome Cell → Outcome Bool
passes key (err e) = if is_panic e then err e else ok false
passes key (ok next_cell) = ok (key_le next_cell.key key)

-- Whether the key belongs behind the cell after the index `i`, where there is one.
unfoldable pub next_passes : Page → Bytes → ℕ → Outcome Bool
unfolding num_cells cell_at
next_passes page key i =
    let next : Outcome Bool = passes key (cell_at page (i + 1)) in
    if ltb (i + 1) (num_cells page.bytes) then next else ok false

-- The loops of `GetChildPageID` and `findChild` at the index `i`, on the number of rounds that are left.
-- They answer the child, or none where the loop ends.
abbrev chosen : Outcome Bool → Cell → Outcome (Option ℕ) → Outcome (Option ℕ)
chosen (err e) cell rest = err e
chosen (ok true) cell rest = rest
chosen (ok false) cell rest = ok (some cell.child)

unfoldable pub get_child_loop : ℕ → Page → Bytes → ℕ → Outcome (Option ℕ)
unfolding cell_at next_passes
get_child_loop zero page key i = ok none
get_child_loop (suc n) page key i =
    let rest = get_child_loop n page key (i + 1) in
    do
      cell ← cell_at page i
      (if key_le cell.key key then chosen (next_passes page key i) cell rest else rest)

unfoldable pub get_child_page_id : Page → Bytes → Outcome ℕ
unfolding is_leaf num_cells right_ptr get_child_loop
get_child_page_id page key =
    let right : Outcome ℕ =
      if right_ptr page.bytes == 0 then err cell_not_found else ok (right_ptr page.bytes) in
    let found : Outcome ℕ = get_child_loop (num_cells page.bytes) page key 0 >>= λ child.
    elim child [ none ↦ right | some id ↦ ok id ] in
    if is_leaf page then err cell_not_found else found

-- A cell that cannot be read is skipped.
abbrev skipped :
    Outcome Cell → (Cell → Outcome (Option ℕ)) → Outcome (Option ℕ) → Outcome (Option ℕ)
skipped (err e) at rest = if is_panic e then err e else rest
skipped (ok cell) at rest = at cell

unfoldable pub find_child_loop : ℕ → Page → Bytes → ℕ → Outcome (Option ℕ)
unfolding cell_at next_passes
find_child_loop zero page key i = ok none
find_child_loop (suc n) page key i =
    let rest = find_child_loop n page key (i + 1) in
    skipped (cell_at page i)
      (λ cell. if key_le cell.key key then chosen (next_passes page key i) cell rest else rest) rest

unfoldable pub find_child : Page → Bytes → Outcome ℕ
unfolding num_cells right_ptr find_child_loop
find_child page key = find_child_loop (num_cells page.bytes) page key 0 >>= λ child. elim child [
  | none ↦ ok (right_ptr page.bytes)
  | some id ↦ ok id
]
