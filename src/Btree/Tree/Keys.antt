-- ===== src/Btree/Tree/Keys.antt =====
-- GetMinKey and GetMaxKey of btree/node.go, on the pages of a pager. They are given a level for each
-- page of the file: a tree without a cycle is no deeper.
use storage_engines.Base.{
  Outcome, cell_not_found, err, if◌then◌else◌, out_of_fuel, suc, zero, ℕ, ◌-◌, ◌==◌,
}
use storage_engines.Bytes.{Bytes}
use storage_engines.Btree.Page.{Cell, Page, cell_at, is_leaf, num_cells, right_ptr}
use storage_engines.Btree.Pager.{Pager, get_page}
use storage_engines.Btree.Tree.{Call, from, give, object, ◌>>=◌}

-- The first cell of a page, and the last one.
unfoldable pub first_cell : Page → Outcome Cell
unfolding num_cells cell_at
first_cell page = if num_cells page.bytes == 0 then err cell_not_found else cell_at page 0

unfoldable pub last_cell : Page → Outcome Cell
unfolding num_cells cell_at
last_cell page =
    if num_cells page.bytes == 0
    then err cell_not_found
    else cell_at page (num_cells page.bytes - 1)

unfoldable pub min_loop : ℕ → ℕ → Call Bytes
unfolding get_page is_leaf first_cell
min_loop zero page_id = from (err out_of_fuel)
min_loop (suc fuel) page_id =
    let below : ℕ → Call Bytes = λ child. min_loop fuel child in
    do
      address ← (λ p. get_page p page_id)
      page ← object address
      cell ← from (first_cell page)
      (if is_leaf page then give cell.key else below cell.child)

-- The child that the descent to the largest key takes.
unfoldable pub rightmost : Page → Call ℕ
unfolding right_ptr last_cell
rightmost page =
    if right_ptr page.bytes == 0
    then (from (last_cell page) >>= λ cell. give cell.child)
    else give (right_ptr page.bytes)

unfoldable pub max_loop : ℕ → ℕ → Call Bytes
unfolding get_page is_leaf last_cell rightmost
max_loop zero page_id = from (err out_of_fuel)
max_loop (suc fuel) page_id =
    let below : ℕ → Call Bytes = λ child. max_loop fuel child in
    do
      address ← (λ p. get_page p page_id)
      page ← object address
      (if is_leaf page
          then (from (last_cell page) >>= λ cell. give cell.key)
          else (rightmost page >>= λ child. below child))

unfoldable pub get_min_key : Pager → ℕ → Outcome Bytes × Pager
unfolding min_loop
get_min_key p page_id = min_loop p.metadata.num_pages page_id p

unfoldable pub get_max_key : Pager → ℕ → Outcome Bytes × Pager
unfolding max_loop
get_max_key p page_id = max_loop p.metadata.num_pages page_id p
