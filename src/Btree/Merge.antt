-- ===== src/Btree/Merge.antt =====
-- btree/merge.go, and Delete of btree/btree.go, which calls it: the rebalancing of a page that has few
-- cells. The code leaves the errors of CellAt aside there, and a nil cell panics where it is used.
use storage_engines.Base.{
  Bool, Error, List, Option, Outcome, [], cell_not_found, closed, drop, err, false, if◌then◌else◌,
  key_empty, length, ltb, none, not, ok, out_of_fuel, panic_nil, some, suc, take, true, zero, ℕ,
  ◌&&◌, ◌*◌, ◌++◌, ◌+◌, ◌/◌, ◌==◌, ◌∷◌,
}
use storage_engines.Base.Int.{decrement, negsuc, pos, ℤ}
use storage_engines.Bytes.{Bytes}
use storage_engines.Bytes.Order.{key_lt}
use storage_engines.Btree.Page.{
  u16, Cell, Page, cell_at, delete_cell, is_leaf, num_cells, right_ptr, set_right_ptr,
}
use storage_engines.Btree.Node
use storage_engines.Btree.Node.{is_panic, find_child, get_child_page_id, search_key}
use storage_engines.Btree.Pager.{Pager, free_page, get_page, mark_dirty, page_at, store_page}
use storage_engines.Btree.Tree.{
  Btree, Call, change, clear, from, give, insert_object, marked, object, raised, ◌>>=◌, ◌>>◌,
}

-- `uint16(25 * 0.25)`
abbrev min_cells : ℕ
min_cells = 6

unfoldable pub should_merge : Pager → Page → Bool
unfolding num_cells
should_merge p page =
    if page.id == p.metadata.root_page_id then false else ltb (num_cells page.bytes) min_cells

-- `cell, _ := page.CellAt(i)`, and a use of the cell.
unfoldable pub cell_of : Page → ℕ → Outcome Cell
unfolding cell_at
cell_of page i = elim (cell_at page i) [
  | ok cell ↦ ok cell
  | err e ↦ if is_panic e then err e else err panic_nil
]

-- The index of the first cell with a child, -1 if there is none.
unfoldable pub child_index : ℕ → Page → ℕ → ℕ → Outcome ℤ
unfolding cell_of
child_index zero page child_id i = ok (negsuc 0)
child_index (suc n) page child_id i =
    let rest = child_index n page child_id (i + 1) in
    elim (cell_of page i) [
      | err e ↦ err e
      | ok cell ↦ if cell.child == child_id then ok (pos i) else rest
    ]

-- The last step of the path from the root: the page above and the index in it.
abbrev pub Step : Type 0
Step = Option (ℕ × ℤ)

-- The walk from the root to a page, on the depth that is left.
unfoldable pub walk : ℕ → ℕ → ℕ → Bytes → Step → Call Step
unfolding get_page is_leaf get_child_page_id child_index num_cells
walk zero current_id page_id search_key step = from (err out_of_fuel)
walk (suc fuel) current_id page_id search_key step =
    let below : ℕ → Step → Call Step =
      λ child_id next. walk fuel child_id page_id search_key next in
    let round : Call Step = (do
      address ← (λ p. get_page p current_id)
      current ← object address
      let follow = (do
        child_id ← from (get_child_page_id current search_key)
        index ← from (child_index (num_cells current.bytes) current child_id 0)
        below child_id (some (current_id, index)))
      (if is_leaf current then from (err cell_not_found) else follow)) in
    if current_id == page_id then give step else round

-- The sibling of a child and the index of the separator. Go converts the index -1 to 65535.
unfoldable pub sibling_of : Page → ℤ → Outcome (ℕ × ℕ)
unfolding cell_of num_cells
sibling_of parent (pos (suc i)) = elim (cell_of parent i) [
  | err e ↦ err e
  | ok cell ↦ ok (cell.child, i)
]
sibling_of parent (pos zero) =
    let right : Outcome (ℕ × ℕ) = elim (cell_of parent 1) [
      | err e ↦ err e
      | ok cell ↦ ok (cell.child, 0)
    ] in
    if ltb 1 (num_cells parent.bytes) then right else err cell_not_found
sibling_of parent (negsuc i) =
    let right : Outcome (ℕ × ℕ) = elim (cell_of parent 0) [
      | err e ↦ err e
      | ok cell ↦ ok (cell.child, 65535)
    ] in
    if ltb 0 (num_cells parent.bytes) then right else err cell_not_found

abbrev at_parent : Step → Call (ℕ × ℕ × ℕ)
at_parent none = from (err cell_not_found)
at_parent (some (parent_id, index)) = do
  address ← (λ p. get_page p parent_id)
  parent ← object address
  sibling ← from (sibling_of parent index)
  give (parent_id, sibling.0, sibling.1)

unfoldable pub find_sibling : ℕ → Bytes → Call (ℕ × ℕ × ℕ)
unfolding walk sibling_of get_page
find_sibling page_id search_key = λ p.
    (walk (p.metadata.num_pages + 1) p.metadata.root_page_id page_id search_key none >>= λ step.
    at_parent step)
      p

unfoldable pub can_redistribute : Page → Page → Bool
unfolding num_cells
can_redistribute page sibling =
    not (ltb (u16 (num_cells sibling.bytes + num_cells page.bytes)) (min_cells * 2))
    && ltb min_cells (num_cells sibling.bytes)

-- The cells of a page, whose errors are left aside.
unfoldable pub cells_of : ℕ → Page → ℕ → Outcome (List Cell)
unfolding cell_of
cells_of zero page i = ok []
cells_of (suc n) page i = elim (cell_of page i) [
  | err e ↦ err e
  | ok cell ↦ elim (cells_of n page (i + 1)) [ err e ↦ err e | ok cells ↦ ok (cell ∷ cells) ]
]

abbrev joined : Outcome (List Cell) → Outcome (List Cell) → Outcome (List Cell)
joined (err e) second = err e
joined (ok cells) (err e) = err e
joined (ok cells) (ok more) = ok (cells ++ more)

-- The cells of both pages, of the one with the smaller first key first.
unfoldable pub all_cells : Page → Page → Outcome (List Cell)
unfolding cell_of cells_of num_cells
all_cells page sibling =
    let of_page = cells_of (num_cells page.bytes) page 0 in
    let of_sibling = cells_of (num_cells sibling.bytes) sibling 0 in
    elim (cell_of page 0) [
      | err e ↦ err e
      | ok first ↦ elim (cell_of sibling 0) [
        | err e ↦ err e
        | ok second ↦
            if key_lt first.key second.key
            then joined of_page of_sibling
            else joined of_sibling of_page
      ]
    ]

-- The errors of these insertions are left aside; a panic is not.
abbrev unless_panic : Option Error → Call (Unit {0})
unless_panic none = give tt
unless_panic (some e) = if is_panic e then from (err e) else give tt

unfoldable pub insert_each : ℕ → List Cell → Call (Unit {0})
unfolding insert_object
insert_each address [] = give tt
insert_each address (cell ∷ cells) =
    (insert_object address cell >>= λ e. unless_panic e) >> insert_each address cells

-- The new key of the separator is written to a copy of the cell, so that the parent keeps the old one;
-- for a separator that is not there the copy is nil.
unfoldable pub redistribute_leaf : ℕ → ℕ → ℕ → ℕ → ℕ → Call (Unit {0})
unfolding all_cells clear insert_each cell_of mark_dirty
redistribute_leaf parent_address address sibling_address separator_index target_cells = do
  parent ← object parent_address
  page ← object address
  sibling ← object sibling_address
  cells ← from (all_cells page sibling)
  change address clear
  change sibling_address clear
  insert_each address (take target_cells cells)
  insert_each sibling_address (drop target_cells cells)
  filled ← object sibling_address
  first ← from (cell_of filled 0)
  separator ← from (cell_of parent separator_index)
  marked page.id
  marked sibling.id
  marked parent.id

abbrev delete_object : ℕ → ℕ → Call (Option Error)
delete_object address index =
    λ p. let (e, page) = delete_cell (page_at p address) index in (ok e, store_page p address page)

unfoldable pub merge_leaf_pages : ℕ → ℕ → ℕ → ℕ → Call (Unit {0})
unfolding all_cells clear insert_each right_ptr set_right_ptr delete_cell free_page mark_dirty
merge_leaf_pages parent_address address sibling_address separator_index = do
  parent ← object parent_address
  page ← object address
  sibling ← object sibling_address
  cells ← from (all_cells page sibling)
  change address clear
  insert_each address cells
  change address (λ q. set_right_ptr q (right_ptr sibling.bytes))
  e ← delete_object parent_address separator_index
  raised e
  (λ p. (ok tt, free_page p sibling.id))
  marked page.id
  marked parent.id

-- Inner pages are left as they are.
unfoldable pub merge_page : ℕ → ℕ → ℕ → ℕ → Call (Unit {0})
unfolding is_leaf merge_leaf_pages
merge_page parent_address address sibling_address separator_index = do
  page ← object address
  (if is_leaf page
      then merge_leaf_pages parent_address address sibling_address separator_index
      else give tt)

unfoldable pub redistribute : ℕ → ℕ → ℕ → ℕ → Call (Unit {0})
unfolding is_leaf num_cells redistribute_leaf merge_page
redistribute parent_address address sibling_address separator_index = do
  page ← object address
  sibling ← object sibling_address
  let target_cells = u16 (num_cells page.bytes + num_cells sibling.bytes) / 2
  (if is_leaf page
      then redistribute_leaf parent_address address sibling_address separator_index target_cells
      else merge_page parent_address address sibling_address separator_index)

abbrev is_panic_or_nil : Error → Bool
is_panic_or_nil panic_nil = true
is_panic_or_nil out_of_fuel = true
is_panic_or_nil e = is_panic e

-- No parent or no sibling is no error.
abbrev balanced : ℕ → Outcome (ℕ × ℕ × ℕ) × Pager → Outcome Bool × Pager
balanced address (err e, p) = if is_panic_or_nil e then (err e, p) else (ok false, p)
balanced address (ok (parent_id, sibling_id, separator_index), p) =
    (do
      parent_address ← (λ q. get_page q parent_id)
      sibling_address ← (λ q. get_page q sibling_id)
      page ← object address
      sibling ← object sibling_address
      (if can_redistribute page sibling
          then redistribute parent_address address sibling_address separator_index
          else merge_page parent_address address sibling_address separator_index)
      give true)
      p

unfoldable pub merge_or_redistribute : ℕ → Bytes → Call Bool
unfolding get_page should_merge find_sibling can_redistribute redistribute merge_page
merge_or_redistribute page_id key = do
  address ← (λ p. get_page p page_id)
  page ← object address
  (λ p.
      if should_merge p page then balanced address (find_sibling page_id key p) else (ok false, p))

-- `deleteFromLeaf`: an error of the rebalancing is left aside, a panic is not.
abbrev settled : Outcome Bool × Pager → Outcome (Unit {0}) × Pager
settled (err e, p) = if is_panic_or_nil e then (err e, p) else (ok tt, p)
settled (ok b, p) = (ok tt, p)

unfoldable pub delete_from_leaf : ℕ → Bytes → Call (Unit {0})
unfolding Node.delete_from_leaf mark_dirty merge_or_redistribute
delete_from_leaf address key = do
  page ← object address
  let (e, page') = Node.delete_from_leaf page key
  change address (λ q. page')
  raised e
  marked page.id
  (λ p. settled (merge_or_redistribute page.id key p))

-- The loop of `Delete`, on the depth that is left.
unfoldable pub delete_loop : ℕ → ℕ → Bytes → Call (Unit {0})
unfolding get_page is_leaf find_child delete_from_leaf
delete_loop zero page_id key = from (err out_of_fuel)
delete_loop (suc fuel) page_id key =
    let below : ℕ → Call (Unit {0}) = λ child. delete_loop fuel child key in
    do
      address ← (λ p. get_page p page_id)
      page ← object address
      (if is_leaf page
          then delete_from_leaf address key
          else (from (find_child page key) >>= λ child. below child))

abbrev uncounted : Btree → Outcome (Unit {0}) × Pager → Option Error × Btree
uncounted b (err e, p) = (some e, record b { pager = p })
uncounted b (ok u, p) = (none, record b { pager = p; num_keys = decrement b.num_keys })

unfoldable pub delete : Btree → Bytes → Option Error × Btree
unfolding delete_loop decrement
delete b key =
    let found = delete_loop b.pager.metadata.num_pages b.pager.metadata.root_page_id key b.pager in
    if length key == 0
    then (some key_empty, b)
    else if b.closed
    then (some closed, b)
    else uncounted b found
