-- ===== src/Btree/Tree.antt =====
-- btree/btree.go and btree/split.go: Get and Put on the pages of a pager, with the splits. The methods
-- run under the lock of the tree, so each is a function on the pager.
pub mod Split
pub mod Rebuild
pub mod Halved
pub mod Filled
pub mod Leaves
pub mod Divided
pub mod Keys
use storage_engines.Base.{
  Bool, Error, List, Option, Outcome, [], closed, drop, err, false, if◌then◌else◌, key_empty, leb,
  length, none, ok, out_of_fuel, page_full, panic_index, some, suc, take, true, zero, ℕ, ◌++◌, ◌+◌,
  ◌/◌, ◌==◌, ◌∷◌,
}
use storage_engines.Base.Int.{increment, ℤ, pos}
use storage_engines.Bytes.{Bytes}
use storage_engines.Bytes.Order.{key_lt}
use storage_engines.Btree.Page.{
  Cell, Page, cell_at, insert_cell, is_leaf, new_page, num_cells, page_size, page_type_internal,
  page_type_leaf, right_ptr, set_free_ptr, set_num_cells, set_right_ptr,
}
use storage_engines.Btree.Node.{
  find_child, get_child_page_id, internal_cell, leaf_cell, search_leaf,
}
use storage_engines.Btree.Pager.{
  Pager, allocate_page, create_pager, get_page, mark_dirty, page_at, set_root_page_id, store_page,
}

-- A call that may fail and that changes the pager.
abbrev pub Call : Type 0 → Type 0
Call A = Pager → Outcome A × Pager

abbrev pub continued : {A B : Type 0} → (A → Call B) → Outcome A × Pager → Outcome B × Pager
continued f (err e, p) = (err e, p)
continued f (ok a, p) = f a p

infixl 5 ◌>>=◌ ◌>>◌
abbrev pub ◌>>=◌ : {A B : Type 0} → Call A → (A → Call B) → Call B
m >>= f = λ p. continued f (m p)

abbrev pub ◌>>◌ : {B : Type 0} → Call (Unit {0}) → Call B → Call B
m >> k = m >>= λ _. k

abbrev pub give : {A : Type 0} → A → Call A
give a = λ p. (ok a, p)

abbrev pub from : {A : Type 0} → Outcome A → Call A
from r = λ p. (r, p)

abbrev pub object : ℕ → Call Page
object address = λ p. (ok (page_at p address), p)

abbrev pub change : ℕ → (Page → Page) → Call (Unit {0})
change address f = λ p. (ok tt, store_page p address (f (page_at p address)))

-- `InsertCell` on a page object: the error is answered, not raised.
unfoldable pub insert_object : ℕ → Cell → Call (Option Error)
unfolding insert_cell
insert_object address cell =
    λ p. let (e, page) = insert_cell (page_at p address) cell in (ok e, store_page p address page)

abbrev pub marked : ℕ → Call (Unit {0})
marked page_id = λ p. (ok tt, mark_dirty p page_id)

abbrev pub raised : Option Error → Call (Unit {0})
raised none = give tt
raised (some e) = from (err e)

unfoldable pub insert_all : ℕ → List Cell → Call (Unit {0})
unfolding insert_object
insert_all address [] = give tt
insert_all address (cell ∷ cells) =
    (insert_object address cell >>= λ e. raised e) >> insert_all address cells

-- The cells of a page from an index on.
unfoldable pub collect : ℕ → Page → ℕ → Outcome (List Cell)
unfolding cell_at
collect zero page i = ok []
collect (suc n) page i = elim (cell_at page i) [
  | err e ↦ err e
  | ok cell ↦ elim (collect n page (i + 1)) [ err e ↦ err e | ok cells ↦ ok (cell ∷ cells) ]
]

unfoldable pub collect_cells : Page → Outcome (List Cell)
unfolding num_cells collect
collect_cells page = collect (num_cells page.bytes) page 0

-- The place that the loop finds for a new cell, from an index on.
unfoldable pub insert_pos : Bytes → List Cell → ℕ → ℕ
insert_pos key [] i = i
insert_pos key (cell ∷ cells) i = if key_lt key cell.key then i else insert_pos key cells (i + 1)

unfoldable pub with_cell : Cell → List Cell → List Cell
unfolding insert_pos
with_cell cell cells =
    let pos = insert_pos cell.key cells 0 in take pos cells ++ (cell ∷ drop pos cells)

-- The cells of the two pages after a split of a leaf.
unfoldable pub halves : List Cell → List Cell × List Cell
halves cells = (take (length cells / 2) cells, drop (length cells / 2) cells)

unfoldable pub clear : Page → Page
unfolding set_num_cells set_free_ptr
clear page = record page { bytes = set_free_ptr (set_num_cells page.bytes 0) page_size }

abbrev pub SplitResult : Type 0
SplitResult = Bytes × ℕ

unfoldable pub split_leaf : ℕ → Bytes → Bytes → Call SplitResult
unfolding collect_cells with_cell halves allocate_page clear insert_all right_ptr set_right_ptr
    mark_dirty cell_at
split_leaf address key value = do
  page ← object address
  cells ← from (collect_cells page)
  let (left, right) = halves (with_cell (leaf_cell key value) cells)
  new_address ← (λ p. allocate_page p page_type_leaf)
  change address clear
  insert_all address left
  insert_all new_address right
  page ← object address
  new_page ← object new_address
  change address (λ q. set_right_ptr q new_page.id)
  change new_address (λ q. set_right_ptr q (right_ptr page.bytes))
  marked page.id
  marked new_page.id
  new_page ← object new_address
  separator ← from (cell_at new_page 0)
  give (separator.key, new_page.id)

-- The middle cell, and what stands before it and behind it.
abbrev middle_of : List Cell → Outcome Cell
middle_of [] = err panic_index
middle_of (cell ∷ cells) = ok cell

unfoldable pub split_internal : ℕ → Bytes → ℕ → Call SplitResult
unfolding collect_cells with_cell allocate_page clear insert_all right_ptr set_right_ptr mark_dirty
split_internal address key child_page_id = do
  page ← object address
  cells ← from (collect_cells page)
  let all = with_cell (internal_cell key child_page_id) cells
  let midpoint = length all / 2
  middle_cell ← from (middle_of (drop midpoint all))
  new_address ← (λ p. allocate_page p page_type_internal)
  change address clear
  insert_all address (take midpoint all)
  change address (λ q. set_right_ptr q middle_cell.child)
  insert_all new_address (drop (midpoint + 1) all)
  change new_address (λ q. set_right_ptr q (right_ptr page.bytes))
  new_page ← object new_address
  marked page.id
  marked new_page.id
  give (middle_cell.key, new_page.id)

-- What an insertion answers: none, or the separator and the new page of a split.
abbrev pub Inserted : Type 0
Inserted = Option SplitResult

abbrev on_full : Option Error → ℕ → Call SplitResult → Call Inserted
on_full none page_id split = marked page_id >> give none
on_full (some page_full) page_id split = split >>= λ result. give (some result)
on_full (some e) page_id split = from (err e)

abbrev insert_separator : ℕ → Inserted → Call Inserted
insert_separator address none = give none
insert_separator address (some (key, new_page_id)) = do
  page ← object address
  e ← insert_object address (internal_cell key new_page_id)
  on_full e page.id (split_internal address key new_page_id)

-- On the depth that is left: a tree without a cycle is no deeper than it has pages.
unfoldable pub insert_and_split : ℕ → ℕ → Bytes → Bytes → Call Inserted
unfolding get_page is_leaf insert_object split_leaf split_internal get_child_page_id mark_dirty
insert_and_split zero page_id key value = from (err out_of_fuel)
insert_and_split (suc fuel) page_id key value =
    let below : ℕ → Call Inserted =
      λ child_page_id. insert_and_split fuel child_page_id key value in
    do
      address ← (λ p. get_page p page_id)
      page ← object address
      let in_leaf =
          (insert_object address (leaf_cell key value) >>= λ e.
          on_full e page.id (split_leaf address key value))
      let in_child =
          (from (get_child_page_id page key) >>= λ child_page_id.
          below child_page_id >>= λ inserted. insert_separator address inserted)
      (if is_leaf page then in_leaf else in_child)

unfoldable pub handle_root_split : ℕ → SplitResult → Call (Unit {0})
unfolding allocate_page insert_object set_right_ptr mark_dirty set_root_page_id
handle_root_split old_root_id (split_key, new_page_id) = do
  new_root ← (λ p. allocate_page p page_type_internal)
  e ← insert_object new_root (internal_cell split_key new_page_id)
  raised e
  change new_root (λ q. set_right_ptr q old_root_id)
  page ← object new_root
  marked page.id
  (λ p. (ok tt, set_root_page_id p page.id))

pub record Btree : Type 0 where
  pub pager : Pager
  pub closed : Bool
  pub num_keys : ℤ

abbrev put_root : ℕ → Inserted → Call (Unit {0})
put_root root none = give tt
put_root root (some result) = handle_root_split root result

abbrev counted : Btree → Outcome (Unit {0}) × Pager → Option Error × Btree
counted b (err e, p) = (some e, record b { pager = p })
counted b (ok u, p) = (none, record b { pager = p; num_keys = increment b.num_keys })

unfoldable pub put : Btree → Bytes → Bytes → Option Error × Btree
unfolding insert_and_split handle_root_split increment
put b key value =
    let root = b.pager.metadata.root_page_id in
    let insert : Call (Unit {0}) =
      insert_and_split b.pager.metadata.num_pages root key value >>= λ inserted.
      put_root root inserted in
    if length key == 0
    then (some key_empty, b)
    else if b.closed
    then (some closed, b)
    else counted b (insert b.pager)

-- The loop of `Get`, on the depth that is left.
unfoldable pub get_loop : ℕ → ℕ → Bytes → Call Bytes
unfolding get_page is_leaf search_leaf find_child
get_loop zero page_id key = from (err out_of_fuel)
get_loop (suc fuel) page_id key =
    let below : ℕ → Call Bytes = λ child. get_loop fuel child key in
    do
      address ← (λ p. get_page p page_id)
      page ← object address
      (if is_leaf page
          then from (search_leaf page key)
          else (from (find_child page key) >>= λ child. below child))

unfoldable pub get : Btree → Bytes → Outcome Bytes × Btree
unfolding get_loop
get b key =
    let (found, p) =
      get_loop b.pager.metadata.num_pages b.pager.metadata.root_page_id key b.pager in
    if length key == 0
    then (err key_empty, b)
    else if b.closed
    then (err closed, b)
    else (found, record b { pager = p })
