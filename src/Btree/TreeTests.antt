-- ===== src/Btree/TreeTests.antt =====
-- Runs of the B-tree at concrete inputs.
use storage_engines.Btree.Merge.{delete}
use storage_engines.Base.{
  none, ◌≢◌, panic_nil, if◌then◌else◌, ◌==◌, Outcome, ap, Error, Option, [], arith, err, false,
  key_not_found, ok, page_full, refl, replicate, some, ℕ, ◌∷◌, ◌≡◌,
}
use storage_engines.Base.Int.{pos}
use storage_engines.Bytes.{Bytes}
use storage_engines.Bytes.Order.{compare_bytes}
use storage_engines.Btree.Pager.Durable.{sync-stored}
use storage_engines.Btree.Recovery.{open_btree}
use storage_engines.Btree.Pager.{
  close as close_pager, sync, mark_dirty, store_page, Pager, create_pager, get_page, page_at,
}
use storage_engines.Btree.Page.{Page, set_right_ptr, Cell, new_page, page_type_leaf}
use storage_engines.Btree.Node.{leaf_cell}
use storage_engines.Base.Table.{find}
use storage_engines.Btree.Pager.File.{stored}
use storage_engines.Btree.Pager.Cache.{IsCoherent, Keeps, view}
use storage_engines.Btree.Pager.Change.{mark_dirty-view}
use storage_engines.Btree.Pager.Transparent.{get_page-view}
use storage_engines.Btree.Tree.Keys.{get_max_key, get_min_key}
use storage_engines.Btree.Tree.{Btree, get, put}

abbrev opened_get : Outcome Btree → Outcome Bytes
opened_get (err e) = err e
opened_get (ok b) = (get b (1 ∷ [])).0

abbrev cell_1 : Cell
cell_1 = leaf_cell (1 ∷ []) (10 ∷ [])

abbrev cell_3 : Cell
cell_3 = leaf_cell (3 ∷ []) (30 ∷ [])

abbrev tree : Btree
tree = record { pager = create_pager 8; closed = false; num_keys = pos 0 }

abbrev two_keys : Btree
two_keys = (put (put tree (1 ∷ []) (10 ∷ [])).1 (2 ∷ []) (20 ∷ [])).1

get_second : (get two_keys (2 ∷ [])).0 ≡ ok (20 ∷ [])
unfolding get put create_pager compare_bytes
get_second = refl

-- A value that is longer than a page. The leaf is cleared for the split, and the cells that were to
-- follow the new one are not inserted again.
abbrev after_wide : Option Error × Btree
after_wide = put two_keys (1 ∷ 5 ∷ []) (replicate 4090 0)

wide_full : after_wide.0 ≡ some page_full
unfolding put create_pager compare_bytes
wide_full = refl

wide_loses : (get after_wide.1 (2 ∷ [])).0 ≡ err key_not_found
unfolding get put create_pager compare_bytes
wide_loses = refl

abbrev fresh : Pager
fresh = create_pager 1

fresh-IsCoherent : IsCoherent fresh
unfolding create_pager find
fresh-IsCoherent = record { known = λ i a at. cc; saved = λ i a at unmarked. cc }

abbrev root_bytes : Bytes
root_bytes = (new_page 1 page_type_leaf).bytes

root_view : view fresh 1 ≡ some root_bytes
unfolding view stored create_pager new_page
root_view = refl

get_page-view_run :
    (a : ℕ) × (p' : Pager) × (get_page fresh 1 ≡ (ok a, p'))
    × ((page_at p' a).bytes ≡ root_bytes)
    × IsCoherent p'
    × Keeps fresh p'
unfolding create_pager
get_page-view_run = get_page-view fresh 1 root_bytes fresh-IsCoherent refl (omega arith) root_view

get_page-view_example :
    (a : ℕ) × (p' : Pager) × (get_page fresh 1 ≡ (ok a, p'))
    × ((page_at p' a).bytes ≡ root_bytes)
    × IsCoherent p'
    × Keeps fresh p'
unfolding create_pager
get_page-view_example =
    get_page-view fresh 1 root_bytes fresh-IsCoherent refl (omega arith) root_view

-- The root in the cache, and changed there.
abbrev with_root : Pager
with_root = (get_page fresh 1).1

with_root-IsCoherent : IsCoherent with_root
with_root-IsCoherent =
    let (a, p', ran, same, coherent, keeps) = get_page-view_run in
    rw (ap (λ (r : Outcome ℕ × Pager). r.1) ran) coherent

abbrev changed_root : Page
changed_root = set_right_ptr (new_page 1 page_type_leaf) 5

mark_dirty-view_example :
    IsCoherent (mark_dirty (store_page with_root 0 changed_root) 1)
    × ((j : ℕ)
        → view (mark_dirty (store_page with_root 0 changed_root) 1) j
          ≡ (if j == 1 then some changed_root.bytes else view with_root j))
unfolding create_pager get_page find new_page set_right_ptr
mark_dirty-view_example =
    mark_dirty-view with_root with_root-IsCoherent 1 0 refl changed_root refl refl

-- The changed root is marked, and is written.
abbrev marked_root : Pager
marked_root = mark_dirty (store_page with_root 0 changed_root) 1

marked_root-IsCoherent : IsCoherent marked_root
unfolding create_pager get_page find new_page set_right_ptr
marked_root-IsCoherent =
    (mark_dirty-view with_root with_root-IsCoherent 1 0 refl changed_root refl refl).0

sync-stored_example :
    (p' : Pager) × (sync marked_root ≡ (none, p'))
    × ((j : ℕ) (b : Bytes) → j ≢ 0 → view marked_root j ≡ some b → stored p'.file j ≡ some b)
unfolding create_pager get_page mark_dirty find
sync-stored_example = sync-stored marked_root marked_root-IsCoherent refl

-- Three values of 1500 bytes: the third splits the root, with one cell on the left.
abbrev three_keys : Btree
three_keys =
    (put (put (put tree (1 ∷ []) (replicate 1500 1)).1 (2 ∷ []) (replicate 1500 2)).1 (3 ∷ [])
      (replicate 1500 3)).1

split_root : three_keys.pager.metadata.root_page_id ≡ 3
unfolding put create_pager compare_bytes
split_root = refl

-- Deleting the only cell of the left leaf takes its first key, which is not there.
delete_last : (delete three_keys (1 ∷ [])).0 ≡ some panic_nil
unfolding put delete create_pager compare_bytes
delete_last = refl

-- The file of a closed pager, opened again beside an empty log.
reopened : (opened_get (open_btree (some (close_pager two_keys.pager).file) [] 8)) ≡ ok (10 ∷ [])
unfolding put get create_pager close_pager open_btree compare_bytes
reopened = refl

-- Three cells that fill two pages, so that the root is split. Its right pointer names the left page,
-- so the descents go to the wrong side.
abbrev put_wide : Btree → ℕ → Btree
put_wide b key = (put b (key ∷ []) (replicate 1500 0)).1

abbrev two_levels : Btree
two_levels = put_wide (put_wide (put_wide tree 1) 2) 3

min_key : (get_min_key two_levels.pager two_levels.pager.metadata.root_page_id).0 ≡ ok (2 ∷ [])
unfolding get_min_key put create_pager compare_bytes
min_key = refl

max_key : (get_max_key two_levels.pager two_levels.pager.metadata.root_page_id).0 ≡ ok (1 ∷ [])
unfolding get_max_key put create_pager compare_bytes
max_key = refl
