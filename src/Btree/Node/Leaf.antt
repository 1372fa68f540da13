-- ===== src/Btree/Node/Leaf.antt =====
-- A leaf as a map from keys to values: the search in it, after an insertion and after a deletion.
use storage_engines.Base.{
  List, Option, Ordering, Outcome, [], ap, arith, err, false, get_elem?, if◌then◌else◌,
  key_not_found, length, none, ok, refl, some, suc, true, zero, ℕ, ◌<◌, ◌^◌, ◌∙◌, ◌∷◌, ◌≡◌,
}
use storage_engines.Base.Int.{ℤ}
use storage_engines.Bytes.{Bytes}
use storage_engines.Bytes.Order.{compare_bytes, compare_bytes-flip, eq_of_compare_bytes, key_eq}
use storage_engines.Btree.Page.{Cell, Page, insert_cell, is_full, is_leaf, u16, value_size}
use storage_engines.Btree.Page.Encoded.{IsCell}
use storage_engines.Btree.Page.Spec.{Above-get, IsAscending, get_elem?-bound, put_in, remove_nth}
use storage_engines.Btree.Page.Place.{
  IsAbove, IsBelow, Located, absent_at, present_at, remove_nth-IsAscending,
}
use storage_engines.Btree.Page.Invariant.{Represents, cell_at-Represents}
use storage_engines.Btree.Page.Search.{search_cell-Located}
use storage_engines.Btree.Page.Delete.{delete_cell-Represents}
use storage_engines.Btree.Page.Insert.{insert_cell-put_in}
use storage_engines.Btree.Node.{
  delete_from_leaf, deleted_at, insert_into_leaf, leaf_cell, search_leaf, value_at,
}

unfoldable pub find_cell : Bytes → List Cell → Option Cell
find_cell k [] = none
find_cell k (c ∷ cells) = if key_eq k c.key then some c else find_cell k cells

-- The value of a cell, or the error of a missing key.
abbrev pub value_of : Option Cell → Outcome Bytes
value_of none = err key_not_found
value_of (some c) = ok c.value

find_cell-present :
    (k : Bytes) (r : ℕ) (d : Cell) (cells : List Cell)
    → get_elem? cells r ≡ some d
    → compare_bytes k d.key ≡ Ordering.eq
    → IsBelow k cells r
    → find_cell k cells ≡ some d
unfolding find_cell
find_cell-present k r d [] e q lo = cc
find_cell-present k zero d (x ∷ cells) e q lo =
    let same : x ≡ d = cc in ground (arith, ap (λ (c : Cell). c.key) same)
find_cell-present k (suc r) d (x ∷ cells) e q lo = ground (
  arith,
  lo 0 x (omega arith) refl,
  find_cell-present k r d cells e q (λ i c h f. lo (suc i) c (omega arith) f),
)

find_cell-absent :
    (k : Bytes) (r : ℕ) (cells : List Cell)
    → IsBelow k cells r
    → IsAbove k cells r
    → find_cell k cells ≡ none
unfolding find_cell
find_cell-absent k r [] lo hi = refl
find_cell-absent k zero (x ∷ cells) lo hi = ground (
  arith,
  hi 0 x (omega arith) refl,
  find_cell-absent k zero cells (λ i c h f. absurd (omega arith))
      (λ i c h f. hi (suc i) c (omega arith) f),
)
find_cell-absent k (suc r) (x ∷ cells) lo hi = ground (
  arith,
  lo 0 x (omega arith) refl,
  find_cell-absent k r cells (λ i c h f. lo (suc i) c (omega arith) f)
      (λ i c h f. hi (suc i) c (omega arith) f),
)

-- On a page that represents an ascending list of cells, the search in a leaf answers the value of the
-- cell with the key, or the error of a missing key.
pub search_leaf-find_cell :
    (p : Page) (cells : List Cell)
    → Represents p cells
    → IsAscending cells
    → (k : Bytes) → search_leaf p k ≡ value_of (find_cell k cells)
unfolding search_leaf
search_leaf-find_cell p cells w s k =
    let (z, ran, found) = search_cell-Located p cells w s k in rw ran (at_index z found)
  where
    at_index : (z : ℤ) → Located k cells z → value_at p z ≡ value_of (find_cell k cells)
    at_index z (absent_at r le lo hi) = rw (find_cell-absent k r cells lo hi) refl
    at_index z (present_at r d e q lo) =
        let small : u16 r ≡ r = omega (arith, w.apart, w.inside, get_elem?-bound r d cells e) in
        rw (find_cell-present k r d cells e q lo, small, cell_at-Represents p cells w r, e) refl

find_cell-put_in :
    (j : Bytes) (c : Cell) (cells : List Cell)
    → find_cell j (put_in c cells) ≡ (if key_eq j c.key then some c else find_cell j cells)
unfolding find_cell put_in
find_cell-put_in j c [] = refl
find_cell-put_in j c (x ∷ cells) = ground (
  arith,
  find_cell-put_in j c cells,
  eq_of_compare_bytes c.key x.key,
  eq_of_compare_bytes j x.key,
  eq_of_compare_bytes j c.key,
  compare_bytes-flip c.key x.key,
)

find_cell-remove_nth :
    (j k : Bytes) (r : ℕ) (d : Cell) (cells : List Cell)
    → IsAscending cells
    → get_elem? cells r ≡ some d
    → compare_bytes k d.key ≡ Ordering.eq
    → find_cell j (remove_nth r cells) ≡ (if key_eq j k then none else find_cell j cells)
unfolding find_cell
find_cell-remove_nth j k r d [] s e q = cc
find_cell-remove_nth j k zero d (x ∷ cells) s e q =
    let same : x ≡ d = cc in
    ground (
      arith,
      ap (λ (c : Cell). c.key) same,
      eq_of_compare_bytes k d.key,
      eq_of_compare_bytes j k,
      find_cell-absent x.key 0 cells (λ i c h f. absurd (omega arith))
          (λ i c h f. Above-get x.key i c cells s.0 f),
    )
find_cell-remove_nth j k (suc r) d (x ∷ cells) s e q = ground (
  arith,
  find_cell-remove_nth j k r d cells s.1 e q,
  Above-get x.key r d cells s.0 e,
  eq_of_compare_bytes k d.key,
  eq_of_compare_bytes j k,
  eq_of_compare_bytes j x.key,
)

insert_into_leaf-leaf :
    (p : Page) (key value : Bytes)
    → is_leaf p ≡ true
    → insert_into_leaf p key value ≡ insert_cell p (leaf_cell key value)
unfolding insert_into_leaf
insert_into_leaf-leaf p key value leaf = rw leaf refl

-- If a leaf represents an ascending list of cells and is not full for a key and a value, then inserting
-- them succeeds, and a search in the leaf after it answers the value for the key, and for every other
-- key what it answered before.
pub search_leaf-insert_into_leaf :
    (p : Page) (cells : List Cell) (key value : Bytes)
    → Represents p cells
    → IsAscending cells
    → is_leaf p ≡ true
    → length key < 2 ^ 16
    → length value < 2 ^ 16
    → is_full p (length key) (length value) ≡ false
    → (p' : Page) × (insert_into_leaf p key value ≡ (none, p'))
      × ((j : Bytes) → search_leaf p' j ≡ (if key_eq j key then ok value else search_leaf p j))
search_leaf-insert_into_leaf p cells key value w s leaf hk hv room =
    let c : Cell = leaf_cell key value in
    let v : IsCell (is_leaf p) c = record {
      key_short = hk;
      value_short = hv;
      child_short = omega arith;
      leaf_child = λ e. refl;
      internal_value = λ e. cc;
    } in
    let full : is_full p (length c.key) (value_size p c) ≡ false =
      ap (λ (n : ℕ). is_full p (length key) n) (whole leaf) ∙ room in
    let (p', done, w', s', n) = insert_cell-put_in p cells c w s v full in
    (
      p',
      insert_into_leaf-leaf p key value leaf ∙ done,
      λ j.
          search_leaf-find_cell p' (put_in c cells) w' s' j
          ∙ ap value_of (find_cell-put_in j c cells)
          ∙ after j,
    )
  where
    whole : is_leaf p ≡ true → value_size p (leaf_cell key value) ≡ length value
    whole e = rw e refl

    after :
        (j : Bytes)
        → value_of (if key_eq j key then some (leaf_cell key value) else find_cell j cells)
          ≡ (if key_eq j key then ok value else search_leaf p j)
    after j = ground (arith, search_leaf-find_cell p cells w s j)

-- If a leaf represents an ascending list of cells and a search in it answers a value for a key, then
-- deleting the key succeeds, and a search after it misses the key and answers for every other key what
-- it answered before.
pub search_leaf-delete_from_leaf :
    (p : Page) (cells : List Cell) (key value : Bytes)
    → Represents p cells
    → IsAscending cells
    → search_leaf p key ≡ ok value
    → (p' : Page) × (delete_from_leaf p key ≡ (none, p'))
      × ((j : Bytes)
          → search_leaf p' j ≡ (if key_eq j key then err key_not_found else search_leaf p j))
unfolding delete_from_leaf
search_leaf-delete_from_leaf p cells key value w s there =
    let (z, ran, found) = search_cell-Located p cells w s key in
    let (p', done, after) = at_place z found in (p', rw ran done, after)
  where
    at_place :
        (z : ℤ)
        → Located key cells z
        → (p' : Page) × (deleted_at p (ok z) ≡ (none, p'))
          × ((j : Bytes)
              → search_leaf p' j ≡ (if key_eq j key then err key_not_found else search_leaf p j))
    at_place z (absent_at r le lo hi) =
        absurd (
          ground (arith, search_leaf-find_cell p cells w s key, find_cell-absent key r cells lo hi))
    at_place z (present_at r d e q lo) =
        let lt : r < length cells = get_elem?-bound r d cells e in
        let small : u16 r ≡ r = omega (arith, w.apart, w.inside) in
        let (p', done, w', n, free) = delete_cell-Represents p cells w r lt in
        (
          p',
          rw small done,
          λ j.
              search_leaf-find_cell p' (remove_nth r cells) w' (remove_nth-IsAscending r cells s) j
              ∙ ap value_of (find_cell-remove_nth j key r d cells s e q)
              ∙ ground (arith, search_leaf-find_cell p cells w s j),
        )
