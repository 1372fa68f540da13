-- ===== src/Btree/Tree/Divided.antt =====
-- What splitLeaf makes of a leaf and a new cell.
use storage_engines.Base.{
  All, Bool, List, Ordering-cases, [], ap, arith, false, inl, inr, length, length-append, none, ok,
  refl, true, ℕ, ◌++◌, ◌+◌, ◌<◌, ◌^◌, ◌∷◌, ◌≡◌, ◌≤◌,
}
use storage_engines.Bytes.{Bytes}
use storage_engines.Bytes.Order.{compare_bytes}
use storage_engines.Btree.Page.{Cell, cell_dir_offset, is_leaf, page_size, right_ptr}
use storage_engines.Btree.Page.Encoded.{IsCell, is_old}
use storage_engines.Btree.Page.Invariant.{Represents}
use storage_engines.Btree.Page.Spec.{Above, IsAscending, put_in}
use storage_engines.Btree.Node.{leaf_cell}
use storage_engines.Btree.Node.Leaf.{find_cell}
use storage_engines.Btree.Pager.{Pager, page_at}
use storage_engines.Btree.Tree.{halves, split_leaf, with_cell}
use storage_engines.Btree.Tree.Halved.{All-append, IsCell-All, put_in-All}
use storage_engines.Btree.Tree.Rebuild.{fill}
use storage_engines.Btree.Tree.Leaves.{IsSplit, split_leaf-run}
use storage_engines.Btree.Tree.Split.{halves-with_cell}

put_in-nonempty : (c : Cell) (cells : List Cell) → 1 ≤ length (put_in c cells)
unfolding put_in
put_in-nonempty c [] = omega arith
put_in-nonempty c (d ∷ cells) = elim (Ordering-cases (compare_bytes c.key d.key)) [
  | inl o ↦ rw (put_in, o) (omega arith)
  | inr (inl o) ↦ rw (put_in, o) (omega arith)
  | inr (inr o) ↦ rw (put_in, o) (omega arith)
]

leaf_cell-IsCell :
    (key value : Bytes)
    → length key < 2 ^ 16
    → length value < 2 ^ 16
    → IsCell true (leaf_cell key value)
leaf_cell-IsCell key value k v = record {
  key_short = k;
  value_short = v;
  child_short = omega arith;
  leaf_child = λ e. refl;
  internal_value = λ e. cc;
}

-- The bytes that a page of cells takes: the header, the directory and the cells.
abbrev pub taken : Bool → List Cell → ℕ
taken old cells = cell_dir_offset (length cells) + fill old true cells

-- Suppose that the pager is open, that the object at an address is a leaf that represents an ascending
-- list of cells, that a new key is not among them, and that each half of the cells with the new one
-- fits in its page. Then splitLeaf succeeds. The old page represents the left half, the page that it
-- allocates the right half, which is not empty. The halves are, one behind the other, the cells with
-- the new one at its place; every key of the left is below every key of the right, which has as many
-- cells or one more. The answer is the first key of the right half with the number of the new page,
-- which was the number of pages; the old page points to the new one, and the new one to where the old
-- one pointed.
pub split_leaf-put_in :
    (p : Pager) (a : ℕ) (cells : List Cell) (key value : Bytes)
    → p.closed ≡ false
    → a < length p.heap
    → is_leaf (page_at p a) ≡ true
    → Represents (page_at p a) cells
    → IsAscending cells
    → find_cell key cells ≡ none
    → length key < 2 ^ 16
    → length value < 2 ^ 16
    → p.metadata.num_pages < 2 ^ 32
    → right_ptr (page_at p a).bytes < 2 ^ 32
    → taken (is_old (page_at p a).bytes) (halves (with_cell (leaf_cell key value) cells)).0
      ≤ page_size
    → taken false (halves (with_cell (leaf_cell key value) cells)).1 ≤ page_size
    → (left : List Cell) × (first : Cell) × (right : List Cell) × (p' : Pager) × (split_leaf a key
          value p
        ≡ (ok (first.key, p.metadata.num_pages), p'))
      × IsSplit p p' a left (first ∷ right)
      × (left ++ (first ∷ right) ≡ put_in (leaf_cell key value) cells)
      × All (λ (x : Cell). Above x.key (first ∷ right)) left
      × (length left ≤ length right + 1)
      × (length right ≤ length left)
split_leaf-put_in p a cells key value open_now lt leaf w s absent k v few short fl fr =
    let c : Cell = leaf_cell key value in
    let (left, right, parts, whole, sl, sr, above, le, ge) = halves-with_cell c cells s absent in
    let all : All (IsCell true) (left ++ right) = rw whole (
      put_in-All (IsCell true) c cells (leaf_cell-IsCell key value k v)
        (rw (← leaf) (IsCell-All (page_at p a) cells w))) in
    at_right left right parts whole sl sr above le ge (All-append (IsCell true) left right all)
      (rw (← ap (λ (h : List Cell × List Cell). h.0) parts) fl)
      (rw (← ap (λ (h : List Cell × List Cell). h.1) parts) fr)
  where
    at_right :
        (left right : List Cell)
        → halves (with_cell (leaf_cell key value) cells) ≡ (left, right)
        → left ++ right ≡ put_in (leaf_cell key value) cells
        → IsAscending left
        → IsAscending right
        → All (λ (x : Cell). Above x.key right) left
        → length left ≤ length right
        → length right ≤ length left + 1
        → All (IsCell true) left × All (IsCell true) right
        → taken (is_old (page_at p a).bytes) left ≤ page_size
        → taken false right ≤ page_size
        → (left : List Cell) × (first : Cell) × (right : List Cell) × (p' : Pager) × (split_leaf a
              key value p
            ≡ (ok (first.key, p.metadata.num_pages), p'))
          × IsSplit p p' a left (first ∷ right)
          × (left ++ (first ∷ right) ≡ put_in (leaf_cell key value) cells)
          × All (λ (x : Cell). Above x.key (first ∷ right)) left
          × (length left ≤ length right + 1)
          × (length right ≤ length left)
    at_right left [] parts whole sl sr above le ge cs fl fr = absurd (
        omega (
          arith,
          le,
          length-append left [],
          ap (λ (t : List Cell). length t) whole,
          put_in-nonempty (leaf_cell key value) cells,
        ))
    at_right left (first ∷ right) parts whole sl sr above le ge cs fl fr =
        let (p', ran, split) =
          split_leaf-run p a cells key value left first right lt open_now w leaf few short parts
            (sl, sr) cs fl (omega (arith, fr)) in
        (left, first, right, p', ran, split, whole, above, omega (arith, le), omega (arith, ge))
