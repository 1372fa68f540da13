-- ===== src/Btree/Tree/Split.antt =====
-- How a split distributes the cells of a leaf and a new one over two pages.
use storage_engines.Base.{
  All, List, Ordering-cases, [], ap, arith, drop, false, inl, inr, length, length-drop, length-take,
  none, refl, suc, take, take-drop, true, ℕ, ◌++◌, ◌+◌, ◌/◌, ◌∙◌, ◌∷◌, ◌≡◌, ◌≤◌,
}
use storage_engines.Bytes.{Bytes}
use storage_engines.Bytes.Order.{compare_bytes, key_lt}
use storage_engines.Btree.Page.{Cell}
use storage_engines.Btree.Page.Spec.{Above, IsAscending, put_in}
use storage_engines.Btree.Page.Place.{put_in-IsAscending}
use storage_engines.Btree.Node.Leaf.{find_cell}
use storage_engines.Btree.Tree.{halves, insert_pos, with_cell}

insert_pos-suc :
    (key : Bytes) (cells : List Cell) (i : ℕ)
    → insert_pos key cells (i + 1) ≡ suc (insert_pos key cells i)
unfolding insert_pos
insert_pos-suc key [] i = omega arith
insert_pos-suc key (d ∷ cells) i = ground (arith, insert_pos-suc key cells (i + 1))

with_cell-next :
    (c d : Cell) (cells : List Cell)
    → key_lt c.key d.key ≡ false
    → with_cell c (d ∷ cells) ≡ d ∷ with_cell c cells
unfolding with_cell insert_pos
with_cell-next c d cells h = rw (insert_pos, h, insert_pos-suc c.key cells 0) refl

with_cell-first :
    (c d : Cell) (cells : List Cell)
    → key_lt c.key d.key ≡ true
    → with_cell c (d ∷ cells) ≡ c ∷ d ∷ cells
unfolding with_cell insert_pos
with_cell-first c d cells h = rw (insert_pos, h) refl

pub with_cell-put_in :
    (c : Cell) (cells : List Cell)
    → find_cell c.key cells ≡ none
    → with_cell c cells ≡ put_in c cells
unfolding put_in find_cell
with_cell-put_in c [] h = unfold with_cell in refl
with_cell-put_in c (d ∷ cells) h = elim (Ordering-cases (compare_bytes c.key d.key)) [
  | inl o ↦ with_cell-first c d cells (ground arith) ∙ rw (put_in, o) refl
  | inr (inl o) ↦ absurd (ground (arith, h))
  | inr (inr o) ↦
      with_cell-next c d cells (ground arith)
      ∙ rw (put_in, o)
          (ap (λ (t : List Cell). d ∷ t) (with_cell-put_in c cells (ground (arith, h))))
]

Above-append : (k : Bytes) (xs ys : List Cell) → Above k (xs ++ ys) → Above k xs × Above k ys
Above-append k [] ys a = (tt, a)
Above-append k (x ∷ xs) ys a = let (b, c) = Above-append k xs ys a.1 in ((a.0, b), c)

pub IsAscending-append :
    (xs ys : List Cell)
    → IsAscending (xs ++ ys)
    → IsAscending xs × IsAscending ys × All (λ (x : Cell). Above x.key ys) xs
IsAscending-append [] ys s = (tt, s, tt)
IsAscending-append (x ∷ xs) ys s =
    let (a, b) = Above-append x.key xs ys s.0 in
    let (t, u, v) = IsAscending-append xs ys s.1 in ((a, t), u, (b, v))

-- If cells ascend and the key of a new cell is not among them, then the two halves are, one behind the
-- other, the cells with the new one put in at its place. Both halves ascend, every key of the left one is below every key of the right one, and the right half has as
-- many cells as the left one or one more.
pub halves-with_cell :
    (c : Cell) (cells : List Cell)
    → IsAscending cells
    → find_cell c.key cells ≡ none
    → (left : List Cell) × (right : List Cell) × (halves (with_cell c cells) ≡ (left, right))
      × (left ++ right ≡ put_in c cells)
      × IsAscending left
      × IsAscending right
      × All (λ (x : Cell). Above x.key right) left
      × (length left ≤ length right)
      × (length right ≤ length left + 1)
unfolding halves
halves-with_cell c cells s absent =
    let all : List Cell = with_cell c cells in
    let half : ℕ = length all / 2 in
    let whole : take half all ++ drop half all ≡ put_in c cells =
      take-drop half all ∙ with_cell-put_in c cells absent in
    let (t, u, v) =
      IsAscending-append (take half all) (drop half all)
        (rw whole (put_in-IsAscending c cells s)) in
    (
      take half all,
      drop half all,
      refl,
      whole,
      t,
      u,
      v,
      omega (arith, length-take half all, length-drop half all),
      omega (arith, length-take half all, length-drop half all),
    )
