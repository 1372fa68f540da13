-- ===== src/Btree/Page/Search.antt =====
-- searchCell on a page that represents an ascending list of cells.
use storage_engines.Base.{
  Bool-cases, List, Ordering-cases, ap, arith, get_elem?, inl, inr, length, le→ltb_false, ltb,
  ltb_false→le, ltb→lt, ok, refl, some, suc, zero, ℕ, ◌+◌, ◌/◌, ◌<◌, ◌^◌, ◌∙◌, ◌≡◌, ◌≤◌,
}
use storage_engines.Base.Int.{negsuc, pos, ℤ}
use storage_engines.Bytes.{Bytes}
use storage_engines.Bytes.Order.{compare_bytes, compare_bytes-flip}
use storage_engines.Btree.Page.{Cell, Page, cell_at, search_cell, search_loop, u16}
use storage_engines.Btree.Page.Spec.{IsAscending, find_place, get_elem?-bound, get_elem?-within}
use storage_engines.Btree.Page.Place.{
  IsAbove, IsAbove-at, IsBelow, IsBelow-past, IsBelow-to, Located, Located-find_place, absent_at,
  present_at,
}
use storage_engines.Btree.Page.Invariant.{Represents, cell_at-Represents, read}

module _ (p : Page) (cells : List Cell) (w : Represents p cells) (s : IsAscending cells)
    (k : Bytes) where
  few_cells : length cells < 2 ^ 16
  few_cells = omega (arith, w.apart, w.inside)

  probe : (m : ℕ) (c : Cell) → get_elem? cells m ≡ some c → cell_at p (u16 m) ≡ ok c
  probe m c at =
      ap (cell_at p) (omega (arith, few_cells, get_elem?-bound m c cells at))
      ∙ cell_at-Represents p cells w m
      ∙ ap read at

  search_loop-Located :
      (fuel l r : ℕ)
      → l ≤ r
      → r ≤ length cells
      → r ≤ l + fuel
      → IsBelow k cells l
      → IsAbove k cells r
      → (z : ℤ) × (search_loop fuel p k l r ≡ ok z) × Located k cells z
  unfolding search_loop
  search_loop-Located zero l r le end enough lo hi =
      let e : r ≡ l = omega arith in
      (
        pos l,
        rw (le→ltb_false l r (omega arith)) refl,
        absent_at l (omega arith) lo (λ i c h. hi i c (omega arith)),
      )
  search_loop-Located (suc fuel) l r le end enough lo hi = elim (Bool-cases (ltb l r)) [
    | inr e ↦
        let ge : r ≤ l = ltb_false→le l r e in
        (pos l, rw e refl, absent_at l (omega arith) lo (λ i c h. hi i c (omega arith)))
    | inl e ↦
        let lt : l < r = ltb→lt l r e in
        let mid : ℕ = (l + r) / 2 in
        let (c, at) = get_elem?-within mid cells (omega arith) in
        let there : cell_at p (u16 mid) ≡ ok c = probe mid c at in
        elim (Ordering-cases (compare_bytes k c.key)) [
          | inl o ↦
              let (z, ran, found) =
                search_loop-Located fuel l mid (omega arith) (omega arith) (omega arith) lo
                  (IsAbove-at k mid c cells s at o) in
              (z, rw (e, there, o) ran, found)
          | inr (inl o) ↦ (
            negsuc mid,
            rw (e, there, o) refl,
            present_at mid c at o
                (IsBelow-to k mid c cells s at (ground (arith, compare_bytes-flip k c.key))),
          )
          | inr (inr o) ↦
              let (z, ran, found) =
                search_loop-Located fuel (mid + 1) r (omega arith) end (omega arith)
                  (IsBelow-past k mid c cells s at o) hi in
              (z, rw (e, there, o) ran, found)
        ]
  ]

  pub search_cell-Located : (z : ℤ) × (search_cell p k ≡ ok z) × Located k cells z
  unfolding search_cell
  search_cell-Located = rw w.count (
      search_loop-Located (length cells) 0 (length cells) (omega arith) (omega arith) (omega arith)
        (λ i c h e. absurd (omega arith))
        (λ i c h e. absurd (omega (arith, get_elem?-bound i c cells e))))

  -- On a page that represents an ascending list of cells, the binary search answers what a search from
  -- the left finds: the place of the key, or the place of the first cell with a larger key.
  pub search_cell-find_place : search_cell p k ≡ ok (find_place k cells 0)
  search_cell-find_place =
      let (z, ran, found) = search_cell-Located in ran ∙ ap ok (Located-find_place k cells z found)
