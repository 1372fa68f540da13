-- ===== src/Btree/Page/Behind.antt =====
-- InsertCell of a cell whose key is above those of the page.
use storage_engines.Base.{
  List, [], ap, arith, false, length, le→ltb_false, none, ok, refl, suc, ◌++◌, ◌+◌, ◌∙◌, ◌∷◌, ◌≡◌,
  ◌≤◌,
}
use storage_engines.Base.Int.{pos}
use storage_engines.Btree.Page.{
  Cell, Page, cell_dir_offset, free_ptr, insert_cell, is_full, is_leaf, search_cell, value_size,
}
use storage_engines.Btree.Page.Encoded.{IsCell, encoded, is_old}
use storage_engines.Btree.Page.Spec.{IsAscending, get_elem?-bound, insert_nth}
use storage_engines.Btree.Page.Place.{IsBelow, find_place-pos}
use storage_engines.Btree.Page.Invariant.{IsSuccessor, Represents}
use storage_engines.Btree.Page.Search.{search_cell-find_place}
use storage_engines.Btree.Page.Insert.{insert_loop-absent, is_full_lem}

insert_nth-end :
    (c : Cell) (cells : List Cell) → insert_nth (length cells) c cells ≡ cells ++ (c ∷ [])
insert_nth-end c [] = refl
insert_nth-end c (d ∷ cells) = ap (λ (t : List Cell). d ∷ t) (insert_nth-end c cells)

-- A cell whose key is above all others is put behind them, if it fits.
pub insert_cell-behind :
    (p : Page) (cells : List Cell) (c : Cell)
    → Represents p cells
    → IsAscending cells
    → IsCell (is_leaf p) c
    → IsBelow c.key cells (length cells)
    → cell_dir_offset (length cells + 1) + length (encoded (is_old p.bytes) (is_leaf p) c)
      ≤ free_ptr p.bytes
    → (p' : Page) × (insert_cell p c ≡ (none, p'))
      × Represents p' (cells ++ (c ∷ []))
      × IsSuccessor p p'
      × (free_ptr p'.bytes + length (encoded (is_old p.bytes) (is_leaf p) c) ≡ free_ptr p.bytes)
unfolding insert_cell
insert_cell-behind p cells c w s v below fits =
    let room : is_full p (length c.key) (value_size p c) ≡ false =
      is_full_lem p cells w c v ∙ le→ltb_false (free_ptr p.bytes) _ fits in
    let ran : search_cell p c.key ≡ ok (pos (length cells)) =
      search_cell-find_place p cells w s c.key
      ∙ ap ok (
          find_place-pos c.key (length cells) 0 cells (omega arith) below
            (λ i d le e. absurd (omega (arith, get_elem?-bound i d cells e, le)))
          ∙ ap pos (omega arith)) in
    let (p', done, w', n, free) =
      insert_loop-absent (length cells) p cells c (length cells) w v room ran (omega arith) in
    let more : length cells + 1 ≡ suc (length cells) = omega arith in
    (p', rw (w.count, more) done, rw (← insert_nth-end c cells) w', n, free)
