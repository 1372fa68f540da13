-- ===== src/Btree/Page/Rest.antt =====
-- The cells of a page from an index on, for the loops over a page.
use storage_engines.Base.{List, ap, arith, get_elem?, length, ok, suc, ℕ, ◌+◌, ◌∙◌, ◌∷◌, ◌≡◌}
use storage_engines.Btree.Page.{Cell, Page, cell_at}
use storage_engines.Btree.Page.Invariant.{Represents, cell_at-Represents, read}

module _ (cells : List Cell) where
  -- What stands from the index on.
  abbrev pub IsRest : ℕ → List Cell → Type 0
  IsRest i rest =
      (i + length rest ≡ length cells) × ((j : ℕ) → get_elem? cells (i + j) ≡ get_elem? rest j)

  pub IsRest-whole : IsRest 0 cells
  IsRest-whole = (omega arith, λ j. ap (get_elem? cells) (omega arith))

  pub IsRest-next :
      (i : ℕ) (c : Cell) (rest : List Cell) → IsRest i (c ∷ rest) → IsRest (i + 1) rest
  IsRest-next i c rest (n, h) =
      (omega (arith, n), λ j. ap (get_elem? cells) (omega arith) ∙ h (suc j))

pub cell_at-rest :
    (p : Page) (cells : List Cell)
    → Represents p cells
    → (i : ℕ) (c : Cell) (rest : List Cell) → IsRest cells i (c ∷ rest)
    → cell_at p i ≡ ok c
cell_at-rest p cells w i c rest (n, h) =
    cell_at-Represents p cells w i ∙ ap read (ap (get_elem? cells) (omega arith) ∙ h 0)
