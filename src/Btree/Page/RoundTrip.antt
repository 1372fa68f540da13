-- ===== src/Btree/Page/RoundTrip.antt =====
-- A cell that is written in a page and read back.
use storage_engines.Base.{arith, drop, length, ok, ℕ, ◌+◌, ◌∙◌, ◌≡◌, ◌≤◌}
use storage_engines.Bytes.{Bytes}
use storage_engines.Bytes.Patch.{drop-patch_here, patch}
use storage_engines.Btree.Page.{
  Cell, Page, cell_size, header_size, is_leaf, page_size, parse_cell, value_size, write_cell,
}
use storage_engines.Btree.Page.Encoded.{IsCell, encoded, is_old, write_cell-encoded}
use storage_engines.Btree.Page.Decoded.{cell_size-encoded, parse_cell-encoded}
use storage_engines.Btree.Page.Directory.{patch-IsKept}
use storage_engines.Btree.Page.Invariant.{IsKept-is_old}

-- In a page of 4096 bytes, of either format, a cell is written at an offset behind the header from which
-- the size that cellSize gives ends in the page, and it is read back there as it was.
pub parse_cell-write_cell :
    (p : Page) (off : ℕ) (c : Cell)
    → IsCell (is_leaf p) c
    → length p.bytes ≡ page_size
    → header_size ≤ off
    → off + cell_size p (length c.key) (value_size p c) ≤ page_size
    → (b : Bytes) × (write_cell (is_leaf p) p.bytes off c ≡ ok b)
      × (parse_cell (is_leaf p) b off ≡ ok c)
parse_cell-write_cell p off c v size above room =
    let enc : Bytes = encoded (is_old p.bytes) (is_leaf p) c in
    let fits : off + length enc ≤ length p.bytes =
      omega (arith, cell_size-encoded p c v, size, room) in
    let kept = patch-IsKept p.bytes off (off + length enc) enc above (omega arith) fits in
    let same = IsKept-is_old (off + length enc) p.bytes (patch p.bytes off enc) kept in
    (
      patch p.bytes off enc,
      write_cell-encoded (is_leaf p) p.bytes off c v fits,
      parse_cell-encoded (is_leaf p) (patch p.bytes off enc) (drop (off + length enc) p.bytes) off c
          v (kept.same_length ∙ size)
          (rw same (drop-patch_here p.bytes off enc (omega (arith, fits)))),
    )
