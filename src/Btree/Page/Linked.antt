-- ===== src/Btree/Page/Linked.antt =====
-- SetRightPtr on a page that represents a list of cells.
use storage_engines.Base.{List, arith, length, ℕ, ◌∙◌, ◌≤◌}
use storage_engines.Btree.Page.{Cell, Page, cell_dir_offset, header_size, is_leaf, set_right_ptr}
use storage_engines.Btree.Page.Directory.{entry, entry-same_behind}
use storage_engines.Btree.Page.Invariant.{Holds-moved, Represents}
use storage_engines.Btree.Page.Header.{
  drop-set_right_ptr, free_ptr-set_right_ptr, is_old-set_right_ptr, length-set_right_ptr,
  num_cells-set_right_ptr,
}

pub set_right_ptr-Represents :
    (p : Page) (cells : List Cell) (n : ℕ)
    → Represents p cells
    → Represents (set_right_ptr p n) cells
unfolding is_leaf
set_right_ptr-Represents p cells n w =
    let room : header_size ≤ length p.bytes = omega (arith, w.size) in
    let q : Page = set_right_ptr p n in
    record {
      size = length-set_right_ptr p n room ∙ w.size;
      count = num_cells-set_right_ptr p n room ∙ w.count;
      apart = omega (arith, w.apart, free_ptr-set_right_ptr p n room);
      inside = omega (arith, w.inside, free_ptr-set_right_ptr p n room);
      holds = λ i c e.
          let h = w.holds i c e in
          unfold set_right_ptr in
          Holds-moved p.bytes q.bytes (is_leaf p) (entry p.bytes i) (entry q.bytes i) c h
            (is_old-set_right_ptr p n room) (omega (arith, free_ptr-set_right_ptr p n room))
            (entry-same_behind p.bytes q.bytes i
              (drop-set_right_ptr p n room (cell_dir_offset i) (omega arith)))
            (drop-set_right_ptr p n room (entry p.bytes i) (omega (arith, h.after, w.apart)));
    }
