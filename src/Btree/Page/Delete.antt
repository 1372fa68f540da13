-- ===== src/Btree/Page/Delete.antt =====
-- DeleteCell on a page that represents a list of cells.
use storage_engines.Base.{
  Bool-cases, List, arith, get_elem?, inl, inr, length, ltb, ltb_false→le, ltb→lt, lt→leb_false,
  none, refl, some, suc, sym, true, ℕ, ◌+◌, ◌-◌, ◌<◌, ◌^◌, ◌∙◌, ◌≡◌, ◌≤◌,
}
use storage_engines.Bytes.{Bytes}
use storage_engines.Btree.Page.{
  Cell, Page, cell_dir_offset, delete_cell, free_ptr, header_size, is_leaf, set_num_cells,
}
use storage_engines.Btree.Page.Directory.{IsShiftedDown, entry, entry-same_behind, shift_down_lem}
use storage_engines.Btree.Page.Spec.{
  get-remove_nth_low, get-remove_nth_up, get_elem?-bound, length-remove_nth, remove_nth,
}
use storage_engines.Btree.Page.Invariant.{
  Holds, Holds-moved, IsKept-header, IsKept-is_old, IsSuccessor, Represents, entry-short,
}
use storage_engines.Btree.Page.Header.{
  drop-set_num_cells, free_ptr-set_num_cells, is_old-set_num_cells, length-set_num_cells,
  num_cells-set_num_cells, right_ptr-set_num_cells,
}

module _ (p : Page) (cells : List Cell) (w : Represents p cells) (index : ℕ)
    (lt : index < length cells) where
  -- The page that DeleteCell leaves, from the directory that the loop leaves.
  without : Bytes → Page
  without b1 = record p { bytes = set_num_cells b1 (length cells - 1); dirty = true }

  without-Represents :
      (b1 : Bytes)
      → IsShiftedDown (length cells - 1 - index) index p.bytes b1
      → Represents (without b1) (remove_nth index cells)
  unfolding without is_leaf
  without-Represents b1 s = record {
    size = length-set_num_cells b1 n room short ∙ s.kept.same_length ∙ w.size;
    count = num_cells-set_num_cells b1 n room short ∙ omega (arith, fewer);
    apart = omega (arith, free, fewer, w.apart);
    inside = omega (arith, free, w.inside);
    holds = λ j c e. elim (Bool-cases (ltb j index)) [
      | inl t ↦
          moved j j c (sym (get-remove_nth_low index j cells (ltb→lt j index t)) ∙ e)
            (s.low j (ltb→lt j index t))
      | inr t ↦
          moved (suc j) j c (sym (get-remove_nth_up index j cells (ltb_false→le j index t)) ∙ e) (
            s.down j (ltb_false→le j index t)
              (omega (arith, fewer, get_elem?-bound j c (remove_nth index cells) e)))
    ];
  }
    where
      n : ℕ
      n = length cells - 1

      room : header_size ≤ length b1
      room = omega (arith, s.kept.same_length, w.size)

      short : n < 2 ^ 16
      short = omega (arith, w.apart, w.inside)

      fewer : suc (length (remove_nth index cells)) ≡ length cells
      fewer = length-remove_nth index cells lt

      free : free_ptr (set_num_cells b1 n) ≡ free_ptr p.bytes
      free =
          free_ptr-set_num_cells b1 n room short
          ∙ (IsKept-header (cell_dir_offset (index + (n - index))) p.bytes b1 s.kept).1

      moved :
          (i j : ℕ) (c : Cell)
          → get_elem? cells i ≡ some c
          → entry b1 j ≡ entry p.bytes i
          → Holds (set_num_cells b1 n) (is_leaf p) (entry (set_num_cells b1 n) j) c
      moved i j c e f =
          let h = w.holds i c e in
          let k : ℕ = cell_dir_offset (index + (n - index)) in
          Holds-moved p.bytes (set_num_cells b1 n) (is_leaf p) (entry p.bytes i)
            (entry (set_num_cells b1 n) j) c h
            (is_old-set_num_cells b1 n room short ∙ IsKept-is_old k p.bytes b1 s.kept)
            (omega (arith, free))
            (entry-same_behind b1 (set_num_cells b1 n) j
                (drop-set_num_cells b1 n room short (cell_dir_offset j) (omega arith))
              ∙ f)
            (drop-set_num_cells b1 n room short (entry p.bytes i) (omega (arith, h.after, w.apart))
              ∙ s.kept.same_behind (entry p.bytes i) (omega (arith, h.after, w.apart)))

  -- If a page represents a list of cells, then DeleteCell at an index below their number succeeds, and
  -- the page that it leaves represents the list without that cell. The kind of the page, its format,
  -- its right pointer and its free pointer are kept.
  pub delete_cell-Represents :
      (p' : Page) × (delete_cell p index ≡ (none, p'))
      × Represents p' (remove_nth index cells)
      × IsSuccessor p p'
      × (free_ptr p'.bytes ≡ free_ptr p.bytes)
  unfolding delete_cell without is_leaf
  delete_cell-Represents =
      let (b1, ran, s) =
        shift_down_lem (length cells - 1 - index) index p.bytes
          (omega (arith, w.size, w.apart, w.inside))
          (λ j h. entry-short p cells w j (omega (arith, h))) in
      (
        without b1,
        rw (w.count, lt→leb_false (length cells) index lt, ran) refl,
        without-Represents b1 s,
        record {
          same_id = refl;
          same_kind = refl;
          same_right =
              right_ptr-set_num_cells b1 n (room s) few ∙ (IsKept-header k p.bytes b1 s.kept).2;
          same_format = is_old-set_num_cells b1 n (room s) few ∙ IsKept-is_old k p.bytes b1 s.kept;
        },
        free_ptr-set_num_cells b1 n (room s) few ∙ (IsKept-header k p.bytes b1 s.kept).1,
      )
    where
      n : ℕ
      n = length cells - 1

      few : n < 2 ^ 16
      few = omega (arith, w.apart, w.inside)

      k : ℕ
      k = cell_dir_offset (index + (length cells - 1 - index))

      room :
          {b : Bytes}
          → IsShiftedDown (length cells - 1 - index) index p.bytes b
          → header_size ≤ length b
      room s = omega (arith, s.kept.same_length, w.size)
