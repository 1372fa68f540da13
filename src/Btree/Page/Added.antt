-- ===== src/Btree/Page/Added.antt =====
-- The bytes of a page that represents a list of cells, after a new cell is added to it.
use storage_engines.Base.{
  Bool-cases, List, ap, arith, drop, get_elem?, inl, inr, length, ltb, ltb_false→le, ltb→lt, some,
  suc, sym, true, zero, ℕ, ◌++◌, ◌+◌, ◌<◌, ◌^◌, ◌∙◌, ◌≡◌, ◌≤◌,
}
use storage_engines.Bytes.{Bytes}
use storage_engines.Bytes.Endian.{get_be}
use storage_engines.Bytes.Patch.{drop-patch_here, patch, slice-patch_before}
use storage_engines.Btree.Page.{
  Cell, Page, be_at, cell_dir_offset, free_ptr, header_size, is_leaf, num_cells, right_ptr,
  set_free_ptr, set_num_cells,
}
use storage_engines.Btree.Page.Encoded.{IsCell, encoded, is_old}
use storage_engines.Btree.Page.Directory.{
  IsKept, IsKept-trans, IsShiftedUp, entry, entry-same_behind, entry-set_entry_before,
  entry-set_entry_behind, entry-set_entry_here, patch-IsKept, set_entry, set_entry-IsKept,
}
use storage_engines.Btree.Page.Spec.{
  get-insert_nth_here, get-insert_nth_low, get-insert_nth_up, get_elem?-bound, insert_nth,
  length-insert_nth,
}
use storage_engines.Btree.Page.Place.{same_cell}
use storage_engines.Btree.Page.Invariant.{
  Holds, Holds-moved, IsKept-header, IsKept-is_old, Represents,
}
use storage_engines.Btree.Page.Header.{
  drop-set_free_ptr, drop-set_num_cells, free_ptr-set_free_ptr, is_old-set_free_ptr,
  is_old-set_num_cells, length-set_free_ptr, length-set_num_cells, num_cells-set_free_ptr,
  num_cells-set_num_cells, right_ptr-set_free_ptr, right_ptr-set_num_cells,
}

-- The bytes of a new cell are written in front of the others, at the offset `o`, and the entries from
-- a place on are moved up.
module _ (p : Page) (cells : List Cell) (w : Represents p cells) (place : ℕ)
    (le : place ≤ length cells) (c : Cell) (v : IsCell (is_leaf p) c) (o : ℕ)
    (fits : o + length (encoded (is_old p.bytes) (is_leaf p) c) ≡ free_ptr p.bytes)
    (room : cell_dir_offset (length cells + 1) ≤ o) where
  unfoldable pub bytes_of : Bytes
  bytes_of = encoded (is_old p.bytes) (is_leaf p) c

  unfoldable pub written : Bytes
  unfolding patch bytes_of
  written = patch p.bytes o bytes_of

  pub written-IsKept : IsKept (free_ptr p.bytes) p.bytes written
  unfolding written bytes_of
  written-IsKept =
      patch-IsKept p.bytes o (free_ptr p.bytes) bytes_of (omega (arith, room)) (omega (arith, fits))
        (omega (arith, w.inside, w.size))

  pub entry-written : (j : ℕ) → j < length cells → entry written j ≡ entry p.bytes j
  unfolding written bytes_of entry be_at
  entry-written j h = ap get_be (
      slice-patch_before p.bytes o (cell_dir_offset j) 2 bytes_of
        (omega (arith, fits, w.inside, w.size)) (omega (arith, room, h)))

  module _ (b2 : Bytes) (s : IsShiftedUp (length cells) place written b2) where
    unfoldable pub b3 : Bytes
    b3 = set_entry b2 place o

    pub small : o < 2 ^ 16
    small = omega (arith, fits, w.inside)

    pub few : length cells + 1 < 2 ^ 16
    few = omega (arith, room, fits, w.inside)

    pub room2 : cell_dir_offset place + 2 ≤ length b2
    room2 =
        omega
          (arith, s.kept.same_length, written-IsKept.same_length, w.size, w.inside, fits, room, le)

    pub kept : IsKept (free_ptr p.bytes) p.bytes b3
    unfolding b3
    kept =
        IsKept-trans (free_ptr p.bytes) (cell_dir_offset place + 2) p.bytes b2 b3
          (IsKept-trans (free_ptr p.bytes) (cell_dir_offset (length cells) + 2) p.bytes written b2
            written-IsKept s.kept (omega (arith, fits, room)))
          (set_entry-IsKept b2 place o room2) (omega (arith, fits, room, le))

    unfoldable pub b4 : Bytes
    b4 = set_num_cells b3 (length cells + 1)

    room3 : header_size ≤ length b3
    room3 = omega (arith, kept.same_length, w.size)

    room4 : header_size ≤ length b4
    unfolding b4
    room4 = omega (arith, length-set_num_cells b3 (length cells + 1) room3 few, room3)

    unfoldable pub b5 : Bytes
    b5 = set_free_ptr b4 o

    length-b5 : length b5 ≡ length p.bytes
    unfolding b4 b5
    length-b5 =
        length-set_free_ptr b4 o room4 small
        ∙ length-set_num_cells b3 (length cells + 1) room3 few
        ∙ kept.same_length

    pub is_old-b5 : is_old b5 ≡ is_old p.bytes
    unfolding b4 b5
    is_old-b5 =
        is_old-set_free_ptr b4 o room4 small
        ∙ is_old-set_num_cells b3 (length cells + 1) room3 few
        ∙ IsKept-is_old (free_ptr p.bytes) p.bytes b3 kept

    pub right_ptr-b5 : right_ptr b5 ≡ right_ptr p.bytes
    unfolding b4 b5
    right_ptr-b5 =
        right_ptr-set_free_ptr b4 o room4 small
        ∙ right_ptr-set_num_cells b3 (length cells + 1) room3 few
        ∙ (IsKept-header (free_ptr p.bytes) p.bytes b3 kept).2

    num_cells-b5 : num_cells b5 ≡ length cells + 1
    unfolding b4 b5
    num_cells-b5 =
        num_cells-set_free_ptr b4 o room4 small
        ∙ num_cells-set_num_cells b3 (length cells + 1) room3 few

    pub free_ptr-b5 : free_ptr b5 ≡ o
    unfolding b5
    free_ptr-b5 = free_ptr-set_free_ptr b4 o room4 small

    drop-b5 : (k : ℕ) → header_size ≤ k → drop k b5 ≡ drop k b3
    unfolding b4 b5
    drop-b5 k h =
        drop-set_free_ptr b4 o room4 small k h
        ∙ drop-set_num_cells b3 (length cells + 1) room3 few k h

    entry-b5 : (j : ℕ) → entry b5 j ≡ entry b3 j
    entry-b5 j = entry-same_behind b3 b5 j (drop-b5 (cell_dir_offset j) (omega arith))

    moved :
        (i j : ℕ) (d : Cell)
        → get_elem? cells i ≡ some d
        → entry b3 j ≡ entry p.bytes i
        → Holds b5 (is_leaf p) (entry b5 j) d
    moved i j d e f =
        let h = w.holds i d e in
        Holds-moved p.bytes b5 (is_leaf p) (entry p.bytes i) (entry b5 j) d h is_old-b5
          (omega (arith, free_ptr-b5, fits)) (entry-b5 j ∙ f)
          (drop-b5 (entry p.bytes i) (omega (arith, h.after, w.apart))
            ∙ kept.same_behind (entry p.bytes i) h.after)

    drop-new : drop o b5 ≡ bytes_of ++ drop (o + length bytes_of) p.bytes
    unfolding b3 written bytes_of
    drop-new =
        drop-b5 o (omega (arith, room))
        ∙ (set_entry-IsKept b2 place o room2).same_behind o (omega (arith, room, le))
        ∙ s.kept.same_behind o (omega (arith, room))
        ∙ drop-patch_here p.bytes o bytes_of (omega (arith, fits, w.inside, w.size))

    new_one : Holds b5 (is_leaf p) (entry b5 place) c
    unfolding b3 bytes_of
    new_one = record {
      is_cell = v;
      after = omega (arith, free_ptr-b5, at);
      rest = drop (o + length bytes_of) p.bytes;
      here = rw (at, is_old-b5) drop-new;
    }
      where
        at : entry b5 place ≡ o
        at = entry-b5 place ∙ entry-set_entry_here b2 place o room2 small

    low : (j : ℕ) → j < place → entry b3 j ≡ entry p.bytes j
    unfolding b3
    low j h =
        entry-set_entry_before b2 place o room2 j h
        ∙ s.low j h
        ∙ entry-written j (omega (arith, le))

    up : (j : ℕ) → place ≤ j → j < length cells → entry b3 (suc j) ≡ entry p.bytes j
    unfolding b3
    up j h lt =
        entry-set_entry_behind b2 place o room2 (suc j) (omega arith)
        ∙ s.up j h lt
        ∙ entry-written j lt

    unfoldable pub page_of : Page
    page_of = record p { bytes = b5; dirty = true }

    holds_after :
        (j : ℕ) (d : Cell)
        → get_elem? (insert_nth place c cells) j ≡ some d
        → Holds b5 (is_leaf p) (entry b5 j) d
    holds_after j d e = elim (Bool-cases (ltb j place)) [
      | inl t ↦
          let lt : j < place = ltb→lt j place t in
          moved j j d (sym (get-insert_nth_low place j c cells lt le) ∙ e) (low j lt)
      | inr t ↦ elim (Bool-cases (ltb place j)) [
        | inr u ↦
            let q : j ≡ place = omega (arith, ltb_false→le j place t, ltb_false→le place j u) in
            rw
              (
                q,
                ← same_cell place j d c (insert_nth place c cells)
                    (get-insert_nth_here place c cells le) e q,
              )
              new_one
        | inl u ↦ behind j (ltb→lt place j u) e
      ]
    ]
      where
        behind :
            (i : ℕ)
            → place < i
            → get_elem? (insert_nth place c cells) i ≡ some d
            → Holds b5 (is_leaf p) (entry b5 i) d
        behind zero lt f = absurd (omega arith)
        behind (suc i) lt f =
            let g : get_elem? cells i ≡ some d =
              sym (get-insert_nth_up place i c cells (omega arith) le) ∙ f in
            moved i (suc i) d g (up i (omega arith) (get_elem?-bound i d cells g))

    pub page_of-Represents : Represents page_of (insert_nth place c cells)
    unfolding page_of is_leaf
    page_of-Represents = record {
      size = length-b5 ∙ w.size;
      count = num_cells-b5 ∙ omega (arith, length-insert_nth place c cells);
      apart = omega (arith, length-insert_nth place c cells, free_ptr-b5, room);
      inside = omega (arith, free_ptr-b5, fits, w.inside);
      holds = holds_after;
    }
