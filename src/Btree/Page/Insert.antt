-- ===== src/Btree/Page/Insert.antt =====
-- InsertCell on a page that represents a list of cells.
use storage_engines.Base.{
  Bool, Bool-cases, inl, inr, if◌then◌else◌, List, Ordering, ap, arith, false, get_elem?, length,
  le→ltb_false, ltb, ltb_false→le, none, ok, page_full, refl, some, suc, sym, true, zero, ℕ, ◌+◌,
  ◌-◌, ◌<◌, ◌^◌, ◌∙◌, ◌≡◌, ◌≤◌,
}
use storage_engines.Base.Int.{negsuc, pos, ℤ}
use storage_engines.Bytes.{Bytes}
use storage_engines.Btree.Page.{
  Cell, Page, cell_dir_offset, cell_size, compare_bytes, free_ptr, insert_at, insert_cell,
  insert_loop, is_full, is_leaf, num_cells, search_cell, u16, value_size, wrote,
}
use storage_engines.Btree.Page.Encoded.{IsCell, encoded, is_old, write_cell-encoded}
use storage_engines.Btree.Page.Decoded.{cell_size-encoded}
use storage_engines.Btree.Page.Directory.{IsKept, set_cell_offset-set_entry, shift_up_lem}
use storage_engines.Btree.Page.Spec.{
  IsAscending, get_elem?-bound, insert_nth, length-remove_nth, put_in, remove_nth,
}
use storage_engines.Btree.Page.Place.{
  Located, Located-remove_nth, absent_at, find_place-pos, present_at, put_in-IsAscending,
  put_in-absent, put_in-present, remove_nth-IsAscending,
}
use storage_engines.Btree.Page.Invariant.{IsSuccessor, IsSuccessor-trans, Represents, entry-short}
use storage_engines.Btree.Page.Search.{search_cell-Located, search_cell-find_place}
use storage_engines.Btree.Page.Delete.{delete_cell-Represents}
use storage_engines.Btree.Page.Added.{
  b3, b4, b5, bytes_of, entry-written, is_old-b5, page_of, page_of-Represents, right_ptr-b5, room2,
  written, written-IsKept, free_ptr-b5,
}

-- IsFull compares the free space with an entry of the directory and the bytes of the cell.
pub is_full_lem :
    (p : Page) (cells : List Cell)
    → Represents p cells
    → (c : Cell) → IsCell (is_leaf p) c
    → is_full p (length c.key) (value_size p c)
      ≡ ltb
          (free_ptr p.bytes)
          (cell_dir_offset (length cells + 1) + length (encoded (is_old p.bytes) (is_leaf p) c))
unfolding is_full
is_full_lem p cells w c v =
    let few : u16 (length cells + 1) ≡ length cells + 1 = omega (arith, w.apart, w.inside) in
    rw (w.count, few, cell_size-encoded p c v) refl

module _ (p : Page) (cells : List Cell) (w : Represents p cells) (c : Cell)
    (v : IsCell (is_leaf p) c) (room : is_full p (length c.key) (value_size p c) ≡ false) where
  size : ℕ
  size = length (encoded (is_old p.bytes) (is_leaf p) c)

  enough : cell_dir_offset (length cells + 1) + size ≤ free_ptr p.bytes
  unfolding size
  enough =
      ltb_false→le (free_ptr p.bytes) (cell_dir_offset (length cells + 1) + size)
        (sym (is_full_lem p cells w c v) ∙ room)

  insert_at-Represents :
      (place : ℕ)
      → place ≤ length cells
      → (p' : Page) × (wrote p (insert_at p place c) ≡ (none, p'))
        × Represents p' (insert_nth place c cells)
        × IsSuccessor p p'
        × (free_ptr p'.bytes + size ≡ free_ptr p.bytes)
  unfolding insert_at size page_of b3 b4 b5 written bytes_of is_leaf
  insert_at-Represents place le =
      let o : ℕ = free_ptr p.bytes - size in
      let fits : o + size ≡ free_ptr p.bytes = omega (arith, enough) in
      let above : cell_dir_offset (length cells + 1) ≤ o = omega (arith, enough) in
      let after : Bytes = written p cells w place le c v o fits above in
      let kept_after : IsKept (free_ptr p.bytes) p.bytes after =
        written-IsKept p cells w place le c v o fits above in
      let (b2, ran, s) =
        shift_up_lem (length cells) place after le
          (omega (arith, kept_after.same_length, w.size, w.inside, fits, above))
          (λ j h.
            rw (entry-written p cells w place le c v o fits above j h)
              (entry-short p cells w j h)) in
      (
        page_of p cells w place le c v o fits above b2 s,
        rw
            (
              new_free,
              w.count,
              place_small place le,
              few_cells,
              write_cell-encoded (is_leaf p) p.bytes o c v (omega (arith, fits, w.inside, w.size)),
              ran,
              set_cell_offset-set_entry b2 place o (room2 p cells w place le c v o fits above b2 s),
            )
            refl,
        page_of-Represents p cells w place le c v o fits above b2 s,
        record {
          same_id = refl;
          same_kind = refl;
          same_right = right_ptr-b5 p cells w place le c v o fits above b2 s;
          same_format = is_old-b5 p cells w place le c v o fits above b2 s;
        },
        omega (arith, free_ptr-b5 p cells w place le c v o fits above b2 s, fits),
      )
    where
      new_free :
          u16 (free_ptr p.bytes + 2 ^ 16 - u16 (cell_size p (length c.key) (value_size p c)))
          ≡ free_ptr p.bytes - size
      new_free = omega (arith, cell_size-encoded p c v, enough, w.inside)

      place_small : (m : ℕ) → m ≤ length cells → u16 m ≡ m
      place_small m h = omega (arith, w.apart, w.inside)

      few_cells : u16 (length cells + 1) ≡ length cells + 1
      few_cells = omega (arith, w.apart, w.inside)

-- After the deletion of a cell, a page that was not full is not full.
is_full-removed :
    (p p1 : Page) (cells rest : List Cell) (c : Cell)
    → Represents p cells
    → Represents p1 rest
    → suc (length rest) ≡ length cells
    → IsSuccessor p p1
    → free_ptr p1.bytes ≡ free_ptr p.bytes
    → IsCell (is_leaf p) c
    → IsCell (is_leaf p1) c
    → is_full p (length c.key) (value_size p c) ≡ false
    → is_full p1 (length c.key) (value_size p1 c) ≡ false
is_full-removed p p1 cells rest c w w1 fewer n free v v1 room =
    let size : ℕ = length (encoded (is_old p.bytes) (is_leaf p) c) in
    let enough : cell_dir_offset (length cells + 1) + size ≤ free_ptr p.bytes =
      ltb_false→le (free_ptr p.bytes) (cell_dir_offset (length cells + 1) + size)
        (sym (is_full_lem p cells w c v) ∙ room) in
    is_full_lem p1 rest w1 c v1
    ∙ rw (n.same_kind, n.same_format)
        (le→ltb_false (free_ptr p1.bytes) (cell_dir_offset (length rest + 1) + size)
          (omega (arith, fewer, free, enough)))

pub insert_loop-absent :
    (fuel : ℕ) (p : Page) (cells : List Cell) (c : Cell) (r : ℕ)
    → Represents p cells
    → IsCell (is_leaf p) c
    → is_full p (length c.key) (value_size p c) ≡ false
    → search_cell p c.key ≡ ok (pos r)
    → r ≤ length cells
    → (p' : Page) × (insert_loop (suc fuel) p c ≡ (none, p'))
      × Represents p' (insert_nth r c cells)
      × IsSuccessor p p'
      × (free_ptr p'.bytes + length (encoded (is_old p.bytes) (is_leaf p) c) ≡ free_ptr p.bytes)
unfolding insert_loop size
insert_loop-absent fuel p cells c r w v room ran le =
    let (p', done, w', n, free) = insert_at-Represents p cells w c v room r le in
    (p', rw (room, ran) done, w', n, free)

insert_loop-present :
    (fuel : ℕ) (p : Page) (cells : List Cell) (c : Cell) (r : ℕ) (d : Cell)
    → Represents p cells
    → IsAscending cells
    → IsCell (is_leaf p) c
    → is_full p (length c.key) (value_size p c) ≡ false
    → search_cell p c.key ≡ ok (negsuc r)
    → get_elem? cells r ≡ some d
    → compare_bytes c.key d.key ≡ Ordering.eq
    → (p' : Page) × (insert_loop (suc (suc fuel)) p c ≡ (none, p'))
      × Represents p' (insert_nth r c (remove_nth r cells))
      × IsSuccessor p p'
unfolding insert_loop
insert_loop-present fuel p cells c r d w s v room ran e q =
    let lt : r < length cells = get_elem?-bound r d cells e in
    let rest : List Cell = remove_nth r cells in
    let (p1, gone, w1, n1, free) = delete_cell-Represents p cells w r lt in
    let v1 : IsCell (is_leaf p1) c = rw n1.same_kind v in
    let room1 : is_full p1 (length c.key) (value_size p1 c) ≡ false =
      is_full-removed p p1 cells rest c w w1 (length-remove_nth r cells lt) n1 free v v1 room in
    let (le, lo, hi) = Located-remove_nth c.key r d cells s e q in
    let again : search_cell p1 c.key ≡ ok (pos r) =
      search_cell-find_place p1 rest w1 (remove_nth-IsAscending r cells s) c.key
      ∙ ap ok (find_place-pos c.key r 0 rest le lo hi ∙ ap pos (omega arith)) in
    let (p2, done, w2, n2, free2) = insert_loop-absent fuel p1 rest c r w1 v1 room1 again le in
    let small : u16 r ≡ r = omega (arith, w.apart, w.inside) in
    (p2, rw (room, ran, small, gone) done, w2, IsSuccessor-trans p p1 p2 n1 n2)

-- If a page represents an ascending list of cells and is not full for a cell, then InsertCell succeeds,
-- and the page that it leaves represents the list with the cell put in at its place, or in the place of
-- the cell with the same key. The list is ascending again, and the kind of the page, its format and
-- its right pointer are kept.
pub insert_cell-put_in :
    (p : Page) (cells : List Cell) (c : Cell)
    → Represents p cells
    → IsAscending cells
    → IsCell (is_leaf p) c
    → is_full p (length c.key) (value_size p c) ≡ false
    → (p' : Page) × (insert_cell p c ≡ (none, p'))
      × Represents p' (put_in c cells)
      × IsAscending (put_in c cells)
      × IsSuccessor p p'
unfolding insert_cell
insert_cell-put_in p cells c w s v room =
    let (z, ran, found) = search_cell-Located p cells w s c.key in
    let (p', done, w', n) = at_place (length cells) z (omega arith) ran found in
    let more : length cells + 1 ≡ suc (length cells) = omega arith in
    (p', rw (w.count, more) done, w', put_in-IsAscending c cells s, n)
  where
    at_place :
        (fuel : ℕ) (z : ℤ)
        → length cells ≤ fuel
        → search_cell p c.key ≡ ok z
        → Located c.key cells z
        → (p' : Page) × (insert_loop (suc fuel) p c ≡ (none, p'))
          × Represents p' (put_in c cells)
          × IsSuccessor p p'
    at_place fuel z h ran (absent_at r le lo hi) =
        let (p', done, w', n, free) = insert_loop-absent fuel p cells c r w v room ran le in
        rw (put_in-absent c r cells le lo hi) (p', done, w', n)
    at_place zero z h ran (present_at r d e q lo) =
        absurd (omega (arith, get_elem?-bound r d cells e))
    at_place (suc fuel) z h ran (present_at r d e q lo) =
        rw (put_in-present c r d cells e q lo)
          (insert_loop-present fuel p cells c r d w s v room ran e q)

insert_cell-full :
    (p : Page) (c : Cell)
    → is_full p (length c.key) (value_size p c) ≡ true
    → insert_cell p c ≡ (some page_full, p)
unfolding insert_cell
insert_cell-full p c full =
    let more : num_cells p.bytes + 1 ≡ suc (num_cells p.bytes) = omega arith in
    rw (more, insert_loop, full) refl

-- Whether the bytes of one more cell and its entry of two bytes in the directory reach over the free
-- space.
abbrev pub reaches_over : Page → List Cell → Cell → Bool
reaches_over p cells c =
    ltb (free_ptr p.bytes)
      (cell_dir_offset (length cells + 1) + length (encoded (is_old p.bytes) (is_leaf p) c))

-- If a page represents an ascending list of cells, then InsertCell fails exactly if the bytes that the
-- cell takes in the page's format and an entry of the directory do not fit in the free space, also when
-- the key is in the page. The error is then that the page is full, and the page still represents the
-- list; otherwise it represents the list with the cell put in at its place.
pub insert_cell-encoded :
    (p : Page) (cells : List Cell) (c : Cell)
    → Represents p cells
    → IsAscending cells
    → IsCell (is_leaf p) c
    → ((insert_cell p c).0 ≡ (if reaches_over p cells c then some page_full else none))
      × Represents (insert_cell p c).1 (if reaches_over p cells c then cells else put_in c cells)
insert_cell-encoded p cells c w s v = elim (Bool-cases (reaches_over p cells c)) [
  | inl over ↦
      let ran : insert_cell p c ≡ (some page_full, p) =
        insert_cell-full p c (is_full_lem p cells w c v ∙ over) in
      rw (ran, over) (refl, w)
  | inr room ↦
      let (p', ran, w', s', n) =
        insert_cell-put_in p cells c w s v (is_full_lem p cells w c v ∙ room) in
      rw (ran, room) (refl, w')
]
