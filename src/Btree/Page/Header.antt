-- ===== src/Btree/Page/Header.antt =====
-- The fields of the header that the operations of a page write: setNumCells, setFreePtr and
-- SetRightPtr change their own field and nothing else.
use storage_engines.Base.{
  ap, arith, drop, if◌then◌else◌, length, ℕ, ◌+◌, ◌<◌, ◌==◌, ◌^◌, ◌∙◌, ◌≡◌, ◌≤◌,
}
use storage_engines.Bytes.{Bytes}
use storage_engines.Bytes.Endian.{
  get_be, get_be-put_be_four, get_be-put_be_two, length-put_be, put_be,
}
use storage_engines.Bytes.Patch.{
  byte_at-patch_behind, drop-patch_behind, length-patch, patch, slice-patch_before,
  slice-patch_behind, slice-patch_here,
}
use storage_engines.Btree.Page.{
  Page, set_right_ptr, be_at, free_ptr, header_size, num_cells, page_format_v1, right_ptr,
  set_free_ptr, set_num_cells, version,
}
use storage_engines.Btree.Page.Encoded.{is_old}

-- A write of `w` bytes at the place of a field.
module _ (b : Bytes) (off w v : ℕ) (room : header_size ≤ length b) (le : off + w ≤ 9) where
  field : Bytes
  unfolding patch put_be
  field = patch b off (put_be w v)

  length-field : length field ≡ length b
  unfolding field
  length-field = length-patch b off (put_be w v) (omega (arith, room, le, length-put_be w v))

  drop-field : (o : ℕ) → header_size ≤ o → drop o field ≡ drop o b
  unfolding field
  drop-field o h =
      drop-patch_behind b off o (put_be w v) (omega (arith, room, le))
        (omega (arith, le, length-put_be w v))

  be_at-field_before : (k n : ℕ) → k + n ≤ off → be_at k n field ≡ be_at k n b
  unfolding field be_at
  be_at-field_before k n h =
      ap get_be (slice-patch_before b off k n (put_be w v) (omega (arith, room, le)) h)

  be_at-field_behind : (k n : ℕ) → off + w ≤ k → be_at k n field ≡ be_at k n b
  unfolding field be_at
  be_at-field_behind k n h = ap get_be (
      slice-patch_behind b off k n (put_be w v) (omega (arith, room, le))
        (omega (arith, h, length-put_be w v)))

  be_at-field_here : be_at off w field ≡ get_be (put_be w v)
  unfolding field be_at
  be_at-field_here =
      ap get_be
        (slice-patch_here b off w (put_be w v) (omega (arith, room, le)) (length-put_be w v))

  is_old-field : is_old field ≡ is_old b
  unfolding field is_old version
  is_old-field =
      ap (λ (x : ℕ). (if x == 0 then page_format_v1 else x) == page_format_v1)
        (byte_at-patch_behind b off 9 (put_be w v) (omega (arith, room, le))
          (omega (arith, le, length-put_be w v)))

module _ (b : Bytes) (n : ℕ) (room : header_size ≤ length b) (short : n < 2 ^ 16) where
  pub num_cells-set_num_cells : num_cells (set_num_cells b n) ≡ n
  unfolding num_cells set_num_cells field
  num_cells-set_num_cells = be_at-field_here b 1 2 n room (omega arith) ∙ get_be-put_be_two n short

  pub free_ptr-set_num_cells : free_ptr (set_num_cells b n) ≡ free_ptr b
  unfolding free_ptr set_num_cells field
  free_ptr-set_num_cells = be_at-field_behind b 1 2 n room (omega arith) 7 2 (omega arith)

  pub right_ptr-set_num_cells : right_ptr (set_num_cells b n) ≡ right_ptr b
  unfolding right_ptr set_num_cells field
  right_ptr-set_num_cells = be_at-field_behind b 1 2 n room (omega arith) 3 4 (omega arith)

  pub drop-set_num_cells : (o : ℕ) → header_size ≤ o → drop o (set_num_cells b n) ≡ drop o b
  unfolding set_num_cells field
  drop-set_num_cells = drop-field b 1 2 n room (omega arith)

  pub length-set_num_cells : length (set_num_cells b n) ≡ length b
  unfolding set_num_cells field
  length-set_num_cells = length-field b 1 2 n room (omega arith)

  pub is_old-set_num_cells : is_old (set_num_cells b n) ≡ is_old b
  unfolding set_num_cells field
  is_old-set_num_cells = is_old-field b 1 2 n room (omega arith)

  pub free_ptr-set_free_ptr : free_ptr (set_free_ptr b n) ≡ n
  unfolding free_ptr set_free_ptr field
  free_ptr-set_free_ptr = be_at-field_here b 7 2 n room (omega arith) ∙ get_be-put_be_two n short

  pub num_cells-set_free_ptr : num_cells (set_free_ptr b n) ≡ num_cells b
  unfolding num_cells set_free_ptr field
  num_cells-set_free_ptr = be_at-field_before b 7 2 n room (omega arith) 1 2 (omega arith)

  pub right_ptr-set_free_ptr : right_ptr (set_free_ptr b n) ≡ right_ptr b
  unfolding right_ptr set_free_ptr field
  right_ptr-set_free_ptr = be_at-field_before b 7 2 n room (omega arith) 3 4 (omega arith)

  pub drop-set_free_ptr : (o : ℕ) → header_size ≤ o → drop o (set_free_ptr b n) ≡ drop o b
  unfolding set_free_ptr field
  drop-set_free_ptr = drop-field b 7 2 n room (omega arith)

  pub length-set_free_ptr : length (set_free_ptr b n) ≡ length b
  unfolding set_free_ptr field
  length-set_free_ptr = length-field b 7 2 n room (omega arith)

  pub is_old-set_free_ptr : is_old (set_free_ptr b n) ≡ is_old b
  unfolding set_free_ptr field
  is_old-set_free_ptr = is_old-field b 7 2 n room (omega arith)

-- The right pointer is a uint32.
module _ (p : Page) (n : ℕ) (room : header_size ≤ length p.bytes) where
  pub num_cells-set_right_ptr : num_cells (set_right_ptr p n).bytes ≡ num_cells p.bytes
  unfolding num_cells set_right_ptr field
  num_cells-set_right_ptr = be_at-field_before p.bytes 3 4 n room (omega arith) 1 2 (omega arith)

  pub free_ptr-set_right_ptr : free_ptr (set_right_ptr p n).bytes ≡ free_ptr p.bytes
  unfolding free_ptr set_right_ptr field
  free_ptr-set_right_ptr = be_at-field_behind p.bytes 3 4 n room (omega arith) 7 2 (omega arith)

  pub right_ptr-set_right_ptr : n < 2 ^ 32 → right_ptr (set_right_ptr p n).bytes ≡ n
  unfolding right_ptr set_right_ptr field
  right_ptr-set_right_ptr short =
      be_at-field_here p.bytes 3 4 n room (omega arith) ∙ get_be-put_be_four n short

  pub drop-set_right_ptr :
      (o : ℕ) → header_size ≤ o → drop o (set_right_ptr p n).bytes ≡ drop o p.bytes
  unfolding set_right_ptr field
  drop-set_right_ptr = drop-field p.bytes 3 4 n room (omega arith)

  pub length-set_right_ptr : length (set_right_ptr p n).bytes ≡ length p.bytes
  unfolding set_right_ptr field
  length-set_right_ptr = length-field p.bytes 3 4 n room (omega arith)

  pub is_old-set_right_ptr : is_old (set_right_ptr p n).bytes ≡ is_old p.bytes
  unfolding set_right_ptr field
  is_old-set_right_ptr = is_old-field p.bytes 3 4 n room (omega arith)
