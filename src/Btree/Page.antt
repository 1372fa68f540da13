-- ===== src/Btree/Page.antt =====
-- btree/page.go: the slotted page of 4096 bytes. A directory of offsets grows behind the header, and
-- the cells grow down from the end. Every panic of an index or a slice out of range is written out.
pub mod Encoded
pub mod Decoded
pub mod Directory
pub mod Spec
pub mod Place
pub mod Invariant
pub mod Search
pub mod Header
pub mod Delete
pub mod Added
pub mod Insert
pub mod Behind
pub mod Linked
pub mod Rest
pub mod RoundTrip
use storage_engines.Base.{
  Bool, Error, List, Option, Ordering, Outcome, [], cell_not_found, drop, err, false, if◌then◌else◌,
  invalid_cell_offset, invalid_cell_size, invalid_varint, leb, length, ltb, none, ok, out_of_fuel,
  page_full, panic_index, panic_slice, replicate, some, suc, take, true, zero, ℕ, ◌%◌, ◌*◌, ◌++◌,
  ◌+◌, ◌-◌, ◌/◌, ◌==◌, ◌>>=◌, ◌^◌, ◌∷◌,
}
use storage_engines.Base.Int.{negsuc, pos, ℤ}
use storage_engines.Bytes.{Bytes}
use storage_engines.Bytes.Order.{compare_bytes}
use storage_engines.Bytes.Endian.{get_be, put_be}
use storage_engines.Bytes.Slice.{byte_at, slice}
use storage_engines.Bytes.Patch.{patch}
use storage_engines.Btree.Varint.{put_uvarint16, uvarint16, varint_size16}

abbrev pub page_size : ℕ
page_size = 4096

abbrev pub page_type_internal : ℕ
page_type_internal = 1

abbrev pub page_type_leaf : ℕ
page_type_leaf = 2

abbrev pub page_format_v1 : ℕ
page_format_v1 = 1

abbrev pub page_format_v2 : ℕ
page_format_v2 = 2

abbrev pub header_size : ℕ
header_size = 10

-- The panic of reading or writing an integer at `p.data[off:]` behind the end.
abbrev outside : Bytes → ℕ → Error
outside b off = if ltb (length b) off then panic_slice else panic_index

abbrev pub u16 : ℕ → ℕ
u16 n = n % 2 ^ 16

pub record Page : Type 0 where
  pub id : ℕ
  pub bytes : Bytes
  pub page_type : ℕ
  pub dirty : Bool

pub record Cell : Type 0 where
  pub key : Bytes
  pub value : Bytes
  pub child : ℕ

-- `binary.BigEndian.Uint16(b[off:])`, where it is in range, and so for four bytes.
unfoldable pub be_at : ℕ → ℕ → Bytes → ℕ
unfolding slice get_be
be_at off w buf = get_be (slice off w buf)

-- The header is written at fixed places, which are in range.
unfoldable pub new_page : ℕ → ℕ → Page
unfolding patch put_be
new_page id page_type = record {
  id = id;
  bytes =
      patch
        (patch
          (patch (patch (patch (replicate page_size 0) 0 (page_type ∷ [])) 1 (put_be 2 0)) 3
            (put_be 4 0))
          7 (put_be 2 page_size))
        9 (page_format_v2 ∷ []);
  page_type = page_type;
  dirty = true;
}

unfoldable pub load_page : ℕ → Bytes → Option Page
unfolding byte_at
load_page id bytes =
    if length bytes == page_size
    then some (record { id = id; bytes = bytes; page_type = byte_at 0 bytes; dirty = false })
    else none

unfoldable pub version : Bytes → ℕ
unfolding byte_at
version b = if byte_at 9 b == 0 then page_format_v1 else byte_at 9 b

unfoldable pub is_leaf : Page → Bool
is_leaf p = p.page_type == page_type_leaf

unfoldable pub num_cells : Bytes → ℕ
unfolding be_at
num_cells b = be_at 1 2 b

unfoldable pub set_num_cells : Bytes → ℕ → Bytes
unfolding patch put_be
set_num_cells b n = patch b 1 (put_be 2 n)

unfoldable pub right_ptr : Bytes → ℕ
unfolding be_at
right_ptr b = be_at 3 4 b

unfoldable pub set_right_ptr : Page → ℕ → Page
unfolding patch put_be
set_right_ptr p ptr = record p { bytes = patch p.bytes 3 (put_be 4 ptr); dirty = true }

unfoldable pub free_ptr : Bytes → ℕ
unfolding be_at
free_ptr b = be_at 7 2 b

unfoldable pub set_free_ptr : Bytes → ℕ → Bytes
unfolding patch put_be
set_free_ptr b ptr = patch b 7 (put_be 2 ptr)

abbrev pub cell_dir_offset : ℕ → ℕ
cell_dir_offset n = header_size + n * 2

unfoldable pub get_cell_offset : Bytes → ℕ → Outcome ℕ
unfolding be_at
get_cell_offset b n =
    if ltb (length b) (cell_dir_offset n + 2)
    then err (outside b (cell_dir_offset n))
    else ok (be_at (cell_dir_offset n) 2 b)

unfoldable pub set_cell_offset : Bytes → ℕ → ℕ → Outcome Bytes
unfolding patch put_be
set_cell_offset b n offset =
    if ltb (length b) (cell_dir_offset n + 2)
    then err (outside b (cell_dir_offset n))
    else ok (patch b (cell_dir_offset n) (put_be 2 offset))

-- A size that is written as a varint, and the bytes that it takes.
abbrev size_of : ℕ × ℤ → Outcome (ℕ × ℕ)
size_of (x, pos (suc n)) = ok (x, suc n)
size_of (x, pos zero) = err invalid_varint
size_of (x, negsuc n) = err invalid_varint

unfoldable pub size_at : Bytes → ℕ → Outcome (ℕ × ℕ)
unfolding uvarint16
size_at b offset = size_of (uvarint16 (drop offset b))

-- The texts of a cell behind its sizes: the end of the page is checked.
abbrev leaf_texts : Bytes → ℕ → ℕ → ℕ → Outcome Cell
leaf_texts b start key_size value_size =
    if ltb page_size (start + key_size + value_size)
    then err invalid_cell_size
    else ok (record {
      key = take key_size (drop start b);
      value = take value_size (drop (start + key_size) b);
      child = 0;
    })

unfoldable pub parse_leaf_cell : Bytes → ℕ → Outcome Cell
unfolding version be_at size_at
parse_leaf_cell b offset =
    let v1 : Outcome Cell =
      if ltb page_size (offset + 4)
      then err invalid_cell_offset
      else leaf_texts b (offset + 4) (be_at offset 2 b) (be_at (offset + 2) 2 b) in
    let v2 : Outcome Cell = (do
      (key_size, n1) ← size_at b offset
      (value_size, n2) ← size_at b (offset + n1)
      leaf_texts b (offset + n1 + n2) key_size value_size) in
    if version b == page_format_v1
    then v1
    else if ltb page_size (offset + 2)
    then err invalid_cell_offset
    else v2

abbrev internal_texts : Bytes → ℕ → ℕ → ℕ → Outcome Cell
internal_texts b start key_size child =
    if ltb page_size (start + key_size)
    then err invalid_cell_size
    else ok (record { key = take key_size (drop start b); value = []; child = child })

-- `binary.BigEndian.Uint32(p.data[offset+n:])`
abbrev child_at : Bytes → ℕ → Outcome ℕ
child_at b off = if ltb (length b) (off + 4) then err (outside b off) else ok (be_at off 4 b)

unfoldable pub parse_internal_cell : Bytes → ℕ → Outcome Cell
unfolding version be_at size_at
parse_internal_cell b offset =
    let v1 : Outcome Cell =
      if ltb page_size (offset + 6)
      then err invalid_cell_offset
      else internal_texts b (offset + 6) (be_at offset 2 b) (be_at (offset + 2) 4 b) in
    let v2 : Outcome Cell = (do
      (key_size, n) ← size_at b offset
      child ← child_at b (offset + n)
      internal_texts b (offset + n + 4) key_size child) in
    if version b == page_format_v1
    then v1
    else if ltb page_size (offset + 5)
    then err invalid_cell_offset
    else v2

unfoldable pub parse_cell : Bool → Bytes → ℕ → Outcome Cell
unfolding parse_leaf_cell parse_internal_cell
parse_cell leaf b offset = if leaf then parse_leaf_cell b offset else parse_internal_cell b offset

unfoldable pub cell_at : Page → ℕ → Outcome Cell
unfolding num_cells get_cell_offset parse_cell is_leaf
cell_at p index =
    let found : Outcome Cell = (do
      offset ← get_cell_offset p.bytes index
      parse_cell (is_leaf p) p.bytes offset) in
    if leb (num_cells p.bytes) index then err cell_not_found else found

-- The sizes are cut to 16 bits for the length of their varints only.
unfoldable pub cell_size : Page → ℕ → ℕ → ℕ
unfolding is_leaf version varint_size16
cell_size p key_size value_size =
    if is_leaf p
    then (if version p.bytes == page_format_v1
        then 4 + key_size + value_size
        else varint_size16 (u16 key_size) + varint_size16 (u16 value_size) + key_size + value_size)
    else (if version p.bytes == page_format_v1
        then 6 + key_size
        else varint_size16 (u16 key_size) + 4 + key_size)

-- The free space, which may be negative, is less than the size of the cell.
unfoldable pub is_full : Page → ℕ → ℕ → Bool
unfolding num_cells free_ptr cell_size
is_full p key_size value_size =
    ltb (free_ptr p.bytes)
      (cell_dir_offset (u16 (num_cells p.bytes + 1)) + cell_size p key_size value_size)

-- `putUvarint16(p.data[off:], uint16(v))`
unfoldable pub put_size : Bytes → ℕ → ℕ → Outcome (Bytes × ℕ)
unfolding put_uvarint16
put_size b off v =
    let written : Outcome (Bytes × ℕ) = (do
      (rest, n) ← put_uvarint16 (drop off b) (u16 v)
      ok (take off b ++ rest, n)) in
    if ltb (length b) off then err panic_slice else written

-- `binary.BigEndian.PutUint16(p.data[off:], v)`, and so for four bytes.
unfoldable pub put_int : Bytes → ℕ → ℕ → ℕ → Outcome Bytes
unfolding patch put_be
put_int b off w v =
    if ltb (length b) (off + w) then err (outside b off) else ok (patch b off (put_be w v))

-- `copy(p.data[off:], texts)`, which stops at the end of the page.
unfoldable pub copy_at : Bytes → ℕ → Bytes → Outcome Bytes
unfolding patch
copy_at b off texts =
    if ltb (length b) off then err panic_slice else ok (patch b off (take (length b - off) texts))

unfoldable pub write_leaf_cell : Bytes → ℕ → Cell → Outcome Bytes
unfolding version put_int put_size copy_at
write_leaf_cell b offset cell =
    let v1 : Outcome Bytes = (do
      b1 ← put_int b offset 2 (length cell.key)
      b2 ← put_int b1 (offset + 2) 2 (length cell.value)
      b3 ← copy_at b2 (offset + 4) cell.key
      copy_at b3 (offset + 4 + length cell.key) cell.value) in
    let v2 : Outcome Bytes = (do
      (b1, n1) ← put_size b offset (length cell.key)
      (b2, n2) ← put_size b1 (offset + n1) (length cell.value)
      b3 ← copy_at b2 (offset + (n1 + n2)) cell.key
      copy_at b3 (offset + (n1 + n2) + length cell.key) cell.value) in
    if version b == page_format_v1 then v1 else v2

unfoldable pub write_internal_cell : Bytes → ℕ → Cell → Outcome Bytes
unfolding version put_int put_size copy_at
write_internal_cell b offset cell =
    let v1 : Outcome Bytes = (do
      b1 ← put_int b offset 2 (length cell.key)
      b2 ← put_int b1 (offset + 2) 4 cell.child
      copy_at b2 (offset + 6) cell.key) in
    let v2 : Outcome Bytes = (do
      (b1, n) ← put_size b offset (length cell.key)
      b2 ← put_int b1 (offset + n) 4 cell.child
      copy_at b2 (offset + (n + 4)) cell.key) in
    if version b == page_format_v1 then v1 else v2

unfoldable pub write_cell : Bool → Bytes → ℕ → Cell → Outcome Bytes
unfolding write_leaf_cell write_internal_cell
write_cell leaf b offset cell =
    if leaf then write_leaf_cell b offset cell else write_internal_cell b offset cell

-- A cell that cannot be read ends the search where it stands; a panic does not.
abbrev unreadable : Error → ℕ → Outcome ℤ
unreadable panic_index left = err panic_index
unreadable panic_slice left = err panic_slice
unreadable e left = ok (pos left)

abbrev compared : Ordering → ℕ → Outcome ℤ → Outcome ℤ → Outcome ℤ
compared Ordering.eq mid down up = ok (negsuc mid)
compared Ordering.lt mid down up = down
compared Ordering.gt mid down up = up

abbrev probed : Outcome Cell → Bytes → ℕ → ℕ → Outcome ℤ → Outcome ℤ → Outcome ℤ
probed (err e) key left mid down up = unreadable e left
probed (ok cell) key left mid down up = compared (compare_bytes key cell.key) mid down up

-- The loop of `searchCell`; each round at least halves the interval.
unfoldable pub search_loop : ℕ → Page → Bytes → ℕ → ℕ → Outcome ℤ
unfolding cell_at
search_loop zero p key left right = if ltb left right then err out_of_fuel else ok (pos left)
search_loop (suc fuel) p key left right =
    let mid = (left + right) / 2 in
    let down = search_loop fuel p key left mid in
    let up = search_loop fuel p key (mid + 1) right in
    let round = probed (cell_at p (u16 mid)) key left mid down up in
    if ltb left right then round else ok (pos left)

-- The index of the key as the negative number -(index + 1), or the place to insert it at.
unfoldable pub search_cell : Page → Bytes → Outcome ℤ
unfolding search_loop num_cells
search_cell p key = search_loop (num_cells p.bytes) p key 0 (num_cells p.bytes)

-- `for i := numCells; i > pos; i--`
unfoldable pub shift_up : ℕ → ℕ → Bytes → Outcome Bytes
unfolding get_cell_offset set_cell_offset
shift_up zero place b = ok b
shift_up (suc i) place b =
    let round : Outcome Bytes = (do
      offset ← get_cell_offset b i
      b' ← set_cell_offset b (suc i) offset
      shift_up i place b') in
    if ltb place (suc i) then round else ok b

-- `for i := index; i < numCells-1; i++`, on the number of rounds that are left.
unfoldable pub shift_down : ℕ → ℕ → Bytes → Outcome Bytes
unfolding get_cell_offset set_cell_offset
shift_down zero i b = ok b
shift_down (suc n) i b = do
  offset ← get_cell_offset b (i + 1)
  b' ← set_cell_offset b i offset
  shift_down n (i + 1) b'

abbrev pub Result : Type 0
Result = Option Error × Page

abbrev wrote : Page → Outcome Bytes → Result
wrote p (err e) = (some e, p)
wrote p (ok b) = (none, record p { bytes = b; dirty = true })

unfoldable pub delete_cell : Page → ℕ → Result
unfolding num_cells shift_down set_num_cells
delete_cell p index =
    let n = num_cells p.bytes in
    if leb n index
    then (some cell_not_found, p)
    else wrote p (do b ← shift_down (n - 1 - index) index p.bytes; ok (set_num_cells b (n - 1)))

abbrev pub value_size : Page → Cell → ℕ
value_size p cell = if is_leaf p then length cell.value else 0

-- The part of `InsertCell` behind the search, for a key that is new.
unfoldable pub insert_at : Page → ℕ → Cell → Outcome Bytes
unfolding num_cells free_ptr cell_size write_cell shift_up set_cell_offset set_num_cells
    set_free_ptr is_leaf
insert_at p place cell =
    let size = cell_size p (length cell.key) (value_size p cell) in
    let new_free = u16 (free_ptr p.bytes + 2 ^ 16 - u16 size) in
    do
      b1 ← write_cell (is_leaf p) p.bytes new_free cell
      b2 ← shift_up (num_cells p.bytes) (u16 place) b1
      b3 ← set_cell_offset b2 (u16 place) new_free
      ok (set_free_ptr (set_num_cells b3 (u16 (num_cells p.bytes + 1))) new_free)

abbrev deleted : Result → (Page → Result) → Result
deleted (some e, p) again = (some e, p)
deleted (none, p) again = again p

-- A key that is found is updated: it is deleted and inserted again.
abbrev searched : Page → Cell → (Page → Result) → Outcome ℤ → Result
searched p cell again (err e) = (some e, p)
searched p cell again (ok (pos place)) = wrote p (insert_at p place cell)
searched p cell again (ok (negsuc index)) = deleted (delete_cell p (u16 index)) again

-- `InsertCell`; an update calls it again on a page with a cell less.
unfoldable pub insert_loop : ℕ → Page → Cell → Result
unfolding is_full search_cell insert_at delete_cell is_leaf
insert_loop zero p cell = (some out_of_fuel, p)
insert_loop (suc fuel) p cell =
    let inserted = searched p cell (λ p'. insert_loop fuel p' cell) (search_cell p cell.key) in
    if is_full p (length cell.key) (value_size p cell) then (some page_full, p) else inserted

unfoldable pub insert_cell : Page → Cell → Result
unfolding insert_loop num_cells
insert_cell p cell = insert_loop (num_cells p.bytes + 1) p cell
