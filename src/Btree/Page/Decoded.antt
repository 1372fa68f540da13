-- ===== src/Btree/Page/Decoded.antt =====
-- Reading a cell back from its bytes, in both formats, and the size that cellSize gives.
use storage_engines.Base.{
  Bool, Bool-cases, [], ap, append_assoc, arith, drop, drop-add, drop-append, false, inl, inr,
  length, length-append, length-drop, le→ltb_false, ok, refl, suc, sym, take, take-append, true,
  zero, ℕ, ◌++◌, ◌+◌, ◌<◌, ◌==◌, ◌^◌, ◌∙◌, ◌≡◌, ◌≤◌,
}
use storage_engines.Base.Int.{pos}
use storage_engines.Bytes.{Bytes}
use storage_engines.Bytes.Endian.{
  get_be, get_be-put_be_four, get_be-put_be_two, length-put_be, put_be,
}
use storage_engines.Bytes.Slice.{slice}
use storage_engines.Btree.Varint.{uvarint16}
use storage_engines.Btree.Varint.Encode.{groups, length-groups, varint_size16-groups}
use storage_engines.Btree.Varint.Decode.{uvarint-groups}
use storage_engines.Btree.Page.{
  Cell, Page, be_at, cell_size, internal_texts, is_leaf, leaf_texts, page_format_v1, page_size,
  page_type_leaf, parse_cell, parse_internal_cell, parse_leaf_cell, size_at, size_of, value_size,
  version,
}
use storage_engines.Btree.Page.Encoded.{
  IsCell, encoded, encoded_pos, is_old, length-encoded, size_bytes,
}

uvarint16-groups :
    (v : ℕ) (rest : Bytes)
    → v < 2 ^ 16
    → uvarint16 (groups 9 v ++ rest) ≡ (v, pos (length (groups 9 v)))
unfolding uvarint16
uvarint16-groups v rest h = ground (arith, uvarint-groups v rest, length-groups 9 v)

size_of-pos : (v n : ℕ) → 1 ≤ n → size_of (v, pos n) ≡ ok (v, n)
size_of-pos v zero h = absurd (omega arith)
size_of-pos v (suc n) h = refl

size_at-groups :
    (b rest : Bytes) (off v : ℕ)
    → v < 2 ^ 16
    → drop off b ≡ groups 9 v ++ rest
    → size_at b off ≡ ok (v, length (groups 9 v))
unfolding size_at
size_at-groups b rest off v h e =
    rw (e, uvarint16-groups v rest h) (size_of-pos v (length (groups 9 v)) (length-groups 9 v).0)

-- What follows a part that was read.
pub rest_of :
    (b s rest : Bytes) (off o : ℕ) → drop off b ≡ s ++ rest → o ≡ off + length s → drop o b ≡ rest
rest_of b s rest off o e h =
    drop-add off (length s) o b h ∙ ap (drop (length s)) e ∙ drop-append (length s) s rest refl

pub room_of :
    (b s rest : Bytes) (off : ℕ) → drop off b ≡ s ++ rest → 1 ≤ length s → off + length s ≤ length b
room_of b s rest off e h =
    omega (arith, ap (λ (t : Bytes). length t) e, length-drop off b, length-append s rest)

be_at-put_be :
    (b rest : Bytes) (off w v : ℕ)
    → drop off b ≡ put_be w v ++ rest
    → get_be (put_be w v) ≡ v
    → be_at off w b ≡ v
unfolding be_at slice
be_at-put_be b rest off w v e h =
    ap (λ (t : Bytes). get_be (take w t)) e
    ∙ ap get_be (take-append w (put_be w v) rest (length-put_be w v))
    ∙ h

leaf_texts_lem :
    (b rest : Bytes) (start : ℕ) (c : Cell)
    → c.child ≡ 0
    → drop start b ≡ c.key ++ (c.value ++ rest)
    → start + length c.key + length c.value ≤ page_size
    → leaf_texts b start (length c.key) (length c.value) ≡ ok c
leaf_texts_lem b rest start c h e room =
    rw
      (
        le→ltb_false page_size (start + length c.key + length c.value) room,
        e,
        rest_of b c.key (c.value ++ rest) start (start + length c.key) e refl,
        take-append (length c.key) c.key (c.value ++ rest) refl,
        take-append (length c.value) c.value rest refl,
      )
      (ap (λ (n : ℕ). ok (record { key = c.key; value = c.value; child = n })) (sym h))

internal_texts_lem :
    (b rest : Bytes) (start : ℕ) (c : Cell)
    → c.value ≡ []
    → drop start b ≡ c.key ++ rest
    → start + length c.key ≤ page_size
    → internal_texts b start (length c.key) c.child ≡ ok c
internal_texts_lem b rest start c h e room =
    rw
      (
        le→ltb_false page_size (start + length c.key) room,
        e,
        take-append (length c.key) c.key rest refl,
      )
      (ap (λ (v : Bytes). ok (record { key = c.key; value = v; child = c.child })) (sym h))

parse_leaf_old :
    (b rest : Bytes) (off : ℕ) (c : Cell)
    → IsCell true c
    → (version b == page_format_v1) ≡ true
    → length b ≡ page_size
    → drop off b
      ≡ put_be 2 (length c.key) ++ (put_be 2 (length c.value) ++ (c.key ++ (c.value ++ rest)))
    → off + (4 + (length c.key + length c.value)) ≤ page_size
    → parse_leaf_cell b off ≡ ok c
unfolding parse_leaf_cell
parse_leaf_old b rest off c w e n h room =
    let k = length c.key in
    let s1 = put_be 2 k in
    let s2 = put_be 2 (length c.value) in
    let t2 = c.key ++ (c.value ++ rest) in
    let d1 : drop (off + 2) b ≡ s2 ++ t2 =
      rest_of b s1 (s2 ++ t2) off (off + 2) h (omega (arith, length-put_be 2 k)) in
    let d2 : drop (off + 4) b ≡ t2 =
      rest_of b s2 t2 (off + 2) (off + 4) d1 (omega (arith, length-put_be 2 (length c.value))) in
    rw
      (
        e,
        le→ltb_false page_size (off + 4) (omega (arith, room)),
        be_at-put_be b (s2 ++ t2) off 2 k h (get_be-put_be_two k w.key_short),
        be_at-put_be b t2 (off + 2) 2 (length c.value) d1
            (get_be-put_be_two (length c.value) w.value_short),
      )
      (leaf_texts_lem b rest (off + 4) c (w.leaf_child refl) d2 (omega (arith, room)))

parse_leaf_new :
    (b rest : Bytes) (off : ℕ) (c : Cell)
    → IsCell true c
    → (version b == page_format_v1) ≡ false
    → length b ≡ page_size
    → drop off b
      ≡ groups 9 (length c.key) ++ (groups 9 (length c.value) ++ (c.key ++ (c.value ++ rest)))
    → off
        + (length (groups 9 (length c.key))
            + (length (groups 9 (length c.value)) + (length c.key + length c.value)))
      ≤ page_size
    → parse_leaf_cell b off ≡ ok c
unfolding parse_leaf_cell
parse_leaf_new b rest off c w e n h room =
    let k = length c.key in
    let s1 = groups 9 k in
    let s2 = groups 9 (length c.value) in
    let t2 = c.key ++ (c.value ++ rest) in
    let d1 : drop (off + length s1) b ≡ s2 ++ t2 =
      rest_of b s1 (s2 ++ t2) off (off + length s1) h refl in
    let d2 : drop (off + length s1 + length s2) b ≡ t2 =
      rest_of b s2 t2 (off + length s1) (off + length s1 + length s2) d1 refl in
    rw
      (
        e,
        le→ltb_false page_size (off + 2)
            (omega (arith, room, length-groups 9 k, length-groups 9 (length c.value))),
        size_at-groups b (s2 ++ t2) off k w.key_short h,
        size_at-groups b t2 (off + length s1) (length c.value) w.value_short d1,
      )
      (leaf_texts_lem b rest (off + length s1 + length s2) c (w.leaf_child refl) d2
        (omega (arith, room)))

parse_internal_old :
    (b rest : Bytes) (off : ℕ) (c : Cell)
    → IsCell false c
    → (version b == page_format_v1) ≡ true
    → length b ≡ page_size
    → drop off b ≡ put_be 2 (length c.key) ++ (put_be 4 c.child ++ (c.key ++ rest))
    → off + (6 + length c.key) ≤ page_size
    → parse_internal_cell b off ≡ ok c
unfolding parse_internal_cell
parse_internal_old b rest off c w e n h room =
    let k = length c.key in
    let s1 = put_be 2 k in
    let s2 = put_be 4 c.child in
    let t2 = c.key ++ rest in
    let d1 : drop (off + 2) b ≡ s2 ++ t2 =
      rest_of b s1 (s2 ++ t2) off (off + 2) h (omega (arith, length-put_be 2 k)) in
    let d2 : drop (off + 6) b ≡ t2 =
      rest_of b s2 t2 (off + 2) (off + 6) d1 (omega (arith, length-put_be 4 c.child)) in
    rw
      (
        e,
        le→ltb_false page_size (off + 6) (omega (arith, room)),
        be_at-put_be b (s2 ++ t2) off 2 k h (get_be-put_be_two k w.key_short),
        be_at-put_be b t2 (off + 2) 4 c.child d1 (get_be-put_be_four c.child w.child_short),
      )
      (internal_texts_lem b rest (off + 6) c (w.internal_value refl) d2 (omega (arith, room)))

parse_internal_new :
    (b rest : Bytes) (off : ℕ) (c : Cell)
    → IsCell false c
    → (version b == page_format_v1) ≡ false
    → length b ≡ page_size
    → drop off b ≡ groups 9 (length c.key) ++ (put_be 4 c.child ++ (c.key ++ rest))
    → off + (length (groups 9 (length c.key)) + (4 + length c.key)) ≤ page_size
    → parse_internal_cell b off ≡ ok c
unfolding parse_internal_cell
parse_internal_new b rest off c w e n h room =
    let k = length c.key in
    let s1 = groups 9 k in
    let s2 = put_be 4 c.child in
    let t2 = c.key ++ rest in
    let d1 : drop (off + length s1) b ≡ s2 ++ t2 =
      rest_of b s1 (s2 ++ t2) off (off + length s1) h refl in
    let d2 : drop (off + length s1 + 4) b ≡ t2 =
      rest_of b s2 t2 (off + length s1) (off + length s1 + 4) d1
        (omega (arith, length-put_be 4 c.child)) in
    rw
      (
        e,
        le→ltb_false page_size (off + 5) (omega (arith, room, length-groups 9 k)),
        size_at-groups b (s2 ++ t2) off k w.key_short h,
        le→ltb_false (length b) (off + length s1 + 4) (omega (arith, room, n)),
        be_at-put_be b t2 (off + length s1) 4 c.child d1 (get_be-put_be_four c.child w.child_short),
      )
      (internal_texts_lem b rest (off + length s1 + 4) c (w.internal_value refl) d2
        (omega (arith, room)))

-- A cell that stands at an offset ends inside the page.
pub room_of-encoded :
    (b rest : Bytes) (off : ℕ) (old leaf : Bool) (c : Cell)
    → drop off b ≡ encoded old leaf c ++ rest
    → off + length (encoded old leaf c) ≤ length b
room_of-encoded b rest off old leaf c h =
    room_of b (encoded old leaf c) rest off h (omega (arith, encoded_pos old leaf c))

pub parse_cell-encoded :
    (leaf : Bool) (b rest : Bytes) (off : ℕ) (c : Cell)
    → IsCell leaf c
    → length b ≡ page_size
    → drop off b ≡ encoded (is_old b) leaf c ++ rest
    → parse_cell leaf b off ≡ ok c
unfolding parse_cell is_old encoded size_bytes
parse_cell-encoded true b rest off c w n h = elim (Bool-cases (version b == page_format_v1)) [
  | inl e ↦
      let there : drop off b ≡ encoded true true c ++ rest = rw e at h in
      parse_leaf_old b rest off c w e n (there ∙ simp append_assoc) (
        omega (
          arith,
          room_of-encoded b rest off true true c there,
          length-put_be 2 (length c.key),
          length-put_be 2 (length c.value),
          length-encoded true true c,
        ))
  | inr e ↦
      let there : drop off b ≡ encoded false true c ++ rest = rw e at h in
      parse_leaf_new b rest off c w e n (there ∙ simp append_assoc)
        (omega (arith, room_of-encoded b rest off false true c there, length-encoded false true c))
]
parse_cell-encoded false b rest off c w n h = elim (Bool-cases (version b == page_format_v1)) [
  | inl e ↦
      let there : drop off b ≡ encoded true false c ++ rest = rw e at h in
      parse_internal_old b rest off c w e n (there ∙ simp append_assoc) (
        omega (
          arith,
          room_of-encoded b rest off true false c there,
          length-put_be 2 (length c.key),
          length-put_be 4 c.child,
          length-encoded true false c,
        ))
  | inr e ↦
      let there : drop off b ≡ encoded false false c ++ rest = rw e at h in
      parse_internal_new b rest off c w e n (there ∙ simp append_assoc) (
        omega (
          arith,
          room_of-encoded b rest off false false c there,
          length-put_be 4 c.child,
          length-encoded false false c,
        ))
]

-- The size that cellSize gives is the number of bytes of the cell.
pub cell_size-encoded :
    (p : Page) (c : Cell)
    → IsCell (is_leaf p) c
    → cell_size p (length c.key) (value_size p c) ≡ length (encoded (is_old p.bytes) (is_leaf p) c)
unfolding cell_size is_leaf is_old size_bytes
cell_size-encoded p c w = ground (
  arith,
  w.key_short,
  w.value_short,
  length-put_be 2 (length c.key),
  length-put_be 2 (length c.value),
  length-put_be 4 c.child,
  varint_size16-groups (length c.key),
  varint_size16-groups (length c.value),
  length-encoded (version p.bytes == page_format_v1) (p.page_type == page_type_leaf) c,
)
