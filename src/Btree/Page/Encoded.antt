-- ===== src/Btree/Page/Encoded.antt =====
-- The bytes of a cell in a page: what writeLeafCell and writeInternalCell write, what parseLeafCell
-- and parseInternalCell read back, and the size that cellSize gives.
use storage_engines.Base.{
  Bool, Bool-cases, [], ap, append-nil, append_assoc, arith, drop, drop-add, false, if◌then◌else◌,
  inl, inr, length, length-append, length-drop, le→ltb_false, ok, refl, suc, sym, take, true, zero,
  ℕ, ◌%◌, ◌++◌, ◌+◌, ◌-◌, ◌<◌, ◌==◌, ◌^◌, ◌∙◌, ◌∷◌, ◌≡◌, ◌≤◌,
}
use storage_engines.Bytes.{Bytes}
use storage_engines.Bytes.Endian.{length-put_be, put_be}
use storage_engines.Bytes.Patch.{length-patch, patch, patch-patch}
use storage_engines.Btree.Varint.{put_uvarint16}
use storage_engines.Btree.Varint.Encode.{groups, length-groups, put_uvarint-groups}
use storage_engines.Btree.Page.{
  Cell, copy_at, page_format_v1, put_int, put_size, version, write_cell, write_internal_cell,
  write_leaf_cell,
}

unfoldable pub is_old : Bytes → Bool
unfolding version
is_old b = version b == page_format_v1

pub record IsCell (leaf : Bool) (c : Cell) : Type 0 where
  pub key_short : length c.key < 2 ^ 16
  pub value_short : length c.value < 2 ^ 16
  pub child_short : c.child < 2 ^ 32
  pub leaf_child : leaf ≡ true → c.child ≡ 0
  pub internal_value : leaf ≡ false → c.value ≡ []

unfoldable pub size_bytes : Bool → ℕ → Bytes
unfolding put_be groups
size_bytes old n = if old then put_be 2 n else groups 9 n

-- The bytes of a cell, in the first or the second format.
unfoldable pub encoded : Bool → Bool → Cell → Bytes
unfolding size_bytes put_be
encoded old leaf c =
    size_bytes old (length c.key)
    ++ ((if leaf then size_bytes old (length c.value) else put_be 4 c.child)
        ++ (c.key ++ (if leaf then c.value else [])))

take-all : (n : ℕ) (xs : Bytes) → length xs ≤ n → take n xs ≡ xs
take-all zero [] h = refl
take-all (suc n) [] h = refl
take-all zero (x ∷ xs) h = absurd (omega arith)
take-all (suc n) (x ∷ xs) h = ap (λ (t : Bytes). x ∷ t) (take-all n xs (omega arith))

put_size_lem :
    (b : Bytes) (off v : ℕ)
    → v < 2 ^ 16
    → off + length (groups 9 v) ≤ length b
    → put_size b off v ≡ ok (patch b off (groups 9 v), length (groups 9 v))
unfolding put_size put_uvarint16 patch
put_size_lem b off v h room =
    rw (le→ltb_false (length b) off (omega arith), mod_small)
      (rw
        (
          put_uvarint-groups (drop off b) v (omega arith) (omega (arith, length-drop off b)),
          drop-add off (length (groups 9 v)) (off + length (groups 9 v)) b refl,
        )
        refl)
  where
    mod_small : v % 2 ^ 16 ≡ v
    mod_small = omega arith

put_int_lem :
    (b : Bytes) (off w v : ℕ)
    → off + w ≤ length b
    → put_int b off w v ≡ ok (patch b off (put_be w v))
unfolding put_int
put_int_lem b off w v room = rw (le→ltb_false (length b) (off + w) room) refl

copy_at_lem :
    (b : Bytes) (off : ℕ) (texts : Bytes)
    → off + length texts ≤ length b
    → copy_at b off texts ≡ ok (patch b off texts)
unfolding copy_at
copy_at_lem b off texts room =
    rw (le→ltb_false (length b) off (omega arith), take-all (length b - off) texts (omega arith))
      refl

-- Three and four writes in a row are one.
patch_three :
    (b : Bytes) (off o p : ℕ) (s t u : Bytes)
    → off ≤ length b
    → o ≡ off + length s
    → p ≡ off + (length s + length t)
    → patch (patch (patch b off s) o t) p u ≡ patch b off (s ++ (t ++ u))
patch_three b off o p s t u h e f =
    ap (λ (x : Bytes). patch x p u) (patch-patch b off o s t h e)
    ∙ patch-patch b off p (s ++ t) u h (omega (arith, e, f, length-append s t))
    ∙ ap (patch b off) (append_assoc s t u)

patch_four :
    (b : Bytes) (off o p q : ℕ) (s t u v : Bytes)
    → off ≤ length b
    → o ≡ off + length s
    → p ≡ off + (length s + length t)
    → q ≡ off + (length s + length t) + length u
    → patch (patch (patch (patch b off s) o t) p u) q v ≡ patch b off (s ++ (t ++ (u ++ v)))
patch_four b off o p q s t u v h e f g =
    ap (λ (x : Bytes). patch x q v) (patch_three b off o p s t u h e f)
    ∙ patch-patch b off q (s ++ (t ++ u)) v h
        (omega (arith, g, length-append s (t ++ u), length-append t u))
    ∙ ap (patch b off) (simp append_assoc)

pub length-encoded :
    (old leaf : Bool) (c : Cell)
    → length (encoded old leaf c)
      ≡ length (size_bytes old (length c.key))
        + (length (if leaf then size_bytes old (length c.value) else put_be 4 c.child)
            + (length c.key + length (if leaf then c.value else [])))
unfolding encoded
length-encoded old leaf c =
    let second : Bytes = if leaf then size_bytes old (length c.value) else put_be 4 c.child in
    let last : Bytes = if leaf then c.value else [] in
    omega (
      arith,
      length-append (size_bytes old (length c.key)) (second ++ (c.key ++ last)),
      length-append second (c.key ++ last),
      length-append c.key last,
    )

write_leaf_old :
    (b : Bytes) (off : ℕ) (c : Cell)
    → (version b == page_format_v1) ≡ true
    → off + length (encoded true true c) ≤ length b
    → write_leaf_cell b off c ≡ ok (patch b off (encoded true true c))
unfolding write_leaf_cell encoded size_bytes
write_leaf_old b off c e room =
    let k = length c.key in
    let s1 = put_be 2 k in
    let s2 = put_be 2 (length c.value) in
    let b1 = patch b off s1 in
    let b2 = patch b1 (off + 2) s2 in
    let b3 = patch b2 (off + 4) c.key in
    let n1 : length s1 ≡ 2 = length-put_be 2 k in
    let n2 : length s2 ≡ 2 = length-put_be 2 (length c.value) in
    let fits : off + (2 + (2 + (k + length c.value))) ≤ length b =
      omega (arith, room, n1, n2, length-encoded true true c) in
    let m1 : length b1 ≡ length b = length-patch b off s1 (omega (arith, n1, fits)) in
    let m2 : length b2 ≡ length b =
      length-patch b1 (off + 2) s2 (omega (arith, n2, m1, fits)) ∙ m1 in
    let m3 : length b3 ≡ length b =
      length-patch b2 (off + 4) c.key (omega (arith, m1, m2, fits)) ∙ m2 in
    rw
      (
        e,
        put_int_lem b off 2 k (omega (arith, fits)),
        put_int_lem b1 (off + 2) 2 (length c.value) (omega (arith, fits, m1)),
        copy_at_lem b2 (off + 4) c.key (omega (arith, fits, m1, m2)),
        copy_at_lem b3 (off + 4 + k) c.value (omega (arith, fits, m1, m2, m3)),
      )
      (ap ok (
        patch_four b off (off + 2) (off + 4) (off + 4 + k) s1 s2 c.key c.value (omega (arith, fits))
          (omega (arith, n1)) (omega (arith, n1, n2)) (omega (arith, n1, n2))))

write_leaf_new :
    (b : Bytes) (off : ℕ) (c : Cell)
    → IsCell true c
    → (version b == page_format_v1) ≡ false
    → off + length (encoded false true c) ≤ length b
    → write_leaf_cell b off c ≡ ok (patch b off (encoded false true c))
unfolding write_leaf_cell encoded size_bytes
write_leaf_new b off c w e room =
    let k = length c.key in
    let s1 = groups 9 k in
    let s2 = groups 9 (length c.value) in
    let n1 = length s1 in
    let n2 = length s2 in
    let b1 = patch b off s1 in
    let b2 = patch b1 (off + n1) s2 in
    let b3 = patch b2 (off + (n1 + n2)) c.key in
    let fits : off + (n1 + (n2 + (k + length c.value))) ≤ length b =
      omega (arith, room, length-encoded false true c) in
    let m1 : length b1 ≡ length b = length-patch b off s1 (omega (arith, fits)) in
    let m2 : length b2 ≡ length b = length-patch b1 (off + n1) s2 (omega (arith, m1, fits)) ∙ m1 in
    let m3 : length b3 ≡ length b =
      length-patch b2 (off + (n1 + n2)) c.key (omega (arith, m1, m2, fits)) ∙ m2 in
    rw
      (
        e,
        put_size_lem b off k w.key_short (omega (arith, fits)),
        put_size_lem b1 (off + n1) (length c.value) w.value_short (omega (arith, fits, m1)),
        copy_at_lem b2 (off + (n1 + n2)) c.key (omega (arith, fits, m1, m2)),
        copy_at_lem b3 (off + (n1 + n2) + k) c.value (omega (arith, fits, m1, m2, m3)),
      )
      (ap ok (
        patch_four b off (off + n1) (off + (n1 + n2)) (off + (n1 + n2) + k) s1 s2 c.key c.value
          (omega (arith, fits)) refl refl refl))

append-nil_three : (s t u : Bytes) → s ++ (t ++ (u ++ [])) ≡ s ++ (t ++ u)
append-nil_three s t u = ap (λ (x : Bytes). s ++ (t ++ x)) (append-nil u)

write_internal_old :
    (b : Bytes) (off : ℕ) (c : Cell)
    → (version b == page_format_v1) ≡ true
    → off + length (encoded true false c) ≤ length b
    → write_internal_cell b off c ≡ ok (patch b off (encoded true false c))
unfolding write_internal_cell encoded size_bytes
write_internal_old b off c e room =
    let k = length c.key in
    let s1 = put_be 2 k in
    let s2 = put_be 4 c.child in
    let b1 = patch b off s1 in
    let b2 = patch b1 (off + 2) s2 in
    let n1 : length s1 ≡ 2 = length-put_be 2 k in
    let n2 : length s2 ≡ 4 = length-put_be 4 c.child in
    let fits : off + (2 + (4 + k)) ≤ length b =
      omega (arith, room, n1, n2, length-encoded true false c) in
    let m1 : length b1 ≡ length b = length-patch b off s1 (omega (arith, n1, fits)) in
    let m2 : length b2 ≡ length b =
      length-patch b1 (off + 2) s2 (omega (arith, n2, m1, fits)) ∙ m1 in
    rw
      (
        e,
        put_int_lem b off 2 k (omega (arith, fits)),
        put_int_lem b1 (off + 2) 4 c.child (omega (arith, fits, m1)),
        copy_at_lem b2 (off + 6) c.key (omega (arith, fits, m1, m2)),
      )
      (ap ok (
        patch_three b off (off + 2) (off + 6) s1 s2 c.key (omega (arith, fits)) (omega (arith, n1))
          (omega (arith, n1, n2))
        ∙ ap (patch b off) (sym (append-nil_three s1 s2 c.key))))

write_internal_new :
    (b : Bytes) (off : ℕ) (c : Cell)
    → IsCell false c
    → (version b == page_format_v1) ≡ false
    → off + length (encoded false false c) ≤ length b
    → write_internal_cell b off c ≡ ok (patch b off (encoded false false c))
unfolding write_internal_cell encoded size_bytes
write_internal_new b off c w e room =
    let k = length c.key in
    let s1 = groups 9 k in
    let s2 = put_be 4 c.child in
    let n1 = length s1 in
    let b1 = patch b off s1 in
    let b2 = patch b1 (off + n1) s2 in
    let n2 : length s2 ≡ 4 = length-put_be 4 c.child in
    let fits : off + (n1 + (4 + k)) ≤ length b =
      omega (arith, room, n2, length-encoded false false c) in
    let m1 : length b1 ≡ length b = length-patch b off s1 (omega (arith, fits)) in
    let m2 : length b2 ≡ length b =
      length-patch b1 (off + n1) s2 (omega (arith, n2, m1, fits)) ∙ m1 in
    rw
      (
        e,
        put_size_lem b off k w.key_short (omega (arith, fits)),
        put_int_lem b1 (off + n1) 4 c.child (omega (arith, fits, m1)),
        copy_at_lem b2 (off + (n1 + 4)) c.key (omega (arith, fits, m1, m2)),
      )
      (ap ok (
        patch_three b off (off + n1) (off + (n1 + 4)) s1 s2 c.key (omega (arith, fits)) refl
          (omega (arith, n2))
        ∙ ap (patch b off) (sym (append-nil_three s1 s2 c.key))))

-- The bytes of a cell are written in one piece, where they fit.
pub write_cell-encoded :
    (leaf : Bool) (b : Bytes) (off : ℕ) (c : Cell)
    → IsCell leaf c
    → off + length (encoded (is_old b) leaf c) ≤ length b
    → write_cell leaf b off c ≡ ok (patch b off (encoded (is_old b) leaf c))
unfolding write_cell is_old
write_cell-encoded leaf b off c w room = at_kind leaf w room
  where
    back :
        (l old : Bool)
        → is_old b ≡ old
        → ok (patch b off (encoded old l c)) ≡ ok (patch b off (encoded (is_old b) l c))
    back l old e = ap (λ (o : Bool). ok (patch b off (encoded o l c))) (sym e)

    at_kind :
        (l : Bool)
        → IsCell l c
        → off + length (encoded (is_old b) l c) ≤ length b
        → write_cell l b off c ≡ ok (patch b off (encoded (is_old b) l c))
    at_kind true w room = elim (Bool-cases (version b == page_format_v1)) [
      | inl e ↦ write_leaf_old b off c e (rw e at room) ∙ back true true e
      | inr e ↦ write_leaf_new b off c w e (rw e at room) ∙ back true false e
    ]
    at_kind false w room = elim (Bool-cases (version b == page_format_v1)) [
      | inl e ↦ write_internal_old b off c e (rw e at room) ∙ back false true e
      | inr e ↦ write_internal_new b off c w e (rw e at room) ∙ back false false e
    ]

size_bytes_pos : (old : Bool) (n : ℕ) → 1 ≤ length (size_bytes old n)
unfolding size_bytes
size_bytes_pos true n = omega (arith, length-put_be 2 n)
size_bytes_pos false n = omega (arith, length-groups 9 n)

pub encoded_pos : (old leaf : Bool) (c : Cell) → 2 ≤ length (encoded old leaf c)
encoded_pos old true c = omega (
  arith,
  length-encoded old true c,
  size_bytes_pos old (length c.key),
  size_bytes_pos old (length c.value),
)
encoded_pos old false c =
    omega (
      arith,
      length-encoded old false c,
      size_bytes_pos old (length c.key),
      length-put_be 4 c.child,
    )
