-- ===== src/Btree/Node/Child.antt =====
-- The child that a search follows: the one of the last cell whose key is not above the key.
use storage_engines.Base.{
  Bool, List, Option, Outcome, [], arith, cell_not_found, err, false, if◌then◌else◌, length,
  le→ltb_false, lt→ltb, none, ok, refl, some, ℕ, ◌+◌, ◌==◌, ◌∷◌, ◌≡◌,
}
use storage_engines.Bytes.{Bytes}
use storage_engines.Bytes.Order.{compare_bytes-flip, compare_bytes_trans, key_le}
use storage_engines.Btree.Page.{Cell, Page, is_leaf, num_cells, right_ptr}
use storage_engines.Btree.Page.Spec.{IsAscending}
use storage_engines.Btree.Page.Invariant.{Represents}
use storage_engines.Btree.Page.Rest.{IsRest, IsRest-next, IsRest-whole, cell_at-rest}
use storage_engines.Btree.Node.{
  chosen, find_child, find_child_loop, get_child_loop, get_child_page_id, next_passes,
}

-- The reference: the child of the last cell whose key is not above the key, if there is one.
unfoldable pub last_child : Bytes → List Cell → Option ℕ → Option ℕ
last_child key [] found = found
last_child key (c ∷ cells) found =
    last_child key cells (if key_le c.key key then some c.child else found)

-- The same choice with a look at the next cell.
first_child : Bytes → List Cell → Option ℕ
first_child key [] = none
first_child key (c ∷ []) = if key_le c.key key then some c.child else none
first_child key (c ∷ d ∷ cells) =
    let rest = first_child key (d ∷ cells) in
    if key_le c.key key then (if key_le d.key key then rest else some c.child) else rest

last_child-above :
    (key : Bytes) (c : Cell) (cells : List Cell) (found : Option ℕ)
    → IsAscending (c ∷ cells)
    → key_le c.key key ≡ false
    → last_child key (c ∷ cells) found ≡ found
unfolding last_child
last_child-above key c [] found s h = rw h refl
last_child-above key c (d ∷ cells) found s h = rw h (
    last_child-above key d cells found s.1 (
      ground (
        arith,
        s.0.0,
        compare_bytes_trans key c.key d.key,
        compare_bytes-flip c.key key,
        compare_bytes-flip d.key key,
      )))

first_child-last_child :
    (key : Bytes) (cells : List Cell)
    → IsAscending cells
    → first_child key cells ≡ last_child key cells none
unfolding first_child last_child
first_child-last_child key [] s = refl
first_child-last_child key (c ∷ []) s = refl
first_child-last_child key (c ∷ d ∷ cells) s = ground (
  arith,
  first_child-last_child key (d ∷ cells) s.1,
  last_child-above key d cells (some c.child) s.1,
  last_child-above key d cells none s.1,
)

-- Whether the key is not below the first of a list of cells.
abbrev head_passes : Bytes → List Cell → Bool
head_passes key [] = false
head_passes key (d ∷ cells) = key_le d.key key

first_child-next :
    (key : Bytes) (c : Cell) (cells : List Cell)
    → first_child key (c ∷ cells) ≡ (
        if key_le c.key key
        then (if head_passes key cells then first_child key cells else some c.child)
        else first_child key cells)
unfolding first_child
first_child-next key c [] = refl
first_child-next key c (d ∷ cells) = refl

module _ (p : Page) (cells : List Cell) (w : Represents p cells) (key : Bytes) where
  next_passes-rest :
      (i : ℕ) (rest : List Cell)
      → IsRest cells (i + 1) rest
      → next_passes p key i ≡ ok (head_passes key rest)
  unfolding next_passes
  next_passes-rest i [] (n, h) =
      rw (le→ltb_false (i + 1) (num_cells p.bytes) (omega (arith, n, w.count))) refl
  next_passes-rest i (d ∷ rest) h =
      rw
        (
          lt→ltb (i + 1) (num_cells p.bytes) (omega (arith, h.0, w.count)),
          cell_at-rest p cells w (i + 1) d rest h,
        )
        refl

  chosen-first :
      (c : Cell) (rest : List Cell) (more : Outcome (Option ℕ))
      → more ≡ ok (first_child key rest)
      → (if key_le c.key key then chosen (ok (head_passes key rest)) c more else more)
        ≡ ok (first_child key (c ∷ rest))
  chosen-first c rest more e = rw (e, first_child-next key c rest) (ground arith)

  get_child_loop-first_child :
      (rest : List Cell) (i : ℕ)
      → IsRest cells i rest
      → get_child_loop (length rest) p key i ≡ ok (first_child key rest)
  unfolding get_child_loop
  get_child_loop-first_child [] i h = unfold first_child in refl
  get_child_loop-first_child (c ∷ rest) i h =
      rw
        (
          get_child_loop,
          cell_at-rest p cells w i c rest h,
          next_passes-rest i rest (IsRest-next cells i c rest h),
        )
        (chosen-first c rest (get_child_loop (length rest) p key (i + 1))
          (get_child_loop-first_child rest (i + 1) (IsRest-next cells i c rest h)))

  find_child_loop-first_child :
      (rest : List Cell) (i : ℕ)
      → IsRest cells i rest
      → find_child_loop (length rest) p key i ≡ ok (first_child key rest)
  unfolding find_child_loop
  find_child_loop-first_child [] i h = unfold first_child in refl
  find_child_loop-first_child (c ∷ rest) i h =
      rw
        (
          find_child_loop,
          cell_at-rest p cells w i c rest h,
          next_passes-rest i rest (IsRest-next cells i c rest h),
        )
        (chosen-first c rest (find_child_loop (length rest) p key (i + 1))
          (find_child_loop-first_child rest (i + 1) (IsRest-next cells i c rest h)))

-- The child, or the right pointer where there is none.
abbrev pub or_right : ℕ → Option ℕ → ℕ
or_right right none = right
or_right right (some id) = id

-- The convention is the one that btree/README.md gives: the child of a cell has the keys from the
-- cell's key on, and the right pointer's page has the keys below the first cell's key.
-- On an inner page that represents an ascending list of cells, findChild answers the child of the last
-- cell whose key is not above the key, or the right pointer if every key is above it. GetChildPageID
-- answers the same page, except that it answers the error of a missing cell where it would be the
-- right pointer and that is 0.
pub find_child-last_child :
    (p : Page) (cells : List Cell) (key : Bytes)
    → Represents p cells
    → IsAscending cells
    → is_leaf p ≡ false
    → (find_child p key ≡ ok (or_right (right_ptr p.bytes) (last_child key cells none)))
      × (get_child_page_id p key ≡ (elim (last_child key cells none) [
        | none ↦ if right_ptr p.bytes == 0 then err cell_not_found else ok (right_ptr p.bytes)
        | some id ↦ ok id
      ]))
unfolding find_child get_child_page_id
find_child-last_child p cells key w s inner =
    let whole : IsRest cells 0 cells = IsRest-whole cells in
    let first : first_child key cells ≡ last_child key cells none =
      first_child-last_child key cells s in
    (
      rw (w.count, find_child_loop-first_child p cells w key cells 0 whole, first)
          (at_end (last_child key cells none)),
      rw (inner, w.count, get_child_loop-first_child p cells w key cells 0 whole, first) refl,
    )
  where
    at_end :
        (o : Option ℕ)
        → (elim o [ none ↦ ok (right_ptr p.bytes) | some id ↦ ok id ])
          ≡ ok (or_right (right_ptr p.bytes) o)
    at_end none = refl
    at_end (some id) = refl
