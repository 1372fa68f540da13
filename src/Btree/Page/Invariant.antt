-- ===== src/Btree/Page/Invariant.antt =====
-- What a well-formed page represents: the list of its cells.
use storage_engines.Base.{
  Bool, List, Option, Option-cases, Outcome, [], ap, arith, cell_not_found, drop, err, get_elem?,
  if◌then◌else◌, inl, inr, length, le→leb, lt→leb_false, none, ok, refl, some, ℕ, ◌++◌, ◌+◌, ◌<◌,
  ◌==◌, ◌^◌, ◌∙◌, ◌≡◌, ◌≤◌,
}
use storage_engines.Bytes.{Bytes}
use storage_engines.Btree.Page.{
  Cell, Page, cell_at, cell_dir_offset, free_ptr, is_leaf, new_page, num_cells, page_format_v1,
  page_size, right_ptr, version,
}
use storage_engines.Btree.Page.Encoded.{IsCell, encoded, encoded_pos, is_old}
use storage_engines.Btree.Page.Decoded.{parse_cell-encoded, room_of-encoded}
use storage_engines.Btree.Page.Directory.{IsKept, entry, get_cell_offset-entry}
use storage_engines.Btree.Page.Spec.{get_elem?-bound, get_elem?-end, get_elem?-within}

-- The bytes of a cell stand at an offset behind the free space.
pub record Holds (b : Bytes) (leaf : Bool) (o : ℕ) (c : Cell) : Type 0 where
  pub is_cell : IsCell leaf c
  pub after : free_ptr b ≤ o
  pub rest : Bytes
  pub here : drop o b ≡ encoded (is_old b) leaf c ++ rest

pub record Represents (p : Page) (cells : List Cell) : Type 0 where
  pub size : length p.bytes ≡ page_size
  pub count : num_cells p.bytes ≡ length cells
  pub apart : cell_dir_offset (length cells) ≤ free_ptr p.bytes
  pub inside : free_ptr p.bytes ≤ page_size
  pub holds :
      (i : ℕ) (c : Cell)
      → get_elem? cells i ≡ some c
      → Holds p.bytes (is_leaf p) (entry p.bytes i) c

pub Holds-end :
    (b : Bytes) (leaf : Bool) (o : ℕ) (c : Cell)
    → Holds b leaf o c
    → o + length (encoded (is_old b) leaf c) ≤ length b
Holds-end b leaf o c w = room_of-encoded b w.rest o (is_old b) leaf c w.here

-- A cell that the page represents is read, and no other.
abbrev pub read : Option Cell → Outcome Cell
read none = err cell_not_found
read (some c) = ok c

module _ (p : Page) (cells : List Cell) (w : Represents p cells) where
  pub entry-short : (j : ℕ) → j < length cells → entry p.bytes j < 2 ^ 16
  entry-short j h =
      let (c, e) = get_elem?-within j cells h in
      omega (
        arith,
        Holds-end p.bytes (is_leaf p) (entry p.bytes j) c (w.holds j c e),
        w.size,
        encoded_pos (is_old p.bytes) (is_leaf p) c,
      )

  cell_at-present : (i : ℕ) (c : Cell) → get_elem? cells i ≡ some c → cell_at p i ≡ ok c
  unfolding cell_at
  cell_at-present i c e =
      let h : Holds p.bytes (is_leaf p) (entry p.bytes i) c = w.holds i c e in
      let lt : i < num_cells p.bytes = omega (arith, get_elem?-bound i c cells e, w.count) in
      rw
        (
          lt→leb_false (num_cells p.bytes) i lt,
          get_cell_offset-entry p.bytes i 0 (omega (arith, w.count, w.apart, w.inside, w.size)),
        )
        (parse_cell-encoded (is_leaf p) p.bytes h.rest (entry p.bytes i) c h.is_cell w.size h.here)

  -- If a page represents a list of cells, then CellAt answers the cell at the index, and the error of
  -- a missing cell for every index from the number of cells on.
  pub cell_at-Represents : (i : ℕ) → cell_at p i ≡ read (get_elem? cells i)
  unfolding cell_at
  cell_at-Represents i = elim (Option-cases (get_elem? cells i)) [
    | inr (c, e) ↦ rw e (cell_at-present i c e)
    | inl e ↦
        rw (e, le→leb (num_cells p.bytes) i (omega (arith, get_elem?-end i cells e, w.count))) refl
  ]

pub new_page-Represents : (id page_type : ℕ) → Represents (new_page id page_type) []
unfolding new_page num_cells free_ptr
new_page-Represents id page_type = record {
  size = refl;
  count = refl;
  apart = omega arith;
  inside = omega arith;
  holds = λ i c e. cc;
}

-- A cell that stands where no write went, in a page whose free space is no larger.
pub Holds-moved :
    (b b' : Bytes) (leaf : Bool) (o o' : ℕ) (c : Cell)
    → Holds b leaf o c
    → is_old b' ≡ is_old b
    → free_ptr b' ≤ free_ptr b
    → o' ≡ o
    → drop o b' ≡ drop o b
    → Holds b' leaf o' c
Holds-moved b b' leaf o o' c w v f e d = record {
  is_cell = w.is_cell;
  after = omega (arith, w.after);
  rest = w.rest;
  here = rw (e, v) (d ∙ w.here);
}

pub IsKept-is_old : (k : ℕ) (b b' : Bytes) → IsKept k b b' → is_old b' ≡ is_old b
unfolding is_old version
IsKept-is_old k b b' w =
    ap (λ (x : ℕ). (if x == 0 then page_format_v1 else x) == page_format_v1) w.same_version

pub IsKept-header :
    (k : ℕ) (b b' : Bytes)
    → IsKept k b b'
    → (num_cells b' ≡ num_cells b) × (free_ptr b' ≡ free_ptr b) × (right_ptr b' ≡ right_ptr b)
unfolding num_cells free_ptr right_ptr
IsKept-header k b b' w =
    (w.same_field 1 2 (omega arith), w.same_field 7 2 (omega arith), w.same_field 3 4 (omega arith))

-- What every operation of a page keeps.
pub record IsSuccessor (p p' : Page) : Type 0 where
  pub same_id : p'.id ≡ p.id
  pub same_kind : is_leaf p' ≡ is_leaf p
  pub same_right : right_ptr p'.bytes ≡ right_ptr p.bytes
  pub same_format : is_old p'.bytes ≡ is_old p.bytes

pub IsSuccessor-trans : (a b c : Page) → IsSuccessor a b → IsSuccessor b c → IsSuccessor a c
IsSuccessor-trans a b c v w = record {
  same_id = w.same_id ∙ v.same_id;
  same_kind = w.same_kind ∙ v.same_kind;
  same_right = w.same_right ∙ v.same_right;
  same_format = w.same_format ∙ v.same_format;
}
