-- ===== src/Btree/Tree/Rebuild.antt =====
-- The loops of splitLeaf that insert cells in ascending order into a page.
use storage_engines.Base.{
  ==_refl, All, Bool, List, Ordering, [], append-nil, append_assoc, arith, false, get_elem?, length,
  length-append, length-set, ok, refl, some, suc, zero, ℕ, ◌++◌, ◌+◌, ◌<◌, ◌==◌, ◌∙◌, ◌∷◌, ◌≡◌, ◌≤◌,
}
use storage_engines.Bytes.Order.{compare_bytes, compare_bytes-flip}
use storage_engines.Btree.Page.{Cell, cell_dir_offset, free_ptr, is_leaf}
use storage_engines.Btree.Page.Encoded.{IsCell, encoded, is_old}
use storage_engines.Btree.Page.Spec.{Above, IsAscending}
use storage_engines.Btree.Page.Invariant.{IsSuccessor, IsSuccessor-trans, Represents}
use storage_engines.Btree.Page.Place.{IsBelow}
use storage_engines.Btree.Page.Behind.{insert_cell-behind}
use storage_engines.Btree.Pager.{Pager, blank_page, page_at, store_page}
use storage_engines.Btree.Pager.Cache.{get_or-set}
use storage_engines.Btree.Tree.{insert_all, insert_object}
use storage_engines.Btree.Tree.Split.{IsAscending-append}

-- The bytes that cells take in a format.
unfoldable pub fill : Bool → Bool → List Cell → ℕ
unfolding encoded
fill old leaf [] = 0
fill old leaf (c ∷ cells) = length (encoded old leaf c) + fill old leaf cells

-- A page object that represents other cells, where all others are as they were.
pub record IsRebuilt (a : ℕ) (cells : List Cell) (p p' : Pager) : Type 0 where
  pub represents : Represents (page_at p' a) cells
  pub successor : IsSuccessor (page_at p a) (page_at p' a)
  pub others : (b : ℕ) → (b == a) ≡ false → page_at p' b ≡ page_at p b
  pub same_length : length p'.heap ≡ length p.heap

All-below :
    (c : Cell) (pre cells : List Cell)
    → All (λ (x : Cell). Above x.key (c ∷ cells)) pre
    → (i : ℕ) (d : Cell) → get_elem? pre i ≡ some d
    → compare_bytes c.key d.key ≡ Ordering.gt
All-below c [] cells h i d e = cc
All-below c (x ∷ pre) cells h zero d e =
    let same : x ≡ d = cc in rw (← same) (ground (arith, h.0.0, compare_bytes-flip x.key c.key))
All-below c (x ∷ pre) cells h (suc i) d e = All-below c pre cells h.1 i d e

IsAscending-IsBelow :
    (c : Cell) (pre cells : List Cell)
    → IsAscending (pre ++ (c ∷ cells))
    → IsAscending pre × IsBelow c.key pre (length pre)
IsAscending-IsBelow c pre cells s =
    let (t, u, v) = IsAscending-append pre (c ∷ cells) s in
    (t, λ i d lt e. All-below c pre cells v i d e)

-- Ascending cells that fit behind those of a page are inserted one after the other.
pub insert_all-IsRebuilt :
    (a : ℕ) (cells pre : List Cell) (p : Pager)
    → a < length p.heap
    → Represents (page_at p a) pre
    → IsAscending (pre ++ cells)
    → All (IsCell (is_leaf (page_at p a))) cells
    → cell_dir_offset (length pre + length cells)
        + fill (is_old (page_at p a).bytes) (is_leaf (page_at p a)) cells
      ≤ free_ptr (page_at p a).bytes
    → (p' : Pager) × (insert_all a cells p ≡ (ok tt, p')) × IsRebuilt a (pre ++ cells) p p'
unfolding insert_all insert_object fill
insert_all-IsRebuilt a [] pre p lt w s v fits = (
  p,
  refl,
  record {
    represents = rw (append-nil pre) w;
    successor = record { same_kind = refl; same_right = refl; same_format = refl; same_id = refl };
    others = λ b n. refl;
    same_length = refl;
  },
)
insert_all-IsRebuilt a (c ∷ cells) pre p lt w s v fits =
    let (t, below) = IsAscending-IsBelow c pre cells s in
    let (page, ran, w1, n, free) =
      insert_cell-behind (page_at p a) pre c w t v.0 below (omega (arith, fits)) in
    let q : Pager = store_page p a page in
    let here : page_at q a ≡ page =
      get_or-set p.heap a a page blank_page lt ∙ rw (==_refl a) refl in
    let (p', done, r) =
      insert_all-IsRebuilt a cells (pre ++ (c ∷ [])) q (omega (arith, length-set p.heap a page, lt))
        (rw here w1) (rw (append_assoc pre (c ∷ []) cells) s) (rw (here, n.same_kind) v.1)
        (rw (here, n.same_kind, n.same_format)
          (omega (arith, fits, free, length-append pre (c ∷ [])))) in
    (
      p',
      rw ran done,
      record {
        represents = rw (← append_assoc pre (c ∷ []) cells) r.represents;
        successor =
            IsSuccessor-trans (page_at p a) (page_at q a) (page_at p' a) (rw here n) r.successor;
        others = λ b m. r.others b m ∙ get_or-set p.heap a b page blank_page lt ∙ rw m refl;
        same_length = r.same_length ∙ length-set p.heap a page;
      },
    )
