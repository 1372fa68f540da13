-- ===== src/Btree/Page/Place.antt =====
-- The place of a key in an ascending list of cells, and an insertion at that place.
use storage_engines.Base.{
  Bool-cases, List, Ordering, [], ap, arith, get_elem?, inl, inr, length, ltb, ltb_false→le, ltb→lt,
  refl, some, suc, sym, true, zero, ℕ, ◌+◌, ◌<◌, ◌∙◌, ◌∷◌, ◌≡◌, ◌≤◌,
}
use storage_engines.Base.Int.{negsuc, pos, ℤ}
use storage_engines.Bytes.{Bytes}
use storage_engines.Bytes.Order.{
  compare_bytes, compare_bytes-flip, compare_bytes_trans, eq_of_compare_bytes, key_le,
}
use storage_engines.Btree.Page.{Cell}
use storage_engines.Btree.Page.Spec.{
  Above, IsAscending, IsAscending-get, find_place, get-remove_nth_low, get-remove_nth_up,
  get_elem?-bound, insert_nth, length-remove_nth, put_in, remove_nth,
}

module _ (k : Bytes) (cells : List Cell) where
  abbrev pub IsBelow : ℕ → Type 0
  IsBelow r =
      (i : ℕ) (c : Cell) → i < r → get_elem? cells i ≡ some c → compare_bytes k c.key ≡ Ordering.gt

  abbrev pub IsAbove : ℕ → Type 0
  IsAbove r =
      (i : ℕ) (c : Cell) → r ≤ i → get_elem? cells i ≡ some c → compare_bytes k c.key ≡ Ordering.lt

  -- What a search answers: the place to insert at, or the place of the key.
  pub data Located : ℤ → Type 0 where
    absent_at : (r : ℕ) → r ≤ length cells → IsBelow r → IsAbove r → Located (pos r)
    present_at :
        (r : ℕ) (d : Cell)
        → get_elem? cells r ≡ some d
        → compare_bytes k d.key ≡ Ordering.eq
        → IsBelow r
        → Located (negsuc r)

pub find_place-pos :
    (k : Bytes) (r n : ℕ) (cells : List Cell)
    → r ≤ length cells
    → IsBelow k cells r
    → IsAbove k cells r
    → find_place k cells n ≡ pos (n + r)
unfolding find_place
find_place-pos k r n [] le lo hi = ap pos (omega arith)
find_place-pos k zero n (x ∷ cells) le lo hi =
    rw (find_place, hi 0 x (omega arith) refl) (ap pos (omega arith))
find_place-pos k (suc r) n (x ∷ cells) le lo hi =
    rw (find_place, lo 0 x (omega arith) refl)
      (find_place-pos k r (n + 1) cells (omega arith) (λ i c h e. lo (suc i) c (omega arith) e)
          (λ i c h e. hi (suc i) c (omega arith) e)
        ∙ ap pos (omega arith))

find_place-negsuc :
    (k : Bytes) (r n : ℕ) (d : Cell) (cells : List Cell)
    → get_elem? cells r ≡ some d
    → compare_bytes k d.key ≡ Ordering.eq
    → IsBelow k cells r
    → find_place k cells n ≡ negsuc (n + r)
unfolding find_place
find_place-negsuc k r n d [] e q lo = cc
find_place-negsuc k zero n d (x ∷ cells) e q lo =
    let same : x ≡ d = cc in rw (find_place, same, q) (ap negsuc (omega arith))
find_place-negsuc k (suc r) n d (x ∷ cells) e q lo =
    rw (find_place, lo 0 x (omega arith) refl)
      (find_place-negsuc k r (n + 1) d cells e q (λ i c h f. lo (suc i) c (omega arith) f)
        ∙ ap negsuc (omega arith))

pub Located-find_place :
    (k : Bytes) (cells : List Cell) (z : ℤ) → Located k cells z → z ≡ find_place k cells 0
Located-find_place k cells z (absent_at r le lo hi) =
    sym (find_place-pos k r 0 cells le lo hi ∙ ap pos (omega arith))
Located-find_place k cells z (present_at r d e q lo) =
    sym (find_place-negsuc k r 0 d cells e q lo ∙ ap negsuc (omega arith))

pub put_in-absent :
    (c : Cell) (r : ℕ) (cells : List Cell)
    → r ≤ length cells
    → IsBelow c.key cells r
    → IsAbove c.key cells r
    → put_in c cells ≡ insert_nth r c cells
unfolding put_in
put_in-absent c zero [] le lo hi = refl
put_in-absent c (suc r) [] le lo hi = refl
put_in-absent c zero (x ∷ cells) le lo hi = rw (put_in, hi 0 x (omega arith) refl) refl
put_in-absent c (suc r) (x ∷ cells) le lo hi =
    rw (put_in, lo 0 x (omega arith) refl)
      (ap (λ (t : List Cell). x ∷ t)
        (put_in-absent c r cells (omega arith) (λ i d h e. lo (suc i) d (omega arith) e)
          (λ i d h e. hi (suc i) d (omega arith) e)))

pub put_in-present :
    (c : Cell) (r : ℕ) (d : Cell) (cells : List Cell)
    → get_elem? cells r ≡ some d
    → compare_bytes c.key d.key ≡ Ordering.eq
    → IsBelow c.key cells r
    → put_in c cells ≡ insert_nth r c (remove_nth r cells)
unfolding put_in
put_in-present c r d [] e q lo = cc
put_in-present c zero d (x ∷ cells) e q lo = let same : x ≡ d = cc in rw (put_in, same, q) refl
put_in-present c (suc r) d (x ∷ cells) e q lo =
    rw (put_in, lo 0 x (omega arith) refl)
      (ap (λ (t : List Cell). x ∷ t)
        (put_in-present c r d cells e q (λ i b h f. lo (suc i) b (omega arith) f)))

-- In ascending order, one comparison tells the cells on its side.
pub IsBelow-to :
    (k : Bytes) (m : ℕ) (d : Cell) (cells : List Cell)
    → IsAscending cells
    → get_elem? cells m ≡ some d
    → key_le d.key k ≡ true
    → IsBelow k cells m
IsBelow-to k m d cells s e h i c lt f = ground (
  arith,
  IsAscending-get i m c d cells s lt f e,
  compare_bytes_trans c.key d.key k,
  eq_of_compare_bytes d.key k,
  compare_bytes-flip c.key k,
)

pub IsAbove-from :
    (k : Bytes) (m : ℕ) (d : Cell) (cells : List Cell)
    → IsAscending cells
    → get_elem? cells m ≡ some d
    → key_le k d.key ≡ true
    → IsAbove k cells (suc m)
IsAbove-from k m d cells s e h i c le f = ground (
  arith,
  IsAscending-get m i d c cells s (omega arith) e f,
  compare_bytes_trans k d.key c.key,
  eq_of_compare_bytes k d.key,
)

pub same_cell :
    (m i : ℕ) (c d : Cell) (cells : List Cell)
    → get_elem? cells m ≡ some d
    → get_elem? cells i ≡ some c
    → i ≡ m
    → d ≡ c
same_cell m i c d cells e f h = let g : get_elem? cells m ≡ some c = rw h at f in cc

pub IsBelow-past :
    (k : Bytes) (m : ℕ) (d : Cell) (cells : List Cell)
    → IsAscending cells
    → get_elem? cells m ≡ some d
    → compare_bytes k d.key ≡ Ordering.gt
    → IsBelow k cells (m + 1)
IsBelow-past k m d cells s e h i c lt f = elim (Bool-cases (ltb i m)) [
  | inl t ↦
      IsBelow-to k m d cells s e (ground (arith, compare_bytes-flip k d.key)) i c (ltb→lt i m t) f
  | inr t ↦ rw (← same_cell m i c d cells e f (omega (arith, ltb_false→le i m t))) h
]

pub IsAbove-at :
    (k : Bytes) (m : ℕ) (d : Cell) (cells : List Cell)
    → IsAscending cells
    → get_elem? cells m ≡ some d
    → compare_bytes k d.key ≡ Ordering.lt
    → IsAbove k cells m
IsAbove-at k m d cells s e h i c le f = elim (Bool-cases (ltb m i)) [
  | inl t ↦ IsAbove-from k m d cells s e (ground arith) i c (omega (arith, ltb→lt m i t)) f
  | inr t ↦ rw (← same_cell m i c d cells e f (omega (arith, ltb_false→le m i t))) h
]

-- Without the cell of the key, the key is absent.
pub Located-remove_nth :
    (k : Bytes) (r : ℕ) (d : Cell) (cells : List Cell)
    → IsAscending cells
    → get_elem? cells r ≡ some d
    → compare_bytes k d.key ≡ Ordering.eq
    → (r ≤ length (remove_nth r cells))
      × IsBelow k (remove_nth r cells) r
      × IsAbove k (remove_nth r cells) r
Located-remove_nth k r d cells s e q = (
  omega
      (arith, length-remove_nth r cells (get_elem?-bound r d cells e), get_elem?-bound r d cells e),
  λ i c h f.
      IsBelow-to k r d cells s e (ground (arith, compare_bytes-flip k d.key)) i c h
        (sym (get-remove_nth_low r i cells h) ∙ f),
  λ i c h f.
      IsAbove-from k r d cells s e (ground arith) (suc i) c (omega arith)
        (sym (get-remove_nth_up r i cells h) ∙ f),
)

Above-put_in :
    (k : Bytes) (c : Cell) (cells : List Cell)
    → compare_bytes k c.key ≡ Ordering.lt
    → Above k cells
    → Above k (put_in c cells)
unfolding put_in
Above-put_in k c [] h a = (h, tt)
Above-put_in k c (x ∷ cells) h a = ground (arith, Above-put_in k c cells h a.1)

Above-trans :
    (k l : Bytes) (cells : List Cell)
    → compare_bytes k l ≡ Ordering.lt
    → Above l cells
    → Above k cells
Above-trans k l [] h a = tt
Above-trans k l (x ∷ cells) h a = (compare_bytes_trans k l x.key h a.0, Above-trans k l cells h a.1)

pub put_in-IsAscending :
    (c : Cell) (cells : List Cell) → IsAscending cells → IsAscending (put_in c cells)
unfolding put_in
put_in-IsAscending c [] s = (tt, tt)
put_in-IsAscending c (x ∷ cells) s = ground (
  arith,
  compare_bytes-flip x.key c.key,
  Above-put_in x.key c cells,
  put_in-IsAscending c cells s.1,
  Above-trans c.key x.key cells,
  eq_of_compare_bytes x.key c.key,
)

pub remove_nth-IsAscending :
    (i : ℕ) (cells : List Cell) → IsAscending cells → IsAscending (remove_nth i cells)
remove_nth-IsAscending i [] s = tt
remove_nth-IsAscending zero (x ∷ cells) s = s.1
remove_nth-IsAscending (suc i) (x ∷ cells) s =
    (Above-remove_nth x.key i cells s.0, remove_nth-IsAscending i cells s.1)
  where
    Above-remove_nth : (k : Bytes) (j : ℕ) (ds : List Cell) → Above k ds → Above k (remove_nth j ds)
    Above-remove_nth k j [] a = tt
    Above-remove_nth k zero (d ∷ ds) a = a.1
    Above-remove_nth k (suc j) (d ∷ ds) a = (a.0, Above-remove_nth k j ds a.1)
