-- ===== src/Btree/Page/Spec.antt =====
-- The abstract page: a list of cells in ascending order of their keys. A search from the left, an
-- insertion that keeps the order, and the reads of a list with an element more or less.
use storage_engines.Base.{
  All, List, Ordering, [], ap, arith, get_elem?, length, none, refl, some, suc, zero, ℕ, ◌+◌, ◌<◌,
  ◌∷◌, ◌≡◌, ◌≤◌,
}
use storage_engines.Base.Int.{negsuc, pos, ℤ}
use storage_engines.Bytes.{Bytes}
use storage_engines.Bytes.Order.{compare_bytes}
use storage_engines.Btree.Page.{Cell}

abbrev pub Above : Bytes → List Cell → Type 0
Above k cells = All (λ (d : Cell). compare_bytes k d.key ≡ Ordering.lt) cells

abbrev pub IsAscending : List Cell → Type 0
IsAscending [] = Unit
IsAscending (c ∷ cells) = Above c.key cells × IsAscending cells

unfoldable pub find_place : Bytes → List Cell → ℕ → ℤ
find_place k [] i = pos i
find_place k (c ∷ cells) i =
    let rest = find_place k cells (i + 1) in
    elim (compare_bytes k c.key) [
      | Ordering.lt ↦ pos i
      | Ordering.eq ↦ negsuc i
      | Ordering.gt ↦ rest
    ]

unfoldable pub put_in : Cell → List Cell → List Cell
put_in c [] = c ∷ []
put_in c (d ∷ cells) =
    let rest = put_in c cells in
    elim (compare_bytes c.key d.key) [
      | Ordering.lt ↦ c ∷ d ∷ cells
      | Ordering.eq ↦ c ∷ cells
      | Ordering.gt ↦ d ∷ rest
    ]

abbrev pub insert_nth : ℕ → Cell → List Cell → List Cell
insert_nth zero c cells = c ∷ cells
insert_nth (suc i) c [] = c ∷ []
insert_nth (suc i) c (d ∷ cells) = d ∷ insert_nth i c cells

abbrev pub remove_nth : ℕ → List Cell → List Cell
remove_nth i [] = []
remove_nth zero (c ∷ cells) = cells
remove_nth (suc i) (c ∷ cells) = c ∷ remove_nth i cells

pub length-insert_nth :
    (i : ℕ) (c : Cell) (cells : List Cell) → length (insert_nth i c cells) ≡ suc (length cells)
length-insert_nth zero c cells = refl
length-insert_nth (suc i) c [] = refl
length-insert_nth (suc i) c (d ∷ cells) = ap suc (length-insert_nth i c cells)

pub length-remove_nth :
    (i : ℕ) (cells : List Cell)
    → i < length cells
    → suc (length (remove_nth i cells)) ≡ length cells
length-remove_nth i [] h = absurd (omega arith)
length-remove_nth zero (c ∷ cells) h = refl
length-remove_nth (suc i) (c ∷ cells) h = ap suc (length-remove_nth i cells (omega arith))

pub get-insert_nth_low :
    (i j : ℕ) (c : Cell) (cells : List Cell)
    → j < i
    → i ≤ length cells
    → get_elem? (insert_nth i c cells) j ≡ get_elem? cells j
get-insert_nth_low zero j c cells h le = absurd (omega arith)
get-insert_nth_low (suc i) j c [] h le = absurd (omega arith)
get-insert_nth_low (suc i) zero c (d ∷ cells) h le = refl
get-insert_nth_low (suc i) (suc j) c (d ∷ cells) h le =
    get-insert_nth_low i j c cells (omega arith) (omega arith)

pub get-insert_nth_here :
    (i : ℕ) (c : Cell) (cells : List Cell)
    → i ≤ length cells
    → get_elem? (insert_nth i c cells) i ≡ some c
get-insert_nth_here zero c cells le = refl
get-insert_nth_here (suc i) c [] le = absurd (omega arith)
get-insert_nth_here (suc i) c (d ∷ cells) le = get-insert_nth_here i c cells (omega arith)

pub get-insert_nth_up :
    (i j : ℕ) (c : Cell) (cells : List Cell)
    → i ≤ j
    → i ≤ length cells
    → get_elem? (insert_nth i c cells) (suc j) ≡ get_elem? cells j
get-insert_nth_up zero j c cells h le = refl
get-insert_nth_up (suc i) j c [] h le = absurd (omega arith)
get-insert_nth_up (suc i) zero c (d ∷ cells) h le = absurd (omega arith)
get-insert_nth_up (suc i) (suc j) c (d ∷ cells) h le =
    get-insert_nth_up i j c cells (omega arith) (omega arith)

pub get-remove_nth_low :
    (i j : ℕ) (cells : List Cell) → j < i → get_elem? (remove_nth i cells) j ≡ get_elem? cells j
get-remove_nth_low i j [] h = refl
get-remove_nth_low zero j (c ∷ cells) h = absurd (omega arith)
get-remove_nth_low (suc i) zero (c ∷ cells) h = refl
get-remove_nth_low (suc i) (suc j) (c ∷ cells) h = get-remove_nth_low i j cells (omega arith)

pub get-remove_nth_up :
    (i j : ℕ) (cells : List Cell)
    → i ≤ j
    → get_elem? (remove_nth i cells) j ≡ get_elem? cells (suc j)
get-remove_nth_up i j [] h = refl
get-remove_nth_up zero j (c ∷ cells) h = refl
get-remove_nth_up (suc i) zero (c ∷ cells) h = absurd (omega arith)
get-remove_nth_up (suc i) (suc j) (c ∷ cells) h = get-remove_nth_up i j cells (omega arith)

pub get_elem?-bound :
    (i : ℕ) (c : Cell) (cells : List Cell) → get_elem? cells i ≡ some c → i < length cells
get_elem?-bound i c [] h = cc
get_elem?-bound zero c (d ∷ cells) h = omega arith
get_elem?-bound (suc i) c (d ∷ cells) h = omega (arith, get_elem?-bound i c cells h)

pub get_elem?-end : (i : ℕ) (cells : List Cell) → get_elem? cells i ≡ none → length cells ≤ i
get_elem?-end i [] h = omega arith
get_elem?-end zero (c ∷ cells) h = cc
get_elem?-end (suc i) (c ∷ cells) h = omega (arith, get_elem?-end i cells h)

pub get_elem?-within :
    (i : ℕ) (cells : List Cell) → i < length cells → (c : Cell) × (get_elem? cells i ≡ some c)
get_elem?-within i [] h = absurd (omega arith)
get_elem?-within zero (c ∷ cells) h = (c, refl)
get_elem?-within (suc i) (c ∷ cells) h = get_elem?-within i cells (omega arith)

pub Above-get :
    (k : Bytes) (i : ℕ) (d : Cell) (cells : List Cell)
    → Above k cells
    → get_elem? cells i ≡ some d
    → compare_bytes k d.key ≡ Ordering.lt
Above-get k i d [] a h = cc
Above-get k zero d (x ∷ cells) a h = let e : x ≡ d = cc in rw (← e) a.0
Above-get k (suc i) d (x ∷ cells) a h = Above-get k i d cells a.1 h

pub IsAscending-get :
    (i j : ℕ) (c d : Cell) (cells : List Cell)
    → IsAscending cells
    → i < j
    → get_elem? cells i ≡ some c
    → get_elem? cells j ≡ some d
    → compare_bytes c.key d.key ≡ Ordering.lt
IsAscending-get i j c d [] s h e f = cc
IsAscending-get zero zero c d (x ∷ cells) s h e f = absurd (omega arith)
IsAscending-get zero (suc j) c d (x ∷ cells) s h e f =
    let same : x ≡ c = cc in rw (← same) (Above-get x.key j d cells s.0 f)
IsAscending-get (suc i) zero c d (x ∷ cells) s h e f = absurd (omega arith)
IsAscending-get (suc i) (suc j) c d (x ∷ cells) s h e f =
    IsAscending-get i j c d cells s.1 (omega arith) e f
