-- ===== src/Bytes/Order.antt =====
-- `bytes.Compare`, and `<` and `==` on Go strings: the lexicographic order of the bytes.
use storage_engines.Base.{ℕ, ◌≡◌, refl, compare, Ordering, Bool, true, false, List, [], ◌∷◌, arith}

unfoldable pub compare_bytes : List ℕ → List ℕ → Ordering
compare_bytes [] [] = Ordering.eq
compare_bytes [] (y ∷ ys) = Ordering.lt
compare_bytes (x ∷ xs) [] = Ordering.gt
compare_bytes (x ∷ xs) (y ∷ ys) = elim (compare x y) [
  | Ordering.lt ↦ Ordering.lt
  | Ordering.eq ↦ compare_bytes xs ys
  | Ordering.gt ↦ Ordering.gt
]

abbrev pub flip : Ordering → Ordering
flip Ordering.lt = Ordering.gt
flip Ordering.eq = Ordering.eq
flip Ordering.gt = Ordering.lt

abbrev pub key_lt : List ℕ → List ℕ → Bool
key_lt a b = elim (compare_bytes a b) [ Ordering.lt ↦ true | _ ↦ false ]

abbrev pub key_le : List ℕ → List ℕ → Bool
key_le a b = elim (compare_bytes a b) [ Ordering.gt ↦ false | _ ↦ true ]

abbrev pub key_eq : List ℕ → List ℕ → Bool
key_eq a b = elim (compare_bytes a b) [ Ordering.eq ↦ true | _ ↦ false ]

pub compare_bytes_refl : (a : List ℕ) → compare_bytes a a ≡ Ordering.eq
unfolding compare_bytes
compare_bytes_refl [] = refl
compare_bytes_refl (x ∷ xs) = ground (arith, compare_bytes_refl xs)

pub eq_of_compare_bytes : (a b : List ℕ) → compare_bytes a b ≡ Ordering.eq → a ≡ b
unfolding compare_bytes
eq_of_compare_bytes [] [] h = refl
eq_of_compare_bytes [] (y ∷ ys) h = cc
eq_of_compare_bytes (x ∷ xs) [] h = cc
eq_of_compare_bytes (x ∷ xs) (y ∷ ys) h = ground (arith, eq_of_compare_bytes xs ys)

pub compare_bytes-flip : (a b : List ℕ) → compare_bytes b a ≡ flip (compare_bytes a b)
unfolding compare_bytes
compare_bytes-flip [] [] = refl
compare_bytes-flip [] (y ∷ ys) = refl
compare_bytes-flip (x ∷ xs) [] = refl
compare_bytes-flip (x ∷ xs) (y ∷ ys) = ground (arith, compare_bytes-flip xs ys)

pub compare_bytes_trans :
    (a b c : List ℕ)
    → compare_bytes a b ≡ Ordering.lt
    → compare_bytes b c ≡ Ordering.lt
    → compare_bytes a c ≡ Ordering.lt
unfolding compare_bytes
compare_bytes_trans [] [] c h k = cc
compare_bytes_trans [] (y ∷ ys) [] h k = cc
compare_bytes_trans [] (y ∷ ys) (z ∷ zs) h k = refl
compare_bytes_trans (x ∷ xs) [] c h k = cc
compare_bytes_trans (x ∷ xs) (y ∷ ys) [] h k = cc
compare_bytes_trans (x ∷ xs) (y ∷ ys) (z ∷ zs) h k = ground (arith, compare_bytes_trans xs ys zs)

pub key_le_trans : (a b c : List ℕ) → key_le a b ≡ true → key_le b c ≡ true → key_le a c ≡ true
key_le_trans a b c h k =
    ground (arith, compare_bytes_trans a b c, eq_of_compare_bytes a b, eq_of_compare_bytes b c)

pub key_le_total : (a b : List ℕ) → key_lt a b ≡ false → key_le b a ≡ true
key_le_total a b h = ground (arith, compare_bytes-flip a b)
