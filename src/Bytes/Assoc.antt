-- ===== src/Bytes/Assoc.antt =====
-- Go's `map[string]V` as an association list with at most one entry for a key. The order of the list
-- stands for the order of a `range` over the map, which Go leaves open.
use storage_engines.Base.{ℕ, ◌≡◌, true, List, [], ◌∷◌, Option, none, some, arith, if◌then◌else◌}
use storage_engines.Bytes.Order.{key_eq, eq_of_compare_bytes, compare_bytes_refl}

abbrev pub Assoc {ℓ} : Type ℓ → Type ℓ
Assoc V = List (List ℕ × V)

pub key_eq_sound : (a b : List ℕ) → key_eq a b ≡ true → a ≡ b
key_eq_sound a b h = eq_of_compare_bytes a b (ground arith)

pub key_eq_refl : (a : List ℕ) → key_eq a a ≡ true
key_eq_refl a = ground (arith, compare_bytes_refl a)

module _ {ℓ} {V : Type ℓ} where
  unfoldable pub lookup : List ℕ → Assoc V → Option V
  lookup k [] = none
  lookup k ((j, v) ∷ m) = if key_eq j k then some v else lookup k m

  unfoldable pub insert : List ℕ → V → Assoc V → Assoc V
  insert k v [] = (k, v) ∷ []
  insert k v ((j, w) ∷ m) = if key_eq j k then (k, v) ∷ m else (j, w) ∷ insert k v m

  unfoldable pub remove : List ℕ → Assoc V → Assoc V
  remove k [] = []
  remove k ((j, w) ∷ m) = let rest = remove k m in if key_eq j k then rest else (j, w) ∷ rest

  pub lookup-insert :
      (j k : List ℕ) (v : V) (m : Assoc V)
      → lookup j (insert k v m) ≡ (if key_eq k j then some v else lookup j m)
  unfolding lookup insert
  lookup-insert j k v [] = ground arith
  lookup-insert j k v ((i, w) ∷ m) = ground (
    arith,
    lookup-insert j k v m,
    key_eq_sound i k,
    key_eq_sound i j,
    key_eq_sound k j,
    key_eq_refl k,
  )

  pub lookup-remove :
      (j k : List ℕ) (m : Assoc V)
      → lookup j (remove k m) ≡ (if key_eq k j then none else lookup j m)
  unfolding lookup remove
  lookup-remove j k [] = ground arith
  lookup-remove j k ((i, w) ∷ m) = ground (
    arith,
    lookup-remove j k m,
    key_eq_sound i k,
    key_eq_sound i j,
    key_eq_sound k j,
    key_eq_refl k,
    key_eq_refl j,
  )
