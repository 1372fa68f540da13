-- ===== src/Base/Table.antt =====
-- A Go map whose keys are numbers, as an association list, and a set of numbers.
use Prim.Native.Nat.{ℕ}
use mathlib.Core.Path.{◌≡◌, ap}
use mathlib.Core.Bool.{Bool, true, false, ◌||◌}
use mathlib.Core.Option.{Option, none, some}
use mathlib.Core.List.{List, [], ◌∷◌}
use native.Mathlib.Omega.{arith}
use storage_engines.Base.Tests.{if◌then◌else◌, ◌==◌}

module _ {ℓ} {A : Type ℓ} where
  unfoldable pub find : ℕ → List (ℕ × A) → Option A
  find k [] = none
  find k ((j, a) ∷ t) = if k == j then some a else find k t

  unfoldable pub remove : ℕ → List (ℕ × A) → List (ℕ × A)
  remove k [] = []
  remove k ((j, a) ∷ t) = let rest = remove k t in if k == j then rest else (j, a) ∷ rest

  unfoldable pub put : ℕ → A → List (ℕ × A) → List (ℕ × A)
  unfolding remove
  put k a t = (k, a) ∷ remove k t

  pub find-remove :
      (k j : ℕ) (t : List (ℕ × A)) → find k (remove j t) ≡ (if k == j then none else find k t)
  unfolding find remove
  find-remove k j [] = ground arith
  find-remove k j ((i, a) ∷ t) = ground (arith, find-remove k j t)

  pub find-put :
      (k j : ℕ) (a : A) (t : List (ℕ × A))
      → find k (put j a t) ≡ (if k == j then some a else find k t)
  unfolding find put
  find-put k j a t = ground (arith, find-remove k j t)

unfoldable pub member : ℕ → List ℕ → Bool
member k [] = false
member k (j ∷ js) = (k == j) || member k js

unfoldable pub without : ℕ → List ℕ → List ℕ
without k [] = []
without k (j ∷ js) = let rest = without k js in if k == j then rest else j ∷ rest

pub member-without :
    (k j : ℕ) (js : List ℕ) → member k (without j js) ≡ (if k == j then false else member k js)
unfolding member without
member-without k j [] = ground arith
member-without k j (i ∷ js) = ground (arith, member-without k j js)

unfoldable pub include : ℕ → List ℕ → List ℕ
unfolding member
include k js = if member k js then js else k ∷ js

pub member-include :
    (k j : ℕ) (js : List ℕ) → member k (include j js) ≡ (if k == j then true else member k js)
unfolding include member
member-include k j js = ground (arith, same_member k j js)
  where
    same_member : (i l : ℕ) (ks : List ℕ) → i ≡ l → member i ks ≡ member l ks
    same_member i l ks e = ap (λ (n : ℕ). member n ks) e
