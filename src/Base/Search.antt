-- ===== src/Base/Search.antt =====
-- `sort.Search` of the Go standard library: binary search over [0, n) for the first index at which
-- a monotone test holds.
use Prim.Native.Nat.{ℕ, zero, suc, ◌+◌, ◌/◌, ◌≤◌, ◌<◌}
use mathlib.Core.Path.{◌≡◌}
use mathlib.Core.Logic.{inl, inr}
use mathlib.Core.Bool.{Bool, true, false}
use native.Mathlib.Omega.{arith}
use storage_engines.Base.Tests.{ltb, ltb→lt, ltb_false→le, Bool-cases, if◌then◌else◌}

-- The halving loop on `i < j`; each round at least halves `j - i`, so `j - i` rounds are enough.
pub search_loop : ℕ → (ℕ → Bool) → ℕ → ℕ → ℕ
search_loop zero f i j = i
search_loop (suc fuel) f i j =
    let h = (i + j) / 2 in
    let down = search_loop fuel f i h in
    let up = search_loop fuel f (h + 1) j in if ltb i j then (if f h then down else up) else i

unfoldable pub search : ℕ → (ℕ → Bool) → ℕ
unfolding search_loop
search n f = search_loop n f 0 n

-- What the loop returns: below it the test fails, and from it on the test holds.
pub record IsFirst (f : ℕ → Bool) (n r : ℕ) : Type 0 where
  pub bounded : r ≤ n
  pub below : (i : ℕ) → i < r → f i ≡ false
  pub above : (i : ℕ) → r ≤ i → i < n → f i ≡ true

module _ (f : ℕ → Bool) (n : ℕ) (mono : (i j : ℕ) → i ≤ j → j < n → f i ≡ true → f j ≡ true) where
  false_below : (i j : ℕ) → i ≤ j → j < n → f j ≡ false → f i ≡ false
  false_below i j le lt h = elim (Bool-cases (f i)) [
    | inl t ↦ ground (arith, mono i j le lt t)
    | inr e ↦ e
  ]

  search_loop-IsFirst :
      (fuel i j : ℕ)
      → i ≤ j
      → j ≤ n
      → j ≤ i + fuel
      → ((k : ℕ) → k < i → f k ≡ false)
      → ((k : ℕ) → j ≤ k → k < n → f k ≡ true)
      → IsFirst f n (search_loop fuel f i j)
  unfolding search_loop
  search_loop-IsFirst zero i j le jn enough lo hi = record {
    bounded = omega arith;
    below = lo;
    above = λ k p. hi k (omega arith);
  }
  search_loop-IsFirst (suc fuel) i j le jn enough lo hi = elim (Bool-cases (ltb i j)) [
    | inl lt ↦
        let i<j : i < j = ltb→lt i j lt in
        let h : ℕ = (i + j) / 2 in
        elim (Bool-cases (f h)) [
          | inl t ↦
              rw (lt, t)
                (search_loop-IsFirst fuel i h (omega arith) (omega arith) (omega arith) lo
                  (λ k p q. mono h k p q t))
          | inr e ↦
              rw (lt, e)
                (search_loop-IsFirst fuel (h + 1) j (omega arith) jn (omega arith)
                  (λ k p. false_below k h (omega arith) (omega arith) e) hi)
        ]
    | inr ge ↦
        let j≤i : j ≤ i = ltb_false→le i j ge in
        rw ge (record { bounded = omega arith; below = lo; above = λ k p. hi k (omega arith) })
  ]

  pub search-IsFirst : IsFirst f n (search n f)
  unfolding search
  search-IsFirst =
      search_loop-IsFirst n 0 n (omega arith) (omega arith) (omega arith)
        (λ k p. absurd (omega arith)) (λ k p q. absurd (omega arith))
