-- ===== src/Lsm/Bloom/Bits.antt =====
-- Setting and testing one bit of the array: tables over a byte and its eight masks.
use storage_engines.Base.{
  ap, ◌≢◌, ==_iff, ℕ, zero, suc, ◌+◌, ◌*◌, ◌/◌, ◌%◌, ◌^◌, ◌<◌, ◌≡◌, refl, bit_and, bit_or, Bool,
  true, false, ◌&&◌, ◌||◌, [], ◌∷◌, length, set, get_or, ltb, ◌==◌, arith, All, not, Bool-cases,
  inl, inr,
}
use storage_engines.Bytes.{Bytes}
use storage_engines.Lsm.Bloom.{set_bit, bit_clear}

abbrev pub IsByte : ℕ → Type 0
IsByte b = b < 256

module _ (test : ℕ → Bool) where
  passes : ℕ → Bool
  passes zero = true
  passes (suc bound) = passes bound && test bound

  passes_lem : (i bound : ℕ) → passes bound ≡ true → i < bound → test i ≡ true
  unfolding passes
  passes_lem i zero all lt = absurd (omega arith)
  passes_lem i (suc bound) all lt = ground (arith, passes_lem i bound)

abbrev hit : ℕ → ℕ → Bool
hit b i = not (bit_and (bit_or b (2 ^ i)) (2 ^ i) == 0) && ltb (bit_or b (2 ^ i)) 256

abbrev keep : ℕ → ℕ → ℕ → Bool
keep b i j = (bit_and b (2 ^ j) == 0) || not (bit_and (bit_or b (2 ^ i)) (2 ^ j) == 0)

hit_table : passes (λ n. hit (n / 8) (n % 8)) 2048 ≡ true
unfolding passes
hit_table = refl

keep_table : passes (λ n. keep (n / 64) (n / 8 % 8) (n % 8)) 16384 ≡ true
unfolding passes
keep_table = refl

hit_all : (b i : ℕ) → b < 256 → i < 8 → hit b i ≡ true
hit_all b i p q =
    let eb : (b * 8 + i) / 8 ≡ b = omega arith in
    let ei : (b * 8 + i) % 8 ≡ i = omega arith in
    rw (eb, ei) at (passes_lem (λ n. hit (n / 8) (n % 8)) (b * 8 + i) 2048 hit_table (omega arith))

keep_all : (b i j : ℕ) → b < 256 → i < 8 → j < 8 → keep b i j ≡ true
keep_all b i j p q r =
    let eb : (b * 64 + i * 8 + j) / 64 ≡ b = omega arith in
    let ei : (b * 64 + i * 8 + j) / 8 % 8 ≡ i = omega arith in
    let ej : (b * 64 + i * 8 + j) % 8 ≡ j = omega arith in
    rw (eb, ei, ej) at
      (passes_lem (λ n. keep (n / 64) (n / 8 % 8) (n % 8)) (b * 64 + i * 8 + j) 16384 keep_table
        (omega arith))

get_or-IsByte : (bits : Bytes) (i : ℕ) → All IsByte bits → get_or bits i 0 < 256
get_or-IsByte [] i h = omega arith
get_or-IsByte (b ∷ bits) zero h = h.0
get_or-IsByte (b ∷ bits) (suc i) h = get_or-IsByte bits i h.1

set-IsByte : (bits : Bytes) (i v : ℕ) → All IsByte bits → v < 256 → All IsByte (set bits i v)
set-IsByte [] i v h k = tt
set-IsByte (b ∷ bits) zero v h k = (k, h.1)
set-IsByte (b ∷ bits) (suc i) v h k = (h.0, set-IsByte bits i v h.1 k)

get_or-set_self : (bits : Bytes) (i v : ℕ) → i < length bits → get_or (set bits i v) i 0 ≡ v
get_or-set_self [] i v h = absurd (omega arith)
get_or-set_self (b ∷ bits) zero v h = refl
get_or-set_self (b ∷ bits) (suc i) v h = get_or-set_self bits i v (omega arith)

get_or-set_ne : (bits : Bytes) (i j v : ℕ) → i ≢ j → get_or (set bits i v) j 0 ≡ get_or bits j 0
get_or-set_ne [] i j v h = refl
get_or-set_ne (b ∷ bits) zero zero v h = absurd (h refl)
get_or-set_ne (b ∷ bits) zero (suc j) v h = refl
get_or-set_ne (b ∷ bits) (suc i) zero v h = refl
get_or-set_ne (b ∷ bits) (suc i) (suc j) v h = get_or-set_ne bits i j v (λ e. h (ap suc e))

module _ (bits : Bytes) (h : ℕ) (bytes : All IsByte bits) (room : h / 8 < length bits) where
  mask_hit : hit (get_or bits (h / 8) 0) (h % 8) ≡ true
  mask_hit =
      hit_all (get_or bits (h / 8) 0) (h % 8) (get_or-IsByte bits (h / 8) bytes) (omega arith)

  pub set_bit-IsByte : All IsByte (set_bit bits h)
  set_bit-IsByte =
      set-IsByte bits (h / 8) (bit_or (get_or bits (h / 8) 0) (2 ^ (h % 8))) bytes
        (ground (arith, mask_hit))

  -- A bit that was set is set, and stays so whatever bit is set next.
  pub bit_clear-set_bit_self : bit_clear (set_bit bits h) h ≡ false
  bit_clear-set_bit_self =
      rw (get_or-set_self bits (h / 8) (bit_or (get_or bits (h / 8) 0) (2 ^ (h % 8))) room)
        (ground (arith, mask_hit))

  pub bit_clear-set_bit : (g : ℕ) → bit_clear bits g ≡ false → bit_clear (set_bit bits h) g ≡ false
  bit_clear-set_bit g old = elim (Bool-cases (h / 8 == g / 8)) [
    | inl same ↦
        let e : h / 8 ≡ g / 8 = (==_iff (h / 8) (g / 8)).0 same in
        rw (← e, get_or-set_self bits (h / 8) (bit_or (get_or bits (h / 8) 0) (2 ^ (h % 8))) room)
          (ground (
            arith,
            keep_all (get_or bits (h / 8) 0) (h % 8) (g % 8) (get_or-IsByte bits (h / 8) bytes)
                (omega arith) (omega arith),
            rw (← e) at old,
          ))
    | inr other ↦
        rw
          (get_or-set_ne bits (h / 8) (g / 8) (bit_or (get_or bits (h / 8) 0) (2 ^ (h % 8)))
            (ground arith))
          old
  ]
