-- ===== src/Bytes/Bits.antt =====
-- Bit operations as arithmetic: masks on one byte by a table, and `|` of numbers whose bits do not
-- meet, for every shift.
use Prim.Native.Nat.{digits, bit_or-bitwise, bit_and-bitwise, min}
use native.Mathlib.Nat.{pow-suc}
use storage_engines.Base.{
  ◌∙◌, ℕ, zero, suc, ◌+◌, ◌*◌, ◌/◌, ◌%◌, ◌^◌, ◌≤◌, ◌<◌, ◌≡◌, refl, Bool, true, ◌&&◌, ◌==◌, arith,
  max, bit_and, bit_or,
}

abbrev or_digits : ℕ → ℕ → ℕ → ℕ
or_digits count low high = digits (λ rest. rest) max count low high

module _ (f g : ℕ → ℕ) where
  same_below : ℕ → Bool
  same_below zero = true
  same_below (suc n) = (f n == g n) && same_below n

  same_below_sound : (n x : ℕ) → same_below n ≡ true → x < n → f x ≡ g x
  unfolding same_below
  same_below_sound zero x h lt = absurd (omega arith)
  same_below_sound (suc n) x h lt = ground (arith, same_below_sound n x)

pub and_mask : (b : ℕ) → b < 256 → bit_and b 0x7f ≡ b % 128
unfolding same_below
and_mask b h = same_below_sound (λ x. bit_and x 0x7f) (λ x. x % 128) 256 b refl h

pub or_mask : (b : ℕ) → b < 256 → bit_or b 0x80 ≡ b % 128 + 128
unfolding same_below
or_mask b h = same_below_sound (λ x. bit_or x 0x80) (λ x. x % 128 + 128) 256 b refl h

-- A number shifted by one bit more: its half, and its last digit.
shifted : (s b : ℕ) → b * 2 ^ suc s ≡ b * 2 ^ s * 2
shifted s b = rw (pow-suc 2 s) (omega arith)

-- The digits of `x` come first, and above them stand those of `b`.
or_digits-disjoint : (n s x b : ℕ) → x ≤ n → x < 2 ^ s → or_digits n x (b * 2 ^ s) ≡ x + b * 2 ^ s
or_digits-disjoint zero s zero b h lt = omega arith
or_digits-disjoint zero s (suc x) b h lt = absurd (omega arith)
or_digits-disjoint (suc n) s zero b h lt = omega arith
or_digits-disjoint (suc n) zero (suc x) b h lt = absurd (omega arith)
or_digits-disjoint (suc n) (suc s) (suc x) b h lt =
    rw (half, last, or_digits-disjoint n s (suc x / 2) b (omega arith) (omega (arith, pow-suc 2 s)))
      (omega (arith, shifted s b))
  where
    half : b * 2 ^ suc s / 2 ≡ b * 2 ^ s
    half = omega (arith, shifted s b)

    last : b * 2 ^ suc s % 2 ≡ 0
    last = omega (arith, shifted s b)

-- `x | b << s` is a sum where `x` has fewer than `s` bits.
pub bit_or-disjoint : (s x b : ℕ) → x < 2 ^ s → bit_or x (b * 2 ^ s) ≡ x + b * 2 ^ s
bit_or-disjoint s x b h = bit_or-bitwise x (b * 2 ^ s) ∙ or_digits-disjoint x s x b (omega arith) h

-- A conjunction has no digit that its second argument lacks.
masked_le : (n a b : ℕ) → digits (λ rest. zero) min n a b ≤ b
masked_le zero zero b = omega arith
masked_le zero (suc a) b = omega arith
masked_le (suc n) zero b = omega arith
masked_le (suc n) (suc a) b = omega (arith, masked_le n (suc a / 2) (b / 2))

pub bit_and_le : (a b : ℕ) → bit_and a b ≤ b
bit_and_le a b = rw (bit_and-bitwise a b) (masked_le a a b)
