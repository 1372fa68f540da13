-- ===== src/Bytes/Endian.antt =====
-- `encoding/binary`: unsigned integers of `w` bytes, lowest or highest byte first.
use storage_engines.Base.{
  ℕ, zero, suc, ◌+◌, ◌*◌, ◌/◌, ◌%◌, ◌^◌, ◌<◌, ◌≡◌, refl, ap, List, [], ◌∷◌, arith, length,
}
use native.Mathlib.Nat.{pow-suc}

unfoldable pub put_le : ℕ → ℕ → List ℕ
put_le zero v = []
put_le (suc w) v = (v % 256) ∷ put_le w (v / 256)

unfoldable pub get_le : List ℕ → ℕ
get_le [] = 0
get_le (b ∷ bs) = b + 256 * get_le bs

pub length-put_le : (w v : ℕ) → length (put_le w v) ≡ w
unfolding put_le
length-put_le zero v = refl
length-put_le (suc w) v = ap suc (length-put_le w (v / 256))

pub get_le-put_le : (w v : ℕ) → v < 256 ^ w → get_le (put_le w v) ≡ v
unfolding put_le get_le
get_le-put_le zero v h = omega arith
get_le-put_le (suc w) v h = omega (arith, get_le-put_le w (v / 256) (omega (arith, pow-suc 256 w)))

-- The highest byte first.
unfoldable pub put_be : ℕ → ℕ → List ℕ
put_be zero v = []
put_be (suc w) v = (v / 256 ^ w % 256) ∷ put_be w v

unfoldable pub get_be : List ℕ → ℕ
get_be [] = 0
get_be (b ∷ bs) = b * 256 ^ length bs + get_be bs

pub length-put_be : (w v : ℕ) → length (put_be w v) ≡ w
unfolding put_be
length-put_be zero v = refl
length-put_be (suc w) v = ap suc (length-put_be w v)

-- The two widths that pages use.
pub get_be-put_be_two : (v : ℕ) → v < 2 ^ 16 → get_be (put_be 2 v) ≡ v
unfolding put_be get_be
get_be-put_be_two v h = omega arith

pub get_be-put_be_four : (v : ℕ) → v < 2 ^ 32 → get_be (put_be 4 v) ≡ v
unfolding put_be get_be
get_be-put_be_four v h = omega arith
