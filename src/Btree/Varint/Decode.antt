-- ===== src/Btree/Varint/Decode.antt =====
-- Reading back what the encoder wrote, and what the decoder makes of numbers that are too large.
use storage_engines.Base.{
  ◌-◌, ℕ, zero, suc, ◌+◌, ◌*◌, ◌/◌, ◌%◌, ◌^◌, ◌≤◌, ◌<◌, ◌≡◌, ap, ◌∙◌, ◌∷◌, ◌++◌, length, drop, ltb,
  arith, ok, if◌then◌else◌, bit_or, bit_and,
}
use storage_engines.Base.Int.{pos, negsuc}
use native.Mathlib.Nat.{pow-suc}
use native.Mathlib.Numerals.{towards_suc}
use storage_engines.Bytes.{Bytes}
use storage_engines.Bytes.Bits.{and_mask, bit_or-disjoint}
use storage_engines.Btree.Varint.{
  get_loop, uvarint, uvarint16, put_uvarint16, put_uvarint, varint_size16,
}
use storage_engines.Btree.Varint.Encode.{
  groups, length-groups, put_uvarint-groups, varint_size16-groups,
}

shift_seven : (s : ℕ) → 2 ^ (s + 7) ≡ 128 * 2 ^ s
shift_seven s = simp towards_suc (omega arith)

-- One group added to the accumulator, which has fewer bits than the shift.
add_group :
    (x b s : ℕ) → x < 2 ^ s → b * 2 ^ s < 2 ^ 64 → bit_or x (b * 2 ^ s % 2 ^ 64) ≡ x + b * 2 ^ s
add_group x b s h fits =
    let e : b * 2 ^ s % 2 ^ 64 ≡ b * 2 ^ s = omega arith in rw e (bit_or-disjoint s x b h)

low_group : (x : ℕ) → bit_and (x % 128 + 128) 0x7f ≡ x % 128
low_group x = and_mask (x % 128 + 128) (omega arith) ∙ omega arith

regroup : (q r p : ℕ) → (q * 128 + r) * p ≡ r * p + q * (128 * p)
regroup q r p = omega arith

-- The lowest group of `v` and the rest, both shifted.
split_group : (v s : ℕ) → v * 2 ^ s ≡ v % 128 * 2 ^ s + v / 128 * 2 ^ (s + 7)
split_group v s =
    rw (shift_seven s) (ap (λ (t : ℕ). t * 2 ^ s) parts ∙ regroup (v / 128) (v % 128) (2 ^ s))
  where
    parts : v ≡ v / 128 * 128 + v % 128
    parts = omega arith

-- The accumulator stays below the next shift.
group_bound : (x b p : ℕ) → x < p → b < 128 → x + b * p < 128 * p
group_bound x b p h k = grind arith

-- At the ninth byte one bit is left.
ninth : (i s b : ℕ) → s ≡ 7 * i → i ≡ 8 → b * 2 ^ s < 2 ^ 57 → b ≤ 1
ninth i s b e n h =
    let q : s ≡ 56 = omega arith in
    let p : 2 ^ s ≡ 2 ^ 56 = ap (λ (t : ℕ). 2 ^ t) q in omega (arith, rw p at h)

get_loop-last :
    (v i x s : ℕ) (rest : Bytes)
    → v < 128
    → i ≤ 8
    → s ≡ 7 * i
    → x < 2 ^ s
    → x + v * 2 ^ s < 2 ^ 57
    → get_loop (v ∷ rest) i x s ≡ (x + v * 2 ^ s, pos (i + 1))
unfolding get_loop
get_loop-last v i x s rest hv hi hs hx fits = ground (arith, add_group x v s, ninth i s v)

get_loop-next :
    (b i x s : ℕ) (rest : Bytes)
    → b < 128
    → i ≤ 8
    → x < 2 ^ s
    → x + b * 2 ^ s < 2 ^ 57
    → get_loop ((b + 128) ∷ rest) i x s ≡ get_loop rest (i + 1) (x + b * 2 ^ s) (s + 7)
unfolding get_loop
get_loop-next b i x s rest hb hi hx fits = ground (arith, add_group x b s, and_mask (b + 128))

get_loop-groups :
    (k v i x s : ℕ) (rest : Bytes)
    → v < 128 ^ suc k
    → i + k ≤ 8
    → s ≡ 7 * i
    → x < 2 ^ s
    → x + v * 2 ^ s < 2 ^ 57
    → get_loop (groups k v ++ rest) i x s ≡ (x + v * 2 ^ s, pos (i + length (groups k v)))
unfolding groups
get_loop-groups zero v i x s rest hv hi hs hx fits =
    get_loop-last v i x s rest (omega arith) (omega arith) hs hx fits
get_loop-groups (suc k) v i x s rest hv hi hs hx fits = ground (
  arith,
  get_loop-last v i x s rest,
  get_loop-next (v % 128) i x s (groups k (v / 128) ++ rest),
  split_group v s,
  shift_seven s,
  group_bound x (v % 128) (2 ^ s),
  pow-suc 128 (suc k),
  get_loop-groups k (v / 128) (i + 1) (x + v % 128 * 2 ^ s) (s + 7) rest,
)

-- Fewer groups than there is room for are the same groups.
groups_fewer : (k x : ℕ) → x < 128 ^ suc k → groups (suc k) x ≡ groups k x
unfolding groups
groups_fewer zero x h = ground arith
groups_fewer (suc k) x h = ground (arith, groups_fewer k (x / 128), pow-suc 128 (suc k))

pub uvarint-groups :
    (v : ℕ) (rest : Bytes)
    → v < 2 ^ 57
    → uvarint (groups 9 v ++ rest) ≡ (v, pos (length (groups 9 v)))
unfolding uvarint
uvarint-groups v rest h =
    rw (groups_fewer 8 v (omega arith)) (ground (arith, get_loop-groups 8 v 0 0 0 rest))

get_loop-too_large :
    (j v i x s : ℕ) (rest : Bytes)
    → i + j ≡ 8
    → 2 * 128 ^ j ≤ v
    → get_loop (groups (suc j) v ++ rest) i x s
      ≡ (0, if ltb v (128 ^ suc j) then negsuc 8 else negsuc 9)
unfolding get_loop groups
get_loop-too_large zero v i x s rest hi hv = ground arith
get_loop-too_large (suc j) v i x s rest hi hv = ground (
  arith,
  pow-suc 128 j,
  pow-suc 128 (suc j),
  power_pos j,
  get_loop-too_large j (v / 128) (i + 1) (bit_or x (bit_and (v % 128 + 128) 0x7f * 2 ^ s % 2 ^ 64))
      (s + 7) rest,
)
  where
    power_pos : (n : ℕ) → 1 ≤ 128 ^ n
    power_pos zero = omega arith
    power_pos (suc n) = omega (arith, pow-suc 128 n, power_pos n)

length-groups_large :
    (v : ℕ) → 2 ^ 57 ≤ v → length (groups 9 v) ≡ (if ltb v (2 ^ 63) then 9 else 10)
unfolding groups
length-groups_large v h = ground arith

-- Into a buffer of ten bytes or more, every number below 2 ^ 57 is written and read back as it was,
-- with the number of bytes that were written.
pub uvarint-put_uvarint :
    (buf : Bytes) (v : ℕ)
    → v < 2 ^ 57
    → 10 ≤ length buf
    → (out : Bytes × ℕ) × (put_uvarint buf v ≡ ok out) × (uvarint out.0 ≡ (v, pos out.1))
uvarint-put_uvarint buf v h room = (
  (groups 9 v ++ drop (length (groups 9 v)) buf, length (groups 9 v)),
  put_uvarint-groups buf v (omega arith) (omega (arith, length-groups 9 v)),
  uvarint-groups v (drop (length (groups 9 v)) buf) h,
)

-- Into a buffer of ten bytes or more, every uint64 from 2 ^ 57 on is written, and reading it back
-- answers an overflow: the value 0, and the number of bytes written as a negative count.
pub uvarint-put_uvarint_overflow :
    (buf : Bytes) (v : ℕ)
    → 2 ^ 57 ≤ v
    → v < 2 ^ 64
    → 10 ≤ length buf
    → (out : Bytes × ℕ) × (put_uvarint buf v ≡ ok out) × (uvarint out.0 ≡ (0, negsuc (out.1 - 1)))
unfolding uvarint
uvarint-put_uvarint_overflow buf v lo hi room = (
  (groups 9 v ++ drop (length (groups 9 v)) buf, length (groups 9 v)),
  put_uvarint-groups buf v hi (omega (arith, length-groups 9 v)),
  ground
      (arith, get_loop-too_large 8 v 0 0 0 (drop (length (groups 9 v)) buf), length-groups_large v),
)

-- Every uint16 is written into a buffer that has room for the size that varintSize16 gives, in
-- exactly that many bytes, and uvarint16 reads it back with that size.
pub uvarint16-put_uvarint16 :
    (buf : Bytes) (v : ℕ)
    → v < 2 ^ 16
    → varint_size16 v ≤ length buf
    → (out : Bytes) × (put_uvarint16 buf v ≡ ok (out, varint_size16 v))
      × (uvarint16 out ≡ (v, pos (varint_size16 v)))
unfolding put_uvarint16 uvarint16
uvarint16-put_uvarint16 buf v h room = (
  groups 9 v ++ drop (length (groups 9 v)) buf,
  rw (varint_size16-groups v h)
      (put_uvarint-groups buf v (omega arith) (omega (arith, varint_size16-groups v h))),
  ground (
    arith,
    varint_size16-groups v h,
    length-groups 9 v,
    uvarint-groups v (drop (length (groups 9 v)) buf),
  ),
)
