-- ===== src/Bytes/Hash.antt =====
-- The hash functions of the Go standard library that the engines use: `hash/crc32` (IEEE) and
-- `hash/fnv`. The IEEE checksum is computed bit by bit, without the table.
use storage_engines.Base.{
  ℕ, zero, suc, ◌*◌, ◌/◌, ◌%◌, ◌^◌, ◌<◌, ◌≡◌, refl, List, [], ◌∷◌, arith, bit_xor, if◌then◌else◌,
  ◌==◌,
}

crc_bits : ℕ → ℕ → ℕ
crc_bits zero c = c
crc_bits (suc n) c = crc_bits n (if c % 2 == 1 then bit_xor (c / 2) 0xedb88320 else c / 2)

crc_loop : ℕ → List ℕ → ℕ
unfolding crc_bits
crc_loop c [] = c
crc_loop c (b ∷ bs) = crc_loop (crc_bits 8 (bit_xor c b)) bs

-- `crc32.ChecksumIEEE`, a uint32.
unfoldable pub checksum_ieee : List ℕ → ℕ
unfolding crc_loop
checksum_ieee bs = bit_xor (crc_loop 0xffff_ffff bs) 0xffff_ffff % 2 ^ 32

pub checksum_ieee_lt : (bs : List ℕ) → checksum_ieee bs < 2 ^ 32
unfolding checksum_ieee
checksum_ieee_lt bs = omega arith

fnv_a : ℕ → ℕ → ℕ → List ℕ → ℕ
fnv_a prime modulus h [] = h
fnv_a prime modulus h (b ∷ bs) = fnv_a prime modulus (bit_xor h b * prime % modulus) bs

fnv_1 : ℕ → ℕ → ℕ → List ℕ → ℕ
fnv_1 prime modulus h [] = h
fnv_1 prime modulus h (b ∷ bs) = fnv_1 prime modulus (bit_xor (h * prime % modulus) b) bs

unfoldable pub fnv64a : List ℕ → ℕ
unfolding fnv_a
fnv64a = fnv_a 1099511628211 (2 ^ 64) 14695981039346656037

unfoldable pub fnv64 : List ℕ → ℕ
unfolding fnv_1
fnv64 = fnv_1 1099511628211 (2 ^ 64) 14695981039346656037

unfoldable pub fnv32a : List ℕ → ℕ
unfolding fnv_a
fnv32a = fnv_a 16777619 (2 ^ 32) 2166136261

-- The published check values of the three functions at "123456789" and at "a".
crc_check : checksum_ieee (49 ∷ 50 ∷ 51 ∷ 52 ∷ 53 ∷ 54 ∷ 55 ∷ 56 ∷ 57 ∷ []) ≡ 0xcbf43926
unfolding checksum_ieee
crc_check = refl

fnv32a_check : fnv32a (97 ∷ []) ≡ 0xe40c292c
unfolding fnv32a
fnv32a_check = refl

fnv64a_check : fnv64a (97 ∷ []) ≡ 0xaf63dc4c8601ec8c
unfolding fnv64a
fnv64a_check = refl

fnv64_check : fnv64 (97 ∷ []) ≡ 0xaf63bd4c8601b7be
unfolding fnv64
fnv64_check = refl
