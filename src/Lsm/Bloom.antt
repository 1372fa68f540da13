-- ===== src/Lsm/Bloom.antt =====
-- lsm/bloom.go: the Bloom filter of a table. `NewBloomFilter` computes its two sizes in floating
-- point; the model starts from the two numbers.
pub mod Bits
pub mod Laws
use storage_engines.Base.{
  ℕ, zero, suc, ◌+◌, ◌*◌, ◌/◌, ◌%◌, ◌^◌, bit_and, bit_or, Bool, true, false, List, [], ◌∷◌, ◌++◌,
  length, set, drop, replicate, get_or, ltb, ◌==◌, if◌then◌else◌, Outcome, ok, err, ◌>>=◌,
  panic_index, panic_divide, Option, none, some,
}
use storage_engines.Bytes.{Bytes}
use storage_engines.Bytes.Endian.{put_le}
use storage_engines.Bytes.Slice.{le_at}
use storage_engines.Bytes.Hash.{fnv64a, fnv64}

pub record BloomFilter : Type 0 where
  pub bits : Bytes
  pub num_bits : ℕ
  pub num_hashes : ℕ

-- From the two sizes on: at least one hash function, and whole bytes of zeros.
unfoldable pub new_bloom_filter : ℕ → ℕ → BloomFilter
new_bloom_filter num_bits num_hashes = record {
  bits = replicate ((num_bits + 7) / 8) 0;
  num_bits = num_bits;
  num_hashes = if num_hashes == 0 then 1 else num_hashes;
}

-- `(h1 + uint64(i)*h2) % bf.numBits`, for the counters `i`, `i + 1`, ... of `n` rounds. A modulus of
-- zero panics.
positions : ℕ → ℕ → ℕ → ℕ → ℕ → Outcome (List ℕ)
positions num_bits h1 h2 zero i = ok []
positions num_bits h1 h2 (suc n) i =
    let rest = positions num_bits h1 h2 n (i + 1) in
    if num_bits == 0
    then err panic_divide
    else do hs ← rest; ok (((h1 + i * h2 % 2 ^ 64) % 2 ^ 64 % num_bits) ∷ hs)

unfoldable pub get_hashes : BloomFilter → Bytes → Outcome (List ℕ)
unfolding positions
get_hashes bf key = positions bf.num_bits (fnv64a key) (fnv64 key) bf.num_hashes 0

-- `bf.bits[byteIdx] |= 1 << bitIdx`
abbrev pub set_bit : Bytes → ℕ → Bytes
set_bit bits h = set bits (h / 8) (bit_or (get_or bits (h / 8) 0) (2 ^ (h % 8)))

-- `(bf.bits[byteIdx] & (1 << bitIdx)) == 0`
abbrev pub bit_clear : Bytes → ℕ → Bool
bit_clear bits h = bit_and (get_or bits (h / 8) 0) (2 ^ (h % 8)) == 0

set_bits : Bytes → List ℕ → Outcome Bytes
set_bits bits [] = ok bits
set_bits bits (h ∷ hs) =
    let rest = set_bits (set_bit bits h) hs in
    if ltb (h / 8) (length bits) then rest else err panic_index

test_bits : Bytes → List ℕ → Outcome Bool
test_bits bits [] = ok true
test_bits bits (h ∷ hs) =
    let rest = test_bits bits hs in
    if ltb (h / 8) (length bits)
    then (if bit_clear bits h then ok false else rest)
    else err panic_index

unfoldable pub add : BloomFilter → Bytes → Outcome BloomFilter
unfolding set_bits get_hashes
add bf key = do
  hashes ← get_hashes bf key
  bits ← set_bits bf.bits hashes
  ok (record bf { bits = bits })

unfoldable pub may_contain : BloomFilter → Bytes → Outcome Bool
unfolding test_bits get_hashes
may_contain bf key = do hashes ← get_hashes bf key; test_bits bf.bits hashes

unfoldable pub encode : BloomFilter → Bytes
encode bf = put_le 8 bf.num_bits ++ (put_le 4 bf.num_hashes ++ bf.bits)

-- `nil` on fewer than twelve bytes.
unfoldable pub decode_bloom_filter : Bytes → Option BloomFilter
decode_bloom_filter bytes =
    let decoded : BloomFilter = record {
      bits = drop 12 bytes;
      num_bits = le_at 0 8 bytes;
      num_hashes = le_at 8 4 bytes;
    } in
    if ltb (length bytes) 12 then none else some decoded
