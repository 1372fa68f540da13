-- ===== src/Lsm/Bloom/Laws.antt =====
-- A Bloom filter has no false negatives, and survives its encoding.
use storage_engines.Base.{
  ℕ, zero, suc, ◌+◌, ◌*◌, ◌/◌, ◌%◌, ◌^◌, ◌≤◌, ◌<◌, ◌≡◌, refl, true, false, List, [], ◌∷◌, ◌++◌,
  length, replicate, arith, All, Outcome, ok, ◌>>=◌, some, length-set, length-replicate,
  length-append, lt→ltb,
}
use storage_engines.Bytes.{Bytes}
use storage_engines.Bytes.Endian.{put_le, length-put_le}
use storage_engines.Bytes.Slice.{le_at-here, le_at-next, drop-next}
use storage_engines.Lsm.Bloom.{
  BloomFilter, new_bloom_filter, positions, get_hashes, set_bit, bit_clear, set_bits, test_bits,
  add, may_contain, encode, decode_bloom_filter,
}
use storage_engines.Lsm.Bloom.Bits.{
  IsByte, set_bit-IsByte, bit_clear-set_bit_self, bit_clear-set_bit,
}

-- At least one bit, and a byte for every eight.
pub record IsValid (bf : BloomFilter) : Type 0 where
  pub some_bits : 0 < bf.num_bits
  pub room : bf.num_bits ≤ 8 * length bf.bits
  pub bytes : All IsByte bf.bits

zeros-IsByte : (n : ℕ) → All IsByte (replicate n 0)
zeros-IsByte zero = tt
zeros-IsByte (suc n) = (omega arith, zeros-IsByte n)

length-zeros : (n : ℕ) → length (replicate {A = ℕ} n 0) ≡ n
length-zeros n = length-replicate n _

-- A new filter of one bit or more is valid.
pub new_bloom_filter-IsValid : (n k : ℕ) → 0 < n → IsValid (new_bloom_filter n k)
unfolding new_bloom_filter
new_bloom_filter-IsValid n k h = record {
  some_bits = h;
  room = omega (arith, length-zeros ((n + 7) / 8));
  bytes = zeros-IsByte ((n + 7) / 8);
}

-- Positions that lie in the array.
abbrev InRange : ℕ → List ℕ → Type 0
InRange n hs = All (λ h. h < n) hs

positions_total :
    (num_bits h1 h2 n i : ℕ)
    → 0 < num_bits
    → (hs : List ℕ) × (positions num_bits h1 h2 n i ≡ ok hs) × InRange num_bits hs
unfolding positions
positions_total num_bits h1 h2 zero i h = ([], refl, tt)
positions_total num_bits h1 h2 (suc n) i h =
    let (hs, e, r) = positions_total num_bits h1 h2 n (i + 1) h in
    (((h1 + i * h2 % 2 ^ 64) % 2 ^ 64 % num_bits) ∷ hs, ground (arith, e), (omega arith, r))

-- The bits at the positions are set.
abbrev AllSet : Bytes → List ℕ → Type 0
AllSet bits hs = All (λ h. bit_clear bits h ≡ false) hs

record Wrote (old new : Bytes) : Type 0 where
  keeps : (g : ℕ) → bit_clear old g ≡ false → bit_clear new g ≡ false
  same_length : length new ≡ length old
  bytes : All IsByte new

set_bits_total :
    (bits : Bytes) (n : ℕ) (hs : List ℕ)
    → n ≤ 8 * length bits
    → All IsByte bits
    → InRange n hs
    → (new : Bytes) × (set_bits bits hs ≡ ok new) × Wrote bits new × AllSet new hs
unfolding set_bits
set_bits_total bits n [] room by r =
    (bits, refl, record { keeps = λ g p. p; same_length = refl; bytes = by }, tt)
set_bits_total bits n (h ∷ hs) room by r =
    let inside : h / 8 < length bits = omega (arith, r.0) in
    let (new, e, w, s) =
      set_bits_total (set_bit bits h) n hs (omega (arith, len)) (set_bit-IsByte bits h by inside)
        r.1 in
    (
      new,
      rw (lt→ltb (h / 8) (length bits) inside) e,
      record {
        keeps = λ g p. w.keeps g (bit_clear-set_bit bits h by inside g p);
        same_length = omega (arith, w.same_length, len);
        bytes = w.bytes;
      },
      (w.keeps h (bit_clear-set_bit_self bits h by inside), s),
    )
  where
    len : length (set_bit bits h) ≡ length bits
    len = length-set bits (h / 8) _

test_bits-AllSet :
    (bits : Bytes) (n : ℕ) (hs : List ℕ)
    → n ≤ 8 * length bits
    → InRange n hs
    → AllSet bits hs
    → test_bits bits hs ≡ ok true
unfolding test_bits
test_bits-AllSet bits n [] room r s = refl
test_bits-AllSet bits n (h ∷ hs) room r s =
    rw (lt→ltb (h / 8) (length bits) (omega (arith, r.0)), s.0)
      (test_bits-AllSet bits n hs room r.1 s.1)

AllSet-of-test_bits :
    (bits : Bytes) (n : ℕ) (hs : List ℕ)
    → n ≤ 8 * length bits
    → InRange n hs
    → test_bits bits hs ≡ ok true
    → AllSet bits hs
unfolding test_bits
AllSet-of-test_bits bits n [] room r e = tt
AllSet-of-test_bits bits n (h ∷ hs) room r e = (
  ground (arith, lt→ltb (h / 8) (length bits)),
  AllSet-of-test_bits bits n hs room r.1 (ground (arith, lt→ltb (h / 8) (length bits))),
)

AllSet-Wrote : (old new : Bytes) (hs : List ℕ) → Wrote old new → AllSet old hs → AllSet new hs
AllSet-Wrote old new [] w s = tt
AllSet-Wrote old new (h ∷ hs) w s = (w.keeps h s.0, AllSet-Wrote old new hs w s.1)

get_hashes_total :
    (bf : BloomFilter) (key : Bytes)
    → IsValid bf
    → (hs : List ℕ) × (get_hashes bf key ≡ ok hs) × InRange bf.num_bits hs
unfolding get_hashes
get_hashes_total bf key v = positions_total bf.num_bits _ _ bf.num_hashes 0 v.some_bits

-- What `Add` has done to a filter: a valid filter that holds the key, and all that it held.
pub record Added (old new : BloomFilter) (key : Bytes) : Type 0 where
  pub valid : IsValid new
  pub holds : may_contain new key ≡ ok true
  pub keeps : (k : Bytes) → may_contain old k ≡ ok true → may_contain new k ≡ ok true

-- On a valid filter `Add` does not panic, keeps the filter valid, and afterwards MayContain answers
-- true for the key and for every key for which it answered true before.
pub add_lem :
    (bf : BloomFilter) (key : Bytes)
    → IsValid bf
    → (new : BloomFilter) × (add bf key ≡ ok new) × Added bf new key
unfolding add may_contain get_hashes
add_lem bf key v =
    let (hs, e, r) = get_hashes_total bf key v in
    let (bits, w, wrote, all_set) = set_bits_total bf.bits bf.num_bits hs v.room v.bytes r in
    let room : bf.num_bits ≤ 8 * length bits = omega (arith, v.room, wrote.same_length) in
    (
      record bf { bits = bits },
      rw (e, w) refl,
      record {
        valid = record { some_bits = v.some_bits; room = room; bytes = wrote.bytes };
        holds = rw e (test_bits-AllSet bits bf.num_bits hs room r all_set);
        keeps = λ k held.
            let (ks, f, q) = get_hashes_total bf k v in
            rw f (
              test_bits-AllSet bits bf.num_bits ks room q (
                AllSet-Wrote bf.bits bits ks wrote
                  (AllSet-of-test_bits bf.bits bf.num_bits ks v.room q (rw f at held))));
      },
    )

-- A run of `Add` calls, as the table builder makes it.
pub add_all : BloomFilter → List Bytes → Outcome BloomFilter
add_all bf [] = ok bf
add_all bf (k ∷ ks) = do bf' ← add bf k; add_all bf' ks

-- From a valid filter, any run of `Add` calls ends without a panic in a filter that has no false
-- negative: MayContain answers true for every key that was added, and for every key for which it
-- answered true at the start.
pub no_false_negatives :
    (bf : BloomFilter) (ks : List Bytes)
    → IsValid bf
    → (new : BloomFilter) × (add_all bf ks ≡ ok new)
      × All (λ k. may_contain new k ≡ ok true) ks
      × ((k : Bytes) → may_contain bf k ≡ ok true → may_contain new k ≡ ok true)
unfolding add_all
no_false_negatives bf [] v = (bf, refl, tt, λ k h. h)
no_false_negatives bf (k ∷ ks) v =
    let (one, e, added) = add_lem bf k v in
    let (new, f, all_in, keeps) = no_false_negatives one ks added.valid in
    (new, rw e f, (keeps k added.holds, all_in), λ j h. keeps j (added.keeps j h))

-- A filter whose sizes fit a uint64 and a uint32 is decoded from its encoding as it was.
pub decode_bloom_filter-encode :
    (bf : BloomFilter)
    → bf.num_bits < 2 ^ 64
    → bf.num_hashes < 2 ^ 32
    → decode_bloom_filter (encode bf) ≡ some bf
unfolding decode_bloom_filter encode
decode_bloom_filter-encode bf h k =
    rw
      (
        le_at-here 8 bf.num_bits (put_le 4 bf.num_hashes ++ bf.bits) h,
        le_at-next 8 8 0 4 bf.num_bits (put_le 4 bf.num_hashes ++ bf.bits) refl,
        le_at-here 4 bf.num_hashes bf.bits k,
        drop-next 12 8 4 bf.num_bits (put_le 4 bf.num_hashes ++ bf.bits) refl,
        drop-next 4 4 0 bf.num_hashes bf.bits refl,
      )
      (ground (
        arith,
        length-append (put_le 8 bf.num_bits) (put_le 4 bf.num_hashes ++ bf.bits),
        length-append (put_le 4 bf.num_hashes) bf.bits,
        length-put_le 8 bf.num_bits,
        length-put_le 4 bf.num_hashes,
      ))
