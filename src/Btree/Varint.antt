-- ===== src/Btree/Varint.antt =====
-- btree/varint.go: integers of seven bits a byte. A slice is a list of bytes, and a write out of its
-- range is the panic of Go.
pub mod Encode
pub mod Decode
use storage_engines.Base.{
  ℕ, zero, suc, ◌+◌, ◌*◌, ◌/◌, ◌%◌, ◌^◌, bit_and, bit_or, Bool, true, false, ◌&&◌, List, [], ◌∷◌,
  length, set, ltb, leb, ◌==◌, if◌then◌else◌, Outcome, ok, err, ◌>>=◌, panic_index, out_of_fuel,
}
use storage_engines.Base.Int.{ℤ, pos, negsuc}
use storage_engines.Bytes.{Bytes}

-- `buf[i] = v`
abbrev pub store : Bytes → ℕ → ℕ → Outcome Bytes
store buf i v = if ltb i (length buf) then ok (set buf i v) else err panic_index

-- `for x >= 0x80`, and the last byte behind the loop.
put_loop : ℕ → Bytes → ℕ → ℕ → Outcome (Bytes × ℕ)
put_loop zero buf i x = err out_of_fuel
put_loop (suc fuel) buf i x =
    let more : Outcome (Bytes × ℕ) = (do
      buf' ← store buf i (bit_or (x % 256) 0x80)
      put_loop fuel buf' (i + 1) (x / 2 ^ 7)) in
    let last : Outcome (Bytes × ℕ) = (do buf' ← store buf i (x % 256); ok (buf', i + 1)) in
    if leb 0x80 x then more else last

-- The buffer after the write, and the bytes written. A uint64 has at most ten groups of seven bits.
unfoldable pub put_uvarint : Bytes → ℕ → Outcome (Bytes × ℕ)
unfolding put_loop
put_uvarint buf x = put_loop 10 buf 0 x

-- The list is what `range buf` has not reached; `x` and `s` are the accumulator and the shift.
get_loop : Bytes → ℕ → ℕ → ℕ → ℕ × ℤ
get_loop [] i x s = (0, pos 0)
get_loop (b ∷ rest) i x s =
    let more = get_loop rest (i + 1) (bit_or x (bit_and b 0x7f * 2 ^ s % 2 ^ 64)) (s + 7) in
    if i == 9
    then (0, negsuc i)
    else if ltb b 0x80
    then (if i == 8 && ltb 1 b then (0, negsuc i) else (bit_or x (b * 2 ^ s % 2 ^ 64), pos (i + 1)))
    else more

-- The value and the number of bytes read, which is not positive where there is no value.
unfoldable pub uvarint : Bytes → ℕ × ℤ
unfolding get_loop
uvarint buf = get_loop buf 0 0 0

-- The loop counts a group, shifts, and stops at zero.
size_loop : ℕ → ℕ → ℕ → ℕ
size_loop zero n x = n
size_loop (suc fuel) n x =
    let more = size_loop fuel (n + 1) (x / 2 ^ 7) in if x / 2 ^ 7 == 0 then n + 1 else more

unfoldable pub varint_size : ℕ → ℕ
unfolding size_loop
varint_size x = size_loop 10 0 x

unfoldable pub put_uvarint16 : Bytes → ℕ → Outcome (Bytes × ℕ)
unfolding put_uvarint
put_uvarint16 buf x = put_uvarint buf x

abbrev narrow : ℕ → ℤ → ℕ × ℤ
narrow x (pos zero) = (0, pos zero)
narrow x (pos (suc n)) = if ltb 0xffff x then (0, negsuc 0) else (x % 2 ^ 16, pos (suc n))
narrow x (negsuc n) = (0, negsuc n)

unfoldable pub uvarint16 : Bytes → ℕ × ℤ
unfolding uvarint
uvarint16 buf = let (x, n) = uvarint buf in narrow x n

unfoldable pub varint_size16 : ℕ → ℕ
varint_size16 x = if ltb x 128 then 1 else if ltb x 16384 then 2 else 3
