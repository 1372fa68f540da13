-- ===== src/Bytes/Slice.antt =====
-- Slices `b[off:off+w]` of a buffer, the integers stored there, and how such reads go through the
-- parts that a buffer is put together from.
use storage_engines.Base.{
  ℕ, zero, suc, ◌+◌, ◌^◌, ◌<◌, ◌≤◌, refl, ◌≡◌, ap, ◌∙◌, List, [], ◌∷◌, ◌++◌, arith, length, take,
  drop, take-append, get_or,
}
use storage_engines.Bytes.Endian.{put_le, get_le, length-put_le, get_le-put_le}

unfoldable pub slice : ℕ → ℕ → List ℕ → List ℕ
slice off w buf = take w (drop off buf)

-- `binary.LittleEndian.Uint32(buf[off:])` is `le_at off 4 buf`, and so for 8 bytes.
unfoldable pub le_at : ℕ → ℕ → List ℕ → ℕ
unfolding slice get_le
le_at off w buf = get_le (slice off w buf)

unfoldable pub byte_at : ℕ → List ℕ → ℕ
byte_at off buf = get_or buf off 0

pub drop-skip :
    (k m n : ℕ) (xs ys : List ℕ) → length xs ≡ m → k ≡ m + n → drop k (xs ++ ys) ≡ drop n ys
drop-skip k zero n [] ys h e = ap (λ (i : ℕ). drop i ys) (omega arith)
drop-skip k zero n (x ∷ xs) ys h e = absurd (omega arith)
drop-skip k (suc m) n [] ys h e = absurd (omega arith)
drop-skip zero (suc m) n (x ∷ xs) ys h e = absurd (omega arith)
drop-skip (suc k) (suc m) n (x ∷ xs) ys h e = drop-skip k m n xs ys (omega arith) (omega arith)

pub slice-skip :
    (k m n w : ℕ) (xs ys : List ℕ) → length xs ≡ m → k ≡ m + n → slice k w (xs ++ ys) ≡ slice n w ys
unfolding slice
slice-skip k m n w xs ys h e = ap (take w) (drop-skip k m n xs ys h e)

pub slice-here : (w : ℕ) (xs ys : List ℕ) → length xs ≡ w → slice 0 w (xs ++ ys) ≡ xs
unfolding slice
slice-here w xs ys h = take-append w xs ys h

pub le_at-skip :
    (k m n w : ℕ) (xs ys : List ℕ) → length xs ≡ m → k ≡ m + n → le_at k w (xs ++ ys) ≡ le_at n w ys
unfolding le_at
le_at-skip k m n w xs ys h e = ap get_le (slice-skip k m n w xs ys h e)

-- Reading past an integer field of `m` bytes, and reading the field itself.
pub le_at-next :
    (k m n w v : ℕ) (ys : List ℕ) → k ≡ m + n → le_at k w (put_le m v ++ ys) ≡ le_at n w ys
le_at-next k m n w v ys e = le_at-skip k m n w (put_le m v) ys (length-put_le m v) e

pub le_at-here : (w v : ℕ) (ys : List ℕ) → v < 256 ^ w → le_at 0 w (put_le w v ++ ys) ≡ v
unfolding le_at
le_at-here w v ys h =
    ap get_le (slice-here w (put_le w v) ys (length-put_le w v)) ∙ get_le-put_le w v h

pub drop-next : (k m n v : ℕ) (ys : List ℕ) → k ≡ m + n → drop k (put_le m v ++ ys) ≡ drop n ys
drop-next k m n v ys e = drop-skip k m n (put_le m v) ys (length-put_le m v) e

pub byte_at-skip :
    (k m n : ℕ) (xs ys : List ℕ) → length xs ≡ m → k ≡ m + n → byte_at k (xs ++ ys) ≡ byte_at n ys
unfolding byte_at
byte_at-skip k zero n [] ys h e = ap (λ (i : ℕ). get_or ys i 0) (omega arith)
byte_at-skip k zero n (x ∷ xs) ys h e = absurd (omega arith)
byte_at-skip k (suc m) n [] ys h e = absurd (omega arith)
byte_at-skip zero (suc m) n (x ∷ xs) ys h e = absurd (omega arith)
byte_at-skip (suc k) (suc m) n (x ∷ xs) ys h e =
    byte_at-skip k m n xs ys (omega arith) (omega arith)

pub byte_at-next :
    (k m n v : ℕ) (ys : List ℕ) → k ≡ m + n → byte_at k (put_le m v ++ ys) ≡ byte_at n ys
byte_at-next k m n v ys e = byte_at-skip k m n (put_le m v) ys (length-put_le m v) e

-- A read inside the front part does not see what follows it.
pub slice-prefix :
    (off w : ℕ) (xs ys : List ℕ) → off + w ≤ length xs → slice off w (xs ++ ys) ≡ slice off w xs
unfolding slice
slice-prefix zero zero xs ys h = refl
slice-prefix zero (suc w) [] ys h = absurd (omega arith)
slice-prefix zero (suc w) (x ∷ xs) ys h =
    ap (λ (t : List ℕ). x ∷ t) (slice-prefix zero w xs ys (omega arith))
slice-prefix (suc off) w [] ys h = absurd (omega arith)
slice-prefix (suc off) w (x ∷ xs) ys h = slice-prefix off w xs ys (omega arith)

pub le_at-prefix :
    (off w : ℕ) (xs ys : List ℕ) → off + w ≤ length xs → le_at off w (xs ++ ys) ≡ le_at off w xs
unfolding le_at
le_at-prefix off w xs ys h = ap get_le (slice-prefix off w xs ys h)

pub drop-prefix :
    (off : ℕ) (xs ys : List ℕ) → off ≤ length xs → drop off (xs ++ ys) ≡ drop off xs ++ ys
drop-prefix zero xs ys h = refl
drop-prefix (suc off) [] ys h = absurd (omega arith)
drop-prefix (suc off) (x ∷ xs) ys h = drop-prefix off xs ys (omega arith)

pub take-prefix : (w : ℕ) (xs ys : List ℕ) → w ≤ length xs → take w (xs ++ ys) ≡ take w xs
take-prefix zero xs ys h = refl
take-prefix (suc w) [] ys h = absurd (omega arith)
take-prefix (suc w) (x ∷ xs) ys h = ap (λ (t : List ℕ). x ∷ t) (take-prefix w xs ys (omega arith))
