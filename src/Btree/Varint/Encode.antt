-- ===== src/Btree/Varint/Encode.antt =====
-- What the encoder writes, as a list of groups, and the sizes that the page computes with.
use storage_engines.Base.{
  ℕ, zero, suc, ◌+◌, ◌/◌, ◌%◌, ◌^◌, ◌≤◌, ◌<◌, ◌≡◌, refl, ap, [], ◌∷◌, ◌++◌, length, set, drop, ltb,
  arith, append_assoc, length-append, ok, if◌then◌else◌, bit_or,
}
use native.Mathlib.Nat.{pow-suc}
use storage_engines.Bytes.{Bytes}
use storage_engines.Bytes.Bits.{or_mask}
use storage_engines.Btree.Varint.{put_loop, put_uvarint, size_loop, varint_size, varint_size16}

-- The groups of a number below 128 ^ (k + 1), lowest first.
unfoldable pub groups : ℕ → ℕ → Bytes
groups zero x = x ∷ []
groups (suc k) x =
    let rest = groups k (x / 128) in if ltb x 128 then x ∷ [] else (x % 128 + 128) ∷ rest

pub length-groups : (k x : ℕ) → (1 ≤ length (groups k x)) × (length (groups k x) ≤ k + 1)
unfolding groups
length-groups zero x = omega arith
length-groups (suc k) x = ground (arith, length-groups k (x / 128))

-- Writing an element in the middle.
set-middle :
    (pre : Bytes) (b v : ℕ) (post : Bytes)
    → set (pre ++ (b ∷ post)) (length pre) v ≡ pre ++ (v ∷ post)
set-middle [] b v post = refl
set-middle (a ∷ pre) b v post = ap (λ (t : Bytes). a ∷ t) (set-middle pre b v post)

high_group : (x : ℕ) → bit_or (x % 256) 0x80 ≡ x % 128 + 128
high_group x = rw (or_mask (x % 256) (omega arith)) (omega arith)

-- What stands before the groups and behind them is kept.
put_loop-groups :
    (k : ℕ) (pre post : Bytes) (x : ℕ)
    → x < 128 ^ suc k
    → length (groups k x) ≤ length post
    → put_loop (suc k) (pre ++ post) (length pre) x
      ≡ ok
          (pre ++ (groups k x ++ drop (length (groups k x)) post), length pre + length (groups k x))
unfolding put_loop groups
put_loop-groups zero pre [] x h r = absurd (omega arith)
put_loop-groups zero pre (b ∷ post) x h r =
    ground (arith, length-append pre (b ∷ post), set-middle pre b (x % 256) post)
put_loop-groups (suc k) pre [] x h r = absurd (omega (arith, length-groups (suc k) x))
put_loop-groups (suc k) pre (b ∷ post) x h r = ground (
  arith,
  high_group x,
  length-append pre (b ∷ post),
  length-append pre ((x % 128 + 128) ∷ []),
  append_assoc pre ((x % 128 + 128) ∷ []) post,
  append_assoc pre ((x % 128 + 128) ∷ [])
      (groups k (x / 128) ++ drop (length (groups k (x / 128))) post),
  set-middle pre b (x % 256) post,
  set-middle pre b (x % 128 + 128) post,
  put_loop-groups k (pre ++ ((x % 128 + 128) ∷ [])) post (x / 128),
  pow-suc 128 (suc k),
)

pub put_uvarint-groups :
    (buf : Bytes) (x : ℕ)
    → x < 2 ^ 64
    → length (groups 9 x) ≤ length buf
    → put_uvarint buf x ≡ ok (groups 9 x ++ drop (length (groups 9 x)) buf, length (groups 9 x))
unfolding put_uvarint
put_uvarint-groups buf x h r = ground (arith, put_loop-groups 9 [] buf x)

size_loop-groups : (k n x : ℕ) → x < 128 ^ suc k → size_loop (suc k) n x ≡ n + length (groups k x)
unfolding size_loop groups
size_loop-groups zero n x h = ground arith
size_loop-groups (suc k) n x h =
    ground (arith, size_loop-groups k (n + 1) (x / 128), pow-suc 128 (suc k))

-- varintSize is the number of bytes that the encoder writes, for every uint64.
pub varint_size-groups : (x : ℕ) → x < 2 ^ 64 → varint_size x ≡ length (groups 9 x)
unfolding varint_size
varint_size-groups x h = omega (arith, size_loop-groups 9 0 x (omega arith))

-- For every uint16, the size that the page reckons with is the number of bytes written.
pub varint_size16-groups : (x : ℕ) → x < 2 ^ 16 → varint_size16 x ≡ length (groups 9 x)
unfolding varint_size16 groups
varint_size16-groups x h = ground arith
