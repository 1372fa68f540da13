-- ===== src/Btree/Tests.antt =====
-- Runs of btree/ at concrete inputs.
use storage_engines.Base.{ℕ, ◌^◌, ◌-◌, ◌≡◌, refl, [], ◌∷◌, arith, ok, err, panic_index, replicate}
use storage_engines.Base.Int.{pos, negsuc}
use storage_engines.Bytes.{Bytes}
use storage_engines.Btree.Varint.{put_uvarint, uvarint, put_uvarint16, uvarint16, varint_size16}
use storage_engines.Btree.Varint.Decode.{
  uvarint-put_uvarint, uvarint-put_uvarint_overflow, uvarint16-put_uvarint16,
}

abbrev ten : Bytes
ten = replicate 10 0

put_300 : put_uvarint16 ten 300 ≡ ok (0xac ∷ 2 ∷ replicate 8 0, 2)
unfolding put_uvarint16
put_300 = refl

put_no_room : put_uvarint (0 ∷ []) 300 ≡ err panic_index
unfolding put_uvarint
put_no_room = refl

read_too_wide : uvarint16 (0xff ∷ 0xff ∷ 0xff ∷ 1 ∷ []) ≡ (0, negsuc 0)
unfolding uvarint16
read_too_wide = refl

uvarint-put_uvarint_example :
    (out : Bytes × ℕ) × (put_uvarint ten 70000 ≡ ok out) × (uvarint out.0 ≡ (70000, pos out.1))
uvarint-put_uvarint_example = uvarint-put_uvarint ten 70000 (omega arith) (omega arith)

uvarint-put_uvarint_overflow_example :
    (out : Bytes × ℕ) × (put_uvarint ten (2 ^ 57) ≡ ok out)
    × (uvarint out.0 ≡ (0, negsuc (out.1 - 1)))
uvarint-put_uvarint_overflow_example =
    uvarint-put_uvarint_overflow ten (2 ^ 57) (omega arith) (omega arith) (omega arith)

uvarint16-put_uvarint16_example :
    (out : Bytes) × (put_uvarint16 ten 300 ≡ ok (out, varint_size16 300))
    × (uvarint16 out ≡ (300, pos (varint_size16 300)))
unfolding varint_size16
uvarint16-put_uvarint16_example = uvarint16-put_uvarint16 ten 300 (omega arith) (omega arith)
