-- ===== src/Base/Failure.antt =====
-- Go's pair of a value and an error, and the panics that end a goroutine.
use mathlib.Core.Path.{◌≡◌, refl}
use mathlib.Core.Logic.{◌⊎◌, inl, inr}

-- The errors that the engines return, and the run-time panics.
pub data Error : Type 0 where
  key_not_found key_empty closed : Error
  header_truncated data_truncated crc_mismatch : Error
  index_truncated metadata_truncated block_truncated block_too_small : Error
  file_too_small bad_magic bad_version negative_offset : Error
  segment_closed segment_missing end_of_file compaction_in_progress : Error
  page_full cell_not_found invalid_cell_offset invalid_cell_size invalid_varint : Error
  page_out_of_bounds invalid_database database_closed : Error
  panic_slice panic_index panic_divide panic_nil : Error
  -- No Go value: a loop of the model ran out of fuel.
  out_of_fuel : Error

pub data Outcome {ℓ} (A : Type ℓ) : Type ℓ where
  ok : A → Outcome A
  err : Error → Outcome A

infixl 5 ◌>>=◌ ◌>>◌
abbrev pub ◌>>=◌ {ℓ κ} : {A : Type ℓ} {B : Type κ} → Outcome A → (A → Outcome B) → Outcome B
ok a >>= f = f a
err e >>= f = err e

abbrev pub ◌>>◌ {ℓ} : {B : Type ℓ} → Outcome (Unit {0}) → Outcome B → Outcome B
m >> k = m >>= λ _. k

pub Outcome-cases {ℓ} :
    {A : Type ℓ} (r : Outcome A) → ((a : A) × (r ≡ ok a)) ⊎ ((e : Error) × (r ≡ err e))
Outcome-cases (ok a) = inl (a, refl)
Outcome-cases (err e) = inr (e, refl)
