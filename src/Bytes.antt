-- ===== src/Bytes.antt =====
-- Go's byte slices and strings.
pub mod Order
pub mod Endian
pub mod Slice
pub mod Patch
pub mod Hash
pub mod Assoc
pub mod Bits
use storage_engines.Base.{ℕ, List}

abbrev pub Bytes : Type 0
Bytes = List ℕ
