-- ===== src/Lsm/Builder/Block.antt =====
-- The entries of a block: what the builder writes of them, and what a search finds.
use storage_engines.Base.{
  drop-add, ℕ, zero, suc, ◌+◌, ◌%◌, ◌^◌, ◌<◌, ◌≤◌, ◌≡◌, refl, ◌∙◌, Bool, true, false, List, [], ◌∷◌,
  ◌++◌, length, drop, take-append, drop-append, length-append, append_assoc, take-length, All,
  arith, Option, none, some, ok, if◌then◌else◌, ◌==◌,
}
use storage_engines.Bytes.{Bytes}
use storage_engines.Bytes.Order.{compare_bytes_refl, key_lt, key_eq, compare_bytes_trans}
use storage_engines.Bytes.Assoc.{key_eq_sound}
use storage_engines.Bytes.Endian.{put_le, length-put_le}
use storage_engines.Bytes.Slice.{le_at, byte_at, le_at-here, le_at-next, byte_at-next, drop-next}
use storage_engines.Lsm.SsTable.{SsTableEntry, search_entries, search_block}
use storage_engines.Lsm.Builder.{encode_entry, flag, count_entries}

-- The sizes of the key and the value fit their fields.
pub record Fits (e : SsTableEntry) : Type 0 where
  pub key_fits : length e.0 < 2 ^ 32
  pub value_fits : length e.1 < 2 ^ 32

abbrev pub entry_bytes : SsTableEntry → Bytes
entry_bytes e = encode_entry e.0 e.1 e.2

unfoldable pub encode_block : List SsTableEntry → Bytes
encode_block [] = []
encode_block (e ∷ es) = entry_bytes e ++ encode_block es

abbrev pub entry_size : SsTableEntry → ℕ
entry_size e = 9 + length e.0 + length e.1

module _ (e : SsTableEntry) (f : Fits e) (t : Bytes) where
  abbrev layout : Bytes
  layout = put_le 4 (length e.0) ++ (put_le 4 (length e.1) ++ (flag e.2 ∷ (e.0 ++ (e.1 ++ t))))

  entry-layout : entry_bytes e ++ t ≡ layout
  unfolding encode_entry
  entry-layout =
      let ek : length e.0 % 2 ^ 32 ≡ length e.0 = omega (arith, f.key_fits) in
      let ev : length e.1 % 2 ^ 32 ≡ length e.1 = omega (arith, f.value_fits) in
      rw (ek, ev, take-length e.0, take-length e.1) (simp append_assoc)

  pub key_size : le_at 0 4 (entry_bytes e ++ t) ≡ length e.0
  key_size = rw entry-layout (le_at-here 4 (length e.0) _ f.key_fits)

  value_size : le_at 4 4 (entry_bytes e ++ t) ≡ length e.1
  value_size =
      rw entry-layout
        (le_at-next 4 4 0 4 (length e.0) _ refl ∙ le_at-here 4 (length e.1) _ f.value_fits)

  deleted : byte_at 8 (entry_bytes e ++ t) ≡ flag e.2
  unfolding byte_at
  deleted =
      rw entry-layout
        (byte_at-next 8 4 4 (length e.0) _ refl ∙ byte_at-next 4 4 0 (length e.1) _ refl)

  pub texts : drop 9 (entry_bytes e ++ t) ≡ e.0 ++ (e.1 ++ t)
  texts =
      rw entry-layout (drop-next 9 4 5 (length e.0) _ refl ∙ drop-next 5 4 1 (length e.1) _ refl)

  value_texts : drop (9 + length e.0) (entry_bytes e ++ t) ≡ e.1 ++ t
  value_texts =
      drop-add 9 (length e.0) _ _ refl ∙ rw texts (drop-append (length e.0) e.0 (e.1 ++ t) refl)

  pub behind : drop (9 + length e.0 + length e.1) (entry_bytes e ++ t) ≡ t
  behind =
      drop-add (9 + length e.0) (length e.1) _ _ refl
      ∙ rw value_texts (drop-append (length e.1) e.1 t refl)

  pub length-entry : length (entry_bytes e ++ t) ≡ entry_size e + length t
  length-entry = rw entry-layout (simp (length-append, length-put_le) (omega arith))

-- The value of the first entry of a key, if it is not deleted.
abbrev pub find_entry : List SsTableEntry → Bytes → Option Bytes
find_entry [] key = none
find_entry (e ∷ es) key =
    if key_eq e.0 key then (if e.2 then none else some e.1) else find_entry es key

-- Each key is below the keys behind it.
abbrev pub IsSorted : List SsTableEntry → Type 0
IsSorted [] = Unit
IsSorted (e ∷ es) = All (λ d. key_lt e.0 d.0 ≡ true) es × IsSorted es

find_entry-above :
    (es : List SsTableEntry) (key e : Bytes)
    → All (λ d. key_lt e d.0 ≡ true) es
    → key_lt key e ≡ true
    → find_entry es key ≡ none
find_entry-above [] key e a h = refl
find_entry-above (d ∷ es) key e a h = ground (
  arith,
  compare_bytes_trans key e d.0,
  a.0,
  h,
  key_eq_sound d.0 key,
  compare_bytes_refl key,
  find_entry-above es key e a.1 h,
)

flag_one : (d : Bool) → (flag d == 1) ≡ d
flag_one true = refl
flag_one false = refl

-- The search of a run of sorted entries finds what the run holds, whatever follows it.
pub search_entries-encode_block :
    (es : List SsTableEntry) (tail key : Bytes)
    → All Fits es
    → IsSorted es
    → search_entries (length es) (encode_block es ++ tail) key ≡ ok (find_entry es key)
unfolding search_entries encode_block
search_entries-encode_block [] tail key fs s = refl
search_entries-encode_block (e ∷ es) tail key fs s =
    let t : Bytes = encode_block es ++ tail in
    rw
      (
        append_assoc (entry_bytes e) (encode_block es) tail,
        key_size e fs.0 t,
        value_size e fs.0 t,
        deleted e fs.0 t,
        texts e fs.0 t,
        value_texts e fs.0 t,
        behind e fs.0 t,
        take-append (length e.0) e.0 (e.1 ++ t) refl,
        take-append (length e.1) e.1 t refl,
      )
      (rw (flag_one e.2) (
        ground (
          arith,
          length-entry e fs.0 t,
          search_entries-encode_block es tail key fs.1 s.1,
          find_entry-above es key e.0 s.0,
        )))

-- A block of sorted entries, with their number in front, is searched as the entries are, whatever
-- follows them.
pub search_block-encode_block :
    (es : List SsTableEntry) (tail key : Bytes)
    → length es < 2 ^ 32
    → All Fits es
    → IsSorted es
    → search_block (put_le 4 (length es) ++ (encode_block es ++ tail)) key ≡ ok (find_entry es key)
unfolding search_block
search_block-encode_block es tail key n fs s =
    rw
      (
        le_at-here 4 (length es) (encode_block es ++ tail) n,
        drop-next 4 4 0 (length es) (encode_block es ++ tail) refl,
      )
      (ground (
        arith,
        search_entries-encode_block es tail key fs s,
        length-append (put_le 4 (length es)) (encode_block es ++ tail),
        length-put_le 4 (length es),
      ))

pub length-encode_block :
    (e : SsTableEntry) (es : List SsTableEntry)
    → Fits e
    → length (encode_block (e ∷ es)) ≡ entry_size e + length (encode_block es)
unfolding encode_block
length-encode_block e es f = length-entry e f (encode_block es)

-- The builder counts the entries that it wrote.
pub count_entries-encode_block :
    (es : List SsTableEntry) (fuel : ℕ)
    → All Fits es
    → length (encode_block es) ≤ fuel
    → count_entries fuel (encode_block es) ≡ length es
unfolding count_entries encode_block
count_entries-encode_block [] zero fs h = refl
count_entries-encode_block [] (suc fuel) fs h = refl
count_entries-encode_block (e ∷ es) zero fs h =
    absurd (omega (arith, length-encode_block e es fs.0))
count_entries-encode_block (e ∷ es) (suc fuel) fs h =
    let enough : length (encode_block es) ≤ fuel = omega (arith, length-encode_block e es fs.0) in
    rw
      (
        key_size e fs.0 (encode_block es),
        value_size e fs.0 (encode_block es),
        behind e fs.0 (encode_block es),
      )
      (ground (
        arith,
        length-entry e fs.0 (encode_block es),
        count_entries-encode_block es fuel fs.1 enough,
      ))
