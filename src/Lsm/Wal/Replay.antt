-- ===== src/Lsm/Wal/Replay.antt =====
-- The whole log: what `ReadAll` returns after a run of appends.
use storage_engines.Base.{
  ◌-◌, ℕ, zero, suc, ◌+◌, ◌≤◌, ◌<◌, ◌≡◌, refl, sym, ap, ◌∙◌, List, [], ◌∷◌, ◌++◌, length, arith,
  length-append, append-nil, append_assoc, All, ok,
}
use storage_engines.Bytes.{Bytes}
use storage_engines.Lsm.Wal.{WalEntry, append, read_record, read_loop, read_all}
use storage_engines.Lsm.Wal.Record.{Fits, encode_entry, length-encode_entry, read_record-encode}

-- A run of `Append` calls.
unfoldable pub write_all : Bytes → List WalEntry → Bytes
write_all file [] = file
write_all file (e ∷ es) = write_all (append file e.key e.value e.sequence e.deleted) es

encodings : List WalEntry → Bytes
encodings [] = []
encodings (e ∷ es) = encode_entry e ++ encodings es

write_all-encodings : (es : List WalEntry) (file : Bytes) → write_all file es ≡ file ++ encodings es
unfolding write_all encodings append encode_entry
write_all-encodings [] file = sym (append-nil file)
write_all-encodings (e ∷ es) file =
    rw (write_all-encodings es (append file e.key e.value e.sequence e.deleted))
      (append_assoc file _ _)

read_loop_step :
    (fuel : ℕ) (buf : Bytes) (entries : List WalEntry) {e : WalEntry} {rest : Bytes}
    → 0 < length buf
    → read_record buf ≡ ok (e, rest)
    → read_loop (suc fuel) buf entries ≡ read_loop fuel rest (entries ++ (e ∷ []))
unfolding read_loop
read_loop_step fuel [] entries h r = absurd (omega arith)
read_loop_step fuel (b ∷ bs) entries h r = rw r

-- The loop reads the records that fit and goes on with what follows them.
read_loop-encodings :
    (es : List WalEntry) (k fuel : ℕ) (tail : Bytes) (entries : List WalEntry)
    → All Fits es
    → fuel ≡ length es + k
    → read_loop fuel (encodings es ++ tail) entries ≡ read_loop k tail (entries ++ es)
unfolding encodings
read_loop-encodings [] k fuel tail entries fs h =
    rw append-nil (ap (λ (n : ℕ). read_loop n tail entries) (omega arith))
read_loop-encodings (e ∷ es) k zero tail entries fs h = absurd (omega arith)
read_loop-encodings (e ∷ es) k (suc fuel) tail entries fs h =
    ap (λ (b : Bytes). read_loop (suc fuel) b entries)
      (append_assoc (encode_entry e) (encodings es) tail)
    ∙ read_loop_step fuel (encode_entry e ++ (encodings es ++ tail)) entries
        (omega (
          arith,
          length-append (encode_entry e) (encodings es ++ tail),
          length-encode_entry e fs.0,
        ))
        (read_record-encode e fs.0 (encodings es ++ tail))
    ∙ read_loop-encodings es k fuel tail (entries ++ (e ∷ [])) fs.1 (omega arith)
    ∙ ap (read_loop k tail) (append_assoc entries (e ∷ []) es)

length-encodings : (es : List WalEntry) → All Fits es → length es ≤ length (encodings es)
unfolding encodings
length-encodings [] fs = omega arith
length-encodings (e ∷ es) fs = omega (
  arith,
  length-append (encode_entry e) (encodings es),
  length-encode_entry e fs.0,
  length-encodings es fs.1,
)

read_loop-nil : (k : ℕ) (entries : List WalEntry) → read_loop k [] entries ≡ ok entries
unfolding read_loop
read_loop-nil zero entries = refl
read_loop-nil (suc k) entries = refl

-- After any run of appends whose sizes and sequence numbers fit their fields, ReadAll returns
-- exactly the entries that were appended, in order.
pub read_all-write_all : (es : List WalEntry) → All Fits es → read_all (write_all [] es) ≡ ok es
unfolding read_all
read_all-write_all es fs = rw (write_all-encodings es []) (
    ap (λ (b : Bytes). read_loop (length (encodings es)) b []) (sym (append-nil (encodings es)))
    ∙ read_loop-encodings es (length (encodings es) - length es) (length (encodings es)) [] [] fs
        (omega (arith, length-encodings es fs))
    ∙ read_loop-nil (length (encodings es) - length es) es)
