-- ===== src/Bytes/Patch.antt =====
-- A write of bytes into the middle of a buffer, and the reads before it, in it and behind it.
use storage_engines.Base.{
  List, [], ap, append_assoc, arith, drop, drop-add, drop-append, get_or, length, length-append,
  length-drop, length-take, refl, suc, sym, take, take-append, take-drop, zero, ℕ, ◌++◌, ◌+◌, ◌-◌,
  ◌<◌, ◌∙◌, ◌∷◌, ◌≡◌, ◌≤◌,
}
use storage_engines.Bytes.Slice.{byte_at, drop-skip, slice, slice-prefix}

unfoldable pub patch : List ℕ → ℕ → List ℕ → List ℕ
patch buf off new = take off buf ++ (new ++ drop (off + length new) buf)

length-front : (off : ℕ) (buf : List ℕ) → off ≤ length buf → length (take off buf) ≡ off
length-front off buf h = omega (arith, length-take off buf)

pub length-patch :
    (buf : List ℕ) (off : ℕ) (new : List ℕ)
    → off + length new ≤ length buf
    → length (patch buf off new) ≡ length buf
unfolding patch
length-patch buf off new h = omega (
  arith,
  length-append (take off buf) (new ++ drop (off + length new) buf),
  length-append new (drop (off + length new) buf),
  length-front off buf (omega arith),
  length-drop (off + length new) buf,
)

-- A write may go beyond the end.
pub length-patch_any :
    (buf : List ℕ) (off : ℕ) (new : List ℕ)
    → off ≤ length buf
    → length (patch buf off new) ≡ off + length new + (length buf - (off + length new))
unfolding patch
length-patch_any buf off new h = omega (
  arith,
  length-append (take off buf) (new ++ drop (off + length new) buf),
  length-append new (drop (off + length new) buf),
  length-front off buf h,
  length-drop (off + length new) buf,
)

pub drop-patch_here :
    (buf : List ℕ) (off : ℕ) (new : List ℕ)
    → off ≤ length buf
    → drop off (patch buf off new) ≡ new ++ drop (off + length new) buf
unfolding patch
drop-patch_here buf off new h =
    drop-append off (take off buf) (new ++ drop (off + length new) buf) (length-front off buf h)

pub drop-patch_behind :
    (buf : List ℕ) (off k : ℕ) (new : List ℕ)
    → off ≤ length buf
    → off + length new ≤ k
    → drop k (patch buf off new) ≡ drop k buf
drop-patch_behind buf off k new h le =
    drop-add off (k - off) k (patch buf off new) (omega arith)
    ∙ ap (drop (k - off)) (drop-patch_here buf off new h)
    ∙ drop-skip (k - off) (length new) (k - off - length new) new (drop (off + length new) buf) refl
        (omega arith)
    ∙ sym (drop-add (off + length new) (k - off - length new) k buf (omega arith))

pub slice-patch_behind :
    (buf : List ℕ) (off k w : ℕ) (new : List ℕ)
    → off ≤ length buf
    → off + length new ≤ k
    → slice k w (patch buf off new) ≡ slice k w buf
unfolding slice
slice-patch_behind buf off k w new h le = ap (take w) (drop-patch_behind buf off k new h le)

pub slice-patch_here :
    (buf : List ℕ) (off w : ℕ) (new : List ℕ)
    → off ≤ length buf
    → length new ≡ w
    → slice off w (patch buf off new) ≡ new
unfolding slice
slice-patch_here buf off w new h e =
    ap (take w) (drop-patch_here buf off new h) ∙ take-append w new (drop (off + length new) buf) e

pub slice-patch_before :
    (buf : List ℕ) (off k w : ℕ) (new : List ℕ)
    → off ≤ length buf
    → k + w ≤ off
    → slice k w (patch buf off new) ≡ slice k w buf
unfolding patch
slice-patch_before buf off k w new h le =
    slice-prefix k w (take off buf) (new ++ drop (off + length new) buf)
      (omega (arith, length-front off buf h))
    ∙ sym (slice-prefix k w (take off buf) (drop off buf) (omega (arith, length-front off buf h)))
    ∙ ap (slice k w) (take-drop off buf)

take-patch :
    (buf : List ℕ) (off k : ℕ) (new : List ℕ)
    → off ≤ length buf
    → k ≡ off + length new
    → take k (patch buf off new) ≡ take off buf ++ new
unfolding patch
take-patch buf off k new h e =
    ap (take k) (sym (append_assoc (take off buf) new (drop (off + length new) buf)))
    ∙ take-append k (take off buf ++ new) (drop (off + length new) buf)
        (omega (arith, e, length-append (take off buf) new, length-front off buf h))

-- Two writes in a row are one.
pub patch-patch :
    (buf : List ℕ) (off k : ℕ) (new more : List ℕ)
    → off ≤ length buf
    → k ≡ off + length new
    → patch (patch buf off new) k more ≡ patch buf off (new ++ more)
unfolding patch
patch-patch buf off k new more h e =
    let size : k + length more ≡ off + length (new ++ more) =
      omega (arith, e, length-append new more) in
    (unfold patch in
      rw
        (
          take-patch buf off k new h e,
          drop-patch_behind buf off (k + length more) new h (omega (arith, e)),
          size,
        )
        (simp append_assoc))

-- One byte of a buffer, before a write and behind it.
get_or-take :
    (off k : ℕ) (buf rest : List ℕ)
    → k < off
    → off ≤ length buf
    → get_or (take off buf ++ rest) k 0 ≡ get_or buf k 0
get_or-take zero k buf rest h le = absurd (omega arith)
get_or-take (suc off) k [] rest h le = absurd (omega arith)
get_or-take (suc off) zero (x ∷ buf) rest h le = refl
get_or-take (suc off) (suc k) (x ∷ buf) rest h le =
    get_or-take off k buf rest (omega arith) (omega arith)

pub byte_at-patch_before :
    (buf : List ℕ) (off k : ℕ) (new : List ℕ)
    → off ≤ length buf
    → k < off
    → byte_at k (patch buf off new) ≡ byte_at k buf
unfolding byte_at patch
byte_at-patch_before buf off k new h lt =
    get_or-take off k buf (new ++ drop (off + length new) buf) lt h

get_or-drop : (k : ℕ) (buf : List ℕ) → get_or buf k 0 ≡ get_or (drop k buf) 0 0
get_or-drop zero buf = refl
get_or-drop (suc k) [] = refl
get_or-drop (suc k) (x ∷ buf) = get_or-drop k buf

pub byte_at-patch_behind :
    (buf : List ℕ) (off k : ℕ) (new : List ℕ)
    → off ≤ length buf
    → off + length new ≤ k
    → byte_at k (patch buf off new) ≡ byte_at k buf
unfolding byte_at
byte_at-patch_behind buf off k new h le =
    get_or-drop k (patch buf off new)
    ∙ ap (λ (t : List ℕ). get_or t 0 0) (drop-patch_behind buf off k new h le)
    ∙ sym (get_or-drop k buf)
