-- ===== src/Btree/Page/Directory.antt =====
-- The directory of a page: what the loops of InsertCell and DeleteCell do to its entries, and what
-- they leave as it is: the header, and the bytes behind the directory.
use storage_engines.Base.{
  Bool-cases, ap, arith, drop, inl, inr, length, le→ltb_false, ltb, ltb_false→le, ltb→lt, ok, refl,
  suc, take, zero, ℕ, ◌+◌, ◌<◌, ◌^◌, ◌∙◌, ◌≡◌, ◌≤◌,
}
use storage_engines.Bytes.{Bytes}
use storage_engines.Bytes.Endian.{get_be, get_be-put_be_two, length-put_be, put_be}
use storage_engines.Bytes.Slice.{byte_at, slice}
use storage_engines.Bytes.Patch.{
  byte_at-patch_before, drop-patch_behind, length-patch, patch, slice-patch_before,
  slice-patch_here,
}
use storage_engines.Btree.Page.{
  be_at, cell_dir_offset, get_cell_offset, header_size, set_cell_offset, shift_down, shift_up,
}

-- The offset of the cell at an index.
unfoldable pub entry : Bytes → ℕ → ℕ
unfolding be_at
entry b i = be_at (cell_dir_offset i) 2 b

pub record IsKept (k : ℕ) (b b' : Bytes) : Type 0 where
  pub same_length : length b' ≡ length b
  pub same_field : (off w : ℕ) → off + w ≤ header_size → be_at off w b' ≡ be_at off w b
  pub same_version : byte_at 9 b' ≡ byte_at 9 b
  pub same_behind : (o : ℕ) → k ≤ o → drop o b' ≡ drop o b

pub IsKept-refl : (k : ℕ) (b : Bytes) → IsKept k b b
IsKept-refl k b = record {
  same_length = refl;
  same_field = λ off w h. refl;
  same_version = refl;
  same_behind = λ o h. refl;
}

pub IsKept-trans : (k l : ℕ) (a b c : Bytes) → IsKept k a b → IsKept l b c → l ≤ k → IsKept k a c
IsKept-trans k l a b c v w h = record {
  same_length = w.same_length ∙ v.same_length;
  same_field = λ off n le. w.same_field off n le ∙ v.same_field off n le;
  same_version = w.same_version ∙ v.same_version;
  same_behind = λ o le. w.same_behind o (omega arith) ∙ v.same_behind o le;
}

pub IsKept-later : (k l : ℕ) (a b : Bytes) → IsKept k a b → k ≤ l → IsKept l a b
IsKept-later k l a b w h = IsKept-trans l k a a b (IsKept-refl l a) w h

-- A write behind the header.
pub patch-IsKept :
    (b : Bytes) (off k : ℕ) (new : Bytes)
    → header_size ≤ off
    → off + length new ≤ k
    → k ≤ length b
    → IsKept k b (patch b off new)
unfolding be_at
patch-IsKept b off k new h le end = record {
  same_length = length-patch b off new (omega arith);
  same_field = λ o w r. ap get_be (slice-patch_before b off o w new (omega arith) (omega arith));
  same_version = byte_at-patch_before b off 9 new (omega arith) (omega arith);
  same_behind = λ o r. drop-patch_behind b off o new (omega arith) (omega arith);
}

pub entry-same_behind :
    (b b' : Bytes) (i : ℕ)
    → drop (cell_dir_offset i) b' ≡ drop (cell_dir_offset i) b
    → entry b' i ≡ entry b i
unfolding entry be_at slice
entry-same_behind b b' i h = ap (λ (t : Bytes). get_be (take 2 t)) h

-- Writing one entry, in the directory of a page that has room for it.
pub set_entry : Bytes → ℕ → ℕ → Bytes
unfolding patch put_be
set_entry b i offset = patch b (cell_dir_offset i) (put_be 2 offset)

module _ (b : Bytes) (i offset : ℕ) (room : cell_dir_offset i + 2 ≤ length b) where
  pub set_cell_offset-set_entry : set_cell_offset b i offset ≡ ok (set_entry b i offset)
  unfolding set_cell_offset set_entry
  set_cell_offset-set_entry = rw (le→ltb_false (length b) (cell_dir_offset i + 2) room) refl

  pub get_cell_offset-entry : get_cell_offset b i ≡ ok (entry b i)
  unfolding get_cell_offset entry
  get_cell_offset-entry = rw (le→ltb_false (length b) (cell_dir_offset i + 2) room) refl

  pub set_entry-IsKept : IsKept (cell_dir_offset i + 2) b (set_entry b i offset)
  unfolding set_entry
  set_entry-IsKept =
      patch-IsKept b (cell_dir_offset i) (cell_dir_offset i + 2) (put_be 2 offset) (omega arith)
        (omega (arith, length-put_be 2 offset)) room

  pub entry-set_entry_here : offset < 2 ^ 16 → entry (set_entry b i offset) i ≡ offset
  unfolding set_entry entry be_at
  entry-set_entry_here h =
      ap get_be (
        slice-patch_here b (cell_dir_offset i) 2 (put_be 2 offset) (omega (arith, room))
          (length-put_be 2 offset))
      ∙ get_be-put_be_two offset h

  pub entry-set_entry_before : (j : ℕ) → j < i → entry (set_entry b i offset) j ≡ entry b j
  unfolding set_entry entry be_at
  entry-set_entry_before j h = ap get_be (
      slice-patch_before b (cell_dir_offset i) (cell_dir_offset j) 2 (put_be 2 offset)
        (omega (arith, room)) (omega (arith, h)))

  pub entry-set_entry_behind : (j : ℕ) → i < j → entry (set_entry b i offset) j ≡ entry b j
  entry-set_entry_behind j h =
      entry-same_behind b (set_entry b i offset) j
        (set_entry-IsKept.same_behind (cell_dir_offset j) (omega (arith, h)))

-- The entries from a place on are one place further up.
pub record IsShiftedUp (n place : ℕ) (b b' : Bytes) : Type 0 where
  pub kept : IsKept (cell_dir_offset n + 2) b b'
  pub low : (j : ℕ) → j < place → entry b' j ≡ entry b j
  pub up : (j : ℕ) → place ≤ j → j < n → entry b' (suc j) ≡ entry b j

IsShiftedUp-step :
    (i place : ℕ) (b b' : Bytes)
    → place ≤ i
    → cell_dir_offset (suc i) + 2 ≤ length b
    → entry b i < 2 ^ 16
    → IsShiftedUp i place (set_entry b (suc i) (entry b i)) b'
    → IsShiftedUp (suc i) place b b'
IsShiftedUp-step i place b b' le room short w = record {
  kept =
      IsKept-trans (cell_dir_offset (suc i) + 2) (cell_dir_offset i + 2) b b1 b'
        (set_entry-IsKept b (suc i) (entry b i) room) w.kept (omega arith);
  low = λ j h. w.low j h ∙ entry-set_entry_before b (suc i) (entry b i) room j (omega arith);
  up = λ j h k. elim (Bool-cases (ltb j i)) [
    | inl t ↦
        w.up j h (ltb→lt j i t) ∙ entry-set_entry_before b (suc i) (entry b i) room j (omega arith)
    | inr t ↦
        let e : j ≡ i = omega (arith, ltb_false→le j i t) in
        rw e (
          entry-same_behind b1 b' (suc i)
            (w.kept.same_behind (cell_dir_offset (suc i)) (omega arith))
          ∙ entry-set_entry_here b (suc i) (entry b i) room short)
  ];
}
  where
    b1 : Bytes
    b1 = set_entry b (suc i) (entry b i)

pub shift_up_lem :
    (n place : ℕ) (b : Bytes)
    → place ≤ n
    → cell_dir_offset n + 2 ≤ length b
    → ((j : ℕ) → j < n → entry b j < 2 ^ 16)
    → (b' : Bytes) × (shift_up n place b ≡ ok b') × IsShiftedUp n place b b'
unfolding shift_up
shift_up_lem zero place b le room short = (
  b,
  refl,
  record {
    kept = IsKept-refl (cell_dir_offset zero + 2) b;
    low = λ j h. refl;
    up = λ j h k. absurd (omega arith);
  },
)
shift_up_lem (suc i) place b le room short = elim (Bool-cases (ltb place (suc i))) [
  | inr e ↦ (
    b,
    rw e refl,
    record {
      kept = IsKept-refl (cell_dir_offset (suc i) + 2) b;
      low = λ j h. refl;
      up = λ j h k. absurd (omega (arith, ltb_false→le place (suc i) e));
    },
  )
  | inl e ↦
      let b1 : Bytes = set_entry b (suc i) (entry b i) in
      let lt : place < suc i = ltb→lt place (suc i) e in
      let (b', ran, w) =
        shift_up_lem i place b1 (omega arith)
          (omega (arith, (set_entry-IsKept b (suc i) (entry b i) room).same_length))
          (λ j h.
            rw (entry-set_entry_before b (suc i) (entry b i) room j (omega arith))
              (short j (omega arith))) in
      (
        b',
        rw
            (
              e,
              get_cell_offset-entry b i 0 (omega arith),
              set_cell_offset-set_entry b (suc i) (entry b i) room,
            )
            ran,
        IsShiftedUp-step i place b b' (omega arith) room (short i (omega arith)) w,
      )
]

-- The entries behind a place are one place further down.
pub record IsShiftedDown (count i : ℕ) (b b' : Bytes) : Type 0 where
  pub kept : IsKept (cell_dir_offset (i + count)) b b'
  pub low : (j : ℕ) → j < i → entry b' j ≡ entry b j
  pub down : (j : ℕ) → i ≤ j → j < i + count → entry b' j ≡ entry b (suc j)

IsShiftedDown-step :
    (n i : ℕ) (b b' : Bytes)
    → cell_dir_offset i + 2 ≤ length b
    → entry b (suc i) < 2 ^ 16
    → IsShiftedDown n (suc i) (set_entry b i (entry b (suc i))) b'
    → IsShiftedDown (suc n) i b b'
IsShiftedDown-step n i b b' room short w = record {
  kept =
      IsKept-trans (cell_dir_offset (i + suc n)) (cell_dir_offset (suc i + n)) b b1 b'
        (IsKept-later (cell_dir_offset i + 2) (cell_dir_offset (i + suc n)) b b1
          (set_entry-IsKept b i (entry b (suc i)) room) (omega arith))
        w.kept (omega arith);
  low = λ j h. w.low j (omega arith) ∙ entry-set_entry_before b i (entry b (suc i)) room j h;
  down = λ j h k. elim (Bool-cases (ltb i j)) [
    | inl t ↦
        w.down j (omega (arith, ltb→lt i j t)) (omega arith)
        ∙ entry-set_entry_behind b i (entry b (suc i)) room (suc j) (omega (arith, h))
    | inr t ↦
        let e : j ≡ i = omega (arith, ltb_false→le i j t) in
        rw e (w.low i (omega arith) ∙ entry-set_entry_here b i (entry b (suc i)) room short)
  ];
}
  where
    b1 : Bytes
    b1 = set_entry b i (entry b (suc i))

pub shift_down_lem :
    (n i : ℕ) (b : Bytes)
    → cell_dir_offset (i + n) + 2 ≤ length b
    → ((j : ℕ) → j ≤ i + n → entry b j < 2 ^ 16)
    → (b' : Bytes) × (shift_down n i b ≡ ok b') × IsShiftedDown n i b b'
unfolding shift_down
shift_down_lem zero i b room short = (
  b,
  refl,
  record {
    kept = IsKept-refl (cell_dir_offset (i + zero)) b;
    low = λ j h. refl;
    down = λ j h k. absurd (omega arith);
  },
)
shift_down_lem (suc n) i b room short =
    let b1 : Bytes = set_entry b i (entry b (suc i)) in
    let here : cell_dir_offset i + 2 ≤ length b = omega arith in
    let next : i + 1 ≡ suc i = omega arith in
    let (b', ran, w) =
      shift_down_lem n (suc i) b1
        (omega (arith, (set_entry-IsKept b i (entry b (suc i)) here).same_length))
        (short_after here) in
    (
      b',
      rw
          (
            next,
            get_cell_offset-entry b (suc i) 0 (omega arith),
            set_cell_offset-set_entry b i (entry b (suc i)) here,
          )
          ran,
      IsShiftedDown-step n i b b' here (short (suc i) (omega arith)) w,
    )
  where
    short_after :
        cell_dir_offset i + 2 ≤ length b
        → (j : ℕ) → j ≤ suc i + n
        → entry (set_entry b i (entry b (suc i))) j < 2 ^ 16
    short_after here j h = elim (Bool-cases (ltb j i)) [
      | inl t ↦
          rw (entry-set_entry_before b i (entry b (suc i)) here j (ltb→lt j i t))
            (short j (omega arith))
      | inr t ↦ elim (Bool-cases (ltb i j)) [
        | inl u ↦
            rw (entry-set_entry_behind b i (entry b (suc i)) here j (ltb→lt i j u))
              (short j (omega arith))
        | inr u ↦
            let e : j ≡ i = omega (arith, ltb_false→le j i t, ltb_false→le i j u) in
            rw (e, entry-set_entry_here b i (entry b (suc i)) here (short (suc i) (omega arith)))
              (short (suc i) (omega arith))
      ]
    ]
