-- ===== src/Lsm/Levels/Laws.antt =====
-- What adding and removing a table keep.
use storage_engines.Base.{
  ℕ, zero, suc, ◌<◌, ◌≡◌, ◌↔◌, refl, true, List, [], ◌∷◌, ◌++◌, set, get_elem?, arith, All, some,
  inl, inr, Bool-cases, ◌==◌, if◌then◌else◌,
}
use storage_engines.Bytes.{Bytes}
use storage_engines.Bytes.Order.{key_lt, key_le, key_le_trans, key_le_total}
use storage_engines.Lsm.SsTable.{SsTable}
use storage_engines.Lsm.Levels.{
  LevelInfo, LevelManager, add_sstable, get_all_sstables, sort_tables, insert_table,
  update_level_size,
}

-- Least keys that do not descend.
pub IsAscending : List SsTable → Type 0
IsAscending [] = Unit
IsAscending (s ∷ ss) = All (λ t. key_le s.min_key t.min_key ≡ true) ss × IsAscending ss

insert_table-below :
    (k : Bytes) (t : SsTable) (ss : List SsTable)
    → key_le k t.min_key ≡ true
    → All (λ s. key_le k s.min_key ≡ true) ss
    → All (λ s. key_le k s.min_key ≡ true) (insert_table t ss)
unfolding insert_table
insert_table-below k t [] h a = (h, tt)
insert_table-below k t (s ∷ ss) h a = elim (Bool-cases (key_lt s.min_key t.min_key)) [
  | inl lt ↦ rw lt (a.0, insert_table-below k t ss h a.1)
  | inr ge ↦ rw ge (h, a)
]

le-All :
    (a b : Bytes) (ss : List SsTable)
    → key_le a b ≡ true
    → All (λ s. key_le b s.min_key ≡ true) ss
    → All (λ s. key_le a s.min_key ≡ true) ss
le-All a b [] h k = tt
le-All a b (s ∷ ss) h k = (key_le_trans a b s.min_key h k.0, le-All a b ss h k.1)

insert_table-IsAscending :
    (t : SsTable) (ss : List SsTable) → IsAscending ss → IsAscending (insert_table t ss)
unfolding insert_table IsAscending
insert_table-IsAscending t [] a = (tt, tt)
insert_table-IsAscending t (s ∷ ss) a = elim (Bool-cases (key_lt s.min_key t.min_key)) [
  | inl lt ↦ rw lt (
    insert_table-below s.min_key t ss (ground (arith, lt)) a.0,
    insert_table-IsAscending t ss a.1,
  )
  | inr ge ↦
      let le : key_le t.min_key s.min_key ≡ true = key_le_total s.min_key t.min_key ge in
      rw ge ((le, le-All t.min_key s.min_key ss le a.0), a)
]

sort_tables-IsAscending : (ss : List SsTable) → IsAscending (sort_tables ss)
unfolding sort_tables IsAscending
sort_tables-IsAscending [] = tt
sort_tables-IsAscending (s ∷ ss) =
    insert_table-IsAscending s (sort_tables ss) (sort_tables-IsAscending ss)

module _ {κ} (P : SsTable → Type κ) where
  insert_table-All :
      (t : SsTable) (ss : List SsTable) → (P t × All P ss) ↔ All P (insert_table t ss)
  unfolding insert_table
  insert_table-All t [] = (λ h. h, λ h. h)
  insert_table-All t (s ∷ ss) = elim (Bool-cases (key_lt s.min_key t.min_key)) [
    | inl lt ↦ rw lt (
      λ h. (h.1.0, (insert_table-All t ss).0 (h.0, h.1.1)),
      λ h. let r = (insert_table-All t ss).1 h.1 in (r.0, (h.0, r.1)),
    )
    | inr ge ↦ rw ge (λ h. h, λ h. h)
  ]

  sort_tables-All : (ss : List SsTable) → All P ss ↔ All P (sort_tables ss)
  unfolding sort_tables
  sort_tables-All [] = (λ h. h, λ h. h)
  sort_tables-All (s ∷ ss) = (
    λ h. (insert_table-All s (sort_tables ss)).0 (h.0, (sort_tables-All ss).0 h.1),
    λ h. let r = (insert_table-All s (sort_tables ss)).1 h in (r.0, (sort_tables-All ss).1 r.1),
  )

  append-All : (ss : List SsTable) (t : SsTable) → (All P ss × P t) ↔ All P (ss ++ (t ∷ []))
  append-All [] t = (λ h. (h.1, tt), λ h. (tt, h.0))
  append-All (s ∷ ss) t = (
    λ h. (h.0.0, (append-All ss t).0 (h.0.1, h.1)),
    λ h. let r = (append-All ss t).1 h.1 in ((h.0, r.0), r.1),
  )

get_elem?-set {ℓ} :
    {A : Type ℓ} (xs : List A) (i : ℕ) (x y : A)
    → get_elem? xs i ≡ some x
    → get_elem? (set xs i y) i ≡ some y
get_elem?-set [] i x y h = cc
get_elem?-set (z ∷ xs) zero x y h = refl
get_elem?-set (z ∷ xs) (suc i) x y h = get_elem?-set xs i x y h

pub add_sstable-at :
    (lm : LevelManager) (l : LevelInfo) (sst : SsTable) (level : ℕ)
    → get_elem? lm level ≡ some l
    → get_all_sstables (add_sstable lm sst level) level
      ≡ (if level == 0 then l.sstables ++ (sst ∷ []) else sort_tables (l.sstables ++ (sst ∷ [])))
unfolding get_all_sstables add_sstable update_level_size
add_sstable-at lm l sst level h = rw h (
    rw
      (get_elem?-set lm level l
        (update_level_size (record l {
          sstables =
              if level == 0
              then l.sstables ++ (sst ∷ [])
              else sort_tables (l.sstables ++ (sst ∷ []));
        }))
        h)
      refl)

all_sstables-at :
    (lm : LevelManager) (l : LevelInfo) (level : ℕ)
    → get_elem? lm level ≡ some l
    → get_all_sstables lm level ≡ l.sstables
unfolding get_all_sstables
all_sstables-at lm l level h = rw h refl

-- Adding a table to a level that exists keeps every table of the level and adds that one: what holds
-- of all tables afterwards is what holds of all before and of the new one. Above level 0 the tables
-- then stand in the ascending order of their least keys.
pub add_sstable_lem {κ} :
    (lm : LevelManager) (l : LevelInfo) (sst : SsTable) (level : ℕ)
    → get_elem? lm level ≡ some l
    → ((P : SsTable → Type κ)
        → (All P (get_all_sstables lm level) × P sst)
          ↔ All P (get_all_sstables (add_sstable lm sst level) level))
      × (0 < level → IsAscending (get_all_sstables (add_sstable lm sst level) level))
add_sstable_lem lm l sst level h =
    rw (add_sstable-at lm l sst level h, all_sstables-at lm l level h)
      (elim (Bool-cases (level == 0)) [
        | inl zero_level ↦
            rw zero_level
              (λ P. append-All P l.sstables sst, λ pos. absurd (ground (arith, zero_level, pos)))
        | inr above ↦ rw above (
          λ P.
              let (there, back) = sort_tables-All P (l.sstables ++ (sst ∷ [])) in
              let (to, from) = append-All P l.sstables sst in
              (λ a. there (to a), λ a. from (back a)),
          λ pos. sort_tables-IsAscending (l.sstables ++ (sst ∷ [])),
        )
      ])
