-- ===== src/Btree/Pager/Evict.antt =====
-- The eviction of a page from the cache.
use storage_engines.Base.{
  Bool-cases, List, Option, Option-cases, ap, arith, false, if◌then◌else◌, inl, inr, leb, length,
  none, some, sym, ℕ, ◌==◌, ◌∙◌, ◌≡◌, ◌⊎◌,
}
use storage_engines.Base.Table.{find, find-remove, member, remove}
use storage_engines.Btree.Pager.{Pager, drop_last, evict, evict_lru, last}
use storage_engines.Btree.Pager.Cache.{
  IsCoherent, Keeps, cache_of, flushed, flushed-IsCoherent, flushed-Keeps, unmarked_after,
  view-cached, view-stored,
}

-- What an eviction leaves.
pub record IsEvicted (p p' : Pager) : Type 0 where
  pub coherent : IsCoherent p'
  pub keeps : Keeps p p'
  pub no_more : (j : ℕ) → find j p.cache ≡ none → find j p'.cache ≡ none

pub Keeps-trans : (a b c : Pager) → Keeps a b → Keeps b c → Keeps a c
unfolding Keeps
Keeps-trans a b c v w j x e = w j x (v j x e)

-- A page that is not marked leaves the cache.
module _ (p : Pager) (w : IsCoherent p) (i : ℕ) (lru : List ℕ) where
  forgotten : Pager
  unfolding remove
  forgotten = record p { cache = remove i p.cache; lru = lru }

  still : (j a : ℕ) → find j forgotten.cache ≡ some a → find j p.cache ≡ some a
  unfolding forgotten
  still j a e = ground (arith, find-remove j i p.cache)

  forgotten-IsEvicted : (member i p.dirty ≡ false) ⊎ (find i p.cache ≡ none) → IsEvicted p forgotten
  unfolding forgotten Keeps
  forgotten-IsEvicted safe = record {
    coherent = record {
      known = λ j a at. w.known j a (still j a at);
      saved = λ j a at unmarked. w.saved j a (still j a at) unmarked;
    };
    keeps = λ j b e. elim (Option-cases (find j p.cache)) [
      | inl gone ↦
          view-stored forgotten j (ground (arith, find-remove j i p.cache))
          ∙ sym (view-stored p j gone)
          ∙ e
      | inr (a, at) ↦ elim (Bool-cases (j == i)) [
        | inr n ↦
            view-cached forgotten j a (ground (arith, find-remove j i p.cache))
            ∙ sym (view-cached p j a at)
            ∙ e
        | inl y ↦
            let q : j ≡ i = ground arith in
            view-stored forgotten j (ground (arith, find-remove j i p.cache))
            ∙ w.saved j a at (unmarked j a q at safe)
            ∙ sym (view-cached p j a at)
            ∙ e
      ]
    ];
    no_more = λ j gone. ground (arith, find-remove j i p.cache);
  }
    where
      unmarked :
          (j a : ℕ)
          → j ≡ i
          → find j p.cache ≡ some a
          → (member i p.dirty ≡ false) ⊎ (find i p.cache ≡ none)
          → member j p.dirty ≡ false
      unmarked j a q at (inl h) = rw q h
      unmarked j a q at (inr h) = let r : find i p.cache ≡ some a = rw q at at in absurd cc

written-IsEvicted :
    (p : Pager) (w : IsCoherent p) (i a : ℕ) (there : find i p.cache ≡ some a)
    → IsEvicted p (
        forgotten
          (flushed p w i a there)
          (flushed-IsCoherent p w i a there)
          i
          (drop_last (flushed p w i a there).lru))
written-IsEvicted p w i a there =
    let f : Pager = flushed p w i a there in
    let v : IsCoherent f = flushed-IsCoherent p w i a there in
    let last_step =
      forgotten-IsEvicted f v i (drop_last f.lru) (inl (unmarked_after p w i a there)) in
    record {
      coherent = last_step.coherent;
      keeps =
          Keeps-trans p f (forgotten f v i (drop_last f.lru)) (flushed-Keeps p w i a there)
            last_step.keeps;
      no_more = λ j gone. last_step.no_more j (ap (find j) (cache_of p w i a there) ∙ gone);
    }

evict-IsEvicted : (p : Pager) (i : ℕ) → IsCoherent p → IsEvicted p (evict p (some i))
unfolding forgotten flushed
evict-IsEvicted p i w = elim (Bool-cases (member i p.dirty)) [
  | inr n ↦ rw n (forgotten-IsEvicted p w i (drop_last p.lru) (inl n))
  | inl y ↦ elim (Option-cases (find i p.cache)) [
    | inl gone ↦ rw (y, gone) (forgotten-IsEvicted p w i (drop_last p.lru) (inr gone))
    | inr (a, there) ↦ rw (y, there) (written-IsEvicted p w i a there)
  ]
]

pub IsEvicted-refl : (p : Pager) → IsCoherent p → IsEvicted p p
unfolding Keeps
IsEvicted-refl p w = record { coherent = w; keeps = λ j b e. e; no_more = λ j gone. gone }

-- Room is made for one more page.
abbrev pub room : Pager → Pager
room p = if leb p.cache_size (length p.lru) then evict_lru p else p

evict_lru-IsEvicted : (p : Pager) → IsCoherent p → IsEvicted p (evict_lru p)
unfolding evict_lru
evict_lru-IsEvicted p w = at_end (last p.lru)
  where
    at_end : (o : Option ℕ) → IsEvicted p (evict p o)
    at_end none = IsEvicted-refl p w
    at_end (some i) = evict-IsEvicted p i w

pub room-IsEvicted : (p : Pager) → IsCoherent p → IsEvicted p (room p)
room-IsEvicted p w = elim (Bool-cases (leb p.cache_size (length p.lru))) [
  | inl y ↦ rw y (evict_lru-IsEvicted p w)
  | inr n ↦ rw n (IsEvicted-refl p w)
]
