-- ===== src/MissCache/Lru/Tracks.antt =====
-- When an LRU miss cache holds the PCs of a recency list, and what an access may pick.
use sandbox_predictor.Prelude.{
  ℕ, ◌-◌, ◌≤◌, ◌<◌, ◌^◌, ◌≡◌, sym, ap, ◌∙◌, inl, inr, true, false, not, none, some, List, arith,
  get_elem?, length, get_elem?-lt, find_index, find_index-some, find_index-none, find_index-first,
  get_or-of_get_elem?, Option-cases, get_elem?-of_lt, dec_lt,
}
use sandbox_predictor.Prelude.Word.{pred32}
use sandbox_predictor.MissCache.Entry.{Entry, holds, blank}
use sandbox_predictor.MissCache.Recency.{Distinct, position, position-some}
use sandbox_predictor.MissCache.Lru.{LruCache, choose}
use sandbox_predictor.MissCache.Lru.Promote.{Sound, Apart, Aged}

-- The cache holds the PCs of `xs`, the entry of age `a` the PC at place `a`. The valid entries come
-- first in the array; a free entry is at least as old as its index, and its PC is 0.
pub record Tracks (c : LruCache) (xs : List ℕ) : Type 0 where
  pub size : length c.entries ≡ c.num_entries
  pub saved_size : length c.saved_state ≡ c.num_entries
  pub some_entry : 0 < c.num_entries
  pub small : c.num_entries < 2 ^ 32
  pub fits : length xs ≤ c.num_entries
  pub lru_in : c.lru < c.num_entries
  pub distinct : Distinct xs
  pub sound : Sound c.entries xs
  pub apart : Apart c.entries
  pub present : (a : ℕ) → a < length xs → Aged c.entries a
  pub used : (i : ℕ) (e : Entry) → get_elem? c.entries i ≡ some e → e.valid ≡ true → i < length xs
  pub free :
      (i : ℕ) (e : Entry)
      → get_elem? c.entries i ≡ some e
      → e.valid ≡ false
      → (length xs ≤ i) × (i ≤ e.age)
  pub zeroed : (i : ℕ) (e : Entry) → get_elem? c.entries i ≡ some e → e.valid ≡ false → e.pc ≡ 0
  pub oldest :
      (i : ℕ) (e : Entry)
      → get_elem? c.entries i ≡ some e
      → e.valid ≡ true
      → e.age ≡ c.num_entries - 1
      → i ≡ c.lru

-- The three ways in which `access` picks its entry.
pub data Choice (c : LruCache) (pc : ℕ) : Type 0 where
  hit :
      (i : ℕ) (e : Entry)
      → get_elem? c.entries i ≡ some e
      → e.valid ≡ true
      → e.pc ≡ pc
      → choose c pc ≡ (i, e.age)
      → Choice c pc
  vacant :
      (i : ℕ) (e : Entry)
      → find_index (holds pc) c.entries ≡ none
      → find_index (λ (e : Entry). not e.valid) c.entries ≡ some i
      → get_elem? c.entries i ≡ some e
      → e.valid ≡ false
      → choose c pc ≡ (i, pred32 c.num_entries)
      → Choice c pc
  evict :
      find_index (holds pc) c.entries ≡ none
      → find_index (λ (e : Entry). not e.valid) c.entries ≡ none
      → choose c pc ≡ (c.lru, pred32 c.num_entries)
      → Choice c pc

pub choose-Choice : (c : LruCache) (pc : ℕ) → Choice c pc
choose-Choice c pc = elim (Option-cases (find_index (holds pc) c.entries)) [
  | inr (i, q) ↦
      let (e, g, t) = find_index-some (holds pc) c.entries q in
      hit i e g (ground arith) (ground arith)
        (rw (q, choose) (ap (λ (t : Entry). (i, t.age)) (get_or-of_get_elem? c.entries i blank g)))
  | inl q ↦ elim (Option-cases (find_index (λ (e : Entry). not e.valid) c.entries)) [
    | inr (i, r) ↦
        let (e, g, t) = find_index-some (λ (e : Entry). not e.valid) c.entries r in
        vacant i e q r g (ground arith) (rw (q, r, choose))
    | inl r ↦ evict q r (rw (q, r, choose))
  ]
]

module _ (c : LruCache) (xs : List ℕ) (pc : ℕ) (t : Tracks c xs) where
  -- A PC that no valid entry holds is not in the list.
  pub position_absent : find_index (holds pc) c.entries ≡ none → position pc xs ≡ none
  position_absent q = elim (Option-cases (position pc xs)) [
    | inl r ↦ r
    | inr (a, r) ↦
        let g = position-some pc xs r in
        let old = t.present a (get_elem?-lt xs a g) in
        let s : get_elem? xs a ≡ some old.entry.pc =
          ap (get_elem? xs) (sym old.age_eq) ∙ t.sound old.index old.entry old.found old.valid in
        absurd
          (ground (arith, find_index-none (holds pc) c.entries old.index q old.found, old.valid))
  ]

  -- The first free entry stands right behind the valid ones.
  pub vacant_index :
      (i : ℕ) (e : Entry)
      → find_index (λ (e : Entry). not e.valid) c.entries ≡ some i
      → get_elem? c.entries i ≡ some e
      → e.valid ≡ false
      → i ≡ length xs
  vacant_index i e q g v = elim (dec_lt (length xs) i) [
    | yes l ↦
        let (d, gd) =
          get_elem?-of_lt c.entries (length xs) (omega (arith, get_elem?-lt c.entries i g)) in
        let f = find_index-first (λ (e : Entry). not e.valid) c.entries (length xs) q gd l in
        absurd (omega (arith, t.used (length xs) d gd (ground arith)))
    | no l ↦ omega (arith, t.free i e g v)
  ]

  -- Where no entry is free the list is full.
  pub no_vacant :
      find_index (λ (e : Entry). not e.valid) c.entries ≡ none → length xs ≡ c.num_entries
  no_vacant q = elim (dec_lt (length xs) c.num_entries) [
    | yes l ↦
        let (d, gd) = get_elem?-of_lt c.entries (length xs) (omega arith) in
        let f = find_index-none (λ (e : Entry). not e.valid) c.entries (length xs) q gd in
        absurd (omega (arith, t.used (length xs) d gd (ground arith)))
    | no l ↦ omega arith
  ]
