-- ===== src/MissCache/Segment/Lookup.antt =====
-- Where a segment finds a PC, and `contains`.
use sandbox_predictor.Prelude.{
  ℕ, ◌≡◌, refl, sym, ap, ◌∙◌, Bool, true, false, Option, none, some, List, [], ◌∷◌, arith,
  get_elem?, get_elem?-lt, find_index, find_index-some, find_index-none, Option-cases, Bool-cases,
  inl, inr,
}
use sandbox_predictor.MissCache.Entry.{Entry, holds}
use sandbox_predictor.MissCache.Recency.{position, position-of, position-some}
use sandbox_predictor.MissCache.Segment.{Segment, contains, any_holds}
use sandbox_predictor.MissCache.Segment.Promote.{Holds}

-- The scan for `pc` agrees with the place of `pc` in the recency list.
pub data Lookup (s : Segment) (xs : List ℕ) (pc : ℕ) : Type 0 where
  held :
      (i : ℕ) (e : Entry)
      → find_index (holds pc) s.entries ≡ some i
      → get_elem? s.entries i ≡ some e
      → e.valid ≡ true
      → e.pc ≡ pc
      → get_elem? xs e.age ≡ some pc
      → position pc xs ≡ some e.age
      → Lookup s xs pc
  unheld : find_index (holds pc) s.entries ≡ none → position pc xs ≡ none → Lookup s xs pc

-- Every PC of the list is held by a valid entry.
entry_of :
    (s : Segment) (xs : List ℕ) (a pc : ℕ)
    → Holds s xs
    → get_elem? xs a ≡ some pc
    → (i : ℕ) × (e : Entry) × (get_elem? s.entries i ≡ some e) × (holds pc e ≡ true)
entry_of s xs a pc h g =
    let old = h.ranked.present a (omega (arith, get_elem?-lt xs a g, h.ranked.fits)) in
    elim (Bool-cases old.entry.valid) [
      | inl v ↦
          let q : get_elem? xs a ≡ some old.entry.pc =
            ap (get_elem? xs) (sym old.age_eq) ∙ h.ranked.sound old.index old.entry old.found v in
          (old.index, old.entry, old.found, ground arith)
      | inr v ↦ absurd (
          omega
            (arith, get_elem?-lt xs a g, h.ranked.free old.index old.entry old.found v, old.age_eq))
    ]

pub lookup : (s : Segment) (xs : List ℕ) (pc : ℕ) → Holds s xs → Lookup s xs pc
lookup s xs pc h = elim (Option-cases (find_index (holds pc) s.entries)) [
  | inr (i, q) ↦
      let (e, g, t) = find_index-some (holds pc) s.entries q in
      let v : e.valid ≡ true = ground arith in
      let w : e.pc ≡ pc = ground arith in
      let at : get_elem? xs e.age ≡ some pc = h.ranked.sound i e g v ∙ ap some w in
      held i e q g v w at (position-of pc xs e.age h.ranked.distinct at)
  | inl q ↦ unheld q (elim (Option-cases (position pc xs)) [
    | inl r ↦ r
    | inr (a, r) ↦
        let (i, e, g, t) = entry_of s xs a pc h (position-some pc xs r) in
        absurd (ground (arith, find_index-none (holds pc) s.entries i q g))
  ])
]

abbrev pub is_some {ℓ} : {A : Type ℓ} → Option A → Bool
is_some none = false
is_some (some a) = true

any_holds-find : (pc : ℕ) (es : List Entry) → any_holds pc es ≡ is_some (find_index (holds pc) es)
any_holds-find pc [] = refl
any_holds-find pc (e ∷ es) = ground (arith, any_holds-find pc es)

-- For a segment that holds the PCs of a list, `contains` tells whether the list has the PC.
pub contains_lem :
    (s : Segment) (xs : List ℕ) (pc : ℕ) → Holds s xs → contains s pc ≡ is_some (position pc xs)
unfolding contains
contains_lem s xs pc h = go (lookup s xs pc h)
  where
    go : Lookup s xs pc → any_holds pc s.entries ≡ is_some (position pc xs)
    go (held i e q g v w at p) = any_holds-find pc s.entries ∙ ap is_some q ∙ sym (ap is_some p)
    go (unheld q p) = any_holds-find pc s.entries ∙ ap is_some q ∙ sym (ap is_some p)
