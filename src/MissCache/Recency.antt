-- ===== src/MissCache/Recency.antt =====
-- What an LRU cache promises: a list of distinct PCs, most recent first, of a bounded length.
use sandbox_predictor.Prelude.{
  ℕ, zero, suc, ◌-◌, ◌≡◌, ◌≢◌, sym, ap, ◌∙◌, refl, inl, inr, Option, none, some, List, ◌∷◌, arith,
  ◌==◌, ltb, if◌then◌else◌, get_elem?, take, remove_at, find_index, find_index-some,
  find_index-none, find_index-exists, get_elem?-take-some, get_elem?-remove_at_lt,
  get_elem?-remove_at_ge, dec_lt, Option-cases,
}

-- where `pc` stands in the list
abbrev pub position : ℕ → List ℕ → Option ℕ
position pc xs = find_index (λ x. x == pc) xs

-- An access moves `pc` to the front if it is there; else it puts `pc` in front, and a full list
-- drops its last PC.
abbrev pub others : ℕ → ℕ → List ℕ → List ℕ
others n pc xs = elim (position pc xs) [ some a ↦ remove_at a xs | none ↦ take (n - 1) xs ]

abbrev pub touch : ℕ → ℕ → List ℕ → List ℕ
touch n pc xs = pc ∷ others n pc xs

-- No PC stands at two places.
abbrev pub Distinct : List ℕ → Type 0
Distinct xs = (a b p : ℕ) → get_elem? xs a ≡ some p → get_elem? xs b ≡ some p → a ≡ b

pub position-of :
    (pc : ℕ) (xs : List ℕ) (a : ℕ)
    → Distinct xs
    → get_elem? xs a ≡ some pc
    → position pc xs ≡ some a
position-of pc xs a d g =
    let (b, q) = find_index-exists (λ x. x == pc) xs a g (ground arith) in
    let (y, gy, t) = find_index-some (λ x. x == pc) xs q in
    let e : y ≡ pc = ground arith in q ∙ ap some (d b a pc (gy ∙ ap some e) g)

pub position-some :
    (pc : ℕ) (xs : List ℕ) {a : ℕ} → position pc xs ≡ some a → get_elem? xs a ≡ some pc
position-some pc xs q =
    let (y, gy, t) = find_index-some (λ x. x == pc) xs q in
    let e : y ≡ pc = ground arith in gy ∙ ap some e

-- Where an element of the list without place `a` came from.
pub skip : ℕ → ℕ → ℕ
skip a i = if ltb i a then i else suc i

pub get_elem?-remove_at-some :
    (a : ℕ) (xs : List ℕ) (i : ℕ) {p : ℕ}
    → get_elem? (remove_at a xs) i ≡ some p
    → get_elem? xs (skip a i) ≡ some p
unfolding skip
get_elem?-remove_at-some a xs i h = elim (dec_lt i a) [
  | yes l ↦
      let e : skip a i ≡ i = ground arith in
      ap (get_elem? xs) e ∙ sym (get_elem?-remove_at_lt a xs i l) ∙ h
  | no l ↦
      let e : skip a i ≡ suc i = ground arith in
      ap (get_elem? xs) e ∙ sym (get_elem?-remove_at_ge a xs i (omega arith)) ∙ h
]

skip_inj : (a i j : ℕ) → skip a i ≡ skip a j → i ≡ j
unfolding skip
skip_inj a i j h = ground arith

skip-ne : (a i : ℕ) → skip a i ≢ a
unfolding skip
skip-ne a i h = ground arith

pub remove_at-Distinct : (a : ℕ) (xs : List ℕ) → Distinct xs → Distinct (remove_at a xs)
remove_at-Distinct a xs d i j p gi gj = skip_inj a i j (
    d (skip a i) (skip a j) p (get_elem?-remove_at-some a xs i gi)
      (get_elem?-remove_at-some a xs j gj))

-- In a list of distinct PCs the one removed is gone.
pub remove_at-absent :
    (a : ℕ) (xs : List ℕ) (i pc : ℕ)
    → Distinct xs
    → get_elem? xs a ≡ some pc
    → get_elem? (remove_at a xs) i ≢ some pc
remove_at-absent a xs i pc d g h =
    skip-ne a i (d (skip a i) a pc (get_elem?-remove_at-some a xs i h) g)

pub cons-Distinct :
    (pc : ℕ) (zs : List ℕ) → ((i : ℕ) → get_elem? zs i ≢ some pc) → Distinct zs → Distinct (pc ∷ zs)
cons-Distinct pc zs out d zero zero p gi gj = refl
cons-Distinct pc zs out d zero (suc j) p gi gj = absurd (out j (gj ∙ sym gi))
cons-Distinct pc zs out d (suc i) zero p gi gj = absurd (out i (gi ∙ sym gj))
cons-Distinct pc zs out d (suc i) (suc j) p gi gj = ap suc (d i j p gi gj)

take-Distinct : (n : ℕ) (xs : List ℕ) → Distinct xs → Distinct (take n xs)
take-Distinct n xs d i j p gi gj =
    d i j p (get_elem?-take-some n xs i gi) (get_elem?-take-some n xs j gj)

pub others_hit :
    (n pc : ℕ) (xs : List ℕ) (a : ℕ) → position pc xs ≡ some a → others n pc xs ≡ remove_at a xs
others_hit n pc xs a q = rw (q, others)

pub others_miss :
    (n pc : ℕ) (xs : List ℕ) → position pc xs ≡ none → others n pc xs ≡ take (n - 1) xs
others_miss n pc xs q = rw (q, others)

others-Distinct : (n pc : ℕ) (xs : List ℕ) → Distinct xs → Distinct (others n pc xs)
others-Distinct n pc xs d = elim (Option-cases (position pc xs)) [
  | inl q ↦ rw (others_miss n pc xs q) (take-Distinct (n - 1) xs d)
  | inr (a, q) ↦ rw (others_hit n pc xs a q) (remove_at-Distinct a xs d)
]

others-absent :
    (n pc : ℕ) (xs : List ℕ) → Distinct xs → (i : ℕ) → get_elem? (others n pc xs) i ≢ some pc
others-absent n pc xs d i = elim (Option-cases (position pc xs)) [
  | inl q ↦ rw (others_miss n pc xs q) λ h.
      absurd
        (ground (arith, find_index-none (λ x. x == pc) xs i q (get_elem?-take-some (n - 1) xs i h)))
  | inr (a, q) ↦ rw (others_hit n pc xs a q) (remove_at-absent a xs i pc d (position-some pc xs q))
]

-- An access keeps the PCs distinct.
pub touch-Distinct : (n pc : ℕ) (xs : List ℕ) → Distinct xs → Distinct (touch n pc xs)
touch-Distinct n pc xs d =
    cons-Distinct pc (others n pc xs) (others-absent n pc xs d) (others-Distinct n pc xs d)
