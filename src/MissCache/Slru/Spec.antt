-- ===== src/MissCache/Slru/Spec.antt =====
-- What a segmented LRU cache promises: two recency lists with no PC in both.
use sandbox_predictor.Prelude.{
  ℕ, zero, suc, ◌-◌, ◌≡◌, ◌≢◌, sym, ap, ◌∙◌, none, some, List, ◌∷◌, arith, ◌==◌, if◌then◌else◌,
  get_elem?, get_or, length, take, remove_at, ◌⊎◌, Option-cases, inl, inr, some_inj,
  get_elem?-take-some, get_or-of_get_elem?, get_elem?-of_lt, get_or-out, dec_lt, get_elem?-lt,
  length-take_le, find_index-none,
}
use sandbox_predictor.MissCache.Recency.{
  Distinct, position, position-some, skip, get_elem?-remove_at-some,
}

abbrev pub Lists : Type 0
Lists = List ℕ × List ℕ

-- The PC that a full list of `n` loses when one is put in front, else 0.
abbrev pub falls_off : ℕ → List ℕ → ℕ
falls_off n xs = get_or xs (n - 1) 0

abbrev pub push : ℕ → ℕ → List ℕ → List ℕ
push n pc xs = pc ∷ take (n - 1) xs

-- what a probationary hit at place `b` makes of the lists
abbrev pub promoted : ℕ → ℕ → Lists → ℕ → Lists
promoted n pc (ps, qs) b =
    let rest = remove_at b qs in
    let lost = falls_off n ps in (push n pc ps, if lost == 0 then rest else push n lost rest)

abbrev pub touch : ℕ → ℕ → Lists → Lists
touch n pc (ps, qs) = elim (position pc ps) [
  | some a ↦ (pc ∷ remove_at a ps, qs)
  | none ↦ elim (position pc qs) [ some b ↦ promoted n pc (ps, qs) b | none ↦ (ps, push n pc qs) ]
]

pub record Has (xs : List ℕ) (pc : ℕ) : Type 0 where
  pub place : ℕ
  pub found : get_elem? xs place ≡ some pc

-- No PC is in both lists.
abbrev pub Disjoint : List ℕ → List ℕ → Type 0
Disjoint ps qs = (x : ℕ) → Has ps x → Has qs x → ⊥

pub position-absent : (x : ℕ) (xs : List ℕ) → (Has xs x → ⊥) → position x xs ≡ none
position-absent x xs out = elim (Option-cases (position x xs)) [
  | inl q ↦ q
  | inr (a, q) ↦ absurd (out (record { place = a; found = position-some x xs q }))
]

pub absent-position : (x : ℕ) (xs : List ℕ) → position x xs ≡ none → Has xs x → ⊥
absent-position x xs q h = ground (arith, find_index-none (λ y. y == x) xs h.place q h.found)

pub Has-cons : (x y : ℕ) (xs : List ℕ) → Has xs x → Has (y ∷ xs) x
Has-cons x y xs h = record { place = suc h.place; found = h.found }

cons_at : (x y : ℕ) (xs : List ℕ) (i : ℕ) → get_elem? (y ∷ xs) i ≡ some x → (x ≡ y) ⊎ Has xs x
cons_at x y xs zero g = inl (some_inj (sym g))
cons_at x y xs (suc i) g = inr (record { place = i; found = g })

-- What the list `y ∷ xs` has is `y` or in `xs`.
pub cons-Has : (x y : ℕ) (xs : List ℕ) → Has (y ∷ xs) x → (x ≡ y) ⊎ Has xs x
cons-Has x y xs h = cons_at x y xs h.place h.found

pub take-Has : (n x : ℕ) (xs : List ℕ) → Has (take n xs) x → Has xs x
take-Has n x xs h = record { place = h.place; found = get_elem?-take-some n xs h.place h.found }

pub remove_at-Has : (a x : ℕ) (xs : List ℕ) → Has (remove_at a xs) x → Has xs x
remove_at-Has a x xs h = record {
  place = skip a h.place;
  found = get_elem?-remove_at-some a xs h.place h.found;
}

-- A PC other than 0 that falls off the list was in it.
pub falls_off-Has : (n : ℕ) (xs : List ℕ) → falls_off n xs ≢ 0 → Has xs (falls_off n xs)
falls_off-Has n xs nz = elim (dec_lt (n - 1) (length xs)) [
  | yes l ↦
      let (x, g) = get_elem?-of_lt xs (n - 1) l in
      record { place = n - 1; found = g ∙ ap some (sym (get_or-of_get_elem? xs (n - 1) 0 g)) }
  | no l ↦ absurd (nz (get_or-out xs (n - 1) 0 (omega arith)))
]

-- It is not among those that stay.
pub falls_off-gone :
    (n : ℕ) (xs : List ℕ)
    → Distinct xs
    → falls_off n xs ≢ 0
    → Has (take (n - 1) xs) (falls_off n xs)
    → ⊥
falls_off-gone n xs d nz h =
    let l = get_elem?-lt (take (n - 1) xs) h.place h.found in
    let at = get_elem?-take-some (n - 1) xs h.place h.found in
    let off = falls_off-Has n xs nz in
    elim (dec_lt (n - 1) (length xs)) [
      | yes m ↦
          let (x, g) = get_elem?-of_lt xs (n - 1) m in
          let g' = g ∙ ap some (sym (get_or-of_get_elem? xs (n - 1) 0 g)) in
          omega (arith, d h.place (n - 1) (falls_off n xs) at g', length-take_le (n - 1) xs)
      | no m ↦ nz (get_or-out xs (n - 1) 0 (omega arith))
    ]

-- What is pushed, or was there and does not fall off.
pub push-Has : (n pc x : ℕ) (xs : List ℕ) → Has (push n pc xs) x → (x ≡ pc) ⊎ Has xs x
push-Has n pc x xs h = elim (cons-Has x pc (take (n - 1) xs) h) [
  | inl q ↦ inl q
  | inr r ↦ inr (take-Has (n - 1) x xs r)
]
