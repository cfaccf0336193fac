-- ===== src/FastSet/Expand.antt =====
-- `expand` of `fastset` lists the members of a set, in increasing order.
use sandbox_predictor.Prelude.{
  ℕ, zero, suc, ◌+◌, ◌*◌, ◌/◌, ◌%◌, ◌≤◌, ◌<◌, ◌≡◌, refl, sym, ap, ◌∙◌, Bool, true, false, ◌&&◌,
  ◌||◌, some, List, [], ◌∷◌, ◌++◌, arith, ltb, leb, ◌==◌, get_or, length, take, Bool-cases, inl,
  inr, ℕ_discrete, dec_lt,
}
use sandbox_predictor.Prelude.Digits.{digit, digit-zero}
use sandbox_predictor.FastSet.{FastSet, getbit, members_from, expand_from, expand}
use sandbox_predictor.FastSet.Values.{Contains}
use sandbox_predictor.FastSet.Find.{Finds}
use sandbox_predictor.FastSet.Words.{getbit_lem, elem, elem-take-Finds}
use sandbox_predictor.FastSet.Refine.{Holds, elem-listed, none_listed}

-- strictly increasing
pub Increases : List ℕ → Type 0
Increases [] = Unit
Increases (x ∷ xs) = ((y : ℕ) → elem y xs ≡ true → x < y) × Increases xs

elem-append : (xs ys : List ℕ) (y : ℕ) → elem y (xs ++ ys) ≡ (elem y xs || elem y ys)
elem-append [] ys y = refl
elem-append (x ∷ xs) ys y = ground (arith, elem-append xs ys y)

append-Increases :
    (xs ys : List ℕ)
    → Increases xs
    → Increases ys
    → ((x y : ℕ) → elem x xs ≡ true → elem y ys ≡ true → x < y)
    → Increases (xs ++ ys)
unfolding Increases
append-Increases [] ys a b c = b
append-Increases (x ∷ xs) ys a b c = (
  λ y e. elim (Bool-cases (elem y xs)) [
    | inl t ↦ a.0 y t
    | inr t ↦ c x y (ground arith) (ground (arith, elem-append xs ys y))
  ],
  append-Increases xs ys a.1 b (λ u v p q. c u v (ground arith) q),
)

-- a number of a range, as far as a test lets it through
abbrev shown : ℕ → ℕ → Bool → ℕ → Bool
shown lo hi b y = (leb lo y && ltb y hi) && b

shown_bounds : (lo hi : ℕ) (b : Bool) (y : ℕ) → shown lo hi b y ≡ true → (lo ≤ y) × (y < hi)
shown_bounds lo hi true y h = ground arith
shown_bounds lo hi false y h = ground arith

-- a word and the words after it
shown_split :
    (i r : ℕ) (b : Bool) (y : ℕ)
    → (shown (i * 64) (i * 64 + 64) b y || shown ((i + 1) * 64) ((i + 1 + r) * 64) b y)
      ≡ shown (i * 64) ((i + suc r) * 64) b y
shown_split i r true y = ground arith
shown_split i r false y = ground arith

elem-members_from :
    (bits : List ℕ) (n r l y : ℕ)
    → elem y (members_from bits n r l) ≡ shown l (l + r) (ltb y n && getbit bits y) y
unfolding members_from
elem-members_from bits n zero l y = ground arith
elem-members_from bits n (suc r) l y = elim (ℕ_discrete y l) [
  | yes e ↦ ground (arith, elem-members_from bits n r (l + 1) y, ap (getbit bits) e)
  | no d ↦ ground (arith, elem-members_from bits n r (l + 1) y)
]

members_from-Increases : (bits : List ℕ) (n r l : ℕ) → Increases (members_from bits n r l)
unfolding members_from Increases
members_from-Increases bits n zero l = tt
members_from-Increases bits n (suc r) l = elim (Bool-cases (ltb l n)) [
  | inr t ↦ rw (t, members_from) (tt)
  | inl t ↦ elim (Bool-cases (getbit bits l)) [
    | inr u ↦ rw (t, members_from) (rw u (members_from-Increases bits n r (l + 1)))
    | inl u ↦
        rw (t, members_from)
          (rw u (
            λ y e. ground (arith, elem-members_from bits n r (l + 1) y),
            members_from-Increases bits n r (l + 1),
          ))
  ]
]

-- a word that is 0 has no members
empty_word : (bits : List ℕ) (y : ℕ) → get_or bits (y / 64) 0 ≡ 0 → getbit bits y ≡ false
empty_word bits y e = getbit_lem bits y ∙ ap (λ t. digit t (y % 64)) e ∙ digit-zero (y % 64)

elem-expand_from :
    (bits : List ℕ) (n r i y : ℕ)
    → elem y (expand_from bits n r i) ≡ shown (i * 64) ((i + r) * 64) (ltb y n && getbit bits y) y
unfolding expand_from
elem-expand_from bits n zero i y = ground arith
elem-expand_from bits n (suc r) i y = elim (ℕ_discrete (get_or bits i 0) 0) [
  | yes e ↦
      let t : (get_or bits i 0 == 0) ≡ true = ground arith in
      rw (t, expand_from)
        (elim (ℕ_discrete (y / 64) i) [
          | yes q ↦ ground (arith, elem-expand_from bits n r (i + 1) y, empty_word bits y (rw q e))
          | no q ↦ ground (arith, elem-expand_from bits n r (i + 1) y)
        ])
  | no d ↦
      let t : (get_or bits i 0 == 0) ≡ false = ground arith in
      rw (t, expand_from)
        (elem-append (members_from bits n 64 (i * 64)) (expand_from bits n r (i + 1)) y
          ∙ rw (elem-members_from bits n 64 (i * 64) y, elem-expand_from bits n r (i + 1) y)
              (shown_split i r (ltb y n && getbit bits y) y))
]

expand_from-Increases : (bits : List ℕ) (n r i : ℕ) → Increases (expand_from bits n r i)
unfolding expand_from
expand_from-Increases bits n zero i = unfold Increases in tt
expand_from-Increases bits n (suc r) i = elim (Bool-cases (get_or bits i 0 == 0)) [
  | inl t ↦ rw (t, expand_from) (expand_from-Increases bits n r (i + 1))
  | inr t ↦
      rw (t, expand_from)
        (append-Increases (members_from bits n 64 (i * 64)) (expand_from bits n r (i + 1))
          (members_from-Increases bits n 64 (i * 64)) (expand_from-Increases bits n r (i + 1))
          (λ x y p q.
            let (a, b) =
              shown_bounds (i * 64) (i * 64 + 64) _ x
                (sym (elem-members_from bits n 64 (i * 64) x) ∙ p) in
            let (c, d) =
              shown_bounds ((i + 1) * 64) ((i + 1 + r) * 64) _ y
                (sym (elem-expand_from bits n r (i + 1) y) ∙ q) in
            omega arith))
]

-- the first values of a sorted array
take-Increases :
    (vs : List ℕ) (n : ℕ)
    → n ≤ length vs
    → ((i j : ℕ) → i < j → j < n → get_or vs i 0 < get_or vs j 0)
    → Increases (take n vs)
unfolding Increases
take-Increases vs zero l h = tt
take-Increases [] (suc n) l h = absurd (omega arith)
take-Increases (x ∷ vs) (suc n) l h = (
  λ y e. elim (Bool-cases (elem y (take n vs))) [
    | inr t ↦ absurd (ground arith)
    | inl t ↦ later y (found y (elem y (take n vs)) t (elem-take-Finds vs n y (omega arith)))
  ],
  take-Increases vs n (omega arith) (λ i j a b. h (suc i) (suc j) (omega arith) (omega arith)),
)
  where
    found : (y : ℕ) (b : Bool) → b ≡ true → Finds vs n y b → Contains vs n y
    found y true e f = f
    found y false e f = absurd (cc)

    later : (y : ℕ) → Contains vs n y → x < y
    later y c = omega (arith, c.same, h 0 (suc c.place) (omega arith) (omega (arith, c.below)))

-- `expand` lists the members of a set whose members are all below the number that it is given, itself
-- at most 512, each once and in increasing order.
pub expand-members :
    (s : FastSet) (n : ℕ) (member : ℕ → Bool)
    → Holds s member
    → n ≤ 512
    → ((y : ℕ) → member y ≡ true → y < n)
    → (v : List ℕ) × (expand s n ≡ some v) × ((y : ℕ) → elem y v ≡ member y) × Increases v
unfolding expand
expand-members s n member h most b = elim (dec_lt s.card 13) [
  | yes q ↦ elim (ℕ_discrete s.card 0) [
    | yes e ↦
        let t : (s.card == 0) ≡ true = ground arith in
        (
          [],
          rw (t, expand) (refl),
          λ y. sym (none_listed s.values s.card member y (h.small q) e),
          unfold Increases in tt,
        )
    | no d ↦
        let t : (s.card == 0) ≡ false = ground arith in
        let u : ltb s.card 13 ≡ true = ground arith in
        (
          take s.card s.values,
          rw (t, expand) (rw u (refl)),
          elem-listed s.values s.card member (h.small q) h.top,
          take-Increases s.values s.card (omega (arith, h.cells)) (h.small q).sorted,
        )
  ]
  | no q ↦
      let t : (s.card == 0) ≡ false = ground arith in
      let u : ltb s.card 13 ≡ false = ground arith in
      let full : s.card ≡ 13 = omega (arith, h.top) in
      let v : leb n 512 ≡ true = ground arith in
      (
        expand_from s.bits n ((n + 63) / 64) 0,
        rw (t, expand) (rw u (rw v (refl))),
        λ y. elim (Bool-cases (member y)) [
          | inl m ↦
              ground (arith, elem-expand_from s.bits n ((n + 63) / 64) 0 y, h.large full y, b y m)
          | inr m ↦ ground (arith, elem-expand_from s.bits n ((n + 63) / 64) 0 y, h.large full y)
        ],
        expand_from-Increases s.bits n ((n + 63) / 64) 0,
      )
]
