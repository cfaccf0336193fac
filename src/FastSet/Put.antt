-- ===== src/FastSet/Put.antt =====
-- `insert_small` of `fastset` puts a value into the sorted array, once.
use sandbox_predictor.Prelude.{
  ℕ, zero, suc, ◌+◌, ◌≤◌, ◌<◌, ◌≡◌, sym, ap, ◌∙◌, Bool, true, ◌||◌, List, ◌⊎◌, inl, inr, arith,
  ◌==◌, get_or, Option-cases, ℕ_discrete, dec_lt,
}
use sandbox_predictor.FastSet.{FastSet, place_from, insert_small}
use sandbox_predictor.FastSet.Values.{
  Contains, Lists, place-none, place-some, put, length-put, put_self, put-before, put-after,
}

-- the set with one more member
abbrev pub with_member : ℕ → (ℕ → Bool) → ℕ → Bool
with_member x member y = (y == x) || member y

-- A value that is there already changes nothing.
present-Lists :
    (vs : List ℕ) (n x : ℕ) (member : ℕ → Bool)
    → Lists vs n member
    → Contains vs n x
    → Lists vs n (with_member x member)
present-Lists vs n x member h c = record {
  cells = h.cells;
  sorted = h.sorted;
  sound = λ k l. ground (arith, h.sound k l);
  complete = λ y e. elim (ℕ_discrete y x) [
    | yes s ↦ record { place = c.place; below = c.below; same = c.same ∙ sym s }
    | no s ↦ h.complete y (ground arith)
  ];
}

module _ (vs : List ℕ) (n x p : ℕ) (member : ℕ → Bool) (h : Lists vs n member) (few : n < 13)
    (at : p ≤ n) (smaller : (k : ℕ) → k < p → get_or vs k 0 < x)
    (greater : (k : ℕ) → p ≤ k → k < n → x < get_or vs k 0) where
  abbrev vs' : List ℕ
  vs' = put vs n x p h.cells few at

  before : (k : ℕ) → k < p → get_or vs' k 0 ≡ get_or vs k 0
  before = put-before vs n x p h.cells few at

  self : get_or vs' p 0 ≡ x
  self = put_self vs n x p h.cells few at

  after : (k : ℕ) → p ≤ k → k < n → get_or vs' (suc k) 0 ≡ get_or vs k 0
  after = put-after vs n x p h.cells few at

  at_self : (i j : ℕ) → p ≡ i → i ≤ j → j < n → get_or vs' i 0 < get_or vs' (suc j) 0
  at_self i j e b c =
      omega (
        arith,
        ap (λ t. get_or vs' t 0) e,
        self,
        after j (omega arith) c,
        greater j (omega arith) c,
      )

  above_step : (i j : ℕ) → p ≤ i → i ≤ j → j < n → get_or vs' i 0 < get_or vs' (suc j) 0
  above_step zero j a b c = at_self zero j (omega arith) b c
  above_step (suc i) j a b c = elim (ℕ_discrete p (suc i)) [
    | yes e ↦ at_self (suc i) j e b c
    | no e ↦ omega (
      arith,
      after i (omega arith) (omega arith),
      after j (omega arith) c,
      h.sorted i j (omega arith) c,
    )
  ]

  -- a value of the array after, in the array before
  origin :
      (k : ℕ)
      → k < suc n
      → (get_or vs' k 0 ≡ x) ⊎ ((j : ℕ) × (j < n) × (get_or vs' k 0 ≡ get_or vs j 0))
  origin zero l = elim (ℕ_discrete p zero) [
    | yes e ↦ inl (ap (λ t. get_or vs' t 0) (sym e) ∙ self)
    | no e ↦ inr (0, omega arith, before 0 (omega arith))
  ]
  origin (suc k) l = elim (ℕ_discrete p (suc k)) [
    | yes e ↦ inl (ap (λ t. get_or vs' t 0) (sym e) ∙ self)
    | no e ↦ elim (dec_lt (suc k) p) [
      | yes q ↦ inr (suc k, omega arith, before (suc k) q)
      | no q ↦ inr (k, omega arith, after k (omega arith) (omega arith))
    ]
  ]

  put_member : (k : ℕ) → k < suc n → with_member x member (get_or vs' k 0) ≡ true
  put_member k l = elim (origin k l) [
    | inl e ↦ ground (arith, e)
    | inr (j, m, e) ↦ ground (arith, h.sound j m, ap member e)
  ]

  put_found : (y : ℕ) → with_member x member y ≡ true → Contains vs' (n + 1) y
  put_found y e = elim (ℕ_discrete y x) [
    | yes s ↦ record { place = p; below = omega arith; same = self ∙ sym s }
    | no s ↦
        let c = h.complete y (ground arith) in
        elim (dec_lt c.place p) [
          | yes q ↦ record {
            place = c.place;
            below = omega (arith, c.below);
            same = before c.place q ∙ c.same;
          }
          | no q ↦ record {
            place = suc c.place;
            below = omega (arith, c.below);
            same = after c.place (omega arith) c.below ∙ c.same;
          }
        ]
  ]

  -- neighbours are in order, wherever they stand
  put_step : (i j : ℕ) → i < j → j < suc n → get_or vs' i 0 < get_or vs' j 0
  put_step i zero a b = absurd (omega arith)
  put_step i (suc j) a b = elim (dec_lt (suc j) p) [
    | yes l ↦
        omega (arith, before i (omega arith), before (suc j) l, h.sorted i (suc j) a (omega arith))
    | no l ↦ elim (ℕ_discrete (suc j) p) [
      | yes e ↦
          let s : get_or vs' (suc j) 0 ≡ x = rw e self in
          omega (arith, before i (omega arith), s, smaller i (omega arith))
      | no e ↦
          let u = after j (omega arith) (omega arith) in
          elim (dec_lt i p) [
            | yes q ↦
                omega (arith, before i q, u, smaller i q, greater j (omega arith) (omega arith))
            | no q ↦ above_step i j (omega arith) (omega arith) (omega arith)
          ]
    ]
  ]

  pub put-Lists : Lists vs' (n + 1) (with_member x member)
  put-Lists = record {
    cells = length-put vs n x p h.cells few at;
    sorted = λ i j a b. put_step i j a (omega arith);
    sound = λ k l. put_member k (omega arith);
    complete = put_found;
  }

-- `insert_small` adds a member to the set that the array lists.
pub insert_small-Lists :
    (s : FastSet) (x : ℕ) (member : ℕ → Bool)
    → Lists s.values s.card member
    → s.card < 13
    → Lists (insert_small s x).values (insert_small s x).card (with_member x member)
      × ((insert_small s x).card ≤ s.card + 1)
      × (s.card ≤ (insert_small s x).card)
unfolding insert_small put
insert_small-Lists s x member h few = elim (Option-cases (place_from s.values x s.card 0)) [
  | inl e ↦
      let (k, l, same) = place-none s.values x s.card 0 e in
      rw (e, insert_small)
        (
          present-Lists s.values s.card x member h
              (record { place = k; below = omega arith; same = same }),
          omega arith,
          omega arith,
        )
  | inr (p, e) ↦
      let (a, b, c, d) = place-some s.values x s.card 0 e in
      let at : p ≤ s.card = omega arith in
      let greater : (k : ℕ) → p ≤ k → k < s.card → x < get_or s.values k 0 = λ k u v.
        elim (ℕ_discrete p k) [
          | yes q ↦ rw (← q) (d (omega arith))
          | no q ↦ omega (arith, d (omega arith), h.sorted p k (omega arith) v)
        ] in
      rw (e, insert_small)
        (
          put-Lists s.values s.card x p member h few at (λ k l. c k (omega arith) l) greater,
          omega arith,
          omega arith,
        )
]
