-- ===== src/FastSet/Find.antt =====
-- The two searches of a sorted array agree with the set that it lists.
use sandbox_predictor.Prelude.{
  ℕ, zero, suc, ◌+◌, ◌-◌, ◌/◌, ◌≤◌, ◌<◌, ◌≡◌, ◌≢◌, refl, sym, ap, ◌∙◌, Bool, true, false, some,
  List, inl, inr, arith, ltb, ◌==◌, get_or, Bool-cases, ℕ_discrete, dec_lt,
}
use sandbox_predictor.FastSet.{linear_from, binary}
use sandbox_predictor.FastSet.Values.{Contains, Lists}

-- what a search has found out: a place of `x`, or that no value is `x`
abbrev pub Finds : List ℕ → ℕ → ℕ → Bool → Type 0
Finds vs n x true = Contains vs n x
Finds vs n x false = (k : ℕ) → k < n → get_or vs k 0 ≢ x

pub Finds-member :
    (vs : List ℕ) (n x : ℕ) (member : ℕ → Bool) (b : Bool)
    → Lists vs n member
    → Finds vs n x b
    → b ≡ member x
Finds-member vs n x member true h c = sym (ap member (sym c.same) ∙ h.sound c.place c.below)
Finds-member vs n x member false h none_is = elim (Bool-cases (member x)) [
  | inl e ↦ let c = h.complete x e in absurd (none_is c.place c.below c.same)
  | inr e ↦ sym e
]

module _ (vs : List ℕ) (n x : ℕ) (member : ℕ → Bool) (h : Lists vs n member) where
  -- values above `x` from one place on
  above_from : (i : ℕ) → x < get_or vs i 0 → (k : ℕ) → i ≤ k → k < n → x < get_or vs k 0
  above_from i l k a b = elim (ℕ_discrete i k) [
    | yes e ↦ rw (← e) l
    | no e ↦ omega (arith, h.sorted i k (omega arith) b)
  ]

  below_to : (i : ℕ) → get_or vs i 0 < x → i < n → (k : ℕ) → k ≤ i → get_or vs k 0 < x
  below_to i l b k a = elim (ℕ_discrete k i) [
    | yes e ↦ rw e l
    | no e ↦ omega (arith, h.sorted k i (omega arith) b)
  ]

  pub linear_from-Finds :
      (rounds i : ℕ)
      → i + rounds ≡ n
      → ((k : ℕ) → k < i → get_or vs k 0 < x)
      → Finds vs n x (linear_from vs x rounds i)
  unfolding linear_from
  linear_from-Finds zero i e below = λ k l f. omega (arith, below k (omega arith))
  linear_from-Finds (suc rounds) i e below = elim (dec_lt x (get_or vs i 0)) [
    | yes l ↦
        let t : ltb x (get_or vs i 0) ≡ true = ground arith in
        rw (t, linear_from)
          (λ k m f. elim (dec_lt k i) [
            | yes q ↦ omega (arith, below k q)
            | no q ↦ omega (arith, above_from i l k (omega arith) m)
          ])
    | no l ↦
        let t : ltb x (get_or vs i 0) ≡ false = ground arith in
        elim (ℕ_discrete (get_or vs i 0) x) [
          | yes q ↦
              let u : (get_or vs i 0 == x) ≡ true = ground arith in
              rw (t, linear_from) (rw u (record { place = i; below = omega arith; same = q }))
          | no q ↦
              let u : (get_or vs i 0 == x) ≡ false = ground arith in
              rw (t, linear_from)
                (rw u (
                  linear_from-Finds rounds (i + 1) (omega arith)
                    (λ k m. below_to i (omega arith) (omega arith) k (omega arith))))
        ]
  ]

  -- what the search promises of a range
  abbrev pub Searches : ℕ → ℕ → ℕ → Type 0
  Searches fuel begin end =
      begin < end
      → end ≤ n
      → end - begin ≤ fuel
      → ((k : ℕ) → k < begin → get_or vs k 0 < x)
      → ((k : ℕ) → end ≤ k → k < n → x < get_or vs k 0)
      → (b : Bool) × (binary fuel vs x begin end ≡ some b) × Finds vs n x b

  -- a range that is used up
  nothing_left :
      (i j : ℕ)
      → j ≤ i
      → ((k : ℕ) → k < i → get_or vs k 0 < x)
      → ((k : ℕ) → j ≤ k → k < n → x < get_or vs k 0)
      → Finds vs n x false
  nothing_left i j l lo hi k m f = elim (dec_lt k i) [
    | yes q ↦ omega (arith, lo k q)
    | no q ↦ omega (arith, hi k (omega arith) m)
  ]

  binary_step :
      (fuel begin end middle : ℕ)
      → middle ≡ (begin + end - 1) / 2
      → begin < end
      → end ≤ n
      → end - begin ≤ suc fuel
      → ((k : ℕ) → k < begin → get_or vs k 0 < x)
      → ((k : ℕ) → end ≤ k → k < n → x < get_or vs k 0)
      → Searches fuel begin middle
      → Searches fuel (middle + 1) end
      → (b : Bool) × (binary (suc fuel) vs x begin end ≡ some b) × Finds vs n x b
  unfolding binary
  binary_step fuel begin end middle def a c m lo hi below above =
      elim (dec_lt x (get_or vs middle 0)) [
        | yes l ↦
            let hi' : (k : ℕ) → middle ≤ k → k < n → x < get_or vs k 0 = above_from middle l in
            elim (dec_lt begin middle) [
              | yes q ↦
                  let (b, e, f) = below q (omega arith) (omega arith) lo hi' in
                  (b, rw (← def) (ground arith), f)
              | no q ↦
                  (false, rw (← def) (ground arith), nothing_left begin middle (omega arith) lo hi')
            ]
        | no l ↦ elim (dec_lt (get_or vs middle 0) x) [
          | yes g ↦
              let lo' : (k : ℕ) → k < middle + 1 → get_or vs k 0 < x =
                λ k u. below_to middle g (omega arith) k (omega arith) in
              elim (dec_lt (middle + 1) end) [
                | yes q ↦
                    let (b, e, f) = above q c (omega arith) lo' hi in
                    (b, rw (← def) (ground arith), f)
                | no q ↦ (
                  false,
                  rw (← def) (ground arith),
                  nothing_left (middle + 1) end (omega arith) lo' hi,
                )
              ]
          | no g ↦ (
            true,
            rw (← def) (ground arith),
            record { place = middle; below = omega arith; same = omega arith },
          )
        ]
      ]

  -- The binary search ends while there is fuel for the range, with the right answer.
  pub binary-Finds : (fuel begin end : ℕ) → Searches fuel begin end
  binary-Finds zero begin end = λ a c m lo hi. absurd (omega arith)
  binary-Finds (suc fuel) begin end = λ a c m lo hi.
      binary_step fuel begin end ((begin + end - 1) / 2) refl a c m lo hi
        (binary-Finds fuel begin ((begin + end - 1) / 2))
        (binary-Finds fuel ((begin + end - 1) / 2 + 1) end)
