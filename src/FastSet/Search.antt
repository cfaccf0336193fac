-- ===== src/FastSet/Search.antt =====
-- `search` of `fastset` finds what `insert` put in.
use sandbox_predictor.Prelude.{
  ℕ, ◌<◌, ◌≡◌, refl, sym, ap, ◌∙◌, Bool, true, false, ◌||◌, some, List, [], ◌∷◌, arith, ltb, ◌==◌,
  get_or, ℕ_discrete, dec_lt,
}
use mathlib.Core.Path.{subst, fun_ext}
use sandbox_predictor.FastSet.{
  FastSet, construct, insert, search, search_small, search_small_linear, insert_all,
}
use sandbox_predictor.FastSet.Values.{Lists}
use sandbox_predictor.FastSet.Find.{Finds, Finds-member, linear_from-Finds, binary-Finds}
use sandbox_predictor.FastSet.Words.{elem}
use sandbox_predictor.FastSet.Refine.{Holds, construct-Holds, insert-Holds, none_listed}

single :
    (vs : List ℕ) (n y : ℕ) (member : ℕ → Bool)
    → Lists vs n member
    → n ≡ 1
    → (get_or vs 0 0 == y) ≡ member y
single vs n y member h e = Finds-member vs n y member (get_or vs 0 0 == y) h found
  where
    found : Finds vs n y (get_or vs 0 0 == y)
    found = elim (ℕ_discrete (get_or vs 0 0) y) [
      | yes q ↦
          let t : (get_or vs 0 0 == y) ≡ true = ground arith in
          rw t (record { place = 0; below = omega arith; same = q })
      | no q ↦
          let t : (get_or vs 0 0 == y) ≡ false = ground arith in
          rw t (λ k l f. let z : k ≡ 0 = omega arith in q (ap (λ i. get_or vs i 0) (sym z) ∙ f))
    ]

-- the searches of a set with fewer than thirteen members
small_search :
    (s : FastSet) (y : ℕ) (member : ℕ → Bool)
    → Lists s.values s.card member
    → s.card < 13
    → search s y ≡ some (member y)
unfolding search search_small search_small_linear
small_search s y member h q = elim (ℕ_discrete s.card 0) [
  | yes e ↦
      let t : (s.card == 0) ≡ true = ground arith in
      rw (t, search) (ap some (sym (none_listed s.values s.card member y h e)))
  | no n ↦
      let t : (s.card == 0) ≡ false = ground arith in
      let v : ltb s.card 13 ≡ true = ground arith in
      elim (ℕ_discrete s.card 1) [
        | yes e ↦
            let u : (s.card == 1) ≡ true = ground arith in
            rw (t, search) (rw u (ap some (single s.values s.card y member h e)))
        | no m ↦
            let u : (s.card == 1) ≡ false = ground arith in
            elim (dec_lt s.card 6) [
              | yes few ↦
                  let w : ltb s.card 6 ≡ true = ground arith in
                  rw (t, search)
                    (rw u (
                      rw v (
                        rw w (
                          ap some (
                            Finds-member s.values s.card y member _ h (
                              linear_from-Finds s.values s.card y member h s.card 0 (omega arith)
                                (λ k l. absurd (omega arith))))))))
              | no many ↦
                  let w : ltb s.card 6 ≡ false = ground arith in
                  let (b, e, f) =
                    binary-Finds s.values s.card y member h s.card 0 s.card (omega arith)
                      (omega arith) (omega arith) (λ k l. absurd (omega arith))
                      (λ k l r. absurd (omega arith)) in
                  rw (t, search)
                    (rw u (rw v (rw w (e ∙ ap some (Finds-member s.values s.card y member b h f)))))
            ]
      ]
]

-- `search` of a set for a number below 512 ends, its binary search included, and answers whether the
-- number is a member.
pub search-Holds :
    (s : FastSet) (y : ℕ) (member : ℕ → Bool)
    → Holds s member
    → y < 512
    → search s y ≡ some (member y)
unfolding search
search-Holds s y member h below = elim (dec_lt s.card 13) [
  | no q ↦
      let t : (s.card == 0) ≡ false = ground arith in
      let u : (s.card == 1) ≡ false = ground arith in
      let v : ltb s.card 13 ≡ false = ground arith in
      let w : ltb y 512 ≡ true = ground arith in
      rw (t, search) (rw u (rw v (rw w (ap some (h.large (omega (arith, h.top)) y)))))
  | yes q ↦ small_search s y member (h.small q) q
]

swap_or : (a b c : Bool) → (a || (b || c)) ≡ ((b || a) || c)
swap_or true b c = ground arith
swap_or false b c = ground arith

or_false : (b : Bool) → (b || false) ≡ b
or_false true = refl
or_false false = refl

-- the members after a list of insertions
pub insert_all-Holds :
    (xs : List ℕ) (s : FastSet) (member : ℕ → Bool)
    → Holds s member
    → ((k : ℕ) → elem k xs ≡ true → k < 512)
    → Holds (insert_all s xs) (λ y. elem y xs || member y)
unfolding insert_all
insert_all-Holds [] s member h b = h
insert_all-Holds (x ∷ xs) s member h b =
    subst (Holds (insert_all (insert s x) xs))
      (fun_ext (λ y. swap_or (elem y xs) (y == x) (member y)))
      (insert_all-Holds xs (insert s x) (λ y. (y == x) || member y)
        (insert-Holds s x member h (b x (ground arith))) (λ k e. b k (ground arith)))

-- A search of a set that starts empty, for a number below 512, finds exactly the numbers that were
-- inserted, all of them below 512, in whatever order and however often they came.
pub inserts-search :
    (xs : List ℕ) (y : ℕ)
    → ((k : ℕ) → elem k xs ≡ true → k < 512)
    → y < 512
    → search (insert_all construct xs) y ≡ some (elem y xs)
inserts-search xs y b below =
    search-Holds (insert_all construct xs) y (λ k. elem k xs || false)
      (insert_all-Holds xs construct (λ k. false) construct-Holds b) below
    ∙ ap some (or_false (elem y xs))
