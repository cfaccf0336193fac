-- ===== src/FastSet/Tests.antt =====
-- Runs of the small integer sets.
use sandbox_predictor.Prelude.{
  ℕ, ◌/◌, ◌≤◌, ◌<◌, ◌≡◌, refl, Bool, true, false, ◌&&◌, ◌||◌, some, List, [], ◌∷◌, arith, ltb,
  Bool-cases, inl, inr, ℕ_discrete,
}
use sandbox_predictor.Prelude.Digits.{digit}
use sandbox_predictor.FastSet.{construct, insert_all, search, join, expand}
use sandbox_predictor.FastSet.Words.{elem}
use sandbox_predictor.FastSet.Refine.{Holds, construct-Holds}
use sandbox_predictor.FastSet.Search.{inserts-search, insert_all-Holds}
use sandbox_predictor.FastSet.Join.{join-Holds}
use sandbox_predictor.FastSet.Expand.{Increases, expand-members}

-- the numbers of a list are below a bound
abbrev all_lt : ℕ → List ℕ → Bool
all_lt n [] = true
all_lt n (x ∷ xs) = ltb x n && all_lt n xs

elem-lt : (n : ℕ) (xs : List ℕ) → all_lt n xs ≡ true → (k : ℕ) → elem k xs ≡ true → k < n
elem-lt n [] a k e = absurd (cc)
elem-lt n (x ∷ xs) a k e = elim (ℕ_discrete k x) [
  | yes q ↦ ground arith
  | no q ↦ elem-lt n xs (ground arith) k (ground arith)
]

-- a small set and one that has turned into bits
abbrev few : List ℕ
few = 300 ∷ 7 ∷ 40 ∷ 7 ∷ 2 ∷ 511 ∷ 64 ∷ []

abbrev many : List ℕ
many = 90 ∷ 4 ∷ 88 ∷ 3 ∷ 63 ∷ 64 ∷ 12 ∷ 13 ∷ 14 ∷ 15 ∷ 16 ∷ 17 ∷ 18 ∷ 100 ∷ 19 ∷ []

small_run : search (insert_all construct few) 40 ≡ some true
unfolding search insert_all construct
small_run = refl

large_run :
    expand (insert_all construct many) 128
    ≡ some (3 ∷ 4 ∷ 12 ∷ 13 ∷ 14 ∷ 15 ∷ 16 ∷ 17 ∷ 18 ∷ 19 ∷ 63 ∷ 64 ∷ 88 ∷ 90 ∷ 100 ∷ [])
unfolding expand insert_all construct digit
large_run = refl

inserts-search_example : search (insert_all construct few) 40 ≡ some (elem 40 few)
inserts-search_example = inserts-search few 40 (elem-lt 512 few refl) (omega arith)

few-Holds : Holds (insert_all construct few) (λ y. elem y few || false)
few-Holds = insert_all-Holds few construct (λ y. false) construct-Holds (elem-lt 512 few refl)

many-Holds : Holds (insert_all construct many) (λ y. elem y many || false)
many-Holds = insert_all-Holds many construct (λ y. false) construct-Holds (elem-lt 512 many refl)

many-lt : (y : ℕ) → (elem y many || false) ≡ true → y < 128
many-lt y e = elim (Bool-cases (elem y many)) [
  | inl t ↦ elem-lt 128 many refl y t
  | inr t ↦ absurd (alone (elem y many) t e)
]
  where
    alone : (b : Bool) → b ≡ false → (b || false) ≡ true → ⊥
    alone true p q = cc
    alone false p q = cc

many_within : (y : ℕ) → (elem y many || false) ≡ true → y / 64 ≤ 100 / 64
many_within y e = omega (arith, many-lt y e)

join-Holds_example :
    Holds
      (join (insert_all construct few) (insert_all construct many) 100)
      (λ y. (elem y few || false) || (elem y many || false))
join-Holds_example =
    join-Holds (insert_all construct few) (insert_all construct many) 100 (λ y. elem y few || false)
      (λ y. elem y many || false) few-Holds many-Holds (omega arith) many_within

expand-members_example :
    (v : List ℕ) × (expand (insert_all construct many) 128 ≡ some v)
    × ((y : ℕ) → elem y v ≡ (elem y many || false))
    × Increases v
expand-members_example =
    expand-members (insert_all construct many) 128 (λ y. elem y many || false) many-Holds
      (omega arith) many-lt
