-- ===== src/Prelude/Lists.antt =====
-- C arrays as lists with native indices, under the library's names.
use Prim.Native.Nat.{ℕ, zero, suc, ◌≤◌, ◌<◌}
use mathlib.Core.Path.{◌≡◌, refl, sym, ap, ◌∙◌}
use mathlib.Core.Logic.{◌≢◌, inl, inr}
use mathlib.Core.Bool.{Bool, true, false}
use mathlib.Core.List.{List, [], ◌∷◌, map}
use mathlib.Core.Option
use mathlib.Core.Option.{Option, none, some}
use native.Mathlib.Omega.{arith}
use sandbox_predictor.Prelude.Tests.{if◌then◌else◌, Bool-cases, Option-cases}

module _ {ℓ} {A : Type ℓ} where
  abbrev pub length : List A → ℕ
  length [] = 0
  length (x ∷ xs) = suc (length xs)

  abbrev pub get_elem? : List A → ℕ → Option A
  get_elem? [] i = none
  get_elem? (x ∷ xs) zero = some x
  get_elem? (x ∷ xs) (suc i) = get_elem? xs i

  abbrev pub get_or : List A → ℕ → A → A
  get_or [] i d = d
  get_or (x ∷ xs) zero d = x
  get_or (x ∷ xs) (suc i) d = get_or xs i d

  -- A write out of bounds changes nothing.
  abbrev pub set : List A → ℕ → A → List A
  set [] i v = []
  set (x ∷ xs) zero v = v ∷ xs
  set (x ∷ xs) (suc i) v = x ∷ set xs i v

  abbrev pub take : ℕ → List A → List A
  take zero xs = []
  take (suc n) [] = []
  take (suc n) (x ∷ xs) = x ∷ take n xs

  abbrev pub replicate : ℕ → A → List A
  replicate zero a = []
  replicate (suc n) a = a ∷ replicate n a

  abbrev pub remove_at : ℕ → List A → List A
  remove_at i [] = []
  remove_at zero (x ∷ xs) = xs
  remove_at (suc i) (x ∷ xs) = x ∷ remove_at i xs

  -- `for (i = 0; i < n; i++) if (p(a[i])) { found = i; break; }`
  abbrev pub find_index : (A → Bool) → List A → Option ℕ
  find_index p [] = none
  find_index p (x ∷ xs) = let rest = find_index p xs in if p x then some 0 else Option.map suc rest

module _ {ℓ} {A : Type ℓ} where
  pub length-set : (xs : List A) (i : ℕ) (v : A) → length (set xs i v) ≡ length xs
  length-set [] i v = refl
  length-set (x ∷ xs) zero v = refl
  length-set (x ∷ xs) (suc i) v = ap suc (length-set xs i v)

  pub length-map {κ} : {B : Type κ} (f : A → B) (xs : List A) → length (map f xs) ≡ length xs
  length-map f [] = refl
  length-map f (x ∷ xs) = ap suc (length-map f xs)

  pub length-replicate : (n : ℕ) (a : A) → length (replicate n a) ≡ n
  length-replicate zero a = refl
  length-replicate (suc n) a = ap suc (length-replicate n a)

  pub length-remove_at :
      (i : ℕ) (xs : List A) → i < length xs → suc (length (remove_at i xs)) ≡ length xs
  length-remove_at i [] h = absurd (omega arith)
  length-remove_at zero (x ∷ xs) h = refl
  length-remove_at (suc i) (x ∷ xs) h = ap suc (length-remove_at i xs (omega arith))

  pub length-take : (n : ℕ) (xs : List A) → n ≤ length xs → length (take n xs) ≡ n
  length-take zero xs h = refl
  length-take (suc n) [] h = absurd (omega arith)
  length-take (suc n) (x ∷ xs) h = ap suc (length-take n xs (omega arith))

  pub take_all : (n : ℕ) (xs : List A) → length xs ≤ n → take n xs ≡ xs
  take_all zero [] h = refl
  take_all zero (x ∷ xs) h = absurd (omega arith)
  take_all (suc n) [] h = refl
  take_all (suc n) (x ∷ xs) h = ap (λ t. x ∷ t) (take_all n xs (omega arith))

module _ {ℓ} {A : Type ℓ} where
  pub get_elem?-lt : (xs : List A) (i : ℕ) {x : A} → get_elem? xs i ≡ some x → i < length xs
  get_elem?-lt [] i h = absurd (cc)
  get_elem?-lt (x ∷ xs) zero h = omega arith
  get_elem?-lt (x ∷ xs) (suc i) h = omega (arith, get_elem?-lt xs i h)

  pub get_elem?-of_lt : (xs : List A) (i : ℕ) → i < length xs → (x : A) × (get_elem? xs i ≡ some x)
  get_elem?-of_lt [] i h = absurd (omega arith)
  get_elem?-of_lt (x ∷ xs) zero h = (x, refl)
  get_elem?-of_lt (x ∷ xs) (suc i) h = get_elem?-of_lt xs i (omega arith)

  pub get_or-of_get_elem? :
      (xs : List A) (i : ℕ) (d : A) {x : A} → get_elem? xs i ≡ some x → get_or xs i d ≡ x
  get_or-of_get_elem? [] i d h = cc
  get_or-of_get_elem? (x ∷ xs) zero d h = cc
  get_or-of_get_elem? (x ∷ xs) (suc i) d h = get_or-of_get_elem? xs i d h

  pub get_elem?-set_self :
      (xs : List A) (i : ℕ) (v : A) → i < length xs → get_elem? (set xs i v) i ≡ some v
  get_elem?-set_self [] i v h = absurd (omega arith)
  get_elem?-set_self (x ∷ xs) zero v h = refl
  get_elem?-set_self (x ∷ xs) (suc i) v h = get_elem?-set_self xs i v (omega arith)

  pub get_elem?-set_ne :
      (xs : List A) (i j : ℕ) (v : A) → i ≢ j → get_elem? (set xs i v) j ≡ get_elem? xs j
  get_elem?-set_ne [] i j v h = refl
  get_elem?-set_ne (x ∷ xs) zero zero v h = absurd (h refl)
  get_elem?-set_ne (x ∷ xs) zero (suc j) v h = refl
  get_elem?-set_ne (x ∷ xs) (suc i) zero v h = refl
  get_elem?-set_ne (x ∷ xs) (suc i) (suc j) v h = get_elem?-set_ne xs i j v (λ e. h (ap suc e))

  pub get_elem?-map {κ} :
      {B : Type κ} (f : A → B) (xs : List A) (i : ℕ)
      → get_elem? (map f xs) i ≡ Option.map f (get_elem? xs i)
  get_elem?-map f [] i = refl
  get_elem?-map f (x ∷ xs) zero = refl
  get_elem?-map f (x ∷ xs) (suc i) = get_elem?-map f xs i

  pub get_elem?-take :
      (n : ℕ) (xs : List A) (i : ℕ) → i < n → get_elem? (take n xs) i ≡ get_elem? xs i
  get_elem?-take zero xs i h = absurd (omega arith)
  get_elem?-take (suc n) [] i h = refl
  get_elem?-take (suc n) (x ∷ xs) zero h = refl
  get_elem?-take (suc n) (x ∷ xs) (suc i) h = get_elem?-take n xs i (omega arith)

  pub get_elem?-remove_at_lt :
      (k : ℕ) (xs : List A) (i : ℕ) → i < k → get_elem? (remove_at k xs) i ≡ get_elem? xs i
  get_elem?-remove_at_lt k [] i h = refl
  get_elem?-remove_at_lt zero (x ∷ xs) i h = absurd (omega arith)
  get_elem?-remove_at_lt (suc k) (x ∷ xs) zero h = refl
  get_elem?-remove_at_lt (suc k) (x ∷ xs) (suc i) h = get_elem?-remove_at_lt k xs i (omega arith)

  pub get_elem?-remove_at_ge :
      (k : ℕ) (xs : List A) (i : ℕ) → k ≤ i → get_elem? (remove_at k xs) i ≡ get_elem? xs (suc i)
  get_elem?-remove_at_ge k [] i h = refl
  get_elem?-remove_at_ge zero (x ∷ xs) i h = refl
  get_elem?-remove_at_ge (suc k) (x ∷ xs) zero h = absurd (omega arith)
  get_elem?-remove_at_ge (suc k) (x ∷ xs) (suc i) h = get_elem?-remove_at_ge k xs i (omega arith)

module _ {ℓ} {A : Type ℓ} (p : A → Bool) where
  -- What a scan finds satisfies the test.
  pub find_index-some :
      (xs : List A) {i : ℕ}
      → find_index p xs ≡ some i
      → (x : A) × (get_elem? xs i ≡ some x) × (p x ≡ true)
  find_index-some [] h = absurd (cc)
  find_index-some (x ∷ xs) {i} h = elim (Bool-cases (p x)) [
    | inl e ↦ let e' : 0 ≡ i = ground arith in (x, ap (λ k. get_elem? (x ∷ xs) k) (sym e'), e)
    | inr e ↦ elim (Option-cases (find_index p xs)) [
      | inl q ↦ absurd (ground arith)
      | inr (j, q) ↦
          let (y, g, t) = find_index-some xs q in
          let e' : suc j ≡ i = ground arith in (y, ap (λ k. get_elem? (x ∷ xs) k) (sym e') ∙ g, t)
    ]
  ]

  -- A scan that finds nothing has passed every element by.
  pub find_index-none :
      (xs : List A) (i : ℕ) {x : A} → find_index p xs ≡ none → get_elem? xs i ≡ some x → p x ≡ false
  find_index-none [] i h g = absurd (cc)
  find_index-none (x ∷ xs) zero h g = ground arith
  find_index-none (x ∷ xs) (suc i) h g = find_index-none xs i (ground arith) g

  -- A scan finds something where an element satisfies the test.
  pub find_index-exists :
      (xs : List A) (i : ℕ) {x : A}
      → get_elem? xs i ≡ some x
      → p x ≡ true
      → (j : ℕ) × (find_index p xs ≡ some j)
  find_index-exists xs i g h = elim (Option-cases (find_index p xs)) [
    | inl q ↦ absurd (ground (arith, find_index-none xs i q g))
    | inr r ↦ r
  ]

  -- A scan stops at the first element that satisfies the test.
  pub find_index-first :
      (xs : List A) (i : ℕ) {j : ℕ} {x : A}
      → find_index p xs ≡ some j
      → get_elem? xs i ≡ some x
      → i < j
      → p x ≡ false
  find_index-first [] i h g l = absurd (cc)
  find_index-first (x ∷ xs) zero h g l = ground arith
  find_index-first (x ∷ xs) (suc i) h g l = elim (Bool-cases (p x)) [
    | inl e ↦ absurd (ground arith)
    | inr e ↦ elim (Option-cases (find_index p xs)) [
      | inl q ↦ absurd (ground arith)
      | inr (m, q) ↦ find_index-first xs i q g (ground arith)
    ]
  ]

module _ {ℓ} {A : Type ℓ} where
  pub get_elem?-take-some :
      (n : ℕ) (xs : List A) (i : ℕ) {x : A}
      → get_elem? (take n xs) i ≡ some x
      → get_elem? xs i ≡ some x
  get_elem?-take-some zero xs i h = absurd (cc)
  get_elem?-take-some (suc n) [] i h = h
  get_elem?-take-some (suc n) (x ∷ xs) zero h = h
  get_elem?-take-some (suc n) (x ∷ xs) (suc i) h = get_elem?-take-some n xs i h

  pub get_or-out : (xs : List A) (i : ℕ) (d : A) → length xs ≤ i → get_or xs i d ≡ d
  get_or-out [] i d h = refl
  get_or-out (x ∷ xs) zero d h = absurd (omega arith)
  get_or-out (x ∷ xs) (suc i) d h = get_or-out xs i d (omega arith)

  pub length-take_le :
      (n : ℕ) (xs : List A) → (length (take n xs) ≤ n) × (length (take n xs) ≤ length xs)
  length-take_le zero xs = omega arith
  length-take_le (suc n) [] = omega arith
  length-take_le (suc n) (x ∷ xs) = omega (arith, length-take_le n xs)

  pub get_or-set_self :
      (xs : List A) (i : ℕ) (v d : A) → i < length xs → get_or (set xs i v) i d ≡ v
  get_or-set_self [] i v d h = absurd (omega arith)
  get_or-set_self (x ∷ xs) zero v d h = refl
  get_or-set_self (x ∷ xs) (suc i) v d h = get_or-set_self xs i v d (omega arith)

  pub get_or-set_ne :
      (xs : List A) (i j : ℕ) (v d : A) → i ≢ j → get_or (set xs i v) j d ≡ get_or xs j d
  get_or-set_ne [] i j v d h = refl
  get_or-set_ne (x ∷ xs) zero zero v d h = absurd (h refl)
  get_or-set_ne (x ∷ xs) zero (suc j) v d h = refl
  get_or-set_ne (x ∷ xs) (suc i) zero v d h = refl
  get_or-set_ne (x ∷ xs) (suc i) (suc j) v d h = get_or-set_ne xs i j v d (λ e. h (ap suc e))
