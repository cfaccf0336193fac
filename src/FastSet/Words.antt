-- ===== src/FastSet/Words.antt =====
-- The bit array of a large set: `setbit` adds one member, and `smalltobit` those of the small set.
use sandbox_predictor.Prelude.{
  ℕ, zero, suc, ◌/◌, ◌%◌, ◌^◌, ◌≤◌, ◌<◌, ◌≡◌, ◌≢◌, refl, sym, ap, ◌∙◌, Bool, true, false, ◌||◌,
  List, [], ◌∷◌, arith, ◌==◌, get_or, set, length, length-set, take, replicate, get_or-set_self,
  get_or-set_ne, ℕ_discrete,
}
use sandbox_predictor.Prelude.Bits.{bit_and-ones}
use sandbox_predictor.Prelude.Digits.{digit, digit-bit_or, digit-pow, digit-zero}
use Prim.Native.Nat.{bit_or}
use sandbox_predictor.FastSet.{setbit, getbit, set_all, max_size}
use sandbox_predictor.FastSet.Find.{Finds}

-- the word and the bit of a number
pub getbit_lem : (bits : List ℕ) (y : ℕ) → getbit bits y ≡ digit (get_or bits (y / 64) 0) (y % 64)
unfolding getbit
getbit_lem bits y = ap (digit (get_or bits (y / 64) 0)) (bit_and-ones 6 y)

setbit_lem :
    (bits : List ℕ) (x : ℕ)
    → setbit bits x ≡ set bits (x / 64) (bit_or (get_or bits (x / 64) 0) (2 ^ (x % 64)))
unfolding setbit
setbit_lem bits x =
    ap (λ t. set bits (x / 64) (bit_or (get_or bits (x / 64) 0) (2 ^ t))) (bit_and-ones 6 x)

pub length-setbit : (bits : List ℕ) (x : ℕ) → length (setbit bits x) ≡ length bits
unfolding setbit
length-setbit bits x = length-set bits (x / 64) _

pub getbit-setbit :
    (bits : List ℕ) (x y : ℕ)
    → length bits ≡ 8
    → x < 512
    → getbit (setbit bits x) y ≡ ((y == x) || getbit bits y)
getbit-setbit bits x y l a = elim (ℕ_discrete (y / 64) (x / 64)) [
  | yes e ↦
      let w : ℕ = get_or bits (x / 64) 0 in
      let same : (y % 64 == x % 64) ≡ (y == x) = ground arith in
      let old : getbit bits y ≡ digit w (y % 64) = getbit_lem bits y ∙ rw e (refl) in
      rw (getbit_lem (setbit bits x) y, e, setbit_lem bits x)
        (ap (λ t. digit t (y % 64)) (get_or-set_self bits (x / 64) _ 0 (omega arith))
          ∙ digit-bit_or w (2 ^ (x % 64)) (y % 64)
          ∙ ap (λ t. digit w (y % 64) || t) (digit-pow (x % 64) (y % 64) ∙ same)
          ∙ ground (arith, old))
  | no n ↦
      let differ : (y == x) ≡ false = ground arith in
      rw (getbit_lem (setbit bits x) y, setbit_lem bits x, differ)
        (ap (λ t. digit t (y % 64)) (get_or-set_ne bits (x / 64) (y / 64) _ 0 (λ e. n (sym e)))
          ∙ sym (getbit_lem bits y))
]

zeros : (n i : ℕ) → get_or {A = ℕ} (replicate n 0) i 0 ≡ 0
zeros zero i = refl
zeros (suc n) zero = refl
zeros (suc n) (suc i) = zeros n i

getbit-zeros : (n y : ℕ) → getbit (replicate n 0) y ≡ false
getbit-zeros n y =
    getbit_lem (replicate n 0) y
    ∙ ap (λ t. digit t (y % 64)) (zeros n (y / 64))
    ∙ digit-zero (y % 64)

-- membership in a list
abbrev pub elem : ℕ → List ℕ → Bool
elem y [] = false
elem y (x ∷ xs) = (y == x) || elem y xs

shift :
    (x : ℕ) (vs : List ℕ) (n y : ℕ) (b : Bool) → y ≢ x → Finds vs n y b → Finds (x ∷ vs) (suc n) y b
shift x vs n y true d c = record {
  place = suc c.place;
  below = omega (arith, c.below);
  same = c.same;
}
shift x vs n y false d f = λ k l e. elsewhere k l e
  where
    elsewhere : (k : ℕ) → k < suc n → get_or (x ∷ vs) k 0 ≡ y → ⊥
    elsewhere zero l e = d (sym e)
    elsewhere (suc k) l e = f k (omega arith) e

pub elem-take-Finds : (vs : List ℕ) (n y : ℕ) → n ≤ length vs → Finds vs n y (elem y (take n vs))
elem-take-Finds vs zero y h = λ k l e. omega arith
elem-take-Finds [] (suc n) y h = absurd (omega arith)
elem-take-Finds (x ∷ vs) (suc n) y h = elim (ℕ_discrete y x) [
  | yes e ↦
      let t : ((y == x) || elem y (take n vs)) ≡ true = ground arith in
      rw t (record { place = 0; below = omega arith; same = sym e })
  | no d ↦
      let t : (y == x) ≡ false = ground arith in
      rw t (shift x vs n y (elem y (take n vs)) d (elem-take-Finds vs n y (omega arith)))
]

pub length-set_all : (bits xs : List ℕ) → length (set_all bits xs) ≡ length bits
unfolding set_all
length-set_all bits [] = refl
length-set_all bits (x ∷ xs) = length-set_all (setbit bits x) xs ∙ length-setbit bits x

pub getbit-set_all :
    (bits xs : List ℕ) (y : ℕ)
    → length bits ≡ 8
    → ((k : ℕ) → elem k xs ≡ true → k < 512)
    → getbit (set_all bits xs) y ≡ (elem y xs || getbit bits y)
unfolding set_all
getbit-set_all bits [] y l b = refl
getbit-set_all bits (x ∷ xs) y l b =
    getbit-set_all (setbit bits x) xs y (length-setbit bits x ∙ l) (λ k e. b k (ground arith))
    ∙ ap (λ t. elem y xs || t) (getbit-setbit bits x y l (b x (ground arith)))
    ∙ ground arith

-- the bit array that `smalltobit` makes
pub getbit-fresh :
    (xs : List ℕ) (y : ℕ)
    → ((k : ℕ) → elem k xs ≡ true → k < 512)
    → getbit (set_all (replicate (max_size / 64) 0) xs) y ≡ elem y xs
getbit-fresh xs y b =
    getbit-set_all (replicate 8 0) xs y refl b
    ∙ ap (λ t. elem y xs || t) (getbit-zeros 8 y)
    ∙ ground arith
