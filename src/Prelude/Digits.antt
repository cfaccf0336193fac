-- ===== src/Prelude/Digits.antt =====
-- A binary digit of a number, as `(x >> k) & 1` reads it, and what `|` does to it.
use Prim.Native.Nat.{ℕ, zero, suc, ◌+◌, ◌*◌, ◌/◌, ◌%◌, ◌^◌, ◌<◌, max, bit_and, bit_or}
use mathlib.Core.Path.{◌≡◌, refl, sym, ap, ◌∙◌}
use mathlib.Core.Bool.{Bool, false, ◌||◌}
use native.Mathlib.Nat.{mul_assoc, pow-suc, pow-succ', div-div-eq-div-mul, zero-div}
use native.Mathlib.Omega.{arith}
use sandbox_predictor.Prelude.Tests.{◌==◌}
use sandbox_predictor.Prelude.Bits.{bit_or_step, bit_or-zero, bit_and-ones}

-- digit `k` of `x`
unfoldable pub digit : ℕ → ℕ → Bool
digit x k = bit_and (x / 2 ^ k) 1 == 1

pub digit_lem : (x k : ℕ) → digit x k ≡ (x / 2 ^ k % 2 == 1)
unfolding digit
digit_lem x k = ap (λ t. t == 1) (bit_and-ones 1 (x / 2 ^ k))

div-pow-suc : (x k : ℕ) → x / 2 ^ suc k ≡ x / 2 / 2 ^ k
div-pow-suc x k = ap (λ (t : ℕ). x / t) (pow-succ' 2 k) ∙ sym (div-div-eq-div-mul x 2 (2 ^ k))

pub digit-0 : (x : ℕ) → digit x 0 ≡ (x % 2 == 1)
digit-0 x = digit_lem x 0 ∙ ap (λ t. t % 2 == 1) (let e : x / 2 ^ 0 ≡ x = omega arith in e)

pub digit-suc : (x k : ℕ) → digit x (suc k) ≡ digit (x / 2) k
digit-suc x k =
    digit_lem x (suc k) ∙ ap (λ t. t % 2 == 1) (div-pow-suc x k) ∙ sym (digit_lem (x / 2) k)

parity : ℕ → Bool
parity x = x % 2 == 1

max-bits : (a b : ℕ) → a < 2 → b < 2 → max a b < 2
max-bits a b p q = omega arith

parity-max : (a b q : ℕ) → a < 2 → b < 2 → ((q * 2 + max a b) % 2 == 1) ≡ ((a == 1) || (b == 1))
parity-max a b q p r = ground arith

pub digit-bit_or : (x y k : ℕ) → digit (bit_or x y) k ≡ (digit x k || digit y k)
digit-bit_or x y zero =
    rw (digit-0 (bit_or x y), digit-0 x, digit-0 y)
      (rw (bit_or_step x y)
        (parity-max (x % 2) (y % 2) (bit_or (x / 2) (y / 2)) (omega arith) (omega arith)))
digit-bit_or x y (suc k) =
    let half : bit_or x y / 2 ≡ bit_or (x / 2) (y / 2) =
      omega (arith, bit_or_step x y, max-bits (x % 2) (y % 2) (omega arith) (omega arith)) in
    rw (digit-suc (bit_or x y) k, digit-suc x k, digit-suc y k, half)
      (digit-bit_or (x / 2) (y / 2) k)

pub digit-zero : (k : ℕ) → digit 0 k ≡ false
digit-zero k = digit_lem 0 k ∙ ap (λ t. t % 2 == 1) (zero-div (2 ^ k))

half-pow : (j : ℕ) → 2 ^ suc j / 2 ≡ 2 ^ j
half-pow j = omega (arith, pow-suc 2 j)

pub digit-pow : (j k : ℕ) → digit (2 ^ j) k ≡ (k == j)
unfolding digit
digit-pow zero zero = refl
digit-pow zero (suc k) = digit-suc 1 k ∙ digit-zero k ∙ ground arith
digit-pow (suc j) zero =
    digit_lem (2 ^ suc j) 0
    ∙ (let even : 2 ^ suc j % 2 ≡ 0 = omega (arith, pow-suc 2 j) in ground (arith))
digit-pow (suc j) (suc k) =
    digit-suc (2 ^ suc j) k ∙ ap (λ t. digit t k) (half-pow j) ∙ digit-pow j k ∙ ground arith

-- `|` of a number that is shifted up and one that fits below it.
pub bit_or_disjoint : (k a b : ℕ) → b < 2 ^ k → bit_or (a * 2 ^ k) b ≡ a * 2 ^ k + b
bit_or_disjoint zero a b l =
    let z : b ≡ 0 = omega arith in rw z (bit_or-zero (a * 2 ^ 0) ∙ omega arith)
bit_or_disjoint (suc k) a b l =
    let e : a * 2 ^ suc k ≡ a * 2 ^ k * 2 =
      ap (λ (t : ℕ). a * t) (pow-suc 2 k) ∙ sym (mul_assoc a (2 ^ k) 2) in
    let half : a * 2 ^ k * 2 / 2 ≡ a * 2 ^ k = omega arith in
    let low : a * 2 ^ k * 2 % 2 ≡ 0 = omega arith in
    rw e (
      bit_or_step (a * 2 ^ k * 2) b
      ∙ rw (half, low, bit_or_disjoint k a (b / 2) (omega (arith, pow-suc 2 k))) (omega arith))
