-- ===== src/Prelude/Bits.antt =====
-- Laws of the bit operations on native numbers, from the recursion on binary digits.
use Prim.Native.Nat.{
  ℕ, zero, suc, ◌+◌, ◌-◌, ◌*◌, ◌/◌, ◌%◌, ◌^◌, ◌≤◌, ◌<◌, ◌∣◌, min, max, digits, differ, bit_and,
  bit_or, bit_xor, bit_and-bitwise, bit_or-bitwise, bit_xor-bitwise,
}
use mathlib.Core.Path.{◌≡◌, refl, sym, ap, ap₂, ◌∙◌}
use native.Mathlib.Nat.{
  pow-suc, div-add-mod, mod-eq_of_lt, add-mul-mod_self_left, dvd_refl, dvd-mul_right_of_dvd,
}
use native.Mathlib.Omega.{arith}

-- The recursion on digits gives one result for every number of rounds that empties its left argument.
module _ (z : ℕ → ℕ) (f : ℕ → ℕ → ℕ) where
  digits-empty : (k y : ℕ) → digits z f k 0 y ≡ z y
  digits-empty zero y = refl
  digits-empty (suc k) y = refl

  rounds_agree : (x y k l : ℕ) → x ≤ k → x ≤ l → digits z f k x y ≡ digits z f l x y
  rounds_agree zero y k l u v = digits-empty k y ∙ sym (digits-empty l y)
  rounds_agree (suc x) y zero l u v = absurd (omega arith)
  rounds_agree (suc x) y (suc k) zero u v = absurd (omega arith)
  rounds_agree (suc x) y (suc k) (suc l) u v =
      ap (λ t. t * 2 + f (suc x % 2) (y % 2))
        (rounds_agree (suc x / 2) (y / 2) k l (omega arith) (omega arith))

  first_digit :
      (x y : ℕ)
      → digits z f (suc x) (suc x) y
        ≡ digits z f (suc x / 2) (suc x / 2) (y / 2) * 2 + f (suc x % 2) (y % 2)
  first_digit x y =
      ap (λ t. t * 2 + f (suc x % 2) (y % 2))
        (rounds_agree (suc x / 2) (y / 2) x (suc x / 2) (omega arith) (omega arith))

pub zero-bit_and : (b : ℕ) → bit_and 0 b ≡ 0
zero-bit_and b = bit_and-bitwise 0 b

pub zero-bit_or : (b : ℕ) → bit_or 0 b ≡ b
zero-bit_or b = bit_or-bitwise 0 b

pub zero-bit_xor : (b : ℕ) → bit_xor 0 b ≡ b
zero-bit_xor b = bit_xor-bitwise 0 b

-- One digit at a time.
pub bit_and_step : (x y : ℕ) → bit_and x y ≡ bit_and (x / 2) (y / 2) * 2 + min (x % 2) (y % 2)
bit_and_step (suc x) y = omega (
  arith,
  first_digit (λ n. zero) min x y,
  bit_and-bitwise (suc x / 2) (y / 2),
  bit_and-bitwise (suc x) y,
)
bit_and_step zero y = omega (arith, zero-bit_and (y / 2), zero-bit_and y)

pub bit_or_step : (x y : ℕ) → bit_or x y ≡ bit_or (x / 2) (y / 2) * 2 + max (x % 2) (y % 2)
bit_or_step (suc x) y = omega (
  arith,
  first_digit (λ n. n) max x y,
  bit_or-bitwise (suc x / 2) (y / 2),
  bit_or-bitwise (suc x) y,
)
bit_or_step zero y = omega (arith, zero-bit_or (y / 2), zero-bit_or y)

pub bit_xor_step : (x y : ℕ) → bit_xor x y ≡ bit_xor (x / 2) (y / 2) * 2 + differ (x % 2) (y % 2)
bit_xor_step (suc x) y = omega (
  arith,
  first_digit (λ n. n) differ x y,
  bit_xor-bitwise (suc x / 2) (y / 2),
  bit_xor-bitwise (suc x) y,
)
bit_xor_step zero y = omega (arith, zero-bit_xor (y / 2), zero-bit_xor y)

differ_le : (x y : ℕ) → x ≤ 1 → y ≤ 1 → differ x y ≤ 1
differ_le zero y p q = q
differ_le (suc x) zero p q = p
differ_le (suc zero) (suc zero) p q = omega arith
differ_le (suc zero) (suc (suc y)) p q = absurd (omega arith)
differ_le (suc (suc x)) (suc y) p q = absurd (omega arith)

differ-zero : (x y : ℕ) → x ≤ 1 → y ≡ 0 → differ x y ≡ x
differ-zero zero zero p q = refl
differ-zero (suc zero) zero p q = refl
differ-zero (suc (suc x)) zero p q = absurd (omega arith)
differ-zero x (suc y) p q = absurd (omega arith)

-- An operation that copies each digit beside a 0 copies the number.
copies :
    (op : ℕ → ℕ → ℕ)
    → op 0 0 ≡ 0
    → ((x : ℕ) → op x 0 ≡ op (x / 2) 0 * 2 + x % 2)
    → (n x : ℕ) → x ≤ n
    → op x 0 ≡ x
copies op base digit n zero h = base
copies op base digit zero (suc x) h = absurd (omega arith)
copies op base digit (suc n) (suc x) h =
    omega (arith, digit (suc x), copies op base digit n (suc x / 2) (omega arith))

pub bit_or-zero : (x : ℕ) → bit_or x 0 ≡ x
bit_or-zero x =
    copies bit_or (zero-bit_or 0) (λ y. omega (arith, bit_or_step y 0)) x x (omega arith)

pub bit_xor-zero : (x : ℕ) → bit_xor x 0 ≡ x
bit_xor-zero x =
    copies bit_xor (zero-bit_xor 0)
      (λ y.
        omega (arith, bit_xor_step y 0, differ-zero (y % 2) (0 % 2) (omega arith) (omega arith)))
      x x (omega arith)

-- A mask bounds what it lets through.
bit_and-le_fuel : (n a b : ℕ) → a ≤ n → bit_and a b ≤ b
bit_and-le_fuel n zero b h = omega (arith, zero-bit_and b)
bit_and-le_fuel zero (suc a) b h = absurd (omega arith)
bit_and-le_fuel (suc n) (suc a) b h =
    omega (arith, bit_and_step (suc a) b, bit_and-le_fuel n (suc a / 2) (b / 2) (omega arith))

pub bit_and-le : (a b : ℕ) → bit_and a b ≤ b
bit_and-le a b = bit_and-le_fuel a a b (omega arith)

pub pow_pos : (k : ℕ) → 1 ≤ 2 ^ k
pow_pos zero = omega arith
pow_pos (suc k) = omega (arith, pow-suc 2 k, pow_pos k)

pub mod-double : (a p : ℕ) → 1 ≤ p → a % (p * 2) ≡ a / 2 % p * 2 + a % 2
mod-double a p h =
    ap (λ t. t % (p * 2)) split
    ∙ add-mul-mod_self_left (a / 2 % p * 2 + a % 2) (p * 2) (a / 2 / p)
    ∙ mod-eq_of_lt (omega arith)
  where
    split : a ≡ a / 2 % p * 2 + a % 2 + p * 2 * (a / 2 / p)
    split = omega (arith, div-add-mod (a / 2) p)

-- The mask of `k` ones takes the remainder by `2 ^ k`.
pub bit_and-ones : (k a : ℕ) → bit_and a (2 ^ k - 1) ≡ a % 2 ^ k
bit_and-ones zero a = omega (arith, bit_and-le a 0)
bit_and-ones (suc k) a = omega (
  arith,
  pow-suc 2 k,
  pow_pos k,
  bit_and_step a (2 ^ suc k - 1),
  halved,
  bit_and-ones k (a / 2),
  mod-double a (2 ^ k) (pow_pos k),
  ap (λ t. a % t) (pow-suc 2 k),
)
  where
    halved : bit_and (a / 2) ((2 ^ suc k - 1) / 2) ≡ bit_and (a / 2) (2 ^ k - 1)
    halved = ap (bit_and (a / 2)) (omega (arith, pow-suc 2 k, pow_pos k))

-- The exclusive or of two `k`-bit numbers has `k` bits.
pub bit_xor-lt : (k a b : ℕ) → a < 2 ^ k → b < 2 ^ k → bit_xor a b < 2 ^ k
bit_xor-lt zero a b p q = let e : a ≡ 0 = omega arith in rw e (omega (arith, zero-bit_xor b))
bit_xor-lt (suc k) a b p q = omega (
  arith,
  pow-suc 2 k,
  bit_xor_step a b,
  bit_xor-lt k (a / 2) (b / 2) (omega (arith, pow-suc 2 k)) (omega (arith, pow-suc 2 k)),
  differ_le (a % 2) (b % 2) (omega arith) (omega arith),
)

-- The exclusive or works on each bit by itself.
pub bit_xor-mod : (k a b : ℕ) → bit_xor a b % 2 ^ k ≡ bit_xor (a % 2 ^ k) (b % 2 ^ k)
bit_xor-mod zero a b =
    let p : a % 2 ^ 0 ≡ 0 = omega arith in rw p (omega (arith, zero-bit_xor (b % 2 ^ 0)))
bit_xor-mod (suc k) a b = omega (
  arith,
  ap (λ t. bit_xor a b % t) (pow-suc 2 k),
  mod-double (bit_xor a b) (2 ^ k) (pow_pos k),
  bit_xor_step a b,
  differ_le (a % 2) (b % 2) (omega arith) (omega arith),
  quotient,
  bit_xor-mod k (a / 2) (b / 2),
  bit_xor_step (a % 2 ^ suc k) (b % 2 ^ suc k),
  ap₂ bit_xor (halves a) (halves b),
  ap₂ differ (lows a) (lows b),
)
  where
    expand : (x : ℕ) → x % 2 ^ suc k ≡ x / 2 % 2 ^ k * 2 + x % 2
    expand x = ap (λ t. x % t) (pow-suc 2 k) ∙ mod-double x (2 ^ k) (pow_pos k)

    halves : (x : ℕ) → x % 2 ^ suc k / 2 ≡ x / 2 % 2 ^ k
    halves x = omega (arith, expand x)

    lows : (x : ℕ) → x % 2 ^ suc k % 2 ≡ x % 2
    lows x = omega (arith, expand x)

    quotient : bit_xor a b / 2 % 2 ^ k ≡ bit_xor (a / 2) (b / 2) % 2 ^ k
    quotient =
        ap (λ t. t % 2 ^ k)
          (omega (arith, bit_xor_step a b, differ_le (a % 2) (b % 2) (omega arith) (omega arith)))

pub pow-dvd : (k j m : ℕ) → k + j ≡ m → 2 ^ k ∣ 2 ^ m
pow-dvd k zero m e = let q : k ≡ m = omega arith in rw q (dvd_refl (2 ^ m))
pow-dvd k (suc j) zero e = absurd (omega arith)
pow-dvd k (suc j) (suc m) e =
    rw (pow-suc 2 m) (dvd-mul_right_of_dvd (2 ^ k) (pow-dvd k j m (omega arith)) 2)
