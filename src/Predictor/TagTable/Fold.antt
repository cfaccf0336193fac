-- ===== src/Predictor/TagTable/Fold.antt =====
-- The folded history of a tagged table: its loop ends, and it is the exclusive or of the history's parts.
use Prim.Native.Nat.{bit_xor}
use sandbox_predictor.Prelude.{
  ℕ, zero, suc, ◌-◌, ◌/◌, ◌%◌, ◌^◌, ◌≤◌, ◌<◌, ◌≡◌, refl, sym, ap, ◌∙◌, ◌==◌, arith, Bool-cases, inl,
  inr,
}
use native.Mathlib.Nat.{div-lt_iff_lt-mul, mul-le-mul_left, pow-suc, zero-div, zero-mod}
use sandbox_predictor.Prelude.Bits.{bit_and-le, bit_xor-zero, bit_and-ones, bit_xor-mod, pow_pos}
use sandbox_predictor.Predictor.TagTable.{fold_loop, fold}

-- An independent description: the parts of `length` bits, one after the other.
unfoldable pub parts_xor : ℕ → ℕ → ℕ → ℕ → ℕ
parts_xor zero length x out = out
parts_xor (suc rounds) length x out =
    parts_xor rounds length (x / 2 ^ length) (bit_xor out (x % 2 ^ length))

halved : (length x n : ℕ) → 1 ≤ length → x < 2 ^ suc n → x / 2 ^ length < 2 ^ n
halved (suc k) x n h l = (div-lt_iff_lt-mul (omega (arith, pow_pos (suc k)))).1 (
    omega (
      arith,
      pow-suc 2 n,
      pow-suc 2 k,
      pow_pos k,
      mul-le-mul_left {m = 2} {n = 2 ^ suc k} (2 ^ n) (omega (arith, pow-suc 2 k, pow_pos k)),
    ))
halved zero x n h l = absurd (omega arith)

-- Any fuel of at least the number of the word's bits gives the same result.
pub fold_loop-enough :
    (n fuel length x out : ℕ)
    → 1 ≤ length
    → x < 2 ^ n
    → n ≤ fuel
    → fold_loop fuel length x out ≡ fold_loop n length x out
unfolding fold_loop
fold_loop-enough zero zero length x out h l f = refl
fold_loop-enough zero (suc fuel) length x out h l f = let z : x ≡ 0 = omega arith in rw z
fold_loop-enough (suc n) zero length x out h l f = absurd (omega arith)
fold_loop-enough (suc n) (suc fuel) length x out h l f =
    let ih =
      fold_loop-enough n fuel length (x / 2 ^ length) (bit_xor out x) h (halved length x n h l)
        (omega arith) in
    rw ih

parts_xor-zero : (rounds length out : ℕ) → parts_xor rounds length 0 out ≡ out
unfolding parts_xor
parts_xor-zero zero length out = refl
parts_xor-zero (suc rounds) length out =
    rw (zero-div (2 ^ length), zero-mod (2 ^ length), bit_xor-zero out)
      (parts_xor-zero rounds length out)

fold_loop-parts :
    (fuel length x out : ℕ)
    → fold_loop fuel length x out % 2 ^ length ≡ parts_xor fuel length x (out % 2 ^ length)
unfolding fold_loop parts_xor
fold_loop-parts zero length x out = refl
fold_loop-parts (suc fuel) length x out = elim (Bool-cases (x == 0)) [
  | inl e ↦
      let z : x ≡ 0 = ground arith in
      rw z (sym (parts_xor-zero (suc fuel) length (out % 2 ^ length)))
  | inr e ↦
      (rw e (fold_loop-parts fuel length (x / 2 ^ length) (bit_xor out x)))
      ∙ ap (parts_xor fuel length (x / 2 ^ length)) (bit_xor-mod length out x)
]

-- The fold of a 64-bit history to a length between 1 and 30, where `1 << length` is an `int`, is the
-- exclusive or of its parts of that length, and any 64 rounds or more of its loop give the same result.
pub fold_lem :
    (x length fuel : ℕ)
    → 1 ≤ length
    → length ≤ 30
    → x < 2 ^ 64
    → 64 ≤ fuel
    → (fold x length ≡ parts_xor 64 length x 0)
      × (fold_loop fuel length x 0 ≡ fold_loop 64 length x 0)
unfolding fold
fold_lem x length fuel h most l f = (
  bit_and-ones length (fold_loop 64 length x 0)
      ∙ fold_loop-parts 64 length x 0
      ∙ ap (parts_xor 64 length x) (zero-mod (2 ^ length)),
  fold_loop-enough 64 fuel length x 0 h l f,
)

-- A fold has the length it is asked for.
pub fold-lt : (x length : ℕ) → fold x length < 2 ^ length
unfolding fold
fold-lt x length =
    omega (arith, bit_and-le (fold_loop 64 length x 0) (2 ^ length - 1), pow_pos length)
