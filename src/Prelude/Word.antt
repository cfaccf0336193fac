-- ===== src/Prelude/Word.antt =====
-- Unsigned machine words as native numbers, and the shift register `(h << 1) | bit`.
use Prim.Native.Nat.{ℕ, ◌+◌, ◌-◌, ◌*◌, ◌/◌, ◌%◌, ◌^◌, ◌<◌, bit_or}
use mathlib.Core.Path.{◌≡◌}
use mathlib.Core.Bool.{Bool, true, false}
use native.Mathlib.Omega.{arith}
use sandbox_predictor.Prelude.Tests.{if◌then◌else◌}
use mathlib.Core.List.{List}
use sandbox_predictor.Prelude.Lists.{get_or, set}
use sandbox_predictor.Prelude.Bits.{bit_or_step, bit_or-zero}

-- `uint32_t` and `uint64_t` arithmetic wraps.
abbrev pub u32 : ℕ → ℕ
u32 n = n % 2 ^ 32

abbrev pub u64 : ℕ → ℕ
u64 n = n % 2 ^ 64

-- `n - 1` on `unsigned`.
abbrev pub pred32 : ℕ → ℕ
pred32 n = u32 (n + (2 ^ 32 - 1))

-- `taken ? 1 : 0`
abbrev pub bit : Bool → ℕ
bit b = if b then 1 else 0

-- `(history << 1) | (taken ? 1 : 0)` on `uint64_t`.
unfoldable pub shift_in : ℕ → Bool → ℕ
shift_in history taken = bit_or (u64 (history * 2)) (bit taken)

bit_or-even : (x : ℕ) (b : Bool) → bit_or (x * 2) (bit b) ≡ x * 2 + bit b
bit_or-even x true = omega (arith, bit_or_step (x * 2) 1, bit_or-zero (x * 2 / 2))
bit_or-even x false = omega (arith, bit_or-zero (x * 2))

-- The register drops its oldest bit and takes the new one in at the bottom.
pub shift_in_lem : (h : ℕ) (b : Bool) → shift_in h b ≡ h % 2 ^ 63 * 2 + bit b
unfolding shift_in
shift_in_lem h b =
    let e : u64 (h * 2) ≡ h % 2 ^ 63 * 2 = omega arith in rw e (bit_or-even (h % 2 ^ 63) b)

pub shift_in-lt : (h : ℕ) (b : Bool) → shift_in h b < 2 ^ 64
shift_in-lt h true = omega (arith, shift_in_lem h true)
shift_in-lt h false = omega (arith, shift_in_lem h false)

-- The lowest bit of the register is the outcome that came last.
pub shift_in-low : (h : ℕ) (b : Bool) → shift_in h b % 2 ≡ bit b
shift_in-low h true = omega (arith, shift_in_lem h true)
shift_in-low h false = omega (arith, shift_in_lem h false)

-- `counts[i]++` on an array of `uint64_t`.
abbrev pub increment : List ℕ → ℕ → List ℕ
increment counts i = set counts i (u64 (get_or counts i 0 + 1))
