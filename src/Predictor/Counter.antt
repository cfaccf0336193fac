-- ===== src/Predictor/Counter.antt =====
-- The saturating counters of the predictors: one step towards the outcome, within a range.
use sandbox_predictor.Prelude.{
  ℕ, zero, suc, ◌+◌, ◌-◌, ◌≤◌, ◌≡◌, Bool, true, false, not, ◌&&◌, arith, if◌then◌else◌,
}
use sandbox_predictor.Prelude.Int.{
  ℤ, pos, ltb_ℤ, ◌≤ℤ◌, pos_part, neg_part, ◌+ℤ◌, ◌-ℤ◌, +ℤ_parts, -ℤ_parts, eq_of_parts,
}

-- `if (taken && c < hi) c + 1; else if (!taken && c > lo) c - 1;`
unfoldable pub step : ℤ → ℤ → Bool → ℤ → ℤ
step lo hi taken c =
    if taken && ltb_ℤ c hi then c +ℤ pos 1 else if not taken && ltb_ℤ lo c then c -ℤ pos 1 else c

-- A step stays in the range.
pub step_bounds :
    (lo hi c : ℤ) (taken : Bool)
    → lo ≤ℤ c
    → c ≤ℤ hi
    → (lo ≤ℤ step lo hi taken c) × (step lo hi taken c ≤ℤ hi)
unfolding step
step_bounds lo hi c taken p q = ground (arith, +ℤ_parts c (pos 1), -ℤ_parts c (pos 1))

-- a counter that sees the same outcome `n` times
unfoldable pub steps : ℤ → ℤ → Bool → ℕ → ℤ → ℤ
steps lo hi taken zero c = c
steps lo hi taken (suc n) c = steps lo hi taken n (step lo hi taken c)

-- how far a counter is from the end of its range
abbrev pub gap : ℤ → ℤ → ℕ
gap c hi = pos_part hi + neg_part c - (pos_part c + neg_part hi)

up_nearer :
    (lo hi : ℤ) (n : ℕ) (c : ℤ)
    → c ≤ℤ hi
    → gap c hi ≤ suc n
    → (step lo hi true c ≤ℤ hi) × (gap (step lo hi true c) hi ≤ n)
unfolding step
up_nearer lo hi n c q g = ground (arith, +ℤ_parts c (pos 1))

down_nearer :
    (lo hi : ℤ) (n : ℕ) (c : ℤ)
    → lo ≤ℤ c
    → gap lo c ≤ suc n
    → (lo ≤ℤ step lo hi false c) × (gap lo (step lo hi false c) ≤ n)
unfolding step
down_nearer lo hi n c q g = ground (arith, -ℤ_parts c (pos 1))

-- As many taken outcomes as a counter is below the top of its range, or more, take it there.
pub steps_up : (lo hi : ℤ) (n : ℕ) (c : ℤ) → c ≤ℤ hi → gap c hi ≤ n → steps lo hi true n c ≡ hi
unfolding steps
steps_up lo hi zero c q g = eq_of_parts c hi (omega arith)
steps_up lo hi (suc n) c q g =
    let (q', g') = up_nearer lo hi n c q g in steps_up lo hi n (step lo hi true c) q' g'

-- As many outcomes that are not taken as a counter is above the bottom of its range, or more, take it
-- there.
pub steps_down : (lo hi : ℤ) (n : ℕ) (c : ℤ) → lo ≤ℤ c → gap lo c ≤ n → steps lo hi false n c ≡ lo
unfolding steps
steps_down lo hi zero c q g = eq_of_parts c lo (omega arith)
steps_down lo hi (suc n) c q g =
    let (q', g') = down_nearer lo hi n c q g in steps_down lo hi n (step lo hi false c) q' g'
