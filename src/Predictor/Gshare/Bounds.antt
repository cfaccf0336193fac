-- ===== src/Predictor/Gshare/Bounds.antt =====
-- Gshare stays within its table and its counters within their width.
use Prim.Native.Nat.{bit_xor}
use sandbox_predictor.Prelude.{
  ℕ, zero, suc, ◌+◌, ◌-◌, ◌^◌, ◌≤◌, ◌<◌, ◌≡◌, refl, sym, ◌∙◌, Bool, List, [], ◌∷◌, arith, length,
  replicate, get_or, set, length-set, length-replicate,
}
use mathlib.Core.Path.{subst}
use sandbox_predictor.Prelude.Bits.{bit_and-le, pow_pos}
use sandbox_predictor.Prelude.Int.{ℤ, pos, negsuc, ◌≤ℤ◌}
use sandbox_predictor.Prelude.Word.{shift_in-lt}
use sandbox_predictor.Predictor.Counter.{step_bounds}
use sandbox_predictor.Predictor.Gshare.{Gshare, construct, reset, get_idx, judge, predict, update}

-- Every counter of a list lies in a range.
abbrev pub InRange : ℤ → ℤ → List ℤ → Type 0
InRange lo hi [] = Unit
InRange lo hi (c ∷ cs) = (lo ≤ℤ c) × (c ≤ℤ hi) × InRange lo hi cs

pub InRange-replicate : (lo hi c : ℤ) (n : ℕ) → lo ≤ℤ c → c ≤ℤ hi → InRange lo hi (replicate n c)
InRange-replicate lo hi c zero p q = tt
InRange-replicate lo hi c (suc n) p q = (p, q, InRange-replicate lo hi c n p q)

pub InRange-set :
    (lo hi : ℤ) (cs : List ℤ) (i : ℕ) (c : ℤ)
    → InRange lo hi cs
    → lo ≤ℤ c
    → c ≤ℤ hi
    → InRange lo hi (set cs i c)
InRange-set lo hi [] i c r p q = tt
InRange-set lo hi (d ∷ cs) zero c r p q = (p, q, r.2)
InRange-set lo hi (d ∷ cs) (suc i) c r p q = (r.0, r.1, InRange-set lo hi cs i c r.2 p q)

pub InRange-get_or :
    (lo hi : ℤ) (cs : List ℤ) (i : ℕ) (d : ℤ)
    → InRange lo hi cs
    → lo ≤ℤ d
    → d ≤ℤ hi
    → (lo ≤ℤ get_or cs i d) × (get_or cs i d ≤ℤ hi)
InRange-get_or lo hi [] i d r p q = (p, q)
InRange-get_or lo hi (c ∷ cs) zero d r p q = (r.0, r.1)
InRange-get_or lo hi (c ∷ cs) (suc i) d r p q = InRange-get_or lo hi cs i d r.2 p q

-- The counters have `counter_len` bits and the table `2 ^ ghr_len` of them.
pub record IsValid (g : Gshare) : Type 0 where
  pub size : length g.table ≡ 2 ^ g.ghr_len
  pub history_lt : g.history < 2 ^ 64
  pub max_eq : g.counter_max ≡ pos (2 ^ (g.counter_len - 1) - 1)
  pub min_eq : g.counter_min ≡ negsuc (2 ^ (g.counter_len - 1) - 1)
  pub in_range : InRange g.counter_min g.counter_max g.table

-- 0 lies in the range of the counters.
zero_in : (g : Gshare) → IsValid g → (g.counter_min ≤ℤ pos 0) × (pos 0 ≤ℤ g.counter_max)
zero_in g v = (
  subst (λ c. c ≤ℤ pos 0) (sym v.min_eq) (omega arith),
  subst (λ c. pos 0 ≤ℤ c) (sym v.max_eq) (omega arith),
)

-- The index of a PC lies in the table.
pub get_idx-lt : (g : Gshare) (pc : ℕ) → IsValid g → get_idx g pc < length g.table
unfolding get_idx
get_idx-lt g pc v =
    omega (arith, v.size, pow_pos g.ghr_len, bit_and-le (bit_xor g.history pc) (2 ^ g.ghr_len - 1))

-- The constructor makes a valid predictor.
pub gshare_construct-IsValid : (ghr_len counter_len : ℕ) → IsValid (construct ghr_len counter_len)
unfolding construct reset
gshare_construct-IsValid ghr_len counter_len = record {
  size = length-replicate (2 ^ ghr_len) (pos 0);
  history_lt = omega arith;
  max_eq = refl;
  min_eq = refl;
  in_range =
      InRange-replicate (negsuc (2 ^ (counter_len - 1) - 1)) (pos (2 ^ (counter_len - 1) - 1))
        (pos 0) (2 ^ ghr_len) (omega arith) (omega arith);
}

-- `update` and `reset` keep the table's size, the counters' range and the width of the history.
pub gshare_update-IsValid :
    (g : Gshare) (pc : ℕ) (taken : Bool)
    → IsValid g
    → IsValid (update g pc taken) × IsValid (reset g)
unfolding update reset
gshare_update-IsValid g pc taken v =
    let (lo, hi) = zero_in g v in
    let (lo', hi') =
      InRange-get_or g.counter_min g.counter_max g.table (get_idx g pc) (pos 0) v.in_range lo hi in
    let (lo'', hi'') =
      step_bounds g.counter_min g.counter_max (get_or g.table (get_idx g pc) (pos 0)) taken lo'
        hi' in
    (
      record {
        size = length-set g.table (get_idx g pc) _ ∙ v.size;
        history_lt = shift_in-lt g.history taken;
        max_eq = v.max_eq;
        min_eq = v.min_eq;
        in_range =
            InRange-set g.counter_min g.counter_max g.table (get_idx g pc) _ v.in_range lo'' hi'';
      },
      record {
        size = length-replicate (2 ^ g.ghr_len) (pos 0);
        history_lt = omega arith;
        max_eq = v.max_eq;
        min_eq = v.min_eq;
        in_range = InRange-replicate g.counter_min g.counter_max (pos 0) (2 ^ g.ghr_len) lo hi;
      },
    )

judge_bounds :
    (m : ℕ) (c : ℤ)
    → negsuc m ≤ℤ c
    → c ≤ℤ pos m
    → (1 ≤ (judge c).confidence) × ((judge c).confidence ≤ m + 1)
unfolding judge
judge_bounds m c p q = ground arith

-- The confidence of a valid predictor lies between 1 and `2 ^ (counter_len - 1)`.
pub predict_confidence :
    (g : Gshare) (pc : ℕ)
    → IsValid g
    → (1 ≤ (predict g pc).confidence) × ((predict g pc).confidence ≤ 2 ^ (g.counter_len - 1))
unfolding predict
predict_confidence g pc v =
    let (lo, hi) = zero_in g v in
    let (lo', hi') =
      InRange-get_or g.counter_min g.counter_max g.table (get_idx g pc) (pos 0) v.in_range lo hi in
    let c = get_or g.table (get_idx g pc) (pos 0) in
    omega (
      arith,
      pow_pos (g.counter_len - 1),
      judge_bounds (2 ^ (g.counter_len - 1) - 1) c (subst (λ m. m ≤ℤ c) v.min_eq lo')
          (subst (λ m. c ≤ℤ m) v.max_eq hi'),
    )
