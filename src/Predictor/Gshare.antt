-- ===== src/Predictor/Gshare.antt =====
-- `Gshare` of branch/bp_candidates/gshare.cc: a table of saturating counters, indexed by the program
-- counter and the global history.
pub mod Bounds
pub mod Run
pub mod Window
use Prim.Native.Nat.{bit_and, bit_or, bit_xor}
use sandbox_predictor.Prelude.{
  ℕ, ◌+◌, ◌-◌, ◌*◌, ◌^◌, Bool, List, replicate, if◌then◌else◌, get_or, set,
}
use sandbox_predictor.Prelude.Int.{ℤ, pos, negsuc, is_nonneg, abs}
use sandbox_predictor.Prelude.Word.{u64, shift_in}
use sandbox_predictor.Predictor.{Prediction, Predictor}
use sandbox_predictor.Predictor.Counter.{step}

pub record Gshare : Type 0 where
  pub ghr_len : ℕ  -- unsigned
  pub history : ℕ  -- uint64_t
  pub counter_len : ℕ  -- unsigned
  pub counter_max : ℤ  -- int
  pub counter_min : ℤ  -- int
  pub table : List ℤ  -- int[1 << GHRLen]

-- `1 << n` on `int`, for the lengths below 31 that it is defined at
abbrev pub shifted_one : ℕ → ℕ
shifted_one n = 2 ^ n

unfoldable pub reset : Gshare → Gshare
reset g = record g { history = 0; table = replicate (shifted_one g.ghr_len) (pos 0) }

-- `counterMax = (1 << (counterLen - 1)) - 1` and `counterMin = -1 - counterMax`
unfoldable pub construct : ℕ → ℕ → Gshare
unfolding reset
construct ghr_len counter_len =
    let top = shifted_one (counter_len - 1) - 1 in
    reset (record {
      ghr_len = ghr_len;
      history = 0;
      counter_len = counter_len;
      counter_max = pos top;
      counter_min = negsuc top;
      table = replicate (shifted_one ghr_len) (pos 0);
    })

unfoldable pub get_idx : Gshare → ℕ → ℕ
get_idx g pc = bit_and (bit_xor g.history pc) (shifted_one g.ghr_len - 1)

-- the prediction of a counter: `counter + 1` or `0 - counter` is the confidence
unfoldable pub judge : ℤ → Prediction
judge counter = record {
  taken = is_nonneg counter;
  confidence = if is_nonneg counter then abs counter + 1 else abs counter;
}

unfoldable pub predict : Gshare → ℕ → Prediction
unfolding get_idx judge
predict g pc = judge (get_or g.table (get_idx g pc) (pos 0))

-- `addon_len` low bits of `addon` stand in for the youngest part of the history.
unfoldable pub predict_with : Gshare → ℕ → ℕ → ℕ → Prediction
unfolding judge
predict_with g pc addon addon_len =
    let mask = shifted_one addon_len - 1 in
    let history = bit_or (u64 (g.history * 2 ^ addon_len)) (bit_and addon mask) in
    judge (get_or g.table (bit_and (bit_xor history pc) (shifted_one g.ghr_len - 1)) (pos 0))

unfoldable pub update_history : Gshare → Bool → Gshare
update_history g taken = record g { history = shift_in g.history taken }

unfoldable pub update : Gshare → ℕ → Bool → Gshare
unfolding get_idx
update g pc taken =
    let idx = get_idx g pc in
    let counter = step g.counter_min g.counter_max taken (get_or g.table idx (pos 0)) in
    record g { table = set g.table idx counter; history = shift_in g.history taken }

unfoldable pub gshare : Predictor Gshare
unfolding predict predict_with update update_history reset
gshare = record {
  predict = λ g pc. (g, predict g pc);
  predict_with = λ g pc addon len. (g, predict_with g pc addon len);
  update = update;
  update_history = update_history;
  reset = reset;
}
