-- ===== src/Predictor/Perceptron.antt =====
-- `Perceptron` of branch/bp_candidates/perceptron.cc: a table of weight vectors over the speculative
-- global history.
pub mod Bounds
pub mod Run
use Prim.Native.Nat.{bit_and, bit_or}
use sandbox_predictor.Prelude.{
  ℕ, zero, suc, ◌+◌, ◌-◌, ◌*◌, ◌/◌, ◌%◌, ◌^◌, Bool, not, ◌||◌, List, ltb, ◌==◌, if◌then◌else◌,
  get_or, set, replicate, eqb,
}
use sandbox_predictor.Prelude.Int.{ℤ, pos, negsuc, ◌+ℤ◌, ◌-ℤ◌, ltb_ℤ, is_nonneg, abs}
use sandbox_predictor.Prelude.Word.{u64, shift_in}
use sandbox_predictor.Predictor.{Prediction, Predictor}
use sandbox_predictor.Predictor.Pending
use sandbox_predictor.Predictor.Pending.{PstateQueue, enqueue, dequeue}

pub record Perceptron : Type 0 where
  pub weights : List ℤ  -- int[tableSize * GHRLen]
  pub bias : List ℤ  -- int[tableSize]
  pub weight_max : ℤ  -- int
  pub weight_min : ℤ  -- int
  pub real_history : ℕ  -- uint64_t
  pub spec_history : ℕ  -- uint64_t
  pub pending_bp : PstateQueue
  pub ghr_len : ℕ  -- unsigned
  pub table_size : ℕ  -- unsigned
  pub weight_len : ℕ  -- unsigned
  pub threshold : ℕ  -- int, positive

unfoldable pub reset : Perceptron → Perceptron
reset p = record p {
  weights = replicate (p.table_size * p.ghr_len) (pos 0);
  bias = replicate p.table_size (pos 0);
  real_history = 0;
  spec_history = 0;
  pending_bp = Pending.reset p.pending_bp;
}

-- `ceil(1.93 * GHRLen) + 14`, exact where the history has fewer than 100 bits
abbrev pub threshold_of : ℕ → ℕ
threshold_of ghr_len = (193 * ghr_len + 99) / 100 + 14

unfoldable pub construct : ℕ → ℕ → ℕ → Perceptron
unfolding reset
construct ghr_len table_size weight_len =
    let top = 2 ^ (weight_len - 1) - 1 in
    reset (record {
      weights = replicate (table_size * ghr_len) (pos 0);
      bias = replicate table_size (pos 0);
      weight_max = pos top;
      weight_min = negsuc top;
      real_history = 0;
      spec_history = 0;
      pending_bp = Pending.empty;
      ghr_len = ghr_len;
      table_size = table_size;
      weight_len = weight_len;
      threshold = threshold_of ghr_len;
    })

-- The copy constructor takes the parameters over and starts untrained.
unfoldable pub copy : Perceptron → Perceptron
unfolding reset
copy other = reset (record other { pending_bp = Pending.empty })

unfoldable pub get_idx : Perceptron → ℕ → ℕ
get_idx p pc = pc % p.table_size

-- `(history >> i) & 1`
abbrev pub history_bit : ℕ → ℕ → Bool
history_bit history i = bit_and (history / 2 ^ i) 1 == 1

-- The loop of `predict`: `rounds` more weights from number `i` of the row at `base`.
unfoldable pub sum_from : List ℤ → ℕ → ℕ → ℕ → ℕ → ℤ → ℤ
sum_from weights base history zero i sum = sum
sum_from weights base history (suc rounds) i sum =
    let w = get_or weights (base + i) (pos 0) in
    let sum' = if history_bit history i then sum +ℤ w else sum -ℤ w in
    sum_from weights base history rounds (i + 1) sum'

-- The dot product of a PC's row with a history.
unfoldable pub output : Perceptron → ℕ → ℕ → ℤ
unfolding get_idx sum_from
output p pc history =
    let idx = get_idx p pc in
    sum_from p.weights (idx * p.ghr_len) history p.ghr_len 0 (get_or p.bias idx (pos 0))

-- What both forms of `predict` do once the history is known.
unfoldable pub predict_by : Perceptron → ℕ → ℕ → Perceptron × Prediction
unfolding output enqueue
predict_by p pc history =
    let sum = output p pc history in
    (
      record p {
        pending_bp = enqueue p.pending_bp (record { history = history; sum = sum });
        spec_history = shift_in p.spec_history (is_nonneg sum);
      },
      record { taken = is_nonneg sum; confidence = abs sum },
    )

unfoldable pub predict : Perceptron → ℕ → Perceptron × Prediction
unfolding predict_by
predict p pc = predict_by p pc p.spec_history

-- `addon_len` low bits of `addon` stand in for the youngest part of the history.
unfoldable pub predict_with : Perceptron → ℕ → ℕ → ℕ → Perceptron × Prediction
unfolding predict_by
predict_with p pc addon addon_len =
    predict_by p pc
      (bit_or (u64 (p.spec_history * 2 ^ addon_len)) (bit_and addon (2 ^ addon_len - 1)))

-- `if (up) { if (w < weightMax) w++; } else if (w > weightMin) w--;`
unfoldable pub adjust : Perceptron → Bool → ℤ → ℤ
adjust p up w =
    if up
    then (if ltb_ℤ w p.weight_max then w +ℤ pos 1 else w)
    else if ltb_ℤ p.weight_min w
    then w -ℤ pos 1
    else w

-- The loop of `update`: `rounds` more weights from number `i` of the row at `base`.
unfoldable pub train_from : Perceptron → ℕ → ℕ → Bool → ℕ → ℕ → List ℤ → List ℤ
unfolding adjust
train_from p base history taken zero i weights = weights
train_from p base history taken (suc rounds) i weights =
    let w = get_or weights (base + i) (pos 0) in
    let weights' = set weights (base + i) (adjust p (eqb taken (history_bit history i)) w) in
    train_from p base history taken rounds (i + 1) weights'

-- the branch of `update` that trains the row of a PC
unfoldable pub train : Perceptron → ℕ → ℕ → Bool → Perceptron
unfolding get_idx train_from adjust
train p pc history taken =
    let idx = get_idx p pc in
    record p {
      weights = train_from p (idx * p.ghr_len) history taken p.ghr_len 0 p.weights;
      bias = set p.bias idx (adjust p taken (get_or p.bias idx (pos 0)));
    }

-- `(sum >= 0) != taken`
abbrev pub wrong : ℤ → Bool → Bool
wrong sum taken = not (eqb (is_nonneg sum) taken)

unfoldable pub update : Perceptron → ℕ → Bool → Perceptron
unfolding train dequeue
update p pc taken =
    let (pending, state) = dequeue p.pending_bp in
    let p1 : Perceptron = record p { pending_bp = pending } in
    let p2 =
      if wrong state.sum taken || ltb (abs state.sum) p.threshold
      then train p1 pc state.history taken
      else p1 in
    let real = shift_in p.real_history taken in
    record p2 {
      real_history = real;
      spec_history = if wrong state.sum taken then real else p.spec_history;
    }

unfoldable pub perceptron : Predictor Perceptron
unfolding predict predict_with update reset
perceptron = record {
  predict = predict;
  predict_with = predict_with;
  update = update;
  update_history = λ p taken. p;
  reset = reset;
}
