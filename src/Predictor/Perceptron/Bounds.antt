-- ===== src/Predictor/Perceptron/Bounds.antt =====
-- The weights of a perceptron keep their width.
use sandbox_predictor.Prelude.{
  ℕ, zero, suc, ◌+◌, ◌-◌, ◌*◌, ◌^◌, ◌<◌, ◌≡◌, refl, sym, ◌∙◌, Bool, true, false, ◌||◌, List, arith,
  length, get_or, set, length-set, if◌then◌else◌, ltb, eqb,
}
use mathlib.Core.Path.{subst}
use sandbox_predictor.Prelude.Int.{ℤ, pos, negsuc, ◌≤ℤ◌, +ℤ_parts, -ℤ_parts, abs}
use sandbox_predictor.Prelude.Word.{shift_in-lt}
use sandbox_predictor.Predictor.Gshare.Bounds.{InRange, InRange-set, InRange-get_or}
use sandbox_predictor.Predictor.Pending
use sandbox_predictor.Predictor.Pending.{PstateQueue, dequeue, enqueue}
use sandbox_predictor.Predictor.Perceptron.{
  Perceptron, get_idx, history_bit, predict_by, adjust, train_from, train, wrong, update,
}

-- The ring of pending predictions has four slots, and its ends lie in it.
pub record IsRing (q : PstateQueue) : Type 0 where
  pub size : length q.storage ≡ 4
  pub head_in : q.head < 4
  pub tail_in : q.tail < 4

-- The weights have `weight_len` bits; the tables have their sizes.
pub record IsValid (p : Perceptron) : Type 0 where
  pub weights_size : length p.weights ≡ p.table_size * p.ghr_len
  pub bias_size : length p.bias ≡ p.table_size
  pub max_eq : p.weight_max ≡ pos (2 ^ (p.weight_len - 1) - 1)
  pub min_eq : p.weight_min ≡ negsuc (2 ^ (p.weight_len - 1) - 1)
  pub weights_in : InRange p.weight_min p.weight_max p.weights
  pub bias_in : InRange p.weight_min p.weight_max p.bias
  pub real_lt : p.real_history < 2 ^ 64
  pub spec_lt : p.spec_history < 2 ^ 64
  pub ring : IsRing p.pending_bp

pub zero_in : (p : Perceptron) → IsValid p → (p.weight_min ≤ℤ pos 0) × (pos 0 ≤ℤ p.weight_max)
zero_in p v = (
  subst (λ c. c ≤ℤ pos 0) (sym v.min_eq) (omega arith),
  subst (λ c. pos 0 ≤ℤ c) (sym v.max_eq) (omega arith),
)

adjust_bounds :
    (p : Perceptron) (up : Bool) (w : ℤ)
    → p.weight_min ≤ℤ w
    → w ≤ℤ p.weight_max
    → (p.weight_min ≤ℤ adjust p up w) × (adjust p up w ≤ℤ p.weight_max)
unfolding adjust
adjust_bounds p up w a b = ground (arith, +ℤ_parts w (pos 1), -ℤ_parts w (pos 1))

module _ (p : Perceptron) (v : IsValid p) (base history : ℕ) (taken : Bool) where
  -- Training a row keeps the number of the weights and their width.
  train_from-InRange :
      (rounds i : ℕ) (ws : List ℤ)
      → InRange p.weight_min p.weight_max ws
      → InRange p.weight_min p.weight_max (train_from p base history taken rounds i ws)
        × (length (train_from p base history taken rounds i ws) ≡ length ws)
  unfolding train_from
  train_from-InRange zero i ws r = (r, refl)
  train_from-InRange (suc rounds) i ws r =
      let (lo, hi) = zero_in p v in
      let w = get_or ws (base + i) (pos 0) in
      let up = eqb taken (history_bit history i) in
      let (lo', hi') = InRange-get_or p.weight_min p.weight_max ws (base + i) (pos 0) r lo hi in
      let (a, b) = adjust_bounds p up w lo' hi' in
      let (r', l') =
        train_from-InRange rounds (i + 1) (set ws (base + i) (adjust p up w))
          (InRange-set p.weight_min p.weight_max ws (base + i) (adjust p up w) r a b) in
      (r', l' ∙ length-set ws (base + i) (adjust p up w))

enqueue-IsRing : (q : PstateQueue) (s : Pending.Pstate) → IsRing q → IsRing (enqueue q s)
unfolding enqueue
enqueue-IsRing q s r = record {
  size = length-set q.storage q.tail s ∙ r.size;
  head_in = r.head_in;
  tail_in = omega arith;
}

dequeue-IsRing : (q : PstateQueue) → IsRing q → IsRing (dequeue q).0
unfolding dequeue
dequeue-IsRing q r = record { size = r.size; head_in = omega arith; tail_in = r.tail_in }

pub predict_by-IsValid :
    (p : Perceptron) (pc history : ℕ) → IsValid p → IsValid (predict_by p pc history).0
unfolding predict_by
predict_by-IsValid p pc history v = record {
  weights_size = v.weights_size;
  bias_size = v.bias_size;
  max_eq = v.max_eq;
  min_eq = v.min_eq;
  weights_in = v.weights_in;
  bias_in = v.bias_in;
  real_lt = v.real_lt;
  spec_lt = shift_in-lt p.spec_history _;
  ring = enqueue-IsRing p.pending_bp _ v.ring;
}

train-IsValid :
    (p : Perceptron) (pc history : ℕ) (taken : Bool)
    → IsValid p
    → IsValid (train p pc history taken)
unfolding train
train-IsValid p pc history taken v =
    let (lo, hi) = zero_in p v in
    let idx = get_idx p pc in
    let (r, l) =
      train_from-InRange p v (idx * p.ghr_len) history taken p.ghr_len 0 p.weights v.weights_in in
    let (lo', hi') = InRange-get_or p.weight_min p.weight_max p.bias idx (pos 0) v.bias_in lo hi in
    let (a, b) = adjust_bounds p taken (get_or p.bias idx (pos 0)) lo' hi' in
    record {
      weights_size = l ∙ v.weights_size;
      bias_size = length-set p.bias idx (adjust p taken (get_or p.bias idx (pos 0))) ∙ v.bias_size;
      max_eq = v.max_eq;
      min_eq = v.min_eq;
      weights_in = r;
      bias_in = InRange-set p.weight_min p.weight_max p.bias idx _ v.bias_in a b;
      real_lt = v.real_lt;
      spec_lt = v.spec_lt;
      ring = v.ring;
    }

-- new histories and a new ring leave the tables alone
rehistoried :
    (p : Perceptron) (real spec : ℕ)
    → IsValid p
    → real < 2 ^ 64
    → spec < 2 ^ 64
    → IsValid (record p { real_history = real; spec_history = spec })
rehistoried p real spec v a b = record {
  weights_size = v.weights_size;
  bias_size = v.bias_size;
  max_eq = v.max_eq;
  min_eq = v.min_eq;
  weights_in = v.weights_in;
  bias_in = v.bias_in;
  real_lt = a;
  spec_lt = b;
  ring = v.ring;
}

dequeued :
    (p : Perceptron) → IsValid p → IsValid (record p { pending_bp = (dequeue p.pending_bp).0 })
dequeued p v = record {
  weights_size = v.weights_size;
  bias_size = v.bias_size;
  max_eq = v.max_eq;
  min_eq = v.min_eq;
  weights_in = v.weights_in;
  bias_in = v.bias_in;
  real_lt = v.real_lt;
  spec_lt = v.spec_lt;
  ring = dequeue-IsRing p.pending_bp v.ring;
}

if-IsValid : (b : Bool) (p q : Perceptron) → IsValid p → IsValid q → IsValid (if b then p else q)
if-IsValid true p q v w = v
if-IsValid false p q v w = w

if-lt : (b : Bool) (m n k : ℕ) → m < k → n < k → (if b then m else n) < k
if-lt true m n k a b = a
if-lt false m n k a b = b

-- Every operation keeps the tables' sizes, the weights' width and the ring.
pub perceptron_update-IsValid :
    (p : Perceptron) (pc : ℕ) (taken : Bool) → IsValid p → IsValid (update p pc taken)
unfolding update
perceptron_update-IsValid p pc taken v =
    let state = (dequeue p.pending_bp).1 in
    let p1 : Perceptron = record p { pending_bp = (dequeue p.pending_bp).0 } in
    rehistoried
      (if wrong state.sum taken || ltb (abs state.sum) p.threshold
        then train p1 pc state.history taken
        else p1)
      _ _
      (if-IsValid (wrong state.sum taken || ltb (abs state.sum) p.threshold)
        (train p1 pc state.history taken) p1
        (train-IsValid p1 pc state.history taken (dequeued p v)) (dequeued p v))
      (shift_in-lt p.real_history taken)
      (if-lt (wrong state.sum taken) _ p.spec_history (2 ^ 64) (shift_in-lt p.real_history taken)
        v.spec_lt)
