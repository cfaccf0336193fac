-- ===== src/Predictor/Perceptron/Run.antt =====
-- A perceptron through its life: its ranges after any calls, and its two histories in step.
use sandbox_predictor.Prelude.{
  ℕ, zero, suc, ◌+◌, ◌-◌, ◌*◌, ◌%◌, ◌^◌, ◌≤◌, ◌<◌, ◌≡◌, refl, sym, ap, ◌∙◌, Bool, true, false, ◌||◌,
  List, arith, get_or, set, length-replicate, get_or-set_self, if◌then◌else◌, eqb, ltb, not,
}
use mathlib.Core.Path.{subst}
use native.Mathlib.Nat.{suc-mul}
use sandbox_predictor.Prelude.Bits.{pow_pos}
use sandbox_predictor.Prelude.Int.{ℤ, pos, negsuc, ◌≤ℤ◌, ◌+ℤ◌, ◌-ℤ◌, abs, is_nonneg}
use sandbox_predictor.Prelude.Word.{shift_in}
use sandbox_predictor.Predictor.Run.{Call, after, after-invariant}
use sandbox_predictor.Predictor.Gshare.Bounds.{InRange, InRange-replicate, InRange-get_or}
use sandbox_predictor.Predictor.Pending
use sandbox_predictor.Predictor.Pending.{Pstate, PstateQueue, dequeue, enqueue, no_state}
use sandbox_predictor.Predictor.Perceptron.{
  Perceptron, reset, construct, get_idx, history_bit, sum_from, output, predict_by, predict,
  predict_with, train, wrong, update, perceptron,
}
use sandbox_predictor.Predictor.Perceptron.Bounds.{
  IsRing, IsValid, zero_in, predict_by-IsValid, perceptron_update-IsValid,
}

reset-IsValid : (p : Perceptron) → IsValid p → IsValid (reset p)
unfolding reset Pending.reset
reset-IsValid p v =
    let (lo, hi) = zero_in p v in
    record {
      weights_size = length-replicate (p.table_size * p.ghr_len) (pos 0);
      bias_size = length-replicate p.table_size (pos 0);
      max_eq = v.max_eq;
      min_eq = v.min_eq;
      weights_in =
          InRange-replicate p.weight_min p.weight_max (pos 0) (p.table_size * p.ghr_len) lo hi;
      bias_in = InRange-replicate p.weight_min p.weight_max (pos 0) p.table_size lo hi;
      real_lt = omega arith;
      spec_lt = omega arith;
      ring = record { size = v.ring.size; head_in = omega arith; tail_in = omega arith };
    }

pub construct-IsValid :
    (ghr_len table_size weight_len : ℕ) → IsValid (construct ghr_len table_size weight_len)
unfolding construct reset Pending.reset Pending.empty
construct-IsValid ghr_len table_size weight_len =
    let top = 2 ^ (weight_len - 1) - 1 in
    record {
      weights_size = length-replicate (table_size * ghr_len) (pos 0);
      bias_size = length-replicate table_size (pos 0);
      max_eq = refl;
      min_eq = refl;
      weights_in =
          InRange-replicate (negsuc top) (pos top) (pos 0) (table_size * ghr_len) (omega arith)
            (omega arith);
      bias_in =
          InRange-replicate (negsuc top) (pos top) (pos 0) table_size (omega arith) (omega arith);
      real_lt = omega arith;
      spec_lt = omega arith;
      ring = record { size = refl; head_in = omega arith; tail_in = omega arith };
    }

-- After any calls of any of its methods, the tables of a perceptron have their sizes, its weights have `weight_len` bits, its
-- histories have 64 bits, and its ring of predictions has four slots.
pub perceptron_run-IsValid :
    (ghr_len table_size weight_len : ℕ) (calls : List Call)
    → IsValid (after perceptron (construct ghr_len table_size weight_len) calls)
unfolding perceptron predict predict_with
perceptron_run-IsValid ghr_len table_size weight_len calls =
    after-invariant perceptron IsValid calls (construct ghr_len table_size weight_len)
      (record {
        predicts = λ p pc v. predict_by-IsValid p pc p.spec_history v;
        predicts_with = λ p pc addon addon_len v. predict_by-IsValid p pc _ v;
        updates = perceptron_update-IsValid;
        histories = λ p taken v. v;
        resets = reset-IsValid;
      })
      (construct-IsValid ghr_len table_size weight_len)

abs-add : (a b : ℤ) → abs (a +ℤ b) ≤ abs a + abs b
unfolding ◌+ℤ◌
abs-add a b = ground arith

abs-sub : (a b : ℤ) → abs (a -ℤ b) ≤ abs a + abs b
unfolding ◌-ℤ◌
abs-sub a b = ground arith

-- a weight of `p` is at most `2 ^ (weight_len - 1)` in size
weight-abs :
    (p : Perceptron) (ws : List ℤ) (i : ℕ)
    → IsValid p
    → InRange p.weight_min p.weight_max ws
    → abs (get_or ws i (pos 0)) ≤ 2 ^ (p.weight_len - 1)
weight-abs p ws i v r =
    let (lo, hi) = zero_in p v in
    let (a, b) = InRange-get_or p.weight_min p.weight_max ws i (pos 0) r lo hi in
    let w = get_or ws i (pos 0) in
    let a' = subst (λ m. m ≤ℤ w) v.min_eq a in
    let b' = subst (λ m. w ≤ℤ m) v.max_eq b in ground (arith, pow_pos (p.weight_len - 1))

if-abs : (b : Bool) (s w : ℤ) → abs (if b then s +ℤ w else s -ℤ w) ≤ abs s + abs w
if-abs true s w = abs-add s w
if-abs false s w = abs-sub s w

sum_from-abs :
    (p : Perceptron) (base history rounds i : ℕ) (sum : ℤ)
    → IsValid p
    → abs (sum_from p.weights base history rounds i sum) ≤ abs sum + rounds * 2 ^ (p.weight_len - 1)
unfolding sum_from
sum_from-abs p base history zero i sum v = omega arith
sum_from-abs p base history (suc rounds) i sum v =
    let w = get_or p.weights (base + i) (pos 0) in
    let b = history_bit history i in
    omega (
      arith,
      sum_from-abs p base history rounds (i + 1) (if b then sum +ℤ w else sum -ℤ w) v,
      if-abs b sum w,
      weight-abs p p.weights (base + i) v v.weights_in,
      suc-mul rounds (2 ^ (p.weight_len - 1)),
    )

-- The output of a valid perceptron, for any history, is at most `(ghr_len + 1) * 2 ^ (weight_len - 1)`
-- in size.
pub output-abs :
    (p : Perceptron) (pc history : ℕ)
    → IsValid p
    → abs (output p pc history) ≤ (p.ghr_len + 1) * 2 ^ (p.weight_len - 1)
unfolding output
output-abs p pc history v =
    let idx = get_idx p pc in
    omega (
      arith,
      sum_from-abs p (idx * p.ghr_len) history p.ghr_len 0 (get_or p.bias idx (pos 0)) v,
      weight-abs p p.bias idx v v.bias_in,
      suc-mul p.ghr_len (2 ^ (p.weight_len - 1)),
    )

-- No prediction waits for its outcome, and the speculative history is the real one.
pub record IsIdle (p : Perceptron) : Type 0 where
  pub valid : IsValid p
  pub empty : p.pending_bp.head ≡ p.pending_bp.tail
  pub in_step : p.spec_history ≡ p.real_history

dequeue-enqueue :
    (q : PstateQueue) (s : Pstate) → IsRing q → q.head ≡ q.tail → (dequeue (enqueue q s)).1 ≡ s
unfolding dequeue enqueue
dequeue-enqueue q s r e =
    ap (λ i. get_or (set q.storage q.tail s) i no_state) e
    ∙ get_or-set_self q.storage q.tail s no_state (subst (λ n. q.tail < n) (sym r.size) r.tail_in)

ends-meet :
    (q : PstateQueue) (s : Pstate)
    → q.head ≡ q.tail
    → PstateQueue.head (dequeue (enqueue q s)).0 ≡ PstateQueue.tail (dequeue (enqueue q s)).0
unfolding dequeue enqueue
ends-meet q s e = ap (λ i. (i + 1) % 4) e

pending-train :
    (b : Bool) (p : Perceptron) (pc history : ℕ) (taken : Bool)
    → Perceptron.pending_bp (if b then train p pc history taken else p) ≡ p.pending_bp
unfolding train
pending-train true p pc history taken = refl
pending-train false p pc history taken = refl

-- A right prediction has shifted the outcome in already.
spec-step :
    (sum : ℤ) (taken : Bool) (spec real : ℕ)
    → spec ≡ real
    → (if wrong sum taken then shift_in real taken else shift_in spec (is_nonneg sum))
      ≡ shift_in real taken
spec-step sum taken spec real e = right_or_wrong (is_nonneg sum) taken ∙ refl
  where
    right_or_wrong :
        (b t : Bool)
        → (if not (eqb b t) then shift_in real t else shift_in spec b) ≡ shift_in real t
    right_or_wrong true true = ap (λ h. shift_in h true) e
    right_or_wrong true false = refl
    right_or_wrong false true = refl
    right_or_wrong false false = ap (λ h. shift_in h false) e

-- A prediction and its outcome leave an idle perceptron idle, with the outcome in its history and
-- nothing else, and the outcome is judged by the sum that made the prediction.
pub predict-update-IsIdle :
    (p : Perceptron) (pc : ℕ) (taken : Bool)
    → IsIdle p
    → IsIdle (update (predict p pc).0 pc taken)
      × (Perceptron.real_history (update (predict p pc).0 pc taken) ≡ shift_in p.real_history taken)
      × ((dequeue (Perceptron.pending_bp (predict p pc).0)).1
          ≡ record { history = p.real_history; sum = output p pc p.real_history })
unfolding predict predict_by update
predict-update-IsIdle p pc taken h =
    let s : Pstate = record { history = p.spec_history; sum = output p pc p.spec_history } in
    let d = dequeue-enqueue p.pending_bp s h.valid.ring h.empty in
    let q = dequeue (enqueue p.pending_bp s) in
    let p1 : Perceptron = record (predict p pc).0 { pending_bp = q.0 } in
    let b = wrong q.1.sum taken || ltb (abs q.1.sum) p.threshold in
    let same = pending-train b p1 pc q.1.history taken in
    (
      record {
        valid =
            perceptron_update-IsValid (predict p pc).0 pc taken
              (predict_by-IsValid p pc p.spec_history h.valid);
        empty = rw same (ends-meet p.pending_bp s h.empty);
        in_step = rw d (spec-step s.sum taken p.spec_history p.real_history h.in_step);
      },
      refl,
      d ∙ ap (λ h. record { history = h; sum = output p pc h }) h.in_step,
    )
