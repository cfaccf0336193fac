-- ===== src/Predictor/Tournament.antt =====
-- `Tournament` of branch/bp_candidates/tournament.cc: two predictors and, for each bucket of program
-- counters, a count of which of them is right more often. Both are taken by their interface.
pub mod Preference
use Prim.Native.Nat.{bit_and}
use sandbox_predictor.Prelude.{ℕ, ◌%◌, Bool, List, ◌==◌, if◌then◌else◌, get_or, set, replicate}
use sandbox_predictor.Prelude.Int.{ℤ, pos, ◌+ℤ◌, ◌-ℤ◌, ltb_ℤ}
use sandbox_predictor.Prelude.Word.{shift_in}
use sandbox_predictor.Predictor.{Prediction, Predictor}

-- The counts are integers without bounds here; `int32_t` holds those of fewer than 2^31 outcomes.
pub record Tournament (S T : Type 0) : Type 0 where
  pub bp1 : S
  pub bp2 : T
  pub num_buckets : ℕ  -- unsigned
  pub real_history : List ℕ  -- uint64_t
  pub bp1_history : List ℕ  -- uint64_t
  pub bp2_history : List ℕ  -- uint64_t
  pub preference : List ℤ  -- int32_t

module _ {S T : Type 0} (first : Predictor S) (second : Predictor T) where
  unfoldable pub reset : Tournament S T → Tournament S T
  reset t = record t {
    real_history = replicate t.num_buckets 0;
    bp1_history = replicate t.num_buckets 0;
    bp2_history = replicate t.num_buckets 0;
    preference = replicate t.num_buckets (pos 0);
    bp1 = first.reset t.bp1;
    bp2 = second.reset t.bp2;
  }

  unfoldable pub construct : S → T → ℕ → Tournament S T
  unfolding reset
  construct s t n = reset (record {
    bp1 = s;
    bp2 = t;
    num_buckets = n;
    real_history = replicate n 0;
    bp1_history = replicate n 0;
    bp2_history = replicate n 0;
    preference = replicate n (pos 0);
  })

  -- A `bool` becomes a `Prediction` of confidence 0.
  unfoldable pub predict : Tournament S T → ℕ → Tournament S T × Prediction
  predict t pc =
      let p1 = first.predict t.bp1 pc in
      let p2 = second.predict t.bp2 pc in
      let idx = pc % t.num_buckets in
      let taken1 = Prediction.taken p1.1 in
      let taken2 = Prediction.taken p2.1 in
      (
        record t {
          bp1 = p1.0;
          bp2 = p2.0;
          bp1_history = set t.bp1_history idx (shift_in (get_or t.bp1_history idx 0) taken1);
          bp2_history = set t.bp2_history idx (shift_in (get_or t.bp2_history idx 0) taken2);
        },
        record {
          taken = if ltb_ℤ (pos 0) (get_or t.preference idx (pos 0)) then taken1 else taken2;
          confidence = 0;
        },
      )

  unfoldable pub update : Tournament S T → ℕ → Bool → Tournament S T
  update t pc taken =
      let idx = pc % t.num_buckets in
      let real = shift_in (get_or t.real_history idx 0) taken in
      let right1 = bit_and (get_or t.bp1_history idx 0) 1 == bit_and real 1 in
      let right2 = bit_and (get_or t.bp2_history idx 0) 1 == bit_and real 1 in
      let p0 = get_or t.preference idx (pos 0) in
      let p1 = if right1 then p0 +ℤ pos 1 else p0 in
      let p2 = if right2 then p1 -ℤ pos 1 else p1 in
      record t {
        bp1 = first.update t.bp1 pc taken;
        bp2 = second.update t.bp2 pc taken;
        real_history = set t.real_history idx real;
        preference = set t.preference idx p2;
      }

  unfoldable pub tournament : Predictor (Tournament S T)
  unfolding predict update reset
  tournament = record {
    predict = predict;
    predict_with = λ t pc addon len. predict t pc;
    update = update;
    update_history = λ t taken. t;
    reset = reset;
  }
