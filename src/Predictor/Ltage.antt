-- ===== src/Predictor/Ltage.antt =====
-- `LTAGE` of branch/bp_candidates/ltage.cc: a TAGE predictor with a loop predictor beside it. TAGE is
-- taken by the interface of a predictor, `tage` over its state.
pub mod Equivalence
use sandbox_predictor.Prelude.{ℕ, Bool, leb, if◌then◌else◌}
use sandbox_predictor.Predictor.{Prediction, Predictor}
use sandbox_predictor.Predictor.NestLoop
use sandbox_predictor.Predictor.NestLoop.{NestLoop}

pub record Ltage (T : Type 0) : Type 0 where
  pub tage_state : T
  pub loop_state : NestLoop
  pub loop_threshold : ℕ  -- unsigned

module _ {T : Type 0} (tage : Predictor T) where
  unfoldable pub construct : T → Ltage T
  construct t =
      let loop = NestLoop.construct 14 4 in
      record { tage_state = t; loop_state = loop; loop_threshold = loop.max_confidence }

  unfoldable pub predict : Ltage T → ℕ → Ltage T × Prediction
  predict l pc =
      let t = tage.predict l.tage_state pc in
      let n = NestLoop.predict l.loop_state pc in
      (
        record l { tage_state = t.0; loop_state = n.0 },
        if leb l.loop_threshold (Prediction.confidence n.1) then n.1 else t.1,
      )

  unfoldable pub update : Ltage T → ℕ → Bool → Ltage T
  update l pc taken = record l {
    tage_state = tage.update l.tage_state pc taken;
    loop_state = NestLoop.update l.loop_state pc taken;
  }

  unfoldable pub reset : Ltage T → Ltage T
  reset l = record l {
    tage_state = tage.reset l.tage_state;
    loop_state = NestLoop.reset l.loop_state;
  }

  unfoldable pub ltage : Predictor (Ltage T)
  unfolding predict update reset
  ltage = record {
    predict = predict;
    predict_with = λ l pc addon len. predict l pc;
    update = update;
    update_history = λ l taken. l;
    reset = reset;
  }
