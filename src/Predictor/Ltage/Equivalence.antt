-- ===== src/Predictor/Ltage/Equivalence.antt =====
-- What the loop predictor adds to TAGE.
use sandbox_predictor.Prelude.{ℕ, ◌≡◌, refl, ap, List, [], ◌∷◌}
use sandbox_predictor.Predictor.{Predictor}
use sandbox_predictor.Predictor.Run.{Op, predict_op, update_op, reset_op, outputs}
use sandbox_predictor.Predictor.NestLoop
use sandbox_predictor.Predictor.NestLoop.{NestLoop}
use sandbox_predictor.Predictor.NestLoop.Untrained.{
  IsTable, predict-IsTable, update-IsTable, reset-IsTable, construct-IsTable,
}
use sandbox_predictor.Predictor.Ltage.{Ltage, construct, predict, update, reset, ltage}

module _ {T : Type 0} (tage : Predictor T) where
  quiet :
      (l : Ltage T) (pc : ℕ)
      → IsTable l.loop_state
      → l.loop_threshold ≡ 3
      → (predict tage l pc).1 ≡ (tage.predict l.tage_state pc).1
  unfolding predict
  quiet l pc t h = rw (h, (predict-IsTable l.loop_state pc t).1)

  same_outputs :
      (ops : List Op) (l : Ltage T)
      → IsTable l.loop_state
      → l.loop_threshold ≡ 3
      → outputs (ltage tage) l ops ≡ outputs tage l.tage_state ops
  unfolding outputs ltage predict update reset
  same_outputs [] l t h = refl
  same_outputs (predict_op pc ∷ ops) l t h = rw (quiet l pc t h) (
      ap (λ r. (tage.predict l.tage_state pc).1 ∷ r)
        (same_outputs ops (predict tage l pc).0 (predict-IsTable l.loop_state pc t).0 h))
  same_outputs (update_op pc taken ∷ ops) l t h =
      same_outputs ops (update tage l pc taken) (update-IsTable l.loop_state pc taken t) h
  same_outputs (reset_op ∷ ops) l t h =
      same_outputs ops (reset tage l) (reset-IsTable l.loop_state t) h

  -- An LTAGE predictor makes the predictions of its TAGE predictor, in every run.
  pub ltage-outputs :
      (t : T) (ops : List Op) → outputs (ltage tage) (construct tage t) ops ≡ outputs tage t ops
  unfolding construct NestLoop.construct
  ltage-outputs t ops = same_outputs ops (construct tage t) (construct-IsTable 14 4) refl
