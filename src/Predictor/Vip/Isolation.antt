-- ===== src/Predictor/Vip/Isolation.antt =====
-- The default predictor inside a VIP predictor.
use sandbox_predictor.Prelude.{
  ℕ, ◌≡◌, refl, ap, ◌∙◌, Bool, List, [], ◌∷◌, Option, none, some, Option-cases, inl, inr,
  if◌then◌else◌, eqb,
}
use sandbox_predictor.Predictor.{Predictor}
use sandbox_predictor.Predictor.Run.{Op, predict_op, update_op, reset_op, run}
use sandbox_predictor.MissCache.{MissCache}
use sandbox_predictor.Predictor.Vip.{Vip, reset, predict, update_private, finish, update, vip}

module _ {D P C : Type 0} (default : Predictor D) (private : Predictor P)
    (mcache : MissCache C) where
  predict-default :
      (v : Vip D P C) (pc : ℕ)
      → Vip.default_state (predict default private mcache v pc).0
        ≡ (default.predict v.default_state pc).0
  unfolding predict
  predict-default v pc = elim (Option-cases (mcache.get_idx v.cache pc)) [
    | inl q ↦ rw (q, predict)
    | inr (i, q) ↦ rw (q, predict)
  ]

  update_private-default :
      (v : Vip D P C) (o : Option ℕ) (pc : ℕ) (taken : Bool)
      → Vip.default_state (update_private default private mcache v o pc taken) ≡ v.default_state
  unfolding update_private
  update_private-default v none pc taken = refl
  update_private-default v (some i) pc taken = refl

  update-default :
      (v : Vip D P C) (pc : ℕ) (taken : Bool)
      → Vip.default_state (update default private mcache v pc taken)
        ≡ default.update v.default_state pc taken
  unfolding update finish
  update-default v pc taken =
      let cache = if eqb taken v.last_default then v.cache else (mcache.access v.cache pc).0 in
      update_private-default
        (record v { cache = cache; default_state = default.update v.default_state pc taken })
        (mcache.get_idx cache pc) pc taken

  -- The private predictors, the miss cache and the scoreboard never disturb the default predictor: its
  -- state after any predictions, outcomes and resets is the one that the same calls make of it alone.
  pub vip-default_state :
      (ops : List Op) (v : Vip D P C)
      → Vip.default_state (run (vip default private mcache) v ops) ≡ run default v.default_state ops
  unfolding run vip reset
  vip-default_state [] v = refl
  vip-default_state (predict_op pc ∷ ops) v =
      vip-default_state ops (predict default private mcache v pc).0
      ∙ ap (λ d. run default d ops) (predict-default v pc)
  vip-default_state (update_op pc taken ∷ ops) v =
      vip-default_state ops (update default private mcache v pc taken)
      ∙ ap (λ d. run default d ops) (update-default v pc taken)
  vip-default_state (reset_op ∷ ops) v = vip-default_state ops (reset default private mcache v)
