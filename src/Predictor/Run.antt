-- ===== src/Predictor/Run.antt =====
-- Programs as a predictor sees them: any order of predictions, outcomes and resets, and any order of
-- all its methods.
use sandbox_predictor.Prelude.{ℕ, Bool, List, [], ◌∷◌}
use sandbox_predictor.Predictor.{Prediction, Predictor}

-- what the simulator calls
pub data Op : Type 0 where
  predict_op : ℕ → Op
  update_op : ℕ → Bool → Op
  reset_op : Op

-- The state that a list of calls leaves.
unfoldable pub run : {S : Type 0} → Predictor S → S → List Op → S
run b s [] = s
run b s (predict_op pc ∷ ops) = run b (b.predict s pc).0 ops
run b s (update_op pc taken ∷ ops) = run b (b.update s pc taken) ops
run b s (reset_op ∷ ops) = run b (b.reset s) ops

-- the predictions that it makes, the first one first
unfoldable pub outputs : {S : Type 0} → Predictor S → S → List Op → List Prediction
outputs b s [] = []
outputs b s (predict_op pc ∷ ops) = (b.predict s pc).1 ∷ outputs b (b.predict s pc).0 ops
outputs b s (update_op pc taken ∷ ops) = outputs b (b.update s pc taken) ops
outputs b s (reset_op ∷ ops) = outputs b (b.reset s) ops

-- every virtual method of a predictor
pub data Call : Type 0 where
  predict_call : ℕ → Call
  predict_with_call : ℕ → ℕ → ℕ → Call  -- pc, addon, addon_len
  update_call : ℕ → Bool → Call
  update_history_call : Bool → Call
  reset_call : Call

-- The state that a call leaves, and a list of calls.
unfoldable pub call : {S : Type 0} → Predictor S → S → Call → S
call b s (predict_call pc) = (b.predict s pc).0
call b s (predict_with_call pc addon addon_len) = (b.predict_with s pc addon addon_len).0
call b s (update_call pc taken) = b.update s pc taken
call b s (update_history_call taken) = b.update_history s taken
call b s reset_call = b.reset s

unfoldable pub after : {S : Type 0} → Predictor S → S → List Call → S
unfolding call
after b s [] = s
after b s (c ∷ calls) = after b (call b s c) calls

-- A property that every method keeps.
pub record Keeps {S : Type 0} (b : Predictor S) (P : S → Type 0) : Type 0 where
  pub predicts : (s : S) (pc : ℕ) → P s → P (b.predict s pc).0
  pub predicts_with :
      (s : S) (pc addon addon_len : ℕ) → P s → P (b.predict_with s pc addon addon_len).0
  pub updates : (s : S) (pc : ℕ) (taken : Bool) → P s → P (b.update s pc taken)
  pub histories : (s : S) (taken : Bool) → P s → P (b.update_history s taken)
  pub resets : (s : S) → P s → P (b.reset s)

keeps_call :
    {S : Type 0} (b : Predictor S) (P : S → Type 0) (c : Call) (s : S)
    → Keeps b P
    → P s
    → P (call b s c)
unfolding call
keeps_call b P (predict_call pc) s k h = k.predicts s pc h
keeps_call b P (predict_with_call pc addon addon_len) s k h = k.predicts_with s pc addon addon_len h
keeps_call b P (update_call pc taken) s k h = k.updates s pc taken h
keeps_call b P (update_history_call taken) s k h = k.histories s taken h
keeps_call b P reset_call s k h = k.resets s h

-- It holds after any calls.
pub after-invariant :
    {S : Type 0} (b : Predictor S) (P : S → Type 0) (calls : List Call) (s : S)
    → Keeps b P
    → P s
    → P (after b s calls)
unfolding after
after-invariant b P [] s k h = h
after-invariant b P (c ∷ calls) s k h =
    after-invariant b P calls (call b s c) k (keeps_call b P c s k h)
