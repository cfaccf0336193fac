-- ===== src/Predictor.antt =====
-- `Prediction` and `Predictor` of inc/bp_candidates.h. A predictor is a table of functions over its
-- state, the virtual methods of the class; the fields that a class does not override are those of
-- `Predictor`.
pub mod Counter
pub mod Gshare
pub mod Ltage
pub mod NestLoop
pub mod Pending
pub mod Perceptron
pub mod Run
pub mod TagTable
pub mod Tage
pub mod Tests
pub mod Tournament
pub mod Vip
use sandbox_predictor.Prelude.{ℕ, Bool, true, not}

pub record Prediction : Type 0 where
  pub taken : Bool
  pub confidence : ℕ  -- unsigned

-- `!p` and `~p`
unfoldable pub opposite : Prediction → Prediction
opposite p = record { taken = not p.taken; confidence = p.confidence }

pub record Predictor (S : Type 0) : Type 0 where
  pub predict : S → ℕ → S × Prediction
  pub predict_with : S → ℕ → ℕ → ℕ → S × Prediction  -- pc, addon, addon_len
  pub update : S → ℕ → Bool → S
  pub update_history : S → Bool → S
  pub reset : S → S

-- the base class, which predicts taken and keeps no state
unfoldable pub static_taken : (S : Type 0) → Predictor S
static_taken S = record {
  predict = λ s pc. (s, record { taken = true; confidence = 0 });
  predict_with = λ s pc addon len. (s, record { taken = true; confidence = 0 });
  update = λ s pc taken. s;
  update_history = λ s taken. s;
  reset = λ s. s;
}
