-- ===== src/Predictor/Vip.antt =====
-- `VIP` of branch/bp_candidates/vip.cc: a default predictor with private predictors beside it, one for
-- each entry of a miss cache, and a scoreboard that says whom to believe. The three classes it uses are
-- taken by their interfaces.
pub mod Scores
pub mod Isolation
use sandbox_predictor.Prelude.{
  ℕ, zero, suc, ◌+◌, Bool, not, ◌&&◌, List, map, Option, none, some, ◌==◌, if◌then◌else◌, eqb,
  get_or, set, replicate,
}
use sandbox_predictor.Prelude.Int.{ℤ, pos, negsuc, ◌+ℤ◌, ◌-ℤ◌, ltb_ℤ}
use sandbox_predictor.Prelude.Word.{u32, shift_in}
use sandbox_predictor.Predictor.{Prediction, Predictor}
use sandbox_predictor.MissCache.{MissCache}

-- `prototype` is the private predictor that the constructor copies; it also stands for a read out of
-- bounds.
pub record Vip (D P C : Type 0) : Type 0 where
  pub default_state : D
  pub cache : C
  pub mcache_size : ℕ  -- unsigned
  pub prototype : P
  pub privates : List P
  pub snap_interval : ℕ  -- unsigned
  pub ghr_len : ℕ  -- unsigned
  pub curr_count : ℕ  -- unsigned
  pub history : ℕ  -- uint64_t
  pub scoreboard : List ℤ  -- int
  pub last_default : Bool
  pub last_private : Bool

abbrev pub max_score : ℤ
max_score = pos 1

abbrev pub min_score : ℤ
min_score = negsuc 1

-- `updateScoreBoard` on one score
unfoldable pub next_score : Bool → Bool → Bool → ℤ → ℤ
next_score d_pred p_pred real score =
    if eqb d_pred p_pred
    then score
    else if eqb d_pred real && ltb_ℤ score max_score
    then score +ℤ pos 1
    else if ltb_ℤ min_score score
    then score -ℤ pos 1
    else score

unfoldable pub update_scoreboard : List ℤ → ℕ → Bool → Bool → Bool → List ℤ
unfolding next_score
update_scoreboard scoreboard idx d_pred p_pred real =
    set scoreboard idx (next_score d_pred p_pred real (get_or scoreboard idx (pos 0)))

module _ {D P C : Type 0} (default : Predictor D) (private : Predictor P)
    (mcache : MissCache C) where
  unfoldable pub reset : Vip D P C → Vip D P C
  reset v = record v {
    default_state = default.reset v.default_state;
    cache = mcache.reset v.cache;
    privates = map private.reset v.privates;
    scoreboard = map (λ s. pos 0) v.scoreboard;
    curr_count = 0;
    history = 0;
  }

  -- `copy` is the copy constructor of the private predictor; `lastDefault` and `lastPrivate` are not
  -- initialised.
  unfoldable pub construct : (P → P) → D → P → C → ℕ → ℕ → ℕ → Bool → Bool → Vip D P C
  unfolding reset
  construct copy default_state prototype cache n_entries snap_interval ghr_len last_default
        last_private =
      reset (record {
        default_state = default_state;
        cache = mcache.resize cache n_entries;
        mcache_size = n_entries;
        prototype = prototype;
        privates = replicate n_entries (copy prototype);
        snap_interval = snap_interval;
        ghr_len = ghr_len;
        curr_count = 0;
        history = 0;
        scoreboard = replicate n_entries (pos 0);
        last_default = last_default;
        last_private = last_private;
      })

  unfoldable pub predict : Vip D P C → ℕ → Vip D P C × Prediction
  predict v pc =
      let d = default.predict v.default_state pc in
      let v1 : Vip D P C = record v { default_state = d.0; last_default = Prediction.taken d.1 } in
      elim (mcache.get_idx v.cache pc) [
        | none ↦ (v1, d.1)
        | some i ↦
            let p = private.predict_with (get_or v.privates i v.prototype) pc v.history v.ghr_len in
            (
              record v1 { privates = set v.privates i p.0; last_private = Prediction.taken p.1 },
              if ltb_ℤ (get_or v.scoreboard i (pos 0)) (pos 0) then p.1 else d.1,
            )
      ]

  -- the private predictor's part of `update`
  unfoldable pub update_private : Vip D P C → Option ℕ → ℕ → Bool → Vip D P C
  unfolding update_scoreboard
  update_private v none pc taken = v
  update_private v (some i) pc taken = record v {
    privates = set v.privates i (private.update (get_or v.privates i v.prototype) pc taken);
    scoreboard = update_scoreboard v.scoreboard i v.last_default v.last_private taken;
  }

  -- the end of `update`: the snapshot at the interval, and the history
  unfoldable pub finish : Vip D P C → Bool → Vip D P C
  finish v taken =
      let count = u32 (v.curr_count + 1) in
      let due = count == v.snap_interval in
      record v {
        curr_count = if due then 0 else count;
        cache = if due then mcache.snapshot v.cache else v.cache;
        history = shift_in v.history taken;
      }

  unfoldable pub update : Vip D P C → ℕ → Bool → Vip D P C
  unfolding update_private finish
  update v pc taken =
      let cache = if eqb taken v.last_default then v.cache else (mcache.access v.cache pc).0 in
      let v1 : Vip D P C = record v {
        cache = cache;
        default_state = default.update v.default_state pc taken;
      } in
      finish (update_private v1 (mcache.get_idx cache pc) pc taken) taken

  unfoldable pub vip : Predictor (Vip D P C)
  unfolding predict update reset
  vip = record {
    predict = predict;
    predict_with = λ v pc addon len. predict v pc;
    update = update;
    update_history = λ v taken. v;
    reset = reset;
  }
