-- ===== src/Predictor/Tests.antt =====
-- Runs of the predictors on small inputs.
use sandbox_predictor.Prelude.{
  ℕ, ◌+◌, ◌-◌, ◌*◌, ◌^◌, ◌≤◌, ◌≡◌, refl, true, false, List, [], ◌∷◌, arith, ◌%◌, ◌==◌,
  if◌then◌else◌, get_or, set, eqb, length,
}
use sandbox_predictor.Prelude.Every.{Every}
use sandbox_predictor.Prelude.Int.{pos, ◌+ℤ◌, ◌-ℤ◌, abs}
use sandbox_predictor.Prelude.Word.{shift_in}
use sandbox_predictor.MissCache.Fixed
use sandbox_predictor.MissCache.Fixed.{FixedCache, fixed_cache}
use sandbox_predictor.Predictor.{Prediction, Predictor}
use sandbox_predictor.Predictor.Run.{
  Op, predict_op, update_op, reset_op, run, outputs, Call, predict_call, predict_with_call,
  update_call, update_history_call, reset_call, after,
}
use sandbox_predictor.Predictor.Gshare
use sandbox_predictor.Predictor.Gshare.{Gshare, gshare}
use sandbox_predictor.Predictor.Gshare.Bounds
use sandbox_predictor.Predictor.Gshare.Bounds.{predict_confidence, gshare_construct-IsValid}
use sandbox_predictor.Predictor.Gshare.Run.{gshare_run-IsValid}
use sandbox_predictor.Predictor.Gshare.Window.{trained, get_idx_window}
use sandbox_predictor.Predictor.Pending
use sandbox_predictor.Predictor.Pending.{Pstate, dequeue}
use sandbox_predictor.Predictor.Perceptron
use sandbox_predictor.Predictor.Perceptron.{Perceptron, perceptron, output}
use sandbox_predictor.Predictor.Perceptron.Bounds as PerceptronBounds
use sandbox_predictor.Predictor.Perceptron.Run as PerceptronRun
use sandbox_predictor.Predictor.Perceptron.Run.{
  perceptron_run-IsValid, output-abs, IsIdle, predict-update-IsIdle,
}
use sandbox_predictor.Predictor.NestLoop
use sandbox_predictor.Predictor.NestLoop.{NestLoop, nest_loop}
use sandbox_predictor.Predictor.NestLoop.Untrained.{nest_loop-always_taken}
use sandbox_predictor.Predictor.Ltage
use sandbox_predictor.Predictor.Ltage.{ltage}
use sandbox_predictor.Predictor.Ltage.Equivalence.{ltage-outputs}
use sandbox_predictor.Predictor.TagTable
use sandbox_predictor.Predictor.TagTable.{TagTable, fold, fold_loop}
use sandbox_predictor.Predictor.TagTable.Bounds as TagTableBounds
use sandbox_predictor.Predictor.TagTable.Fold.{parts_xor, fold_lem}
use sandbox_predictor.Predictor.TagTable.Lookup.{add-lookup}
use sandbox_predictor.Predictor.Tage
use sandbox_predictor.Predictor.Tage.{Tage, tage, below}
use sandbox_predictor.Predictor.Tage.Provider.{Chosen, Searched, predict-providers}
use sandbox_predictor.Predictor.Tage.Run.{IsSound, tage-IsSound}
use sandbox_predictor.Predictor.Tournament
use sandbox_predictor.Predictor.Tournament.{Tournament}
use sandbox_predictor.Predictor.Tournament.Preference.{update-preference}
use sandbox_predictor.Predictor.Vip
use sandbox_predictor.Predictor.Vip.{Vip, vip, max_score, min_score}
use sandbox_predictor.Predictor.Vip.Scores.{IsScore, scores, vip-Scores, default_right-alternates}
use sandbox_predictor.Predictor.Vip.Isolation.{vip-default_state}

-- two rounds of a branch that is taken and then not
abbrev calls : List Op
calls =
    predict_op 20
    ∷ update_op 20 true
    ∷ predict_op 20
    ∷ update_op 20 false
    ∷ reset_op
    ∷ predict_op 24
    ∷ []

-- calls of every method
abbrev all_calls : List Call
all_calls =
    predict_call 20
    ∷ update_call 20 true
    ∷ predict_with_call 20 5 3
    ∷ update_call 20 false
    ∷ update_history_call true
    ∷ reset_call
    ∷ predict_call 24
    ∷ update_call 24 true
    ∷ []

abbrev small_gshare : Gshare
small_gshare = Gshare.construct 3 2

gshare_run-IsValid_example : Bounds.IsValid (after gshare (Gshare.construct 3 2) all_calls)
gshare_run-IsValid_example = gshare_run-IsValid 3 2 all_calls

-- the same predictor with another past
abbrev other_gshare : Gshare
other_gshare = record small_gshare { history = 7 }

get_idx_window_example :
    Gshare.get_idx (trained small_gshare ((5, true) ∷ (6, false) ∷ (5, true) ∷ [])) 5
    ≡ Gshare.get_idx (trained other_gshare ((5, true) ∷ (6, false) ∷ (5, true) ∷ [])) 5
unfolding Gshare.construct Gshare.reset
get_idx_window_example =
    get_idx_window small_gshare other_gshare ((5, true) ∷ (6, false) ∷ (5, true) ∷ []) 5 refl
      (omega arith) (omega arith)

abbrev small_perceptron : Perceptron
small_perceptron = Perceptron.construct 4 2 3

perceptron_run-IsValid_example :
    PerceptronBounds.IsValid (after perceptron (Perceptron.construct 4 2 3) all_calls)
perceptron_run-IsValid_example = perceptron_run-IsValid 4 2 3 all_calls

output-abs_example :
    abs (output small_perceptron 5 9)
    ≤ (Perceptron.ghr_len small_perceptron + 1) * 2 ^ (Perceptron.weight_len small_perceptron - 1)
output-abs_example = output-abs small_perceptron 5 9 (PerceptronRun.construct-IsValid 4 2 3)

small-IsIdle : IsIdle small_perceptron
unfolding Perceptron.construct Perceptron.reset Pending.reset
small-IsIdle = record {
  valid = PerceptronRun.construct-IsValid 4 2 3;
  empty = refl;
  in_step = refl;
}

predict-update-IsIdle_example :
    IsIdle (Perceptron.update (Perceptron.predict small_perceptron 5).0 5 true)
    × (Perceptron.real_history (Perceptron.update (Perceptron.predict small_perceptron 5).0 5 true)
        ≡ shift_in (Perceptron.real_history small_perceptron) true)
    × ((dequeue (Perceptron.pending_bp (Perceptron.predict small_perceptron 5).0)).1 ≡ record {
      history = Perceptron.real_history small_perceptron;
      sum = output small_perceptron 5 (Perceptron.real_history small_perceptron);
    })
predict-update-IsIdle_example = predict-update-IsIdle small_perceptron 5 true small-IsIdle

nest_loop-always_taken_example :
    (NestLoop.predict (after nest_loop (NestLoop.construct 14 4) all_calls) 20).1
    ≡ record { taken = true; confidence = 0 }
nest_loop-always_taken_example = nest_loop-always_taken 14 4 all_calls 20

ltage-outputs_example :
    outputs (ltage gshare) (Ltage.construct gshare small_gshare) calls
    ≡ outputs gshare small_gshare calls
ltage-outputs_example = ltage-outputs gshare small_gshare calls

fold_lem_example :
    (fold 1234 3 ≡ parts_xor 64 3 1234 0) × (fold_loop 70 3 1234 0 ≡ fold_loop 64 3 1234 0)
fold_lem_example = fold_lem 1234 3 70 (omega arith) (omega arith) (omega arith) (omega arith)

abbrev table : TagTable
table = TagTable.construct 2 4

has_room : (TagTable.add table 9 0).1 ≡ true
unfolding TagTable.add TagTable.construct TagTable.hard_reset
has_room = refl

add-lookup_example :
    TagTable.lookup (TagTable.add table 9 0).0 9 0
    ≡ record { tag = TagTable.get_tag table 9 0; counter = pos 0; useful = pos 0 }
add-lookup_example = add-lookup table 9 0 (TagTableBounds.construct-IsValid 2 4) has_room

-- `random()` as a generator that counts
abbrev counting : ℕ → ℕ × ℕ
counting r = (r + 1, r)

abbrev small_tage : Tage Gshare
small_tage = Tage.construct gshare small_gshare 3 2

predict-providers_example :
    Searched (Tage.tables small_tage) 9 (Tage.history small_tage) (Tage.n_tables small_tage) (
      Tage.main_pred (Tage.predict gshare small_tage 9).0,
      Tage.main_provider (Tage.predict gshare small_tage 9).0,
    )
    × Searched
        (Tage.tables small_tage)
        9
        (Tage.history small_tage)
        (below (Tage.main_provider (Tage.predict gshare small_tage 9).0))
        (
          Tage.alt_pred (Tage.predict gshare small_tage 9).0,
          Tage.alt_provider (Tage.predict gshare small_tage 9).0,
        )
    × Chosen
        (Tage.main_pred (Tage.predict gshare small_tage 9).0)
        (Tage.alt_pred (Tage.predict gshare small_tage 9).0)
        (Tage.main_provider (Tage.predict gshare small_tage 9).0)
        (Tage.alt_provider (Tage.predict gshare small_tage 9).0)
        (Predictor.predict gshare (Tage.base_state small_tage) 9).1
        (Tage.predict gshare small_tage 9).1
predict-providers_example = predict-providers gshare small_tage 9

tage-IsSound_example :
    IsSound (after (tage gshare counting) (0, Tage.construct gshare small_gshare 3 2) all_calls).1
tage-IsSound_example = tage-IsSound gshare counting 0 small_gshare 3 2 all_calls

abbrev contest : Tournament Gshare Perceptron
contest = Tournament.construct gshare perceptron small_gshare small_perceptron 2

update-preference_example :
    Tournament.preference (
      Tournament.update gshare perceptron (Tournament.predict gshare perceptron contest 5).0 5 true)
    ≡ set (Tournament.preference contest) (5 % Tournament.num_buckets contest) (
        let p0 =
          get_or (Tournament.preference contest) (5 % Tournament.num_buckets contest) (pos 0) in
        let p1 =
          if eqb (Prediction.taken (Predictor.predict gshare (Tournament.bp1 contest) 5).1) true
          then p0 +ℤ pos 1
          else p0 in
        if eqb (Prediction.taken (Predictor.predict perceptron (Tournament.bp2 contest) 5).1) true
        then p1 -ℤ pos 1
        else p1)
unfolding Tournament.construct Tournament.reset
update-preference_example =
    update-preference gshare perceptron contest 5 true (omega arith) refl refl

-- gshare with a private perceptron for each of the PCs 20 and 24
abbrev sandbox : Vip Gshare Perceptron FixedCache
sandbox =
    Vip.construct gshare perceptron fixed_cache Perceptron.copy small_gshare small_perceptron
      (Fixed.construct (20 ∷ 24 ∷ []) 2) 2 2 8 false false

vip-default_state_example :
    Vip.default_state (run (vip gshare perceptron fixed_cache) sandbox calls)
    ≡ run gshare (Vip.default_state sandbox) calls
vip-default_state_example = vip-default_state gshare perceptron fixed_cache calls sandbox

sandbox-scores : Every IsScore (Vip.scoreboard sandbox)
unfolding Vip.construct Vip.reset Every
sandbox-scores = ((omega arith, omega arith), ((omega arith, omega arith), tt))

vip-Scores_example :
    Every IsScore (Vip.scoreboard (after (vip gshare perceptron fixed_cache) sandbox all_calls))
vip-Scores_example = vip-Scores gshare perceptron fixed_cache all_calls sandbox sandbox-scores

default_right-alternates_example :
    scores true (true ∷ false ∷ true ∷ []) max_score
    ≡ (if length (true ∷ false ∷ true ∷ []) % 2 == 0 then max_score else pos 0)
default_right-alternates_example = default_right-alternates (true ∷ false ∷ true ∷ [])
