-- ===== src/Predictor/Gshare/Run.antt =====
-- A gshare predictor through its life.
use sandbox_predictor.Prelude.{ℕ, List, true}
use sandbox_predictor.Prelude.Word.{shift_in-lt}
use sandbox_predictor.Predictor.Run.{Call, after, after-invariant}
use sandbox_predictor.Predictor.Gshare.{construct, update_history, gshare}
use sandbox_predictor.Predictor.Gshare.Bounds.{
  IsValid, gshare_construct-IsValid, gshare_update-IsValid,
}

-- After any calls of any of its methods, the table of a gshare predictor has `2 ^ ghr_len` counters of `counter_len` bits,
-- and its history has 64 bits.
pub gshare_run-IsValid :
    (ghr_len counter_len : ℕ) (calls : List Call)
    → IsValid (after gshare (construct ghr_len counter_len) calls)
unfolding gshare update_history
gshare_run-IsValid ghr_len counter_len calls =
    after-invariant gshare IsValid calls (construct ghr_len counter_len)
      (record {
        predicts = λ g pc v. v;
        predicts_with = λ g pc addon addon_len v. v;
        updates = λ g pc taken v. (gshare_update-IsValid g pc taken v).0;
        histories = λ g taken v. record {
          size = v.size;
          history_lt = shift_in-lt g.history taken;
          max_eq = v.max_eq;
          min_eq = v.min_eq;
          in_range = v.in_range;
        };
        resets = λ g v. (gshare_update-IsValid g 0 true v).1;
      })
      (gshare_construct-IsValid ghr_len counter_len)
