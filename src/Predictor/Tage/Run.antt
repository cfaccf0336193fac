-- ===== src/Predictor/Tage/Run.antt =====
-- What holds of a TAGE predictor after any calls, whatever its base predictor and the random numbers.
use Prim.Native.Nat.{bit_xor}
use sandbox_predictor.Prelude.{
  ℕ, ◌+◌, ◌-◌, ◌^◌, ◌≤◌, ◌<◌, ◌≡◌, refl, ◌∙◌, Bool, true, false, List, map, Option, none, some,
  arith, length, length-map, if◌then◌else◌, ◌&&◌, ltb, ◌==◌, not, eqb,
}
use sandbox_predictor.Prelude.Bits.{bit_and-le, bit_xor-lt, pow_pos}
use sandbox_predictor.Prelude.Every.{Every, Every-map}
use sandbox_predictor.Prelude.Int.{pos}
use sandbox_predictor.Predictor.{Predictor}
use sandbox_predictor.Predictor.Run.{Call, after, after-invariant}
use sandbox_predictor.Predictor.TagTable
use sandbox_predictor.Predictor.TagTable.{
  TageEntry, TagTable, is_valid, entry_taken, add, decay, soft_reset, hard_reset,
}
use sandbox_predictor.Predictor.TagTable.Bounds
use sandbox_predictor.Predictor.Tage.{
  Tage, below, above, make_tables, useful_of, reset, construct, predict, train, requests, update,
  tage,
}
use sandbox_predictor.Predictor.Tage.Provider.{Searched, predict-providers}
use sandbox_predictor.Predictor.Tage.Tables.{
  AllValid, if-AllValid, allocate-AllValid, update_table-AllValid, AllValid-trans,
  make_tables-AllValid,
}
use sandbox_predictor.Prelude.Word.{u64, shift_in}

unfoldable pub IsBelow : Option ℕ → ℕ → Type 0
IsBelow none n = 0 ≤ n
IsBelow (some i) n = i < n

-- The tables keep their sizes and ranges, the history its length, and the providers are tables.
pub record IsSound {B : Type 0} (t : Tage B) : Type 0 where
  pub count : length t.tables ≡ t.n_tables
  pub tables_valid : Every Bounds.IsValid t.tables
  pub history_lt : t.history < 2 ^ t.ghr_len
  pub mask_le : t.reset_mask ≤ 3
  pub main_below : IsBelow t.main_provider t.n_tables
  pub alt_below : IsBelow t.alt_provider t.n_tables

Searched-IsBelow :
    (tables : List TagTable) (pc history top : ℕ) (e : TageEntry) (o : Option ℕ)
    → Searched tables pc history top (e, o)
    → IsBelow o top
unfolding Searched IsBelow
Searched-IsBelow tables pc history top e none s = omega arith
Searched-IsBelow tables pc history top e (some i) s = s.inside

IsBelow-below : (o p : Option ℕ) (n : ℕ) → IsBelow p n → IsBelow o (below p) → IsBelow o n
unfolding IsBelow
IsBelow-below none none n a b = omega arith
IsBelow-below none (some i) n a b = omega arith
IsBelow-below (some j) none n a b = omega arith
IsBelow-below (some j) (some i) n a b = omega arith

soft_reset-AllValid :
    (mask : ℕ) (tables : List TagTable)
    → mask ≤ 3
    → Every Bounds.IsValid tables
    → AllValid tables (map (λ table. soft_reset table mask) tables)
soft_reset-AllValid mask tables h v = (
  Every-map Bounds.IsValid (λ table. soft_reset table mask)
      (λ t w. Bounds.soft_reset-IsValid t mask h w) tables v,
  length-map (λ table. soft_reset table mask) tables,
)

-- `resetMask ^= 3`
toggled : (mask : ℕ) → mask ≤ 3 → bit_xor mask 3 ≤ 3
toggled mask h = omega (arith, bit_xor-lt 2 mask 3 (omega arith) (omega arith))

if-le : (b : Bool) (m n : ℕ) → m ≤ 3 → n ≤ 3 → (if b then m else n) ≤ 3
if-le true m n p q = p
if-le false m n p q = q

module _ {B : Type 0} (base : Predictor B) where
  predict-IsSound : (t : Tage B) (pc : ℕ) → IsSound t → IsSound (predict base t pc).0
  unfolding predict
  predict-IsSound t pc s =
      let (m, a, _) = predict-providers base t pc in
      let mb = Searched-IsBelow t.tables pc t.history _ _ _ m in
      record {
        count = s.count;
        tables_valid = s.tables_valid;
        history_lt = s.history_lt;
        mask_le = s.mask_le;
        main_below = mb;
        alt_below =
            IsBelow-below _ _ t.n_tables mb (Searched-IsBelow t.tables pc t.history _ _ _ a);
      }

  train-AllValid :
      (t : Tage B) (pc : ℕ) (taken : Bool)
      → IsSound t
      → AllValid t.tables (Tage.tables (train base t pc taken))
  unfolding train
  train-AllValid t pc taken s =
      let main = t.main_pred in
      let alt_result = if is_valid t.alt_pred then entry_taken t.alt_pred else t.base_pred in
      let useful =
        if is_valid main && not (eqb (entry_taken main) alt_result)
        then useful_of (eqb (entry_taken main) taken)
        else pos 0 in
      let first =
        if-AllValid (is_valid main) t.tables _ _
          (update_table-AllValid pc t.history t.tables t.main_provider taken useful s.tables_valid)
          (s.tables_valid, refl) in
      if-AllValid (is_valid t.alt_pred && TagTable.is_useless main) t.tables _ _
        (AllValid-trans t.tables _ _ first (
          update_table-AllValid pc t.history _ t.alt_provider taken
            (useful_of (eqb (entry_taken t.alt_pred) taken)) first.0))
        first

  update-IsSound :
      (rand_num : ℕ) (t : Tage B) (pc : ℕ) (taken : Bool)
      → IsSound t
      → IsSound (update base rand_num t pc taken)
  unfolding update train
  update-IsSound rand_num t pc taken s =
      let trained = train-AllValid t pc taken s in
      let start = above t.main_provider in
      let t1 = train base t pc taken in
      let grown =
        if-AllValid (requests base t taken && ltb start t.n_tables) t.tables _ _
          (AllValid-trans t.tables _ _ trained (
            allocate-AllValid pc t.history (t.n_tables - start) start rand_num t1.tables trained.0))
          trained in
      let due = u64 (t.branch_count + 1) == t.reset_period in
      let done =
        if-AllValid due t.tables _ _
          (AllValid-trans t.tables _ _ grown (soft_reset-AllValid t.reset_mask _ s.mask_le grown.0))
          grown in
      record {
        count = done.1 ∙ s.count;
        tables_valid = done.0;
        history_lt =
            omega
              (arith, bit_and-le (shift_in t.history taken) (2 ^ t.ghr_len - 1), pow_pos t.ghr_len);
        mask_le = if-le due _ _ (toggled t.reset_mask s.mask_le) s.mask_le;
        main_below = s.main_below;
        alt_below = s.alt_below;
      }

  reset-IsSound : (t : Tage B) → IsSound t → IsSound (reset base t)
  unfolding reset IsBelow
  reset-IsSound t s = record {
    count = length-map hard_reset t.tables ∙ s.count;
    tables_valid =
        Every-map Bounds.IsValid hard_reset Bounds.hard_reset-IsValid t.tables s.tables_valid;
    history_lt = pow_pos t.ghr_len;
    mask_le = omega arith;
    main_below = omega arith;
    alt_below = omega arith;
  }

  construct-IsSound : (b : B) (n_tables idx_len : ℕ) → IsSound (construct base b n_tables idx_len)
  unfolding construct reset IsBelow
  construct-IsSound b n_tables idx_len =
      let (v, l) = make_tables-AllValid idx_len n_tables 0 in
      record {
        count = length-map hard_reset (make_tables idx_len n_tables 0) ∙ l;
        tables_valid =
            Every-map Bounds.IsValid hard_reset Bounds.hard_reset-IsValid
              (make_tables idx_len n_tables 0) v;
        history_lt = pow_pos (2 ^ n_tables);
        mask_le = omega arith;
        main_below = omega arith;
        alt_below = omega arith;
      }

  -- After any calls of any of its methods, with any base predictor and any random numbers, no table is lost, every counter and
  -- use count is in its range, the history fits its length, and the providers are tables.
  pub tage-IsSound :
      {R : Type 0} (random : R → R × ℕ) (r : R) (b : B) (n_tables idx_len : ℕ) (calls : List Call)
      → IsSound (after (tage base random) (r, construct base b n_tables idx_len) calls).1
  unfolding tage
  tage-IsSound random r b n_tables idx_len calls =
      after-invariant (tage base random) (λ s. IsSound s.1) calls
        (r, construct base b n_tables idx_len)
        (record {
          predicts = λ s pc h. predict-IsSound s.1 pc h;
          predicts_with = λ s pc addon addon_len h. predict-IsSound s.1 pc h;
          updates = λ s pc taken h. update-IsSound (random s.0).1 s.1 pc taken h;
          histories = λ s taken h. h;
          resets = λ s h. reset-IsSound s.1 h;
        })
        (construct-IsSound b n_tables idx_len)
