-- ===== src/Predictor/Tage.antt =====
-- `TAGE` of branch/bp_candidates/tage.cc: tagged tables of growing tags over a base predictor. The base
-- predictor is a parameter, `base` over its state; `random()` is an argument of `update`.
pub mod Provider
pub mod Run
pub mod Tables
use Prim.Native.Nat.{bit_and, bit_xor}
use sandbox_predictor.Prelude.{
  ℕ, zero, suc, ◌+◌, ◌-◌, ◌*◌, ◌/◌, ◌%◌, ◌^◌, Bool, true, false, not, ◌&&◌, List, [], ◌∷◌, map,
  Option, none, some, ltb, ◌==◌, if◌then◌else◌, eqb, get_or, set,
}
use sandbox_predictor.Prelude.Int.{ℤ, pos, negsuc}
use sandbox_predictor.Prelude.Word.{u64, shift_in}
use sandbox_predictor.Predictor.{Prediction, Predictor}
use sandbox_predictor.Predictor.TagTable
use sandbox_predictor.Predictor.TagTable.{
  TageEntry, TagTable, absent, is_valid, is_weak, entry_taken, to_prediction, lookup, add, decay,
  soft_reset, hard_reset,
}

-- -1, the code's number of no provider, is `none`.
pub record Tage (B : Type 0) : Type 0 where
  pub base_state : B
  pub n_tables : ℕ  -- unsigned
  pub tables : List TagTable
  pub history : ℕ  -- uint64_t
  pub ghr_len : ℕ  -- unsigned
  pub main_pred : TageEntry
  pub main_provider : Option ℕ  -- int
  pub alt_pred : TageEntry
  pub alt_provider : Option ℕ  -- int
  pub base_pred : Bool
  pub overall_pred : Bool
  pub reset_period : ℕ  -- uint64_t
  pub branch_count : ℕ  -- uint64_t
  pub reset_mask : ℕ  -- unsigned

-- a table for a number past the last one, which no loop reaches
abbrev pub no_table : TagTable
no_table = TagTable.construct 0 0

-- The loop of the constructor, `rounds` more tables from number `i`: tags of `2 << i` bits.
unfoldable pub make_tables : ℕ → ℕ → ℕ → List TagTable
make_tables idx_len zero i = []
make_tables idx_len (suc rounds) i =
    TagTable.construct idx_len (2 * 2 ^ i) ∷ make_tables idx_len rounds (i + 1)

-- The loops of `predict`, from table number `i - 1` down: the first entry found and its table, and the
-- last answer if there is none.
unfoldable pub search_from : List TagTable → ℕ → ℕ → ℕ → TageEntry → TageEntry × Option ℕ
search_from tables pc history zero last = (last, none)
search_from tables pc history (suc i) last =
    let e = lookup (get_or tables i no_table) pc history in
    let rest = search_from tables pc history i e in if is_valid e then (e, some i) else rest

-- `mainProvider`, and `altProvider` below it, as numbers of tables still to search
abbrev pub below : Option ℕ → ℕ
below none = 0
below (some i) = i

-- The loop that adds to each table with one random bit.
unfoldable pub add_randomly : List TagTable → ℕ → ℕ → ℕ → ℕ → ℕ → List TagTable × Bool
add_randomly tables pc history zero i rand_num = (tables, false)
add_randomly tables pc history (suc rounds) i rand_num =
    let r = add (get_or tables i no_table) pc history in
    let rest = add_randomly tables pc history rounds (i + 1) (rand_num / 2) in
    if (bit_and rand_num 1 == 1) && r.1 then (set tables i r.0, true) else rest

-- The loop that adds to the first table with room.
unfoldable pub add_first : List TagTable → ℕ → ℕ → ℕ → ℕ → List TagTable × Bool
add_first tables pc history zero i = (tables, false)
add_first tables pc history (suc rounds) i =
    let r = add (get_or tables i no_table) pc history in
    let rest = add_first tables pc history rounds (i + 1) in
    if r.1 then (set tables i r.0, true) else rest

-- The loop that ages the entries in the way.
unfoldable pub decay_from : List TagTable → ℕ → ℕ → ℕ → ℕ → List TagTable
decay_from tables pc history zero i = tables
decay_from tables pc history (suc rounds) i =
    decay_from (set tables i (decay (get_or tables i no_table) pc history)) pc history rounds
      (i + 1)

-- The three loops together, over `rounds` tables from number `i`.
unfoldable pub allocate : List TagTable → ℕ → ℕ → ℕ → ℕ → ℕ → List TagTable
unfolding add_randomly add_first decay_from
allocate tables pc history rounds i rand_num =
    let r = add_randomly tables pc history rounds i rand_num in
    let s = add_first tables pc history rounds i in
    if r.1 then r.0 else if s.1 then s.0 else decay_from tables pc history rounds i

-- `mainProvider + 1`
abbrev pub above : Option ℕ → ℕ
above none = 0
above (some i) = i + 1

-- `tables[i]->update(...)` for the provider, if there is one
unfoldable pub update_table : List TagTable → Option ℕ → ℕ → ℕ → Bool → ℤ → List TagTable
update_table tables none pc history taken useful = tables
update_table tables (some i) pc history taken useful =
    set tables i (TagTable.update (get_or tables i no_table) pc history taken useful)

-- `right ? 1 : -1`
abbrev pub useful_of : Bool → ℤ
useful_of right = if right then pos 1 else negsuc 0

module _ {B : Type 0} (base : Predictor B) where
  unfoldable pub reset : Tage B → Tage B
  reset t = record t {
    tables = map hard_reset t.tables;
    base_state = base.reset t.base_state;
    history = 0;
    main_pred = absent;
    alt_pred = absent;
    main_provider = none;
    alt_provider = none;
    branch_count = 0;
    reset_mask = 1;
  }

  unfoldable pub construct : B → ℕ → ℕ → Tage B
  unfolding reset make_tables
  construct base_state n_tables idx_len = reset (record {
    base_state = base_state;
    n_tables = n_tables;
    tables = make_tables idx_len n_tables 0;
    history = 0;
    ghr_len = 2 ^ n_tables;
    main_pred = absent;
    main_provider = none;
    alt_pred = absent;
    alt_provider = none;
    base_pred = false;
    overall_pred = false;
    reset_period = 2 ^ 18;
    branch_count = 0;
    reset_mask = 1;
  })

  -- `pred` from the base prediction, the alternative and the main entry
  unfoldable pub choose : Prediction → TageEntry → TageEntry → Prediction
  choose base_pred alt main =
      if is_valid main && not (is_weak main)
      then to_prediction main
      else if is_valid alt
      then to_prediction alt
      else base_pred

  unfoldable pub predict : Tage B → ℕ → Tage B × Prediction
  unfolding search_from choose
  predict t pc =
      let main =
        search_from t.tables pc t.history t.n_tables
          (record (Tage.main_pred t) { useful = negsuc 0 }) in
      let alt =
        search_from t.tables pc t.history (below main.1)
          (record (Tage.alt_pred t) { useful = negsuc 0 }) in
      let b = base.predict t.base_state pc in
      let pred = choose b.1 alt.0 main.0 in
      (
        record t {
          base_state = b.0;
          main_pred = main.0;
          main_provider = main.1;
          alt_pred = alt.0;
          alt_provider = alt.1;
          base_pred = Prediction.taken b.1;
          overall_pred = pred.taken;
        },
        pred,
      )

  -- the part of `update` that trains the providers and the base predictor
  unfoldable pub train : Tage B → ℕ → Bool → Tage B
  unfolding update_table
  train t pc taken =
      let main = t.main_pred in
      let alt = t.alt_pred in
      let alt_result = if is_valid alt then entry_taken alt else t.base_pred in
      let useful =
        if is_valid main && not (eqb (entry_taken main) alt_result)
        then useful_of (eqb (entry_taken main) taken)
        else pos 0 in
      let tables1 =
        if is_valid main
        then update_table t.tables t.main_provider pc t.history taken useful
        else t.tables in
      let tables2 =
        if is_valid alt && TagTable.is_useless main
        then update_table tables1 t.alt_provider pc t.history taken
            (useful_of (eqb (entry_taken alt) taken))
        else tables1 in
      record t {
        tables = tables2;
        base_state =
            if is_valid main && is_valid alt
            then base.update_history t.base_state taken
            else base.update t.base_state pc taken;
      }

  -- whether `update` asks for a new entry
  unfoldable pub requests : Tage B → Bool → Bool
  requests t taken =
      if is_valid t.main_pred && is_weak t.main_pred
      then eqb (entry_taken t.main_pred) taken
      else not (eqb t.overall_pred taken)

  unfoldable pub update : ℕ → Tage B → ℕ → Bool → Tage B
  unfolding train requests allocate
  update rand_num t pc taken =
      let t1 = train t pc taken in
      let start = above t.main_provider in
      let tables1 =
        if requests t taken && ltb start t.n_tables
        then allocate t1.tables pc t.history (t.n_tables - start) start rand_num
        else t1.tables in
      let count = u64 (t.branch_count + 1) in
      let due = count == t.reset_period in
      record t1 {
        tables = if due then map (λ table. soft_reset table t.reset_mask) tables1 else tables1;
        history = bit_and (shift_in t.history taken) (2 ^ t.ghr_len - 1);
        branch_count = count;
        reset_mask = if due then bit_xor t.reset_mask 3 else t.reset_mask;
      }

  -- The class as a predictor, with the state of the generator that `random()` reads.
  unfoldable pub tage : {R : Type 0} → (R → R × ℕ) → Predictor (R × Tage B)
  unfolding predict update reset
  tage random = record {
    predict = λ s pc. let r = predict s.1 pc in ((s.0, r.0), r.1);
    predict_with = λ s pc addon len. let r = predict s.1 pc in ((s.0, r.0), r.1);
    update = λ s pc taken. let r = random s.0 in (r.0, update r.1 s.1 pc taken);
    update_history = λ s taken. s;
    reset = λ s. (s.0, reset s.1);
  }
