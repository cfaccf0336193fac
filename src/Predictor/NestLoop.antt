-- ===== src/Predictor/NestLoop.antt =====
-- `NestLoop` of branch/bp_candidates/nestloop.cc: a four-way table of loop counters.
pub mod Entries
pub mod Index
pub mod Untrained
use Prim.Native.Nat.{bit_and, bit_xor}
use sandbox_predictor.Prelude.{
  ℕ, zero, suc, ◌+◌, ◌-◌, ◌*◌, ◌/◌, ◌%◌, ◌^◌, Bool, true, false, not, ◌&&◌, List, Option, none,
  some, ltb, ◌==◌, if◌then◌else◌, eqb, get_or, set, replicate,
}
use sandbox_predictor.Prelude.Word.{u32, u64, bit}
use sandbox_predictor.Predictor.{Prediction, Predictor}

pub record NestloopEntry : Type 0 where
  pub age : ℕ  -- uint8_t
  pub tag : ℕ  -- uint64_t
  pub confidence : ℕ  -- uint64_t
  pub loop_counts : ℕ  -- uint64_t
  pub cur_counts : ℕ  -- uint64_t
  pub last_pred : Bool
  pub count_ready : Bool

pub record NestLoop : Type 0 where
  pub assoc : ℕ  -- unsigned
  pub counter_len : ℕ  -- unsigned
  pub idx_len : ℕ  -- unsigned
  pub max_count : ℕ  -- unsigned
  pub num_entries : ℕ  -- unsigned
  pub max_confidence : ℕ  -- unsigned
  pub max_age : ℕ  -- unsigned
  pub history : ℕ  -- uint64_t
  pub content : List NestloopEntry

-- an entry as `reset` leaves it
abbrev pub blank_entry : NestloopEntry
blank_entry = record {
  age = 0;
  tag = 0;
  confidence = 0;
  loop_counts = 0;
  cur_counts = 0;
  last_pred = true;
  count_ready = false;
}

unfoldable pub reset : NestLoop → NestLoop
reset n = record n { content = replicate (n.assoc * n.num_entries) blank_entry }

unfoldable pub construct : ℕ → ℕ → NestLoop
unfolding reset
construct counter_len idx_len = reset (record {
  assoc = 4;
  counter_len = counter_len;
  idx_len = idx_len;
  max_count = 2 ^ counter_len - 1;
  num_entries = 2 ^ idx_len;
  max_confidence = 3;
  max_age = 255;
  history = 0;
  content = replicate (4 * 2 ^ idx_len) blank_entry;
})

unfoldable pub get_idx : NestLoop → ℕ → ℕ
get_idx n pc =
    u32 (bit_xor (bit_and pc (2 ^ (n.idx_len + 2) - 4)) (bit_and n.history (2 ^ n.idx_len - 1)))

unfoldable pub get_tag : NestLoop → ℕ → ℕ
get_tag n pc = u32 (pc / 2 ^ (n.idx_len + 2))

abbrev pub entry_at : List NestloopEntry → ℕ → NestloopEntry
entry_at content i = get_or content i blank_entry

-- The loop of `lookup`: `rounds` more entries from number `at`.
unfoldable pub lookup_from : List NestloopEntry → ℕ → ℕ → ℕ → Option ℕ
lookup_from content target zero at = none
lookup_from content target (suc rounds) at =
    let rest = lookup_from content target rounds (at + 1) in
    if target == NestloopEntry.tag (entry_at content at) then some at else rest

-- `none` is the code's -1.
unfoldable pub lookup : NestLoop → ℕ → Option ℕ
unfolding get_idx get_tag lookup_from
lookup n pc = lookup_from n.content (get_tag n pc) n.assoc (get_idx n pc)

-- the values that `reset_entry` writes
abbrev pub new_entry : NestloopEntry
new_entry = record {
  age = 255;
  tag = 0;
  confidence = 0;
  loop_counts = 0;
  cur_counts = 0;
  last_pred = true;
  count_ready = false;
}

-- The loop of `add`: the first of `rounds` entries from number `at` that has no age left is taken.
unfoldable pub add_from : List NestloopEntry → ℕ → ℕ → ℕ → Option (List NestloopEntry)
add_from content new_tag zero at = none
add_from content new_tag (suc rounds) at =
    let rest = add_from content new_tag rounds (at + 1) in
    if NestloopEntry.age (entry_at content at) == 0
    then some (set content at (record new_entry { tag = new_tag }))
    else rest

-- The loop of `decay`; on ℕ the subtraction stops at 0, as the guard has it.
unfoldable pub decay_from : ℕ → ℕ → List NestloopEntry → List NestloopEntry
decay_from zero at content = content
decay_from (suc rounds) at content =
    let e = entry_at content at in
    decay_from rounds (at + 1) (set content at (record e { age = e.age - 1 }))

-- `add` with its result: a set without a free entry ages instead.
unfoldable pub add : NestLoop → ℕ → NestLoop × Bool
unfolding get_idx get_tag add_from decay_from
add n pc = elim (add_from n.content (get_tag n pc) n.assoc (get_idx n pc)) [
  | some content ↦ (record n { content = content }, true)
  | none ↦ (record n { content = decay_from n.assoc (get_idx n pc) n.content }, false)
]

-- What `predict` does to the entry it found.
unfoldable pub predict_entry : ℕ → NestloopEntry → NestloopEntry × Prediction
predict_entry max_count e =
    if e.count_ready && ltb 0 e.age
    then if ltb e.cur_counts e.loop_counts
      then (
        record e {
          cur_counts = if ltb e.cur_counts max_count then e.cur_counts + 1 else e.cur_counts;
          last_pred = true;
        },
        record { taken = true; confidence = e.confidence },
      )
      else (
        record e { cur_counts = 0; last_pred = false },
        record { taken = false; confidence = e.confidence },
      )
    else (record e { last_pred = true }, record { taken = true; confidence = 0 })

unfoldable pub predict : NestLoop → ℕ → NestLoop × Prediction
unfolding lookup predict_entry
predict n pc = elim (lookup n pc) [
  | none ↦ (n, record { taken = true; confidence = 0 })
  | some i ↦
      let r = predict_entry n.max_count (entry_at n.content i) in
      (record n { content = set n.content i r.0 }, r.1)
]

-- the branch of `update` that credits a right prediction
unfoldable pub credit : NestLoop → Bool → NestloopEntry → NestloopEntry
credit n taken e =
    if eqb taken e.last_pred
    then record e {
      confidence =
          if not taken && ltb e.confidence n.max_confidence then e.confidence + 1 else e.confidence;
      age = if ltb n.max_age e.age then (e.age + 1) % 256 else e.age;
    }
    else e

-- the branch of `update` that learns the length of the loop
unfoldable pub learn : NestLoop → Bool → NestloopEntry → NestloopEntry
learn n taken e =
    if e.count_ready
    then e
    else if taken
    then record e {
      loop_counts = if ltb e.loop_counts n.max_count then e.loop_counts + 1 else e.loop_counts;
    }
    else record e { count_ready = true }

-- the branch of `update` that gives a wrong entry up
unfoldable pub expire : Bool → NestloopEntry → NestloopEntry
expire taken e = if e.count_ready && not (eqb taken e.last_pred) then record e { age = 0 } else e

unfoldable pub update_entry : NestLoop → Bool → NestloopEntry → NestloopEntry
unfolding credit learn expire
update_entry n taken e = expire taken (learn n taken (credit n taken e))

-- `(history << 1) & taken`
unfoldable pub next_history : ℕ → Bool → ℕ
next_history history taken = bit_and (u64 (history * 2)) (bit taken)

-- the rest of `update` for the entry that the second look-up names
unfoldable pub update_at : NestLoop → Option ℕ → Bool → NestLoop
unfolding update_entry
update_at n none taken = n
update_at n (some i) taken = record n {
  content = set n.content i (update_entry n taken (entry_at n.content i));
}

unfoldable pub update : NestLoop → ℕ → Bool → NestLoop
unfolding lookup next_history add update_at
update n pc taken =
    let n1 : NestLoop = record n { history = next_history n.history taken } in
    elim (lookup n pc) [
      | some i ↦ update_at n1 (some i) taken
      | none ↦ let r = add n1 pc in if r.1 then update_at r.0 (lookup r.0 pc) taken else r.0
    ]

unfoldable pub nest_loop : Predictor NestLoop
unfolding predict update reset
nest_loop = record {
  predict = predict;
  predict_with = λ n pc addon len. predict n pc;
  update = update;
  update_history = λ n taken. n;
  reset = reset;
}
