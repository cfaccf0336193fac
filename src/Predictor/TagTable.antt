-- ===== src/Predictor/TagTable.antt =====
-- `TagTable` of branch/bp_candidates/tagtable.cc: one tagged table of a TAGE predictor, indexed by a
-- hash of the program counter and the folded history.
pub mod Fold
pub mod Bounds
pub mod Lookup
use Prim.Native.Nat.{bit_and, bit_xor}
use sandbox_predictor.Prelude.{
  ℕ, zero, suc, ◌+◌, ◌-◌, ◌*◌, ◌/◌, ◌^◌, Bool, true, false, not, ◌&&◌, List, map, ◌==◌,
  if◌then◌else◌, get_or, set, replicate,
}
use sandbox_predictor.Prelude.Int.{ℤ, pos, negsuc, ◌+ℤ◌, ◌-ℤ◌, ltb_ℤ, is_nonneg, abs}
use sandbox_predictor.Predictor.{Prediction}
use sandbox_predictor.Predictor.Counter.{step}

pub record TageEntry : Type 0 where
  pub tag : ℕ  -- uint64_t
  pub counter : ℤ  -- int
  pub useful : ℤ  -- int

pub record TagTable : Type 0 where
  pub idx_len : ℕ  -- unsigned
  pub tag_len : ℕ  -- unsigned
  pub n_entries : ℕ  -- unsigned
  pub content : List TageEntry
  pub counter_max : ℤ  -- int
  pub counter_min : ℤ  -- int
  pub useful_max : ℤ  -- int

unfoldable pub is_valid : TageEntry → Bool
is_valid e = is_nonneg e.useful

unfoldable pub is_weak : TageEntry → Bool
is_weak e = elim e.useful [
  | pos zero ↦ elim e.counter [ pos zero ↦ true | negsuc zero ↦ true | _ ↦ false ]
  | _ ↦ false
]

abbrev pub entry_taken : TageEntry → Bool
entry_taken e = is_nonneg e.counter

-- `raw_conf + useful` for an entry whose `useful` is not negative
unfoldable pub to_prediction : TageEntry → Prediction
to_prediction e = record {
  taken = is_nonneg e.counter;
  confidence = (if is_nonneg e.counter then abs e.counter + 1 else abs e.counter) + abs e.useful;
}

-- an entry as `hard_reset` leaves it
abbrev pub clear_entry : TageEntry
clear_entry = record { tag = 0; counter = pos 0; useful = pos 0 }

-- `tage_entry_t(0, 0, -1)`: no entry
abbrev pub absent : TageEntry
absent = record { tag = 0; counter = pos 0; useful = negsuc 0 }

-- The loop of `fold`, `while (x) { out ^= x; x >>= length; }`, for at most `fuel` rounds.
unfoldable pub fold_loop : ℕ → ℕ → ℕ → ℕ → ℕ
fold_loop zero length x out = out
fold_loop (suc fuel) length x out =
    let rest = fold_loop fuel length (x / 2 ^ length) (bit_xor out x) in
    if x == 0 then out else rest

-- For a length between 1 and 30, where `1 << length` is an `int` and the shifts are defined. A word has
-- 64 bits, so a shift by one or more empties it within 64 rounds.
unfoldable pub fold : ℕ → ℕ → ℕ
unfolding fold_loop
fold x length = bit_and (fold_loop 64 length x 0) (2 ^ length - 1)

unfoldable pub get_idx : TagTable → ℕ → ℕ → ℕ
unfolding fold
get_idx t pc history =
    bit_and (bit_xor (bit_xor (pc / 2 ^ t.idx_len) pc) (fold history t.idx_len)) (2 ^ t.idx_len - 1)

unfoldable pub get_tag : TagTable → ℕ → ℕ → ℕ
unfolding fold
get_tag t pc history =
    bit_and (bit_xor (bit_xor pc (fold history t.tag_len)) (2 * fold history (t.tag_len - 1)))
      (2 ^ t.tag_len - 1)

abbrev pub entry_at : TagTable → ℕ → TageEntry
entry_at t i = get_or t.content i clear_entry

unfoldable pub lookup : TagTable → ℕ → ℕ → TageEntry
unfolding get_idx get_tag
lookup t pc history =
    let e = entry_at t (get_idx t pc history) in if get_tag t pc history == e.tag then e else absent

abbrev pub is_useless : TageEntry → Bool
is_useless e = elim e.useful [ pos zero ↦ true | _ ↦ false ]

unfoldable pub add : TagTable → ℕ → ℕ → TagTable × Bool
unfolding get_idx get_tag
add t pc history =
    let idx = get_idx t pc history in
    let e = entry_at t idx in
    if is_useless e
    then (
      record t {
        content = set t.content idx (record e { counter = pos 0; tag = get_tag t pc history });
      },
      true,
    )
    else (t, false)

-- `useful > 0`, `useful < 0` and the guards of the counter
unfoldable pub step_useful : ℤ → ℤ → ℤ → ℤ
step_useful useful_max useful u =
    let u1 = if ltb_ℤ (pos 0) useful && ltb_ℤ u useful_max then u +ℤ pos 1 else u in
    if ltb_ℤ useful (pos 0) && ltb_ℤ (pos 0) u1 then u1 -ℤ pos 1 else u1

-- the entry after its outcome; at most one of the two guards on the counter holds
unfoldable pub trained : TagTable → Bool → ℤ → TageEntry → TageEntry
unfolding step_useful
trained t taken useful e = record e {
  counter = step t.counter_min t.counter_max taken e.counter;
  useful = step_useful t.useful_max useful e.useful;
}

unfoldable pub update : TagTable → ℕ → ℕ → Bool → ℤ → TagTable
unfolding get_idx get_tag trained
update t pc history taken useful =
    let idx = get_idx t pc history in
    let e = entry_at t idx in
    if get_tag t pc history == e.tag
    then record t { content = set t.content idx (trained t taken useful e) }
    else t

-- `if (useful > 0) useful--;`
unfoldable pub decayed : TageEntry → TageEntry
decayed e = record e { useful = if ltb_ℤ (pos 0) e.useful then e.useful -ℤ pos 1 else e.useful }

unfoldable pub decay_all : TagTable → TagTable
unfolding decayed
decay_all t = record t { content = map decayed t.content }

unfoldable pub decay : TagTable → ℕ → ℕ → TagTable
unfolding get_idx decayed
decay t pc history =
    let i = get_idx t pc history in record t { content = set t.content i (decayed (entry_at t i)) }

-- `useful &= mask`, on 32 bits in two's complement, for a mask of few bits
unfoldable pub int_and : ℤ → ℕ → ℤ
int_and (pos n) mask = pos (bit_and n mask)
int_and (negsuc n) mask = pos (bit_and (2 ^ 32 - 1 - n) mask)

unfoldable pub masked : ℕ → TageEntry → TageEntry
unfolding int_and
masked mask e = record e { useful = int_and e.useful mask }

unfoldable pub soft_reset : TagTable → ℕ → TagTable
unfolding masked
soft_reset t mask = record t { content = map (masked mask) t.content }

unfoldable pub hard_reset : TagTable → TagTable
hard_reset t = record t { content = replicate t.n_entries clear_entry }

unfoldable pub construct : ℕ → ℕ → TagTable
unfolding hard_reset
construct idx_len tag_len = hard_reset (record {
  idx_len = idx_len;
  tag_len = tag_len;
  n_entries = 2 ^ idx_len;
  content = replicate (2 ^ idx_len) clear_entry;
  counter_max = pos 1;
  counter_min = negsuc 1;
  useful_max = pos 3;
})
