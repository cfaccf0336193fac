-- ===== src/Cache/Replacement.antt =====
-- The LRU replacement of a cache, replacement/base_replacement.cc, on the blocks of one set.
pub mod Ranks
use sandbox_predictor.Prelude.{
  ℕ, zero, suc, ◌+◌, ◌-◌, Bool, false, not, ◌&&◌, Option, none, some, List, [], ◌∷◌, map, ltb, ◌==◌,
  if◌then◌else◌, get_or, set, find_index,
}
use sandbox_predictor.Prelude.Int.{ℤ, pos}

-- `BLOCK`
pub record Block : Type 0 where
  pub valid : Bool
  pub prefetch : Bool
  pub dirty : Bool
  pub used : Bool
  pub delta : ℤ  -- int
  pub depth : ℤ  -- int
  pub signature : ℤ  -- int
  pub confidence : ℤ  -- int
  pub address : ℕ  -- uint64_t
  pub full_addr : ℕ  -- uint64_t
  pub tag : ℕ  -- uint64_t
  pub payload : ℕ  -- uint64_t data
  pub ip : ℕ  -- uint64_t
  pub cpu : ℕ  -- uint64_t
  pub instr_id : ℕ  -- uint64_t
  pub lru : ℕ  -- uint32_t

-- the block that `BLOCK()` makes; the ip, which it leaves unset, is 0 here
abbrev pub no_block : Block
no_block = record {
  valid = false;
  prefetch = false;
  dirty = false;
  used = false;
  delta = pos 0;
  depth = pos 0;
  signature = pos 0;
  confidence = pos 0;
  address = 0;
  full_addr = 0;
  tag = 0;
  payload = 0;
  ip = 0;
  cpu = 0;
  instr_id = 0;
  lru = 0;
}

-- the blocks of a set as the constructor of `CACHE` leaves them, from number `j`
unfoldable pub fresh_from : ℕ → ℕ → List Block
fresh_from zero j = []
fresh_from (suc rounds) j = record no_block { lru = j } ∷ fresh_from rounds (j + 1)

-- The first invalid way, else the oldest; `none` is the failed assertion.
unfoldable pub lru_victim : ℕ → List Block → Option ℕ
lru_victim num_way blocks = elim (find_index (λ (b : Block). not b.valid) blocks) [
  | some way ↦ some way
  | none ↦ find_index (λ (b : Block). b.lru == num_way - 1) blocks
]

-- The loop of `lru_update` does not reach `way` itself, so the limit is the same throughout.
abbrev pub older : ℕ → Block → Block
older limit b = record b { lru = if ltb b.lru limit then b.lru + 1 else b.lru }

unfoldable pub lru_update : List Block → ℕ → List Block
lru_update blocks way =
    let limit = (get_or blocks way no_block).lru in
    let aged = map (older limit) blocks in
    set aged way (record (get_or aged way no_block) { lru = 0 })

-- `type == WRITEBACK` is a Boolean here.
unfoldable pub update_replacement_state : List Block → ℕ → Bool → Bool → List Block
unfolding lru_update
update_replacement_state blocks way is_writeback hit =
    if is_writeback && hit then blocks else lru_update blocks way
