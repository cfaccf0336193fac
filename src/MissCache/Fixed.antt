-- ===== src/MissCache/Fixed.antt =====
-- `FixedMCache` of branch/mcache_candidates/fixed.cc: a cache of PCs that are given once.
use sandbox_predictor.Prelude.{ℕ, Option, none, List, [], ◌==◌, find_index, take}
use sandbox_predictor.MissCache.{MissCache}

pub record FixedCache : Type 0 where
  pub num_entries : ℕ  -- unsigned
  pub saved_state : List ℕ  -- uint64_t

unfoldable pub construct : List ℕ → ℕ → FixedCache
construct pcs n = record { num_entries = n; saved_state = take n pcs }

unfoldable pub get_idx : FixedCache → ℕ → Option ℕ
get_idx c pc = find_index (λ s. s == pc) c.saved_state

-- All else is the base class.
unfoldable pub fixed_cache : MissCache FixedCache
unfolding get_idx
fixed_cache = record {
  access = λ c pc. (c, none);
  get_idx = get_idx;
  reset = λ c. c;
  resize = λ c n. c;
  get_all = λ c count. [];
  snapshot = λ c. c;
}
