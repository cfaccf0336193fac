-- ===== src/MissCache.antt =====
-- The miss caches of inc/miss_cache.h and branch/mcache_candidates. `MissCache` is the base class: a
-- table of functions over the state of a cache, as its users see it.
pub mod Entry
pub mod Ageing
pub mod Recency
pub mod Lru
pub mod Nru
pub mod Fixed
pub mod Segment
pub mod Slru
pub mod Tests
use sandbox_predictor.Prelude.{ℕ, Option, none, List, []}

-- `none` is the result -1; `get_all` returns what the code writes to its output array.
pub record MissCache (C : Type 0) : Type 0 where
  pub access : C → ℕ → C × Option ℕ
  pub get_idx : C → ℕ → Option ℕ
  pub reset : C → C
  pub resize : C → ℕ → C
  pub get_all : C → ℕ → List ℕ
  pub snapshot : C → C

-- the base class, which holds nothing
unfoldable pub no_cache : (C : Type 0) → MissCache C
no_cache C = record {
  access = λ c pc. (c, none);
  get_idx = λ c pc. none;
  reset = λ c. c;
  resize = λ c n. c;
  get_all = λ c count. [];
  snapshot = λ c. c;
}
