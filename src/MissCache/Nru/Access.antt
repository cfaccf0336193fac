-- ===== src/MissCache/Nru/Access.antt =====
-- What an access does to the entries of an NRU miss cache.
use sandbox_predictor.Prelude.{
  Bool, ℕ, ◌+◌, ◌≡◌, ◌≢◌, true, ◌&&◌, some, get_elem?, ltb, if◌then◌else◌,
}
use sandbox_predictor.MissCache.Nru.Choice.{IsValid, Choice}
use sandbox_predictor.MissCache.Nru.{NruEntry, NruCache}

-- an entry after the ageing loop
abbrev pub grown : ℕ → NruEntry → NruEntry
grown limit e = if ltb e.age limit && e.valid then record e { age = e.age + 1 } else e

-- the entries after an access that takes number `i`
pub record Accessed (c c' : NruCache) (pc i : ℕ) (is_hit : Bool) (limit : ℕ) : Type 0 where
  pub valid : IsValid c'
  pub new : get_elem? c'.entries i ≡ some (record { used = is_hit; valid = true; pc = pc; age = 0 })
  pub others :
      (j : ℕ) {e : NruEntry}
      → get_elem? c.entries j ≡ some e
      → i ≢ j
      → get_elem? c'.entries j ≡ some (grown limit e)
