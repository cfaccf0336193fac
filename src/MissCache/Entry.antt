-- ===== src/MissCache/Entry.antt =====
-- `lru_entry_t` of inc/miss_cache.h, and the loops over an entry array that the LRU miss cache and
-- the segments share.
use sandbox_predictor.Prelude.{
  ℕ, zero, suc, ◌≡◌, refl, sym, ap, arith, some, some_inj, get_elem?, length, ◌+◌, ◌<◌, Bool, false,
  ◌&&◌, List, [], ◌∷◌, ltb, ◌==◌, if◌then◌else◌,
}
use sandbox_predictor.Prelude.Word.{u32}

pub record Entry : Type 0 where
  pub valid : Bool
  pub pc : ℕ  -- uint64_t
  pub age : ℕ  -- unsigned

-- what the cells of a fresh array hold where the model has to name a value
abbrev pub blank : Entry
blank = record { valid = false; pc = 0; age = 0 }

-- `entries[i].valid && entries[i].pc == pc`
abbrev pub holds : ℕ → Entry → Bool
holds pc e = e.valid && (e.pc == pc)

-- the loop of `reset`, which writes every field of entry `i`
abbrev pub reset_from : ℕ → List Entry → List Entry
reset_from i [] = []
reset_from i (e ∷ es) = record { valid = false; pc = 0; age = i } ∷ reset_from (i + 1) es

-- `if (entries[i].age < limit) entries[i].age++;`
abbrev pub aged : ℕ → Entry → Entry
aged limit e = if ltb e.age limit then record e { age = u32 (e.age + 1) } else e

-- The entry is one that the loop makes the oldest: `entries[i].age == last` after the increment.
abbrev pub becomes_last : ℕ → ℕ → Entry → Bool
becomes_last last limit e = ltb e.age limit && (u32 (e.age + 1) == last)

-- the loop that ages the entries younger than `limit` and keeps `lru`: the array and the index
abbrev pub age_younger : ℕ → ℕ → ℕ → List Entry → ℕ → List Entry × ℕ
age_younger last limit i [] lru = ([], lru)
age_younger last limit i (e ∷ es) lru =
    let lru' = if becomes_last last limit e then i else lru in
    let (es', lru'') = age_younger last limit (i + 1) es lru' in (aged limit e ∷ es', lru'')

-- What an array holds after `reset`.
pub reset_from-entry :
    (i : ℕ) (es : List Entry) (k : ℕ) {e : Entry}
    → get_elem? (reset_from i es) k ≡ some e
    → e ≡ record { valid = false; pc = 0; age = i + k }
reset_from-entry i [] k g = absurd (cc)
reset_from-entry i (d ∷ es) zero {e} g = let q : i + 0 ≡ i = omega arith in rw q (some_inj (sym g))
reset_from-entry i (d ∷ es) (suc k) {e} g =
    let q : i + suc k ≡ i + 1 + k = omega arith in rw q (reset_from-entry (i + 1) es k g)

pub length-reset_from : (i : ℕ) (es : List Entry) → length (reset_from i es) ≡ length es
length-reset_from i [] = refl
length-reset_from i (e ∷ es) = ap suc (length-reset_from (i + 1) es)

pub get_elem?-reset_from :
    (i : ℕ) (es : List Entry) (k : ℕ)
    → k < length es
    → get_elem? (reset_from i es) k ≡ some (record { valid = false; pc = 0; age = i + k })
get_elem?-reset_from i [] k h = absurd (omega arith)
get_elem?-reset_from i (e ∷ es) zero h = let q : i + 0 ≡ i = omega arith in rw q
get_elem?-reset_from i (e ∷ es) (suc k) h =
    let q : i + suc k ≡ i + 1 + k = omega arith in
    rw q (get_elem?-reset_from (i + 1) es k (omega arith))
