-- ===== src/MissCache/Nru.antt =====
-- `NRUMCache` of branch/mcache_candidates/nru.cc: a miss cache that evicts an entry that was not used
-- since it came in. The number that `rand()` returns is an argument of `access`.
pub mod Choice
pub mod Access
use sandbox_predictor.MissCache.{MissCache}
use sandbox_predictor.Prelude.{
  ℕ, zero, suc, ◌+◌, ◌%◌, Bool, true, false, not, ◌&&◌, Option, none, some, List, [], ◌∷◌, map, ltb,
  leb, ◌==◌, if◌then◌else◌, get_or, set, find_index,
}
use sandbox_predictor.Prelude.Word.{u32, pred32}

pub record NruEntry : Type 0 where
  pub used : Bool
  pub valid : Bool
  pub pc : ℕ  -- uint64_t
  pub age : ℕ  -- unsigned

pub record NruCache : Type 0 where
  pub num_entries : ℕ  -- unsigned
  pub entries : List NruEntry
  pub saved_state : List ℕ  -- uint64_t
  pub lru : ℕ  -- unsigned

abbrev pub no_entry : NruEntry
no_entry = record { used = false; valid = false; pc = 0; age = 0 }

-- the loop of `reset`, from number `i`
unfoldable pub reset_from : ℕ → List NruEntry → List NruEntry
reset_from i [] = []
reset_from i (e ∷ es) =
    record { used = false; valid = false; pc = 0; age = i } ∷ reset_from (i + 1) es

unfoldable pub reset : NruCache → NruCache
unfolding reset_from
reset c = record {
  num_entries = c.num_entries;
  entries = reset_from 0 c.entries;
  saved_state = map (λ _. 0) c.saved_state;
  lru = pred32 c.num_entries;
}

-- `mem` and `saved` are the blocks that `malloc` returns.
unfoldable pub resize : NruCache → ℕ → List NruEntry → List ℕ → NruCache
unfolding reset
resize c n mem saved = reset (record c { num_entries = n; entries = mem; saved_state = saved })

unfoldable pub get_idx : NruCache → ℕ → Option ℕ
get_idx c pc = find_index (λ s. s == pc) c.saved_state

abbrev pub holds : ℕ → NruEntry → Bool
holds pc e = (e.pc == pc) && e.valid

-- The first loop of `access`: `rounds` more entries, from number `j` after the random one.
unfoldable pub unused_from : NruCache → ℕ → ℕ → ℕ → Option ℕ
unused_from c base zero j = none
unused_from c base (suc rounds) j =
    let i = u32 (j + base) % c.num_entries in
    let e = get_or c.entries i no_entry in
    let rest = unused_from c base rounds (j + 1) in if not e.used && e.valid then some i else rest

-- The entry that `access` writes, and whether it is a hit: the entry of the PC, else a free one, else
-- an unused one, else the oldest.
unfoldable pub choose : NruCache → ℕ → ℕ → ℕ × Bool
unfolding unused_from
choose c base pc = elim (find_index (holds pc) c.entries) [
  | some i ↦ (i, true)
  | none ↦ elim (find_index (λ (e : NruEntry). not e.valid) c.entries) [
    | some i ↦ (i, false)
    | none ↦ elim (unused_from c base c.num_entries 0) [
      | some i ↦ (i, false)
      | none ↦ (c.lru, false)
    ]
  ]
]

-- The loop that ages the valid entries younger than `limit`, with the new `lru`.
unfoldable pub age_younger : ℕ → ℕ → ℕ → List NruEntry → ℕ → List NruEntry × ℕ
age_younger top limit i [] lru = ([], lru)
age_younger top limit i (e ∷ es) lru =
    let grows = ltb e.age limit && e.valid in
    let e' = if grows then record e { age = e.age + 1 } else e in
    let rest = age_younger top limit (i + 1) es (if grows && (e.age + 1 == top) then i else lru) in
    (e' ∷ rest.0, rest.1)

unfoldable pub access : NruCache → ℕ → ℕ → NruCache × Option ℕ
unfolding choose age_younger get_idx
access c base pc =
    let chosen = choose c base pc in
    let limit =
      if chosen.1 then (get_or c.entries chosen.0 no_entry).age else pred32 c.num_entries in
    let aged = age_younger (pred32 c.num_entries) limit 0 c.entries c.lru in
    let c' : NruCache = record c {
      entries = set aged.0 chosen.0 (record { used = chosen.1; valid = true; pc = pc; age = 0 });
      lru = aged.1;
    } in
    (c', get_idx c' pc)

-- The PCs that `get_all` writes to the output array, in order.
unfoldable pub get_all_from : ℕ → ℕ → List NruEntry → List ℕ
get_all_from count idx [] = []
get_all_from count idx (e ∷ es) =
    let more = e.pc ∷ get_all_from count (idx + 1) es in
    let same = get_all_from count idx es in
    if leb count idx then [] else if ltb e.age count then more else same

unfoldable pub get_all : NruCache → ℕ → List ℕ
unfolding get_all_from
get_all c count = get_all_from count 0 c.entries

unfoldable pub snapshot : NruCache → NruCache
snapshot c = record c { saved_state = map (λ (e : NruEntry). e.pc) c.entries }

-- The class as a miss cache, with the state of the generator that `rand()` reads; `mem` and `saved` are
-- the blocks that `malloc` returns for a size.
unfoldable pub nru_cache :
    {R : Type 0} → (R → R × ℕ) → (ℕ → List NruEntry) → (ℕ → List ℕ) → MissCache (R × NruCache)
unfolding access get_idx reset resize get_all snapshot
nru_cache rand mem saved = record {
  access = λ s pc. let r = rand s.0 in let a = access s.1 (u32 r.1) pc in ((r.0, a.0), a.1);
  get_idx = λ s pc. get_idx s.1 pc;
  reset = λ s. (s.0, reset s.1);
  resize = λ s n. (s.0, resize s.1 n (mem n) (saved n));
  get_all = λ s count. get_all s.1 count;
  snapshot = λ s. (s.0, snapshot s.1);
}
