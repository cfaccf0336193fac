-- ===== src/MissCache/Lru.antt =====
-- `LRUMCache` of branch/mcache_candidates/lru.cc: a fully associative cache of mispredicted PCs with
-- an LRU policy, and the snapshot of it that `get_idx` searches.
pub mod Promote
pub mod Tracks
pub mod Hit
pub mod Miss
pub mod Access
pub mod Run
use sandbox_predictor.MissCache.{MissCache}
use sandbox_predictor.Prelude.{
  ℕ, ◌+◌, true, not, Option, none, some, List, [], ◌∷◌, map, ltb, leb, ◌==◌, if◌then◌else◌, get_or,
  set, find_index,
}
use sandbox_predictor.Prelude.Word.{pred32}
use sandbox_predictor.MissCache.Entry.{Entry, blank, holds, reset_from, age_younger}

-- The two arrays hold `numEntries` cells each.
pub record LruCache : Type 0 where
  pub num_entries : ℕ  -- unsigned
  pub entries : List Entry
  pub saved_state : List ℕ  -- uint64_t
  pub lru : ℕ  -- unsigned

unfoldable pub reset : LruCache → LruCache
reset c = record {
  num_entries = c.num_entries;
  entries = reset_from 0 c.entries;
  saved_state = map (λ _. 0) c.saved_state;
  lru = pred32 c.num_entries;
}

-- `mem` and `saved` are the blocks that `malloc` returns: `nEntries` cells of any content.
unfoldable pub resize : LruCache → ℕ → List Entry → List ℕ → LruCache
unfolding reset
resize c n mem saved = reset (record c { num_entries = n; entries = mem; saved_state = saved })

-- `none` is the result -1.
unfoldable pub get_idx : LruCache → ℕ → Option ℕ
get_idx c pc = find_index (λ s. s == pc) c.saved_state

-- The entry that `access` writes, and the age below which the others grow older: those of the entry
-- that holds `pc`, else the first free entry or the LRU one, and `numEntries - 1`.
abbrev pub choose : LruCache → ℕ → ℕ × ℕ
choose c pc = elim (find_index (holds pc) c.entries) [
  | some i ↦ (i, (get_or c.entries i blank).age)
  | none ↦ elim (find_index (λ (e : Entry). not e.valid) c.entries) [
    | some i ↦ (i, pred32 c.num_entries)
    | none ↦ (c.lru, pred32 c.num_entries)
  ]
]

unfoldable pub access : LruCache → ℕ → LruCache × Option ℕ
unfolding get_idx
access c pc =
    let (idx, limit) = choose c pc in
    let (es, lru') = age_younger (pred32 c.num_entries) limit 0 c.entries c.lru in
    let c' : LruCache = record c {
      entries = set es idx (record { valid = true; pc = pc; age = 0 });
      lru = lru';
    } in
    (c', get_idx c' pc)

-- The PCs that `get_all` writes to the output array, in order; their number is its result.
get_all_from : ℕ → ℕ → List Entry → List ℕ
get_all_from count idx [] = []
get_all_from count idx (e ∷ es) =
    let more = e.pc ∷ get_all_from count (idx + 1) es in
    let same = get_all_from count idx es in
    if leb count idx then [] else if ltb e.age count then more else same

unfoldable pub get_all : LruCache → ℕ → List ℕ
unfolding get_all_from
get_all c count = get_all_from count 0 c.entries

unfoldable pub snapshot : LruCache → LruCache
snapshot c = record c { saved_state = map (λ (e : Entry). e.pc) c.entries }

-- The class as a miss cache; `mem` and `saved` are the blocks that `malloc` returns for a size.
unfoldable pub lru_cache : (ℕ → List Entry) → (ℕ → List ℕ) → MissCache LruCache
unfolding access get_idx reset resize get_all snapshot
lru_cache mem saved = record {
  access = access;
  get_idx = get_idx;
  reset = reset;
  resize = λ c n. resize c n (mem n) (saved n);
  get_all = get_all;
  snapshot = snapshot;
}
