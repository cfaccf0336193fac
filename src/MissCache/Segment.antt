-- ===== src/MissCache/Segment.antt =====
-- `Segment` of branch/mcache_candidates/segment.cc: the array of PCs with ages that the segmented LRU
-- miss cache is made of.
pub mod Reindex
pub mod Rank
pub mod Promote
pub mod Lookup
pub mod Bump
pub mod Add
pub mod Remove
pub mod Reset
use sandbox_predictor.Prelude.{
  ℕ, ◌+◌, Bool, true, false, none, some, List, [], ◌∷◌, map, ltb, ◌==◌, not, if◌then◌else◌, get_or,
  set, take, find_index, ◌&&◌,
}
use sandbox_predictor.Prelude.Word.{u32, pred32}
use sandbox_predictor.MissCache.Entry.{Entry, blank, holds, reset_from, age_younger}

pub record Segment : Type 0 where
  pub num_entries : ℕ  -- unsigned
  pub entries : List Entry
  pub lru : ℕ  -- unsigned

abbrev pub any_holds : ℕ → List Entry → Bool
any_holds pc [] = false
any_holds pc (e ∷ es) = let rest = any_holds pc es in if holds pc e then true else rest

unfoldable pub contains : Segment → ℕ → Bool
contains s pc = any_holds pc s.entries

unfoldable pub reset : Segment → Segment
reset s = record s { entries = reset_from 0 s.entries; lru = pred32 s.num_entries }

-- `mem` is the block that `malloc` returns.
unfoldable pub resize : Segment → ℕ → List Entry → Segment
resize s n mem = record s { num_entries = n; entries = mem }

-- `Segment(nEntries)`: `lru` is not set before `reset`.
unfoldable pub construct : ℕ → List Entry → Segment
unfolding reset
construct n mem = reset (record { num_entries = n; entries = mem; lru = 0 })

-- The scan of `bump`: the entry of `pc` and its age, 0 and 0 where there is none.
abbrev pub located : Segment → ℕ → ℕ × ℕ
located s pc = elim (find_index (holds pc) s.entries) [
  | some i ↦ (i, (get_or s.entries i blank).age)
  | none ↦ (0, 0)
]

-- The rest of `bump`, from the index and the age that the scan leaves.
unfoldable pub bump_to : Segment → ℕ × ℕ → Segment
bump_to s (idx, age) =
    let (es, lru') = age_younger (pred32 s.num_entries) age 0 s.entries s.lru in
    if age == 0
    then s
    else record s { entries = set es idx (record (get_or es idx blank) { age = 0 }); lru = lru' }

unfoldable pub bump : Segment → ℕ → Segment
unfolding bump_to
bump s pc = bump_to s (located s pc)

-- The loop of `add`, which ages every entry but `addIdx`.
abbrev pub age_others : ℕ → ℕ → ℕ → List Entry → ℕ → List Entry × ℕ
age_others last add_idx i [] lru = ([], lru)
age_others last add_idx i (e ∷ es) lru =
    let other = not (i == add_idx) in
    let e' = if other then record e { age = u32 (e.age + 1) } else e in
    let lru' = if other && (u32 (e.age + 1) == last) then i else lru in
    let (es', lru'') = age_others last add_idx (i + 1) es lru' in (e' ∷ es', lru'')

-- The segment after `add`, and the evicted PC or 0.
unfoldable pub add : Segment → ℕ → Segment × ℕ
add s pc =
    let evicted = get_or s.entries s.lru blank in
    let (es, lru') = age_others (pred32 s.num_entries) s.lru 0 s.entries s.lru in
    (
      record s { entries = set es s.lru (record { valid = true; pc = pc; age = 0 }); lru = lru' },
      if evicted.valid then evicted.pc else 0,
    )

-- `if (entries[i].age > entries[removeIdx].age) entries[i].age--;`
abbrev pub rejuvenated : ℕ → Entry → Entry
rejuvenated limit e = if ltb limit e.age then record e { age = pred32 e.age } else e

-- `removeIdx`: the entry of `pc`, else the LRU one
abbrev pub remove_idx : Segment → ℕ → ℕ
remove_idx s pc = elim (find_index (holds pc) s.entries) [ some i ↦ i | none ↦ s.lru ]

-- The rest of `remove`, from `removeIdx`.
unfoldable pub remove_from : Segment → ℕ → ℕ → Segment
remove_from s pc idx =
    let es = map (rejuvenated (get_or s.entries idx blank).age) s.entries in
    if (get_or es idx blank).pc == pc
    then record s {
      entries = set es idx (record { valid = false; pc = 0; age = pred32 s.num_entries });
      lru = idx;
    }
    else record s { entries = es }

unfoldable pub remove : Segment → ℕ → Segment
unfolding remove_from
remove s pc = remove_from s pc (remove_idx s pc)

-- `entries[i].valid ? entries[i].pc : 0`
abbrev pub shown : Entry → ℕ
shown e = if e.valid then e.pc else 0

-- The PCs that `get_all` writes, in order; their number is its result.
unfoldable pub get_all : Segment → ℕ → List ℕ
get_all s count = map shown (take count s.entries)
