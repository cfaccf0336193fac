-- ===== src/MissCache/Slru.antt =====
-- `SLRUMCache` of branch/mcache_candidates/slru.cc: a segmented LRU miss cache. A PC enters by the
-- probationary segment and moves to the protected one when it is accessed again.
pub mod Spec
pub mod Access
pub mod Retain
pub mod Run
use sandbox_predictor.MissCache.{MissCache}
use sandbox_predictor.Prelude.{ℕ, Option, List, [], ◌∷◌, map, ◌==◌, if◌then◌else◌, find_index}
use sandbox_predictor.MissCache.Entry.{Entry}
use sandbox_predictor.MissCache.Segment
use sandbox_predictor.MissCache.Segment.{Segment}

-- The segments are not null: the constructor with a size makes both.
pub record SlruCache : Type 0 where
  pub num_entries : ℕ  -- unsigned
  pub protected_seg : Segment
  pub probationary_seg : Segment
  pub saved_state : List ℕ  -- uint64_t

-- `none` is the result -1.
unfoldable pub get_idx : SlruCache → ℕ → Option ℕ
get_idx c pc = find_index (λ s. s == pc) c.saved_state

-- The branch of `access` for a PC in the probationary segment: it moves to the protected one, and the
-- PC that this evicts, if it is not 0, back to the probationary one.
unfoldable pub promote : SlruCache → ℕ → SlruCache
promote c pc =
    let prob = Segment.remove c.probationary_seg pc in
    let (prot, evicted) = Segment.add c.protected_seg pc in
    record c {
      protected_seg = prot;
      probationary_seg = if evicted == 0 then prob else (Segment.add prob evicted).0;
    }

-- The three branches of `access`.
unfoldable pub place : SlruCache → ℕ → SlruCache
unfolding promote
place c pc =
    if Segment.contains c.protected_seg pc
    then record c { protected_seg = Segment.bump c.protected_seg pc }
    else if Segment.contains c.probationary_seg pc
    then promote c pc
    else record c { probationary_seg = (Segment.add c.probationary_seg pc).0 }

unfoldable pub access : SlruCache → ℕ → SlruCache × Option ℕ
unfolding place get_idx
access c pc = let c' = place c pc in (c', get_idx c' pc)

unfoldable pub reset : SlruCache → SlruCache
reset c = record c {
  protected_seg = Segment.reset c.protected_seg;
  probationary_seg = Segment.reset c.probationary_seg;
  saved_state = map (λ _. 0) c.saved_state;
}

-- `mem1`, `mem2` and `saved` are the blocks that `malloc` returns.
unfoldable pub construct : ℕ → List Entry → List Entry → List ℕ → SlruCache
unfolding reset
construct n mem1 mem2 saved = reset (record {
  num_entries = n;
  protected_seg = Segment.construct n mem1;
  probationary_seg = Segment.construct n mem2;
  saved_state = saved;
})

unfoldable pub resize : SlruCache → ℕ → List Entry → List Entry → List ℕ → SlruCache
resize c n mem1 mem2 saved = record {
  num_entries = n;
  protected_seg = Segment.resize c.protected_seg n mem1;
  probationary_seg = Segment.resize c.probationary_seg n mem2;
  saved_state = saved;
}

unfoldable pub get_all : SlruCache → ℕ → List ℕ
get_all c count = Segment.get_all c.protected_seg count

-- the cells of an array after a callee has written `new` to its first ones
abbrev pub overwrite : List ℕ → List ℕ → List ℕ
overwrite old [] = old
overwrite [] (x ∷ new) = []
overwrite (y ∷ old) (x ∷ new) = x ∷ overwrite old new

unfoldable pub snapshot : SlruCache → SlruCache
snapshot c = record c {
  saved_state = overwrite c.saved_state (Segment.get_all c.protected_seg c.num_entries);
}

-- The class as a miss cache; the blocks are those that `malloc` returns for a size.
unfoldable pub slru_cache : (ℕ → List Entry) → (ℕ → List Entry) → (ℕ → List ℕ) → MissCache SlruCache
unfolding access get_idx reset resize get_all snapshot
slru_cache mem1 mem2 saved = record {
  access = access;
  get_idx = get_idx;
  reset = reset;
  resize = λ c n. resize c n (mem1 n) (mem2 n) (saved n);
  get_all = get_all;
  snapshot = snapshot;
}
