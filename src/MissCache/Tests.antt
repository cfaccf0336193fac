-- ===== src/MissCache/Tests.antt =====
-- Runs of the miss caches on small inputs.
use sandbox_predictor.Prelude.{false, ◌≡◌, refl, true, false, List, [], ◌∷◌, arith}
use sandbox_predictor.MissCache.Entry.{Entry, blank}
use sandbox_predictor.MissCache.Lru
use sandbox_predictor.MissCache.Lru.{LruCache}
use sandbox_predictor.MissCache.Lru.Tracks.{Tracks}
use sandbox_predictor.MissCache.Lru.Run.{resize-Tracks, accesses-Tracks, accesses, touches}
use sandbox_predictor.MissCache.Segment
use sandbox_predictor.MissCache.Segment.{Segment}
use sandbox_predictor.MissCache.Slru
use sandbox_predictor.MissCache.Slru.{SlruCache}
use sandbox_predictor.MissCache.Slru.Access.{SlruHolds}
use sandbox_predictor.MissCache.Slru.Retain.{cached, access-keeps}
use sandbox_predictor.MissCache.Slru.Run as SlruRun
use sandbox_predictor.MissCache.Nru
use sandbox_predictor.MissCache.Nru.{NruCache, NruEntry, choose}
use sandbox_predictor.MissCache.Nru.Choice.{Choice}

-- the cells of a fresh array of two
abbrev cells : List Entry
cells = blank ∷ blank ∷ []

abbrev old_lru : LruCache
old_lru = record { num_entries = 0; entries = []; saved_state = []; lru = 0 }

abbrev lru : LruCache
lru = Lru.resize old_lru 2 cells (8 ∷ 9 ∷ [])

accesses-Tracks_example :
    Tracks
      (accesses lru (5 ∷ 7 ∷ 5 ∷ 6 ∷ []))
      (touches (LruCache.num_entries lru) [] (5 ∷ 7 ∷ 5 ∷ 6 ∷ []))
accesses-Tracks_example =
    accesses-Tracks (5 ∷ 7 ∷ 5 ∷ 6 ∷ []) lru []
      (resize-Tracks old_lru 2 cells (8 ∷ 9 ∷ []) (omega arith) (omega arith) refl refl)

abbrev slru : SlruCache
slru = Slru.construct 2 cells cells (8 ∷ 9 ∷ [])

slru-SlruHolds : SlruHolds slru ([], [])
slru-SlruHolds =
    SlruRun.construct-SlruHolds 2 cells cells (8 ∷ 9 ∷ []) (omega arith) (omega arith) refl refl

accesses-SlruHolds_example :
    SlruHolds
      (SlruRun.accesses slru (5 ∷ 7 ∷ 5 ∷ 6 ∷ []))
      (SlruRun.touches (SlruCache.num_entries slru) ([], []) (5 ∷ 7 ∷ 5 ∷ 6 ∷ []))
accesses-SlruHolds_example =
    SlruRun.accesses-SlruHolds (5 ∷ 7 ∷ 5 ∷ 6 ∷ []) slru ([], []) slru-SlruHolds

-- a cache with 5 protected and 7 on probation
abbrev filled : SlruCache
filled = SlruRun.accesses slru (5 ∷ 7 ∷ 5 ∷ [])

holds_5 : cached filled 5 ≡ true
unfolding SlruRun.accesses Slru.access Segment.contains Slru.construct Segment.reset
    Segment.construct Segment.add Segment.remove
holds_5 = refl

holds_7 : cached filled 7 ≡ true
unfolding SlruRun.accesses Slru.access Segment.contains Slru.construct Segment.reset
    Segment.construct Segment.add Segment.remove
holds_7 = refl

access-keeps_example : cached (Slru.access filled 5).0 7 ≡ true
access-keeps_example =
    access-keeps filled (SlruRun.touches (SlruCache.num_entries slru) ([], []) (5 ∷ 7 ∷ 5 ∷ [])) 5 7
      (SlruRun.accesses-SlruHolds (5 ∷ 7 ∷ 5 ∷ []) slru ([], []) slru-SlruHolds) holds_5
      (λ e. ground arith) holds_7

-- an NRU cache of two: 5 is in use, and the other entry is free
abbrev in_use : NruEntry
in_use = record { used = true; valid = true; pc = 5; age = 0 }

abbrev nru : NruCache
nru = record {
  num_entries = 2;
  entries = in_use ∷ record { used = false; valid = false; pc = 0; age = 1 } ∷ [];
  saved_state = 0 ∷ 0 ∷ [];
  lru = 1;
}

-- a miss takes the free entry
takes_free : choose nru 3 7 ≡ (1, false)
unfolding choose
takes_free = refl
