-- ===== src/MissCache/Slru/Run.antt =====
-- The life of a segmented LRU cache, from its constructor.
use sandbox_predictor.Prelude.{ℕ, ◌<◌, ◌^◌, ◌≡◌, refl, ◌∙◌, List, [], ◌∷◌, arith, length}
use mathlib.Core.Path.{subst}
use sandbox_predictor.MissCache.Entry.{Entry, length-reset_from}
use sandbox_predictor.MissCache.Segment
use sandbox_predictor.MissCache.Segment.Reset.{reset-Holds}
use sandbox_predictor.MissCache.Slru.{SlruCache, construct, access}
use sandbox_predictor.MissCache.Slru.Spec.{Lists, touch}
use sandbox_predictor.MissCache.Slru.Access.{SlruHolds, access-SlruHolds}

-- Whatever the blocks of `n` cells hold that the constructor is given, for a positive `unsigned` `n`,
-- both lists are empty at first.
pub construct-SlruHolds :
    (n : ℕ) (mem1 mem2 : List Entry) (saved : List ℕ)
    → 0 < n
    → n < 2 ^ 32
    → length mem1 ≡ n
    → length mem2 ≡ n
    → SlruHolds (construct n mem1 mem2 saved) ([], [])
unfolding construct Segment.construct Segment.reset
construct-SlruHolds n mem1 mem2 saved lo hi l1 l2 = record {
  prot_size = refl;
  prob_size = refl;
  prot = reset-Holds (Segment.construct n mem1) lo hi (length-reset_from 0 mem1 ∙ l1);
  prob = reset-Holds (Segment.construct n mem2) lo hi (length-reset_from 0 mem2 ∙ l2);
  disjoint = λ x h k. absurd (cc (h.found));
}

-- a run of accesses, and the same run on the two lists
unfoldable pub accesses : SlruCache → List ℕ → SlruCache
accesses c [] = c
accesses c (pc ∷ pcs) = accesses (access c pc).0 pcs

unfoldable pub touches : ℕ → Lists → List ℕ → Lists
touches n l [] = l
touches n l (pc ∷ pcs) = touches n (touch n pc l) pcs

num_entries-access : (c : SlruCache) (pc : ℕ) → (access c pc).0.num_entries ≡ c.num_entries
unfolding access
num_entries-access c pc = ground arith

-- If the segments hold two lists, then after any accesses they hold what the same accesses make of
-- the lists.
pub accesses-SlruHolds :
    (pcs : List ℕ) (c : SlruCache) (l : Lists)
    → SlruHolds c l
    → SlruHolds (accesses c pcs) (touches c.num_entries l pcs)
unfolding accesses touches
accesses-SlruHolds [] c l h = h
accesses-SlruHolds (pc ∷ pcs) c (ps, qs) h =
    subst
      (λ n.
        SlruHolds (accesses (access c pc).0 pcs) (touches n (touch c.num_entries pc (ps, qs)) pcs))
      (num_entries-access c pc)
      (accesses-SlruHolds pcs (access c pc).0 (touch c.num_entries pc (ps, qs))
        (access-SlruHolds c pc ps qs h))
