-- ===== src/Dram/Schedule/Select.antt =====
-- Which request the DRAM controller schedules.
use sandbox_predictor.Prelude.{
  ℕ, ◌-◌, ◌^◌, ◌<◌, ◌≡◌, Bool, true, false, Option, none, some, arith, ◌==◌, length, get_elem?-lt,
  Option-cases, inl, inr,
}
use mathlib.Core.Path.{subst}
use sandbox_predictor.Cache.Packet.{Packet}
use sandbox_predictor.Cache.PacketQueue.{PacketQueue}
use sandbox_predictor.Cache.Mshr.{earliest, earliest_from}
use sandbox_predictor.Cache.Mshr.Earliest.{IsBound, IsFirst, earliest_from-Result}
use sandbox_predictor.Dram.{Dram}
use sandbox_predictor.Dram.Schedule.{is_ready, is_row_hit, oldest, select}

-- What a search for the oldest request may answer: `none` if no request that passes has a cycle below
-- 2 ^ 64 - 1.
abbrev pub IsOldest : (Packet → Bool) → PacketQueue → Option ℕ → Type 0
IsOldest test q none = IsBound test q.entry (2 ^ 64 - 1)
IsOldest test q (some i) = (cycle : ℕ) × (cycle < 2 ^ 64 - 1) × IsFirst test q.entry i cycle

oldest-IsOldest :
    (test : Packet → Bool) (q : PacketQueue)
    → length q.entry ≡ q.size
    → IsOldest test q (oldest test q)
unfolding oldest earliest
oldest-IsOldest test q cells = elim (earliest_from-Result test q.entry 0 (2 ^ 64 - 1) q.size) [
  | inl (a, b, c) ↦
      let t : ((earliest_from test q.entry 0 (2 ^ 64 - 1) q.size).1 == q.size) ≡ true =
        ground (arith, b) in
      rw (t, oldest) c
  | inr (a, (place, b, f)) ↦
      let l = get_elem?-lt q.entry place f.here in
      let t : ((earliest_from test q.entry 0 (2 ^ 64 - 1) q.size).1 == q.size) ≡ false =
        ground (arith, b, cells, l) in
      let e : (earliest_from test q.entry 0 (2 ^ 64 - 1) q.size).1 ≡ place = omega (arith, b) in
      rw (t, oldest) (rw e (_, a, f))
]

-- What `schedule` may select: the oldest request whose row is open in a free bank; the oldest one
-- whose bank is free, if there is none of these; and nothing if there is none of these either.
pub data IsSelected (d : Dram) (q : PacketQueue) : Option (ℕ × Bool) → Type 0 where
  row_hit : (i : ℕ) → IsOldest (is_row_hit d) q (some i) → IsSelected d q (some (i, true))
  row_miss :
      (i : ℕ)
      → IsOldest (is_row_hit d) q none
      → IsOldest (is_ready d) q (some i)
      → IsSelected d q (some (i, false))
  nothing : IsOldest (is_row_hit d) q none → IsOldest (is_ready d) q none → IsSelected d q none

-- Of the requests with a cycle below 2 ^ 64 - 1, which is the one of an empty packet, the controller
-- selects the oldest row hit that waits for a bank that is free; if there is no row hit, the oldest one
-- that waits for such a bank; and nothing only if there is none of these either. Of two that are as old
-- the first entry is taken.
pub select-IsSelected :
    (d : Dram) (q : PacketQueue) → length q.entry ≡ q.size → IsSelected d q (select d q)
unfolding select
select-IsSelected d q cells =
    let hit = oldest-IsOldest (is_row_hit d) q cells in
    let ready = oldest-IsOldest (is_ready d) q cells in
    elim (Option-cases (oldest (is_row_hit d) q)) [
      | inr (i, e) ↦ rw (e, select) (row_hit i (subst (IsOldest (is_row_hit d) q) e hit))
      | inl e ↦
          let none_hit = subst (IsOldest (is_row_hit d) q) e hit in
          elim (Option-cases (oldest (is_ready d) q)) [
            | inr (i, f) ↦
                rw (e, select)
                  (rw f (row_miss i none_hit (subst (IsOldest (is_ready d) q) f ready)))
            | inl f ↦
                rw (e, select) (rw f (nothing none_hit (subst (IsOldest (is_ready d) q) f ready)))
          ]
    ]
