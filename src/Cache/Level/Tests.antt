-- ===== src/Cache/Level/Tests.antt =====
-- Runs of one cache: its blocks, its registers and its requests.
use sandbox_predictor.Prelude.{
  ℕ, zero, suc, ◌+◌, ◌-◌, ◌≤◌, ◌<◌, ◌≡◌, ◌≢◌, refl, true, false, none, some, [], ◌∷◌, arith,
  if◌then◌else◌, ◌==◌, get_or, get_elem?, ltb,
}
use mathlib.Core.Option
use sandbox_predictor.Prelude.Int.{pos, ◌+ℤ◌}
use sandbox_predictor.PageTable.{lg2}
use sandbox_predictor.Cache.Packet.{Packet, empty_packet}
use sandbox_predictor.Cache.PacketQueue
use sandbox_predictor.Cache.PacketQueue.{PacketQueue, same_address, check_queue}
use sandbox_predictor.Cache.PacketQueue.Ring.{construct-Holds}
use sandbox_predictor.Cache.Replacement.{no_block}
use sandbox_predictor.Cache.Level.{
  Cache, l2c, get_set, holds_tag, fill_cache, check_hit, invalidate_entry,
}
use sandbox_predictor.Cache.Level.Scan.{Single, Single-none}
use sandbox_predictor.Cache.Level.Tags.{HasUniqueTags, without, fill_cache-check_hit}
use sandbox_predictor.Cache.Level.Invalidate.{invalidate_entry-check_hit}
use sandbox_predictor.Cache.Mshr.{check_mshr, add_mshr, return_data, completed}
use sandbox_predictor.Cache.Mshr.Lookup.{add_mshr-check_mshr, return_data-serves}
use sandbox_predictor.Cache.Request.{Outcome, handled, add_rq, add_wq, replies_of}
use sandbox_predictor.Cache.Request.Queue.{IsQueue, stamped}
use sandbox_predictor.Cache.Request.Ends.{Read, taking}
use sandbox_predictor.Cache.Request.Read.{add_rq-Read}
use sandbox_predictor.Cache.Request.Write.{add_wq-add_rq}

-- a second level cache of two sets and two ways, with nothing in it
abbrev cache : Cache
cache = record {
  cpu = 0;
  cache_type = l2c;
  num_set = 2;
  num_way = 2;
  rq_size = 2;
  pq_size = 2;
  mshr_size = 2;
  latency = 10;
  fill_level = pos 2;
  block = (no_block ∷ no_block ∷ []) ∷ (no_block ∷ no_block ∷ []) ∷ [];
  wq = PacketQueue.construct false 2;
  rq = PacketQueue.construct false 2;
  pq = PacketQueue.construct false 2;
  mshr = PacketQueue.construct false 2;
  processed = PacketQueue.construct false 2;
  access = 0 ∷ 0 ∷ 0 ∷ 0 ∷ [];
  hit = 0 ∷ 0 ∷ 0 ∷ 0 ∷ [];
  pf_requested = 0;
  pf_issued = 0;
  pf_useless = 0;
  pf_fill = 0;
  stall = 0 ∷ 0 ∷ 0 ∷ 0 ∷ [];
  sim_access = (0 ∷ 0 ∷ 0 ∷ 0 ∷ []) ∷ [];
  sim_miss = (0 ∷ 0 ∷ 0 ∷ 0 ∷ []) ∷ [];
  total_miss_latency = 0;
}

abbrev now : ℕ → ℕ
now cpu = 100

abbrev load : Packet
load = record empty_packet { address = 5; fill_level = pos 1; cpu = 0; event_cycle = 0 }

abbrev write : Packet
write = record load { payload = 77; type = 3 }

cache-HasUniqueTags : HasUniqueTags cache
cache-HasUniqueTags = record { single = empty }
  where
    empty : (s tag : ℕ) → Single (holds_tag tag) (get_or cache.block s [])
    empty zero tag = Single-none (holds_tag tag) (no_block ∷ no_block ∷ []) refl
    empty (suc zero) tag = Single-none (holds_tag tag) (no_block ∷ no_block ∷ []) refl
    empty (suc (suc s)) tag = Single-none (holds_tag tag) [] refl

-- the cache after the load is filled in the second way of its set
abbrev loaded : Cache
loaded = record cache {
  block =
      (no_block ∷ no_block ∷ [])
      ∷ (no_block ∷ record no_block { valid = true; tag = 5; address = 5 } ∷ [])
      ∷ [];
}

fill_run : fill_cache cache (get_set cache 5) 1 load ≡ some loaded
unfolding fill_cache get_set ◌+ℤ◌ lg2
fill_run = refl

set_of : get_set cache 5 ≡ 1
unfolding get_set ◌+ℤ◌ lg2
set_of = refl

miss_run : check_hit cache load ≡ some none
unfolding check_hit ◌+ℤ◌ lg2
miss_run = refl

fill_cache-check_hit_example :
    (check_hit loaded load ≡ (
      if Packet.address load == 5
      then some (some 1)
      else if get_set cache 5 == get_set cache 5
      then Option.map (without 1) (check_hit cache load)
      else check_hit cache load))
    × HasUniqueTags loaded
unfolding get_set ◌+ℤ◌ lg2
fill_cache-check_hit_example =
    fill_cache-check_hit cache 1 load load cache-HasUniqueTags (omega arith) (omega arith) miss_run
      fill_run

loaded-HasUniqueTags : HasUniqueTags loaded
loaded-HasUniqueTags = fill_cache-check_hit_example.1

invalidate_run :
    invalidate_entry loaded 5
    ≡ some (
      record cache {
        block =
            (no_block ∷ no_block ∷ [])
            ∷ (no_block ∷ record no_block { tag = 5; address = 5 } ∷ [])
            ∷ [];
      },
      some 1,
    )
unfolding invalidate_entry ◌+ℤ◌ lg2
invalidate_run = refl

abbrev emptied : Cache
emptied = record cache {
  block =
      (no_block ∷ no_block ∷ []) ∷ (no_block ∷ record no_block { tag = 5; address = 5 } ∷ []) ∷ [];
}

invalidate_entry-check_hit_example :
    (check_hit loaded load ≡ some (some 1))
    × (check_hit emptied load
        ≡ (if Packet.address load == 5 then some none else check_hit loaded load))
    × HasUniqueTags emptied
invalidate_entry-check_hit_example =
    invalidate_entry-check_hit loaded load load loaded-HasUniqueTags invalidate_run

nonzero : ◌≢◌ {A = ℕ} 5 0
nonzero e = omega arith

no_register : check_mshr cache load ≡ none
unfolding check_mshr
no_register = refl

add_mshr-check_mshr_example :
    check_mshr (add_mshr now cache load).1 load
    ≡ (if Packet.address load == 5 then some 0 else check_mshr cache load)
add_mshr-check_mshr_example =
    add_mshr-check_mshr now cache load load nonzero nonzero no_register refl

-- a cache that waits for the load
abbrev waiting : Cache
waiting = record cache {
  mshr = record (PacketQueue.construct false 2) { entry = empty_packet ∷ load ∷ []; occupancy = 1 };
}

registered : check_mshr waiting write ≡ some 1
unfolding check_mshr
registered = refl

return_data-serves_example :
    (c : Cache) × (e : Packet) × (return_data now waiting write ≡ some c)
    × (get_elem? c.mshr.entry 1 ≡ some e)
    × (e.address ≡ 5)
    × (e.returned ≡ completed)
    × (e.payload ≡ 77)
    × (c.mshr.next_fill_cycle ≤ e.event_cycle)
return_data-serves_example = return_data-serves now waiting write registered

-- an empty queue of two
idle :
    (k : ℕ)
    → 0 ≤ k
    → k < 2
    → (get_or
        (empty_packet ∷ empty_packet ∷ [])
        (if ltb (0 + k) 2 then 0 + k else 0 + k - 2)
        empty_packet).address
      ≡ 0
idle zero a b = refl
idle (suc zero) a b = refl
idle (suc (suc k)) a b = absurd (omega arith)

construct-IsQueue : IsQueue (PacketQueue.construct false 2) []
construct-IsQueue = record {
  ring = construct-Holds false 2 (omega arith) (omega arith);
  idle = idle;
}

add_rq-Read_example : (o : Outcome) × (add_rq now cache load ≡ some o) × Read now cache [] [] load o
add_rq-Read_example =
    add_rq-Read now cache [] [] [] load construct-IsQueue construct-IsQueue
      (construct-Holds false 2 (omega arith) (omega arith)) refl refl nonzero

no_write : check_queue (PacketQueue.construct false 2) write ≡ none
unfolding check_queue
no_write = refl

same : same_address (PacketQueue.construct false 2) write load ≡ true
unfolding same_address
same = refl

add_wq-add_rq_example :
    (c : Cache) × (o : Outcome) × (add_wq now cache write ≡ some (c, handled))
    × IsQueue c.wq (stamped now 10 write ∷ [])
    × (add_rq now c load ≡ some o)
    × (o.answer ≡ handled)
    × (o.packet ≡ taking load write)
    × (o.replies ≡ replies_of cache (taking load write))
    × IsQueue o.cache.rq []
    × IsQueue o.cache.wq (stamped now 10 write ∷ [])
add_wq-add_rq_example =
    add_wq-add_rq now cache [] [] [] write load construct-IsQueue construct-IsQueue
      (construct-Holds false 2 (omega arith) (omega arith)) refl refl (omega arith) no_write nonzero
      same refl
