-- ===== src/Cache/Tests.antt =====
-- Runs of the replacement policy and of the packet queues on small inputs.
use sandbox_predictor.Prelude.{
  ℕ, zero, suc, ◌+◌, ◌-◌, ltb, if◌then◌else◌, ◌≡◌, refl, false, some, [], ◌∷◌, arith, get_elem?,
}
use sandbox_predictor.Cache.Replacement.{Block, fresh_from, lru_update}
use sandbox_predictor.Cache.Replacement.Ranks.{
  IsRanked, IsVictim, fresh-IsRanked, lru-IsVictim_exists,
}
use sandbox_predictor.Cache.Packet.{Packet, empty_packet}
use sandbox_predictor.Cache.PacketQueue.{PacketQueue, construct, remove_queue, check_queue}
use sandbox_predictor.Cache.PacketQueue.Ring.{Holds, remove_queue-Holds}
use sandbox_predictor.Cache.PacketQueue.Check.{IsAnswer, check_queue-IsAnswer}

lru-IsVictim_exists_example :
    IsRanked 3 (lru_update (fresh_from 3 0) 1)
    × ((x : Block) × (get_elem? (lru_update (fresh_from 3 0) 1) 1 ≡ some x) × (x.lru ≡ 0))
    × ((v : ℕ) × IsVictim 3 (lru_update (fresh_from 3 0) 1) v)
lru-IsVictim_exists_example =
    lru-IsVictim_exists 3 1 (fresh_from 3 0) (fresh-IsRanked 3) (omega arith)

abbrev load : Packet
load = record empty_packet { address = 4; full_addr = 256; event_cycle = 1 }

-- a queue of two that holds one packet, as its last entry
abbrev holding : PacketQueue
holding = record (construct false 2) {
  is_l1d_wq = false;
  size = 2;
  head = 1;
  tail = 0;
  occupancy = 1;
  entry = load ∷ load ∷ [];
}

one_held :
    (k : ℕ) {x : Packet}
    → get_elem? (load ∷ []) k ≡ some x
    → get_elem? (load ∷ load ∷ []) (if ltb (1 + k) 2 then 1 + k else 1 + k - 2) ≡ some x
one_held zero h = h
one_held (suc k) h = absurd (cc)

holding-Holds : Holds holding (load ∷ [])
holding-Holds = record {
  small = omega arith;
  cells = refl;
  head_lt = omega arith;
  fits = omega arith;
  count = refl;
  end = refl;
  holds = one_held;
}

remove_queue-Holds_example :
    (get_elem? (PacketQueue.entry holding) 1 ≡ some load)
    × ((q : PacketQueue) × (remove_queue holding 1 ≡ some q) × Holds q [])
remove_queue-Holds_example = remove_queue-Holds holding load [] holding-Holds

check_queue-IsAnswer_example : IsAnswer holding load (load ∷ []) (check_queue holding load)
check_queue-IsAnswer_example = check_queue-IsAnswer holding load (load ∷ []) holding-Holds
