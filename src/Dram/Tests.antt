-- ===== src/Dram/Tests.antt =====
-- Runs of the DRAM controller.
use sandbox_predictor.Prelude.{
  ◌+◌, ◌*◌, ◌<◌, ◌≡◌, refl, true, false, none, some, [], ◌∷◌, arith, set, replicate,
}
use sandbox_predictor.Cache.Packet.{Packet, empty_packet}
use sandbox_predictor.Cache.PacketQueue
use sandbox_predictor.Cache.PacketQueue.{PacketQueue}
use sandbox_predictor.Cache.Mshr.{earliest}
use sandbox_predictor.Dram.{
  Dram, idle_bank, queue_of, writes, dram_get_channel, dram_get_rank, dram_get_bank,
  dram_get_column, dram_get_row,
}
use sandbox_predictor.Dram.Address.{dram_fields}
use sandbox_predictor.Dram.Schedule.{select, add_wq, add_rq, check_dram_queue, answer_to}
use sandbox_predictor.Dram.Schedule.Select.{IsSelected, select-IsSelected}
use sandbox_predictor.Dram.Schedule.Forward.{dram_write-read}

dram_fields_example :
    ((dram_get_row 5000 * 128 + dram_get_column 5000) * 8 + dram_get_bank 5000 ≡ 5000)
    × (dram_get_channel 5000 ≡ 0)
    × (dram_get_rank 5000 ≡ 0)
    × (dram_get_bank 5000 < 8)
    × (dram_get_column 5000 < 128)
    × (dram_get_row 5000 < 65536)
dram_fields_example = dram_fields 5000 (omega arith)

abbrev dram : Dram
dram = record {
  bank_request = (replicate 8 idle_bank ∷ []) ∷ [];
  wq = PacketQueue.construct false 64 ∷ [];
  rq = PacketQueue.construct false 64 ∷ [];
  write_mode = false ∷ [];
  scheduled_reads = 0 ∷ [];
  scheduled_writes = 0 ∷ [];
  dbus_cycle_available = 0 ∷ [];
  dbus_cycle_congested = 0 ∷ [];
  dbus_congested = replicate 5 (replicate 5 0);
  access = replicate 4 0;
  hit = replicate 4 0;
}

abbrev load : Packet
load = record empty_packet { address = 5000; event_cycle = 3; cpu = 0 }

abbrev write : Packet
write = record load { payload = 8 }

-- a queue of two reads on one bank
abbrev two : PacketQueue
two = record (PacketQueue.construct false 2) {
  entry = record load { event_cycle = 9 } ∷ load ∷ [];
  occupancy = 2;
}

select_run : select dram two ≡ some (1, false)
unfolding select earliest
select_run = refl

select-IsSelected_example : IsSelected dram two (select dram two)
select-IsSelected_example = select-IsSelected dram two refl

unwritten : check_dram_queue (queue_of dram writes 0) write ≡ none
unfolding check_dram_queue
unwritten = refl

dram_write-read_example :
    ((queue_of (add_wq true dram write).0 writes 0).entry
      ≡ set (queue_of dram writes 0).entry 0 write)
    × ((queue_of (add_wq true dram write).0 writes 0).occupancy ≡ 1)
    × ((add_rq true (add_wq true dram write).0 load).1 ≡ record load { payload = 8 })
    × ((add_rq true (add_wq true dram write).0 load).2 ≡ answer_to (record load { payload = 8 }))
    × ((add_rq true (add_wq true dram write).0 load).3 ≡ none)
dram_write-read_example = dram_write-read dram write load (omega arith) refl refl unwritten refl
