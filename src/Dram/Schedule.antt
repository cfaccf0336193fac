-- ===== src/Dram/Schedule.antt =====
-- The queues of the DRAM controller: the search for the next request, and the requests that come in.
pub mod Select
pub mod Forward
use sandbox_predictor.Prelude.{
  ℕ, zero, suc, ◌+◌, ◌-◌, ◌*◌, ◌/◌, ◌%◌, ◌^◌, Bool, true, false, not, ◌&&◌, ◌||◌, Option, none,
  some, List, [], ◌∷◌, ◌++◌, ◌==◌, if◌then◌else◌, get_or, set, find_index, take,
}
use sandbox_predictor.Prelude.Word.{u32, u64, increment}
use sandbox_predictor.Cache.Packet.{Packet, empty_packet}
use sandbox_predictor.Cache.PacketQueue.{PacketQueue}
use sandbox_predictor.Cache.Mshr.{earliest}
use sandbox_predictor.Cache.Request.{Reply, to_icache, to_dcache}
use sandbox_predictor.Dram.{
  Dram, Timing, Side, reads, writes, queue_of, set_queue, bank_of, set_bank, dram_get_row,
  dram_get_channel, dram_get_rank, dram_get_bank, dram_rq_size, dram_wq_size,
}

-- the tests of the two searches
abbrev pub waits : Packet → Bool
waits e = not (e.address == 0) && not e.scheduled

abbrev pub is_scheduled : Packet → Bool
is_scheduled e = e.scheduled

unfoldable pub update_schedule_cycle : PacketQueue → PacketQueue
update_schedule_cycle q =
    let (min_cycle, min_index) = earliest waits q in
    record q { next_schedule_cycle = min_cycle; next_schedule_index = min_index }

unfoldable pub update_process_cycle : PacketQueue → PacketQueue
update_process_cycle q =
    let (min_cycle, min_index) = earliest is_scheduled q in
    record q { next_process_cycle = min_cycle; next_process_index = min_index }

-- `none` is the result -1.
unfoldable pub check_dram_queue : PacketQueue → Packet → Option ℕ
check_dram_queue q packet =
    find_index (λ (e : Packet). e.address == packet.address) (take q.size q.entry)

-- the first empty entry takes the packet, and nothing changes if there is none
unfoldable pub put : PacketQueue → ℕ → Packet → PacketQueue
put q size packet = elim (find_index (λ (e : Packet). e.address == 0) (take size q.entry)) [
  | none ↦ q
  | some i ↦ record q { entry = set q.entry i packet; occupancy = u32 (q.occupancy + 1) }
]

-- the replies to a packet, on the side of the instructions and on that of the data
abbrev pub answer_to : Packet → List Reply
answer_to packet =
    (if packet.instruction then to_icache packet ∷ [] else [])
    ++ (if packet.is_data then to_dcache packet ∷ [] else [])

-- The new state, the packet, which a forward writes to, the replies, and the index of the packet that
-- this one was merged with. `warm` is whether the warmup of all cores is complete.
unfoldable pub add_rq : Bool → Dram → Packet → Dram × Packet × List Reply × Option ℕ
unfolding put check_dram_queue update_schedule_cycle dram_get_channel
add_rq warm d packet =
    let channel = dram_get_channel packet.address in
    let rq = queue_of d reads channel in
    let wq = queue_of d writes channel in
    if not warm then (d, packet, answer_to packet, none) else elim (check_dram_queue wq packet) [
      | some i ↦
          let packet' = record packet { payload = (get_or wq.entry i empty_packet).payload } in
          let d' = record d { access = increment d.access 1; hit = increment d.hit 1 } in
          let d2 = set_queue d' writes channel (record wq { forwards = u64 (wq.forwards + 1) }) in
          (
            set_queue d2 reads channel (record rq { accesses = u64 (rq.accesses + 1) }),
            packet',
            answer_to packet',
            none,
          )
      | none ↦ elim (check_dram_queue rq packet) [
        | some i ↦ (d, packet, [], some i)
        | none ↦
            let rq' = update_schedule_cycle (put rq dram_rq_size packet) in
            (set_queue d reads channel rq', packet, [], none)
      ]
    ]

unfoldable pub add_wq : Bool → Dram → Packet → Dram × Option ℕ
unfolding put check_dram_queue update_schedule_cycle dram_get_channel
add_wq warm d packet =
    let channel = dram_get_channel packet.address in
    let wq = queue_of d writes channel in
    if not warm then (d, none) else elim (check_dram_queue wq packet) [
      | some i ↦ (d, some i)
      | none ↦
          let wq' = update_schedule_cycle (put wq dram_wq_size packet) in
          (set_queue d writes channel wq', none)
    ]

-- an entry whose bank is free, and one whose row is open there too
abbrev pub is_ready : Dram → Packet → Bool
is_ready d e = waits e && not (bank_of d e.address).working

abbrev pub is_row_hit : Dram → Packet → Bool
is_row_hit d e = is_ready d e && ((bank_of d e.address).open_row == dram_get_row e.address)

-- The loops of `schedule`: the entry that passes with the earliest cycle. `none` is the index -1.
unfoldable pub oldest : (Packet → Bool) → PacketQueue → Option ℕ
oldest test q = let r = earliest test q in if r.1 == q.size then none else some r.1

-- the request that is scheduled, and whether its row is open
unfoldable pub select : Dram → PacketQueue → Option (ℕ × Bool)
unfolding oldest dram_get_row dram_get_channel dram_get_rank dram_get_bank
select d q = elim (oldest (is_row_hit d) q) [
  | some i ↦ some (i, true)
  | none ↦ elim (oldest (is_ready d) q) [ some i ↦ some (i, false) | none ↦ none ]
]

-- `now` is `current_core_cycle`.
unfoldable pub schedule : Timing → (ℕ → ℕ) → Dram → Side → ℕ → Dram
unfolding select update_schedule_cycle update_process_cycle dram_get_row dram_get_channel
    dram_get_rank dram_get_bank
schedule t now d side channel =
    let q = queue_of d side channel in
    elim (select d q) [
      | none ↦ d
      | some (i, row_buffer_hit) ↦
          let e = get_or q.entry i empty_packet in
          let op_channel = dram_get_channel e.address in
          let latency = if row_buffer_hit then t.t_cas else u32 (t.t_rp + t.t_rcd + t.t_cas) in
          let done = u64 (now e.cpu + latency) in
          let is_write = q.is_wq in
          let b = record (bank_of d e.address) {
            working = true;
            working_type = e.type;
            cycle_available = done;
            request_index = some i;
            row_buffer_hit = row_buffer_hit;
            is_write = is_write;
            is_read = not is_write;
            open_row = dram_get_row e.address;
          } in
          let counted =
            if is_write
            then record d {
              scheduled_writes =
                  set d.scheduled_writes op_channel
                    (u32 (get_or d.scheduled_writes op_channel 0 + 1));
            }
            else record d {
              scheduled_reads =
                  set d.scheduled_reads op_channel
                    (u32 (get_or d.scheduled_reads op_channel 0 + 1));
            } in
          let entry = set q.entry i (record e { scheduled = true; event_cycle = done }) in
          let q' = update_process_cycle (update_schedule_cycle (record q { entry = entry })) in
          set_queue (set_bank counted e.address b) side channel q'
    ]
