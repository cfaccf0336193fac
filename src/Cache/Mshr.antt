-- ===== src/Cache/Mshr.antt =====
-- The miss status registers of `CACHE`: src/cache.cc, `return_data` to `add_mshr`.
pub mod Earliest
pub mod Lookup
use sandbox_predictor.Prelude.{
  ℕ, zero, suc, ◌+◌, ◌-◌, ◌^◌, Bool, ◌&&◌, Option, none, some, List, [], ◌∷◌, ltb, ◌==◌,
  if◌then◌else◌, get_or, set, find_index, take,
}
use sandbox_predictor.Prelude.Word.{u32, u64}
use sandbox_predictor.Cache.Packet.{Packet, empty_packet}
use sandbox_predictor.Cache.PacketQueue.{PacketQueue}
use sandbox_predictor.Cache.Level.{Cache}

abbrev pub inflight : ℕ
inflight = 1

abbrev pub completed : ℕ
completed = 2

-- The loop of `update_fill_cycle` and its like over the entries from number `i`: the least cycle
-- below `min_cycle` of an entry that passes the test, and the first entry that has it.
unfoldable pub earliest_from : (Packet → Bool) → List Packet → ℕ → ℕ → ℕ → ℕ × ℕ
earliest_from test [] i min_cycle min_index = (min_cycle, min_index)
earliest_from test (e ∷ es) i min_cycle min_index =
    let sooner = test e && ltb e.event_cycle min_cycle in
    earliest_from test es (i + 1) (if sooner then e.event_cycle else min_cycle)
      (if sooner then i else min_index)

unfoldable pub earliest : (Packet → Bool) → PacketQueue → ℕ × ℕ
unfolding earliest_from
earliest test q = earliest_from test q.entry 0 (2 ^ 64 - 1) q.size

abbrev pub is_completed : Packet → Bool
is_completed e = e.returned == completed

unfoldable pub update_fill_cycle : PacketQueue → PacketQueue
unfolding earliest
update_fill_cycle q =
    let (min_cycle, min_index) = earliest is_completed q in
    record q { next_fill_cycle = min_cycle; next_fill_index = min_index }

-- `none` is the result -1.
unfoldable pub check_mshr : Cache → Packet → Option ℕ
check_mshr c packet =
    find_index (λ (e : Packet). e.address == packet.address) (take c.mshr_size c.mshr.entry)

-- the cycle of a packet that comes in
abbrev pub delayed : (ℕ → ℕ) → ℕ → Packet → ℕ → ℕ
delayed now latency e cpu =
    if ltb e.event_cycle (now cpu) then u64 (now cpu + latency) else u64 (e.event_cycle + latency)

-- `now` is `current_core_cycle`; `none` is the failed assertion on a packet that nobody waits for.
unfoldable pub return_data : (ℕ → ℕ) → Cache → Packet → Option Cache
unfolding check_mshr update_fill_cycle
return_data now c packet = elim (check_mshr c packet) [
  | none ↦ none
  | some i ↦
      let e = get_or c.mshr.entry i empty_packet in
      let e' = record e {
        returned = completed;
        payload = packet.payload;
        pf_metadata = packet.pf_metadata;
        event_cycle = delayed now c.latency e packet.cpu;
      } in
      let mshr = record c.mshr {
        num_returned = u32 (c.mshr.num_returned + 1);
        entry = set c.mshr.entry i e';
      } in
      some (record c { mshr = update_fill_cycle mshr })
]

-- The packet, which the code stamps with the cycle, and the new state: the first empty register is
-- taken, and nothing changes if there is none.
unfoldable pub add_mshr : (ℕ → ℕ) → Cache → Packet → Packet × Cache
add_mshr now c packet =
    let stamped = record packet { cycle_enqueued = now packet.cpu } in
    elim (find_index (λ (e : Packet). e.address == 0) (take c.mshr_size c.mshr.entry)) [
      | none ↦ (stamped, c)
      | some i ↦ (
        stamped,
        record c {
          mshr = record c.mshr {
            entry = set c.mshr.entry i (record stamped { returned = inflight });
            occupancy = u32 (c.mshr.occupancy + 1);
          };
        },
      )
    ]
