-- ===== src/Dram/Serve.antt =====
-- A request that has waited for its bank: src/dram_controller.cc, `process`.
use sandbox_predictor.Prelude.{
  ℕ, ◌+◌, ◌-◌, Bool, false, not, ◌||◌, Option, none, some, List, [], ◌∷◌, ltb, leb, ◌==◌,
  if◌then◌else◌, get_or, set,
}
use sandbox_predictor.Prelude.Word.{u64, pred32, increment}
use sandbox_predictor.Cache.Packet.{Packet, empty_packet}
use sandbox_predictor.Cache.PacketQueue.{remove_queue}
use sandbox_predictor.Cache.Request.{Reply, to_dcache}
use sandbox_predictor.Dram.{
  Dram, BankRequest, Timing, Side, queue_of, set_queue, bank_of, set_bank, dram_get_channel,
}
use sandbox_predictor.Dram.Schedule.{update_process_cycle}

-- the bank of a request that is done
abbrev pub released : BankRequest → BankRequest
released b = record b {
  request_index = none;
  row_buffer_hit = false;
  working = false;
  is_write = false;
  is_read = false;
}

-- `dbus_congested[i][j]++`
abbrev pub congest : List (List ℕ) → ℕ → ℕ → List (List ℕ)
congest m i j = set m i (increment (get_or m i []) j)

-- the data bus is free: the request is served
unfoldable pub serve : Timing → (ℕ → ℕ) → Dram → Side → ℕ → ℕ → Option (Dram × List Reply)
serve t now d side channel i =
    let q = queue_of d side channel in
    let e = get_or q.entry i empty_packet in
    let op_channel = dram_get_channel e.address in
    let b = bank_of d e.address in
    let bus = u64 (now e.cpu + t.dbus_return_time) in
    let answered = record e { event_cycle = bus } in
    let counted = record q {
      entry = if q.is_wq then q.entry else set q.entry i answered;
      row_buffer_hit = if b.row_buffer_hit then u64 (q.row_buffer_hit + 1) else q.row_buffer_hit;
      row_buffer_miss = if b.row_buffer_hit then q.row_buffer_miss else u64 (q.row_buffer_miss + 1);
    } in
    let d' = record d {
      dbus_cycle_available = set d.dbus_cycle_available op_channel bus;
      scheduled_writes =
          if q.is_wq
          then set d.scheduled_writes op_channel (pred32 (get_or d.scheduled_writes op_channel 0))
          else d.scheduled_writes;
      scheduled_reads =
          if q.is_wq
          then d.scheduled_reads
          else set d.scheduled_reads op_channel (pred32 (get_or d.scheduled_reads op_channel 0));
    } in
    elim (remove_queue counted i) [
      | none ↦ none
      | some q' ↦ some (
        set_queue (set_bank d' e.address (released b)) side channel (update_process_cycle q'),
        (if q.is_wq then [] else to_dcache answered ∷ []),
      )
    ]

-- the data bus is busy: the bank waits for it
unfoldable pub wait_for_bus : (ℕ → ℕ) → Dram → Packet → Dram
wait_for_bus now d e =
    let op_channel = dram_get_channel e.address in
    let b = bank_of d e.address in
    let bus = get_or d.dbus_cycle_available op_channel 0 in
    let congested = get_or d.dbus_cycle_congested op_channel 0 in
    set_bank
      (record d {
        dbus_cycle_congested =
            set d.dbus_cycle_congested op_channel (u64 (congested + (bus - now e.cpu)));
        dbus_congested =
            congest (congest (congest (congest d.dbus_congested 4 4) 4 e.type) b.working_type 4)
              b.working_type e.type;
      })
      e.address (record b { cycle_available = bus })

-- `none` is a failed assertion: no request, or one that its bank does not work on.
unfoldable pub process : Timing → (ℕ → ℕ) → Dram → Side → ℕ → Option (Dram × List Reply)
unfolding serve wait_for_bus
process t now d side channel =
    let q = queue_of d side channel in
    let i = q.next_process_index in
    let e = get_or q.entry i empty_packet in
    let b = bank_of d e.address in
    let bus = get_or d.dbus_cycle_available (dram_get_channel e.address) 0 in
    let works : Bool = elim b.request_index [ none ↦ false | some j ↦ j == i ] in
    if (i == q.size) || not works
    then none
    else if ltb (now e.cpu) b.cycle_available
    then some (d, [])
    else if leb bus (now e.cpu)
    then serve t now d side channel i
    else some (wait_for_bus now d e, [])
