-- ===== src/Dram/Operate.antt =====
-- The cycle of the DRAM controller: `reset_remain_requests` and `operate`.
use sandbox_predictor.Prelude.{
  ℕ, zero, suc, ◌+◌, ◌-◌, ◌*◌, ◌/◌, ◌^◌, Bool, false, not, ◌&&◌, ◌||◌, Option, none, some, List, [],
  ◌++◌, ltb, leb, ◌==◌, if◌then◌else◌, get_or, set,
}
use sandbox_predictor.Prelude.Word.{u64, pred32}
use sandbox_predictor.Cache.Packet.{empty_packet}
use sandbox_predictor.Cache.Request.{Reply}
use sandbox_predictor.Dram.{
  Dram, Timing, Side, reads, writes, queue_of, set_queue, bank_of, set_bank, dram_get_row,
  dram_channels, dram_wq_size,
}
use sandbox_predictor.Dram.Schedule.{update_schedule_cycle, update_process_cycle, schedule}
use sandbox_predictor.Dram.Serve.{process}

-- (15 * CPU_FREQ) / 2000
abbrev pub turn_around_time : ℕ
turn_around_time = 15 * 4000 / 2000

abbrev pub high_wm : ℕ
high_wm = dram_wq_size * 7 / 8

abbrev pub low_wm : ℕ
low_wm = dram_wq_size * 3 / 4

-- `write_mode[channel]`
abbrev pub mode_of : Dram → ℕ → Bool
mode_of d channel = get_or d.write_mode channel false

-- a scheduled entry loses its bank
unfoldable pub reset_entry : Timing → (ℕ → ℕ) → Dram → Side → ℕ → ℕ → Dram
reset_entry t now d side channel i =
    let q = queue_of d side channel in
    let e = get_or q.entry i empty_packet in
    let b = bank_of d e.address in
    let free = record b {
      open_row =
          if leb (u64 (b.cycle_available + (2 ^ 64 - t.t_cas))) (now e.cpu)
          then dram_get_row e.address
          else 2 ^ 32 - 1;
      request_index = none;
      row_buffer_hit = false;
      working = false;
      cycle_available = now e.cpu;
      is_write = false;
      is_read = b.is_read && b.is_write;
    } in
    let counted =
      if b.is_write
      then record d {
        scheduled_writes =
            set d.scheduled_writes channel (pred32 (get_or d.scheduled_writes channel 0));
      }
      else if b.is_read
      then record d {
        scheduled_reads =
            set d.scheduled_reads channel (pred32 (get_or d.scheduled_reads channel 0));
      }
      else d in
    let entry = set q.entry i (record e { scheduled = false; event_cycle = now e.cpu }) in
    set_queue (set_bank counted e.address free) side channel (record q { entry = entry })

-- `rounds` more entries from number `i`
unfoldable pub reset_from : Timing → (ℕ → ℕ) → Dram → Side → ℕ → ℕ → ℕ → Dram
unfolding reset_entry
reset_from t now d side channel zero i = d
reset_from t now d side channel (suc rounds) i =
    let e = get_or (queue_of d side channel).entry i empty_packet in
    reset_from t now (if e.scheduled then reset_entry t now d side channel i else d) side channel
      rounds (i + 1)

abbrev pub update_cycles : Dram → Side → ℕ → Dram
update_cycles d side channel =
    set_queue d side channel
      (update_process_cycle (update_schedule_cycle (queue_of d side channel)))

-- `none` is the failed assertion on requests that are still scheduled.
unfoldable pub reset_remain_requests : Timing → (ℕ → ℕ) → Dram → Side → ℕ → Option Dram
unfolding reset_from
reset_remain_requests t now d side channel =
    let q = queue_of d side channel in
    let freed = reset_from t now d side channel q.size 0 in
    let d' = update_cycles (update_cycles freed reads channel) writes channel in
    let left =
      if q.is_wq
      then get_or d'.scheduled_writes channel 0
      else get_or d'.scheduled_reads channel 0 in
    if left == 0 then some d' else none

-- a channel changes to the other mode
unfoldable pub turn_around : Timing → (ℕ → ℕ) → Dram → Side → ℕ → Option Dram
unfolding reset_remain_requests
turn_around t now d side channel = elim (reset_remain_requests t now d side channel) [
  | none ↦ none
  | some d' ↦
      let bus = get_or d'.dbus_cycle_available channel 0 in
      some (record d' {
        dbus_cycle_available = set d'.dbus_cycle_available channel (u64 (bus + turn_around_time));
      })
]

-- the mode of a channel after the test at the start of its cycle
unfoldable pub next_mode : Bool → ℕ → ℕ → Bool
next_mode write_mode reads_waiting writes_waiting =
    if write_mode
    then not ((writes_waiting == 0) || (ltb 0 reads_waiting && ltb writes_waiting low_wm))
    else leb high_wm writes_waiting || ((reads_waiting == 0) && ltb 0 writes_waiting)

unfoldable pub switch_mode : Timing → (ℕ → ℕ) → Dram → ℕ → Option Dram
unfolding next_mode turn_around
switch_mode t now d channel =
    let mode = mode_of d channel in
    let mode' =
      next_mode mode (queue_of d reads channel).occupancy (queue_of d writes channel).occupancy in
    let d' = record d { write_mode = set d.write_mode channel mode' } in
    if mode
    then (if mode' then some d' else turn_around t now d' writes channel)
    else (if mode' then turn_around t now d' reads channel else some d')

-- a queue whose side is in charge: schedules a request and processes one, if they are due
unfoldable pub run_queue : Timing → (ℕ → ℕ) → Dram → Side → ℕ → Option (Dram × List Reply)
unfolding schedule process
run_queue t now d side channel =
    let q = queue_of d side channel in
    let scheduled_cpu = (get_or q.entry q.next_schedule_index empty_packet).cpu in
    let d' =
      if ltb q.next_schedule_index q.size && leb q.next_schedule_cycle (now scheduled_cpu)
      then schedule t now d side channel
      else d in
    let q' = queue_of d' side channel in
    let processed_cpu = (get_or q'.entry q'.next_process_index empty_packet).cpu in
    if ltb q'.next_process_index q'.size && leb q'.next_process_cycle (now processed_cpu)
    then process t now d' side channel
    else some (d', [])

unfoldable pub operate_channel : Timing → (ℕ → ℕ) → Dram → ℕ → Option (Dram × List Reply)
unfolding switch_mode run_queue
operate_channel t now d channel = elim (switch_mode t now d channel) [
  | none ↦ none
  | some d' ↦
      if mode_of d' channel
      then run_queue t now d' writes channel
      else run_queue t now d' reads channel
]

-- `rounds` more channels from number `i`
unfoldable pub operate_from : Timing → (ℕ → ℕ) → Dram → ℕ → ℕ → Option (Dram × List Reply)
unfolding operate_channel
operate_from t now d zero i = some (d, [])
operate_from t now d (suc rounds) i = elim (operate_channel t now d i) [
  | none ↦ none
  | some (d', replies) ↦ elim (operate_from t now d' rounds (i + 1)) [
    | none ↦ none
    | some (d2, more) ↦ some (d2, replies ++ more)
  ]
]

unfoldable pub operate : Timing → (ℕ → ℕ) → Dram → Option (Dram × List Reply)
unfolding operate_from
operate t now d = operate_from t now d dram_channels 0
