-- ===== src/Cache/PacketQueue.antt =====
-- `PACKET_QUEUE` of inc/block.h and src/block.cc: a ring of packets.
pub mod Ring
pub mod Check
use sandbox_predictor.Prelude.{
  ℕ, zero, suc, ◌+◌, ◌-◌, ◌^◌, Bool, false, ◌&&◌, Option, none, some, List, ltb, leb, ◌==◌,
  if◌then◌else◌, get_or, set, replicate,
}
use sandbox_predictor.Prelude.Word.{u32, pred32}
use sandbox_predictor.Cache.Packet.{Packet, empty_packet}

-- The ring, what the caches and the DRAM controller note beside it, and the statistics. The first
-- flag stands for `NAME == "L1D_WQ"`.
pub record PacketQueue : Type 0 where
  pub is_l1d_wq : Bool
  pub size : ℕ  -- uint32_t
  pub head : ℕ  -- uint32_t
  pub tail : ℕ  -- uint32_t
  pub occupancy : ℕ  -- uint32_t
  pub entry : List Packet
  pub is_wq : Bool
  pub num_returned : ℕ  -- uint32_t
  pub next_fill_index : ℕ  -- uint32_t
  pub next_schedule_index : ℕ  -- uint32_t
  pub next_process_index : ℕ  -- uint32_t
  pub next_fill_cycle : ℕ  -- uint64_t
  pub next_schedule_cycle : ℕ  -- uint64_t
  pub next_process_cycle : ℕ  -- uint64_t
  pub accesses : ℕ  -- uint64_t ACCESS
  pub forwards : ℕ  -- uint64_t FORWARD
  pub merges : ℕ  -- uint64_t MERGED
  pub to_cache : ℕ  -- uint64_t
  pub row_buffer_hit : ℕ  -- uint64_t
  pub row_buffer_miss : ℕ  -- uint64_t
  pub fulls : ℕ  -- uint64_t FULL

abbrev pub construct : Bool → ℕ → PacketQueue
construct is_l1d_wq size = record {
  is_l1d_wq = is_l1d_wq;
  size = size;
  head = 0;
  tail = 0;
  occupancy = 0;
  entry = replicate size empty_packet;
  is_wq = false;
  num_returned = 0;
  next_fill_index = 0;
  next_schedule_index = 0;
  next_process_index = 0;
  next_fill_cycle = 2 ^ 64 - 1;
  next_schedule_cycle = 2 ^ 64 - 1;
  next_process_cycle = 2 ^ 64 - 1;
  accesses = 0;
  forwards = 0;
  merges = 0;
  to_cache = 0;
  row_buffer_hit = 0;
  row_buffer_miss = 0;
  fulls = 0;
}

-- The write queue of the L1 data cache compares full addresses, every other queue block addresses.
unfoldable pub same_address : PacketQueue → Packet → Packet → Bool
same_address q a b = if q.is_l1d_wq then a.full_addr == b.full_addr else a.address == b.address

-- A loop of `check_queue`: `rounds` more entries from number `i`.
unfoldable pub scan : PacketQueue → Packet → ℕ → ℕ → Option ℕ
unfolding same_address
scan q packet zero i = none
scan q packet (suc rounds) i =
    let rest = scan q packet rounds (i + 1) in
    if same_address q (get_or q.entry i empty_packet) packet then some i else rest

-- `none` is the result -1.
unfoldable pub check_queue : PacketQueue → Packet → Option ℕ
unfolding scan
check_queue q packet =
    if (q.head == q.tail) && (q.occupancy == 0)
    then none
    else if ltb q.head q.tail
    then scan q packet (q.tail - q.head) q.head
    else elim (scan q packet (q.size - q.head) q.head) [
      | some i ↦ some i
      | none ↦ scan q packet q.tail 0
    ]

-- `i++; if (i >= SIZE) i = 0;`
abbrev pub next : ℕ → ℕ → ℕ
next size i = if leb size (i + 1) then 0 else i + 1

-- `none` is the failed assertion on a full queue.
unfoldable pub add_queue : PacketQueue → Packet → Option PacketQueue
add_queue q packet =
    if ltb 0 q.occupancy && (q.head == q.tail)
    then none
    else some (record q {
      entry = set q.entry q.tail packet;
      occupancy = u32 (q.occupancy + 1);
      tail = next q.size q.tail;
    })

-- `packet` points to entry number `i`; `none` is the failed assertion on an empty queue.
unfoldable pub remove_queue : PacketQueue → ℕ → Option PacketQueue
remove_queue q i =
    if (q.occupancy == 0) && (q.head == q.tail)
    then none
    else some (record q {
      entry = set q.entry i empty_packet;
      occupancy = pred32 q.occupancy;
      head = next q.size q.head;
    })
