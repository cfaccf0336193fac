-- ===== src/Dram.antt =====
-- The DRAM controller, `MEMORY_CONTROLLER` of inc/dram_controller.h and src/dram_controller.cc: its
-- state and the mapping of addresses.
pub mod Address
pub mod Schedule
pub mod Serve
pub mod Operate
pub mod Tests
use sandbox_predictor.Prelude.{
  ℕ, zero, suc, ◌+◌, ◌-◌, ◌*◌, ◌/◌, ◌%◌, ◌^◌, Bool, false, Option, none, List, [], ◌∷◌, ◌==◌,
  if◌then◌else◌, get_or, set,
}
use sandbox_predictor.Prelude.Word.{u32, u64}
use Prim.Native.Nat.{bit_and}
use sandbox_predictor.Cache.PacketQueue
use sandbox_predictor.Cache.PacketQueue.{PacketQueue}

abbrev pub dram_channels : ℕ
dram_channels = 1

abbrev pub log2_dram_channels : ℕ
log2_dram_channels = 0

abbrev pub dram_ranks : ℕ
dram_ranks = 1

abbrev pub log2_dram_ranks : ℕ
log2_dram_ranks = 0

abbrev pub dram_banks : ℕ
dram_banks = 8

abbrev pub log2_dram_banks : ℕ
log2_dram_banks = 3

abbrev pub dram_rows : ℕ
dram_rows = 65536

abbrev pub log2_dram_rows : ℕ
log2_dram_rows = 16

abbrev pub dram_columns : ℕ
dram_columns = 128

abbrev pub log2_dram_columns : ℕ
log2_dram_columns = 7

abbrev pub dram_wq_size : ℕ
dram_wq_size = 64

abbrev pub dram_rq_size : ℕ
dram_rq_size = 64

-- `(uint32_t) (address >> shift) & (n - 1)`, or 0 where there is one of a kind
abbrev pub field : ℕ → ℕ → ℕ → ℕ → ℕ
field log2 shift n address = if log2 == 0 then 0 else bit_and (u32 (address / 2 ^ shift)) (n - 1)

unfoldable pub dram_get_channel : ℕ → ℕ
dram_get_channel = field log2_dram_channels 0 dram_channels

unfoldable pub dram_get_bank : ℕ → ℕ
dram_get_bank = field log2_dram_banks log2_dram_channels dram_banks

unfoldable pub dram_get_column : ℕ → ℕ
dram_get_column = field log2_dram_columns (log2_dram_banks + log2_dram_channels) dram_columns

unfoldable pub dram_get_rank : ℕ → ℕ
dram_get_rank =
    field log2_dram_ranks (log2_dram_columns + log2_dram_banks + log2_dram_channels) dram_ranks

unfoldable pub dram_get_row : ℕ → ℕ
dram_get_row =
    field log2_dram_rows
      (log2_dram_ranks + log2_dram_columns + log2_dram_banks + log2_dram_channels) dram_rows

-- `BANK_REQUEST` by the fields that are used; `none` is the request index -1
pub record BankRequest : Type 0 where
  pub cycle_available : ℕ  -- uint64_t
  pub open_row : ℕ  -- uint32_t
  pub working : Bool
  pub working_type : ℕ  -- uint8_t
  pub row_buffer_hit : Bool
  pub is_write : Bool
  pub is_read : Bool
  pub request_index : Option ℕ

abbrev pub idle_bank : BankRequest
idle_bank = record {
  cycle_available = 0;
  open_row = 2 ^ 32 - 1;
  working = false;
  working_type = 0;
  row_buffer_hit = false;
  is_write = false;
  is_read = false;
  request_index = none;
}

-- tRP, tRCD, tCAS and DRAM_DBUS_RETURN_TIME, that main sets
pub record Timing : Type 0 where
  pub t_rp : ℕ  -- uint32_t
  pub t_rcd : ℕ  -- uint32_t
  pub t_cas : ℕ  -- uint32_t
  pub dbus_return_time : ℕ  -- uint32_t

-- arrays by channel, or by channel, rank and bank
pub record Dram : Type 0 where
  pub bank_request : List (List (List BankRequest))
  pub wq : List PacketQueue
  pub rq : List PacketQueue
  pub write_mode : List Bool
  pub scheduled_reads : List ℕ
  pub scheduled_writes : List ℕ
  pub dbus_cycle_available : List ℕ
  pub dbus_cycle_congested : List ℕ
  pub dbus_congested : List (List ℕ)
  pub access : List ℕ
  pub hit : List ℕ

-- the queues of a channel, by what `RQ` and `WQ` point to
pub data Side : Type 0 where
  reads : Side
  writes : Side

abbrev pub no_queue : PacketQueue
no_queue = PacketQueue.construct false 0

abbrev pub queue_of : Dram → Side → ℕ → PacketQueue
queue_of d reads channel = get_or d.rq channel no_queue
queue_of d writes channel = get_or d.wq channel no_queue

abbrev pub set_queue : Dram → Side → ℕ → PacketQueue → Dram
set_queue d reads channel q = record d { rq = set d.rq channel q }
set_queue d writes channel q = record d { wq = set d.wq channel q }

-- the bank of an address
abbrev pub bank_of : Dram → ℕ → BankRequest
bank_of d address =
    get_or (get_or (get_or d.bank_request (dram_get_channel address) []) (dram_get_rank address) [])
      (dram_get_bank address) idle_bank

abbrev pub set_bank : Dram → ℕ → BankRequest → Dram
set_bank d address b =
    let channel = dram_get_channel address in
    let rank = dram_get_rank address in
    let ranks = get_or d.bank_request channel [] in
    let banks = get_or ranks rank [] in
    record d {
      bank_request =
          set d.bank_request channel (set ranks rank (set banks (dram_get_bank address) b));
    }

unfoldable pub get_occupancy : Dram → ℕ → ℕ → ℕ
unfolding dram_get_channel
get_occupancy d queue_type address =
    let channel = dram_get_channel address in
    if queue_type == 1
    then (queue_of d reads channel).occupancy
    else if queue_type == 2
    then (queue_of d writes channel).occupancy
    else 0

unfoldable pub get_size : Dram → ℕ → ℕ → ℕ
unfolding dram_get_channel
get_size d queue_type address =
    let channel = dram_get_channel address in
    if queue_type == 1
    then (queue_of d reads channel).size
    else if queue_type == 2
    then (queue_of d writes channel).size
    else 0

unfoldable pub increment_wq_full : Dram → ℕ → Dram
unfolding dram_get_channel
increment_wq_full d address =
    let channel = dram_get_channel address in
    let q = queue_of d writes channel in
    set_queue d writes channel (record q { fulls = u64 (q.fulls + 1) })
