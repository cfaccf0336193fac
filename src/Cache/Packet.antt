-- ===== src/Cache/Packet.antt =====
-- `PACKET` of inc/block.h: a request between the levels of the memory hierarchy.
use sandbox_predictor.Prelude.{ℕ, ◌-◌, ◌^◌, Bool, true, false}
use sandbox_predictor.Prelude.Int.{ℤ, pos, negsuc}
use sandbox_predictor.FastSet
use sandbox_predictor.FastSet.{FastSet}

-- The fields that the caches, the queues and the DRAM controller use. A flag of `uint8_t` that is
-- only ever 0 or 1 is a Boolean.
pub record Packet : Type 0 where
  pub instruction : Bool
  pub is_data : Bool
  pub fill_l1i : Bool
  pub fill_l1d : Bool
  pub scheduled : Bool
  pub fill_level : ℤ  -- int
  pub pf_origin_level : ℤ  -- int
  pub rob_index : ℤ  -- int
  pub delta : ℤ  -- int
  pub depth : ℤ  -- int
  pub signature : ℤ  -- int
  pub confidence : ℤ  -- int
  pub pf_metadata : ℕ  -- uint32_t
  pub instr_merged : Bool
  pub load_merged : Bool
  pub store_merged : Bool
  pub returned : ℕ  -- uint8_t
  pub type : ℕ  -- uint8_t
  pub rob_index_depend_on_me : FastSet
  pub lq_index_depend_on_me : FastSet
  pub sq_index_depend_on_me : FastSet
  pub cpu : ℕ  -- uint32_t
  pub lq_index : ℕ  -- uint32_t
  pub sq_index : ℕ  -- uint32_t
  pub address : ℕ  -- uint64_t
  pub full_addr : ℕ  -- uint64_t
  pub instruction_pa : ℕ  -- uint64_t
  pub data_pa : ℕ  -- uint64_t
  pub payload : ℕ  -- uint64_t data
  pub instr_id : ℕ  -- uint64_t
  pub ip : ℕ  -- uint64_t
  pub event_cycle : ℕ  -- uint64_t
  pub cycle_enqueued : ℕ  -- uint64_t

-- The packet that `PACKET()` makes; the fields that it leaves unset, `pf_metadata`, `pf_origin_level` and
-- `data_pa`, are 0 here.
abbrev pub empty_packet : Packet
empty_packet = record {
  instruction = false;
  is_data = true;
  fill_l1i = false;
  fill_l1d = false;
  scheduled = false;
  fill_level = negsuc 0;
  pf_origin_level = pos 0;
  rob_index = negsuc 0;
  delta = pos 0;
  depth = pos 0;
  signature = pos 0;
  confidence = pos 0;
  pf_metadata = 0;
  instr_merged = false;
  load_merged = false;
  store_merged = false;
  returned = 0;
  type = 0;
  rob_index_depend_on_me = FastSet.construct;
  lq_index_depend_on_me = FastSet.construct;
  sq_index_depend_on_me = FastSet.construct;
  cpu = 1;
  lq_index = 0;
  sq_index = 0;
  address = 0;
  full_addr = 0;
  instruction_pa = 0;
  data_pa = 0;
  payload = 0;
  instr_id = 0;
  ip = 0;
  event_cycle = 2 ^ 64 - 1;
  cycle_enqueued = 0;
}
