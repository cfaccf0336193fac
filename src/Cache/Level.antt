-- ===== src/Cache/Level.antt =====
-- One level of the cache hierarchy, `CACHE` of inc/cache.h and src/cache.cc: its state, and the
-- operations on its blocks.
pub mod Scan
pub mod Tags
pub mod Tests
pub mod Invalidate
use sandbox_predictor.Prelude.{
  ℕ, zero, suc, ◌+◌, ◌-◌, ◌*◌, ◌^◌, Bool, true, false, not, ◌&&◌, ◌||◌, Option, none, some, List,
  [], ◌∷◌, ltb, ◌==◌, if◌then◌else◌, get_or, set, find_index,
}
use sandbox_predictor.Prelude.Word.{u32, u64}
use sandbox_predictor.Prelude.Int.{ℤ, pos_part}
use Prim.Native.Nat.{bit_and}
use sandbox_predictor.PageTable.{lg2}
use sandbox_predictor.Cache.Packet.{Packet}
use sandbox_predictor.Cache.PacketQueue.{PacketQueue}
use sandbox_predictor.Cache.Replacement.{Block, no_block}

pub data CacheType : Type 0 where
  itlb : CacheType
  dtlb : CacheType
  stlb : CacheType
  l1i : CacheType
  l1d : CacheType
  l2c : CacheType
  llc : CacheType

abbrev pub is_tlb : CacheType → Bool
is_tlb itlb = true
is_tlb dtlb = true
is_tlb stlb = true
is_tlb l1i = false
is_tlb l1d = false
is_tlb l2c = false
is_tlb llc = false

-- the access types
abbrev pub rfo : ℕ
rfo = 1

abbrev pub prefetch_type : ℕ
prefetch_type = 2

-- The fields that the modelled operations use.
pub record Cache : Type 0 where
  pub cpu : ℕ  -- uint32_t
  pub cache_type : CacheType
  pub num_set : ℕ  -- uint32_t
  pub num_way : ℕ  -- uint32_t
  pub rq_size : ℕ  -- uint32_t
  pub pq_size : ℕ  -- uint32_t
  pub mshr_size : ℕ  -- uint32_t
  pub latency : ℕ  -- uint32_t
  pub fill_level : ℤ  -- int
  pub block : List (List Block)
  pub wq : PacketQueue
  pub rq : PacketQueue
  pub pq : PacketQueue
  pub mshr : PacketQueue
  pub processed : PacketQueue
  pub access : List ℕ
  pub hit : List ℕ
  pub pf_requested : ℕ  -- uint64_t
  pub pf_issued : ℕ  -- uint64_t
  pub pf_useless : ℕ  -- uint64_t
  pub pf_fill : ℕ  -- uint64_t
  pub stall : List ℕ
  pub sim_access : List (List ℕ)
  pub sim_miss : List (List ℕ)
  pub total_miss_latency : ℕ  -- uint64_t

unfoldable pub get_set : Cache → ℕ → ℕ
get_set c address = u32 (bit_and address (2 ^ pos_part (lg2 c.num_set) - 1))

-- the test of the loops over the ways
abbrev pub holds_tag : ℕ → Block → Bool
holds_tag tag b = b.valid && (b.tag == tag)

-- the way of a tag in a set, or NUM_WAY
unfoldable pub get_way : Cache → ℕ → ℕ → ℕ
get_way c address s = elim (find_index (holds_tag address) (get_or c.block s [])) [
  | some way ↦ way
  | none ↦ c.num_way
]

-- the block after a fill
unfoldable pub filled : Block → Packet → Block
filled b packet = record b {
  valid = true;
  dirty = false;
  prefetch = packet.type == prefetch_type;
  used = false;
  delta = packet.delta;
  depth = packet.depth;
  signature = packet.signature;
  confidence = packet.confidence;
  tag = packet.address;
  address = packet.address;
  full_addr = packet.full_addr;
  payload = packet.payload;
  ip = packet.ip;
  cpu = packet.cpu;
  instr_id = packet.instr_id;
}

-- `none` is the failed assertion of a translation cache on a packet with no data.
unfoldable pub fill_cache : Cache → ℕ → ℕ → Packet → Option Cache
unfolding filled
fill_cache c s way packet =
    let blocks = get_or c.block s [] in
    let old = get_or blocks way no_block in
    if is_tlb c.cache_type && (packet.payload == 0)
    then none
    else some (record c {
      block = set c.block s (set blocks way (filled old packet));
      pf_useless = if old.prefetch && not old.used then u64 (c.pf_useless + 1) else c.pf_useless;
      pf_fill = if packet.type == prefetch_type then u64 (c.pf_fill + 1) else c.pf_fill;
    })

-- The way of the packet's block, `none` within for -1. The outer `none` is the failed assertion.
unfoldable pub check_hit : Cache → Packet → Option (Option ℕ)
unfolding get_set
check_hit c packet =
    let s = get_set c packet.address in
    if ltb c.num_set s
    then none
    else some (find_index (holds_tag packet.address) (get_or c.block s []))

-- the new state, and the way of the block that became invalid
unfoldable pub invalidate_entry : Cache → ℕ → Option (Cache × Option ℕ)
unfolding get_set
invalidate_entry c inval_addr =
    let s = get_set c inval_addr in
    let blocks = get_or c.block s [] in
    if ltb c.num_set s then none else elim (find_index (holds_tag inval_addr) blocks) [
      | none ↦ some (c, none)
      | some way ↦
          let invalid = record (get_or blocks way no_block) { valid = false } in
          some (record c { block = set c.block s (set blocks way invalid) }, some way)
    ]

unfoldable pub get_occupancy : Cache → ℕ → ℕ
get_occupancy c queue_type =
    if queue_type == 0
    then c.mshr.occupancy
    else if queue_type == 1
    then c.rq.occupancy
    else if queue_type == 2
    then c.wq.occupancy
    else if queue_type == 3
    then c.pq.occupancy
    else 0

unfoldable pub get_size : Cache → ℕ → ℕ
get_size c queue_type =
    if queue_type == 0
    then c.mshr.size
    else if queue_type == 1
    then c.rq.size
    else if queue_type == 2
    then c.wq.size
    else if queue_type == 3
    then c.pq.size
    else 0

unfoldable pub increment_wq_full : Cache → Cache
increment_wq_full c = record c { wq = record c.wq { fulls = u64 (c.wq.fulls + 1) } }
