-- ===== src/Cache/Handler.antt =====
-- What the handlers of src/cache.cc share: their calls, the policies that they ask, the victim of a
-- fill and the processed packets.
use sandbox_predictor.Prelude.{
  ℕ, Bool, true, false, not, Option, none, some, List, [], ◌∷◌, map, ltb, ◌==◌, if◌then◌else◌,
  get_or, set,
}
use sandbox_predictor.Prelude.Word.{increment}
use sandbox_predictor.Prelude.Int.{ltb_ℤ, ◌+ℤ◌}
use sandbox_predictor.Cache.Packet.{Packet, empty_packet}
use sandbox_predictor.Cache.PacketQueue.{add_queue}
use sandbox_predictor.Cache.Replacement.{Block}
use sandbox_predictor.Cache.Level.{CacheType, Cache, prefetch_type}
use sandbox_predictor.Cache.Request.{Reply, replies_of}

-- what a handler calls: `return_data` of a level above, or of the level below `add_wq` or
-- `increment_WQ_FULL`
pub data Call : Type 0 where
  answer : Reply → Call
  write_back : Packet → Call
  write_full : ℕ → Call

-- The replacement policy and the prefetcher of a cache, which are chosen when the program is built,
-- over a state of theirs. The packet is the one that the code passes the fields of.
pub record Hooks (S : Type 0) : Type 0 where
  pub find_victim : S → ℕ → ℕ → Cache → Packet → S × ℕ  -- cpu, set
  -- cpu, set, way and the address of the victim; the blocks of the set
  pub update_replacement_state : S → ℕ → ℕ → ℕ → ℕ → Cache → Packet → S × List Block
  -- cpu, set, way; the cache, the metadata and the calls
  pub cache_fill : S → ℕ → ℕ → ℕ → Cache → Packet → S × Cache × ℕ × List Call

abbrev pub is_llc : CacheType → Bool
is_llc CacheType.itlb = false
is_llc CacheType.dtlb = false
is_llc CacheType.stlb = false
is_llc CacheType.l1i = false
is_llc CacheType.l1d = false
is_llc CacheType.l2c = false
is_llc CacheType.llc = true

abbrev pub is_stlb : CacheType → Bool
is_stlb CacheType.itlb = false
is_stlb CacheType.dtlb = false
is_stlb CacheType.stlb = true
is_stlb CacheType.l1i = false
is_stlb CacheType.l1d = false
is_stlb CacheType.l2c = false
is_stlb CacheType.llc = false

-- `LLC_WAY`
abbrev pub llc_way : ℕ
llc_way = 16

abbrev pub writeback : ℕ
writeback = 3

-- `counts[cpu][type]++`
abbrev pub count_for : List (List ℕ) → ℕ → ℕ → List (List ℕ)
count_for counts cpu type = set counts cpu (increment (get_or counts cpu []) type)

abbrev pub count_miss : Cache → ℕ → ℕ → Cache
count_miss c cpu type = record c {
  sim_miss = count_for c.sim_miss cpu type;
  sim_access = count_for c.sim_access cpu type;
}

-- the replies to the levels above that wait for the packet
unfoldable pub answers : Cache → Packet → List Call
answers c e = if ltb_ℤ e.fill_level c.fill_level then map answer (replies_of c e) else []

-- the packet that takes a dirty block to the level below
unfoldable pub writeback_packet : (ℕ → ℕ) → Cache → ℕ → Packet → Block → Packet
writeback_packet now c cpu e b = record empty_packet {
  fill_level = c.fill_level +ℤ c.fill_level;
  cpu = cpu;
  address = b.address;
  full_addr = b.full_addr;
  payload = b.payload;
  instr_id = e.instr_id;
  ip = 0;
  type = writeback;
  event_cycle = now cpu;
}

-- Whether the victim can go, and what is called for it. `lower` says whether the write queue of the
-- level below is full for an address, if there is such a level; only the last translation cache may
-- have none, and the outer `none` is the failed assertion on another one.
unfoldable pub evict :
    (ℕ → ℕ) → Option (ℕ → Bool) → Cache → ℕ → Packet → Block → Option (Bool × List Call)
unfolding writeback_packet
evict now lower c cpu e b = if not b.dirty then some (true, []) else elim lower [
  | none ↦ if is_stlb c.cache_type then some (true, []) else none
  | some full ↦
      if full b.address
      then some (false, write_full b.address ∷ [])
      else some (true, write_back (writeback_packet now c cpu e b) ∷ [])
]

-- the metadata that a prefetcher leaves in register number `i`
abbrev pub note : Cache → ℕ → ℕ → Cache
note c i metadata =
    let e = record (get_or c.mshr.entry i empty_packet) { pf_metadata = metadata } in
    record c { mshr = record c.mshr { entry = set c.mshr.entry i e } }

-- The prefetcher learns of the fill; its metadata stay in the register at the second and at the last
-- level. The last level has the number of the core meanwhile.
unfoldable pub inform :
    {S : Type 0} → Hooks S → CacheType → S → Cache → ℕ → ℕ → ℕ → Packet → ℕ → S × Cache × List Call
inform hooks CacheType.itlb s c cpu index way e i = (s, c, [])
inform hooks CacheType.dtlb s c cpu index way e i = (s, c, [])
inform hooks CacheType.stlb s c cpu index way e i = (s, c, [])
inform hooks CacheType.l1i s c cpu index way e i =
    let (s1, c1, metadata, calls) = hooks.cache_fill s cpu index way c e in (s1, c1, calls)
inform hooks CacheType.l1d s c cpu index way e i =
    let (s1, c1, metadata, calls) = hooks.cache_fill s cpu index way c e in (s1, c1, calls)
inform hooks CacheType.l2c s c cpu index way e i =
    let (s1, c1, metadata, calls) = hooks.cache_fill s cpu index way c e in
    (s1, note c1 i metadata, calls)
inform hooks CacheType.llc s c cpu index way e i =
    let (s1, c1, metadata, calls) = hooks.cache_fill s cpu index way (record c { cpu = cpu }) e in
    (s1, record (note c1 i metadata) { cpu = 0 }, calls)

-- the core finds the packet among the processed ones, if there is room
abbrev pub add_processed : Cache → Packet → Option Cache
add_processed c e =
    if ltb c.processed.occupancy c.processed.size
    then elim (add_queue c.processed e) [ none ↦ none | some q ↦ some (record c { processed = q }) ]
    else some c

-- What each cache adds to the processed packets: a translation cache writes the address to its one.
unfoldable pub process : CacheType → Cache → Packet → ℕ → Option Cache
process CacheType.itlb c e payload = add_processed c (record e { instruction_pa = payload })
process CacheType.dtlb c e payload = add_processed c (record e { data_pa = payload })
process CacheType.stlb c e payload = some c
process CacheType.l1i c e payload = add_processed c e
process CacheType.l1d c e payload = if e.type == prefetch_type then some c else add_processed c e
process CacheType.l2c c e payload = some c
process CacheType.llc c e payload = some c
