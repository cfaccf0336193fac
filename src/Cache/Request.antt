-- ===== src/Cache/Request.antt =====
-- The requests to a cache: src/cache.cc, `add_rq` and `add_wq`.
pub mod Queue
pub mod Ends
pub mod Read
pub mod Write
use sandbox_predictor.Prelude.{
  ℕ, zero, suc, ◌+◌, ◌-◌, ◌*◌, ◌/◌, ◌%◌, ◌^◌, Bool, true, false, not, ◌&&◌, ◌||◌, Option, none,
  some, List, [], ◌∷◌, ◌++◌, ltb, leb, ◌==◌, if◌then◌else◌, get_or, set,
}
use sandbox_predictor.Prelude.Word.{u32, u64, increment}
use sandbox_predictor.Prelude.Int.{ℤ, pos, negsuc, ltb_ℤ, pos_part, neg_part}
use sandbox_predictor.FastSet
use sandbox_predictor.Cache.Packet.{Packet, empty_packet}
use sandbox_predictor.Cache.PacketQueue.{PacketQueue, check_queue, add_queue, next}
use sandbox_predictor.Cache.Level.{Cache, CacheType, l1d, rfo, prefetch_type}
use sandbox_predictor.Cache.Mshr.{delayed}

-- the calls of `return_data` of the level above, on its instruction and its data side
pub data Reply : Type 0 where
  to_icache : Packet → Reply
  to_dcache : Packet → Reply

-- -1, the index of the packet that the request was merged with, and -2
pub data Answer : Type 0 where
  handled : Answer
  merged : ℕ → Answer
  refused : Answer

-- The state after a request, the packet, which a forwarded request writes to, the replies and the
-- result.
pub record Outcome : Type 0 where
  pub cache : Cache
  pub packet : Packet
  pub replies : List Reply
  pub answer : Answer

-- a conversion from `int` to `unsigned short int`
abbrev pub u16_of : ℤ → ℕ
u16_of (pos n) = n % 2 ^ 16
u16_of (negsuc n) = 2 ^ 16 - 1 - n % 2 ^ 16

abbrev pub eq_ℤ : ℤ → ℤ → Bool
eq_ℤ a b = (pos_part a == pos_part b) && (neg_part a == neg_part b)

abbrev pub fill_l1 : ℤ
fill_l1 = pos 1

abbrev pub fill_l2 : ℤ
fill_l2 = pos 2

-- The replies to a packet that is served from a write. The second level asks where the data go, every
-- other level what they are.
unfoldable pub replies_of : Cache → Packet → List Reply
replies_of c packet =
    let second = eq_ℤ c.fill_level fill_l2 in
    let icache = if second then packet.fill_l1i else packet.instruction in
    let dcache = if second then packet.fill_l1d else packet.is_data in
    (if icache then to_icache packet ∷ [] else []) ++ (if dcache then to_dcache packet ∷ [] else [])

-- What `add_rq` and `add_pq` do first on a request that a write in the queue can serve.
unfoldable pub forward : Cache → Packet → ℕ → Packet × List Reply
unfolding replies_of
forward c packet wq_index =
    let packet' = record packet { payload = (get_or c.wq.entry wq_index empty_packet).payload } in
    if ltb_ℤ packet.fill_level c.fill_level then (packet', replies_of c packet') else (packet, [])

-- the counters of a request that a write serves
abbrev pub count_hit : Cache → ℕ → Cache
count_hit c type = record c {
  hit = increment c.hit type;
  access = increment c.access type;
  wq = record c.wq { forwards = u64 (c.wq.forwards + 1) };
}

-- The packet goes to the end of the queue, its latency added. `none` is the failed assertion on an
-- entry that is in use.
unfoldable pub enqueue : (ℕ → ℕ) → ℕ → PacketQueue → Packet → Option PacketQueue
enqueue now latency q packet =
    if not ((get_or q.entry q.tail empty_packet).address == 0)
    then none
    else some (record q {
      entry =
          set q.entry q.tail
            (record packet { event_cycle = delayed now latency packet packet.cpu });
      occupancy = u32 (q.occupancy + 1);
      tail = next q.size q.tail;
      to_cache = u64 (q.to_cache + 1);
      accesses = u64 (q.accesses + 1);
    })

-- a read in the queue after another one for the same address joins it
unfoldable pub merge_read : Packet → Packet → Packet
merge_read e packet =
    let joined =
      if packet.instruction
      then record e {
        rob_index_depend_on_me = FastSet.insert e.rob_index_depend_on_me (u16_of packet.rob_index);
        instruction = true;
        instr_merged = true;
      }
      else if packet.type == rfo
      then record e {
        sq_index_depend_on_me = FastSet.insert e.sq_index_depend_on_me (packet.sq_index % 2 ^ 16);
        store_merged = true;
        is_data = true;
      }
      else record e {
        lq_index_depend_on_me = FastSet.insert e.lq_index_depend_on_me (packet.lq_index % 2 ^ 16);
        load_merged = true;
        is_data = true;
      } in
    record joined {
      fill_l1i = packet.fill_l1i || joined.fill_l1i;
      fill_l1d = packet.fill_l1d || joined.fill_l1d;
    }

-- the counters of a queue after a merge
abbrev pub count_merge : PacketQueue → ℕ → Packet → PacketQueue
count_merge q i e = record q {
  entry = set q.entry i e;
  merges = u64 (q.merges + 1);
  accesses = u64 (q.accesses + 1);
}

-- The translation caches and the instruction cache have no write to forward.
abbrev pub no_writes : CacheType → Bool
no_writes CacheType.itlb = true
no_writes CacheType.dtlb = true
no_writes CacheType.stlb = false
no_writes CacheType.l1i = true
no_writes CacheType.l1d = false
no_writes CacheType.l2c = false
no_writes CacheType.llc = false

abbrev pub is_l1d : CacheType → Bool
is_l1d CacheType.itlb = false
is_l1d CacheType.dtlb = false
is_l1d CacheType.stlb = false
is_l1d CacheType.l1i = false
is_l1d CacheType.l1d = true
is_l1d CacheType.l2c = false
is_l1d CacheType.llc = false

-- the read that a write serves; a load of the data cache is queued as processed if there is room
unfoldable pub serve_read : Cache → Packet → ℕ → Option Outcome
unfolding forward
serve_read c packet wq_index =
    let (packet', replies) = forward c packet wq_index in
    let processed =
      if is_l1d c.cache_type
        && not (packet.type == prefetch_type)
        && ltb c.processed.occupancy c.processed.size
      then add_queue c.processed packet'
      else some c.processed in
    if no_writes c.cache_type then none else elim processed [
      | none ↦ none
      | some processed' ↦
          let c' = count_hit (record c { processed = processed' }) packet.type in
          some (record {
            cache = record c' { rq = record c.rq { accesses = u64 (c.rq.accesses + 1) } };
            packet = packet';
            replies = replies;
            answer = handled;
          })
    ]

-- `none` is a failed assertion, on a packet with address 0 too.
unfoldable pub add_rq : (ℕ → ℕ) → Cache → Packet → Option Outcome
unfolding serve_read merge_read enqueue
add_rq now c packet = elim (check_queue c.wq packet) [
  | some wq_index ↦ serve_read c packet wq_index
  | none ↦ elim (check_queue c.rq packet) [
    | some i ↦
        let e = merge_read (get_or c.rq.entry i empty_packet) packet in
        some (record {
          cache = record c { rq = count_merge c.rq i e };
          packet = packet;
          replies = [];
          answer = merged i;
        })
    | none ↦
        if c.rq.occupancy == c.rq_size
        then some (record {
          cache = record c { rq = record c.rq { fulls = u64 (c.rq.fulls + 1) } };
          packet = packet;
          replies = [];
          answer = refused;
        })
        else if packet.address == 0
        then none
        else elim (enqueue now c.latency c.rq packet) [
          | none ↦ none
          | some rq ↦ some (record {
            cache = record c { rq = rq };
            packet = packet;
            replies = [];
            answer = handled;
          })
        ]
  ]
]

-- `none` is a failed assertion, on a full queue too.
unfoldable pub add_wq : (ℕ → ℕ) → Cache → Packet → Option (Cache × Answer)
unfolding enqueue
add_wq now c packet = elim (check_queue c.wq packet) [
  | some i ↦
      let wq = record c.wq { merges = u64 (c.wq.merges + 1); accesses = u64 (c.wq.accesses + 1) } in
      some (record c { wq = wq }, merged i)
  | none ↦ if leb c.wq.size c.wq.occupancy then none else elim (enqueue now c.latency c.wq packet) [
    | none ↦ none
    | some wq ↦ some (record c { wq = wq }, handled)
  ]
]
