-- ===== src/Cache/Prefetch.antt =====
-- The prefetch requests to a cache: src/cache.cc, `prefetch_line`, `kpc_prefetch_line` and `add_pq`.
use sandbox_predictor.Prelude.{
  ℕ, ◌+◌, ◌/◌, ◌^◌, Bool, true, false, ◌&&◌, ◌||◌, Option, none, some, List, [], ltb, ◌==◌,
  if◌then◌else◌, get_or,
}
use sandbox_predictor.Prelude.Word.{u64}
use sandbox_predictor.Prelude.Int.{ℤ, ltb_ℤ}
use sandbox_predictor.Cache.Packet.{Packet, empty_packet}
use sandbox_predictor.Cache.PacketQueue.{check_queue}
use sandbox_predictor.Cache.Level.{Cache, prefetch_type}
use sandbox_predictor.Cache.Request.{
  Reply, handled, merged, refused, Outcome, eq_ℤ, fill_l1, forward, count_hit, enqueue, count_merge,
}

-- a prefetch in the queue after another one for the same address joins it
unfoldable pub merge_prefetch : Packet → Packet → Packet
merge_prefetch e packet = record e {
  fill_level = if ltb_ℤ packet.fill_level e.fill_level then packet.fill_level else e.fill_level;
  instruction = packet.instruction || e.instruction;
  is_data = packet.is_data || e.is_data;
  fill_l1i = packet.fill_l1i || e.fill_l1i;
  fill_l1d = packet.fill_l1d || e.fill_l1d;
}

unfoldable pub add_pq : (ℕ → ℕ) → Cache → Packet → Option Outcome
unfolding forward merge_prefetch enqueue
add_pq now c packet = elim (check_queue c.wq packet) [
  | some wq_index ↦
      let (packet', replies) = forward c packet wq_index in
      let c' = count_hit c packet.type in
      some (record {
        cache = record c' { pq = record c.pq { accesses = u64 (c.pq.accesses + 1) } };
        packet = packet';
        replies = replies;
        answer = handled;
      })
  | none ↦ elim (check_queue c.pq packet) [
    | some i ↦
        let e = merge_prefetch (get_or c.pq.entry i empty_packet) packet in
        some (record {
          cache = record c { pq = count_merge c.pq i e };
          packet = packet;
          replies = [];
          answer = merged i;
        })
    | none ↦
        if c.pq.occupancy == c.pq_size
        then some (record {
          cache = record c { pq = record c.pq { fulls = u64 (c.pq.fulls + 1) } };
          packet = packet;
          replies = [];
          answer = refused;
        })
        else if packet.address == 0
        then none
        else elim (enqueue now c.latency c.pq packet) [
          | none ↦ none
          | some pq ↦ some (record {
            cache = record c { pq = pq };
            packet = packet;
            replies = [];
            answer = handled;
          })
        ]
  ]
]

-- the packet that both kinds of prefetch build
unfoldable pub prefetch_packet : (ℕ → ℕ) → Cache → ℕ → ℤ → ℕ → Packet
prefetch_packet now c pf_addr pf_fill_level prefetch_metadata = record empty_packet {
  fill_level = pf_fill_level;
  pf_origin_level = c.fill_level;
  fill_l1d = eq_ℤ pf_fill_level fill_l1;
  pf_metadata = prefetch_metadata;
  cpu = c.cpu;
  address = pf_addr / 2 ^ 6;
  full_addr = pf_addr;
  type = prefetch_type;
  event_cycle = now c.cpu;
}

-- A prefetch stays within the page of the address that asks for it. The second result is whether it
-- was issued.
unfoldable pub issue : (ℕ → ℕ) → Cache → ℕ → Packet → Option (Cache × List Reply × Bool)
unfolding add_pq
issue now c base_addr packet =
    if ltb c.pq.occupancy c.pq.size && (base_addr / 2 ^ 12 == packet.full_addr / 2 ^ 12)
    then elim (add_pq now c packet) [
      | none ↦ none
      | some o ↦ some (record o.cache { pf_issued = u64 (o.cache.pf_issued + 1) }, o.replies, true)
    ]
    else some (c, [], false)

unfoldable pub prefetch_line :
    (ℕ → ℕ) → Cache → ℕ → ℕ → ℕ → ℤ → ℕ → Option (Cache × List Reply × Bool)
unfolding prefetch_packet issue
prefetch_line now c ip base_addr pf_addr pf_fill_level prefetch_metadata =
    let requested = record c { pf_requested = u64 (c.pf_requested + 1) } in
    issue now requested base_addr
      (record (prefetch_packet now c pf_addr pf_fill_level prefetch_metadata) { ip = ip })

unfoldable pub kpc_prefetch_line :
    (ℕ → ℕ) → Cache → ℕ → ℕ → ℤ → ℤ → ℤ → ℤ → ℤ → ℕ → Option (Cache × List Reply × Bool)
unfolding prefetch_packet issue
kpc_prefetch_line now c base_addr pf_addr pf_fill_level delta depth signature confidence metadata =
    issue now c base_addr (record (prefetch_packet now c pf_addr pf_fill_level metadata) {
      delta = delta;
      depth = depth;
      signature = signature;
      confidence = confidence;
    })
