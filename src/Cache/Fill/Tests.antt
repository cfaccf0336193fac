-- ===== src/Cache/Fill/Tests.antt =====
-- A run of a fill: the least recently used block goes to the level below.
use sandbox_predictor.Prelude.{
  ℕ, zero, suc, ◌≡◌, refl, sym, ap, ◌∙◌, Bool, true, false, none, some, List, [], ◌∷◌, arith,
  get_or, set, map, length, dec_lt, ℕ_discrete, ◌⊎◌, get_or-out, get_or-set_self, get_or-set_ne,
  length-set,
}
use sandbox_predictor.Prelude.Int.{pos, ◌+ℤ◌}
use sandbox_predictor.PageTable.{lg2}
use sandbox_predictor.Cache.Packet.{empty_packet}
use sandbox_predictor.Cache.PacketQueue
use sandbox_predictor.Cache.PacketQueue.{PacketQueue}
use sandbox_predictor.Cache.Replacement.{Block, no_block, older, lru_victim, lru_update}
use sandbox_predictor.Cache.Level.{Cache, l2c, get_set, fill_cache}
use sandbox_predictor.Cache.Handler.{Call, Hooks}
use sandbox_predictor.Cache.Fill.{handle_fill}
use sandbox_predictor.Cache.Fill.Blocks.{bare, at, Respects}
use sandbox_predictor.Cache.Fill.Dirty.{WrittenBack, handle_fill-keeps_dirty}

-- the default policy, and no prefetcher
abbrev lru_hooks : Hooks Unit
lru_hooks = record {
  find_victim = λ s cpu index c e.
      (s, elim (lru_victim c.num_way (get_or c.block index [])) [ some way ↦ way | none ↦ 0 ]);
  update_replacement_state =
      λ s cpu index way address c e. (s, lru_update (get_or c.block index []) way);
  cache_fill = λ s cpu index way c e. (s, c, e.pf_metadata, []);
}

bare-older :
    (limit : ℕ) (blocks : List Block) (w : ℕ)
    → bare (get_or (map (older limit) blocks) w no_block) ≡ bare (get_or blocks w no_block)
bare-older limit [] w = refl
bare-older limit (b ∷ blocks) zero = refl
bare-older limit (b ∷ blocks) (suc w) = bare-older limit blocks w

bare-lru_update :
    (blocks : List Block) (way w : ℕ)
    → bare (get_or (lru_update blocks way) w no_block) ≡ bare (get_or blocks w no_block)
unfolding lru_update
bare-lru_update blocks way w =
    let limit = (get_or blocks way no_block).lru in
    let aged = map (older limit) blocks in
    let newest = record (get_or aged way no_block) { lru = 0 } in
    elim (ℕ_discrete way w) [
      | no ne ↦ ap bare (get_or-set_ne aged way w newest no_block ne) ∙ bare-older limit blocks w
      | yes e ↦ rw (← e) (elim (dec_lt way (length aged)) [
        | yes l ↦ ap bare (get_or-set_self aged way newest no_block l) ∙ bare-older limit blocks way
        | no out ↦
            ap bare (
              get_or-out (set aged way newest) way no_block
                (omega (arith, length-set aged way newest))
              ∙ sym (get_or-out aged way no_block (omega arith)))
            ∙ bare-older limit blocks way
      ])
    ]

lru_hooks-Respects : Respects lru_hooks
lru_hooks-Respects = record {
  marks = λ s cpu index way address c e w. bare-lru_update (get_or c.block index []) way w;
  blocks = λ s cpu index way c e. refl;
}

abbrev now : ℕ → ℕ
now cpu = 100

abbrev warm : ℕ → Bool
warm cpu = true

abbrev roomy : ℕ → Bool
roomy address = false

-- data for address 7 are back, and the oldest block of its set is dirty
abbrev returned : Cache
returned = record {
  cpu = 0;
  cache_type = l2c;
  num_set = 2;
  num_way = 2;
  rq_size = 2;
  pq_size = 2;
  mshr_size = 2;
  latency = 10;
  fill_level = pos 2;
  block =
      (no_block ∷ no_block ∷ [])
      ∷ (record no_block { valid = true; tag = 3; address = 3 }
          ∷ record no_block {
            valid = true;
            dirty = true;
            tag = 5;
            address = 5;
            payload = 55;
            lru = 1;
          }
          ∷ [])
      ∷ [];
  wq = PacketQueue.construct false 2;
  rq = PacketQueue.construct false 2;
  pq = PacketQueue.construct false 2;
  mshr = record (PacketQueue.construct false 2) {
    entry =
        record empty_packet {
          address = 7;
          payload = 77;
          fill_level = pos 1;
          returned = 2;
          event_cycle = 50;
          cpu = 0;
        }
        ∷ empty_packet
        ∷ [];
    occupancy = 1;
    tail = 1;
    next_fill_index = 0;
    next_fill_cycle = 50;
  };
  processed = PacketQueue.construct false 2;
  access = 0 ∷ 0 ∷ 0 ∷ 0 ∷ [];
  hit = 0 ∷ 0 ∷ 0 ∷ 0 ∷ [];
  pf_requested = 0;
  pf_issued = 0;
  pf_useless = 0;
  pf_fill = 0;
  stall = 0 ∷ 0 ∷ 0 ∷ 0 ∷ [];
  sim_access = (0 ∷ 0 ∷ 0 ∷ 0 ∷ []) ∷ [];
  sim_miss = (0 ∷ 0 ∷ 0 ∷ 0 ∷ []) ∷ [];
  total_miss_latency = 0;
}

-- the cache and the calls after the fill
abbrev result : Cache × List Call
result = elim (handle_fill lru_hooks now warm 1 (some roomy) tt returned) [
  | none ↦ (returned, [])
  | some (s, c, calls) ↦ (c, calls)
]

fill_run : handle_fill lru_hooks now warm 1 (some roomy) tt returned ≡ some (tt, result.0, result.1)
unfolding handle_fill get_set lg2 ◌+ℤ◌ lru_victim lru_update fill_cache PacketQueue.remove_queue
fill_run = refl

-- the dirty block is gone, and the new one is in its place
fill_block : (at result.0.block 1 1).tag ≡ 7
unfolding handle_fill get_set lg2 ◌+ℤ◌ lru_victim lru_update fill_cache PacketQueue.remove_queue
fill_block = refl

handle_fill-keeps_dirty_example :
    (bare (at result.0.block 1 1) ≡ bare (at returned.block 1 1))
    ⊎ WrittenBack result.1 (at returned.block 1 1)
handle_fill-keeps_dirty_example =
    handle_fill-keeps_dirty lru_hooks now warm 1 roomy tt returned 1 1 lru_hooks-Respects fill_run
      refl
