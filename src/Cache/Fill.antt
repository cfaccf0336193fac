-- ===== src/Cache/Fill.antt =====
-- `handle_fill` of src/cache.cc: the data that came back for a miss enter the cache.
pub mod Blocks
pub mod Dirty
pub mod Tests
use sandbox_predictor.Prelude.{
  ℕ, zero, suc, ◌+◌, ◌-◌, ◌*◌, ◌^◌, Bool, true, not, ◌&&◌, ◌||◌, Option, none, some, List, [], ◌∷◌,
  ◌++◌, ltb, leb, ◌==◌, if◌then◌else◌, get_or, set,
}
use sandbox_predictor.Prelude.Word.{u64, pred32, increment}
use sandbox_predictor.Prelude.Int.{◌+ℤ◌}
use sandbox_predictor.Cache.Packet.{Packet, empty_packet}
use sandbox_predictor.Cache.PacketQueue.{remove_queue}
use sandbox_predictor.Cache.Replacement.{no_block}
use sandbox_predictor.Cache.Level.{Cache, rfo, get_set, fill_cache}
use sandbox_predictor.Cache.Mshr.{update_fill_cycle}
use sandbox_predictor.Cache.Request.{is_l1d}
use sandbox_predictor.Cache.Handler.{
  Call, Hooks, is_llc, llc_way, count_miss, answers, evict, inform, process,
}

-- Register number `i` is freed. `none` is the failed assertion of an empty queue.
unfoldable pub retire : (ℕ → ℕ) → (ℕ → Bool) → Cache → ℕ → ℕ → Option Cache
retire now warm c cpu i =
    let e = get_or c.mshr.entry i empty_packet in
    let latency =
      if warm cpu && not (e.cycle_enqueued == 0)
      then u64 (c.total_miss_latency + u64 (now cpu + (2 ^ 64 - e.cycle_enqueued)))
      else c.total_miss_latency in
    elim (remove_queue c.mshr i) [
      | none ↦ none
      | some q ↦ some (record c {
        mshr = update_fill_cycle (record q { num_returned = pred32 q.num_returned });
        total_miss_latency = latency;
      })
    ]

-- A store marks its block dirty in the data cache.
abbrev pub marked : Cache → ℕ → ℕ → Packet → Cache
marked c index way e =
    let blocks = get_or c.block index [] in
    let dirty = record (get_or blocks way no_block) { dirty = true } in
    if is_l1d c.cache_type && (e.type == rfo)
    then record c { block = set c.block index (set blocks way dirty) }
    else c

module _ {S : Type 0} (hooks : Hooks S) (now : ℕ → ℕ) (warm : ℕ → Bool) where
  -- the last level lets the packet pass without a block
  unfoldable pub bypass : S → Cache → ℕ → ℕ → ℕ → ℕ → Option (S × Cache × List Call)
  unfolding answers retire
  bypass s c cpu index way i =
      let e = get_or c.mshr.entry i empty_packet in
      let (s1, blocks) = hooks.update_replacement_state s cpu index way 0 c e in
      let c1 = count_miss (record c { block = set c.block index blocks }) cpu e.type in
      elim (retire now warm c1 cpu i) [ none ↦ none | some c2 ↦ some (s1, c2, answers c1 e) ]

  -- the packet takes the place of the block
  unfoldable pub place : S → Cache → ℕ → ℕ → ℕ → ℕ → Option (S × Cache × List Call)
  unfolding answers retire inform process
  place s c cpu index way i =
      let (s1, c1, calls) =
        inform hooks c.cache_type s c cpu index way (get_or c.mshr.entry i empty_packet) i in
      let e = get_or c1.mshr.entry i empty_packet in
      let victim = get_or (get_or c1.block index []) way no_block in
      let (s2, blocks) = hooks.update_replacement_state s1 cpu index way victim.full_addr c1 e in
      let counted = count_miss (record c1 { block = set c1.block index blocks }) cpu e.type in
      elim (fill_cache counted index way e) [
        | none ↦ none
        | some c2 ↦
            let c3 = marked c2 index way e in
            let payload = (get_or (get_or c3.block index []) way no_block).payload in
            elim (process c3.cache_type c3 e payload) [
              | none ↦ none
              | some c4 ↦ elim (retire now warm c4 cpu i) [
                | none ↦ none
                | some c5 ↦ some (s2, c5, calls ++ answers c3 e)
              ]
            ]
      ]

  -- The packet takes the place of the victim, which goes to the level below if it is dirty; the fill
  -- waits if the level below is full.
  unfoldable pub replace :
      Option (ℕ → Bool) → S → Cache → ℕ → ℕ → ℕ → ℕ → Option (S × Cache × List Call)
  unfolding evict place
  replace lower s c cpu index way i =
      let e = get_or c.mshr.entry i empty_packet in
      elim (evict now lower c cpu e (get_or (get_or c.block index []) way no_block)) [
        | none ↦ none
        | some (do_fill, calls) ↦
            if do_fill
            then elim (place s c cpu index way i) [
              | none ↦ none
              | some (s1, c1, more) ↦ some (s1, c1, calls ++ more)
            ]
            else some (s, record c { stall = increment c.stall e.type }, calls)
      ]

  -- The packet that is served next enters the cache when it is due; `none` is a failed assertion.
  unfoldable pub handle_fill : ℕ → Option (ℕ → Bool) → S → Cache → Option (S × Cache × List Call)
  unfolding bypass replace
  handle_fill num_cpus lower s c =
      let i = c.mshr.next_fill_index in
      let e = get_or c.mshr.entry i empty_packet in
      let fill_cpu = if i == c.mshr_size then num_cpus else e.cpu in
      let index = get_set c e.address in
      let (s1, way) = hooks.find_victim s fill_cpu index c e in
      if (fill_cpu == num_cpus) || ltb (now fill_cpu) c.mshr.next_fill_cycle
      then some (s, c, [])
      else if leb c.mshr.size i
      then none
      else if is_llc c.cache_type && (way == llc_way)
      then bypass s1 c fill_cpu index way i
      else replace lower s1 c fill_cpu index way i
