-- ===== src/Cache/Mshr/Lookup.antt =====
-- The miss status registers find what was put into them, and serve the earliest answer first.
use sandbox_predictor.Prelude.{
  ℕ, zero, suc, ◌+◌, ◌-◌, ◌^◌, ◌≤◌, ◌<◌, ◌≡◌, ◌≢◌, refl, ap, Bool, true, false, none, some, List,
  [], ◌∷◌, arith, ◌==◌, ==_iff, if◌then◌else◌, get_elem?, set, find_index, take, length, inl, inr,
  ℕ_discrete, find_index-some, get_elem?-lt, get_elem?-set_self, get_elem?-take-some,
  get_or-of_get_elem?,
}
use sandbox_predictor.Prelude.Word.{u32}
use sandbox_predictor.Cache.Packet.{Packet, empty_packet}
use sandbox_predictor.Cache.PacketQueue.{PacketQueue}
use sandbox_predictor.Cache.Level.{Cache}
use sandbox_predictor.Cache.Level.Scan.{find_index-set-found, find_index-set-same}
use sandbox_predictor.Cache.Mshr.{
  earliest, update_fill_cycle, is_completed, check_mshr, add_mshr, return_data, delayed, inflight,
  completed,
}
use sandbox_predictor.Cache.Mshr.Earliest.{Result, earliest_from-Result}

-- `update_fill_cycle` notes the first of the completed registers with the earliest cycle, or the
-- number of registers if none is completed before the last cycle there is.
pub update_fill_cycle-IsFirst :
    (q : PacketQueue)
    → Result is_completed q.entry 0
        (2 ^ 64 - 1)
        q.size
        ((update_fill_cycle q).next_fill_cycle, (update_fill_cycle q).next_fill_index)
unfolding update_fill_cycle earliest
update_fill_cycle-IsFirst q = earliest_from-Result is_completed q.entry 0 (2 ^ 64 - 1) q.size

pub take-set : (n i : ℕ) (xs : List Packet) (v : Packet) → take n (set xs i v) ≡ set (take n xs) i v
take-set zero i xs v = refl
take-set (suc n) i [] v = refl
take-set (suc n) zero (x ∷ xs) v = refl
take-set (suc n) (suc i) (x ∷ xs) v = ap (λ t. x ∷ t) (take-set n i xs v)

-- A miss that is new to the registers takes the first empty one, if there is one: afterwards its
-- address is found there, and every other address that is not 0 where it was found before.
pub add_mshr-check_mshr :
    (now : ℕ → ℕ) (c : Cache) (packet q : Packet) {i : ℕ}
    → packet.address ≢ 0
    → q.address ≢ 0
    → check_mshr c packet ≡ none
    → find_index (λ (e : Packet). e.address == 0) (take c.mshr_size c.mshr.entry) ≡ some i
    → check_mshr (add_mshr now c packet).1 q
      ≡ (if q.address == packet.address then some i else check_mshr c q)
unfolding add_mshr check_mshr
add_mshr-check_mshr now c packet q {i} pz qz miss free =
    let regs : List Packet = take c.mshr_size c.mshr.entry in
    let new : Packet = record packet { cycle_enqueued = now packet.cpu; returned = inflight } in
    let (x, g, z) =
      find_index-some (λ (e : Packet). e.address == 0) (take c.mshr_size c.mshr.entry) free in
    let l : i < length regs = get_elem?-lt regs i g in
    rw (free, add_mshr)
      (rw (take-set c.mshr_size i c.mshr.entry new) (elim (ℕ_discrete q.address packet.address) [
        | yes same ↦
            let t : (q.address == packet.address) ≡ true = ground arith in
            rw t (
              find_index-set-found (λ (e : Packet). e.address == q.address)
                (take c.mshr_size c.mshr.entry) i new l (rw same miss) (ground arith))
        | no other ↦
            let t : (q.address == packet.address) ≡ false = ground arith in
            rw t (
              find_index-set-same (λ (e : Packet). e.address == q.address)
                (take c.mshr_size c.mshr.entry) i new g (ground arith) (ground arith))
      ]))

found_entry :
    (c : Cache) (packet : Packet) {i : ℕ}
    → check_mshr c packet ≡ some i
    → (x : Packet) × (get_elem? c.mshr.entry i ≡ some x) × (x.address ≡ packet.address)
unfolding check_mshr
found_entry c packet {i} found =
    let (x, g, e) =
      find_index-some (λ (e : Packet). e.address == packet.address) (take c.mshr_size c.mshr.entry)
        found in
    (x, get_elem?-take-some c.mshr_size c.mshr.entry i g, (==_iff x.address packet.address).0 e)

-- the result of a search is no later than any entry that passes
Result-le :
    (test : Packet → Bool) (es : List Packet) (i cycle index : ℕ) (r : ℕ × ℕ) (k : ℕ) {e : Packet}
    → Result test es i cycle index r
    → get_elem? es k ≡ some e
    → test e ≡ true
    → r.0 ≤ e.event_cycle
Result-le test es i cycle index r k (inl (a, b, c)) g t = omega (arith, c.least k g t)
Result-le test es i cycle index r k (inr (a, (place, b, f))) g t = f.bound.least k g t

-- Data that come back for a packet in the registers complete its register with the data, and the
-- registers then serve no later than that one.
pub return_data-serves :
    (now : ℕ → ℕ) (c : Cache) (packet : Packet) {i : ℕ}
    → check_mshr c packet ≡ some i
    → (c' : Cache) × (e : Packet) × (return_data now c packet ≡ some c')
      × (get_elem? c'.mshr.entry i ≡ some e)
      × (e.address ≡ packet.address)
      × (e.returned ≡ completed)
      × (e.payload ≡ packet.payload)
      × (c'.mshr.next_fill_cycle ≤ e.event_cycle)
unfolding return_data
return_data-serves now c packet {i} found =
    let (x, g, same) = found_entry c packet found in
    let e : Packet = record x {
      returned = completed;
      payload = packet.payload;
      pf_metadata = packet.pf_metadata;
      event_cycle = delayed now c.latency x packet.cpu;
    } in
    let mshr : PacketQueue = record c.mshr {
      num_returned = u32 (c.mshr.num_returned + 1);
      entry = set c.mshr.entry i e;
    } in
    let here : get_elem? (set c.mshr.entry i e) i ≡ some e =
      get_elem?-set_self c.mshr.entry i e (get_elem?-lt c.mshr.entry i g) in
    (
      record c { mshr = update_fill_cycle mshr },
      e,
      rw (found, return_data) (rw (get_or-of_get_elem? c.mshr.entry i empty_packet g) (refl)),
      unfold update_fill_cycle in here,
      same,
      refl,
      refl,
      Result-le is_completed (set c.mshr.entry i e) 0 (2 ^ 64 - 1) c.mshr.size _ i
          (update_fill_cycle-IsFirst mshr) here refl,
    )
