-- ===== src/Cache/Request/Read.antt =====
-- What a read request comes to: one of its four ends.
use sandbox_predictor.Prelude.{
  ℕ, ◌+◌, ◌≡◌, ◌≢◌, refl, sym, ap, ◌∙◌, Bool, true, false, ◌&&◌, none, some, List, [], arith, ltb,
  not, ◌==◌, if◌then◌else◌, get_elem?, get_or, set, length, get_elem?-lt, Bool-cases, Option-cases,
  inl, inr, dec_lt, get_or-of_get_elem?,
}
use mathlib.Core.Path.{subst}
use sandbox_predictor.Prelude.Word.{u64}
use sandbox_predictor.Prelude.Int.{ltb_ℤ}
use sandbox_predictor.Cache.Packet.{Packet, empty_packet}
use sandbox_predictor.Cache.PacketQueue.{PacketQueue, check_queue, add_queue}
use sandbox_predictor.Cache.PacketQueue.Ring.{Holds, slot, add_queue-Holds}
use sandbox_predictor.Cache.PacketQueue.Check.{IsAnswer, Matching, check_queue-IsAnswer}
use sandbox_predictor.Cache.Level.{Cache, prefetch_type}
use sandbox_predictor.Cache.Request.{
  Outcome, handled, merged, refused, add_rq, serve_read, forward, replies_of, merge_read, no_writes,
  is_l1d, count_hit, Reply,
}
use sandbox_predictor.Cache.Request.Queue.{IsQueue, IsQueue-same, enqueue-IsQueue, set-IsQueue}
use sandbox_predictor.Cache.Request.Ends.{Read, served, joined, full, queued, taking}

-- the entry of a packet of the list
entry_of_packet :
    (q : PacketQueue) (xs : List Packet) (k j : ℕ) {x : Packet}
    → Holds q xs
    → get_elem? xs k ≡ some x
    → slot q k ≡ j
    → get_or q.entry j empty_packet ≡ x
entry_of_packet q xs k j h g e =
    get_or-of_get_elem? q.entry j empty_packet (ap (get_elem? q.entry) (sym e) ∙ h.holds k g)

-- a search that finds nothing
pub absent :
    (q : PacketQueue) (packet : Packet) (xs : List Packet)
    → check_queue q packet ≡ none
    → Holds q xs
    → IsAnswer q packet xs none
absent q packet xs e h = subst (IsAnswer q packet xs) e (check_queue-IsAnswer q packet xs h)

-- the packet and the replies of a forward
forward_lem :
    (c : Cache) (packet write : Packet) (j : ℕ)
    → get_or c.wq.entry j empty_packet ≡ write
    → forward c packet j ≡ (
        if ltb_ℤ packet.fill_level c.fill_level
        then (taking packet write, replies_of c (taking packet write))
        else (packet, []))
unfolding forward
forward_lem c packet write j e = rw e (refl)

forward_packet :
    (c : Cache) (packet write : Packet) (b : Bool) (r : Packet × List Reply)
    → r ≡ (if b then (taking packet write, replies_of c (taking packet write)) else (packet, []))
    → (r.0 ≡ (if b then taking packet write else packet))
      × (r.1 ≡ (if b then replies_of c (taking packet write) else []))
forward_packet c packet write true r e =
    (ap (λ (t : Packet × List Reply). t.0) e, ap (λ (t : Packet × List Reply). t.1) e)
forward_packet c packet write false r e =
    (ap (λ (t : Packet × List Reply). t.0) e, ap (λ (t : Packet × List Reply). t.1) e)

-- the processed queue takes the packet if it has room for it
process_room :
    (q : PacketQueue) (zs : List Packet) (packet : Packet) (a b : Bool)
    → Holds q zs
    → (q' : PacketQueue) × ((if (a && b) && ltb q.occupancy q.size
          then add_queue q packet
          else some q)
        ≡ some q')
process_room q zs packet a b h = elim (Bool-cases ((a && b) && ltb q.occupancy q.size)) [
  | inl t ↦ let (q', e, _) = add_queue-Holds q zs packet h (ground (arith, h.count)) in (q', rw t e)
  | inr t ↦ (q, rw t (refl))
]

module _ (now : ℕ → ℕ) (c : Cache) (xs ys zs : List Packet) (packet : Packet) where
  -- the read that a write serves
  serve_read-Read :
      (j : ℕ)
      → IsQueue c.rq xs
      → IsQueue c.wq ys
      → Holds c.processed zs
      → no_writes c.cache_type ≡ false
      → Matching c.wq packet ys j
      → (o : Outcome) × (serve_read c packet j ≡ some o) × Read now c xs ys packet o
  unfolding serve_read
  serve_read-Read j r w p has m =
      let here = entry_of_packet c.wq ys m.number j w.ring m.listed m.entry_of in
      let (q, e) =
        process_room c.processed zs (forward c packet j).0 (is_l1d c.cache_type)
          (not (packet.type == prefetch_type)) p in
      let (p', r') =
        forward_packet c packet m.match (ltb_ℤ packet.fill_level c.fill_level) (forward c packet j)
          (forward_lem c packet m.match j here) in
      let counted : Cache = count_hit (record c { processed = q }) packet.type in
      (
        record {
          cache = record counted { rq = record c.rq { accesses = u64 (c.rq.accesses + 1) } };
          packet = (forward c packet j).0;
          replies = (forward c packet j).1;
          answer = handled;
        },
        rw (has, serve_read) (rw e (refl)),
        served m.number m.match m.listed m.same refl p' r'
            (IsQueue-same c.rq _ xs refl refl refl refl refl r)
            (IsQueue-same c.wq _ ys refl refl refl refl refl w),
      )

  queue_read :
      IsQueue c.rq xs
      → IsQueue c.wq ys
      → c.rq.size ≡ c.rq_size
      → packet.address ≢ 0
      → check_queue c.wq packet ≡ none
      → check_queue c.rq packet ≡ none
      → (o : Outcome) × (add_rq now c packet ≡ some o) × Read now c xs ys packet o
  unfolding add_rq
  queue_read r w size nz a b = elim (dec_lt (length xs) c.rq.size) [
    | yes room ↦
        let t : (c.rq.occupancy == c.rq_size) ≡ false = ground (arith, r.ring.count) in
        let (q, e, h, _) = enqueue-IsQueue now c.latency c.rq xs packet r room in
        let given : (packet.address == 0) ≡ false = ground arith in
        (
          record { cache = record c { rq = q }; packet = packet; replies = []; answer = handled },
          rw (a, add_rq) (rw b (rw t (rw given (rw e (refl))))),
          queued (absent c.wq packet ys a w.ring) (absent c.rq packet xs b r.ring) room refl refl h
              w,
        )
    | no over ↦
        let t : (c.rq.occupancy == c.rq_size) ≡ true = ground (arith, r.ring.count, r.ring.fits) in
        (
          record {
            cache = record c { rq = record c.rq { fulls = u64 (c.rq.fulls + 1) } };
            packet = packet;
            replies = [];
            answer = refused;
          },
          rw (a, add_rq) (rw b (rw t (refl))),
          full (absent c.wq packet ys a w.ring) (absent c.rq packet xs b r.ring)
              (omega (arith, r.ring.fits)) refl refl
              (IsQueue-same c.rq _ xs refl refl refl refl refl r) w,
        )
  ]

  -- the read that joins another
  join_read :
      (j : ℕ)
      → IsQueue c.rq xs
      → IsQueue c.wq ys
      → check_queue c.wq packet ≡ none
      → check_queue c.rq packet ≡ some j
      → Matching c.rq packet xs j
      → (o : Outcome) × (add_rq now c packet ≡ some o) × Read now c xs ys packet o
  unfolding add_rq
  join_read j r w a b m =
      let here = entry_of_packet c.rq xs m.number j r.ring m.listed m.entry_of in
      (
        record {
          cache = record c {
            rq = record c.rq {
              entry = set c.rq.entry j (merge_read (get_or c.rq.entry j empty_packet) packet);
              merges = u64 (c.rq.merges + 1);
              accesses = u64 (c.rq.accesses + 1);
            };
          };
          packet = packet;
          replies = [];
          answer = merged j;
        },
        rw (a, add_rq) (rw b (refl)),
        joined (absent c.wq packet ys a w.ring) m.number m.match m.listed m.same
            (ap merged (sym m.entry_of)) refl
            (IsQueue-same
              (record c.rq {
                entry = set c.rq.entry (slot c.rq m.number) (merge_read m.match packet);
              })
              _ (set xs m.number (merge_read m.match packet)) refl (rw (here, m.entry_of) (refl))
              refl refl refl
              (set-IsQueue c.rq xs m.number (merge_read m.match packet) r
                (get_elem?-lt xs m.number m.listed)))
            w,
      )

-- A read request for an address other than 0, to a cache that is none of the two first level translation
-- caches and not the instruction cache, whose queues are in order and whose read queue has the size
-- that the cache has for it, fails no assertion and ends in one of four ways: the data of a write in
-- the queue are forwarded, it joins a read of the same address, it is refused by a full queue, or it
-- becomes the last packet of the read queue. The queues are in order afterwards.
pub add_rq-Read :
    (now : ℕ → ℕ) (c : Cache) (xs ys zs : List Packet) (packet : Packet)
    → IsQueue c.rq xs
    → IsQueue c.wq ys
    → Holds c.processed zs
    → c.rq.size ≡ c.rq_size
    → no_writes c.cache_type ≡ false
    → packet.address ≢ 0
    → (o : Outcome) × (add_rq now c packet ≡ some o) × Read now c xs ys packet o
unfolding add_rq
add_rq-Read now c xs ys zs packet r w p size has nz =
    elim (Option-cases (check_queue c.wq packet)) [
      | inr (j, a) ↦
          let m : Matching c.wq packet ys j =
            unfold IsAnswer in
            subst (IsAnswer c.wq packet ys) a (check_queue-IsAnswer c.wq packet ys w.ring) in
          let (o, e, d) = serve_read-Read now c xs ys zs packet j r w p has m in
          (o, rw (a, add_rq) e, d)
      | inl a ↦ elim (Option-cases (check_queue c.rq packet)) [
        | inr (j, b) ↦
            let m : Matching c.rq packet xs j =
              unfold IsAnswer in
              subst (IsAnswer c.rq packet xs) b (check_queue-IsAnswer c.rq packet xs r.ring) in
            join_read now c xs ys zs packet j r w a b m
        | inl b ↦ queue_read now c xs ys zs packet r w size nz a b
      ]
    ]
