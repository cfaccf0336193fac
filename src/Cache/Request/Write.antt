-- ===== src/Cache/Request/Write.antt =====
-- A read that follows a write sees what was written.
use sandbox_predictor.Prelude.{
  ℕ, ◌<◌, ◌≡◌, ◌≢◌, refl, sym, ap, ◌∙◌, true, false, none, some, List, [], ◌∷◌, ◌++◌, arith, leb,
  if◌then◌else◌, get_elem?, length, get_elem?-lt, Bool-cases, inl, inr, dec_lt, some_inj,
}
use sandbox_predictor.Prelude.Int.{ltb_ℤ}
use sandbox_predictor.Cache.Packet.{Packet}
use sandbox_predictor.Cache.PacketQueue.{PacketQueue, same_address, check_queue}
use sandbox_predictor.Cache.PacketQueue.Ring.{Holds, length-snoc, snoc-old, snoc-new}
use sandbox_predictor.Cache.PacketQueue.Check.{IsAnswer}
use sandbox_predictor.Cache.Level.{Cache}
use sandbox_predictor.Cache.Request.{Outcome, handled, add_rq, add_wq, no_writes, replies_of}
use sandbox_predictor.Cache.Request.Queue.{IsQueue, enqueue-IsQueue, stamped}
use sandbox_predictor.Cache.Request.Ends.{Read, served, joined, full, queued, taking}
use sandbox_predictor.Cache.Request.Read.{absent, add_rq-Read}

-- Packets are told apart by one number.
same_trans :
    (q : PacketQueue) (a b d : Packet)
    → same_address q a b ≡ true
    → same_address q d b ≡ true
    → same_address q a d ≡ true
unfolding same_address
same_trans q a b d e f = elim (Bool-cases q.is_l1d_wq) [
  | inl t ↦ ground arith
  | inr t ↦ ground arith
]

-- the packet of a list with one more at its end, if no earlier one has the address
newest :
    (q : PacketQueue) (ys : List Packet) (last read : Packet) (k : ℕ) {x : Packet}
    → ((i : ℕ) (y : Packet) → get_elem? ys i ≡ some y → same_address q y last ≡ false)
    → same_address q last read ≡ true
    → get_elem? (ys ++ (last ∷ [])) k ≡ some x
    → same_address q x read ≡ true
    → x ≡ last
newest q ys last read k {x} old l g e = elim (dec_lt k (length ys)) [
  | yes c ↦
      let g' = sym (snoc-old ys last k c) ∙ g in
      absurd (ground (arith, old k x g', same_trans q x read last e l))
  | no c ↦
      let m = get_elem?-lt (ys ++ (last ∷ [])) k g in
      let k_is : k ≡ length ys = omega (arith, length-snoc ys last) in
      some_inj (sym g ∙ ap (get_elem? (ys ++ (last ∷ []))) k_is ∙ snoc-new ys last)
]

-- a search that found nothing has not passed over the address
seen :
    (q : PacketQueue) (ys : List Packet) (read : Packet) (k : ℕ) {x : Packet}
    → IsAnswer q read ys none
    → get_elem? ys k ≡ some x
    → same_address q x read ≡ true
    → ⊥
unfolding IsAnswer
seen q ys read k {x} away g e = ground (arith, away k x g)

-- the flag decides how packets are compared
same_flag :
    (q q' : PacketQueue) (a b : Packet)
    → q'.is_l1d_wq ≡ q.is_l1d_wq
    → same_address q' a b ≡ same_address q a b
unfolding same_address
same_flag q q' a b e = rw e (refl)

-- the time stamp does not count
unstamped :
    (q : PacketQueue) (y a b : Packet)
    → b.address ≡ a.address
    → b.full_addr ≡ a.full_addr
    → same_address q y b ≡ same_address q y a
unfolding same_address
unstamped q y a b e f = rw (e, f) (refl)

stamped_read :
    (q : PacketQueue) (b a y : Packet)
    → b.address ≡ a.address
    → b.full_addr ≡ a.full_addr
    → same_address q b y ≡ same_address q a y
unfolding same_address
stamped_read q b a y e f = rw (e, f) (refl)

passed_by :
    (q : PacketQueue) (ys : List Packet) (packet : Packet) (i : ℕ) {y : Packet}
    → IsAnswer q packet ys none
    → get_elem? ys i ≡ some y
    → same_address q y packet ≡ false
unfolding IsAnswer
passed_by q ys packet i {y} away g = away i y g

same_replies :
    (c c' : Cache) (packet : Packet)
    → c'.fill_level ≡ c.fill_level
    → replies_of c' packet ≡ replies_of c packet
unfolding replies_of
same_replies c c' packet e = rw e (refl)

-- a read of a cache whose last write has the address
sees :
    (now : ℕ → ℕ) (c : Cache) (xs ys : List Packet) (last read : Packet) (o : Outcome)
    → ((i : ℕ) (y : Packet) → get_elem? ys i ≡ some y → same_address c.wq y last ≡ false)
    → same_address c.wq last read ≡ true
    → ltb_ℤ read.fill_level c.fill_level ≡ true
    → Read now c xs (ys ++ (last ∷ [])) read o
    → (o.answer ≡ handled)
      × (o.packet ≡ taking read last)
      × (o.replies ≡ replies_of c (taking read last))
      × IsQueue o.cache.rq xs
      × IsQueue o.cache.wq (ys ++ (last ∷ []))
sees now c xs ys last read o old l above (served k write g e answer packet replies r w) =
    let m : write ≡ last = newest c.wq ys last read k old l g e in
    (
      answer,
      packet ∙ ap (λ t. if t then taking read write else read) above ∙ ap (taking read) m,
      replies
          ∙ ap (λ t. if t then replies_of c (taking read write) else []) above
          ∙ ap (λ x. replies_of c (taking read x)) m,
      r,
      w,
    )
sees now c xs ys last read o old l above (joined away k x g e answer replies r w) =
    absurd (seen c.wq (ys ++ (last ∷ [])) read (length ys) away (snoc-new ys last) l)
sees now c xs ys last read o old l above (full away none_is len answer replies r w) =
    absurd (seen c.wq (ys ++ (last ∷ [])) read (length ys) away (snoc-new ys last) l)
sees now c xs ys last read o old l above (queued away none_is len answer replies r w) =
    absurd (seen c.wq (ys ++ (last ∷ [])) read (length ys) away (snoc-new ys last) l)

-- The cache is none of the two first level translation caches and not the instruction cache, its queues
-- are in order, and its read queue has the size that the cache has for it. A write that has room and
-- no other write of its address in the queue is queued, with its latency added. A read of the same
-- address, which is not 0, by a higher level, that comes next, is answered at once: the levels above
-- are sent the data of the write on the sides that the read asks for, and nothing is queued.
pub add_wq-add_rq :
    (now : ℕ → ℕ) (c : Cache) (xs ys zs : List Packet) (write read : Packet)
    → IsQueue c.rq xs
    → IsQueue c.wq ys
    → Holds c.processed zs
    → c.rq.size ≡ c.rq_size
    → no_writes c.cache_type ≡ false
    → length ys < c.wq.size
    → check_queue c.wq write ≡ none
    → read.address ≢ 0
    → same_address c.wq write read ≡ true
    → ltb_ℤ read.fill_level c.fill_level ≡ true
    → (c' : Cache) × (o : Outcome) × (add_wq now c write ≡ some (c', handled))
      × IsQueue c'.wq (ys ++ (stamped now c.latency write ∷ []))
      × (add_rq now c' read ≡ some o)
      × (o.answer ≡ handled)
      × (o.packet ≡ taking read write)
      × (o.replies ≡ replies_of c (taking read write))
      × IsQueue o.cache.rq xs
      × IsQueue o.cache.wq (ys ++ (stamped now c.latency write ∷ []))
unfolding add_wq
add_wq-add_rq now c xs ys zs write read r w p size has room miss rz same above =
    let t : leb c.wq.size c.wq.occupancy ≡ false = ground (arith, w.ring.count) in
    let (q, e, h, flag) = enqueue-IsQueue now c.latency c.wq ys write w room in
    let c' : Cache = record c { wq = q } in
    let away = absent c.wq write ys miss w.ring in
    let old : (i : ℕ) (y : Packet)
        → get_elem? ys i ≡ some y
        → same_address q y (stamped now c.latency write) ≡ false =
      λ i y g.
        same_flag c.wq q y (stamped now c.latency write) flag
        ∙ unstamped c.wq y write (stamped now c.latency write) refl refl
        ∙ passed_by c.wq ys write i away g in
    let (o, f, d) =
      add_rq-Read now c' xs (ys ++ (stamped now c.latency write ∷ [])) zs read r h p size has rz in
    let (answer, packet, replies, reads, writes) =
      sees now c' xs ys (stamped now c.latency write) read o old
        (same_flag c.wq q (stamped now c.latency write) read flag
          ∙ stamped_read c.wq (stamped now c.latency write) write read refl refl
          ∙ same)
        above d in
    (
      c',
      o,
      rw (miss, add_wq) (rw t (rw e (refl))),
      h,
      f,
      answer,
      packet,
      replies ∙ same_replies c c' (taking read write) refl,
      reads,
      writes,
    )
