-- ===== src/Cache/Request/Queue.antt =====
-- The queues of a cache as lists, with the entries that are not in use empty.
use sandbox_predictor.Prelude.{
  ℕ, suc, ◌+◌, ◌-◌, ◌≤◌, ◌<◌, ◌≡◌, ◌≢◌, refl, sym, ap, ◌∙◌, true, some, List, [], ◌∷◌, ◌++◌, arith,
  ltb, ◌==◌, if◌then◌else◌, get_elem?, get_or, set, length, length-set, get_elem?-lt,
  get_elem?-set_self, get_elem?-set_ne, get_or-set_ne, ℕ_discrete,
}
use sandbox_predictor.Prelude.Word.{u32, u64}
use sandbox_predictor.Cache.Packet.{Packet, empty_packet}
use sandbox_predictor.Cache.PacketQueue.{PacketQueue, next}
use sandbox_predictor.Cache.PacketQueue.Ring.{Holds, slot, appended, appended-Holds, length-snoc}
use sandbox_predictor.Cache.Mshr.{delayed}
use sandbox_predictor.Cache.Request.{enqueue}

-- The ring holds a list of packets, and its other entries are empty.
pub record IsQueue (q : PacketQueue) (xs : List Packet) : Type 0 where
  pub ring : Holds q xs
  pub idle :
      (k : ℕ) → length xs ≤ k → k < q.size → (get_or q.entry (slot q k) empty_packet).address ≡ 0

-- only the ring counts
pub ring_same :
    (q q' : PacketQueue) (xs : List Packet)
    → q'.size ≡ q.size
    → q'.entry ≡ q.entry
    → q'.head ≡ q.head
    → q'.tail ≡ q.tail
    → q'.occupancy ≡ q.occupancy
    → Holds q xs
    → Holds q' xs
ring_same q q' xs s e h t o r = record {
  small = rw s r.small;
  cells = rw (s, e) r.cells;
  head_lt = rw (s, h) r.head_lt;
  fits = rw s r.fits;
  count = rw o r.count;
  end = rw (s, h, t) r.end;
  holds = λ k g. rw (s, e, h) (r.holds k g);
}

pub IsQueue-same :
    (q q' : PacketQueue) (xs : List Packet)
    → q'.size ≡ q.size
    → q'.entry ≡ q.entry
    → q'.head ≡ q.head
    → q'.tail ≡ q.tail
    → q'.occupancy ≡ q.occupancy
    → IsQueue q xs
    → IsQueue q' xs
IsQueue-same q q' xs s e h t o r = record {
  ring = ring_same q q' xs s e h t o r.ring;
  idle = λ k a b. rw (s, e, h) (r.idle k a (rw (← s) b));
}

-- two packets have different slots
slot-ne :
    (size head i k : ℕ)
    → head < size
    → i < size
    → k < size
    → i ≢ k
    → (if ltb (head + i) size then head + i else head + i - size)
      ≢ (if ltb (head + k) size then head + k else head + k - size)
slot-ne size head i k a b c d e = ground arith

slot-lt :
    (size head i : ℕ)
    → head < size
    → i < size
    → (if ltb (head + i) size then head + i else head + i - size) < size
slot-lt size head i a b = ground arith

-- the time stamp of a packet that comes in
abbrev pub stamped : (ℕ → ℕ) → ℕ → Packet → Packet
stamped now latency packet = record packet { event_cycle = delayed now latency packet packet.cpu }

-- `enqueue` appends the packet to a queue with room.
pub enqueue-IsQueue :
    (now : ℕ → ℕ) (latency : ℕ) (q : PacketQueue) (xs : List Packet) (packet : Packet)
    → IsQueue q xs
    → length xs < q.size
    → (q' : PacketQueue) × (enqueue now latency q packet ≡ some q')
      × IsQueue q' (xs ++ (stamped now latency packet ∷ []))
      × (q'.is_l1d_wq ≡ q.is_l1d_wq)
unfolding enqueue
enqueue-IsQueue now latency q xs packet h room =
    let p : Packet = stamped now latency packet in
    let empty : ((get_or q.entry q.tail empty_packet).address == 0) ≡ true =
      ground (arith, h.idle (length xs) (omega arith) room, h.ring.end) in
    let q1 = appended q xs p h.ring room in
    let r1 = appended-Holds q xs p h.ring room in
    (
      record q {
        entry = set q.entry q.tail p;
        occupancy = u32 (q.occupancy + 1);
        tail = next q.size q.tail;
        to_cache = u64 (q.to_cache + 1);
        accesses = u64 (q.accesses + 1);
      },
      rw (empty, enqueue) (refl),
      record {
        ring = unfold appended in ring_same q1 _ (xs ++ (p ∷ [])) refl refl refl refl refl r1;
        idle = λ k a b.
            let more : suc (length xs) ≤ k = omega (arith, length-snoc xs p) in
            rw h.ring.end (
              ap (λ (x : Packet). x.address)
                (get_or-set_ne q.entry (slot q (length xs)) (slot q k) p empty_packet
                  (slot-ne q.size q.head (length xs) k h.ring.head_lt room b (λ e. omega arith)))
              ∙ h.idle k (omega arith) b);
      },
      refl,
    )

-- A packet of the queue is replaced.
pub set-IsQueue :
    (q : PacketQueue) (xs : List Packet) (k : ℕ) (p : Packet)
    → IsQueue q xs
    → k < length xs
    → IsQueue (record q { entry = set q.entry (slot q k) p }) (set xs k p)
set-IsQueue q xs k p h l =
    let inside : k < q.size = omega (arith, h.ring.fits) in
    let cells = h.ring.cells in
    record {
      ring = record {
        small = h.ring.small;
        cells = length-set q.entry (slot q k) p ∙ cells;
        head_lt = h.ring.head_lt;
        fits = omega (arith, length-set xs k p, h.ring.fits);
        count = h.ring.count ∙ sym (length-set xs k p);
        end = h.ring.end ∙ ap (slot q) (sym (length-set xs k p));
        holds = λ i {x} g. elim (ℕ_discrete k i) [
          | yes e ↦
              ap (get_elem? (set q.entry (slot q k) p)) (ap (slot q) (sym e))
              ∙ get_elem?-set_self q.entry (slot q k) p
                  (rw cells (slot-lt q.size q.head k h.ring.head_lt inside))
              ∙ sym (get_elem?-set_self xs k p l)
              ∙ ap (get_elem? (set xs k p)) e
              ∙ g
          | no ne ↦
              let i_lt : i < length xs =
                omega (arith, get_elem?-lt (set xs k p) i g, length-set xs k p) in
              get_elem?-set_ne q.entry (slot q k) (slot q i) p
                (slot-ne q.size q.head k i h.ring.head_lt inside (omega (arith, h.ring.fits)) ne)
              ∙ h.ring.holds i (sym (get_elem?-set_ne xs k i p ne) ∙ g)
        ];
      };
      idle = λ i a b.
          ap (λ (x : Packet). x.address)
            (get_or-set_ne q.entry (slot q k) (slot q i) p empty_packet (
              slot-ne q.size q.head k i h.ring.head_lt inside b
                (λ e. omega (arith, length-set xs k p))))
          ∙ h.idle i (omega (arith, length-set xs k p)) b;
    }
