-- ===== src/Cache/PacketQueue/Ring.antt =====
-- A packet queue is a queue: packets leave in the order in which they came.
use sandbox_predictor.Prelude.{
  none, true, ℕ, zero, suc, ◌+◌, ◌-◌, ◌^◌, ◌≤◌, ◌<◌, ◌≡◌, ◌≢◌, refl, sym, ap, ◌∙◌, Bool, false,
  ◌&&◌, some, List, [], ◌∷◌, ◌++◌, arith, ltb, ◌==◌, if◌then◌else◌, get_elem?, set, length,
  length-set, length-replicate, get_elem?-lt, get_elem?-set_self, get_elem?-set_ne, ℕ_discrete,
}
use sandbox_predictor.Prelude.Word.{u32, pred32}
use sandbox_predictor.Cache.Packet.{Packet, empty_packet}
use sandbox_predictor.Cache.PacketQueue.{PacketQueue, construct, next, add_queue, remove_queue}

-- the entry that holds packet number `k`, counted from the oldest
abbrev pub slot : PacketQueue → ℕ → ℕ
slot q k = if ltb (q.head + k) q.size then q.head + k else q.head + k - q.size

-- The ring holds the packets of a list, the oldest first.
pub record Holds (q : PacketQueue) (xs : List Packet) : Type 0 where
  pub small : q.size < 2 ^ 32
  pub cells : length q.entry ≡ q.size
  pub head_lt : q.head < q.size
  pub fits : length xs ≤ q.size
  pub count : q.occupancy ≡ length xs
  pub end : q.tail ≡ slot q (length xs)
  pub holds : (k : ℕ) {x : Packet} → get_elem? xs k ≡ some x → get_elem? q.entry (slot q k) ≡ some x

pub construct-Holds : (b : Bool) (size : ℕ) → 0 < size → size < 2 ^ 32 → Holds (construct b size) []
construct-Holds b size p l = record {
  small = l;
  cells = length-replicate size empty_packet;
  head_lt = p;
  fits = omega arith;
  count = refl;
  end = ground arith;
  holds = λ k h. absurd (cc);
}

-- list facts at the end of a list
pub length-snoc : (xs : List Packet) (p : Packet) → length (xs ++ (p ∷ [])) ≡ suc (length xs)
length-snoc [] p = refl
length-snoc (x ∷ xs) p = ap suc (length-snoc xs p)

pub snoc-old :
    (xs : List Packet) (p : Packet) (k : ℕ)
    → k < length xs
    → get_elem? (xs ++ (p ∷ [])) k ≡ get_elem? xs k
snoc-old [] p k l = absurd (omega arith)
snoc-old (x ∷ xs) p zero l = refl
snoc-old (x ∷ xs) p (suc k) l = snoc-old xs p k (omega arith)

pub snoc-new : (xs : List Packet) (p : Packet) → get_elem? (xs ++ (p ∷ [])) (length xs) ≡ some p
snoc-new [] p = refl
snoc-new (x ∷ xs) p = snoc-new xs p

module _ (q : PacketQueue) (xs : List Packet) (p : Packet) (h : Holds q xs)
    (room : length xs < q.size) where
  unfoldable pub appended : PacketQueue
  appended = record q {
    entry = set q.entry q.tail p;
    occupancy = u32 (q.occupancy + 1);
    tail = next q.size q.tail;
  }

  appended-holds :
      (k : ℕ) {x : Packet}
      → get_elem? (xs ++ (p ∷ [])) k ≡ some x
      → get_elem? (set q.entry q.tail p) (slot q k) ≡ some x
  appended-holds k g = elim (ℕ_discrete k (length xs)) [
    | yes e ↦
        (rw (e, ← h.end)
          (get_elem?-set_self q.entry q.tail p (ground (arith, h.end, h.cells, h.head_lt))))
        ∙ sym (snoc-new xs p)
        ∙ ap (get_elem? (xs ++ (p ∷ []))) (sym e)
        ∙ g
    | no e ↦
        let l = get_elem?-lt (xs ++ (p ∷ [])) k g in
        let l' : k < length xs = omega (arith, length-snoc xs p) in
        get_elem?-set_ne q.entry q.tail (slot q k) p (λ s. ground (arith, h.end, h.head_lt))
        ∙ h.holds k (sym (snoc-old xs p k l') ∙ g)
  ]

  pub appended-Holds : Holds appended (xs ++ (p ∷ []))
  unfolding appended
  appended-Holds = record {
    small = h.small;
    cells = length-set q.entry q.tail p ∙ h.cells;
    head_lt = h.head_lt;
    fits = omega (arith, length-snoc xs p);
    count = omega (arith, length-snoc xs p, h.count, h.small);
    end = ground (arith, length-snoc xs p, h.end, h.head_lt);
    holds = appended-holds;
  }

-- A ring that holds a list with room for one more packet takes it in at its end.
pub add_queue-Holds :
    (q : PacketQueue) (xs : List Packet) (p : Packet)
    → Holds q xs
    → length xs < q.size
    → (q' : PacketQueue) × (add_queue q p ≡ some q') × Holds q' (xs ++ (p ∷ []))
unfolding add_queue appended
add_queue-Holds q xs p h room =
    let ok : (ltb 0 q.occupancy && (q.head == q.tail)) ≡ false =
      ground (arith, h.end, h.count, h.head_lt) in
    (appended q xs p h room, rw (ok, add_queue, appended), appended-Holds q xs p h room)

-- the slots as numbers: the one after the head's is the next head's first
slot_next :
    (size head k : ℕ)
    → head < size
    → suc k < size
    → (if ltb (next size head + k) size then next size head + k else next size head + k - size)
      ≡ (if ltb (head + suc k) size then head + suc k else head + suc k - size)
slot_next size head k a b = ground arith

slot_ne_head :
    (size head k : ℕ)
    → head < size
    → suc k < size
    → head ≢ (if ltb (head + suc k) size then head + suc k else head + suc k - size)
slot_ne_head size head k a b e = ground arith

module _ (q : PacketQueue) (x : Packet) (xs : List Packet) (h : Holds q (x ∷ xs)) where
  removed : PacketQueue
  removed = record q {
    entry = set q.entry q.head empty_packet;
    occupancy = pred32 q.occupancy;
    head = next q.size q.head;
  }

  removed-holds :
      (k : ℕ) {y : Packet}
      → get_elem? xs k ≡ some y
      → get_elem? (set q.entry q.head empty_packet) (slot removed k) ≡ some y
  unfolding removed
  removed-holds k g =
      let l : suc k < q.size = omega (arith, get_elem?-lt xs k g, h.fits) in
      rw (slot_next q.size q.head k h.head_lt l) (
        get_elem?-set_ne q.entry q.head (slot q (suc k)) empty_packet
          (slot_ne_head q.size q.head k h.head_lt l)
        ∙ h.holds (suc k) g)

  removed-Holds : Holds removed xs
  unfolding removed
  removed-Holds = record {
    small = h.small;
    cells = length-set q.entry q.head empty_packet ∙ h.cells;
    head_lt = ground (arith, h.head_lt);
    fits = omega (arith, h.fits);
    count = omega (arith, h.count, h.fits, h.small);
    end = ground (arith, h.end, h.head_lt, h.fits);
    holds = removed-holds;
  }

-- In a ring that holds some packets, the entry at the head is the oldest one, and removing it leaves
-- the others in their order.
pub remove_queue-Holds :
    (q : PacketQueue) (x : Packet) (xs : List Packet)
    → Holds q (x ∷ xs)
    → (get_elem? q.entry q.head ≡ some x)
      × ((q' : PacketQueue) × (remove_queue q q.head ≡ some q') × Holds q' xs)
unfolding remove_queue removed
remove_queue-Holds q x xs h =
    let ok : ((q.occupancy == 0) && (q.head == q.tail)) ≡ false = ground (arith, h.count) in
    let first : slot q 0 ≡ q.head = ground (arith, h.head_lt) in
    (
      ap (get_elem? q.entry) (sym first) ∙ h.holds 0 refl,
      (removed q x xs h, rw (ok, remove_queue, removed), removed-Holds q x xs h),
    )

-- A ring that is full refuses a packet.
pub add_queue_full :
    (q : PacketQueue) (xs : List Packet) (p : Packet)
    → Holds q xs
    → length xs ≡ q.size
    → add_queue q p ≡ none
unfolding add_queue
add_queue_full q xs p h full =
    let no : (ltb 0 q.occupancy && (q.head == q.tail)) ≡ true =
      ground (arith, h.end, h.count, h.head_lt) in
    rw (no, add_queue)

-- A ring that holds nothing has no packet to remove.
pub remove_queue_empty : (q : PacketQueue) (i : ℕ) → Holds q [] → remove_queue q i ≡ none
unfolding remove_queue
remove_queue_empty q i h =
    let no : ((q.occupancy == 0) && (q.head == q.tail)) ≡ true =
      ground (arith, h.end, h.count, h.head_lt) in
    rw (no, remove_queue)
