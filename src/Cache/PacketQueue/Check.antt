-- ===== src/Cache/PacketQueue/Check.antt =====
-- The search of a packet queue.
use sandbox_predictor.Prelude.{
  ℕ, zero, suc, ◌+◌, ◌-◌, ◌≤◌, ◌<◌, ◌≡◌, sym, ap, ◌∙◌, Bool, true, false, ◌&&◌, Option, none, some,
  List, arith, ltb, ◌==◌, if◌then◌else◌, get_elem?, get_or, length, Bool-cases, Option-cases, inl,
  inr, some_inj, get_or-of_get_elem?, get_elem?-of_lt, get_elem?-lt,
}
use mathlib.Core.Path.{subst}
use sandbox_predictor.Cache.Packet.{Packet, empty_packet}
use sandbox_predictor.Cache.PacketQueue.{PacketQueue, same_address, scan, check_queue}
use sandbox_predictor.Cache.PacketQueue.Ring.{Holds, slot}

module _ (q : PacketQueue) (packet : Packet) where
  abbrev matches : ℕ → Bool
  matches i = same_address q (get_or q.entry i empty_packet) packet

  scan-some :
      (rounds i : ℕ) {j : ℕ}
      → scan q packet rounds i ≡ some j
      → (i ≤ j) × (j < i + rounds) × (matches j ≡ true)
  unfolding scan
  scan-some zero i h = absurd (cc)
  scan-some (suc rounds) i {j} h = elim (Bool-cases (matches i)) [
    | inl e ↦
        let same : i ≡ j = ground arith in (omega arith, omega arith, ap matches (sym same) ∙ e)
    | inr e ↦
        let (a, b, m) = scan-some rounds (i + 1) (ground arith) in (omega arith, omega arith, m)
  ]

  scan-none :
      (rounds i j : ℕ) → scan q packet rounds i ≡ none → i ≤ j → j < i + rounds → matches j ≡ false
  unfolding scan
  scan-none zero i j h a b = absurd (omega arith)
  scan-none (suc rounds) i j h a b = elim (Bool-cases (matches i)) [
    | inl e ↦ absurd (ground arith)
    | inr e ↦ elim (Bool-cases (ltb i j)) [
      | inl l ↦ scan-none rounds (i + 1) j (ground arith) (ground arith) (omega arith)
      | inr l ↦ let same : i ≡ j = ground arith in ap matches (sym same) ∙ e
    ]
  ]

  -- what `check_queue` does on a ring that holds packets
  check-straight :
      ((q.head == q.tail) && (q.occupancy == 0)) ≡ false
      → ltb q.head q.tail ≡ true
      → check_queue q packet ≡ scan q packet (q.tail - q.head) q.head
  unfolding check_queue
  check-straight f a = rw (f, check_queue, a)

  check-first :
      {j : ℕ}
      → ((q.head == q.tail) && (q.occupancy == 0)) ≡ false
      → ltb q.head q.tail ≡ false
      → scan q packet (q.size - q.head) q.head ≡ some j
      → check_queue q packet ≡ some j
  unfolding check_queue
  check-first f a s = rw (f, check_queue, a, s)

  check-second :
      ((q.head == q.tail) && (q.occupancy == 0)) ≡ false
      → ltb q.head q.tail ≡ false
      → scan q packet (q.size - q.head) q.head ≡ none
      → check_queue q packet ≡ scan q packet q.tail 0
  unfolding check_queue
  check-second f a s = rw (f, check_queue, a, s)

  check-idle : ((q.head == q.tail) && (q.occupancy == 0)) ≡ true → check_queue q packet ≡ none
  unfolding check_queue
  check-idle e = rw (e, check_queue)

  in_use :
      (xs : List Packet) (k : ℕ)
      → Holds q xs
      → k < length xs
      → ((q.head == q.tail) && (q.occupancy == 0)) ≡ false
  in_use xs k h l = ground (arith, h.count)

  -- A search that finds nothing has passed every packet by.
  check-none :
      (xs : List Packet) (k : ℕ)
      → Holds q xs
      → check_queue q packet ≡ none
      → k < length xs
      → matches (slot q k) ≡ false
  check-none xs k h n l =
      let f = in_use xs k h l in
      elim (Bool-cases (ltb q.head q.tail)) [
        | inl a ↦
            scan-none (q.tail - q.head) q.head (slot q k) (sym (check-straight f a) ∙ n)
              (ground (arith, h.end, h.fits, h.head_lt)) (ground (arith, h.end, h.fits, h.head_lt))
        | inr a ↦ elim (Option-cases (scan q packet (q.size - q.head) q.head)) [
          | inr (j, s) ↦ absurd (ground (arith, check-first f a s))
          | inl s ↦ elim (Bool-cases (ltb (q.head + k) q.size)) [
            | inl c ↦
                scan-none (q.size - q.head) q.head (slot q k) s (ground (arith, h.head_lt))
                  (ground (arith, h.head_lt))
            | inr c ↦
                scan-none q.tail 0 (slot q k) (sym (check-second f a s) ∙ n) (omega arith)
                  (ground (arith, h.end, h.fits, h.head_lt))
          ]
        ]
      ]

  -- the packet number of an entry
  offset : ℕ → ℕ
  offset j = if ltb j q.head then j + q.size - q.head else j - q.head

  -- What a search finds is an entry of a packet, and it matches.
  check-some :
      (xs : List Packet) (j : ℕ)
      → Holds q xs
      → check_queue q packet ≡ some j
      → (offset j < length xs) × (slot q (offset j) ≡ j) × (matches j ≡ true)
  unfolding offset
  check-some xs j h n = elim (Bool-cases ((q.head == q.tail) && (q.occupancy == 0))) [
    | inl e ↦ absurd (ground (arith, check-idle e))
    | inr f ↦ elim (Bool-cases (ltb q.head q.tail)) [
      | inl a ↦
          let (lo, hi, m) = scan-some (q.tail - q.head) q.head (sym (check-straight f a) ∙ n) in
          (ground (arith, h.end, h.fits, h.head_lt), ground (arith, h.end, h.fits, h.head_lt), m)
      | inr a ↦ elim (Option-cases (scan q packet (q.size - q.head) q.head)) [
        | inr (i, s) ↦
            let same : i ≡ j = some_inj (sym (check-first f a s) ∙ n) in
            let (lo, hi, m) = scan-some (q.size - q.head) q.head (s ∙ ap some same) in
            (
              ground (arith, h.end, h.fits, h.head_lt, h.count),
              ground (arith, h.end, h.fits, h.head_lt),
              m,
            )
        | inl s ↦
            let (lo, hi, m) = scan-some q.tail 0 (sym (check-second f a s) ∙ n) in
            (
              ground (arith, h.end, h.fits, h.head_lt, h.count),
              ground (arith, h.end, h.fits, h.head_lt, h.count),
              m,
            )
      ]
    ]
  ]

-- a packet of the list with the address of the one that is searched
pub record Matching (q : PacketQueue) (packet : Packet) (xs : List Packet) (j : ℕ) : Type 0 where
  pub number : ℕ
  pub match : Packet
  pub listed : get_elem? xs number ≡ some match
  pub same : same_address q match packet ≡ true
  pub entry_of : slot q number ≡ j

-- What a search may answer: the entry of such a packet, or that there is none.
unfoldable pub IsAnswer : PacketQueue → Packet → List Packet → Option ℕ → Type 0
IsAnswer q packet xs (some j) = Matching q packet xs j
IsAnswer q packet xs none =
    (k : ℕ) (x : Packet) → get_elem? xs k ≡ some x → same_address q x packet ≡ false

-- A search of a ring answers with the entry of a packet in the queue that has the address, or there is
-- no such packet in the queue.
pub check_queue-IsAnswer :
    (q : PacketQueue) (packet : Packet) (xs : List Packet)
    → Holds q xs
    → IsAnswer q packet xs (check_queue q packet)
unfolding IsAnswer
check_queue-IsAnswer q packet xs h = elim (Option-cases (check_queue q packet)) [
  | inl n ↦ subst (IsAnswer q packet xs) (sym n) (λ k x g.
      ap (λ y. same_address q y packet)
        (sym (get_or-of_get_elem? q.entry (slot q k) empty_packet (h.holds k g)))
      ∙ check-none q packet xs k h n (get_elem?-lt xs k g))
  | inr (j, n) ↦
      let (l, e, m) = check-some q packet xs j h n in
      let k = offset q packet j in
      let (x, g) = get_elem?-of_lt xs k l in
      subst (IsAnswer q packet xs) (sym n) (record {
        number = k;
        match = x;
        listed = g;
        same =
            ap (λ y. same_address q y packet)
              (sym (get_or-of_get_elem? q.entry (slot q k) empty_packet (h.holds k g)))
            ∙ ap (matches q packet) e
            ∙ m;
        entry_of = e;
      })
]
