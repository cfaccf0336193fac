-- ===== src/Dram/Schedule/Forward.antt =====
-- The DRAM controller answers a read of an address that waits to be written with what will be written.
use sandbox_predictor.Prelude.{
  ℕ, ◌+◌, ◌<◌, ◌≡◌, refl, ap, ◌∙◌, true, none, some, arith, ◌==◌, get_or, set, take, find_index,
  length, get_elem?-lt, get_or-set_self, find_index-some, get_elem?-take-some,
}
use sandbox_predictor.Prelude.Word.{u32}
use sandbox_predictor.Cache.Packet.{Packet, empty_packet}
use sandbox_predictor.Cache.PacketQueue.{PacketQueue}
use sandbox_predictor.Cache.Level.Scan.{find_index-set-found}
use sandbox_predictor.Cache.Mshr.Lookup.{take-set}
use sandbox_predictor.Dram.{Dram, queue_of, writes, no_queue, dram_get_channel, dram_wq_size}
use sandbox_predictor.Dram.Schedule.{
  add_rq, add_wq, put, check_dram_queue, update_schedule_cycle, answer_to,
}

-- the write queue after a write that took entry `i`
abbrev written : Dram → Packet → ℕ → PacketQueue
written d write i = record (queue_of d writes 0) {
  entry = set (queue_of d writes 0).entry i write;
  occupancy = u32 ((queue_of d writes 0).occupancy + 1);
}

put_at :
    (q : PacketQueue) (size : ℕ) (packet : Packet) {i : ℕ}
    → find_index (λ (e : Packet). e.address == 0) (take size q.entry) ≡ some i
    → put q size packet
      ≡ record q { entry = set q.entry i packet; occupancy = u32 (q.occupancy + 1) }
unfolding put
put_at q size packet e = rw (e, put) (refl)

queue_after :
    (d : Dram) (write : Packet) {i : ℕ}
    → 0 < length d.wq
    → check_dram_queue (queue_of d writes 0) write ≡ none
    → find_index (λ (e : Packet). e.address == 0) (take 64 (queue_of d writes 0).entry) ≡ some i
    → queue_of (add_wq true d write).0 writes 0 ≡ update_schedule_cycle (written d write i)
unfolding add_wq dram_get_channel
queue_after d write {i} some_queue miss free =
    rw (miss, add_wq)
      (get_or-set_self d.wq 0 (update_schedule_cycle (put (get_or d.wq 0 no_queue) 64 write))
          no_queue some_queue
        ∙ ap update_schedule_cycle (put_at (queue_of d writes 0) 64 write free))

-- a read that finds a write in the queue
found_write :
    (d : Dram) (read : Packet) {j : ℕ} (data_of : ℕ)
    → check_dram_queue (queue_of d writes 0) read ≡ some j
    → (get_or (queue_of d writes 0).entry j empty_packet).payload ≡ data_of
    → ((add_rq true d read).1 ≡ record read { payload = data_of })
      × ((add_rq true d read).2 ≡ answer_to (record read { payload = data_of }))
      × ((add_rq true d read).3 ≡ none)
unfolding add_rq dram_get_channel
found_write d read data_of e f = rw (e, add_rq) (rw f (refl, refl, refl))

-- the search of a queue does not see what is scheduled
check-update :
    (q : PacketQueue) (packet : Packet)
    → (check_dram_queue (update_schedule_cycle q) packet ≡ check_dram_queue q packet)
      × ((update_schedule_cycle q).entry ≡ q.entry)
      × ((update_schedule_cycle q).occupancy ≡ q.occupancy)
unfolding check_dram_queue update_schedule_cycle
check-update q packet = (refl, refl, refl)

found_written :
    (d : Dram) (write read : Packet) {i : ℕ}
    → (queue_of d writes 0).size ≡ 64
    → read.address ≡ write.address
    → check_dram_queue (queue_of d writes 0) write ≡ none
    → find_index (λ (e : Packet). e.address == 0) (take 64 (queue_of d writes 0).entry) ≡ some i
    → (check_dram_queue (written d write i) read ≡ some i)
      × (get_or (set (queue_of d writes 0).entry i write) i empty_packet ≡ write)
unfolding check_dram_queue
found_written d write read {i} size same miss free =
    let (x, g, e) =
      find_index-some (λ (e : Packet). e.address == 0) (take 64 (queue_of d writes 0).entry) free in
    let l = get_elem?-lt (take 64 (queue_of d writes 0).entry) i g in
    let l' =
      get_elem?-lt (queue_of d writes 0).entry i
        (get_elem?-take-some 64 (queue_of d writes 0).entry i g) in
    (
      rw size (
          rw (take-set 64 i (queue_of d writes 0).entry write) (
            find_index-set-found (λ (e : Packet). e.address == read.address)
              (take 64 (queue_of d writes 0).entry) i write l (rw same (rw size at miss))
              (ground arith))),
      get_or-set_self (queue_of d writes 0).entry i write empty_packet l',
    )

-- After the warmup, a write of an address that the write queue does not hold goes to the first empty
-- entry of that queue, and the others stay; a read of that address that comes next is answered at
-- once, with the data of the write, on the sides that it asks for, and joins no other read.
pub dram_write-read :
    (d : Dram) (write read : Packet) {i : ℕ}
    → 0 < length d.wq
    → (queue_of d writes 0).size ≡ dram_wq_size
    → read.address ≡ write.address
    → check_dram_queue (queue_of d writes 0) write ≡ none
    → find_index (λ (e : Packet). e.address == 0) (take dram_wq_size (queue_of d writes 0).entry)
      ≡ some i
    → ((queue_of (add_wq true d write).0 writes 0).entry ≡ set (queue_of d writes 0).entry i write)
      × ((queue_of (add_wq true d write).0 writes 0).occupancy
          ≡ u32 ((queue_of d writes 0).occupancy + 1))
      × ((add_rq true (add_wq true d write).0 read).1 ≡ record read { payload = write.payload })
      × ((add_rq true (add_wq true d write).0 read).2
          ≡ answer_to (record read { payload = write.payload }))
      × ((add_rq true (add_wq true d write).0 read).3 ≡ none)
dram_write-read d write read {i} some_queue size same miss free =
    let q = queue_after d write some_queue miss free in
    let (seen, entry) = found_written d write read size same miss free in
    let (c, e, o) = check-update (written d write i) read in
    let (packet, replies, merge) =
      found_write (add_wq true d write).0 read {j = i} write.payload (rw q (c ∙ seen))
        (rw q (rw e (ap (λ (x : Packet). x.payload) entry))) in
    (
      ap (λ (x : PacketQueue). x.entry) q ∙ e,
      ap (λ (x : PacketQueue). x.occupancy) q ∙ o,
      packet,
      replies,
      merge,
    )
