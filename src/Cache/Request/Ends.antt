-- ===== src/Cache/Request/Ends.antt =====
-- What a read request can come to: `add_rq` of src/cache.cc.
use sandbox_predictor.Prelude.{
  ℕ, ◌<◌, ◌≡◌, true, none, some, List, [], ◌∷◌, ◌++◌, if◌then◌else◌, get_elem?, set, length,
}
use sandbox_predictor.Prelude.Int.{ltb_ℤ}
use sandbox_predictor.Cache.Packet.{Packet}
use sandbox_predictor.Cache.PacketQueue.{same_address}
use sandbox_predictor.Cache.PacketQueue.Ring.{slot}
use sandbox_predictor.Cache.PacketQueue.Check.{IsAnswer}
use sandbox_predictor.Cache.Level.{Cache}
use sandbox_predictor.Cache.Request.{Outcome, handled, merged, refused, replies_of, merge_read}
use sandbox_predictor.Cache.Request.Queue.{IsQueue, stamped}

-- the packet after a forward
abbrev pub taking : Packet → Packet → Packet
taking packet write = record packet { payload = write.payload }

-- The four ends of a read request to a cache whose read queue holds `xs` and write queue `ys`.
pub data Read (now : ℕ → ℕ) (c : Cache) (xs ys : List Packet) (packet : Packet) (o : Outcome)
    : Type 0 where
  -- a write in the queue has the address: its data are forwarded upwards
  served :
      (k : ℕ) (write : Packet)
      → get_elem? ys k ≡ some write
      → same_address c.wq write packet ≡ true
      → o.answer ≡ handled
      → o.packet ≡ (if ltb_ℤ packet.fill_level c.fill_level then taking packet write else packet)
      → o.replies
        ≡ (if ltb_ℤ packet.fill_level c.fill_level then replies_of c (taking packet write) else [])
      → IsQueue o.cache.rq xs
      → IsQueue o.cache.wq ys
      → Read now c xs ys packet o
  -- no write has the address, and a read in the queue does: the packet joins it
  joined :
      IsAnswer c.wq packet ys none
      → (k : ℕ) (read : Packet) → get_elem? xs k ≡ some read
      → same_address c.rq read packet ≡ true
      → o.answer ≡ merged (slot c.rq k)
      → o.replies ≡ []
      → IsQueue o.cache.rq (set xs k (merge_read read packet))
      → IsQueue o.cache.wq ys
      → Read now c xs ys packet o
  -- no packet has the address, and there is no room
  full :
      IsAnswer c.wq packet ys none
      → IsAnswer c.rq packet xs none
      → length xs ≡ c.rq.size
      → o.answer ≡ refused
      → o.replies ≡ []
      → IsQueue o.cache.rq xs
      → IsQueue o.cache.wq ys
      → Read now c xs ys packet o
  -- no packet has the address: this one is the last of the queue
  queued :
      IsAnswer c.wq packet ys none
      → IsAnswer c.rq packet xs none
      → length xs < c.rq.size
      → o.answer ≡ handled
      → o.replies ≡ []
      → IsQueue o.cache.rq (xs ++ (stamped now c.latency packet ∷ []))
      → IsQueue o.cache.wq ys
      → Read now c xs ys packet o
