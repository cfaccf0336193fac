-- ===== src/Cache.antt =====
-- Parts of the simulated memory hierarchy: the packets and their queues, the
-- replacement policy of a cache, and one level of the cache hierarchy.
pub mod Packet
pub mod PacketQueue
pub mod Replacement
pub mod Level
pub mod Mshr
pub mod Request
pub mod Prefetch
pub mod Handler
pub mod Fill
pub mod Tests
