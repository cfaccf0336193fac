-- ===== src/Lib.antt =====
-- The branch predictors of SandboxPredictor, and the parts of the ChampSim simulator around them. All
-- paths are from the repository's root.
--
-- The program. A branch predictor is an object with predict, update and reset
-- (ChampSim/inc/bp_candidates.h). The project's own one is VIP: a default predictor, a small cache of the
-- program counters that it mispredicts (ChampSim/inc/miss_cache.h), one private predictor for each entry
-- of that cache, and a scoreboard that says which of the two to believe. The predictors that VIP is built
-- from, or compared with, are gshare, the perceptron, a nested loop predictor, TAGE with its tagged tables,
-- LTAGE, and a tournament. The simulator calls predict and update for each branch; around them it has
-- a page table, caches with their packet queues and replacement policy, and a DRAM controller, which are
-- here too.
--
-- The modules.
--   Prelude      Boolean tests, arrays as lists, bits, digits, machine words and integers over the native
--                numbers; Map is std::map, an association list in the order of the keys
--   MissCache    ChampSim/branch/mcache_candidates: Lru (lru.cc), Nru (nru.cc), Segment (segment.cc),
--                Slru (slru.cc), Fixed (fixed.cc); the record MissCache is the base class. Entry, Ageing
--                and Recency are shared: the entries, the loops over them, and recency lists.
--   Predictor    ChampSim/branch/bp_candidates: Gshare, Perceptron (with Pending, its ring of predictions),
--                NestLoop, TagTable, Tage, Ltage, Vip and Tournament, one module for each .cc file; the
--                record Predictor is the base class, and Run has the runs of any predictor: lists of what the
--                simulator calls, and lists of calls of any method. Counter is
--                the saturating counter of gshare and of the tagged tables.
--   FastSet      ChampSim/inc/set.h: the sets of small numbers that packets carry
--   PageTable    va_to_pa of ChampSim/src/main.cc, with lg2 and the rotations
--   Cache        Packet and PacketQueue (ChampSim/inc/block.h, ChampSim/src/block.cc), Replacement
--                (ChampSim/replacement/base_replacement.cc), and of ChampSim/src/cache.cc: Level (sets, tags,
--                fills), Mshr (the miss registers), Request (reads and writes), Prefetch, Handler (what
--                the handlers share) and Fill (handle_fill)
--   Dram         ChampSim/src/dram_controller.cc: the address fields and the state in Dram itself, Schedule
--                (requests, and which one goes first), Serve (the data bus) and Operate (the mode of a channel)
--
-- How they interact. A branch goes to a Predictor. A memory access has its address translated by PageTable,
-- which asks for invalidations in the caches; it enters a Cache by add_rq or add_wq as a Packet; a miss
-- waits in the Mshr of the level until the level below calls return_data; the last level sends its
-- packets to Dram. A call of another object is a value that the operation returns: a Reply for
-- return_data, an Invalidation for invalidate_entry, a Call of either kind or of add_wq for a fill. The
-- replacement policy and the prefetcher of a cache are chosen at build time: Hooks is their interface.
--
-- How the code is modelled. An object is a record of its fields, in the code's order and words; a method is
-- a function from the state and the arguments to the new state and the result. A pointer to a base class
-- is a section parameter, a record of functions over a state: VIP, TAGE, LTAGE and Tournament take
-- every predictor and miss cache that they may be given. An index -1 is none, an assertion that fails
-- is none; where an operation has both, the outer none is the assertion. Arrays are lists; a write past
-- the end changes nothing and a read past the end gives a named default, and the invariants say that the
-- indices lie inside. Numbers are the native numbers, and arithmetic on uint64_t and on unsigned has its
-- wrap-around where it can wrap; int is an integer without bounds.
-- malloc returns a block of any content, as an argument; rand(), random(), the stream of draw_rand and
-- current_core_cycle are arguments too. The union of FastSet is two fields, of which the size says
-- the one in use; a read past its bit array is none, and numbers from 512 on, which the code's commented
-- assertions exclude, are not inserted. DEBUG_PRINT is off and SANITY_CHECK is on.
--
-- Loops are structural on a number of rounds or on the array. Four loops have no bound in the code. That of
-- fold, for lengths between 1 and 30 where its shifts are defined, gets 64 rounds, and any greater number
-- gives the same result, since a shift by one or more empties a 64-bit word within 64 rounds; lg2 halves an
-- int, and 32 rounds empty it. The binary search of FastSet gets as many rounds as the set has elements,
-- since each round leaves fewer of them. The search for an empty page draws until one is free, which the
-- code cannot bound: its fuel is an argument, and enough is the number of draws up to the first free page.
--
-- Not modelled: destructors, text dumps and sizeB(), which change no state; the copy constructor of
-- NestLoop, which shares its table; three handlers of the caches (handle_writeback, handle_read and
-- handle_prefetch) and operate, which calls them; the out-of-order core, which works on the whole
-- machine at once; the prefetchers, which other projects wrote; the trace tools and the rest of the main
-- program, which are input and output.
pub mod Prelude
pub mod MissCache
pub mod Predictor
pub mod FastSet
pub mod PageTable
pub mod Cache
pub mod Dram
