-- ===== src/PageTable.antt =====
-- The page table of src/main.cc: `lg2`, the rotations and `va_to_pa`.
pub mod Draw
pub mod Paired
pub mod Translate
pub mod Address
pub mod Returns
pub mod Run
pub mod Tests
use sandbox_predictor.Prelude.{
  ℕ, zero, suc, ◌+◌, ◌-◌, ◌*◌, ◌/◌, ◌%◌, ◌^◌, Bool, true, false, ◌||◌, Option, none, some, List, [],
  ◌∷◌, ◌++◌, ltb, leb, ◌==◌, if◌then◌else◌, get_or, set,
}
use sandbox_predictor.Prelude.Word.{u32, u64, increment}
use sandbox_predictor.Prelude.Int.{ℤ, pos, negsuc, pos_part, ◌+ℤ◌}
use sandbox_predictor.Prelude.Map.{Map, find, insert, erase, assign}
use Prim.Native.Nat.{bit_and, bit_or}

-- `for (i=0; m; i++) { m /= 2; c++; }`; an int is empty after 31 rounds
unfoldable pub lg2_loop : ℕ → ℕ → ℤ → ℤ
lg2_loop zero m c = c
lg2_loop (suc fuel) m c =
    let rest = lg2_loop fuel (m / 2) (c +ℤ pos 1) in if m == 0 then c else rest

unfoldable pub lg2 : ℕ → ℤ
unfolding lg2_loop
lg2 n = lg2_loop 32 n (negsuc 0)

-- `none` is the failed assertion on the distance; `-c` is an unsigned int.
unfoldable pub rotl64 : ℕ → ℕ → Option ℕ
rotl64 n c =
    if leb c 63
    then some (bit_or (u64 (n * 2 ^ bit_and c 63)) (n / 2 ^ bit_and (u32 (2 ^ 32 - c)) 63))
    else none

unfoldable pub rotr64 : ℕ → ℕ → Option ℕ
rotr64 n c =
    if leb c 63
    then some (bit_or (n / 2 ^ bit_and c 63) (u64 (n * 2 ^ bit_and (u32 (2 ^ 32 - c)) 63)))
    else none

-- NUM_CPUS, DRAM_PAGES and the latencies that main sets
pub record Config : Type 0 where
  pub num_cpus : ℕ
  pub dram_pages : ℕ
  pub page_table_latency : ℕ  -- uint32_t
  pub swap_latency : ℕ  -- uint32_t

-- The global variables of the page table. `drawn` counts the calls of `champsim_rand.draw_rand()`.
pub record Vmem : Type 0 where
  pub page_table : Map
  pub inverse_table : Map
  pub recent_page : Map
  pub page_queue : List ℕ
  pub previous_ppage : ℕ  -- uint64_t
  pub num_adjacent_page : ℕ  -- uint64_t
  pub allocated_pages : ℕ  -- uint64_t
  pub unique_cl : List Map
  pub num_cl : List ℕ
  pub num_page : List ℕ
  pub minor_fault : List ℕ
  pub major_fault : List ℕ
  pub stall_cycle : List ℕ
  pub drawn : ℕ

-- the calls of `invalidate_entry`, by the cache that is told
pub data Invalidation : Type 0 where
  itlb : ℕ → Invalidation
  dtlb : ℕ → Invalidation
  stlb : ℕ → Invalidation
  l1i : ℕ → Invalidation
  l1d : ℕ → Invalidation
  l2c : ℕ → Invalidation
  llc : ℕ → Invalidation

-- the footprint in cache lines
unfoldable pub touch_line : Vmem → ℕ → ℕ → Vmem
touch_line vm cpu line =
    let lines = get_or vm.unique_cl cpu [] in
    elim (find line lines) [
      | none ↦ record vm {
        unique_cl = set vm.unique_cl cpu (insert line 0 lines);
        num_cl = increment vm.num_cl cpu;
      }
      | some n ↦ record vm { unique_cl = set vm.unique_cl cpu (assign line (u64 (n + 1)) lines) }
    ]

-- the first entry of the page table, in the order of the keys, that was not used recently
unfoldable pub nru_page : Map → Map → Option (ℕ × ℕ)
nru_page [] recent = none
nru_page ((vpage, ppage) ∷ m) recent =
    let rest = nru_page m recent in
    elim (find vpage recent) [ none ↦ some (vpage, ppage) | some _ ↦ rest ]

-- the loop over the lines of a page, `rounds` more from number `i`
unfoldable pub flush_lines : ℕ → ℕ → ℕ → List Invalidation
flush_lines ppage zero i = []
flush_lines ppage (suc rounds) i =
    let line = bit_or (u64 (ppage * 64)) i in
    l1i line ∷ l1d line ∷ l2c line ∷ llc line ∷ flush_lines ppage rounds (i + 1)

-- `queue::pop`
abbrev pub pop : List ℕ → List ℕ
pop [] = []
pop (x ∷ xs) = xs

-- The branch for a full memory: the page of another address is taken over. `none` is a failed
-- assertion.
unfoldable pub swap : Vmem → ℕ → Option (Vmem × List Invalidation)
unfolding nru_page flush_lines
swap vm vpage = elim (nru_page vm.page_table vm.recent_page) [
  | none ↦ none
  | some (nru_vpage, mapped_ppage) ↦ elim (find mapped_ppage vm.inverse_table) [
    | none ↦ none
    | some _ ↦ some (
      record vm {
        page_table = insert vpage mapped_ppage (erase nru_vpage vm.page_table);
        inverse_table = assign mapped_ppage vpage vm.inverse_table;
        page_queue = pop vm.page_queue ++ (vpage ∷ []);
      },
      itlb nru_vpage ∷ dtlb nru_vpage ∷ stlb nru_vpage ∷ flush_lines mapped_ppage 64 0,
    )
  ]
]

-- The `while (1)` over random pages, with a bound on its rounds: the page, the numbers drawn and
-- whether the run of adjacent pages ends. `draws k` is the result of call number `k` of `draw_rand`.
unfoldable pub find_empty : (ℕ → ℕ) → Map → ℕ → ℕ → ℕ → ℕ → Bool → Option (ℕ × ℕ × Bool)
find_empty draws inverse adjacent zero ppage drawn fragmented = none
find_empty draws inverse adjacent (suc fuel) ppage drawn fragmented =
    let again =
      find_empty draws inverse adjacent fuel (draws drawn) (drawn + 1)
        (ltb 0 adjacent || fragmented) in
    elim (find ppage inverse) [ none ↦ some (ppage, drawn, fragmented) | some _ ↦ again ]

-- The branch for a memory with room. `rand` is the result of `rand()`.
unfoldable pub allocate : (ℕ → ℕ) → ℕ → ℕ → Vmem → ℕ → ℕ → Option Vmem
unfolding find_empty
allocate draws rand fuel vm cpu vpage =
    let adjacent = ltb 0 vm.num_adjacent_page in
    let first = if adjacent then u64 (vm.previous_ppage + 1) else draws vm.drawn in
    let drawn = if adjacent then vm.drawn else vm.drawn + 1 in
    let found =
      find_empty draws vm.inverse_table vm.num_adjacent_page fuel first drawn
        (if adjacent then false else true) in
    elim found [
      | none ↦ none
      | some (ppage, drawn', fragmented) ↦ some (record vm {
        page_table = insert vpage ppage vm.page_table;
        inverse_table = insert ppage vpage vm.inverse_table;
        page_queue = vm.page_queue ++ (vpage ∷ []);
        previous_ppage = ppage;
        num_adjacent_page =
            if fragmented then 2 ^ (rand % 10) else u64 (vm.num_adjacent_page + (2 ^ 64 - 1));
        num_page = increment vm.num_page cpu;
        allocated_pages = u64 (vm.allocated_pages + 1);
        drawn = drawn';
      })
    ]

-- what a lookup that misses does, and whether it swapped
unfoldable pub fault :
    Config → (ℕ → ℕ) → ℕ → ℕ → Vmem → ℕ → ℕ → Option (Vmem × Bool × List Invalidation)
unfolding swap allocate
fault c draws rand fuel vm cpu vpage =
    if leb c.dram_pages vm.allocated_pages
    then elim (swap vm vpage) [
      | none ↦ none
      | some (vm', told) ↦
          some (record vm' { major_fault = increment vm'.major_fault cpu }, true, told)
    ]
    else elim (allocate draws rand fuel vm cpu vpage) [
      | none ↦ none
      | some vm' ↦ some (record vm' { minor_fault = increment vm'.minor_fault cpu }, false, [])
    ]

unfoldable pub translate :
    Config → (ℕ → ℕ) → ℕ → ℕ → Vmem → ℕ → ℕ → Option (Vmem × Bool × List Invalidation)
unfolding fault
translate c draws rand fuel vm cpu vpage = elim (find vpage vm.page_table) [
  | some _ ↦ some (vm, false, [])
  | none ↦ fault c draws rand fuel vm cpu vpage
]

-- The lookup after the fault, the physical address and the cycles that data accesses pay. `now` is
-- `current_core_cycle[cpu]`.
unfoldable pub finish :
    Config
    → ℕ
    → ℕ
    → ℕ
    → ℕ
    → Bool
    → Vmem × Bool × List Invalidation
    → Option (ℕ × Vmem × List Invalidation)
finish c now cpu vpage voffset is_code (vm, swapped, told) = elim (find vpage vm.page_table) [
  | none ↦ none
  | some ppage ↦
      let stall = u64 (now + (if swapped then c.swap_latency else c.page_table_latency)) in
      some (
        bit_or (u64 (ppage * 2 ^ 12)) voffset,
        (if is_code then vm else record vm { stall_cycle = set vm.stall_cycle cpu stall }),
        told,
      )
]

-- The physical address, the new state and the caches that were told. `none` is a failed assertion,
-- or a search for an empty page that takes more than `fuel` rounds.
unfoldable pub va_to_pa :
    Config → (ℕ → ℕ) → ℕ → ℕ → Vmem → ℕ → ℕ → ℕ → ℕ → Bool → Option (ℕ × Vmem × List Invalidation)
unfolding lg2 rotr64 touch_line translate finish
va_to_pa c draws rand fuel vm now cpu va unique_vpage is_code =
    if va == 0 then none else elim (rotr64 cpu (pos_part (lg2 c.num_cpus))) [
      | none ↦ none
      | some high_bit_mask ↦
          let unique_va = bit_or va high_bit_mask in
          let vpage = bit_or unique_vpage high_bit_mask in
          let voffset = bit_and unique_va (2 ^ 12 - 1) in
          let touched = touch_line vm cpu (unique_va / 2 ^ 6) in
          elim (translate c draws rand fuel touched cpu vpage) [
            | none ↦ none
            | some result ↦ finish c now cpu vpage voffset is_code result
          ]
    ]
