-- ===== src/PageTable/Tests.antt =====
-- Runs of the page table.
use sandbox_predictor.Prelude.{
  ℕ, ◌+◌, ◌≡◌, ◌≢◌, refl, true, false, some, List, [], ◌∷◌, arith, inl, inr, ◌^◌,
}
use sandbox_predictor.Prelude.Int.{pos, ◌+ℤ◌}
use sandbox_predictor.Prelude.Map.{find, insert}
use sandbox_predictor.PageTable.{Config, Vmem, Invalidation, va_to_pa, lg2, rotr64}
use sandbox_predictor.PageTable.Translate.{Paired}
use sandbox_predictor.PageTable.Address.{Translates, core_mask, va_to_pa-Translates}
use sandbox_predictor.PageTable.Returns.{va_to_pa-returns}
use sandbox_predictor.PageTable.Run.{Reached, start, next, Reached-injective, va_to_pa_again}

-- one core, and a memory of two pages
abbrev config : Config
config = record { num_cpus = 1; dram_pages = 2; page_table_latency = 7; swap_latency = 100 }

abbrev draws : ℕ → ℕ
draws k = 5 + k

abbrev empty : Vmem
empty = record {
  page_table = [];
  inverse_table = [];
  recent_page = [];
  page_queue = [];
  previous_ppage = 0;
  num_adjacent_page = 0;
  allocated_pages = 0;
  unique_cl = [] ∷ [];
  num_cl = 0 ∷ [];
  num_page = 0 ∷ [];
  minor_fault = 0 ∷ [];
  major_fault = 0 ∷ [];
  stall_cycle = 0 ∷ [];
  drawn = 0;
}

-- after address 0x3010, on page 3
abbrev one : Vmem
one = record empty {
  page_table = (3, 5) ∷ [];
  inverse_table = (5, 3) ∷ [];
  page_queue = 3 ∷ [];
  previous_ppage = 5;
  num_adjacent_page = 4;
  allocated_pages = 1;
  unique_cl = ((192, 0) ∷ []) ∷ [];
  num_cl = 1 ∷ [];
  num_page = 1 ∷ [];
  minor_fault = 1 ∷ [];
  stall_cycle = 17 ∷ [];
  drawn = 1;
}

log : lg2 48 ≡ pos 5
unfolding lg2 ◌+ℤ◌
log = refl

rotated : rotr64 5 1 ≡ some (2 ^ 63 + 2)
unfolding rotr64
rotated = refl

first_run : va_to_pa config draws 2 9 empty 10 0 12304 3 false ≡ some (20496, one, [])
unfolding va_to_pa ◌+ℤ◌ find insert
first_run = refl

empty-Paired : Paired empty
unfolding find
empty-Paired = record { forth = λ v p e. absurd (cc); back = λ v p e. absurd (cc) }

va_to_pa-Translates_example : Translates config 0 12304 3 empty 20496 one
va_to_pa-Translates_example =
    va_to_pa-Translates config draws 2 9 empty 10 0 12304 3 false empty-Paired first_run

va_to_pa_again_example :
    (vm : Vmem) × (va_to_pa config draws 0 0 one 11 0 12304 3 true ≡ some (20496, vm, []))
    × (vm.page_table ≡ (3, 5) ∷ [])
    × (vm.inverse_table ≡ (5, 3) ∷ [])
va_to_pa_again_example =
    va_to_pa_again config draws draws 2 0 9 0 empty 10 11 0 12304 3 false true empty-Paired
      first_run

nonzero : ◌≢◌ {A = ℕ} 12304 0
nonzero e = omega arith

mask_of : core_mask config 0 ≡ some 0
unfolding lg2 rotr64 ◌+ℤ◌
mask_of = refl

va_to_pa-returns_example :
    (r : ℕ × Vmem × List Invalidation) × (va_to_pa config draws 2 9 empty 10 0 12304 3 false
      ≡ some r)
unfolding find
va_to_pa-returns_example =
    va_to_pa-returns config draws 2 9 empty 10 0 12304 3 false empty-Paired nonzero mask_of
      (inr (inl (omega arith, (4, refl, omega arith))))

one-Reached : Reached config draws one
one-Reached = next 2 9 10 0 12304 3 false (start {vm = empty} refl refl) first_run

Reached-injective_example : ◌≡◌ {A = ℕ} 3 3
unfolding find
Reached-injective_example = Reached-injective config draws 3 3 5 one-Reached refl refl
