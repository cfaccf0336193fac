-- ===== src/PageTable/Returns.antt =====
-- When `va_to_pa` returns.
use sandbox_predictor.Prelude.{
  ℕ, zero, suc, ◌+◌, ◌-◌, ◌/◌, ◌^◌, ◌≤◌, ◌<◌, ◌≡◌, ◌≢◌, ◌⊎◌, sym, ap, ◌∙◌, Bool, true, false, none,
  some, List, arith, ltb, inl, inr, Bool-cases, Option-cases,
}
use Prim.Native.Nat.{bit_and, bit_or}
use sandbox_predictor.Prelude.Word.{u64}
use sandbox_predictor.Prelude.Map.{Map, find}
use sandbox_predictor.PageTable.{
  Config, Vmem, Invalidation, touch_line, nru_page, swap, allocate, fault, translate, va_to_pa,
}
use sandbox_predictor.PageTable.Draw.{Ends, find_empty-ends, find_empty-starts}
use sandbox_predictor.PageTable.Paired.{nru_page-mapped}
use sandbox_predictor.PageTable.Translate.{Paired, touch_line-tables, translate-Maps}
use sandbox_predictor.PageTable.Address.{core_mask, step, finish-returns}

-- What a translation needs to return: its page is mapped, or there is room and a free page among the
-- random numbers that the rounds reach, or the memory is full and a page was not used recently.
abbrev pub Served : Config → (ℕ → ℕ) → ℕ → Vmem → ℕ → Type 0
Served c draws fuel vm vpage =
    ((p : ℕ) × (find vpage vm.page_table ≡ some p))
    ⊎ ((vm.allocated_pages < c.dram_pages)
        × ((k : ℕ) × (find (draws (vm.drawn + k)) vm.inverse_table ≡ none) × (k + 3 ≤ fuel)))
    ⊎ ((c.dram_pages ≤ vm.allocated_pages)
        × ((v : ℕ) × (p : ℕ) × (nru_page vm.page_table vm.recent_page ≡ some (v, p))))

-- the search of a page with room returns
draws_one :
    (draws : ℕ → ℕ) (inverse : Map) (adjacent k fuel start : ℕ)
    → find (draws (start + k)) inverse ≡ none
    → k + 3 ≤ fuel
    → Ends draws inverse adjacent fuel (draws start) (start + 1) true
draws_one draws inverse adjacent zero fuel start free l =
    let e : start + 0 ≡ start = omega arith in
    find_empty-starts draws inverse adjacent fuel (draws start) (start + 1) true
      (ap (λ t. find (draws t) inverse) (sym e) ∙ free) (omega arith)
draws_one draws inverse adjacent (suc k) fuel start free l =
    let e : start + suc k ≡ start + 1 + k = omega arith in
    find_empty-ends draws inverse adjacent k fuel (draws start) (start + 1) true
      (ap (λ t. find (draws t) inverse) (sym e) ∙ free) (omega arith)

allocate-returns :
    (draws : ℕ → ℕ) (rand k fuel : ℕ) (vm : Vmem) (cpu vpage : ℕ)
    → find (draws (vm.drawn + k)) vm.inverse_table ≡ none
    → k + 3 ≤ fuel
    → (vm' : Vmem) × (allocate draws rand fuel vm cpu vpage ≡ some vm')
unfolding allocate
allocate-returns draws rand k fuel vm cpu vpage free l =
    elim (Option-cases (allocate draws rand fuel vm cpu vpage)) [
      | inr r ↦ r
      | inl n ↦ elim (Bool-cases (ltb 0 vm.num_adjacent_page)) [
        | inl t ↦
            let (p, d, f, e) =
              find_empty-ends draws vm.inverse_table vm.num_adjacent_page k fuel
                (u64 (vm.previous_ppage + 1)) vm.drawn false free (omega arith) in
            absurd (ground arith)
        | inr t ↦
            let (p, d, f, e) =
              draws_one draws vm.inverse_table vm.num_adjacent_page k fuel vm.drawn free l in
            absurd (ground arith)
      ]
    ]

translate-returns :
    (c : Config) (draws : ℕ → ℕ) (rand fuel : ℕ) (vm : Vmem) (cpu vpage : ℕ)
    → Paired vm
    → Served c draws fuel vm vpage
    → (r : Vmem × Bool × List Invalidation) × (translate c draws rand fuel vm cpu vpage ≡ some r)
unfolding translate fault swap
translate-returns c draws rand fuel vm cpu vpage h s =
    elim (Option-cases (translate c draws rand fuel vm cpu vpage)) [
      | inr r ↦ r
      | inl n ↦ elim (Option-cases (find vpage vm.page_table)) [
        | inr (p, f) ↦ absurd (ground arith)
        | inl new ↦ elim s [
          | inl (p, f) ↦ absurd (ground arith)
          | inr o ↦ elim o [
            | inl (room, (k, free, l)) ↦
                let (vm', e) = allocate-returns draws rand k fuel vm cpu vpage free l in
                absurd (ground arith)
            | inr (full, (v, p, e)) ↦
                let there = h.forth v p (nru_page-mapped vm.page_table vm.recent_page e) in
                absurd (ground arith)
          ]
        ]
      ]
    ]

-- A translation of an address other than 0 by a core that has a mask returns, where its page is
-- mapped, or there is room and an empty page among the random numbers that the rounds reach, or the
-- memory is full and some page was not used recently.
pub va_to_pa-returns :
    (c : Config) (draws : ℕ → ℕ) (rand fuel : ℕ) (vm : Vmem) (now cpu va unique_vpage : ℕ)
    (is_code : Bool) {mask : ℕ}
    → Paired vm
    → va ≢ 0
    → core_mask c cpu ≡ some mask
    → Served c draws fuel vm (bit_or unique_vpage mask)
    → (r : ℕ × Vmem × List Invalidation) × (va_to_pa c draws rand fuel vm now cpu va unique_vpage
          is_code
        ≡ some r)
va_to_pa-returns c draws rand fuel vm now cpu va unique_vpage is_code {mask} h nz m s =
    let t = touch_line vm cpu (bit_or va mask / 2 ^ 6) in
    let (pt, it, rp, al, dr) = touch_line-tables vm cpu (bit_or va mask / 2 ^ 6) in
    let h' : Paired (touch_line vm cpu (bit_or va mask / 2 ^ 6)) = rw (pt, it) h in
    let s' : Served c draws fuel (touch_line vm cpu (bit_or va mask / 2 ^ 6))
        (bit_or unique_vpage mask) =
      rw (pt, it, rp, al, dr) s in
    let ((vm1, swapped, told1), q) =
      translate-returns c draws rand fuel (touch_line vm cpu (bit_or va mask / 2 ^ 6)) cpu
        (bit_or unique_vpage mask) h' s' in
    let (p, found) =
      (translate-Maps c draws rand fuel (touch_line vm cpu (bit_or va mask / 2 ^ 6)) cpu
        (bit_or unique_vpage mask) h' q).mapped in
    let (r, e) =
      finish-returns c now cpu (bit_or unique_vpage mask) (bit_and (bit_or va mask) (2 ^ 12 - 1))
        is_code vm1 swapped told1 found in
    (r, step c draws rand fuel vm now cpu va unique_vpage is_code m nz q ∙ e)
