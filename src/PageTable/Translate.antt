-- ===== src/PageTable/Translate.antt =====
-- `va_to_pa` keeps the tables inverse to each other, and translates by them.
use sandbox_predictor.Prelude.{
  ℕ, ◌+◌, ◌≡◌, ap, ◌∙◌, Bool, true, false, none, some, List, arith, ltb, leb, if◌then◌else◌, inl,
  inr, Bool-cases, Option-cases,
}
use sandbox_predictor.Prelude.Word.{u64}
use sandbox_predictor.Prelude.Map.{find, insert, erase, assign, find-insert}
use sandbox_predictor.PageTable.{
  Config, Vmem, Invalidation, touch_line, nru_page, swap, allocate, find_empty, fault, translate,
}
use sandbox_predictor.PageTable.Draw.{find_empty-empty}
use sandbox_predictor.PageTable.Paired.{
  IsPaired, insert-IsPaired, taken-IsPaired, pages', inverse', pages'_lem, nru_page-mapped,
}

-- the tables of a state are inverse to each other
abbrev pub Paired : Vmem → Type 0
Paired vm = IsPaired vm.page_table vm.inverse_table

pub touch_line-tables :
    (vm : Vmem) (cpu line : ℕ)
    → ((touch_line vm cpu line).page_table ≡ vm.page_table)
      × ((touch_line vm cpu line).inverse_table ≡ vm.inverse_table)
      × ((touch_line vm cpu line).recent_page ≡ vm.recent_page)
      × ((touch_line vm cpu line).allocated_pages ≡ vm.allocated_pages)
      × ((touch_line vm cpu line).drawn ≡ vm.drawn)
unfolding touch_line
touch_line-tables vm cpu line = ground arith

-- what a fault makes of the tables: the page is mapped, and each page that was there stays unless
-- the memory is full
pub record Maps (vm : Vmem) (vpage : ℕ) (full : Bool) (vm' : Vmem) : Type 0 where
  pub paired : Paired vm'
  pub mapped : (p : ℕ) × (find vpage vm'.page_table ≡ some p)
  pub kept :
      full ≡ false → (w q : ℕ) → find w vm.page_table ≡ some q → find w vm'.page_table ≡ some q

module _ (vm : Vmem) (vpage : ℕ) (h : Paired vm) (new : find vpage vm.page_table ≡ none) where
  swap-Maps :
      {vm' : Vmem} {told : List Invalidation}
      → swap vm vpage ≡ some (vm', told)
      → Maps vm vpage true vm'
  unfolding swap pages' inverse'
  swap-Maps {vm'} {told} e = elim (Option-cases (nru_page vm.page_table vm.recent_page)) [
    | inl q ↦ absurd (ground arith)
    | inr ((nru, ppage), q) ↦
        let m : find nru vm.page_table ≡ some ppage =
          nru_page-mapped vm.page_table vm.recent_page q in
        let i : find ppage vm.inverse_table ≡ some nru = h.forth nru ppage m in
        let pt : vm'.page_table ≡ insert vpage ppage (erase nru vm.page_table) = ground arith in
        let it : vm'.inverse_table ≡ assign ppage vpage vm.inverse_table = ground arith in
        record {
          paired =
              rw (pt, it) (taken-IsPaired vm.page_table vm.inverse_table vpage nru ppage h new m);
          mapped = (
            ppage,
            rw pt (
                pages'_lem vm.page_table vm.inverse_table vpage nru ppage h new m vpage
                ∙ ground arith),
          );
          kept = λ f. absurd (cc);
        }
  ]

  allocate-Maps :
      (draws : ℕ → ℕ) (rand fuel cpu : ℕ) {vm' : Vmem}
      → allocate draws rand fuel vm cpu vpage ≡ some vm'
      → Maps vm vpage false vm'
  unfolding allocate
  allocate-Maps draws rand fuel cpu {vm'} e =
      let adjacent = ltb 0 vm.num_adjacent_page in
      let first = if adjacent then u64 (vm.previous_ppage + 1) else draws vm.drawn in
      let drawn = if adjacent then vm.drawn else vm.drawn + 1 in
      let broken = if adjacent then false else true in
      elim (Option-cases
        (find_empty draws vm.inverse_table vm.num_adjacent_page fuel first drawn broken)) [
          | inl q ↦ absurd (ground arith)
          | inr ((ppage, d, f), q) ↦
              let free : find ppage vm.inverse_table ≡ none =
                find_empty-empty draws vm.inverse_table vm.num_adjacent_page fuel first drawn broken
                  q in
              let pt : vm'.page_table ≡ insert vpage ppage vm.page_table = ground arith in
              let it : vm'.inverse_table ≡ insert ppage vpage vm.inverse_table = ground arith in
              record {
                paired =
                    rw (pt, it)
                      (insert-IsPaired vm.page_table vm.inverse_table vpage ppage h new free);
                mapped =
                    (ppage, rw pt (find-insert vpage vpage ppage vm.page_table new ∙ ground arith));
                kept = λ s w r g. rw pt (
                    find-insert w vpage ppage vm.page_table new
                    ∙ ground (arith, ap (λ t. find t vm.page_table) {x = vpage} {y = w}));
              }
        ]

-- What `translate` does to the tables, whether it finds the address or not.
pub translate-Maps :
    (c : Config) (draws : ℕ → ℕ) (rand fuel : ℕ) (vm : Vmem) (cpu vpage : ℕ) {vm' : Vmem}
    {swapped : Bool} {told : List Invalidation}
    → Paired vm
    → translate c draws rand fuel vm cpu vpage ≡ some (vm', swapped, told)
    → Maps vm vpage (leb c.dram_pages vm.allocated_pages) vm'
unfolding translate fault
translate-Maps c draws rand fuel vm cpu vpage {vm'} h e =
    elim (Option-cases (find vpage vm.page_table)) [
      | inr (p, q) ↦
          let s : vm ≡ vm' = ground arith in
          rw (← s) (record { paired = h; mapped = (p, q); kept = λ f w r g. g })
      | inl new ↦ elim (Bool-cases (leb c.dram_pages vm.allocated_pages)) [
        | inl full ↦ elim (Option-cases (swap vm vpage)) [
          | inl q ↦ absurd (ground arith)
          | inr ((vm1, told1), q) ↦
              let m = swap-Maps vm vpage h new q in
              let pt : vm'.page_table ≡ vm1.page_table = ground arith in
              let it : vm'.inverse_table ≡ vm1.inverse_table = ground arith in
              rw full (record {
                paired = rw (pt, it) m.paired;
                mapped = rw pt m.mapped;
                kept = λ f. absurd (cc);
              })
        ]
        | inr room ↦ elim (Option-cases (allocate draws rand fuel vm cpu vpage)) [
          | inl q ↦ absurd (ground arith)
          | inr (vm1, q) ↦
              let m = allocate-Maps vm vpage h new draws rand fuel cpu q in
              let pt : vm'.page_table ≡ vm1.page_table = ground arith in
              let it : vm'.inverse_table ≡ vm1.inverse_table = ground arith in
              rw room (record {
                paired = rw (pt, it) m.paired;
                mapped = rw pt m.mapped;
                kept = λ f. rw pt (m.kept f);
              })
        ]
      ]
    ]
