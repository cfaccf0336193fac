-- ===== src/PageTable/Address.antt =====
-- The address that `va_to_pa` returns, by the tables that it leaves.
use sandbox_predictor.Prelude.{
  ℕ, ◌+◌, ◌-◌, ◌*◌, ◌/◌, ◌%◌, ◌^◌, ◌<◌, ◌≡◌, ◌≢◌, refl, sym, ◌∙◌, Bool, false, some, List, arith,
  ◌==◌, inl, inr, Option-cases,
}
use mathlib.Core.Option.{Option}
use Prim.Native.Nat.{bit_and, bit_or}
use sandbox_predictor.Prelude.Bits.{bit_and-ones}
use sandbox_predictor.Prelude.Digits.{bit_or_disjoint}
use sandbox_predictor.Prelude.Word.{u64}
use sandbox_predictor.Prelude.Int.{pos_part}
use sandbox_predictor.Prelude.Map.{find}
use sandbox_predictor.PageTable.{
  Config, Vmem, Invalidation, touch_line, translate, finish, va_to_pa, rotr64, lg2,
}
use sandbox_predictor.PageTable.Translate.{Paired, touch_line-tables, translate-Maps}

-- the mask of a core
abbrev pub core_mask : Config → ℕ → Option ℕ
core_mask c cpu = rotr64 cpu (pos_part (lg2 c.num_cpus))

-- the page and the address that `va_to_pa` returns, and the tables after it
pub record Translates (c : Config) (cpu va unique_vpage : ℕ) (vm : Vmem) (pa : ℕ) (vm' : Vmem)
    : Type 0 where
  pub nonzero : va ≢ 0
  pub mask : ℕ
  pub masked : core_mask c cpu ≡ some mask
  pub page : ℕ
  pub mapped : find (bit_or unique_vpage mask) vm'.page_table ≡ some page
  pub address : pa ≡ page % 2 ^ 52 * 2 ^ 12 + bit_or va mask % 2 ^ 12
  pub paired : Paired vm'
  pub kept :
      vm.allocated_pages < c.dram_pages
      → (w q : ℕ) → find w vm.page_table ≡ some q
      → find w vm'.page_table ≡ some q

module _ (c : Config) (draws : ℕ → ℕ) (rand fuel : ℕ) (vm : Vmem) (now cpu va unique_vpage : ℕ)
    (is_code : Bool) {mask : ℕ} (m : core_mask c cpu ≡ some mask) where
  abbrev pub vpage_of : ℕ
  vpage_of = bit_or unique_vpage mask

  abbrev pub offset_of : ℕ
  offset_of = bit_and (bit_or va mask) (2 ^ 12 - 1)

  abbrev pub touched : Vmem
  touched = touch_line vm cpu (bit_or va mask / 2 ^ 6)

  -- a translation whose page is found
  pub step :
      {r : Vmem × Bool × List Invalidation}
      → va ≢ 0
      → translate c draws rand fuel touched cpu vpage_of ≡ some r
      → va_to_pa c draws rand fuel vm now cpu va unique_vpage is_code
        ≡ finish c now cpu vpage_of offset_of is_code r
  unfolding va_to_pa
  step nz t = let z : (va == 0) ≡ false = ground arith in rw (z, va_to_pa) (rw m (rw t (refl)))

-- the end of a translation
pub finish-tables :
    (c : Config) (now cpu vpage voffset : ℕ) (is_code : Bool) (vm1 : Vmem) (swapped : Bool)
    (told1 : List Invalidation) {pa : ℕ} {vm' : Vmem} {told : List Invalidation} {p : ℕ}
    → find vpage vm1.page_table ≡ some p
    → finish c now cpu vpage voffset is_code (vm1, swapped, told1) ≡ some (pa, vm', told)
    → (pa ≡ bit_or (u64 (p * 2 ^ 12)) voffset)
      × (vm'.page_table ≡ vm1.page_table)
      × (vm'.inverse_table ≡ vm1.inverse_table)
      × (told ≡ told1)
unfolding finish
finish-tables c now cpu vpage voffset is_code vm1 swapped told1 f e = ground arith

pub finish-returns :
    (c : Config) (now cpu vpage voffset : ℕ) (is_code : Bool) (vm1 : Vmem) (swapped : Bool)
    (told1 : List Invalidation) {p : ℕ}
    → find vpage vm1.page_table ≡ some p
    → (r : ℕ × Vmem × List Invalidation) × (finish c now cpu vpage voffset is_code
          (vm1, swapped, told1)
        ≡ some r)
unfolding finish
finish-returns c now cpu vpage voffset is_code vm1 swapped told1 f =
    elim (Option-cases (finish c now cpu vpage voffset is_code (vm1, swapped, told1))) [
      | inl n ↦ absurd (ground arith)
      | inr r ↦ r
    ]

pub address_lem :
    (p x : ℕ)
    → bit_or (u64 (p * 2 ^ 12)) (bit_and x (2 ^ 12 - 1)) ≡ p % 2 ^ 52 * 2 ^ 12 + x % 2 ^ 12
address_lem p x =
    let e : u64 (p * 2 ^ 12) ≡ p % 2 ^ 52 * 2 ^ 12 = omega arith in
    rw (e, bit_and-ones 12 x) (bit_or_disjoint 12 (p % 2 ^ 52) (x % 2 ^ 12) (omega arith))

-- A translation that returns gives the address in the page that the table has for it afterwards, with
-- the offset of the virtual address; the two tables stay inverse to each other; and while the memory
-- is not full every other page stays where it was.
pub va_to_pa-Translates :
    (c : Config) (draws : ℕ → ℕ) (rand fuel : ℕ) (vm : Vmem) (now cpu va unique_vpage : ℕ)
    (is_code : Bool) {pa : ℕ} {vm' : Vmem} {told : List Invalidation}
    → Paired vm
    → va_to_pa c draws rand fuel vm now cpu va unique_vpage is_code ≡ some (pa, vm', told)
    → Translates c cpu va unique_vpage vm pa vm'
unfolding va_to_pa finish
va_to_pa-Translates c draws rand fuel vm now cpu va unique_vpage is_code {pa} {vm'} {told} h e =
    elim (Option-cases (core_mask c cpu)) [
      | inl q ↦ absurd (ground arith)
      | inr (mask, m) ↦
          let nz : va ≢ 0 = λ (z : va ≡ 0). ground arith in
          let (pt, it, rp, al, dr) = touch_line-tables vm cpu (bit_or va mask / 2 ^ 6) in
          elim (Option-cases (
            translate c draws rand fuel (touch_line vm cpu (bit_or va mask / 2 ^ 6)) cpu
              (bit_or unique_vpage mask))) [
                | inl q ↦ absurd (ground arith)
                | inr ((vm1, swapped, told1), q) ↦
                    let t =
                      translate-Maps c draws rand fuel (touch_line vm cpu (bit_or va mask / 2 ^ 6))
                        cpu (bit_or unique_vpage mask) (rw (pt, it) h) q in
                    let (p, found) = t.mapped in
                    let (address, pt', it', told') =
                      finish-tables c now cpu (bit_or unique_vpage mask)
                        (bit_and (bit_or va mask) (2 ^ 12 - 1)) is_code vm1 swapped told1 found
                        (sym (step c draws rand fuel vm now cpu va unique_vpage is_code m nz q)
                          ∙ e) in
                    record {
                      nonzero = nz;
                      mask = mask;
                      masked = m;
                      page = p;
                      mapped = rw pt' found;
                      address = address ∙ address_lem p (bit_or va mask);
                      paired = rw (pt', it') t.paired;
                      kept = λ room w r g. rw pt' (t.kept (ground arith) w r (rw pt g));
                    }
              ]
    ]
