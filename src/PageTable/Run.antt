-- ===== src/PageTable/Run.antt =====
-- Sequences of translations: no two addresses share a page, and a translation can be asked for again.
use sandbox_predictor.Prelude.{
  ℕ, ◌+◌, ◌-◌, ◌*◌, ◌/◌, ◌%◌, ◌^◌, ◌≡◌, ◌≢◌, sym, ◌∙◌, Bool, false, some, List, [], arith,
}
use Prim.Native.Nat.{bit_and, bit_or}
use sandbox_predictor.Prelude.Map.{find}
use sandbox_predictor.PageTable.{Config, Vmem, Invalidation, touch_line, translate, va_to_pa}
use sandbox_predictor.PageTable.Paired.{IsPaired-injective}
use sandbox_predictor.PageTable.Translate.{Paired, touch_line-tables}
use sandbox_predictor.PageTable.Address.{
  core_mask, step, finish-tables, finish-returns, address_lem, va_to_pa-Translates,
}

-- The states that translations lead to from empty tables.
pub data Reached (c : Config) (draws : ℕ → ℕ) : Vmem → Type 0 where
  start : {vm : Vmem} → vm.page_table ≡ [] → vm.inverse_table ≡ [] → Reached c draws vm
  next :
      {vm vm' : Vmem} {pa : ℕ} {told : List Invalidation} (rand fuel now cpu va unique_vpage : ℕ)
      (is_code : Bool)
      → Reached c draws vm
      → va_to_pa c draws rand fuel vm now cpu va unique_vpage is_code ≡ some (pa, vm', told)
      → Reached c draws vm'

Reached-Paired : (c : Config) (draws : ℕ → ℕ) {vm : Vmem} → Reached c draws vm → Paired vm
unfolding find
Reached-Paired c draws (start e f) =
    rw (e, f) (record { forth = λ v p q. absurd (cc); back = λ v p q. absurd (cc) })
Reached-Paired c draws (next {vm} rand fuel now cpu va unique_vpage is_code r e) =
    (va_to_pa-Translates c draws rand fuel vm now cpu va unique_vpage is_code
      (Reached-Paired c draws r) e).paired

-- However the program was translated from empty tables on, swaps included, two virtual pages that are
-- mapped to one physical page are the same.
pub Reached-injective :
    (c : Config) (draws : ℕ → ℕ) {vm : Vmem} (v w p : ℕ)
    → Reached c draws vm
    → find v vm.page_table ≡ some p
    → find w vm.page_table ≡ some p
    → v ≡ w
Reached-injective c draws v w p r a b = IsPaired-injective v w p (Reached-Paired c draws r) a b

translate_found :
    (c : Config) (draws : ℕ → ℕ) (rand fuel : ℕ) (vm : Vmem) (cpu vpage : ℕ) {p : ℕ}
    → find vpage vm.page_table ≡ some p
    → translate c draws rand fuel vm cpu vpage ≡ some (vm, false, [])
unfolding translate
translate_found c draws rand fuel vm cpu vpage e = rw (e, translate)

again :
    (c : Config) (draws : ℕ → ℕ) (rand fuel : ℕ) (vm : Vmem) (now cpu va unique_vpage : ℕ)
    (is_code : Bool) {pa mask p : ℕ}
    → va ≢ 0
    → core_mask c cpu ≡ some mask
    → find (bit_or unique_vpage mask) vm.page_table ≡ some p
    → pa ≡ p % 2 ^ 52 * 2 ^ 12 + bit_or va mask % 2 ^ 12
    → (vm2 : Vmem) × (va_to_pa c draws rand fuel vm now cpu va unique_vpage is_code
        ≡ some (pa, vm2, []))
      × (vm2.page_table ≡ vm.page_table)
      × (vm2.inverse_table ≡ vm.inverse_table)
again c draws rand fuel vm now cpu va unique_vpage is_code {pa} {mask} {p} nz m mapped address =
    let (pt, it, rp, al, dr) = touch_line-tables vm cpu (bit_or va mask / 2 ^ 6) in
    let touched : Vmem = touch_line vm cpu (bit_or va mask / 2 ^ 6) in
    let found : find (bit_or unique_vpage mask) touched.page_table ≡ some p = rw pt mapped in
    let ((pa2, vm2, told2), f) =
      finish-returns c now cpu (bit_or unique_vpage mask) (bit_and (bit_or va mask) (2 ^ 12 - 1))
        is_code touched false [] found in
    let (a, b, d, n) =
      finish-tables c now cpu (bit_or unique_vpage mask) (bit_and (bit_or va mask) (2 ^ 12 - 1))
        is_code touched false [] found f in
    let same : pa2 ≡ pa = a ∙ address_lem p (bit_or va mask) ∙ sym address in
    (
      vm2,
      step c draws rand fuel vm now cpu va unique_vpage is_code m nz
            (translate_found c draws rand fuel touched cpu (bit_or unique_vpage mask) found)
          ∙ f
          ∙ ground (arith, same, n),
      b ∙ pt,
      d ∙ it,
    )

-- A translation that returns can be asked for again, with other random numbers and at another cycle:
-- the answer is the same address, the tables stay, and no cache is told anything.
pub va_to_pa_again :
    (c : Config) (draws draws' : ℕ → ℕ) (rand rand' fuel fuel' : ℕ) (vm : Vmem)
    (now now' cpu va unique_vpage : ℕ) (is_code is_code' : Bool) {pa : ℕ} {vm' : Vmem}
    {told : List Invalidation}
    → Paired vm
    → va_to_pa c draws rand fuel vm now cpu va unique_vpage is_code ≡ some (pa, vm', told)
    → (vm2 : Vmem) × (va_to_pa c draws' rand' fuel' vm' now' cpu va unique_vpage is_code'
        ≡ some (pa, vm2, []))
      × (vm2.page_table ≡ vm'.page_table)
      × (vm2.inverse_table ≡ vm'.inverse_table)
va_to_pa_again c draws draws' rand rand' fuel fuel' vm now now' cpu va unique_vpage is_code is_code'
      {pa} {vm'} h e =
    let t = va_to_pa-Translates c draws rand fuel vm now cpu va unique_vpage is_code h e in
    again c draws' rand' fuel' vm' now' cpu va unique_vpage is_code' t.nonzero t.masked t.mapped
      t.address
