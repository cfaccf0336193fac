-- ===== src/PageTable/Draw.antt =====
-- The search for an empty physical page ends once an empty page is drawn.
use sandbox_predictor.Prelude.{
  ℕ, zero, suc, ◌+◌, ◌≤◌, ◌≡◌, sym, ap, ◌∙◌, Bool, ◌||◌, none, some, arith, ltb, inl, inr,
  Option-cases,
}
use sandbox_predictor.Prelude.Map.{Map, find}
use sandbox_predictor.PageTable.{find_empty}

-- A page that the search returns is empty.
pub find_empty-empty :
    (draws : ℕ → ℕ) (inverse : Map) (adjacent fuel ppage drawn : ℕ) (fragmented : Bool) {p d : ℕ}
    {f : Bool}
    → find_empty draws inverse adjacent fuel ppage drawn fragmented ≡ some (p, d, f)
    → find p inverse ≡ none
unfolding find_empty
find_empty-empty draws inverse adjacent zero ppage drawn fragmented h = absurd (cc)
find_empty-empty draws inverse adjacent (suc fuel) ppage drawn fragmented {p} {d} {f} h =
    elim (Option-cases (find ppage inverse)) [
      | inl e ↦ let s : ppage ≡ p = ground arith in ap (λ t. find t inverse) (sym s) ∙ e
      | inr (v, e) ↦
          find_empty-empty draws inverse adjacent fuel (draws drawn) (drawn + 1)
            (ltb 0 adjacent || fragmented) {p = p} {d = d} {f = f} (ground arith)
    ]

-- the end of the search, and one more round
here :
    (draws : ℕ → ℕ) (inverse : Map) (adjacent fuel ppage drawn : ℕ) (fragmented : Bool)
    → find ppage inverse ≡ none
    → find_empty draws inverse adjacent (suc fuel) ppage drawn fragmented
      ≡ some (ppage, drawn, fragmented)
unfolding find_empty
here draws inverse adjacent fuel ppage drawn fragmented e = rw (e, find_empty)

again :
    (draws : ℕ → ℕ) (inverse : Map) (adjacent fuel ppage drawn : ℕ) (fragmented : Bool) {v : ℕ}
    → find ppage inverse ≡ some v
    → find_empty draws inverse adjacent (suc fuel) ppage drawn fragmented
      ≡ find_empty draws inverse adjacent fuel
          (draws drawn)
          (drawn + 1)
          (ltb 0 adjacent || fragmented)
unfolding find_empty
again draws inverse adjacent fuel ppage drawn fragmented e = rw (e, find_empty)

-- the search ends with a page
abbrev pub Ends : (ℕ → ℕ) → Map → ℕ → ℕ → ℕ → ℕ → Bool → Type 0
Ends draws inverse adjacent fuel ppage drawn fragmented =
    (p : ℕ) × (d : ℕ) × (f : Bool) × (find_empty draws inverse adjacent fuel ppage drawn fragmented
      ≡ some (p, d, f))

one_more :
    (draws : ℕ → ℕ) (inverse : Map) (adjacent fuel ppage drawn : ℕ) (fragmented : Bool)
    → Ends draws inverse adjacent fuel (draws drawn) (drawn + 1) (ltb 0 adjacent || fragmented)
    → Ends draws inverse adjacent (suc fuel) ppage drawn fragmented
one_more draws inverse adjacent fuel ppage drawn fragmented (p, d, f, h) =
    elim (Option-cases (find ppage inverse)) [
      | inl e ↦
          (ppage, drawn, fragmented, here draws inverse adjacent fuel ppage drawn fragmented e)
      | inr (v, e) ↦ (p, d, f, again draws inverse adjacent fuel ppage drawn fragmented e ∙ h)
    ]

-- a search from an empty page
pub find_empty-starts :
    (draws : ℕ → ℕ) (inverse : Map) (adjacent fuel ppage drawn : ℕ) (fragmented : Bool)
    → find ppage inverse ≡ none
    → 1 ≤ fuel
    → Ends draws inverse adjacent fuel ppage drawn fragmented
find_empty-starts draws inverse adjacent zero ppage drawn fragmented e l = absurd (omega arith)
find_empty-starts draws inverse adjacent (suc fuel) ppage drawn fragmented e l =
    (ppage, drawn, fragmented, here draws inverse adjacent fuel ppage drawn fragmented e)

-- The search for an empty page ends: if the random number that is drawn after `k` others is an empty
-- page, `k + 2` rounds are enough, whatever page it starts with.
pub find_empty-ends :
    (draws : ℕ → ℕ) (inverse : Map) (adjacent k fuel ppage drawn : ℕ) (fragmented : Bool)
    → find (draws (drawn + k)) inverse ≡ none
    → k + 2 ≤ fuel
    → (p : ℕ) × (d : ℕ) × (f : Bool) × (find_empty draws inverse adjacent fuel ppage drawn
          fragmented
        ≡ some (p, d, f))
find_empty-ends draws inverse adjacent k zero ppage drawn fragmented h l = absurd (omega arith)
find_empty-ends draws inverse adjacent k (suc zero) ppage drawn fragmented h l =
    absurd (omega arith)
find_empty-ends draws inverse adjacent zero (suc (suc fuel)) ppage drawn fragmented h l =
    let e : drawn + 0 ≡ drawn = omega arith in
    one_more draws inverse adjacent (suc fuel) ppage drawn fragmented (
      draws drawn,
      drawn + 1,
      (ltb 0 adjacent || fragmented),
      here draws inverse adjacent fuel (draws drawn) (drawn + 1) (ltb 0 adjacent || fragmented)
          (ap (λ t. find (draws t) inverse) (sym e) ∙ h),
    )
find_empty-ends draws inverse adjacent (suc k) (suc (suc fuel)) ppage drawn fragmented h l =
    let e : drawn + suc k ≡ drawn + 1 + k = omega arith in
    one_more draws inverse adjacent (suc fuel) ppage drawn fragmented (
      find_empty-ends draws inverse adjacent k (suc fuel) (draws drawn) (drawn + 1)
        (ltb 0 adjacent || fragmented) (ap (λ t. find (draws t) inverse) (sym e) ∙ h) (omega arith))
