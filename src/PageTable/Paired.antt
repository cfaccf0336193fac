-- ===== src/PageTable/Paired.antt =====
-- The page table and the inverse table stay inverse to each other.
use sandbox_predictor.Prelude.{
  ℕ, ◌≡◌, ◌≢◌, refl, sym, ap, ◌∙◌, true, false, none, some, [], ◌∷◌, arith, ◌==◌, if◌then◌else◌,
  inl, inr, Option-cases, some_inj, ℕ_discrete,
}
use sandbox_predictor.Prelude.Map.{
  Map, find, insert, erase, assign, find-insert, find-erase, find-assign_self, find-assign_ne,
}
use sandbox_predictor.PageTable.{nru_page}

-- Each entry of one table has its counterpart in the other.
pub record IsPaired (pages inverse : Map) : Type 0 where
  pub forth : (v p : ℕ) → find v pages ≡ some p → find p inverse ≡ some v
  pub back : (v p : ℕ) → find p inverse ≡ some v → find v pages ≡ some p

-- Two addresses have no page in common.
pub IsPaired-injective :
    {pages inverse : Map} (v w p : ℕ)
    → IsPaired pages inverse
    → find v pages ≡ some p
    → find w pages ≡ some p
    → v ≡ w
IsPaired-injective v w p h a b = some_inj (sym (h.forth v p a) ∙ h.forth w p b)

-- one direction of a new entry on both sides
half :
    (a b : Map) (x y : ℕ)
    → ((v p : ℕ) → find v a ≡ some p → find p b ≡ some v)
    → find x a ≡ none
    → find y b ≡ none
    → (v p : ℕ) → find v (insert x y a) ≡ some p
    → find p (insert y x b) ≡ some v
half a b x y h nx ny v p e = elim (ℕ_discrete x v) [
  | yes q ↦
      let t : (x == v) ≡ true = ground arith in
      let s : y ≡ p = ground (arith, find-insert v x y a nx) in
      let u : (y == p) ≡ true = ground arith in find-insert p y x b ny ∙ rw u (ap some q)
  | no n ↦
      let t : (x == v) ≡ false = ground arith in
      let old : find p b ≡ some v = h v p (ground (arith, find-insert v x y a nx)) in
      elim (ℕ_discrete y p) [
        | yes s ↦ absurd (ground (arith, old, ap (λ t. find t b) s))
        | no s ↦ let u : (y == p) ≡ false = ground arith in find-insert p y x b ny ∙ rw u old
      ]
]

pub insert-IsPaired :
    (pages inverse : Map) (vpage ppage : ℕ)
    → IsPaired pages inverse
    → find vpage pages ≡ none
    → find ppage inverse ≡ none
    → IsPaired (insert vpage ppage pages) (insert ppage vpage inverse)
insert-IsPaired pages inverse vpage ppage h nv np = record {
  forth = half pages inverse vpage ppage h.forth nv np;
  back = λ v p. half inverse pages ppage vpage (λ q w. h.back w q) np nv p v;
}

-- the page that a swap takes over
module _ (pages inverse : Map) (vpage nru ppage : ℕ) (h : IsPaired pages inverse)
    (new : find vpage pages ≡ none) (old : find nru pages ≡ some ppage) where
  unfoldable pub pages' : Map
  pages' = insert vpage ppage (erase nru pages)

  unfoldable pub inverse' : Map
  inverse' = assign ppage vpage inverse

  pub pages'_lem :
      (v : ℕ)
      → find v pages' ≡ (if vpage == v then some ppage else if nru == v then none else find v pages)
  unfolding pages'
  pages'_lem v =
      find-insert v vpage ppage (erase nru pages) (find-erase vpage nru pages ∙ ground arith)
      ∙ rw (find-erase v nru pages) (refl)

  taken-forth : (v p : ℕ) → find v pages' ≡ some p → find p inverse' ≡ some v
  unfolding inverse'
  taken-forth v p e = elim (ℕ_discrete vpage v) [
    | yes q ↦
        let s : ppage ≡ p = ground (arith, pages'_lem v) in
        rw (← s) (find-assign_self ppage vpage nru inverse (h.forth nru ppage old) ∙ ap some q)
    | no n ↦
        let f : find v pages ≡ some p = ground (arith, pages'_lem v) in
        let d : nru ≢ v = λ (q : nru ≡ v). ground (arith, pages'_lem v) in
        let u : (ppage == p) ≡ false = ground (
          arith,
          h.forth v p f,
          h.forth nru ppage old,
          ap (λ t. find t inverse) {x = ppage} {y = p},
        ) in
        find-assign_ne p ppage vpage inverse u ∙ h.forth v p f
  ]

  taken-back : (v p : ℕ) → find p inverse' ≡ some v → find v pages' ≡ some p
  unfolding inverse'
  taken-back v p e = elim (ℕ_discrete ppage p) [
    | yes q ↦
        let s : vpage ≡ v = some_inj (
          sym (find-assign_self ppage vpage nru inverse (h.forth nru ppage old))
          ∙ ap (λ t. find t (assign ppage vpage inverse)) q
          ∙ e) in
        ground (arith, pages'_lem v)
    | no n ↦
        let u : (ppage == p) ≡ false = ground arith in
        let f : find v pages ≡ some p =
          h.back v p (sym (find-assign_ne p ppage vpage inverse u) ∙ e) in
        let d : (vpage == v) ≡ false = ground (arith, ap (λ t. find t pages) {x = vpage} {y = v}) in
        let g : (nru == v) ≡ false = ground (arith, ap (λ t. find t pages) {x = nru} {y = v}) in
        pages'_lem v ∙ rw (d, g) f
  ]

  pub taken-IsPaired : IsPaired pages' inverse'
  taken-IsPaired = record { forth = taken-forth; back = taken-back }

-- The page that a swap chooses was not used recently, and is mapped.
nru_page-recent :
    (pages recent : Map) {v p : ℕ} → nru_page pages recent ≡ some (v, p) → find v recent ≡ none
unfolding nru_page
nru_page-recent [] recent h = absurd (cc)
nru_page-recent ((w, q) ∷ pages) recent {v} {p} h = elim (Option-cases (find w recent)) [
  | inl e ↦ let s : w ≡ v = ground arith in ap (λ t. find t recent) (sym s) ∙ e
  | inr (n, e) ↦ nru_page-recent pages recent {v = v} {p = p} (ground arith)
]

pub nru_page-mapped :
    (pages recent : Map) {v p : ℕ} → nru_page pages recent ≡ some (v, p) → find v pages ≡ some p
unfolding nru_page find
nru_page-mapped [] recent h = absurd (cc)
nru_page-mapped ((w, q) ∷ pages) recent {v} {p} h = elim (Option-cases (find w recent)) [
  | inl e ↦ ground arith
  | inr (n, e) ↦
      let tail : nru_page pages recent ≡ some (v, p) = ground arith in
      let d : (w == v) ≡ false =
        ground
          (arith, nru_page-recent pages recent tail, ap (λ t. find t recent) {x = w} {y = v}) in
      rw d (nru_page-mapped pages recent tail)
]
