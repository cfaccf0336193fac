-- ===== src/MissCache/Slru/Retain.antt =====
-- A hit in the segmented LRU cache loses no PC: one that the protected segment evicts goes back to the
-- probationary one, which has room for it.
use sandbox_predictor.Prelude.{
  ℕ, suc, ◌-◌, ◌≤◌, ◌<◌, ◌≡◌, ◌≢◌, ◌⊎◌, inl, inr, sym, ap, ◌∙◌, Bool, true, false, ◌||◌, none, some,
  List, ◌∷◌, arith, ◌==◌, get_elem?, length, take, remove_at, dec_lt, ℕ_discrete, get_elem?-lt,
  get_elem?-take, get_elem?-remove_at_lt, get_elem?-remove_at_ge, length-remove_at, take_all,
  get_or-of_get_elem?, Option-cases, Bool-cases, some_inj,
}
use mathlib.Core.Path.{subst}
use sandbox_predictor.MissCache.Recency.{position, position-some}
use sandbox_predictor.MissCache.Segment
use sandbox_predictor.MissCache.Segment.Lookup.{contains_lem, is_some}
use sandbox_predictor.MissCache.Slru.{SlruCache, access}
use sandbox_predictor.MissCache.Slru.Spec.{
  Lists, touch, promoted, push, falls_off, Has, Has-cons, absent-position,
}
use sandbox_predictor.MissCache.Slru.Access.{SlruHolds, access-SlruHolds}

-- Whether either segment has the PC.
abbrev pub cached : SlruCache → ℕ → Bool
cached c x = Segment.contains c.protected_seg x || Segment.contains c.probationary_seg x

abbrev Either : Lists → ℕ → Type 0
Either l x = Has l.0 x ⊎ Has l.1 x

remove_at-keeps : (a x : ℕ) (xs : List ℕ) (h : Has xs x) → h.place ≢ a → Has (remove_at a xs) x
remove_at-keeps a x xs h ne = elim (dec_lt h.place a) [
  | yes l ↦ record { place = h.place; found = get_elem?-remove_at_lt a xs h.place l ∙ h.found }
  | no l ↦
      let q : suc (h.place - 1) ≡ h.place = omega arith in
      record {
        place = h.place - 1;
        found =
            get_elem?-remove_at_ge a xs (h.place - 1) (omega arith) ∙ ap (get_elem? xs) q ∙ h.found;
      }
]

-- A PC of a list whose element `pc` at `a` moves to the front of some list.
moves :
    (a pc x : ℕ) (xs : List ℕ)
    → get_elem? xs a ≡ some pc
    → Has xs x
    → (x ≡ pc) ⊎ Has (remove_at a xs) x
moves a pc x xs g h = elim (ℕ_discrete h.place a) [
  | yes q ↦ inl (some_inj (sym h.found ∙ ap (get_elem? xs) q ∙ g))
  | no ne ↦ inr (remove_at-keeps a x xs h ne)
]

first : (pc x : ℕ) (xs : List ℕ) → x ≡ pc → Has (pc ∷ xs) x
first pc x xs q = record { place = 0; found = ap some (sym q) }

-- A PC of a bounded list stays behind a push, or is the one that falls off.
stays :
    (n pc x : ℕ) (xs : List ℕ)
    → length xs ≤ n
    → Has xs x
    → Has (push n pc xs) x ⊎ (falls_off n xs ≡ x)
stays n pc x xs fits h = elim (dec_lt h.place (n - 1)) [
  | yes l ↦ inl (
      Has-cons x pc (take (n - 1) xs)
        (record { place = h.place; found = get_elem?-take (n - 1) xs h.place l ∙ h.found }))
  | no l ↦
      let q : h.place ≡ n - 1 = omega (arith, get_elem?-lt xs h.place h.found) in
      inr (get_or-of_get_elem? xs (n - 1) 0 (ap (get_elem? xs) (sym q) ∙ h.found))
]

-- what a promotion at place `b` keeps
promoted-keeps :
    (n pc x b : ℕ) (l : Lists)
    → 0 < n
    → length l.0 ≤ n
    → length l.1 ≤ n
    → get_elem? l.1 b ≡ some pc
    → x ≢ 0
    → Either l x
    → Either (promoted n pc l b) x
promoted-keeps n pc x b (ps, qs) lo fp fq g nz (inl hp) = elim (stays n pc x ps fp hp) [
  | inl s ↦ inl s
  | inr s ↦
      let t : (falls_off n ps == 0) ≡ false = ground arith in
      rw t (inr (first (falls_off n ps) x (take (n - 1) (remove_at b qs)) (sym s)))
]
promoted-keeps n pc x b (ps, qs) lo fp fq g nz (inr hq) = elim (moves b pc x qs g hq) [
  | inl s ↦ inl (first pc x (take (n - 1) ps) s)
  | inr s ↦ elim (Bool-cases (falls_off n ps == 0)) [
    | inl t ↦ rw t (inr s)
    | inr t ↦
        let short : length (remove_at b qs) ≤ n - 1 =
          omega (arith, length-remove_at b qs (get_elem?-lt qs b g)) in
        rw t (
          inr (
            Has-cons x (falls_off n ps) (take (n - 1) (remove_at b qs))
              (subst (λ zs. Has zs x) (sym (take_all (n - 1) (remove_at b qs) short)) s)))
  ]
]

has_of : (xs : List ℕ) (x : ℕ) → is_some (position x xs) ≡ true → Has xs x
has_of xs x e = elim (Option-cases (position x xs)) [
  | inl q ↦ absurd (ground arith)
  | inr (a, q) ↦ record { place = a; found = position-some x xs q }
]

of_has : (xs : List ℕ) (x : ℕ) → Has xs x → is_some (position x xs) ≡ true
of_has xs x h = elim (Option-cases (position x xs)) [
  | inl q ↦ absurd (absent-position x xs q h)
  | inr (a, q) ↦ ap is_some q
]

module _ (c : SlruCache) (l : Lists) (h : SlruHolds c l) where
  Either-of : (x : ℕ) → cached c x ≡ true → Either l x
  Either-of x e = elim (Bool-cases (Segment.contains c.protected_seg x)) [
    | inl t ↦ inl (has_of l.0 x (sym (contains_lem c.protected_seg l.0 x h.prot) ∙ t))
    | inr t ↦ inr (has_of l.1 x (sym (contains_lem c.probationary_seg l.1 x h.prob) ∙ ground arith))
  ]

  of_Either : (x : ℕ) → Either l x → cached c x ≡ true
  of_Either x (inl p) =
      let t = contains_lem c.protected_seg l.0 x h.prot ∙ of_has l.0 x p in ground arith
  of_Either x (inr q) =
      let t = contains_lem c.probationary_seg l.1 x h.prob ∙ of_has l.1 x q in ground arith

-- what moving the PC at `a` to the front of the first list keeps
front-keeps :
    (a pc x : ℕ) (ps qs : List ℕ)
    → get_elem? ps a ≡ some pc
    → Either (ps, qs) x
    → Either (pc ∷ remove_at a ps, qs) x
front-keeps a pc x ps qs g (inr hq) = inr hq
front-keeps a pc x ps qs g (inl hp) = elim (moves a pc x ps g hp) [
  | inl s ↦ inl (first pc x (remove_at a ps) s)
  | inr s ↦ inl (Has-cons x pc (remove_at a ps) s)
]

neither : (pc : ℕ) (l : Lists) → position pc l.0 ≡ none → position pc l.1 ≡ none → Either l pc → ⊥
neither pc l q r (inl h) = absent-position pc l.0 q h
neither pc l q r (inr h) = absent-position pc l.1 r h

touch-keeps :
    (n pc x : ℕ) (l : Lists)
    → 0 < n
    → length l.0 ≤ n
    → length l.1 ≤ n
    → Either l pc
    → x ≢ 0
    → Either l x
    → Either (touch n pc l) x
touch-keeps n pc x (ps, qs) lo fp fq hit nz old = elim (Option-cases (position pc ps)) [
  | inr (a, q) ↦ rw (q, touch) (front-keeps a pc x ps qs (position-some pc ps q) old)
  | inl q ↦ elim (Option-cases (position pc qs)) [
    | inr (b, r) ↦
        rw (q, r, touch) (promoted-keeps n pc x b (ps, qs) lo fp fq (position-some pc qs r) nz old)
    | inl r ↦ absurd (neither pc (ps, qs) q r hit)
  ]
]

-- If the segments hold two lists and the cache holds `pc`, then an access to it keeps every PC other than
-- 0 that the cache holds.
pub access-keeps :
    (c : SlruCache) (l : Lists) (pc x : ℕ)
    → SlruHolds c l
    → cached c pc ≡ true
    → x ≢ 0
    → cached c x ≡ true
    → cached (access c pc).0 x ≡ true
access-keeps c (ps, qs) pc x h hit nz old =
    of_Either (access c pc).0 (touch c.num_entries pc (ps, qs)) (access-SlruHolds c pc ps qs h) x (
      touch-keeps c.num_entries pc x (ps, qs) (omega (arith, h.prot.some_entry, h.prot_size))
        (omega (arith, h.prot.ranked.fits, h.prot_size))
        (omega (arith, h.prob.ranked.fits, h.prob_size)) (Either-of c (ps, qs) h pc hit) nz
        (Either-of c (ps, qs) h x old))
