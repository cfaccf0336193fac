-- ===== src/Cache/Level/Invalidate.antt =====
-- What a cache finds after an invalidation.
use sandbox_predictor.Prelude.{
  ℕ, ◌<◌, ◌≡◌, ◌≢◌, refl, sym, ap, ◌∙◌, true, false, Option, none, some, [], arith, ltb, ◌==◌,
  if◌then◌else◌, get_or, set, find_index, length, Bool-cases, Option-cases, inl, inr,
  find_index-some, ℕ_discrete, get_or-set_self, get_or-set_ne, get_or-out, dec_lt,
}
use sandbox_predictor.Cache.Packet.{Packet}
use sandbox_predictor.Cache.Replacement.{Block, no_block}
use sandbox_predictor.Cache.Level.{Cache, get_set, holds_tag, check_hit, invalidate_entry}
use sandbox_predictor.Cache.Level.Scan.{Single-set-drop, find_index-set-same, find_index-set-lost}
use sandbox_predictor.Cache.Level.Tags.{
  HasUniqueTags, written, check_hit-same, check_hit_of, check_hit-address,
}

-- the block that is left
abbrev emptied : Cache → ℕ → ℕ → Block
emptied c s way = record (get_or (get_or c.block s []) way no_block) { valid = false }

-- a set with a block is one of the array's
inside_of :
    (c : Cache) (s a : ℕ) {w : ℕ}
    → find_index (holds_tag a) (get_or c.block s []) ≡ some w
    → s < length c.block
inside_of c s a h = elim (dec_lt s (length c.block)) [
  | yes l ↦ l
  | no n ↦
      let e : get_or c.block s [] ≡ [] = get_or-out c.block s [] (omega arith) in
      absurd (ground (arith, ap (find_index (holds_tag a)) e))
]

-- A scan after the block of address `a` became invalid.
module _ (c : Cache) (a way : ℕ) (u : HasUniqueTags c)
    (f : find_index (holds_tag a) (get_or c.block (get_set c a) []) ≡ some way) (c' : Cache)
    (num : c'.num_set ≡ c.num_set)
    (did : c'.block ≡ written c (get_set c a) way (emptied c (get_set c a) way)) where
  blocks-emptied :
      get_or c'.block (get_set c a) []
      ≡ set (get_or c.block (get_set c a) []) way (emptied c (get_set c a) way)
  blocks-emptied =
      rw did (get_or-set_self c.block (get_set c a) _ [] (inside_of c (get_set c a) a f))

  blocks-kept : (t : ℕ) → get_set c a ≢ t → get_or c'.block t [] ≡ get_or c.block t []
  blocks-kept t ne = rw did (get_or-set_ne c.block (get_set c a) t _ [] ne)

  emptied-HasUniqueTags : HasUniqueTags c'
  emptied-HasUniqueTags = record {
    single = λ t tag. elim (ℕ_discrete (get_set c a) t) [
      | no ne ↦ rw (blocks-kept t ne) (u.single t tag)
      | yes e ↦ rw (← e) (
          rw blocks-emptied (
            Single-set-drop (holds_tag tag) (get_or c.block (get_set c a) []) way _
              (u.single (get_set c a) tag) refl))
    ];
  }

  scan-emptied :
      (tag : ℕ)
      → find_index (holds_tag tag) (get_or c'.block (get_set c a) [])
        ≡ (if tag == a then none else find_index (holds_tag tag) (get_or c.block (get_set c a) []))
  scan-emptied tag =
      let (x, g, e) = find_index-some (holds_tag a) (get_or c.block (get_set c a) []) f in
      elim (ℕ_discrete tag a) [
        | yes same ↦
            let t : (tag == a) ≡ true = ground arith in
            rw t (
              rw (same, blocks-emptied)
                (find_index-set-lost (holds_tag a) (get_or c.block (get_set c a) []) way _
                  (u.single (get_set c a) a) f refl))
        | no other ↦
            let t : (tag == a) ≡ false = ground arith in
            let d : holds_tag tag x ≡ false = ground arith in
            rw t (
              rw blocks-emptied (
                find_index-set-same (holds_tag tag) (get_or c.block (get_set c a) []) way _ g d
                  refl))
      ]

-- the address decides the set
set-of_address :
    (c : Cache) (q : Packet) (a : ℕ) → q.address ≡ a → get_set c q.address ≡ get_set c a
set-of_address c q a e = ap (get_set c) e

-- an address that misses already
missing :
    (c : Cache) (p q : Packet)
    → check_hit c p ≡ some none
    → check_hit c q ≡ (if q.address == p.address then some none else check_hit c q)
missing c p q miss = elim (ℕ_discrete q.address p.address) [
  | yes e ↦
      let t : (q.address == p.address) ≡ true = ground arith in
      rw t (check_hit-address c p q e ∙ miss)
  | no n ↦ let t : (q.address == p.address) ≡ false = ground arith in rw t (refl)
]

-- the hits after the block of a packet became invalid
law :
    (c : Cache) (p q : Packet) (w : ℕ)
    → HasUniqueTags c
    → find_index (holds_tag p.address) (get_or c.block (get_set c p.address) []) ≡ some w
    → (c' : Cache) → c'.num_set ≡ c.num_set
    → c'.block ≡ written c (get_set c p.address) w (emptied c (get_set c p.address) w)
    → ltb c.num_set (get_set c p.address) ≡ false
    → check_hit c' q ≡ (if q.address == p.address then some none else check_hit c q)
law c p q w u f c' num did ok = elim (ℕ_discrete (get_set c q.address) (get_set c p.address)) [
  | yes e ↦
      let ok' : ltb c.num_set (get_set c q.address) ≡ false = rw e ok in
      let left : Option ℕ =
        if q.address == p.address
        then none
        else find_index (holds_tag q.address) (get_or c.block (get_set c p.address) []) in
      let after : check_hit c' q ≡ some left =
        check_hit_of c c' q num ok' (rw e (scan-emptied c p.address w u f c' num did q.address)) in
      elim (Bool-cases (q.address == p.address)) [
        | inl t ↦ rw t (after ∙ ap some (rw t (refl)))
        | inr t ↦ rw t (after ∙ sym (check_hit_of c c q refl ok' (rw (e, t) (refl))))
      ]
  | no ne ↦
      let t : (q.address == p.address) ≡ false = elim (Bool-cases (q.address == p.address)) [
        | inr t ↦ t
        | inl t ↦ absurd (ne (set-of_address c q p.address (ground arith)))
      ] in
      rw t (
        check_hit-same c c' q num
          (blocks-kept c p.address w u f c' num did (get_set c q.address) (λ e. ne (sym e))))
]

-- An invalidation reports the way in which its address hits, if it does. Afterwards that address
-- misses, every other address hits where it did before, and still no set has two valid blocks of one
-- tag.
pub invalidate_entry-check_hit :
    (c : Cache) (p q : Packet) {c' : Cache} {way : Option ℕ}
    → HasUniqueTags c
    → invalidate_entry c p.address ≡ some (c', way)
    → (check_hit c p ≡ some way)
      × (check_hit c' q ≡ (if q.address == p.address then some none else check_hit c q))
      × HasUniqueTags c'
unfolding invalidate_entry
invalidate_entry-check_hit c p q {c'} {way} u e =
    let ok : ltb c.num_set (get_set c p.address) ≡ false = ground arith in
    elim (Option-cases
      (find_index (holds_tag p.address) (get_or c.block (get_set c p.address) []))) [
        | inl n ↦
            let same : c ≡ c' = ground arith in
            let nothing : none ≡ way = ground arith in
            let miss : check_hit c p ≡ some none = check_hit_of c c p refl ok n in
            (miss ∙ ap some nothing, rw (← same) (missing c p q miss), rw (← same) u)
        | inr (w, f) ↦
            let num : c'.num_set ≡ c.num_set = ground arith in
            let did : c'.block
                ≡ written c (get_set c p.address) w (emptied c (get_set c p.address) w) =
              ground arith in
            let at : some w ≡ way = ground arith in
            (
              check_hit_of c c p refl ok f ∙ ap some at,
              law c p q w u f c' num did ok,
              emptied-HasUniqueTags c p.address w u f c' num did,
            )
      ]
