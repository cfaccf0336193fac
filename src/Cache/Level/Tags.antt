-- ===== src/Cache/Level/Tags.antt =====
-- Which block a cache finds after a fill and after an invalidation.
use sandbox_predictor.Prelude.{
  ℕ, ◌<◌, ◌≡◌, ◌≢◌, refl, sym, ap, ◌∙◌, Bool, true, false, Option, none, some, List, [], arith, ltb,
  ◌==◌, if◌then◌else◌, get_or, set, find_index, length, Bool-cases, Option-cases, inl, inr,
  find_index-some, find_index-none, ℕ_discrete, get_elem?-of_lt, get_or-set_self, get_or-set_ne,
}
use mathlib.Core.Option
use sandbox_predictor.Cache.Packet.{Packet}
use sandbox_predictor.Cache.Replacement.{Block, no_block}
use sandbox_predictor.Cache.Level.{Cache, get_set, holds_tag, filled, fill_cache, check_hit}
use sandbox_predictor.Cache.Level.Scan.{
  Single, Single-set-fill, Single-set-drop, find_index-set-found, find_index-set-same,
  find_index-set-lost,
}

-- No set has two valid blocks of one tag.
pub record HasUniqueTags (c : Cache) : Type 0 where
  pub single : (s tag : ℕ) → Single (holds_tag tag) (get_or c.block s [])

-- The cache after a write of one block.
abbrev pub written : Cache → ℕ → ℕ → Block → List (List Block)
written c s way b = set c.block s (set (get_or c.block s []) way b)

pub same_set : (c c' : Cache) (a : ℕ) → c'.num_set ≡ c.num_set → get_set c' a ≡ get_set c a
unfolding get_set
same_set c c' a e = rw e (refl)

-- what a hit and a miss say of the blocks
pub check_hit-blocks :
    (c : Cache) (q : Packet) {r : Option ℕ}
    → check_hit c q ≡ some r
    → (ltb c.num_set (get_set c q.address) ≡ false)
      × (find_index (holds_tag q.address) (get_or c.block (get_set c q.address) []) ≡ r)
unfolding check_hit
check_hit-blocks c q h = ground arith

pub check_hit_of :
    (c c' : Cache) (q : Packet) {r : Option ℕ}
    → c'.num_set ≡ c.num_set
    → ltb c.num_set (get_set c q.address) ≡ false
    → find_index (holds_tag q.address) (get_or c'.block (get_set c q.address) []) ≡ r
    → check_hit c' q ≡ some r
unfolding check_hit
check_hit_of c c' q e t f = rw (same_set c c' q.address e, e, t) (ap some f)

pub check_hit-same :
    (c c' : Cache) (q : Packet)
    → c'.num_set ≡ c.num_set
    → get_or c'.block (get_set c q.address) [] ≡ get_or c.block (get_set c q.address) []
    → check_hit c' q ≡ check_hit c q
unfolding check_hit
check_hit-same c c' q e f = rw (same_set c c' q.address e, e, f) (refl)

pub check_hit-address :
    (c : Cache) (p q : Packet) → q.address ≡ p.address → check_hit c q ≡ check_hit c p
unfolding check_hit
check_hit-address c p q e = rw e (refl)

pub fill_cache-written :
    (c : Cache) (s way : ℕ) (packet : Packet) {c' : Cache}
    → fill_cache c s way packet ≡ some c'
    → (c'.num_set ≡ c.num_set)
      × (c'.block ≡ written c s way (filled (get_or (get_or c.block s []) way no_block) packet))
unfolding fill_cache
fill_cache-written c s way packet h = ground arith

filled-tag :
    (b : Block) (packet : Packet) (a : ℕ) → holds_tag a (filled b packet) ≡ (packet.address == a)
unfolding filled
filled-tag b packet a = refl

-- a hit in any way but one
abbrev pub without : ℕ → Option ℕ → Option ℕ
without way none = none
without way (some w) = if w == way then none else some w

-- what the scan finds after a block that it does not want comes into a way
scan-without :
    (p : Block → Bool) (blocks : List Block) (way : ℕ) (v : Block)
    → Single p blocks
    → way < length blocks
    → p v ≡ false
    → find_index p (set blocks way v) ≡ without way (find_index p blocks)
scan-without p blocks way v single l e =
    let (x, g) = get_elem?-of_lt blocks way l in
    elim (Option-cases (find_index p blocks)) [
      | inl n ↦
          find_index-set-same p blocks way v g (find_index-none p blocks way n g) e
          ∙ n
          ∙ sym (ap (without way) n)
      | inr (w, f) ↦ elim (ℕ_discrete w way) [
        | yes q ↦
            let t : (w == way) ≡ true = ground arith in
            find_index-set-lost p blocks way v single (f ∙ ap some q) e ∙ rw f (rw t (refl))
        | no ne ↦
            let t : (w == way) ≡ false = ground arith in
            let (y, g', e') = find_index-some p blocks f in
            let d : p x ≡ false = elim (Bool-cases (p x)) [
              | inr d ↦ d
              | inl d ↦ absurd (ne (single.apart w way g' g e' d))
            ] in
            find_index-set-same p blocks way v g d e ∙ f ∙ rw f (rw t (refl))
      ]
    ]

-- A scan after a fill: by the set that is looked at, and the tag.
module _ (c : Cache) (s way : ℕ) (packet : Packet) (c' : Cache) (inside : s < length c.block)
    (room : way < length (get_or c.block s [])) (did : fill_cache c s way packet ≡ some c') where
  blocks' : (t : ℕ) → s ≢ t → get_or c'.block t [] ≡ get_or c.block t []
  blocks' t ne = rw ((fill_cache-written c s way packet did).1) (get_or-set_ne c.block s t _ [] ne)

  blocks-filled :
      get_or c'.block s []
      ≡ set (get_or c.block s []) way (filled (get_or (get_or c.block s []) way no_block) packet)
  blocks-filled =
      rw ((fill_cache-written c s way packet did).1) (get_or-set_self c.block s _ [] inside)

  fill-HasUniqueTags :
      HasUniqueTags c
      → find_index (holds_tag packet.address) (get_or c.block s []) ≡ none
      → HasUniqueTags c'
  fill-HasUniqueTags u miss = record {
    single = λ t tag. elim (ℕ_discrete s t) [
      | no ne ↦ rw (blocks' t ne) (u.single t tag)
      | yes e ↦ rw (← e) (
          rw blocks-filled (elim (ℕ_discrete packet.address tag) [
            | yes same ↦
                Single-set-fill (holds_tag tag) (get_or c.block s []) way _ (rw (← same) miss)
            | no other ↦
                let d : (packet.address == tag) ≡ false = ground arith in
                Single-set-drop (holds_tag tag) (get_or c.block s []) way _ (u.single s tag)
                  (filled-tag _ packet tag ∙ d)
          ]))
    ];
  }

-- A fill of a way of the packet's set, for an address that missed before: afterwards that address
-- hits in this way, every other address hits where it did before, except that what was in this way is
-- gone, and still no set has two valid blocks of one tag.
pub fill_cache-check_hit :
    (c : Cache) (way : ℕ) (packet q : Packet) {c' : Cache}
    → HasUniqueTags c
    → get_set c packet.address < length c.block
    → way < length (get_or c.block (get_set c packet.address) [])
    → check_hit c packet ≡ some none
    → fill_cache c (get_set c packet.address) way packet ≡ some c'
    → (check_hit c' q ≡ (
        if q.address == packet.address
        then some (some way)
        else if get_set c q.address == get_set c packet.address
        then Option.map (without way) (check_hit c q)
        else check_hit c q))
      × HasUniqueTags c'
fill_cache-check_hit c way packet q {c'} u inside room miss did =
    let (ok, missed) = check_hit-blocks c packet miss in
    let (num, _) = fill_cache-written c (get_set c packet.address) way packet did in
    (
      elim (ℕ_discrete q.address packet.address) [
        | yes same ↦
            let t : (q.address == packet.address) ≡ true = ground arith in
            rw t (
              check_hit-address c' packet q same
              ∙ check_hit_of c c' packet num ok (
                  rw (blocks-filled c (get_set c packet.address) way packet c' inside room did) (
                    find_index-set-found (holds_tag packet.address)
                      (get_or c.block (get_set c packet.address) []) way _ room missed
                      (filled-tag _ packet packet.address ∙ ground arith))))
        | no other ↦
            let t : (q.address == packet.address) ≡ false = ground arith in
            elim (ℕ_discrete (get_set c q.address) (get_set c packet.address)) [
              | yes e ↦
                  let v : (get_set c q.address == get_set c packet.address) ≡ true = ground arith in
                  let ok' : ltb c.num_set (get_set c q.address) ≡ false = rw e ok in
                  let d : (packet.address == q.address) ≡ false = ground arith in
                  let scan =
                    scan-without (holds_tag q.address)
                      (get_or c.block (get_set c packet.address) []) way
                      (filled (get_or (get_or c.block (get_set c packet.address) []) way no_block)
                        packet)
                      (u.single (get_set c packet.address) q.address) room
                      (filled-tag _ packet q.address ∙ d) in
                  rw (t, v)
                    (check_hit_of c c' q num ok' (
                        rw e (
                          rw
                            (blocks-filled c (get_set c packet.address) way packet c' inside room
                              did)
                            scan))
                      ∙ sym (
                          ap (Option.map (without way)) (
                            check_hit_of c c q refl ok' (
                              ap (λ t. find_index (holds_tag q.address) (get_or c.block t [])) e))))
              | no ne ↦
                  let v : (get_set c q.address == get_set c packet.address) ≡ false =
                    ground arith in
                  rw (t, v)
                    (check_hit-same c c' q num (
                      blocks' c (get_set c packet.address) way packet c' inside room did
                        (get_set c q.address) (λ e. ne (sym e))))
            ]
      ],
      fill-HasUniqueTags c (get_set c packet.address) way packet c' inside room did u missed,
    )
