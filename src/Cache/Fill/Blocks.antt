-- ===== src/Cache/Fill/Blocks.antt =====
-- What a fill makes of the blocks of a cache.
use sandbox_predictor.Prelude.{
  ℕ, ◌≡◌, ◌≢◌, refl, sym, ap, ◌∙◌, Bool, some, List, [], arith, get_or, set, length, ◌==◌,
  Bool-cases, Option-cases, inl, inr, dec_lt, ℕ_discrete, get_or-out, get_or-set_self,
  get_or-set_ne, length-set,
}
use sandbox_predictor.Cache.Packet.{Packet}
use sandbox_predictor.Cache.PacketQueue.{add_queue, remove_queue}
use sandbox_predictor.Cache.Replacement.{Block, no_block}
use sandbox_predictor.Cache.Level.{CacheType, Cache}
use sandbox_predictor.Cache.Handler.{Hooks, inform, process, add_processed}
use sandbox_predictor.Cache.Fill.{retire}

-- a block without the mark of the replacement policy
abbrev pub bare : Block → Block
bare b = record b { lru = 0 }

-- the blocks of a set and a way
abbrev pub at : List (List Block) → ℕ → ℕ → Block
at blocks index way = get_or (get_or blocks index []) way no_block

-- The policy only writes its marks, and the prefetcher writes no block.
pub record Respects {S : Type 0} (hooks : Hooks S) : Type 0 where
  pub marks :
      (s : S) (cpu index way address : ℕ) (c : Cache) (e : Packet) (w : ℕ)
      → bare (get_or (hooks.update_replacement_state s cpu index way address c e).1 w no_block)
        ≡ bare (at c.block index w)
  pub blocks :
      (s : S) (cpu index way : ℕ) (c : Cache) (e : Packet)
      → (hooks.cache_fill s cpu index way c e).1.block ≡ c.block

-- a set that is written
pub at-set :
    (blocks : List (List Block)) (index : ℕ) (new : List Block)
    → ((w : ℕ) → bare (get_or new w no_block) ≡ bare (at blocks index w))
    → (i w : ℕ) → bare (at (set blocks index new) i w) ≡ bare (at blocks i w)
at-set blocks index new same i w = elim (ℕ_discrete index i) [
  | no ne ↦ ap (λ t. bare (get_or t w no_block)) (get_or-set_ne blocks index i new [] ne)
  | yes e ↦ rw (← e) (elim (dec_lt index (length blocks)) [
    | yes l ↦ ap (λ t. bare (get_or t w no_block)) (get_or-set_self blocks index new [] l) ∙ same w
    | no out ↦
        ap (λ t. bare (get_or t w no_block))
          (get_or-out (set blocks index new) index [] (omega (arith, length-set blocks index new))
            ∙ sym (get_or-out blocks index [] (omega arith)))
  ])
]

-- a block that is written, seen from every other place
pub at-set_other :
    (blocks : List (List Block)) (index way : ℕ) (b : Block) (i w : ℕ)
    → ((index ≡ i) → way ≢ w)
    → at (set blocks index (set (get_or blocks index []) way b)) i w ≡ at blocks i w
at-set_other blocks index way b i w ne = elim (ℕ_discrete index i) [
  | no other ↦ ap (λ t. get_or t w no_block) (get_or-set_ne blocks index i _ [] other)
  | yes e ↦ rw (← e) (elim (dec_lt index (length blocks)) [
    | yes l ↦
        ap (λ t. get_or t w no_block) (get_or-set_self blocks index _ [] l)
        ∙ get_or-set_ne (get_or blocks index []) way w b no_block (ne e)
    | no out ↦
        ap (λ t. get_or t w no_block)
          (get_or-out (set blocks index (set (get_or blocks index []) way b)) index []
              (omega (arith, length-set blocks index (set (get_or blocks index []) way b)))
            ∙ sym (get_or-out blocks index [] (omega arith)))
  ])
]

pub retire-block :
    (now : ℕ → ℕ) (warm : ℕ → Bool) (c : Cache) (cpu i : ℕ) {c' : Cache}
    → retire now warm c cpu i ≡ some c'
    → c'.block ≡ c.block
unfolding retire
retire-block now warm c cpu i h = elim (Option-cases (remove_queue c.mshr i)) [
  | inl n ↦ absurd (ground arith)
  | inr (q, e) ↦ ground arith
]

add_processed-block :
    (c : Cache) (e : Packet) {c' : Cache} → add_processed c e ≡ some c' → c'.block ≡ c.block
add_processed-block c e h = elim (Option-cases (add_queue c.processed e)) [
  | inl n ↦ ground arith
  | inr (q, t) ↦ ground arith
]

pub process-block :
    (t : CacheType) (c : Cache) (e : Packet) (payload : ℕ) {c' : Cache}
    → process t c e payload ≡ some c'
    → c'.block ≡ c.block
unfolding process
process-block CacheType.itlb c e payload h =
    add_processed-block c (record e { instruction_pa = payload }) h
process-block CacheType.dtlb c e payload h =
    add_processed-block c (record e { data_pa = payload }) h
process-block CacheType.stlb c e payload h = ground arith
process-block CacheType.l1i c e payload h = add_processed-block c e h
process-block CacheType.l1d c e payload {c'} h = elim (Bool-cases (e.type == 2)) [
  | inl y ↦ ground arith
  | inr n ↦ let g : add_processed c e ≡ some c' = ground arith in add_processed-block c e g
]
process-block CacheType.l2c c e payload h = ground arith
process-block CacheType.llc c e payload h = ground arith

module _ {S : Type 0} (hooks : Hooks S) (respects : Respects hooks) where
  pub inform-block :
      (t : CacheType) (s : S) (c : Cache) (cpu index way : ℕ) (e : Packet) (i : ℕ)
      → (inform hooks t s c cpu index way e i).1.block ≡ c.block
  unfolding inform
  inform-block CacheType.itlb s c cpu index way e i = refl
  inform-block CacheType.dtlb s c cpu index way e i = refl
  inform-block CacheType.stlb s c cpu index way e i = refl
  inform-block CacheType.l1i s c cpu index way e i = respects.blocks s cpu index way c e
  inform-block CacheType.l1d s c cpu index way e i = respects.blocks s cpu index way c e
  inform-block CacheType.l2c s c cpu index way e i = respects.blocks s cpu index way c e
  inform-block CacheType.llc s c cpu index way e i =
      respects.blocks s cpu index way (record c { cpu = cpu }) e
