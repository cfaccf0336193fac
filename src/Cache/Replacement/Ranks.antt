-- ===== src/Cache/Replacement/Ranks.antt =====
-- The ranks of the blocks of a set: each rank below the number of ways is some block's.
use sandbox_predictor.Prelude.{
  ℕ, zero, suc, ◌+◌, ◌-◌, ◌<◌, ◌≡◌, ◌≢◌, refl, sym, ap, ◌∙◌, true, not, ◌||◌, some, List, map,
  arith, ltb, ◌==◌, get_or, get_elem?, find_index, length, length-set, length-map, Bool-cases,
  Option-cases, inl, inr, some_inj, get_elem?-map, get_elem?-set_self, get_elem?-set_ne,
  get_elem?-of_lt, get_or-of_get_elem?, get_elem?-lt, find_index-some, find_index-exists,
}
use mathlib.Core.Option
use mathlib.Core.Path.{subst}
use sandbox_predictor.Cache.Replacement.{Block, no_block, fresh_from, lru_victim, older, lru_update}

-- a block of rank `r`
pub record Ranked (blocks : List Block) (r : ℕ) : Type 0 where
  pub way : ℕ
  pub block : Block
  pub here : get_elem? blocks way ≡ some block
  pub rank : block.lru ≡ r

-- The set has `n` ways and a block of each rank below `n`.
pub record IsRanked (n : ℕ) (blocks : List Block) : Type 0 where
  pub size : length blocks ≡ n
  pub onto : (r : ℕ) → r < n → Ranked blocks r

module _ (blocks : List Block) (way : ℕ) {b : Block} (at : get_elem? blocks way ≡ some b) where
  limit_lem : (get_or blocks way no_block).lru ≡ b.lru
  limit_lem = ap (λ (x : Block). x.lru) (get_or-of_get_elem? blocks way no_block at)

  -- the block of another way after an update
  update-other :
      (i : ℕ) {x : Block}
      → way ≢ i
      → get_elem? blocks i ≡ some x
      → get_elem? (lru_update blocks way) i ≡ some (older b.lru x)
  unfolding lru_update
  update-other i {x} ne g =
      get_elem?-set_ne (map (older (get_or blocks way no_block).lru) blocks) way i _ ne
      ∙ get_elem?-map (older (get_or blocks way no_block).lru) blocks i
      ∙ ap (Option.map (older (get_or blocks way no_block).lru)) g
      ∙ ap (λ l. some (older l x)) limit_lem

  update_self : (x : Block) × (get_elem? (lru_update blocks way) way ≡ some x) × (x.lru ≡ 0)
  unfolding lru_update
  update_self = (
    _,
    get_elem?-set_self (map (older (get_or blocks way no_block).lru) blocks) way _
        (subst (λ n. way < n) (sym (length-map _ blocks)) (get_elem?-lt blocks way at)),
    refl,
  )

  length-update : length (lru_update blocks way) ≡ length blocks
  unfolding lru_update
  length-update = length-set _ way _ ∙ length-map _ blocks

  -- a block of another rank stands elsewhere
  elsewhere : (r : ℕ) (k : Ranked blocks r) → b.lru ≢ r → way ≢ k.way
  elsewhere r k ne e =
      let same : b ≡ k.block = some_inj (sym at ∙ ap (get_elem? blocks) e ∙ k.here) in
      ne (ap (λ (x : Block). x.lru) same ∙ k.rank)

  moved :
      (r r' : ℕ) (k : Ranked blocks r)
      → b.lru ≢ r
      → (older b.lru k.block).lru ≡ r'
      → Ranked (lru_update blocks way) r'
  moved r r' k ne h = record {
    way = k.way;
    block = older b.lru k.block;
    here = update-other k.way (elsewhere r k ne) k.here;
    rank = h;
  }

  update-Ranked : (n r : ℕ) → IsRanked n blocks → r < n → Ranked (lru_update blocks way) r
  update-Ranked n zero h l =
      let (x, g, z) = update_self in record { way = way; block = x; here = g; rank = z }
  update-Ranked n (suc r) h l = elim (Bool-cases (ltb r b.lru)) [
    | inl q ↦
        let k = h.onto r (omega arith) in
        let z = k.rank in moved r (suc r) k (λ e. ground arith) (ground arith)
    | inr q ↦
        let k = h.onto (suc r) l in
        let z = k.rank in moved (suc r) (suc r) k (λ e. ground arith) (ground arith)
  ]

pub lru_update-IsRanked :
    (n way : ℕ) (blocks : List Block)
    → IsRanked n blocks
    → way < n
    → IsRanked n (lru_update blocks way)
lru_update-IsRanked n way blocks h l =
    let (b, at) = get_elem?-of_lt blocks way (subst (λ k. way < k) (sym h.size) l) in
    record {
      size = length-update blocks way at ∙ h.size;
      onto = λ r k. update-Ranked blocks way at n r h k;
    }

abbrev fresh_block : ℕ → Block
fresh_block j = record no_block { lru = j }

length-fresh : (n j : ℕ) → length (fresh_from n j) ≡ n
unfolding fresh_from
length-fresh zero j = refl
length-fresh (suc n) j = ap suc (length-fresh n (j + 1))

fresh_at : (n j r : ℕ) → r < n → get_elem? (fresh_from n j) r ≡ some (fresh_block (j + r))
unfolding fresh_from
fresh_at zero j r l = absurd (omega arith)
fresh_at (suc n) j zero l = ap (λ k. some (fresh_block k)) (omega arith)
fresh_at (suc n) j (suc r) l =
    fresh_at n (j + 1) r (omega arith) ∙ ap (λ k. some (fresh_block k)) (omega arith)

pub fresh-IsRanked : (n : ℕ) → IsRanked n (fresh_from n 0)
fresh-IsRanked n = record {
  size = length-fresh n 0;
  onto = λ r l. record {
    way = r;
    block = fresh_block (0 + r);
    here = fresh_at n 0 r l;
    rank = omega arith;
  };
}

-- the way that `lru_victim` returns
pub record IsVictim (n : ℕ) (blocks : List Block) (v : ℕ) : Type 0 where
  pub block : Block
  pub returned : lru_victim n blocks ≡ some v
  pub here : get_elem? blocks v ≡ some block
  pub free_or_oldest : (not block.valid || (block.lru == n - 1)) ≡ true

IsVictim-exists :
    (n : ℕ) (blocks : List Block) → 0 < n → IsRanked n blocks → (v : ℕ) × IsVictim n blocks v
unfolding lru_victim
IsVictim-exists n blocks p h =
    elim (Option-cases (find_index (λ (b : Block). not b.valid) blocks)) [
      | inr (i, q) ↦
          let (x, g, t) = find_index-some (λ (b : Block). not b.valid) blocks q in
          (
            i,
            record {
              block = x;
              returned = rw (q, lru_victim);
              here = g;
              free_or_oldest = ground arith;
            },
          )
      | inl q ↦
          let k = h.onto (n - 1) (omega arith) in
          let z = k.rank in
          let (j, r) =
            find_index-exists (λ (b : Block). b.lru == n - 1) blocks k.way k.here (ground arith) in
          let (x, g, t) = find_index-some (λ (b : Block). b.lru == n - 1) blocks r in
          (
            j,
            record {
              block = x;
              returned = rw (q, lru_victim, r);
              here = g;
              free_or_oldest = ground arith;
            },
          )
    ]

-- An update of a set that has a block of each rank leaves such a set, in which the way that was used
-- has the lowest rank and a victim is found: an invalid way, or one of the highest rank.
pub lru-IsVictim_exists :
    (n way : ℕ) (blocks : List Block)
    → IsRanked n blocks
    → way < n
    → IsRanked n (lru_update blocks way)
      × ((x : Block) × (get_elem? (lru_update blocks way) way ≡ some x) × (x.lru ≡ 0))
      × ((v : ℕ) × IsVictim n (lru_update blocks way) v)
lru-IsVictim_exists n way blocks h l =
    let (b, at) = get_elem?-of_lt blocks way (subst (λ k. way < k) (sym h.size) l) in
    let h' = lru_update-IsRanked n way blocks h l in
    (h', update_self blocks way at, IsVictim-exists n (lru_update blocks way) (omega arith) h')
