-- ===== src/MissCache/Lru/Hit.antt =====
-- An access that finds its PC in the LRU miss cache: the choice fits the recency list.
use sandbox_predictor.Prelude.{
  ℕ, suc, ◌+◌, ◌-◌, ◌<◌, ◌≡◌, sym, ap, ◌∙◌, ◌≢◌, ◌⊎◌, inl, inr, true, some, List, arith, get_elem?,
  length, remove_at, get_elem?-lt, get_elem?-remove_at_lt, get_elem?-remove_at_ge, length-remove_at,
  dec_lt, Bool-cases, some_inj,
}
use sandbox_predictor.MissCache.Entry.{Entry}
use sandbox_predictor.MissCache.Recency.{position-of, others, others_hit}
use sandbox_predictor.MissCache.Lru.{LruCache}
use sandbox_predictor.MissCache.Lru.Promote.{Kept, younger, elder, Filled, Promotable}
use sandbox_predictor.MissCache.Lru.Tracks.{Tracks}

-- What the choice of entry `k` and of `limit` gives the proof: the parts of `Promotable`, and how
-- the list grows.
pub record Fit (c : LruCache) (xs : List ℕ) (pc k limit : ℕ) : Type 0 where
  pub promotable : Promotable c.num_entries limit k c.entries (others c.num_entries pc xs)
  pub settled :
      suc (length (others c.num_entries pc xs)) ≡ c.num_entries
      → (i : ℕ) (e : Entry) → get_elem? c.entries i ≡ some e
      → e.age < limit
      → e.valid ≡ true
  pub grows :
      (length xs ≡ suc (length (others c.num_entries pc xs))) × (k < length xs)
      ⊎ (length xs ≡ length (others c.num_entries pc xs)) × (k ≡ length xs)

module _ (c : LruCache) (xs : List ℕ) (pc : ℕ) (t : Tracks c xs) where
  -- In a full list every entry is valid.
  pub all_valid :
      length xs ≡ c.num_entries
      → (i : ℕ) (e : Entry) → get_elem? c.entries i ≡ some e
      → e.valid ≡ true
  all_valid q i e g = elim (Bool-cases e.valid) [
    | inl v ↦ v
    | inr v ↦ absurd (omega (arith, t.free i e g v, get_elem?-lt c.entries i g))
  ]

  module _ (i : ℕ) (e : Entry) (g : get_elem? c.entries i ≡ some e) (v : e.valid ≡ true)
      (h : e.pc ≡ pc) where
    here : get_elem? xs e.age ≡ some pc
    here = t.sound i e g v ∙ ap some h

    at : others c.num_entries pc xs ≡ remove_at e.age xs
    at = others_hit c.num_entries pc xs e.age (position-of pc xs e.age t.distinct here)

    one_less : suc (length (remove_at e.age xs)) ≡ length xs
    one_less = length-remove_at e.age xs (get_elem?-lt xs e.age here)

    hit_keep :
        (j : ℕ) (d : Entry)
        → j ≢ i
        → get_elem? c.entries j ≡ some d
        → d.valid ≡ true
        → Kept e.age (remove_at e.age xs) d.age d.pc
    hit_keep j d ne gd w = elim (dec_lt d.age e.age) [
      | yes l ↦ younger l (get_elem?-remove_at_lt e.age xs d.age l ∙ t.sound j d gd w)
      | no l ↦
          let apart : d.age ≢ e.age = λ q. ne (t.apart j i d e gd g w v q) in
          let q : suc (d.age - 1) ≡ d.age = omega arith in
          elder (omega arith) (
            get_elem?-remove_at_ge e.age xs (d.age - 1) (omega arith)
            ∙ ap (get_elem? xs) q
            ∙ t.sound j d gd w)
    ]

    apart_ages : (j : ℕ) (d : Entry) → get_elem? c.entries j ≡ some d → d.age ≢ e.age → j ≢ i
    apart_ages j d gd ne q =
        ne (ap (λ (t : Entry). t.age) (some_inj (sym gd ∙ ap (get_elem? c.entries) q ∙ g)))

    hit_cover : (a : ℕ) → a < length (remove_at e.age xs) → Filled e.age i c.entries a
    hit_cover a l = elim (dec_lt a e.age) [
      | yes m ↦
          let old = t.present a (omega (arith, one_less)) in
          record {
            index = old.index;
            entry = old.entry;
            other = (apart_ages old.index old.entry old.found (omega (arith, old.age_eq)));
            found = old.found;
            valid = old.valid;
            place = inl (old.age_eq, m);
          }
      | no m ↦
          let old = t.present (a + 1) (omega (arith, one_less)) in
          record {
            index = old.index;
            entry = old.entry;
            other = (apart_ages old.index old.entry old.found (omega (arith, old.age_eq)));
            found = old.found;
            valid = old.valid;
            place = inr (old.age_eq, omega arith);
          }
    ]

    pub hit-Fit : Fit c xs pc i e.age
    hit-Fit = record {
      promotable = rw at (record {
        size = t.size;
        small = t.small;
        room = omega (arith, get_elem?-lt c.entries i g);
        limit_lt = omega (arith, get_elem?-lt xs e.age here);
        fits = omega (arith, one_less);
        keep = hit_keep;
        cover = hit_cover;
      });
      settled = λ q j d gd l. all_valid (omega (arith, one_less, ap length at)) j d gd;
      grows = inl (omega (arith, one_less, ap length at), t.used i e g v);
    }
