-- ===== src/MissCache/Lru/Access.antt =====
-- `LRUMCache::access` implements the recency list: whatever entry it picks, the cache afterwards holds
-- the list with the accessed PC in front.
use sandbox_predictor.Prelude.{
  ℕ, suc, ◌-◌, ◌≤◌, ◌<◌, ◌≡◌, sym, ap, ◌∙◌, true, set, false, some, List, arith, get_elem?, length,
  get_elem?-lt,
}
use mathlib.Core.Path.{subst}
use sandbox_predictor.Prelude.Word.{pred32}
use sandbox_predictor.MissCache.Entry.{Entry, age_younger}
use sandbox_predictor.MissCache.Ageing.{
  age_younger-entries, age_younger-Elected, promoted, length-promoted, Elected, Was, written, older,
  promoted-Was, aged-valid, aged-pc, age-le-aged, kept, moved,
}
use sandbox_predictor.MissCache.Recency.{others, touch, touch-Distinct}
use sandbox_predictor.MissCache.Lru.{LruCache, choose, access}
use sandbox_predictor.MissCache.Lru.Promote.{
  promoted-Sound, promoted-Apart, promoted-Aged, promoted_oldest,
}
use sandbox_predictor.MissCache.Lru.Hit.{Fit, hit-Fit}
use sandbox_predictor.MissCache.Lru.Miss.{vacant-Fit, evict-Fit}
use sandbox_predictor.MissCache.Lru.Tracks.{Tracks, Choice, hit, vacant, evict, choose-Choice}

module _ (c : LruCache) (xs : List ℕ) (pc : ℕ) (t : Tracks c xs) where
  abbrev front : Entry
  front = record { valid = true; pc = pc; age = 0 }

  abbrev index : ℕ
  index = (choose c pc).0

  abbrev limit : ℕ
  limit = (choose c pc).1

  fit : Fit c xs pc index limit
  fit = go (choose-Choice c pc)
    where
      go : Choice c pc → Fit c xs pc index limit
      go (hit i e g v h q) = subst (λ r. Fit c xs pc r.0 r.1) (sym q) (hit-Fit c xs pc t i e g v h)
      go (vacant i e m q g v r) =
          subst (λ r. Fit c xs pc r.0 r.1) (sym r) (vacant-Fit c xs pc t m i e q g v)
      go (evict m q r) = subst (λ r. Fit c xs pc r.0 r.1) (sym r) (evict-Fit c xs pc t m q)

  -- The cache after the access, for the LRU index that the loop leaves.
  after : ℕ → LruCache
  after lru' = record c { entries = promoted limit index front c.entries; lru = lru' }

  access_after :
      (access c pc).0 ≡ after (age_younger (pred32 c.num_entries) limit 0 c.entries c.lru).1
  unfolding access after
  access_after =
      ap
        (λ es. record c {
          entries = set es index front;
          lru = (age_younger (pred32 c.num_entries) limit 0 c.entries c.lru).1;
        })
        (age_younger-entries (pred32 c.num_entries) limit 0 c.entries c.lru)

  module _ (lru' : ℕ) (el : Elected (c.num_entries - 1) limit 0 c.entries c.lru lru') where
    was :
        (i : ℕ) (f : Entry)
        → get_elem? (promoted limit index front c.entries) i ≡ some f
        → Was limit index front c.entries i f
    was i f g =
        promoted-Was limit index front c.entries i f (omega (arith, t.size, fit.promotable.room)) g

    lru'_in : lru' < c.num_entries
    lru'_in = go el
      where
        go : Elected (c.num_entries - 1) limit 0 c.entries c.lru lru' → lru' < c.num_entries
        go (kept s all) = omega arith
        go (moved j d s gd b) = omega (arith, get_elem?-lt c.entries j gd)

    used' :
        (i : ℕ) (f : Entry)
        → get_elem? (promoted limit index front c.entries) i ≡ some f
        → f.valid ≡ true
        → i < suc (length (others c.num_entries pc xs))
    used' i f g v = go (was i f g)
      where
        go : Was limit index front c.entries i f → i < suc (length (others c.num_entries pc xs))
        go (written q r) = omega (arith, fit.grows)
        go (older e ne ge r) = omega (
          arith,
          fit.grows,
          t.used i e ge (sym (aged-valid limit e) ∙ ap (λ (t : Entry). t.valid) (sym r) ∙ v),
        )

    free' :
        (i : ℕ) (f : Entry)
        → get_elem? (promoted limit index front c.entries) i ≡ some f
        → f.valid ≡ false
        → (suc (length (others c.num_entries pc xs)) ≤ i) × (i ≤ f.age)
    free' i f g v = go (was i f g)
      where
        go :
            Was limit index front c.entries i f
            → (suc (length (others c.num_entries pc xs)) ≤ i) × (i ≤ f.age)
        go (written q r) = absurd (cc)
        go (older e ne ge r) =
            let w = sym (aged-valid limit e) ∙ ap (λ (t : Entry). t.valid) (sym r) ∙ v in
            omega (
              arith,
              fit.grows,
              t.free i e ge w,
              ap (λ (t : Entry). t.age) r,
              age-le-aged limit e (omega (arith, fit.promotable.limit_lt, t.small)),
            )

    zeroed' :
        (i : ℕ) (f : Entry)
        → get_elem? (promoted limit index front c.entries) i ≡ some f
        → f.valid ≡ false
        → f.pc ≡ 0
    zeroed' i f g v = go (was i f g)
      where
        go : Was limit index front c.entries i f → f.pc ≡ 0
        go (written q r) = absurd (cc)
        go (older e ne ge r) =
            let w = sym (aged-valid limit e) ∙ ap (λ (t : Entry). t.valid) (sym r) ∙ v in
            ap (λ (t : Entry). t.pc) r ∙ aged-pc limit e ∙ t.zeroed i e ge w

    after-Tracks : Tracks (after lru') (touch c.num_entries pc xs)
    unfolding after
    after-Tracks = record {
      size = length-promoted limit index front c.entries ∙ t.size;
      saved_size = t.saved_size;
      some_entry = t.some_entry;
      small = t.small;
      fits = omega (arith, fit.promotable.fits);
      lru_in = lru'_in;
      distinct = touch-Distinct c.num_entries pc xs t.distinct;
      sound =
          promoted-Sound c.num_entries limit index pc c.entries (others c.num_entries pc xs)
            fit.promotable;
      apart =
          promoted-Apart c.num_entries limit index pc c.entries (others c.num_entries pc xs)
            fit.promotable t.apart;
      present =
          promoted-Aged c.num_entries limit index pc c.entries (others c.num_entries pc xs)
            fit.promotable;
      used = used';
      free = free';
      zeroed = zeroed';
      oldest =
          promoted_oldest c.num_entries limit index pc c.entries (others c.num_entries pc xs)
            fit.promotable c.lru lru' t.apart t.lru_in el t.oldest fit.settled;
    }

  -- If the cache holds the PCs of `xs` with their recency, then after an access to `pc` it holds those
  -- of `touch n pc xs`: `pc` in front, the others in their order, and without the last one where `pc`
  -- is new and the cache was full.
  pub access-Tracks : Tracks (access c pc).0 (touch c.num_entries pc xs)
  access-Tracks = rw access_after (after-Tracks _ elected)
    where
      last : pred32 c.num_entries ≡ c.num_entries - 1
      last = omega (arith, t.some_entry, t.small)

      elected :
          Elected
            (c.num_entries - 1)
            limit
            0
            c.entries
            c.lru
            (age_younger (pred32 c.num_entries) limit 0 c.entries c.lru).1
      elected =
          subst
            (λ m.
              Elected m limit 0 c.entries c.lru
                (age_younger (pred32 c.num_entries) limit 0 c.entries c.lru).1)
            last (age_younger-Elected (pred32 c.num_entries) limit 0 c.entries c.lru)
