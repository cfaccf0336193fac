-- ===== src/MissCache/Lru/Miss.antt =====
-- An access that does not find its PC in the LRU miss cache: the free entry or the oldest one fits
-- the recency list.
use sandbox_predictor.Prelude.{
  ℕ, suc, ◌-◌, ◌<◌, ◌≡◌, sym, ap, ◌∙◌, ◌≢◌, inl, inr, true, false, not, none, some, List, arith,
  get_elem?, length, take, get_elem?-lt, find_index, get_elem?-take, length-take, take_all,
  Bool-cases, some_inj,
}
use sandbox_predictor.Prelude.Word.{pred32}
use sandbox_predictor.MissCache.Entry.{Entry, holds}
use sandbox_predictor.MissCache.Recency.{others, others_miss}
use sandbox_predictor.MissCache.Lru.{LruCache}
use sandbox_predictor.MissCache.Lru.Promote.{Aged, Kept, younger, Filled}
use sandbox_predictor.MissCache.Lru.Hit.{Fit, all_valid}
use sandbox_predictor.MissCache.Lru.Tracks.{Tracks, position_absent, vacant_index, no_vacant}

module _ (c : LruCache) (xs : List ℕ) (pc : ℕ) (t : Tracks c xs)
    (miss : find_index (holds pc) c.entries ≡ none) where
  last : pred32 c.num_entries ≡ c.num_entries - 1
  last = omega arith

  at : others c.num_entries pc xs ≡ take (c.num_entries - 1) xs
  at = others_miss c.num_entries pc xs (position_absent c xs pc t miss)

  -- A valid entry younger than the oldest place keeps its place.
  young :
      (d : Entry) (j : ℕ)
      → get_elem? c.entries j ≡ some d
      → d.valid ≡ true
      → d.age < c.num_entries - 1
      → Kept (pred32 c.num_entries) (take (c.num_entries - 1) xs) d.age d.pc
  young d j gd w l =
      younger (omega arith) (get_elem?-take (c.num_entries - 1) xs d.age l ∙ t.sound j d gd w)

  fill :
      (k a : ℕ) (old : Aged c.entries a)
      → old.index ≢ k
      → a < c.num_entries - 1
      → Filled (pred32 c.num_entries) k c.entries a
  fill k a old ne l = record {
    index = old.index;
    entry = old.entry;
    other = ne;
    found = old.found;
    valid = old.valid;
    place = inl (old.age_eq, omega arith);
  }

  module _ (i : ℕ) (e : Entry) (q : find_index (λ (e : Entry). not e.valid) c.entries ≡ some i)
      (g : get_elem? c.entries i ≡ some e) (v : e.valid ≡ false) where
    behind : i ≡ length xs
    behind = vacant_index c xs pc t i e q g v

    room : i < c.num_entries
    room = omega (arith, get_elem?-lt c.entries i g)

    whole : take (c.num_entries - 1) xs ≡ xs
    whole = take_all (c.num_entries - 1) xs (omega (arith, behind, room))

    occupied : {a : ℕ} (old : Aged c.entries a) → old.index ≢ i
    occupied old s = let f = old.found in let w = old.valid in cc

    -- Where one entry was free it stood last in the array, and was among the oldest.
    filled :
        suc (length (others c.num_entries pc xs)) ≡ c.num_entries
        → (j : ℕ) (d : Entry) → get_elem? c.entries j ≡ some d
        → d.age < pred32 c.num_entries
        → d.valid ≡ true
    filled r j d gd l = elim (Bool-cases d.valid) [
      | inl w ↦ w
      | inr w ↦ absurd (omega (arith, t.free j d gd w, ap length at, ap length whole))
    ]

    pub vacant-Fit : Fit c xs pc i (pred32 c.num_entries)
    vacant-Fit = record {
      promotable = rw at (record {
        size = t.size;
        small = t.small;
        room = room;
        limit_lt = omega arith;
        fits = omega (arith, ap length whole, behind, room);
        keep = λ j d ne gd w.
            young d j gd w (omega (arith, get_elem?-lt xs d.age (t.sound j d gd w), behind, room));
        cover = λ a l.
            let a_lt : a < length xs = omega (arith, ap length whole) in
            fill i a (t.present a a_lt) (occupied (t.present a a_lt)) (omega (arith, behind, room));
      });
      settled = λ r j d gd l. filled r j d gd l;
      grows = inr (sym (ap length (at ∙ whole)), behind);
    }

  module _ (q : find_index (λ (e : Entry). not e.valid) c.entries ≡ none) where
    full : length xs ≡ c.num_entries
    full = no_vacant c xs pc t q

    shorter : length (take (c.num_entries - 1) xs) ≡ c.num_entries - 1
    shorter = length-take (c.num_entries - 1) xs (omega (arith, full))

    -- The LRU entry is the one of the greatest age, so an entry of a smaller age is another.
    not_oldest : (a : ℕ) → a < c.num_entries - 1 → (old : Aged c.entries a) → old.index ≢ c.lru
    not_oldest a l old s =
        let top = t.present (c.num_entries - 1) (omega (arith, full)) in
        let at_lru = t.oldest top.index top.entry top.found top.valid top.age_eq in
        let same : old.entry ≡ top.entry =
          some_inj (sym old.found ∙ ap (get_elem? c.entries) (s ∙ sym at_lru) ∙ top.found) in
        omega (arith, ap (λ (e : Entry). e.age) same, old.age_eq, top.age_eq)

    pub evict-Fit : Fit c xs pc c.lru (pred32 c.num_entries)
    evict-Fit = record {
      promotable = rw at (record {
        size = t.size;
        small = t.small;
        room = t.lru_in;
        limit_lt = omega arith;
        fits = omega (arith, shorter);
        keep = λ j d ne gd w.
            let old : d.age ≢ c.num_entries - 1 = λ r. ne (t.oldest j d gd w r) in
            young d j gd w (omega (arith, get_elem?-lt xs d.age (t.sound j d gd w), full));
        cover = λ a l.
            fill c.lru a (t.present a (omega (arith, shorter, full)))
              (not_oldest a (omega (arith, shorter)) (t.present a (omega (arith, shorter, full))))
              (omega (arith, shorter));
      });
      settled = λ r j d gd l. all_valid c xs pc t full j d gd;
      grows = inl (omega (arith, shorter, full, ap length at), omega (arith, full));
    }
