-- ===== src/MissCache/Segment/Remove.antt =====
-- `Segment::remove` takes a PC out of the recency list.
use sandbox_predictor.Prelude.{
  ℕ, suc, ◌-◌, ◌≡◌, ◌≢◌, refl, sym, ap, ◌∙◌, true, false, some, List, map, arith, get_elem?, get_or,
  set, length, remove_at, get_elem?-lt, dec_lt, get_elem?-remove_at_lt, get_elem?-remove_at_ge,
  length-remove_at, get_elem?-map, get_or-of_get_elem?, some_inj, ◌==◌, if◌then◌else◌,
}
use mathlib.Core.Path.{subst}
use sandbox_predictor.Prelude.Word.{pred32}
use sandbox_predictor.MissCache.Entry.{Entry, blank}
use sandbox_predictor.MissCache.Recency.{position, remove_at-Distinct}
use sandbox_predictor.MissCache.Segment.{Segment, remove, remove_from, remove_idx, rejuvenated}
use sandbox_predictor.MissCache.Segment.Reindex.{Ranked, Relist}
use sandbox_predictor.MissCache.Segment.Promote.{
  Holds, up_back, down_back, back-Renumber, back-Carries,
}
use sandbox_predictor.MissCache.Segment.Lookup.{Lookup, held, unheld, lookup}
use sandbox_predictor.MissCache.Segment.Reindex.{rewritten, rewritten_self}
use sandbox_predictor.MissCache.Segment.Rank.{rewritten-Ranked}

module _ (s : Segment) (xs : List ℕ) (pc : ℕ) (h : Holds s xs) where
  abbrev cleared : Entry
  cleared = record { valid = false; pc = 0; age = pred32 s.num_entries }

  module _ (i : ℕ) (e : Entry) (g : get_elem? s.entries i ≡ some e) (w : e.pc ≡ pc)
      (at : get_elem? xs e.age ≡ some pc) where
    last : pred32 s.num_entries ≡ s.num_entries - 1
    last = omega (arith, h.some_entry, h.small)

    one_less : suc (length (remove_at e.age xs)) ≡ length xs
    one_less = length-remove_at e.age xs (get_elem?-lt xs e.age at)

    back-moved :
        (a q : ℕ)
        → a ≢ e.age
        → get_elem? xs a ≡ some q
        → get_elem? (remove_at e.age xs) (up_back e.age a) ≡ some q
    back-moved a q ne ga = elim (dec_lt a e.age) [
      | yes l ↦
          let u : up_back e.age a ≡ a = ground arith in
          ap (get_elem? (remove_at e.age xs)) u ∙ get_elem?-remove_at_lt e.age xs a l ∙ ga
      | no l ↦
          let u : up_back e.age a ≡ a - 1 = ground arith in
          let u' : suc (a - 1) ≡ a = omega arith in
          ap (get_elem? (remove_at e.age xs)) u
          ∙ get_elem?-remove_at_ge e.age xs (a - 1) (omega arith)
          ∙ ap (get_elem? xs) u'
          ∙ ga
    ]

    remove-Relist :
        Relist s.num_entries e.age
          (s.num_entries - 1)
          (up_back e.age)
          cleared
          xs
          (remove_at e.age xs)
    remove-Relist = record {
      fits = omega (arith, one_less, h.ranked.fits);
      distinct = remove_at-Distinct e.age xs h.ranked.distinct;
      moved = back-moved;
      beyond = λ a l ne m. ground (arith, one_less, get_elem?-lt xs e.age at);
      fresh_age = last;
      fresh_sound = λ f. absurd (cc);
      fresh_free = λ f. (omega (arith, one_less, h.ranked.fits), refl);
    }

    abbrev array : List Entry
    array = rewritten (rejuvenated e.age) i cleared s.entries

    removed-Ranked : Ranked s.num_entries array (remove_at e.age xs)
    removed-Ranked =
        rewritten-Ranked s.num_entries e.age (s.num_entries - 1) (up_back e.age) (down_back e.age)
          (rejuvenated e.age) i e cleared s.entries xs (remove_at e.age xs) h.ranked g refl
          (omega (arith, h.some_entry)) (back-Renumber s.num_entries e.age (h.ranked.bounded i e g))
          (back-Carries s.num_entries e.age h.small) remove-Relist

    -- what `remove` does behind its test
    written : ℕ → Segment
    written a =
        let es = map (rejuvenated a) s.entries in
        if (get_or es i blank).pc == pc
        then record s { entries = set es i cleared; lru = i }
        else record s { entries = es }

    here : get_elem? (map (rejuvenated e.age) s.entries) i ≡ some (rejuvenated e.age e)
    here = get_elem?-map (rejuvenated e.age) s.entries i ∙ rw g

    same_pc : (get_or (map (rejuvenated e.age) s.entries) i blank).pc ≡ pc
    same_pc =
        ap (λ (t : Entry). t.pc)
          (get_or-of_get_elem? (map (rejuvenated e.age) s.entries) i blank here)
        ∙ ground arith

    removed : remove_from s pc i ≡ record s { entries = array; lru = i }
    unfolding remove_from written
    removed =
        let t : ((get_or (map (rejuvenated e.age) s.entries) i blank).pc == pc) ≡ true =
          ground (arith, same_pc) in
        ap (λ (d : Entry). written d.age) (get_or-of_get_elem? s.entries i blank g) ∙ rw t

    remove_from-Holds : Holds (remove_from s pc i) (remove_at e.age xs)
    remove_from-Holds =
        subst (λ s'. Holds s' (remove_at e.age xs)) (sym removed)
          (record {
            some_entry = h.some_entry;
            small = h.small;
            ranked = removed-Ranked;
            top = cleared;
            top_found =
                rewritten_self (rejuvenated e.age) i cleared s.entries (get_elem?-lt s.entries i g);
            top_age = last;
          })

  -- If the segment holds the PCs of `xs` and `pc` stands at place `a`, then `remove` takes it out and
  -- leaves the others in their order.
  pub remove-Holds : (a : ℕ) → position pc xs ≡ some a → Holds (remove s pc) (remove_at a xs)
  unfolding remove
  remove-Holds a p = go (lookup s xs pc h)
    where
      go : Lookup s xs pc → Holds (remove_from s pc (remove_idx s pc)) (remove_at a xs)
      go (unheld q p') = absurd (cc)
      go (held i e q g v w at p') =
          let loc : remove_idx s pc ≡ i = rw (q, remove_idx) in
          subst (λ r. Holds (remove_from s pc r) (remove_at a xs)) (sym loc)
            (subst (λ b. Holds (remove_from s pc i) (remove_at b xs)) (some_inj (sym p' ∙ p))
              (remove_from-Holds i e g w at))
