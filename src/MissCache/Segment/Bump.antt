-- ===== src/MissCache/Segment/Bump.antt =====
-- `Segment::bump` moves a PC to the front of the recency list.
use sandbox_predictor.Prelude.{
  ℕ, suc, ◌-◌, ◌≡◌, ◌≢◌, refl, sym, ap, ◌∙◌, true, false, some, List, [], ◌∷◌, map, arith,
  get_elem?, get_or, set, length, remove_at, get_elem?-lt, dec_lt, ℕ_discrete,
  get_elem?-remove_at_lt, get_elem?-remove_at_ge, length-remove_at, get_elem?-map,
  get_or-of_get_elem?, some_inj, ◌==◌,
}
use mathlib.Core.Path.{subst}
use sandbox_predictor.Prelude.Word.{pred32}
use sandbox_predictor.MissCache.Entry.{Entry, aged, age_younger, blank}
use sandbox_predictor.MissCache.Ageing.{age_younger-entries, aged-elder}
use sandbox_predictor.MissCache.Recency.{
  position, cons-Distinct, remove_at-Distinct, remove_at-absent,
}
use sandbox_predictor.MissCache.Segment.{Segment, bump, bump_to, located}
use sandbox_predictor.MissCache.Segment.Reindex.{Relist}
use sandbox_predictor.MissCache.Segment.Promote.{Holds, up_front, fronted, fronted-Holds}
use sandbox_predictor.MissCache.Segment.Lookup.{Lookup, held, unheld, lookup}

-- The list with its element at `a` in front.
abbrev pub to_front : ℕ → List ℕ → ℕ → List ℕ
to_front pc xs a = pc ∷ remove_at a xs

to_front_zero : (pc : ℕ) (xs : List ℕ) → get_elem? xs 0 ≡ some pc → to_front pc xs 0 ≡ xs
to_front_zero pc [] g = absurd (cc)
to_front_zero pc (x ∷ xs) g = cc

module _ (s : Segment) (xs : List ℕ) (pc : ℕ) (h : Holds s xs) where
  module _ (i : ℕ) (e : Entry) (g : get_elem? s.entries i ≡ some e) (v : e.valid ≡ true)
      (w : e.pc ≡ pc) (at : get_elem? xs e.age ≡ some pc) where
    one_less : suc (length (remove_at e.age xs)) ≡ length xs
    one_less = length-remove_at e.age xs (get_elem?-lt xs e.age at)

    front-moved :
        (a q : ℕ)
        → a ≢ e.age
        → get_elem? xs a ≡ some q
        → get_elem? (to_front pc xs e.age) (up_front e.age a) ≡ some q
    front-moved a q ne ga = elim (dec_lt a e.age) [
      | yes l ↦
          let u : up_front e.age a ≡ suc a = ground arith in
          ap (get_elem? (to_front pc xs e.age)) u ∙ get_elem?-remove_at_lt e.age xs a l ∙ ga
      | no l ↦
          let u : up_front e.age a ≡ suc (a - 1) = ground arith in
          let u' : suc (a - 1) ≡ a = omega arith in
          ap (get_elem? (to_front pc xs e.age)) u
          ∙ get_elem?-remove_at_ge e.age xs (a - 1) (omega arith)
          ∙ ap (get_elem? xs) u'
          ∙ ga
    ]

    bump-Relist :
        Relist s.num_entries e.age 0
          (up_front e.age)
          (record e { age = 0 })
          xs
          (to_front pc xs e.age)
    bump-Relist = record {
      fits = omega (arith, one_less, h.ranked.fits);
      distinct =
          cons-Distinct pc (remove_at e.age xs)
            (λ j. remove_at-absent e.age xs j pc h.ranked.distinct at)
            (remove_at-Distinct e.age xs h.ranked.distinct);
      moved = front-moved;
      beyond = λ a l ne m. ground (arith, one_less, get_elem?-lt xs e.age at);
      fresh_age = refl;
      fresh_sound = λ _. ap some (sym w);
      fresh_free = λ f. absurd (cc);
    }

    -- the index that the loop of `bump` leaves
    abbrev elected : ℕ
    elected = (age_younger (pred32 s.num_entries) e.age 0 s.entries s.lru).1

    -- what `bump` makes of the array that its loop leaves, and of the entry that it finds there
    written : List Entry → Entry → Segment
    written es d = record s { entries = set es i (record d { age = 0 }); lru = elected }

    same_entry : get_or (map (aged e.age) s.entries) i blank ≡ e
    same_entry = get_or-of_get_elem? (map (aged e.age) s.entries) i blank (
        get_elem?-map (aged e.age) s.entries i
        ∙ (rw g)
        ∙ ap some (aged-elder e.age e (omega arith)))

    bumped :
        e.age ≢ 0
        → bump_to s (i, e.age)
          ≡ fronted s xs (to_front pc xs e.age) i e (record e { age = 0 }) h g bump-Relist elected
    unfolding bump_to written
    bumped ne =
        let f : (e.age == 0) ≡ false = ground arith in
        let loop = age_younger-entries (pred32 s.num_entries) e.age 0 s.entries s.lru in
        rw f (
          ap (λ es. written es (get_or es i blank)) loop
          ∙ ap (written (map (aged e.age) s.entries)) same_entry)

    kept_front : e.age ≡ 0 → (bump_to s (i, e.age) ≡ s) × (to_front pc xs e.age ≡ xs)
    unfolding bump_to
    kept_front z =
        let f : (e.age == 0) ≡ true = ground arith in
        (rw f, ap (to_front pc xs) z ∙ to_front_zero pc xs (ap (get_elem? xs) (sym z) ∙ at))

    bump_to-Holds : Holds (bump_to s (i, e.age)) (to_front pc xs e.age)
    bump_to-Holds = elim (ℕ_discrete e.age 0) [
      | yes z ↦
          subst (λ s'. Holds s' (to_front pc xs e.age)) (sym (kept_front z).0)
            (subst (Holds s) (sym (kept_front z).1) h)
      | no ne ↦
          subst (λ s'. Holds s' (to_front pc xs e.age)) (sym (bumped ne))
            (fronted-Holds s xs (to_front pc xs e.age) i e (record e { age = 0 }) h g bump-Relist)
    ]

  -- If the segment holds the PCs of `xs` and `pc` stands at place `a`, then `bump` moves it to the
  -- front.
  pub bump-Holds : (a : ℕ) → position pc xs ≡ some a → Holds (bump s pc) (to_front pc xs a)
  unfolding bump
  bump-Holds a p = go (lookup s xs pc h)
    where
      go : Lookup s xs pc → Holds (bump_to s (located s pc)) (to_front pc xs a)
      go (unheld q p') = absurd (cc)
      go (held i e q g v w at p') =
          let loc : located s pc ≡ (i, e.age) =
            rw (q, located)
              (ap (λ (t : Entry). (i, t.age)) (get_or-of_get_elem? s.entries i blank g)) in
          subst (λ r. Holds (bump_to s r) (to_front pc xs a)) (sym loc)
            (subst (λ b. Holds (bump_to s (i, e.age)) (to_front pc xs b)) (some_inj (sym p' ∙ p))
              (bump_to-Holds i e g v w at))
