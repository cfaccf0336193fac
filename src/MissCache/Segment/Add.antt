-- ===== src/MissCache/Segment/Add.antt =====
-- `Segment::add` puts a new PC in front of the recency list, and returns the one that falls off it.
use sandbox_predictor.Prelude.{
  ℕ, suc, ◌+◌, ◌-◌, ◌≤◌, ◌<◌, ◌≡◌, ◌≢◌, refl, sym, ap, ◌∙◌, true, none, some, List, [], ◌∷◌, arith,
  get_elem?, get_or, set, length, get_elem?-lt, get_or-of_get_elem?, some_inj, take, length-take_le,
  get_elem?-take, get_elem?-take-some, get_or-out, Bool-cases, find_index-none, inl, inr, ◌==◌,
  if◌then◌else◌,
}
use mathlib.Core.Path.{subst, ap₂}
use sandbox_predictor.Prelude.Word.{pred32}
use sandbox_predictor.MissCache.Entry.{Entry, age_younger, blank}
use sandbox_predictor.MissCache.Ageing.{age_younger-entries}
use sandbox_predictor.MissCache.Recency.{position, cons-Distinct}
use sandbox_predictor.MissCache.Segment.{Segment, add, age_others}
use sandbox_predictor.MissCache.Segment.Reindex.{Relist}
use sandbox_predictor.MissCache.Segment.Promote.{Holds, up_front, fronted, fronted-Holds}

-- Where every entry but that at `k` is younger than `limit` the loop of `add` ages those below `limit`.
age_others-eq :
    (last limit k i : ℕ) (es : List Entry) (lru : ℕ)
    → ((j : ℕ) (e : Entry) → get_elem? es j ≡ some e → i + j ≢ k → e.age < limit)
    → ((j : ℕ) (e : Entry) → get_elem? es j ≡ some e → i + j ≡ k → limit ≤ e.age)
    → age_others last k i es lru ≡ age_younger last limit i es lru
age_others-eq last limit k i [] lru lo hi = refl
age_others-eq last limit k i (e ∷ es) lru lo hi =
    ap₂ (λ (d : Entry) (r : List Entry × ℕ). (d ∷ r.0, r.1))
      (ground (arith, lo 0 e refl, hi 0 e refl))
      (ap (age_others last k (i + 1) es) (ground (arith, lo 0 e refl, hi 0 e refl))
        ∙ age_others-eq last limit k (i + 1) es _
            (λ j d g ne. lo (suc j) d g (λ q. ne (omega arith)))
            (λ j d g q. hi (suc j) d g (omega arith)))

module _ (s : Segment) (xs : List ℕ) (pc : ℕ) (h : Holds s xs) (new : position pc xs ≡ none) where
  abbrev n : ℕ
  n = s.num_entries

  abbrev zs : List ℕ
  zs = take (n - 1) xs

  abbrev front : Entry
  front = record { valid = true; pc = pc; age = 0 }

  shorter : (length zs ≤ n - 1) × (length zs ≤ length xs)
  shorter = length-take_le (n - 1) xs

  absent : (j : ℕ) → get_elem? zs j ≢ some pc
  absent j g =
      absurd (
        ground
          (arith, find_index-none (λ x. x == pc) xs j new (get_elem?-take-some (n - 1) xs j g)))

  add-moved :
      (a q : ℕ)
      → a ≢ h.top.age
      → get_elem? xs a ≡ some q
      → get_elem? (pc ∷ zs) (up_front h.top.age a) ≡ some q
  add-moved a q ne g =
      let l : a < n - 1 = omega (arith, get_elem?-lt xs a g, h.ranked.fits, h.top_age) in
      let u : up_front h.top.age a ≡ suc a = ground (arith, h.top_age) in
      ap (get_elem? (pc ∷ zs)) u ∙ get_elem?-take (n - 1) xs a l ∙ g

  add-Relist : Relist n h.top.age 0 (up_front h.top.age) front xs (pc ∷ zs)
  add-Relist = record {
    fits = omega (arith, shorter, h.some_entry);
    distinct = cons-Distinct pc zs absent (λ a b p ga gb.
        h.ranked.distinct a b p (get_elem?-take-some (n - 1) xs a ga)
          (get_elem?-take-some (n - 1) xs b gb));
    moved = λ a q ne g. add-moved a q ne g;
    beyond = λ a l ne m. ground (arith, shorter, h.top_age);
    fresh_age = refl;
    fresh_sound = λ _. refl;
    fresh_free = λ f. absurd (cc);
  }

  last : pred32 n ≡ n - 1
  last = omega (arith, h.some_entry, h.small)

  -- Only the oldest entry is as old as the limit of the loop.
  young_others :
      (j : ℕ) (e : Entry) → get_elem? s.entries j ≡ some e → 0 + j ≢ s.lru → e.age < h.top.age
  young_others j e g ne =
      let other : e.age ≢ h.top.age =
        λ q. ne (omega (arith, h.ranked.apart j s.lru e h.top g h.top_found q)) in
      omega (arith, h.ranked.bounded j e g, h.top_age)

  old_lru : (j : ℕ) (e : Entry) → get_elem? s.entries j ≡ some e → 0 + j ≡ s.lru → h.top.age ≤ e.age
  old_lru j e g q =
      let q' : j ≡ s.lru = omega arith in
      let same : e ≡ h.top = some_inj (sym g ∙ ap (get_elem? s.entries) q' ∙ h.top_found) in
      omega (arith, ap (λ (t : Entry). t.age) same)

  loop :
      age_others (pred32 n) s.lru 0 s.entries s.lru
      ≡ age_younger (pred32 n) h.top.age 0 s.entries s.lru
  loop = age_others-eq (pred32 n) h.top.age s.lru 0 s.entries s.lru young_others old_lru

  -- what `add` makes of the array and the index that its loop leaves
  written : List Entry × ℕ → Segment
  written r = record s { entries = set r.0 s.lru front; lru = r.1 }

  added :
      (add s pc).0
      ≡ fronted s xs
          (pc ∷ zs)
          s.lru
          h.top
          front
          h
          h.top_found
          add-Relist
          (age_younger (pred32 n) h.top.age 0 s.entries s.lru).1
  unfolding add written
  added =
      ap written loop
      ∙ ap (λ es. written (es, (age_younger (pred32 n) h.top.age 0 s.entries s.lru).1))
          (age_younger-entries (pred32 n) h.top.age 0 s.entries s.lru)

  evicted : (if h.top.valid then h.top.pc else 0) ≡ get_or xs (n - 1) 0
  evicted = elim (Bool-cases h.top.valid) [
    | inl v ↦
        let g : get_elem? xs (n - 1) ≡ some h.top.pc =
          ap (get_elem? xs) (sym h.top_age) ∙ h.ranked.sound s.lru h.top h.top_found v in
        rw v (sym (get_or-of_get_elem? xs (n - 1) 0 g))
    | inr v ↦
        let o = h.ranked.free s.lru h.top h.top_found v in
        rw v (sym (get_or-out xs (n - 1) 0 (omega (arith, o, h.top_age))))
  ]

  -- If the segment holds the PCs of `xs`, without `pc`, then `add` puts `pc` in front and drops the
  -- last PC of a full list, which it returns; it returns 0 where the list is not full.
  pub add-Holds :
      Holds (add s pc).0 (pc ∷ take (s.num_entries - 1) xs)
      × ((add s pc).1 ≡ get_or xs (s.num_entries - 1) 0)
  unfolding add
  add-Holds = (
    subst (λ s'. Holds s' (pc ∷ zs)) (sym added)
        (fronted-Holds s xs (pc ∷ zs) s.lru h.top front h h.top_found add-Relist),
    ap (λ (e : Entry). if e.valid then e.pc else 0)
          (get_or-of_get_elem? s.entries s.lru blank h.top_found)
        ∙ evicted,
  )
