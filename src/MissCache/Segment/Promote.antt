-- ===== src/MissCache/Segment/Promote.antt =====
-- The two ways in which a segment renumbers its ages: an entry becomes the youngest or the oldest.
use sandbox_predictor.Prelude.{
  ℕ, suc, ◌-◌, ◌<◌, ◌^◌, ◌≡◌, ◌≢◌, refl, sym, ap, ◌∙◌, false, some, List, arith, get_elem?, ltb,
  leb, if◌then◌else◌, get_elem?-lt, ℕ_discrete, some_inj,
}
use mathlib.Core.Path.{subst}
use sandbox_predictor.Prelude.Word.{pred32}
use sandbox_predictor.MissCache.Entry.{Entry, aged, age_younger, becomes_last}
use sandbox_predictor.MissCache.Ageing.{
  Elected, kept, moved, age_younger-Elected, aged-pc, aged-valid, aged-elder,
}
use sandbox_predictor.MissCache.Segment.{Segment, rejuvenated}
use sandbox_predictor.MissCache.Segment.Reindex.{
  Ranked, Renumber, Carries, Relist, rewritten, rewritten_self, rewritten_ne,
}
use sandbox_predictor.MissCache.Segment.Rank.{rewritten-Ranked}

-- The segment holds the PCs of `xs`, most recent first, and `lru` is the index of its oldest entry.
pub record Holds (s : Segment) (xs : List ℕ) : Type 0 where
  pub some_entry : 0 < s.num_entries
  pub small : s.num_entries < 2 ^ 32
  pub ranked : Ranked s.num_entries s.entries xs
  pub top : Entry
  pub top_found : get_elem? s.entries s.lru ≡ some top
  pub top_age : top.age ≡ s.num_entries - 1

-- To the front: the ages below `limit` grow, and age 0 is free.
abbrev pub up_front : ℕ → ℕ → ℕ
up_front limit a = if ltb a limit then suc a else a

down_front : ℕ → ℕ → ℕ
down_front limit b = if leb b limit then b - 1 else b

front-Renumber : (n limit : ℕ) → limit < n → Renumber n limit 0 (up_front limit) (down_front limit)
unfolding down_front
front-Renumber n limit h = record {
  up_lt = λ a l ne. ground arith;
  up_ne = λ a l ne q. ground arith;
  down-up = λ a l ne. ground arith;
  down_lt = λ b l ne. ground arith;
  down_ne = λ b l ne q. ground arith;
  up-down = λ b l ne. ground arith;
}

front-Carries :
    (n limit : ℕ) → limit < n → n < 2 ^ 32 → Carries limit (up_front limit) (aged limit) n
front-Carries n limit h s = record {
  age_eq = λ e l ne. ground arith;
  pc_eq = aged-pc limit;
  valid_eq = aged-valid limit;
}

-- To the back: the ages above `limit` shrink, and age `n - 1` is free.
abbrev pub up_back : ℕ → ℕ → ℕ
up_back limit a = if ltb limit a then a - 1 else a

pub down_back : ℕ → ℕ → ℕ
down_back limit b = if ltb b limit then b else suc b

pub back-Renumber :
    (n limit : ℕ) → limit < n → Renumber n limit (n - 1) (up_back limit) (down_back limit)
unfolding down_back
back-Renumber n limit h = record {
  up_lt = λ a l ne. ground arith;
  up_ne = λ a l ne q. ground arith;
  down-up = λ a l ne. ground arith;
  down_lt = λ b l ne. ground arith;
  down_ne = λ b l ne q. ground arith;
  up-down = λ b l ne. ground arith;
}

pub back-Carries : (n limit : ℕ) → n < 2 ^ 32 → Carries limit (up_back limit) (rejuvenated limit) n
back-Carries n limit s = record {
  age_eq = λ e l ne. ground arith;
  pc_eq = λ e. ground arith;
  valid_eq = λ e. ground arith;
}

module _ (s : Segment) (xs ys : List ℕ) (k : ℕ) (d front : Entry) (h : Holds s xs)
    (at_k : get_elem? s.entries k ≡ some d)
    (lis : Relist s.num_entries d.age 0 (up_front d.age) front xs ys) where
  limit_lt : d.age < s.num_entries
  limit_lt = h.ranked.bounded k d at_k

  front-Ranked : Ranked s.num_entries (rewritten (aged d.age) k front s.entries) ys
  front-Ranked =
      rewritten-Ranked s.num_entries d.age 0 (up_front d.age) (down_front d.age) (aged d.age) k d
        front s.entries xs ys h.ranked at_k refl h.some_entry
        (front-Renumber s.num_entries d.age limit_lt)
        (front-Carries s.num_entries d.age limit_lt h.small) lis

  abbrev pub fronted : ℕ → Segment
  fronted lru' = record s { entries = rewritten (aged d.age) k front s.entries; lru = lru' }

  -- the entry at the index that the loop elects is the oldest
  record Top (lru' : ℕ) : Type 0 where
    entry : Entry
    found : get_elem? (rewritten (aged d.age) k front s.entries) lru' ≡ some entry
    age_eq : entry.age ≡ s.num_entries - 1

  Top-other :
      (j : ℕ) (e : Entry) (lru' : ℕ)
      → lru' ≡ j
      → j ≢ k
      → get_elem? s.entries j ≡ some e
      → (aged d.age e).age ≡ s.num_entries - 1
      → Top lru'
  Top-other j e lru' q ne g a = record {
    entry = aged d.age e;
    found =
        ap (get_elem? (rewritten (aged d.age) k front s.entries)) q
        ∙ rewritten_ne (aged d.age) k front s.entries j e ne g;
    age_eq = a;
  }

  -- Where an entry of age `n - 2` stands below the limit the loop elects it.
  kept_Top :
      (lru' : ℕ)
      → lru' ≡ s.lru
      → ((j : ℕ) (e : Entry)
          → get_elem? s.entries j ≡ some e
          → becomes_last (s.num_entries - 1) d.age e ≡ false)
      → Top lru'
  kept_Top lru' q all = elim (ℕ_discrete d.age (s.num_entries - 1)) [
    | no ne ↦
        let off : s.lru ≢ k = λ r. ne (
          ap (λ (e : Entry). e.age)
            (some_inj (sym at_k ∙ ap (get_elem? s.entries) (sym r) ∙ h.top_found))
          ∙ h.top_age) in
        Top-other s.lru h.top lru' q off h.top_found (
          ap (λ (e : Entry). e.age) (aged-elder d.age h.top (omega (arith, h.top_age, limit_lt)))
          ∙ h.top_age)
    | yes r ↦ elim (ℕ_discrete s.num_entries 1) [
      | yes one ↦ record {
        entry = front;
        found =
            ap (get_elem? (rewritten (aged d.age) k front s.entries)) (
              omega (
                arith,
                get_elem?-lt s.entries s.lru h.top_found,
                get_elem?-lt s.entries k at_k,
                h.ranked.size,
              ))
            ∙ rewritten_self (aged d.age) k front s.entries (get_elem?-lt s.entries k at_k);
        age_eq = omega (arith, lis.fresh_age);
      }
      | no more ↦
          let old = h.ranked.present (s.num_entries - 2) (omega arith) in
          absurd (ground (arith, all old.index old.entry old.found, old.age_eq))
    ]
  ]

  Elected-Top : (lru' : ℕ) → Elected (s.num_entries - 1) d.age 0 s.entries s.lru lru' → Top lru'
  Elected-Top lru' (kept q all) = kept_Top lru' q all
  Elected-Top lru' (moved j e q g b) =
      let off : j ≢ k = λ r. absurd (
        ground (
          arith,
          ap (λ (e : Entry). e.age) (some_inj (sym at_k ∙ ap (get_elem? s.entries) (sym r) ∙ g)),
        )) in
      Top-other j e lru' (omega arith) off g (ground arith)

  pub fronted-Holds :
      Holds (fronted (age_younger (pred32 s.num_entries) d.age 0 s.entries s.lru).1) ys
  fronted-Holds = record {
    some_entry = h.some_entry;
    small = h.small;
    ranked = front-Ranked;
    top = top.entry;
    top_found = top.found;
    top_age = top.age_eq;
  }
    where
      last : pred32 s.num_entries ≡ s.num_entries - 1
      last = omega (arith, h.some_entry, h.small)

      top : Top (age_younger (pred32 s.num_entries) d.age 0 s.entries s.lru).1
      top = Elected-Top (age_younger (pred32 s.num_entries) d.age 0 s.entries s.lru).1 (
          subst
            (λ m.
              Elected m d.age 0 s.entries s.lru
                (age_younger (pred32 s.num_entries) d.age 0 s.entries s.lru).1)
            last (age_younger-Elected (pred32 s.num_entries) d.age 0 s.entries s.lru))
