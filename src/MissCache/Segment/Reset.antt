-- ===== src/MissCache/Segment/Reset.antt =====
-- A segment after `reset` is empty, whatever its array held.
use sandbox_predictor.Prelude.{
  ℕ, ◌+◌, ◌-◌, ◌<◌, ◌^◌, ◌≡◌, ◌≢◌, refl, ap, ◌∙◌, true, false, some, List, [], arith, get_elem?,
  length, get_elem?-lt,
}
use sandbox_predictor.Prelude.Word.{pred32}
use sandbox_predictor.MissCache.Entry.{
  Entry, reset_from, reset_from-entry, length-reset_from, get_elem?-reset_from,
}
use sandbox_predictor.MissCache.Segment.{Segment, reset, construct}
use sandbox_predictor.MissCache.Segment.Reindex.{Ranked}
use sandbox_predictor.MissCache.Segment.Promote.{Holds}

blank_at : ℕ → Entry
blank_at i = record { valid = false; pc = 0; age = i }

-- An array of `n` cells after `reset`.
reset_from-Ranked : (n : ℕ) (mem : List Entry) → length mem ≡ n → Ranked n (reset_from 0 mem) []
unfolding blank_at
reset_from-Ranked n mem lm = record {
  size = length-reset_from 0 mem ∙ lm;
  fits = omega arith;
  distinct = λ a b p g h. absurd (cc);
  bounded = λ i e g.
      omega (arith, age_at i e g, get_elem?-lt (reset_from 0 mem) i g, length-reset_from 0 mem);
  apart = λ i j e f ge gf q. omega (arith, age_at i e ge, age_at j f gf);
  present = λ a l. record {
    index = a;
    entry = blank_at a;
    found = get_elem?-reset_from 0 mem a (omega arith) ∙ ap (λ k. some (blank_at k)) (omega arith);
    age_eq = refl;
  };
  sound = λ i e g v. absurd (invalid i e g v);
  free = λ i e g v. (omega arith, ap (λ (t : Entry). t.pc) (reset_from-entry 0 mem i g));
}
  where
    age_at : (i : ℕ) (e : Entry) → get_elem? (reset_from 0 mem) i ≡ some e → e.age ≡ 0 + i
    age_at i e g = ap (λ (t : Entry). t.age) (reset_from-entry 0 mem i g)

    invalid : (i : ℕ) (e : Entry) → get_elem? (reset_from 0 mem) i ≡ some e → e.valid ≢ true
    invalid i e g v = let r = reset_from-entry 0 mem i g in cc

pub reset-Holds :
    (s : Segment)
    → 0 < s.num_entries
    → s.num_entries < 2 ^ 32
    → length s.entries ≡ s.num_entries
    → Holds (reset s) []
unfolding reset blank_at
reset-Holds s lo hi l = record {
  some_entry = lo;
  small = hi;
  ranked = reset_from-Ranked s.num_entries s.entries l;
  top = blank_at (s.num_entries - 1);
  top_found =
      ap (get_elem? (reset_from 0 s.entries)) last
      ∙ get_elem?-reset_from 0 s.entries (s.num_entries - 1) (omega arith)
      ∙ ap (λ k. some (blank_at k)) (omega arith);
  top_age = refl;
}
  where
    last : pred32 s.num_entries ≡ s.num_entries - 1
    last = omega arith

pub construct-Holds :
    (n : ℕ) (mem : List Entry) → 0 < n → n < 2 ^ 32 → length mem ≡ n → Holds (construct n mem) []
unfolding construct
construct-Holds n mem lo hi l =
    reset-Holds (record { num_entries = n; entries = mem; lru = 0 }) lo hi l
