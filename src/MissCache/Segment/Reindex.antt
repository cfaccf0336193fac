-- ===== src/MissCache/Segment/Reindex.antt =====
-- Arrays of entries whose ages are a permutation of `0 .. n - 1`, and what a step that renumbers the
-- ages and rewrites one entry keeps of it.
use sandbox_predictor.Prelude.{
  ℕ, ◌≤◌, ◌<◌, ◌≡◌, ◌≢◌, sym, ap, ◌∙◌, true, false, some, List, map, arith, get_elem?, length, set,
  ℕ_discrete, get_elem?-set_self, get_elem?-set_ne, get_elem?-map, length-map, length-set,
  Option-cases, some_inj, get_elem?-lt, get_elem?-of_lt,
}
use sandbox_predictor.MissCache.Entry.{Entry}
use mathlib.Core.Logic.{inl, inr}
use sandbox_predictor.MissCache.Recency.{Distinct}

-- Some entry has the age `a`.
pub record AgedAny (es : List Entry) (a : ℕ) : Type 0 where
  pub index : ℕ
  pub entry : Entry
  pub found : get_elem? es index ≡ some entry
  pub age_eq : entry.age ≡ a

-- The entries have the ages `0 .. n - 1`, each once; the valid ones are the younger ones and hold the
-- PCs of `xs` at their ages, the free ones hold 0.
pub record Ranked (n : ℕ) (es : List Entry) (xs : List ℕ) : Type 0 where
  pub size : length es ≡ n
  pub fits : length xs ≤ n
  pub distinct : Distinct xs
  pub bounded : (i : ℕ) (e : Entry) → get_elem? es i ≡ some e → e.age < n
  pub apart :
      (i j : ℕ) (e f : Entry)
      → get_elem? es i ≡ some e
      → get_elem? es j ≡ some f
      → e.age ≡ f.age
      → i ≡ j
  pub present : (a : ℕ) → a < n → AgedAny es a
  pub sound :
      (i : ℕ) (e : Entry)
      → get_elem? es i ≡ some e
      → e.valid ≡ true
      → get_elem? xs e.age ≡ some e.pc
  pub free :
      (i : ℕ) (e : Entry)
      → get_elem? es i ≡ some e
      → e.valid ≡ false
      → (length xs ≤ e.age) × (e.pc ≡ 0)

-- A renumbering `up` of the ages other than `from` onto those other than `to`, with its inverse.
pub record Renumber (n from to : ℕ) (up down : ℕ → ℕ) : Type 0 where
  pub up_lt : (a : ℕ) → a < n → a ≢ from → up a < n
  pub up_ne : (a : ℕ) → a < n → a ≢ from → up a ≢ to
  pub down-up : (a : ℕ) → a < n → a ≢ from → down (up a) ≡ a
  pub down_lt : (b : ℕ) → b < n → b ≢ to → down b < n
  pub down_ne : (b : ℕ) → b < n → b ≢ to → down b ≢ from
  pub up-down : (b : ℕ) → b < n → b ≢ to → up (down b) ≡ b

-- The step `g` on the entries carries the renumbering out and keeps the rest of each entry.
pub record Carries (from : ℕ) (up : ℕ → ℕ) (g : Entry → Entry) (n : ℕ) : Type 0 where
  pub age_eq : (e : Entry) → e.age < n → e.age ≢ from → (g e).age ≡ up e.age
  pub pc_eq : (e : Entry) → (g e).pc ≡ e.pc
  pub valid_eq : (e : Entry) → (g e).valid ≡ e.valid

-- How the list changes with the ages.
pub record Relist (n from to : ℕ) (up : ℕ → ℕ) (fresh : Entry) (xs ys : List ℕ) : Type 0 where
  pub fits : length ys ≤ n
  pub distinct : Distinct ys
  pub moved : (a pc : ℕ) → a ≢ from → get_elem? xs a ≡ some pc → get_elem? ys (up a) ≡ some pc
  pub beyond : (a : ℕ) → a < n → a ≢ from → length xs ≤ a → length ys ≤ up a
  pub fresh_age : fresh.age ≡ to
  pub fresh_sound : fresh.valid ≡ true → get_elem? ys to ≡ some fresh.pc
  pub fresh_free : fresh.valid ≡ false → (length ys ≤ to) × (fresh.pc ≡ 0)

-- An entry of the array after the step.
pub data Now (g : Entry → Entry) (k : ℕ) (fresh : Entry) (es : List Entry) (i : ℕ) (f : Entry)
    : Type 0 where
  written : i ≡ k → f ≡ fresh → Now g k fresh es i f
  stepped : (e : Entry) → i ≢ k → get_elem? es i ≡ some e → f ≡ g e → Now g k fresh es i f

module _ (g : Entry → Entry) (k : ℕ) (fresh : Entry) (es : List Entry) where
  abbrev pub rewritten : List Entry
  rewritten = set (map g es) k fresh

  pub length-rewritten : length rewritten ≡ length es
  length-rewritten = length-set (map g es) k fresh ∙ length-map g es

  pub rewritten_self : k < length es → get_elem? rewritten k ≡ some fresh
  rewritten_self h = get_elem?-set_self (map g es) k fresh (omega (arith, length-map g es))

  pub rewritten_ne :
      (i : ℕ) (e : Entry) → i ≢ k → get_elem? es i ≡ some e → get_elem? rewritten i ≡ some (g e)
  rewritten_ne i e ne q =
      get_elem?-set_ne (map g es) k i fresh (λ r. ne (sym r)) ∙ get_elem?-map g es i ∙ rw q

  pub rewritten-Now :
      (i : ℕ) (f : Entry) → k < length es → get_elem? rewritten i ≡ some f → Now g k fresh es i f
  rewritten-Now i f h q = elim (ℕ_discrete i k) [
    | yes r ↦ written r (some_inj (sym q ∙ ap (get_elem? rewritten) r ∙ rewritten_self h))
    | no ne ↦ elim (Option-cases (get_elem? es i)) [
      | inl r ↦
          let (e, r') =
            get_elem?-of_lt es i (omega (arith, get_elem?-lt rewritten i q, length-rewritten)) in
          absurd (cc)
      | inr (e, r) ↦ stepped e ne r (some_inj (sym q ∙ rewritten_ne i e ne r))
    ]
  ]
