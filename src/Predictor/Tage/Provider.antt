-- ===== src/Predictor/Tage/Provider.antt =====
-- Which table a TAGE predictor asks: the longest history that has an entry for the program counter.
use sandbox_predictor.Prelude.{
  ℕ, zero, suc, ◌<◌, ◌≡◌, refl, true, false, List, Option, none, some, arith, get_or, Bool-cases,
  inl, inr, ℕ_discrete, Option-cases,
}
use sandbox_predictor.Prelude.Int.{negsuc}
use mathlib.Core.Path.{subst}
use sandbox_predictor.Predictor.{Prediction, Predictor}
use sandbox_predictor.Predictor.TagTable.{
  TageEntry, TagTable, is_valid, is_weak, to_prediction, lookup,
}
use sandbox_predictor.Predictor.Tage.{Tage, no_table, search_from, below, choose, predict}

-- an answer of table number `i`
abbrev pub answer : List TagTable → ℕ → ℕ → ℕ → TageEntry
answer tables pc history i = lookup (get_or tables i no_table) pc history

-- `entry` is the answer of table number `i`, it is one, and no table from there up to `top` has one.
pub record IsProvider (tables : List TagTable) (pc history top i : ℕ) (entry : TageEntry)
    : Type 0 where
  pub inside : i < top
  pub answers : answer tables pc history i ≡ entry
  pub valid : is_valid entry ≡ true
  pub last : (j : ℕ) → i < j → j < top → is_valid (answer tables pc history j) ≡ false

-- The result of a search below `top`: the provider, or no entry and no table with one.
unfoldable pub Searched : List TagTable → ℕ → ℕ → ℕ → TageEntry × Option ℕ → Type 0
Searched tables pc history top (e, some i) = IsProvider tables pc history top i e
Searched tables pc history top (e, none) =
    (is_valid e ≡ false) × ((j : ℕ) → j < top → is_valid (answer tables pc history j) ≡ false)

Searched-suc :
    (tables : List TagTable) (pc history top : ℕ) (r : TageEntry × Option ℕ)
    → is_valid (answer tables pc history top) ≡ false
    → Searched tables pc history top r
    → Searched tables pc history (suc top) r
unfolding Searched
Searched-suc tables pc history top (e, some i) h s = record {
  inside = omega (arith, s.inside);
  answers = s.answers;
  valid = s.valid;
  last = λ j a b. elim (ℕ_discrete j top) [ yes p ↦ rw p h | no p ↦ s.last j a (omega arith) ];
}
Searched-suc tables pc history top (e, none) h s =
    (s.0, λ j b. elim (ℕ_discrete j top) [ yes p ↦ rw p h | no p ↦ s.1 j (omega arith) ])

pub search_from-Searched :
    (tables : List TagTable) (pc history top : ℕ) (last : TageEntry)
    → is_valid last ≡ false
    → Searched tables pc history top (search_from tables pc history top last)
unfolding search_from Searched
search_from-Searched tables pc history zero last h = (h, λ j l. absurd (omega arith))
search_from-Searched tables pc history (suc i) last h =
    elim (Bool-cases (is_valid (answer tables pc history i))) [
      | inl q ↦
          rw (q, search_from)
            (record {
              inside = omega arith;
              answers = refl;
              valid = q;
              last = λ j a b. absurd (omega arith);
            })
      | inr q ↦
          rw (q, search_from)
            (Searched-suc tables pc history i
              (search_from tables pc history i (answer tables pc history i)) q
              (search_from-Searched tables pc history i (answer tables pc history i) q))
    ]

-- Who makes the prediction: the entry of the longest history unless it is weak, else the one of the
-- longest history below, else the base predictor.
pub data Chosen (main alt : TageEntry) (main_provider alt_provider : Option ℕ)
    (base_pred p : Prediction) : Type 0 where
  by_main :
      (i : ℕ)
      → main_provider ≡ some i
      → is_weak main ≡ false
      → p ≡ to_prediction main
      → Chosen main alt main_provider alt_provider base_pred p
  by_alt :
      (i j : ℕ)
      → main_provider ≡ some i
      → is_weak main ≡ true
      → alt_provider ≡ some j
      → p ≡ to_prediction alt
      → Chosen main alt main_provider alt_provider base_pred p
  by_base_weak :
      (i : ℕ)
      → main_provider ≡ some i
      → is_weak main ≡ true
      → alt_provider ≡ none
      → p ≡ base_pred
      → Chosen main alt main_provider alt_provider base_pred p
  by_base :
      main_provider ≡ none
      → alt_provider ≡ none
      → p ≡ base_pred
      → Chosen main alt main_provider alt_provider base_pred p

-- the choice of the code, which asks the entries and not the providers
choose-Chosen :
    {B : Type 0} (base : Predictor B) (tables : List TagTable) (pc history top : ℕ)
    (main alt : TageEntry) (mp ap : Option ℕ) (base_pred : Prediction)
    → Searched tables pc history top (main, mp)
    → Searched tables pc history (below mp) (alt, ap)
    → Chosen main alt mp ap base_pred (choose base base_pred alt main)
unfolding Searched choose
choose-Chosen base tables pc history top main alt none (some j) base_pred s t =
    absurd (omega (arith, t.inside))
choose-Chosen base tables pc history top main alt none none base_pred s t =
    by_base refl refl (rw (s.0, choose) (rw (t.0) (refl)))
choose-Chosen base tables pc history top main alt (some i) ap base_pred s t =
    elim (Bool-cases (is_weak main)) [
      | inr strong ↦ by_main i refl strong (rw (s.valid, choose) (rw strong (refl)))
      | inl weak ↦ elim (Option-cases ap) [
        | inl n ↦
            let u = subst (λ o. Searched tables pc history i (alt, o)) n t in
            by_base_weak i refl weak n (rw (s.valid, choose) (rw weak (rw (u.0) (refl))))
        | inr (j, e) ↦
            let u = subst (λ o. Searched tables pc history i (alt, o)) e t in
            by_alt i j refl weak e (rw (s.valid, choose) (rw weak (rw (u.valid) (refl))))
      ]
    ]

unused_invalid : (e : TageEntry) → is_valid (record e { useful = negsuc 0 }) ≡ false
unfolding is_valid
unused_invalid e = refl

module _ {B : Type 0} (base : Predictor B) where
  -- The main provider is the longest history with an entry for the program counter, the alternative the
  -- longest one below that, and without an entry none is said to be the provider. The prediction is
  -- that of the main entry unless it is weak, else that of the alternative one, else that of the base
  -- predictor.
  pub predict-providers :
      (t : Tage B) (pc : ℕ)
      → Searched t.tables pc t.history t.n_tables
          (Tage.main_pred (predict base t pc).0, Tage.main_provider (predict base t pc).0)
        × Searched t.tables pc t.history
            (below (Tage.main_provider (predict base t pc).0))
            (Tage.alt_pred (predict base t pc).0, Tage.alt_provider (predict base t pc).0)
        × Chosen
            (Tage.main_pred (predict base t pc).0)
            (Tage.alt_pred (predict base t pc).0)
            (Tage.main_provider (predict base t pc).0)
            (Tage.alt_provider (predict base t pc).0)
            (base.predict t.base_state pc).1
            (predict base t pc).1
  unfolding predict
  predict-providers t pc =
      let main = Tage.main_provider (predict base t pc).0 in
      let s =
        search_from-Searched t.tables pc t.history t.n_tables _ (unused_invalid t.main_pred) in
      let u =
        search_from-Searched t.tables pc t.history (below main) _ (unused_invalid t.alt_pred) in
      (
        s,
        u,
        choose-Chosen base t.tables pc t.history t.n_tables _ _ main
            (Tage.alt_provider (predict base t pc).0) (base.predict t.base_state pc).1 s u,
      )
