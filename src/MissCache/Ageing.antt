-- ===== src/MissCache/Ageing.antt =====
-- What the loop that ages the younger entries does to the array and to the LRU index.
use sandbox_predictor.Prelude.{
  ℕ, zero, suc, ◌+◌, ◌≤◌, ◌<◌, ◌^◌, ◌≡◌, refl, sym, ap, ◌∙◌, ◌≢◌, inl, inr, true, false, some, List,
  [], ◌∷◌, map, arith, if◌then◌else◌, get_elem?, length, set, Bool-cases, Option-cases,
  get_elem?-map, get_elem?-set_self, get_elem?-set_ne, length-set, length-map, get_elem?-lt,
  get_elem?-of_lt, some_inj, ℕ_discrete,
}
use sandbox_predictor.MissCache.Entry.{Entry, aged, becomes_last, age_younger}

pub aged-valid : (limit : ℕ) (e : Entry) → (aged limit e).valid ≡ e.valid
aged-valid limit e = ground arith

pub aged-pc : (limit : ℕ) (e : Entry) → (aged limit e).pc ≡ e.pc
aged-pc limit e = ground arith

pub aged-younger :
    (limit : ℕ) (e : Entry)
    → limit < 2 ^ 32
    → e.age < limit
    → aged limit e ≡ record e { age = suc e.age }
aged-younger limit e s h = ground arith

pub aged-elder : (limit : ℕ) (e : Entry) → limit ≤ e.age → aged limit e ≡ e
aged-elder limit e h = ground arith

pub age-le-aged : (limit : ℕ) (e : Entry) → limit < 2 ^ 32 → e.age ≤ (aged limit e).age
age-le-aged limit e h = ground arith

-- Pointwise, the ageing loop ages every entry.
pub age_younger-entries :
    (last limit i : ℕ) (es : List Entry) (lru : ℕ)
    → (age_younger last limit i es lru).0 ≡ map (aged limit) es
age_younger-entries last limit i [] lru = refl
age_younger-entries last limit i (e ∷ es) lru =
    ap (λ t. aged limit e ∷ t)
      (age_younger-entries last limit (i + 1) es (if becomes_last last limit e then i else lru))

-- The index that the loop leaves: the old one where no entry becomes the oldest, else that of an
-- entry that does.
pub data Elected (last limit i : ℕ) (es : List Entry) (old new : ℕ) : Type 0 where
  kept :
      new ≡ old
      → ((k : ℕ) (e : Entry) → get_elem? es k ≡ some e → becomes_last last limit e ≡ false)
      → Elected last limit i es old new
  moved :
      (k : ℕ) (e : Entry)
      → new ≡ i + k
      → get_elem? es k ≡ some e
      → becomes_last last limit e ≡ true
      → Elected last limit i es old new

-- Under an entry that does not become the oldest.
Elected-skip :
    (last limit i old new : ℕ) (e : Entry) (es : List Entry)
    → becomes_last last limit e ≡ false
    → Elected last limit (i + 1) es old new
    → Elected last limit i (e ∷ es) old new
Elected-skip last limit i old new e es f (kept q all) = kept q below
  where
    below : (k : ℕ) (d : Entry) → get_elem? (e ∷ es) k ≡ some d → becomes_last last limit d ≡ false
    below zero d g = ground arith
    below (suc k) d g = all k d g
Elected-skip last limit i old new e es f (moved k d q g b) = moved (suc k) d (omega arith) g b

-- Under one that does.
Elected-here :
    (last limit i old new : ℕ) (e : Entry) (es : List Entry)
    → becomes_last last limit e ≡ true
    → Elected last limit (i + 1) es i new
    → Elected last limit i (e ∷ es) old new
Elected-here last limit i old new e es t (kept q all) = moved 0 e (omega arith) refl t
Elected-here last limit i old new e es t (moved k d q g b) = moved (suc k) d (omega arith) g b

pub age_younger-Elected :
    (last limit i : ℕ) (es : List Entry) (lru : ℕ)
    → Elected last limit i es lru (age_younger last limit i es lru).1
age_younger-Elected last limit i [] lru = kept refl (λ k e g. absurd (cc))
age_younger-Elected last limit i (e ∷ es) lru = elim (Bool-cases (becomes_last last limit e)) [
  | inl t ↦
      rw t (Elected-here last limit i lru _ e es t (age_younger-Elected last limit (i + 1) es i))
  | inr f ↦
      rw f (Elected-skip last limit i lru _ e es f (age_younger-Elected last limit (i + 1) es lru))
]

-- The array after the loop and the write of `fresh` at `k`: what an entry of it was before.
pub data Was (limit k : ℕ) (fresh : Entry) (es : List Entry) (i : ℕ) (f : Entry) : Type 0 where
  written : i ≡ k → f ≡ fresh → Was limit k fresh es i f
  older :
      (e : Entry) → i ≢ k → get_elem? es i ≡ some e → f ≡ aged limit e → Was limit k fresh es i f

module _ (limit k : ℕ) (fresh : Entry) (es : List Entry) where
  abbrev pub promoted : List Entry
  promoted = set (map (aged limit) es) k fresh

  pub get_elem?-promoted_self : k < length es → get_elem? promoted k ≡ some fresh
  get_elem?-promoted_self h =
      get_elem?-set_self (map (aged limit) es) k fresh (omega (arith, length-map (aged limit) es))

  pub get_elem?-promoted_ne :
      (i : ℕ) (e : Entry)
      → i ≢ k
      → get_elem? es i ≡ some e
      → get_elem? promoted i ≡ some (aged limit e)
  get_elem?-promoted_ne i e ne g =
      get_elem?-set_ne (map (aged limit) es) k i fresh (λ q. ne (sym q))
      ∙ get_elem?-map (aged limit) es i
      ∙ rw g

  pub length-promoted : length promoted ≡ length es
  length-promoted = length-set (map (aged limit) es) k fresh ∙ length-map (aged limit) es

  pub promoted-Was :
      (i : ℕ) (f : Entry) → k < length es → get_elem? promoted i ≡ some f → Was limit k fresh es i f
  promoted-Was i f h g = elim (ℕ_discrete i k) [
    | yes q ↦ written q (some_inj (sym g ∙ ap (get_elem? promoted) q ∙ get_elem?-promoted_self h))
    | no ne ↦ elim (Option-cases (get_elem? es i)) [
      | inl q ↦
          let (e, q') =
            get_elem?-of_lt es i (omega (arith, get_elem?-lt promoted i g, length-promoted)) in
          absurd (cc)
      | inr (e, q) ↦ older e ne q (some_inj (sym g ∙ get_elem?-promoted_ne i e ne q))
    ]
  ]
