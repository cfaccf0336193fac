-- ===== src/MissCache/Lru/Promote.antt =====
-- One access of the LRU miss cache, seen through the entries: entry `k` is written as the most recent,
-- and the entries younger than `limit` grow older.
use sandbox_predictor.Prelude.{
  ℕ, zero, suc, ◌+◌, ◌-◌, ◌≤◌, ◌<◌, ◌^◌, ◌≡◌, refl, sym, ap, ◌∙◌, ◌≢◌, ◌⊎◌, inl, inr, true, some,
  List, ◌∷◌, arith, get_elem?, length, get_elem?-lt,
}
use sandbox_predictor.MissCache.Entry.{Entry, aged}
use sandbox_predictor.MissCache.Ageing.{
  Was, written, older, Elected, kept, moved, promoted, promoted-Was, get_elem?-promoted_self,
  get_elem?-promoted_ne, aged-valid, aged-younger, aged-elder,
}

-- Valid entries hold the PC that stands in the recency list at their age.
abbrev pub Sound : List Entry → List ℕ → Type 0
Sound es xs =
    (i : ℕ) (e : Entry) → get_elem? es i ≡ some e → e.valid ≡ true → get_elem? xs e.age ≡ some e.pc

-- Two valid entries have different ages.
abbrev pub Apart : List Entry → Type 0
Apart es =
    (i j : ℕ) (e f : Entry)
    → get_elem? es i ≡ some e
    → get_elem? es j ≡ some f
    → e.valid ≡ true
    → f.valid ≡ true
    → e.age ≡ f.age
    → i ≡ j

-- Some valid entry has the age `a`.
pub record Aged (es : List Entry) (a : ℕ) : Type 0 where
  pub index : ℕ
  pub entry : Entry
  pub found : get_elem? es index ≡ some entry
  pub valid : entry.valid ≡ true
  pub age_eq : entry.age ≡ a

-- Where a valid entry other than `k` of age `a` stands in `zs`, the recency list without its new head.
pub data Kept (limit : ℕ) (zs : List ℕ) (a pc : ℕ) : Type 0 where
  younger : a < limit → get_elem? zs a ≡ some pc → Kept limit zs a pc
  elder : limit < a → get_elem? zs (a - 1) ≡ some pc → Kept limit zs a pc

-- The entry other than `k` that fills the place `a` of `zs`.
pub record Filled (limit k : ℕ) (es : List Entry) (a : ℕ) : Type 0 where
  pub index : ℕ
  pub entry : Entry
  pub other : index ≢ k
  pub found : get_elem? es index ≡ some entry
  pub valid : entry.valid ≡ true
  pub place : (entry.age ≡ a) × (a < limit) ⊎ (entry.age ≡ a + 1) × (limit ≤ a)

-- What an access knows of its choice of `k` and `limit`.
pub record Promotable (n limit k : ℕ) (es : List Entry) (zs : List ℕ) : Type 0 where
  pub size : length es ≡ n
  pub small : n < 2 ^ 32
  pub room : k < n
  pub limit_lt : limit < n
  pub fits : length zs < n
  pub keep :
      (i : ℕ) (e : Entry)
      → i ≢ k
      → get_elem? es i ≡ some e
      → e.valid ≡ true
      → Kept limit zs e.age e.pc
  pub cover : (a : ℕ) → a < length zs → Filled limit k es a

module _ (n limit k pc : ℕ) (es : List Entry) (zs : List ℕ) (p : Promotable n limit k es zs) where
  abbrev front : Entry
  front = record { valid = true; pc = pc; age = 0 }

  aged_sound :
      (e : Entry)
      → Kept limit zs e.age e.pc
      → get_elem? (pc ∷ zs) (aged limit e).age ≡ some (aged limit e).pc
  aged_sound e (younger l g) = rw (aged-younger limit e (omega arith) l) g
  aged_sound e (elder l g) =
      let q : e.age ≡ suc (e.age - 1) = omega arith in
      rw (aged-elder limit e (omega arith)) (ap (get_elem? (pc ∷ zs)) q ∙ g)

  -- the validity of the entry before the loop
  valid_before : (e f : Entry) → f ≡ aged limit e → f.valid ≡ true → e.valid ≡ true
  valid_before e f r v = sym (aged-valid limit e) ∙ ap (λ (t : Entry). t.valid) (sym r) ∙ v

  pub promoted-Sound : Sound (promoted limit k front es) (pc ∷ zs)
  promoted-Sound i f g v = go (promoted-Was limit k front es i f (omega arith) g)
    where
      go : Was limit k front es i f → get_elem? (pc ∷ zs) f.age ≡ some f.pc
      go (written q r) = rw r
      go (older e ne ge r) = rw r (aged_sound e (p.keep i e ne ge (valid_before e f r v)))

  -- The new ages of two valid entries other than `k` are equal only if the old ones are.
  age_back :
      (d e : Entry)
      → Kept limit zs d.age d.pc
      → Kept limit zs e.age e.pc
      → (aged limit d).age ≡ (aged limit e).age
      → d.age ≡ e.age
  age_back d e (younger a _) (younger b _) q = ground arith
  age_back d e (younger a _) (elder b _) q = ground arith
  age_back d e (elder a _) (younger b _) q = ground arith
  age_back d e (elder a _) (elder b _) q = ground arith

  age_pos : (e : Entry) → Kept limit zs e.age e.pc → 0 < (aged limit e).age
  age_pos e (younger a _) = ground arith
  age_pos e (elder a _) = ground arith

  pub promoted-Apart : Apart es → Apart (promoted limit k front es)
  promoted-Apart apart i j f g gi gj vf vg q =
      go (promoted-Was limit k front es i f (omega arith) gi)
        (promoted-Was limit k front es j g (omega arith) gj)
    where
      pos_of :
          (d h : Entry) (m : ℕ)
          → m ≢ k
          → get_elem? es m ≡ some d
          → h ≡ aged limit d
          → h.valid ≡ true
          → 0 < h.age
      pos_of d h m ne gd r v = rw r (age_pos d (p.keep m d ne gd (valid_before d h r v)))

      go : Was limit k front es i f → Was limit k front es j g → i ≡ j
      go (written a r) (written b t) = a ∙ sym b
      go (written a r) (older d ne gd t) =
          absurd (omega (arith, pos_of d g j ne gd t vg, ap (λ (t : Entry). t.age) r))
      go (older d ne gd r) (written b t) =
          absurd (omega (arith, pos_of d f i ne gd r vf, ap (λ (t : Entry). t.age) t))
      go (older d ne gd r) (older e ne' ge t) =
          let vd = valid_before d f r vf in
          let ve = valid_before e g t vg in
          apart i j d e gd ge vd ve (
            age_back d e (p.keep i d ne gd vd) (p.keep j e ne' ge ve)
              (ap (λ (t : Entry). t.age) (sym r) ∙ q ∙ ap (λ (t : Entry). t.age) t))

  -- The LRU index after the loop still points at a valid entry of the greatest age, if there is one:
  -- where the list is full, no free entry can be taken for it.
  pub promoted_oldest :
      (lru lru' : ℕ)
      → Apart es
      → lru < n
      → Elected (n - 1) limit 0 es lru lru'
      → ((i : ℕ) (e : Entry) → get_elem? es i ≡ some e → e.valid ≡ true → e.age ≡ n - 1 → i ≡ lru)
      → (suc (length zs) ≡ n
          → (i : ℕ) (e : Entry) → get_elem? es i ≡ some e
          → e.age < limit
          → e.valid ≡ true)
      → (i : ℕ) (f : Entry) → get_elem? (promoted limit k front es) i ≡ some f
      → f.valid ≡ true
      → f.age ≡ n - 1
      → i ≡ lru'
  promoted_oldest lru lru' apart lru_in el oldest settled i f g v q =
      go el (promoted-Was limit k front es i f (omega arith) g)
    where
      full : n ≤ suc (length zs)
      full = omega (arith, get_elem?-lt (pc ∷ zs) f.age (promoted-Sound i f g v))

      age_of : (e : Entry) → f ≡ aged limit e → (aged limit e).age ≡ n - 1
      age_of e r = ap (λ (t : Entry). t.age) (sym r) ∙ q

      go : Elected (n - 1) limit 0 es lru lru' → Was limit k front es i f → i ≡ lru'
      go (kept s all) (written a r) = omega (arith, ap (λ (t : Entry). t.age) r)
      go (moved j d s gd b) (written a r) =
          omega (arith, ap (λ (t : Entry). t.age) r, get_elem?-lt es j gd)
      go (kept s all) (older e ne ge r) = case (p.keep i e ne ge (valid_before e f r v))
        where
          case : Kept limit zs e.age e.pc → i ≡ lru'
          case (younger l _) = absurd (ground (arith, all i e ge, age_of e r))
          case (elder l _) =
              oldest i e ge (valid_before e f r v) (ground (arith, age_of e r)) ∙ sym s
      go (moved j d s gd b) (older e ne ge r) = case (p.keep i e ne ge (valid_before e f r v))
        where
          case : Kept limit zs e.age e.pc → i ≡ lru'
          case (younger l _) =
              let same : i ≡ j =
                apart i j e d ge gd (valid_before e f r v)
                  (settled (omega (arith, full)) j d gd (ground arith))
                  (ground (arith, age_of e r)) in
              omega arith
          case (elder l _) = absurd (ground (arith, age_of e r))

  pub promoted-Aged : (a : ℕ) → a < suc (length zs) → Aged (promoted limit k front es) a
  promoted-Aged zero h = record {
    index = k;
    entry = front;
    found = get_elem?-promoted_self limit k front es (omega arith);
    valid = refl;
    age_eq = refl;
  }
  promoted-Aged (suc a) h = record {
    index = fill.index;
    entry = aged limit fill.entry;
    found = get_elem?-promoted_ne limit k front es fill.index fill.entry fill.other fill.found;
    valid = aged-valid limit fill.entry ∙ fill.valid;
    age_eq = shifted fill.place;
  }
    where
      fill : Filled limit k es a
      fill = p.cover a (omega arith)

      shifted :
          (fill.entry.age ≡ a) × (a < limit) ⊎ (fill.entry.age ≡ a + 1) × (limit ≤ a)
          → (aged limit fill.entry).age ≡ suc a
      shifted (inl (q, l)) =
          ap (λ (t : Entry). t.age) (aged-younger limit fill.entry (omega arith) (omega arith))
          ∙ ap suc q
      shifted (inr (q, l)) =
          ap (λ (t : Entry). t.age) (aged-elder limit fill.entry (omega arith)) ∙ omega arith
