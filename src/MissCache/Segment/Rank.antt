-- ===== src/MissCache/Segment/Rank.antt =====
-- A step that renumbers the ages and rewrites one entry keeps the array ranked.
use sandbox_predictor.Prelude.{
  ℕ, ◌≤◌, ◌<◌, ◌≡◌, ◌≢◌, sym, ap, ◌∙◌, true, false, some, List, arith, get_elem?, length,
  ℕ_discrete, some_inj, get_elem?-lt,
}
use sandbox_predictor.MissCache.Entry.{Entry}
use sandbox_predictor.MissCache.Segment.Reindex.{
  AgedAny, Ranked, Renumber, Carries, Relist, Now, written, stepped, rewritten, length-rewritten,
  rewritten_self, rewritten_ne, rewritten-Now,
}

module _ (n from to : ℕ) (up down : ℕ → ℕ) (g : Entry → Entry) (k : ℕ) (d fresh : Entry)
    (es : List Entry) (xs ys : List ℕ) (r : Ranked n es xs) (at_k : get_elem? es k ≡ some d)
    (from_eq : d.age ≡ from) (to_lt : to < n) (num : Renumber n from to up down)
    (car : Carries from up g n) (lis : Relist n from to up fresh xs ys) where
  room : k < length es
  room = get_elem?-lt es k at_k

  now : (i : ℕ) (f : Entry) → get_elem? (rewritten g k fresh es) i ≡ some f → Now g k fresh es i f
  now i f q = rewritten-Now g k fresh es i f room q

  -- The other entries have other ages.
  ne_from : (i : ℕ) (e : Entry) → i ≢ k → get_elem? es i ≡ some e → e.age ≢ from
  ne_from i e ne q s = ne (r.apart i k e d q at_k (s ∙ sym from_eq))

  age_of : (i : ℕ) (e : Entry) → i ≢ k → get_elem? es i ≡ some e → (g e).age ≡ up e.age
  age_of i e ne q = car.age_eq e (r.bounded i e q) (ne_from i e ne q)

  bounded' : (i : ℕ) (f : Entry) → get_elem? (rewritten g k fresh es) i ≡ some f → f.age < n
  bounded' i f q = go (now i f q)
    where
      go : Now g k fresh es i f → f.age < n
      go (written s t) = omega (arith, ap (λ (e : Entry). e.age) t, lis.fresh_age)
      go (stepped e ne s t) = omega (
        arith,
        ap (λ (e : Entry). e.age) t,
        age_of i e ne s,
        num.up_lt e.age (r.bounded i e s) (ne_from i e ne s),
      )

  apart' :
      (i j : ℕ) (e f : Entry)
      → get_elem? (rewritten g k fresh es) i ≡ some e
      → get_elem? (rewritten g k fresh es) j ≡ some f
      → e.age ≡ f.age
      → i ≡ j
  apart' i j e f qe qf q = go (now i e qe) (now j f qf)
    where
      up_of : (m : ℕ) (c h : Entry) → m ≢ k → get_elem? es m ≡ some c → h ≡ g c → h.age ≡ up c.age
      up_of m c h ne s t = ap (λ (e : Entry). e.age) t ∙ age_of m c ne s

      not_to : (m : ℕ) (c h : Entry) → m ≢ k → get_elem? es m ≡ some c → h ≡ g c → h.age ≢ to
      not_to m c h ne s t w =
          num.up_ne c.age (r.bounded m c s) (ne_from m c ne s) (sym (up_of m c h ne s t) ∙ w)

      is_to : (h : Entry) → h ≡ fresh → h.age ≡ to
      is_to h t = ap (λ (e : Entry). e.age) t ∙ lis.fresh_age

      go : Now g k fresh es i e → Now g k fresh es j f → i ≡ j
      go (written s t) (written s' t') = s ∙ sym s'
      go (written s t) (stepped c ne s' t') = absurd (not_to j c f ne s' t' (sym q ∙ is_to e t))
      go (stepped c ne s t) (written s' t') = absurd (not_to i c e ne s t (q ∙ is_to f t'))
      go (stepped c ne s t) (stepped c' ne' s' t') = r.apart i j c c' s s' (
          sym (num.down-up c.age (r.bounded i c s) (ne_from i c ne s))
          ∙ ap down (sym (up_of i c e ne s t) ∙ q ∙ up_of j c' f ne' s' t')
          ∙ num.down-up c'.age (r.bounded j c' s') (ne_from j c' ne' s'))

  present' : (b : ℕ) → b < n → AgedAny (rewritten g k fresh es) b
  present' b l = elim (ℕ_discrete b to) [
    | yes q ↦ record {
      index = k;
      entry = fresh;
      found = rewritten_self g k fresh es room;
      age_eq = lis.fresh_age ∙ sym q;
    }
    | no ne ↦
        let old = r.present (down b) (num.down_lt b l ne) in
        let other : old.index ≢ k = λ s. num.down_ne b l ne (
          sym old.age_eq
          ∙ ap (λ (e : Entry). e.age) (some_inj (sym old.found ∙ ap (get_elem? es) s ∙ at_k))
          ∙ from_eq) in
        record {
          index = old.index;
          entry = g old.entry;
          found = rewritten_ne g k fresh es old.index old.entry other old.found;
          age_eq =
              age_of old.index old.entry other old.found ∙ ap up old.age_eq ∙ num.up-down b l ne;
        }
  ]

  sound' :
      (i : ℕ) (f : Entry)
      → get_elem? (rewritten g k fresh es) i ≡ some f
      → f.valid ≡ true
      → get_elem? ys f.age ≡ some f.pc
  sound' i f q v = go (now i f q)
    where
      go : Now g k fresh es i f → get_elem? ys f.age ≡ some f.pc
      go (written s t) =
          ap (λ (e : Entry). get_elem? ys e.age) t
          ∙ ap (get_elem? ys) lis.fresh_age
          ∙ lis.fresh_sound (ap (λ (e : Entry). e.valid) (sym t) ∙ v)
          ∙ ap (λ (e : Entry). some e.pc) (sym t)
      go (stepped e ne s t) =
          let w = sym (car.valid_eq e) ∙ ap (λ (e : Entry). e.valid) (sym t) ∙ v in
          ap (λ (e : Entry). get_elem? ys e.age) t
          ∙ ap (get_elem? ys) (age_of i e ne s)
          ∙ lis.moved e.age e.pc (ne_from i e ne s) (r.sound i e s w)
          ∙ ap some (sym (car.pc_eq e))
          ∙ ap (λ (e : Entry). some e.pc) (sym t)

  free' :
      (i : ℕ) (f : Entry)
      → get_elem? (rewritten g k fresh es) i ≡ some f
      → f.valid ≡ false
      → (length ys ≤ f.age) × (f.pc ≡ 0)
  free' i f q v = go (now i f q)
    where
      go : Now g k fresh es i f → (length ys ≤ f.age) × (f.pc ≡ 0)
      go (written s t) =
          let w = lis.fresh_free (ap (λ (e : Entry). e.valid) (sym t) ∙ v) in
          (
            omega (arith, w, ap (λ (e : Entry). e.age) t, lis.fresh_age),
            ap (λ (e : Entry). e.pc) t ∙ w.1,
          )
      go (stepped e ne s t) =
          let w = r.free i e s (sym (car.valid_eq e) ∙ ap (λ (e : Entry). e.valid) (sym t) ∙ v) in
          (
            omega (
              arith,
              ap (λ (e : Entry). e.age) t,
              age_of i e ne s,
              lis.beyond e.age (r.bounded i e s) (ne_from i e ne s) w.0,
            ),
            ap (λ (e : Entry). e.pc) t ∙ car.pc_eq e ∙ w.1,
          )

  pub rewritten-Ranked : Ranked n (rewritten g k fresh es) ys
  rewritten-Ranked = record {
    size = length-rewritten g k fresh es ∙ r.size;
    fits = lis.fits;
    distinct = lis.distinct;
    bounded = bounded';
    apart = apart';
    present = present';
    sound = sound';
    free = free';
  }
