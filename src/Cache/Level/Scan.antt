-- ===== src/Cache/Level/Scan.antt =====
-- The scan of the ways of a set after one of them is written.
use sandbox_predictor.Prelude.{
  ℕ, zero, suc, ◌<◌, ◌≡◌, refl, sym, ap, ◌∙◌, Bool, true, false, none, some, List, [], ◌∷◌, arith,
  get_elem?, set, find_index, length, Bool-cases, Option-cases, inl, inr, find_index-some,
  find_index-none, ℕ_discrete, some_inj, get_elem?-set_self, get_elem?-set_ne, get_elem?-lt,
  length-set,
}
use mathlib.Core.Option

module _ {ℓ} {A : Type ℓ} (p : A → Bool) where
  found : (x : A) (xs : List A) → p x ≡ true → find_index p (x ∷ xs) ≡ some 0
  found x xs e = rw e (refl)

  passed :
      (x : A) (xs : List A) → p x ≡ false → find_index p (x ∷ xs) ≡ Option.map suc (find_index p xs)
  passed x xs e = rw e (refl)

  -- the scan has found nothing, or it goes on behind the first element
  passed-none :
      (x : A) (xs : List A)
      → find_index p (x ∷ xs) ≡ none
      → (p x ≡ false) × (find_index p xs ≡ none)
  passed-none x xs h = elim (Bool-cases (p x)) [
    | inl e ↦ absurd (ground (arith, found x xs e))
    | inr e ↦ elim (Option-cases (find_index p xs)) [
      | inl n ↦ (e, n)
      | inr (j, q) ↦ absurd (ground (arith, passed x xs e))
    ]
  ]

  -- An element that passes is found where no other one does.
  pub find_index-set-found :
      (xs : List A) (i : ℕ) (v : A)
      → i < length xs
      → find_index p xs ≡ none
      → p v ≡ true
      → find_index p (set xs i v) ≡ some i
  find_index-set-found [] i v l n t = absurd (omega arith)
  find_index-set-found (x ∷ xs) zero v l n t = found v xs t
  find_index-set-found (x ∷ xs) (suc i) v l n t =
      let (e, r) = passed-none x xs n in
      passed x (set xs i v) e ∙ ap (Option.map suc) (find_index-set-found xs i v (omega arith) r t)

  -- The scan does not see a write of an element that does not pass, over one that did not.
  pub find_index-set-same :
      (xs : List A) (i : ℕ) (v : A) {x : A}
      → get_elem? xs i ≡ some x
      → p x ≡ false
      → p v ≡ false
      → find_index p (set xs i v) ≡ find_index p xs
  find_index-set-same [] i v g f t = absurd (cc)
  find_index-set-same (x ∷ xs) zero v g f t =
      let e : p x ≡ false = ground arith in passed v xs t ∙ sym (passed x xs e)
  find_index-set-same (x ∷ xs) (suc i) v g f t = elim (Bool-cases (p x)) [
    | inl e ↦ found x (set xs i v) e ∙ sym (found x xs e)
    | inr e ↦
        passed x (set xs i v) e
        ∙ ap (Option.map suc) (find_index-set-same xs i v g f t)
        ∙ sym (passed x xs e)
  ]

  -- no two elements pass
  pub record Single (xs : List A) : Type ℓ where
    pub apart :
        (i j : ℕ) {x y : A}
        → get_elem? xs i ≡ some x
        → get_elem? xs j ≡ some y
        → p x ≡ true
        → p y ≡ true
        → i ≡ j

  -- Where no two elements pass, nothing is found after the one that does is overwritten by one that
  -- does not.
  pub find_index-set-lost :
      (xs : List A) (i : ℕ) (v : A)
      → Single xs
      → find_index p xs ≡ some i
      → p v ≡ false
      → find_index p (set xs i v) ≡ none
  find_index-set-lost xs i v s h t = elim (Option-cases (find_index p (set xs i v))) [
    | inl n ↦ n
    | inr (j, q) ↦
        let (y, g, e) = find_index-some p (set xs i v) q in
        let (x, g', e') = find_index-some p xs h in
        elim (ℕ_discrete i j) [
          | yes same ↦
              let w : y ≡ v = some_inj (
                sym g
                ∙ ap (get_elem? (set xs i v)) (sym same)
                ∙ get_elem?-set_self xs i v (get_elem?-lt xs i g')) in
              absurd (ground (arith, ap p w))
          | no ne ↦ absurd (ne (s.apart i j g' (sym (get_elem?-set_ne xs i j v ne) ∙ g) e' e))
        ]
  ]

  pub Single-none : (xs : List A) → find_index p xs ≡ none → Single xs
  Single-none xs n = record {
    apart = λ i j {x} {y} a b c d. absurd (ground (arith, find_index-none p xs i n a));
  }

  -- a write keeps it, if nothing passed before or the new element does not
  pub Single-set-fill : (xs : List A) (i : ℕ) (v : A) → find_index p xs ≡ none → Single (set xs i v)
  Single-set-fill xs i v n = record { apart = λ j k {x} {y} a b c d. here j a c ∙ sym (here k b d) }
    where
      here : (j : ℕ) {x : A} → get_elem? (set xs i v) j ≡ some x → p x ≡ true → j ≡ i
      here j a c = elim (ℕ_discrete i j) [
        | yes e ↦ sym e
        | no ne ↦
            absurd
              (ground (arith, find_index-none p xs j n (sym (get_elem?-set_ne xs i j v ne) ∙ a)))
      ]

  pub Single-set-drop :
      (xs : List A) (i : ℕ) (v : A) → Single xs → p v ≡ false → Single (set xs i v)
  Single-set-drop xs i v s t = record {
    apart = λ j k {x} {y} a b c d. s.apart j k (old j a c) (old k b d) c d;
  }
    where
      overwritten : (j : ℕ) {x : A} → i ≡ j → get_elem? (set xs i v) j ≡ some x → x ≡ v
      overwritten j {x} e a =
          let l = get_elem?-lt (set xs i v) j a in
          some_inj (
            sym a
            ∙ ap (get_elem? (set xs i v)) (sym e)
            ∙ get_elem?-set_self xs i v (omega (arith, length-set xs i v)))

      old :
          (j : ℕ) {x : A} → get_elem? (set xs i v) j ≡ some x → p x ≡ true → get_elem? xs j ≡ some x
      old j {x} a c = elim (ℕ_discrete i j) [
        | no ne ↦ sym (get_elem?-set_ne xs i j v ne) ∙ a
        | yes e ↦ absurd (ground (arith, overwritten j e a, ap p {x = x} {y = v}))
      ]
