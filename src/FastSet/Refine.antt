-- ===== src/FastSet/Refine.antt =====
-- `fastset` is a set of numbers below 512: `insert` adds a member and `search` finds the members.
use sandbox_predictor.Prelude.{
  ℕ, ◌≤◌, ◌<◌, ◌≡◌, refl, sym, ap, ◌∙◌, Bool, true, false, ◌||◌, List, arith, ltb, ◌==◌,
  if◌then◌else◌, get_or, set, length, length-set, take, replicate, get_or-set_self, Bool-cases,
  Option-cases, inl, inr, ℕ_discrete, dec_lt,
}
use sandbox_predictor.FastSet.{
  FastSet, construct, insert, insert_small, smalltobit, getbit, place_from,
}
use sandbox_predictor.FastSet.Values.{Lists}
use sandbox_predictor.FastSet.Put.{with_member, insert_small-Lists}
use sandbox_predictor.FastSet.Find.{Finds-member}
use sandbox_predictor.FastSet.Words.{
  elem, elem-take-Finds, getbit-fresh, getbit-setbit, length-setbit, length-set_all,
}

-- The set has the members of a test: its array lists them while there are fewer than thirteen, and
-- its bits are set for them afterwards.
pub record Holds (s : FastSet) (member : ℕ → Bool) : Type 0 where
  pub cells : length s.values ≡ 13
  pub words : length s.bits ≡ 8
  pub top : s.card ≤ 13
  pub bound : (y : ℕ) → member y ≡ true → y < 512
  pub small : s.card < 13 → Lists s.values s.card member
  pub large : s.card ≡ 13 → (y : ℕ) → getbit s.bits y ≡ member y

pub construct-Holds : Holds construct (λ y. false)
unfolding construct
construct-Holds = record {
  cells = refl;
  words = refl;
  top = omega arith;
  bound = λ y e. absurd (cc);
  small = λ l. record {
    cells = refl;
    sorted = λ i j a b. absurd (omega arith);
    sound = λ k m. absurd (omega arith);
    complete = λ y e. absurd (cc);
  };
  large = λ e. absurd (omega arith);
}

with_bound :
    (x : ℕ) (member : ℕ → Bool)
    → x < 512
    → ((y : ℕ) → member y ≡ true → y < 512)
    → (y : ℕ) → with_member x member y ≡ true
    → y < 512
with_bound x member l b y e = elim (ℕ_discrete y x) [
  | yes q ↦ omega arith
  | no q ↦ b y (ground arith)
]

-- membership in the array that lists a set
pub elem-listed :
    (vs : List ℕ) (n : ℕ) (member : ℕ → Bool)
    → Lists vs n member
    → n ≤ 13
    → (y : ℕ) → elem y (take n vs) ≡ member y
elem-listed vs n member h l y =
    Finds-member vs n y member (elem y (take n vs)) h
      (elem-take-Finds vs n y (omega (arith, h.cells)))

pub smalltobit-Holds :
    (s : FastSet) (member : ℕ → Bool)
    → Lists s.values s.card member
    → s.card ≤ 13
    → ((y : ℕ) → member y ≡ true → y < 512)
    → (length (smalltobit s).bits ≡ 8) × ((y : ℕ) → getbit (smalltobit s).bits y ≡ member y)
unfolding smalltobit
smalltobit-Holds s member h l b =
    let same = elem-listed s.values s.card member h l in
    (
      length-set_all (replicate 8 0) (take s.card s.values),
      λ y. getbit-fresh (take s.card s.values) y (λ k e. b k (sym (same k) ∙ e)) ∙ same y,
    )

-- an empty set lists nothing
pub none_listed :
    (vs : List ℕ) (n : ℕ) (member : ℕ → Bool) (y : ℕ) → Lists vs n member → n ≡ 0 → member y ≡ false
none_listed vs n member y h e = elim (Bool-cases (member y)) [
  | inl t ↦ let c = h.complete y t in absurd (omega (arith, c.below))
  | inr t ↦ t
]

first-Lists :
    (vs : List ℕ) (n x : ℕ) (member : ℕ → Bool)
    → Lists vs n member
    → n ≡ 0
    → Lists (set vs 0 x) 1 (with_member x member)
first-Lists vs n x member h e =
    let here : get_or (set vs 0 x) 0 0 ≡ x = get_or-set_self vs 0 x 0 (omega (arith, h.cells)) in
    record {
      cells = length-set vs 0 x ∙ h.cells;
      sorted = λ i j a b. absurd (omega arith);
      sound = λ k l.
          let z : k ≡ 0 = omega arith in
          let at : get_or (set vs 0 x) k 0 ≡ x = ap (λ t. get_or (set vs 0 x) t 0) z ∙ here in
          ground (arith, at);
      complete = λ y t.
          let q : y ≡ x = ground (arith, none_listed vs n member y h e) in
          record { place = 0; below = omega arith; same = here ∙ sym q };
    }

-- a set that has just taken a value in turns to bits at thirteen members
settled :
    (s : FastSet) (member : ℕ → Bool)
    → Lists s.values s.card member
    → s.card ≤ 13
    → length s.bits ≡ 8
    → ((y : ℕ) → member y ≡ true → y < 512)
    → Holds (if s.card == 13 then smalltobit s else s) member
unfolding smalltobit
settled s member h l w b = elim (ℕ_discrete s.card 13) [
  | yes e ↦
      let t : (s.card == 13) ≡ true = ground arith in
      let (words, bits) = smalltobit-Holds s member h l b in
      rw t (record {
        cells = h.cells;
        words = words;
        top = l;
        bound = b;
        small = λ m. absurd (omega arith);
        large = λ f. bits;
      })
  | no e ↦
      let t : (s.card == 13) ≡ false = ground arith in
      rw t (record {
        cells = h.cells;
        words = w;
        top = l;
        bound = b;
        small = λ m. h;
        large = λ f. absurd (e f);
      })
]

insert_small-bits : (s : FastSet) (x : ℕ) → (insert_small s x).bits ≡ s.bits
unfolding insert_small
insert_small-bits s x = elim (Option-cases (place_from s.values x s.card 0)) [
  | inl e ↦ rw (e, insert_small) (refl)
  | inr (p, e) ↦ rw (e, insert_small) (refl)
]

module _ (s : FastSet) (x : ℕ) (member : ℕ → Bool) (h : Holds s member) (l : x < 512) where
  insert-first : s.card ≡ 0 → Holds (insert s x) (with_member x member)
  unfolding insert
  insert-first e =
      let t : (s.card == 0) ≡ true = ground arith in
      rw (t, insert)
        (record {
          cells = length-set s.values 0 x ∙ h.cells;
          words = h.words;
          top = omega arith;
          bound = with_bound x member l h.bound;
          small = λ m. first-Lists s.values s.card x member (h.small (omega arith)) e;
          large = λ f. absurd (omega arith);
        })

  insert-few : 0 < s.card → s.card < 13 → Holds (insert s x) (with_member x member)
  unfolding insert
  insert-few p q =
      let t : (s.card == 0) ≡ false = ground arith in
      let u : ltb s.card 13 ≡ true = ground arith in
      let (lists, most, least) = insert_small-Lists s x member (h.small q) q in
      rw (t, insert)
        (rw u (
          settled (insert_small s x) (with_member x member) lists (omega arith)
            (ap length (insert_small-bits s x) ∙ h.words) (with_bound x member l h.bound)))

  insert-large : s.card ≡ 13 → Holds (insert s x) (with_member x member)
  unfolding insert
  insert-large e =
      let t : (s.card == 0) ≡ false = ground arith in
      let u : ltb s.card 13 ≡ false = ground arith in
      rw (t, insert)
        (rw u (record {
          cells = h.cells;
          words = length-setbit s.bits x ∙ h.words;
          top = h.top;
          bound = with_bound x member l h.bound;
          small = λ m. absurd (omega arith);
          large = λ f y. getbit-setbit s.bits x y h.words l ∙ ap (λ t. (y == x) || t) (h.large e y);
        }))

-- `insert` of a number below 512 adds exactly that number to the members of a set, whether the set
-- is empty, small, becomes a bit array or is one, and keeps the representation.
pub insert-Holds :
    (s : FastSet) (x : ℕ) (member : ℕ → Bool)
    → Holds s member
    → x < 512
    → Holds (insert s x) (λ y. (y == x) || member y)
insert-Holds s x member h l = elim (ℕ_discrete s.card 0) [
  | yes e ↦ insert-first s x member h l e
  | no n ↦ elim (dec_lt s.card 13) [
    | yes q ↦ insert-few s x member h l (omega arith) q
    | no q ↦ insert-large s x member h l (omega (arith, h.top))
  ]
]
