-- ===== src/FastSet/Values.antt =====
-- The sorted array of a small set: where a value is put in, and the two searches.
use sandbox_predictor.Prelude.{
  ℕ, zero, suc, ◌+◌, ◌-◌, ◌≤◌, ◌<◌, ◌≡◌, refl, ap, ◌∙◌, Bool, true, none, some, List, arith, get_or,
  set, length, length-set, get_or-set_self, get_or-set_ne, ℕ_discrete, dec_lt,
}
use sandbox_predictor.FastSet.{place_from, move_up}

-- The first `n` values hold `y`.
pub record Contains (vs : List ℕ) (n y : ℕ) : Type 0 where
  pub place : ℕ
  pub below : place < n
  pub same : get_or vs place 0 ≡ y

-- The first `n` of thirteen values are the members of a set, in increasing order.
pub record Lists (vs : List ℕ) (n : ℕ) (member : ℕ → Bool) : Type 0 where
  pub cells : length vs ≡ 13
  pub sorted : (i j : ℕ) → i < j → j < n → get_or vs i 0 < get_or vs j 0
  pub sound : (k : ℕ) → k < n → member (get_or vs k 0) ≡ true
  pub complete : (y : ℕ) → member y ≡ true → Contains vs n y

pub place-none :
    (vs : List ℕ) (x r i : ℕ)
    → place_from vs x r i ≡ none
    → (k : ℕ) × (k < i + r) × (get_or vs k 0 ≡ x)
unfolding place_from
place-none vs x zero i h = absurd (cc)
place-none vs x (suc r) i h = elim (ℕ_discrete (get_or vs i 0) x) [
  | yes e ↦ (i, omega arith, e)
  | no n ↦ let (k, l, e) = place-none vs x r (i + 1) (ground arith) in (k, omega arith, e)
]

place-here :
    (vs : List ℕ) (x i r : ℕ) {p : ℕ}
    → i ≡ p
    → x < get_or vs i 0
    → (i ≤ p)
      × (p ≤ i + r)
      × ((k : ℕ) → i ≤ k → k < p → get_or vs k 0 < x)
      × (p < i + r → x < get_or vs p 0)
place-here vs x i r e l = (omega arith, omega arith, λ k a b. absurd (omega arith), λ b. rw (← e) l)

pub place-some :
    (vs : List ℕ) (x r i : ℕ) {p : ℕ}
    → place_from vs x r i ≡ some p
    → (i ≤ p)
      × (p ≤ i + r)
      × ((k : ℕ) → i ≤ k → k < p → get_or vs k 0 < x)
      × (p < i + r → x < get_or vs p 0)
unfolding place_from
place-some vs x zero i {p} h =
    let e : i ≡ p = ground arith in
    (omega arith, omega arith, λ k a b. absurd (omega arith), λ b. absurd (omega arith))
place-some vs x (suc r) i {p} h = elim (dec_lt x (get_or vs i 0)) [
  | yes l ↦ let e : i ≡ p = ground arith in place-here vs x i (suc r) e l
  | no l ↦
      let ne : get_or vs i 0 < x = ground arith in
      let (a, b, c, d) = place-some vs x r (i + 1) (ground arith) in
      (
        omega arith,
        omega arith,
        λ k u v. elim (ℕ_discrete i k) [ yes e ↦ rw (← e) ne | no e ↦ c k (omega arith) v ],
        λ u. d (omega arith),
      )
]

-- a step of `move_up`
abbrev bumped : List ℕ → ℕ → List ℕ
bumped vs j = set vs (j + 1) (get_or vs j 0)

pub length-move_up : (vs : List ℕ) (i r : ℕ) → length (move_up vs i r) ≡ length vs
unfolding move_up
length-move_up vs i zero = refl
length-move_up vs i (suc r) = length-move_up (bumped vs (i + r)) i r ∙ length-set vs (i + r + 1) _

move_up_outside : (vs : List ℕ) (i r k : ℕ) → k ≤ i → get_or (move_up vs i r) k 0 ≡ get_or vs k 0
unfolding move_up
move_up_outside vs i zero k h = refl
move_up_outside vs i (suc r) k h =
    move_up_outside (bumped vs (i + r)) i r k h
    ∙ get_or-set_ne vs (i + r + 1) k _ 0 (λ e. omega arith)

move_up_beyond : (vs : List ℕ) (i r k : ℕ) → i + r < k → get_or (move_up vs i r) k 0 ≡ get_or vs k 0
unfolding move_up
move_up_beyond vs i zero k h = refl
move_up_beyond vs i (suc r) k h =
    move_up_beyond (bumped vs (i + r)) i r k (omega arith)
    ∙ get_or-set_ne vs (i + r + 1) k _ 0 (λ e. omega arith)

move_up_above :
    (vs : List ℕ) (i r k : ℕ)
    → i + r < length vs
    → i < k
    → k ≤ i + r
    → get_or (move_up vs i r) k 0 ≡ get_or vs (k - 1) 0
unfolding move_up
move_up_above vs i zero k l a b = absurd (omega arith)
move_up_above vs i (suc r) k l a b = elim (ℕ_discrete k (i + r + 1)) [
  | yes e ↦
      move_up_beyond (bumped vs (i + r)) i r k (omega arith)
      ∙ rw e (get_or-set_self vs (i + r + 1) _ 0 (omega arith))
      ∙ ap (λ t. get_or vs t 0) (let f : i + r ≡ k - 1 = omega arith in f)
  | no e ↦
      move_up_above (bumped vs (i + r)) i r k
        (omega (arith, length-set vs (i + r + 1) (get_or vs (i + r) 0))) a (omega arith)
      ∙ get_or-set_ne vs (i + r + 1) (k - 1) _ 0 (λ f. omega arith)
]

-- the array after `x` is put in at `p`
module _ (vs : List ℕ) (n x p : ℕ) (cells : length vs ≡ 13) (few : n < 13) (at : p ≤ n) where
  unfoldable pub put : List ℕ
  put = set (move_up vs p (n - p)) p x

  pub length-put : length put ≡ 13
  unfolding put
  length-put = length-set _ p x ∙ length-move_up vs p (n - p) ∙ cells

  pub put_self : get_or put p 0 ≡ x
  unfolding put
  put_self = get_or-set_self _ p x 0 (omega (arith, length-move_up vs p (n - p)))

  pub put-before : (k : ℕ) → k < p → get_or put k 0 ≡ get_or vs k 0
  unfolding put
  put-before k l =
      get_or-set_ne _ p k x 0 (λ e. omega arith) ∙ move_up_outside vs p (n - p) k (omega arith)

  pub put-after : (k : ℕ) → p ≤ k → k < n → get_or put (suc k) 0 ≡ get_or vs k 0
  unfolding put
  put-after k a b =
      get_or-set_ne _ p (suc k) x 0 (λ e. omega arith)
      ∙ move_up_above vs p (n - p) (suc k) (omega arith) (omega arith) (omega arith)
      ∙ ap (λ t. get_or vs t 0) (let e : suc k - 1 ≡ k = omega arith in e)
