-- ===== src/FastSet/Join.antt =====
-- `join` of `fastset` is the union of two sets.
use sandbox_predictor.Prelude.{
  ℕ, zero, suc, ◌+◌, ◌*◌, ◌/◌, ◌%◌, ◌≤◌, ◌<◌, ◌≡◌, refl, sym, ap, ◌∙◌, Bool, true, false, ◌||◌,
  List, arith, ltb, ◌==◌, if◌then◌else◌, get_or, set, length, length-set, take, get_or-set_self,
  get_or-set_ne, ℕ_discrete, dec_lt,
}
use mathlib.Core.Path.{subst, fun_ext}
use sandbox_predictor.Prelude.Bits.{bit_or_step, bit_or-zero}
use sandbox_predictor.Prelude.Digits.{digit, digit-bit_or}
use Prim.Native.Nat.{bit_or}
use sandbox_predictor.FastSet.{FastSet, getbit, or_words, smalltobit, join, insert_all}
use sandbox_predictor.FastSet.Words.{getbit_lem}
use sandbox_predictor.FastSet.Search.{insert_all-Holds}
use sandbox_predictor.FastSet.Refine.{Holds, smalltobit-Holds, none_listed, elem-listed}

pub length-or_words :
    (r i : ℕ) (bits other : List ℕ) → length (or_words r i bits other) ≡ length bits
unfolding or_words
length-or_words zero i bits other = refl
length-or_words (suc r) i bits other =
    length-or_words r (i + 1) (set bits i (bit_or (get_or bits i 0) (get_or other i 0))) other
    ∙ length-set bits i _

-- a word that the loop has passed, and one that it has still to reach
words_before :
    (r i : ℕ) (bits other : List ℕ) (k : ℕ)
    → k < i
    → get_or (or_words r i bits other) k 0 ≡ get_or bits k 0
unfolding or_words
words_before zero i bits other k l = refl
words_before (suc r) i bits other k l =
    words_before r (i + 1) (set bits i (bit_or (get_or bits i 0) (get_or other i 0))) other k
      (omega arith)
    ∙ get_or-set_ne bits i k _ 0 (λ e. omega arith)

words_within :
    (r i : ℕ) (bits other : List ℕ) (k : ℕ)
    → i ≤ k
    → k < i + r
    → i + r ≤ length bits
    → get_or (or_words r i bits other) k 0 ≡ bit_or (get_or bits k 0) (get_or other k 0)
unfolding or_words
words_within zero i bits other k a b c = absurd (omega arith)
words_within (suc r) i bits other k a b c =
    let next : List ℕ = set bits i (bit_or (get_or bits i 0) (get_or other i 0)) in
    elim (ℕ_discrete k i) [
      | yes e ↦
          words_before r (i + 1) next other k (omega arith)
          ∙ rw e (get_or-set_self bits i _ 0 (omega arith))
      | no n ↦
          words_within r (i + 1) next other k (omega arith) (omega arith)
            (omega (arith, length-set bits i (bit_or (get_or bits i 0) (get_or other i 0))))
          ∙ ap (λ t. bit_or t (get_or other k 0)) (get_or-set_ne bits i k _ 0 (λ e. n (sym e)))
    ]

words_beyond :
    (r i : ℕ) (bits other : List ℕ) (k : ℕ)
    → i + r ≤ k
    → get_or (or_words r i bits other) k 0 ≡ get_or bits k 0
unfolding or_words
words_beyond zero i bits other k l = refl
words_beyond (suc r) i bits other k l =
    words_beyond r (i + 1) (set bits i (bit_or (get_or bits i 0) (get_or other i 0))) other k
      (omega arith)
    ∙ get_or-set_ne bits i k _ 0 (λ e. omega arith)

odd_or : (n m : ℕ) → bit_or n (m * 2 + 1) ≡ bit_or (n / 2) m * 2 + 1
odd_or n m =
    let half : (m * 2 + 1) / 2 ≡ m = omega arith in
    let low : (m * 2 + 1) % 2 ≡ 1 = omega arith in
    bit_or_step n (m * 2 + 1) ∙ rw (half, low) (omega arith)

-- the next multiple of 64, as a number of words
lim_lem : (n : ℕ) → (bit_or n 63 + 1) / 64 ≡ n / 64 + 1
lim_lem n = omega (
  arith,
  odd_or n 31,
  odd_or (n / 2) 15,
  odd_or (n / 2 / 2) 7,
  odd_or (n / 2 / 2 / 2) 3,
  odd_or (n / 2 / 2 / 2 / 2) 1,
  odd_or (n / 2 / 2 / 2 / 2 / 2) 0,
  bit_or-zero (n / 2 / 2 / 2 / 2 / 2 / 2),
)

getbit-or_words :
    (r : ℕ) (bits other : List ℕ) (y : ℕ)
    → r ≤ 8
    → length bits ≡ 8
    → (getbit other y ≡ true → y / 64 < r)
    → getbit (or_words r 0 bits other) y ≡ (getbit bits y || getbit other y)
getbit-or_words r bits other y a b c = elim (dec_lt (y / 64) r) [
  | yes l ↦
      getbit_lem (or_words r 0 bits other) y
      ∙ ap (λ t. digit t (y % 64))
          (words_within r 0 bits other (y / 64) (omega arith) (omega arith) (omega arith))
      ∙ digit-bit_or (get_or bits (y / 64) 0) (get_or other (y / 64) 0) (y % 64)
      ∙ ground (arith, getbit_lem bits y, getbit_lem other y)
  | no n ↦
      getbit_lem (or_words r 0 bits other) y
      ∙ ap (λ t. digit t (y % 64)) (words_beyond r 0 bits other (y / 64) (omega arith))
      ∙ sym (getbit_lem bits y)
      ∙ outside (getbit bits y) (getbit other y) (λ e. n (c e))
]
  where
    outside : (p q : Bool) → (q ≡ true → ⊥) → p ≡ (p || q)
    outside p true f = absurd (f refl)
    outside true false f = refl
    outside false false f = refl

-- the bits of a set that is made a bit array first
widened :
    (s : FastSet) (member : ℕ → Bool)
    → Holds s member
    → let wide = if ltb s.card 13 then record (smalltobit s) { card = 13 } else s in
      (length wide.values ≡ 13)
      × (length wide.bits ≡ 8)
      × (wide.card ≡ 13)
      × ((y : ℕ) → getbit wide.bits y ≡ member y)
unfolding smalltobit
widened s member h = elim (dec_lt s.card 13) [
  | yes q ↦
      let t : ltb s.card 13 ≡ true = ground arith in
      let (w, g) = smalltobit-Holds s member (h.small q) h.top h.bound in rw t (h.cells, w, refl, g)
  | no q ↦
      let t : ltb s.card 13 ≡ false = ground arith in
      let e : s.card ≡ 13 = omega (arith, h.top) in rw t (h.cells, h.words, e, h.large e)
]

either_bound :
    (p q : Bool) (y : ℕ) → (p ≡ true → y < 512) → (q ≡ true → y < 512) → (p || q) ≡ true → y < 512
either_bound true q y f g e = f refl
either_bound false q y f g e = g e

or_swap : (p q : Bool) → (q || p) ≡ (p || q)
or_swap true true = refl
or_swap true false = refl
or_swap false true = refl
or_swap false false = refl

-- `join` makes a set the union of itself and another, whichever of the two representations each has,
-- as long as the number that it is given is below 512 and no member of the other set lies in a later
-- word of the bit array than that number.
pub join-Holds :
    (s other : FastSet) (n : ℕ) (member others : ℕ → Bool)
    → Holds s member
    → Holds other others
    → n < 512
    → ((y : ℕ) → others y ≡ true → y / 64 ≤ n / 64)
    → Holds (join s other n) (λ y. member y || others y)
unfolding join
join-Holds s other n member others h k l b = elim (dec_lt other.card 13) [
  | yes q ↦ elim (ℕ_discrete other.card 0) [
    | yes e ↦
        let t : (other.card == 0) ≡ true = ground arith in
        rw (t, join)
          (subst (Holds s)
            (fun_ext
              (λ y. ground (arith, none_listed other.values other.card others y (k.small q) e)))
            h)
    | no d ↦
        let t : (other.card == 0) ≡ false = ground arith in
        let u : ltb other.card 13 ≡ true = ground arith in
        let same = elem-listed other.values other.card others (k.small q) k.top in
        rw (t, join)
          (rw u (
            subst (Holds (insert_all s (take other.card other.values)))
              (fun_ext (λ y. ap (λ t. t || member y) (same y) ∙ or_swap (member y) (others y)))
              (insert_all-Holds (take other.card other.values) s member h
                (λ y e. k.bound y (sym (same y) ∙ e)))))
  ]
  | no q ↦
      let t : (other.card == 0) ≡ false = ground arith in
      let u : ltb other.card 13 ≡ false = ground arith in
      let full : other.card ≡ 13 = omega (arith, k.top) in
      let (c, w, top, g) = widened s member h in
      rw (t, join)
        (rw u (record {
          cells = c;
          words = length-or_words ((bit_or n 63 + 1) / 64) 0 _ other.bits ∙ w;
          top = omega arith;
          bound = λ y. either_bound (member y) (others y) y (h.bound y) (k.bound y);
          small = λ m. absurd (omega arith);
          large = λ e y.
              getbit-or_words ((bit_or n 63 + 1) / 64) _ other.bits y (omega (arith, lim_lem n)) w
                (λ o. omega (arith, lim_lem n, b y (sym (k.large full y) ∙ o)))
              ∙ ground (arith, g y, k.large full y);
        }))
]
