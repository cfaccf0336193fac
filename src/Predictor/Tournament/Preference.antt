-- ===== src/Predictor/Tournament/Preference.antt =====
-- What the counts of a tournament predictor count.
use Prim.Native.Nat.{bit_and}
use sandbox_predictor.Prelude.{
  ℕ, ◌%◌, ◌<◌, ◌≡◌, refl, sym, Bool, true, false, eqb, ◌==◌, if◌then◌else◌, get_or, set, length,
  get_or-set_self,
}
use mathlib.Core.Path.{subst}
use native.Mathlib.Nat.{mod-lt}
use sandbox_predictor.Prelude.Bits.{bit_and-ones}
use sandbox_predictor.Prelude.Int.{pos, ◌+ℤ◌, ◌-ℤ◌}
use sandbox_predictor.Prelude.Word.{shift_in, shift_in-low, bit}
use sandbox_predictor.Predictor.{Prediction, Predictor}
use sandbox_predictor.Predictor.Tournament.{Tournament, predict, update}

-- `(history & 1) == (real & 1)` after one outcome was shifted into each
lowest_agree :
    (h k : ℕ) (a b : Bool) → (bit_and (shift_in h a) 1 == bit_and (shift_in k b) 1) ≡ eqb a b
lowest_agree h k a b =
    rw
      (
        bit_and-ones 1 (shift_in h a),
        bit_and-ones 1 (shift_in k b),
        shift_in-low h a,
        shift_in-low k b,
      )
      (bits a b)
  where
    bits : (a b : Bool) → (bit a == bit b) ≡ eqb a b
    bits true true = refl
    bits true false = refl
    bits false true = refl
    bits false false = refl

module _ {S T : Type 0} (first : Predictor S) (second : Predictor T) where
  -- In a tournament of at least one bucket whose histories have one word for each, a prediction and its
  -- outcome move the count of the bucket up where the first predictor was right and down where the
  -- second one was, each by one, and no other bucket's.
  pub update-preference :
      (t : Tournament S T) (pc : ℕ) (taken : Bool)
      → 0 < t.num_buckets
      → length t.bp1_history ≡ t.num_buckets
      → length t.bp2_history ≡ t.num_buckets
      → Tournament.preference (update first second (predict first second t pc).0 pc taken)
        ≡ set t.preference (pc % t.num_buckets) (
            let p0 = get_or t.preference (pc % t.num_buckets) (pos 0) in
            let p1 =
              if eqb (Prediction.taken (first.predict t.bp1 pc).1) taken then p0 +ℤ pos 1 else p0 in
            if eqb (Prediction.taken (second.predict t.bp2 pc).1) taken then p1 -ℤ pos 1 else p1)
  unfolding predict update
  update-preference t pc taken n l1 l2 =
      let idx = pc % t.num_buckets in
      let lt : idx < t.num_buckets = mod-lt pc n in
      let i1 = subst (λ k. idx < k) (sym l1) lt in
      let i2 = subst (λ k. idx < k) (sym l2) lt in
      let taken1 = Prediction.taken (first.predict t.bp1 pc).1 in
      let taken2 = Prediction.taken (second.predict t.bp2 pc).1 in
      rw (
        get_or-set_self t.bp1_history idx (shift_in (get_or t.bp1_history idx 0) taken1) 0 i1,
        get_or-set_self t.bp2_history idx (shift_in (get_or t.bp2_history idx 0) taken2) 0 i2,
        lowest_agree (get_or t.bp1_history idx 0) (get_or t.real_history idx 0) taken1 taken,
        lowest_agree (get_or t.bp2_history idx 0) (get_or t.real_history idx 0) taken2 taken,
      )
