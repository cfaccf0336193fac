-- ===== src/Predictor/Vip/Scores.antt =====
-- The scoreboard of a VIP predictor.
use sandbox_predictor.Prelude.{
  ℕ, suc, ◌≤◌, ◌≡◌, refl, ◌∙◌, Bool, true, false, not, List, [], ◌∷◌, Option, none, some, arith,
  if◌then◌else◌, Option-cases, inl, inr, eqb, length, ◌%◌, ◌==◌,
}
use sandbox_predictor.Prelude.Every.{Every, Every-set, Every-get_or, Every-map}
use sandbox_predictor.Prelude.Int.{ℤ, pos, ◌≤ℤ◌, ◌+ℤ◌, ◌-ℤ◌, +ℤ_parts, -ℤ_parts, ltb_ℤ, eq_of_parts}
use sandbox_predictor.Predictor.{Predictor}
use sandbox_predictor.Predictor.Counter.{gap}
use sandbox_predictor.Predictor.Run.{Call, after, after-invariant}
use sandbox_predictor.MissCache.{MissCache}
use sandbox_predictor.Predictor.Vip.{
  Vip, max_score, min_score, next_score, update_scoreboard, reset, predict, update_private, finish,
  update, vip,
}

-- a score of two bits
abbrev pub IsScore : ℤ → Type 0
IsScore s = (min_score ≤ℤ s) × (s ≤ℤ max_score)

next_score-IsScore : (d p real : Bool) (s : ℤ) → IsScore s → IsScore (next_score d p real s)
unfolding next_score
next_score-IsScore d p real s h = ground (arith, +ℤ_parts s (pos 1), -ℤ_parts s (pos 1))

zero-IsScore : IsScore (pos 0)
zero-IsScore = omega arith

module _ {D P C : Type 0} (default : Predictor D) (private : Predictor P)
    (mcache : MissCache C) where
  predict-Scores :
      (v : Vip D P C) (pc : ℕ)
      → Every IsScore v.scoreboard
      → Every IsScore (Vip.scoreboard (predict default private mcache v pc).0)
  unfolding predict
  predict-Scores v pc h = elim (Option-cases (mcache.get_idx v.cache pc)) [
    | inl q ↦ rw (q, predict) h
    | inr (i, q) ↦ rw (q, predict) h
  ]

  update_private-Scores :
      (v : Vip D P C) (o : Option ℕ) (pc : ℕ) (taken : Bool)
      → Every IsScore v.scoreboard
      → Every IsScore (Vip.scoreboard (update_private default private mcache v o pc taken))
  unfolding update_private update_scoreboard
  update_private-Scores v none pc taken h = h
  update_private-Scores v (some i) pc taken h = Every-set IsScore v.scoreboard i _ h (
      next_score-IsScore v.last_default v.last_private taken _
        (Every-get_or IsScore v.scoreboard i (pos 0) h zero-IsScore))

  update-Scores :
      (v : Vip D P C) (pc : ℕ) (taken : Bool)
      → Every IsScore v.scoreboard
      → Every IsScore (Vip.scoreboard (update default private mcache v pc taken))
  unfolding update finish
  update-Scores v pc taken h =
      let cache = if eqb taken v.last_default then v.cache else (mcache.access v.cache pc).0 in
      update_private-Scores
        (record v { cache = cache; default_state = default.update v.default_state pc taken })
        (mcache.get_idx cache pc) pc taken h

  reset-Scores :
      (v : Vip D P C)
      → Every IsScore v.scoreboard
      → Every IsScore (Vip.scoreboard (reset default private mcache v))
  unfolding reset
  reset-Scores v h = Every-map IsScore (λ s. pos 0) (λ s k. zero-IsScore) v.scoreboard h

  -- From scores between -2 and 1, any calls of any method leave scores between -2 and 1.
  pub vip-Scores :
      (calls : List Call) (v : Vip D P C)
      → Every IsScore v.scoreboard
      → Every IsScore (Vip.scoreboard (after (vip default private mcache) v calls))
  unfolding vip
  vip-Scores calls v h =
      after-invariant (vip default private mcache) (λ v. Every IsScore (Vip.scoreboard v)) calls v
        (record {
          predicts = predict-Scores;
          predicts_with = λ v pc addon addon_len h. predict-Scores v pc h;
          updates = update-Scores;
          histories = λ v taken h. h;
          resets = reset-Scores;
        })
        h

-- the score of an entry after outcomes that one of the two predictors alone foresaw
unfoldable pub scores : Bool → List Bool → ℤ → ℤ
scores default_right [] s = s
scores default_right (real ∷ reals) s =
    let d = if default_right then real else not real in
    scores default_right reals (next_score d (not d) real s)

private_right :
    (real : Bool) (s : ℤ)
    → next_score (not real) (not (not real)) real s ≡ (if ltb_ℤ min_score s then s -ℤ pos 1 else s)
unfolding next_score
private_right true s = refl
private_right false s = refl

lower :
    (n : ℕ) (s : ℤ)
    → min_score ≤ℤ s
    → gap min_score s ≤ suc n
    → (min_score ≤ℤ (if ltb_ℤ min_score s then s -ℤ pos 1 else s))
      × (gap min_score (if ltb_ℤ min_score s then s -ℤ pos 1 else s) ≤ n)
lower n s h g = ground (arith, -ℤ_parts s (pos 1))

lowered :
    (reals : List Bool) (s : ℤ)
    → min_score ≤ℤ s
    → gap min_score s ≤ length reals
    → scores false reals s ≡ min_score
unfolding scores
lowered [] s h g = eq_of_parts s min_score (omega arith)
lowered (real ∷ reals) s h g =
    let (h', g') = lower (length reals) s h g in rw (private_right real s) (lowered reals _ h' g')

-- Where the private predictor alone is right three times or more, a score of two bits is at the lowest
-- one, and stays there.
pub private_right-saturates :
    (reals : List Bool) (s : ℤ) → IsScore s → 3 ≤ length reals → scores false reals s ≡ min_score
private_right-saturates reals s h l = lowered reals s h.0 (omega arith)

default_right_up : (real : Bool) → next_score real (not real) real (pos 0) ≡ max_score
unfolding next_score ◌+ℤ◌
default_right_up true = refl
default_right_up false = refl

default_right_down : (real : Bool) → next_score real (not real) real max_score ≡ pos 0
unfolding next_score ◌-ℤ◌
default_right_down true = refl
default_right_down false = refl

flip : (n : ℕ) (x y : ℤ) → (if n % 2 == 0 then x else y) ≡ (if suc n % 2 == 0 then y else x)
flip n x y = ground arith

alternates :
    (reals : List Bool)
    → (scores true reals max_score ≡ (if length reals % 2 == 0 then max_score else pos 0))
      × (scores true reals (pos 0) ≡ (if length reals % 2 == 0 then pos 0 else max_score))
unfolding scores
alternates [] = (refl, refl)
alternates (real ∷ reals) =
    let (a, b) = alternates reals in
    (
      rw (default_right_down real) (b ∙ flip (length reals) (pos 0) max_score),
      rw (default_right_up real) (a ∙ flip (length reals) max_score (pos 0)),
    )

-- Where the default predictor alone is right, the highest score is not kept: it is there after an even
-- number of outcomes and at 0 after an odd one.
pub default_right-alternates :
    (reals : List Bool)
    → scores true reals max_score ≡ (if length reals % 2 == 0 then max_score else pos 0)
default_right-alternates reals = (alternates reals).0
