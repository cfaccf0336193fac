-- ===== src/Predictor/NestLoop/Entries.antt =====
-- An entry's life: `last_pred` stays set, and an entry that knows its loop has no age left.
use sandbox_predictor.Prelude.{ℕ, ◌-◌, ◌≡◌, refl, Bool, true, false, arith, Bool-cases, inl, inr}
use sandbox_predictor.Predictor.NestLoop.{
  NestloopEntry, NestLoop, blank_entry, new_entry, predict_entry, credit, learn, expire,
  update_entry,
}

pub record IsUntrained (e : NestloopEntry) : Type 0 where
  pub last_taken : e.last_pred ≡ true
  pub spent : e.count_ready ≡ true → e.age ≡ 0

pub blank-IsUntrained : IsUntrained blank_entry
blank-IsUntrained = record { last_taken = refl; spent = λ h. refl }

pub new-IsUntrained : (t : ℕ) → IsUntrained (record new_entry { tag = t })
new-IsUntrained t = record { last_taken = refl; spent = λ h. absurd (ground arith) }

-- An untrained entry predicts taken, with no confidence, and stays untrained.
pub predict_entry-IsUntrained :
    (m : ℕ) (e : NestloopEntry)
    → IsUntrained e
    → IsUntrained (predict_entry m e).0
      × ((predict_entry m e).1 ≡ record { taken = true; confidence = 0 })
unfolding predict_entry
predict_entry-IsUntrained m e u = elim (Bool-cases e.count_ready) [
  | inl h ↦
      let z : e.age ≡ 0 = u.spent h in
      (record { last_taken = ground arith; spent = λ k. ground arith }, ground arith)
  | inr h ↦ (record { last_taken = ground arith; spent = λ k. ground arith }, ground arith)
]

-- Whatever its outcome, an untrained entry stays untrained.
pub update_entry-IsUntrained :
    (n : NestLoop) (taken : Bool) (e : NestloopEntry)
    → IsUntrained e
    → IsUntrained (update_entry n taken e)
unfolding update_entry credit learn expire
update_entry-IsUntrained n true e u = elim (Bool-cases e.count_ready) [
  | inl h ↦
      let z : e.age ≡ 0 = u.spent h in
      let l : e.last_pred ≡ true = u.last_taken in
      record { last_taken = ground arith; spent = λ k. ground arith }
  | inr h ↦
      let l : e.last_pred ≡ true = u.last_taken in
      record { last_taken = ground arith; spent = λ k. ground arith }
]
update_entry-IsUntrained n false e u =
    let l : e.last_pred ≡ true = u.last_taken in
    record { last_taken = ground arith; spent = λ k. ground arith }

-- An entry that loses age stays untrained.
pub aged-IsUntrained :
    (e : NestloopEntry) → IsUntrained e → IsUntrained (record e { age = e.age - 1 })
aged-IsUntrained e u = record { last_taken = u.last_taken; spent = λ k. omega (arith, u.spent k) }
