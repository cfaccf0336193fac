-- ===== src/Prelude/Every.antt =====
-- A property of every element of an array.
use mathlib.Core.List.{List, [], ◌∷◌, map}
use Prim.Native.Nat.{ℕ, zero, suc}
use sandbox_predictor.Prelude.Lists.{get_or, set, replicate}

module _ {ℓ} {A : Type ℓ} (P : A → Type 0) where
  unfoldable pub Every : List A → Type 0
  Every [] = Unit
  Every (x ∷ xs) = P x × Every xs

  pub Every-replicate : (n : ℕ) (a : A) → P a → Every (replicate n a)
  unfolding Every
  Every-replicate zero a h = tt
  Every-replicate (suc n) a h = (h, Every-replicate n a h)

  pub Every-set : (xs : List A) (i : ℕ) (v : A) → Every xs → P v → Every (set xs i v)
  unfolding Every
  Every-set [] i v h k = h
  Every-set (x ∷ xs) zero v h k = (k, h.1)
  Every-set (x ∷ xs) (suc i) v h k = (h.0, Every-set xs i v h.1 k)

  pub Every-get_or : (xs : List A) (i : ℕ) (d : A) → Every xs → P d → P (get_or xs i d)
  unfolding Every
  Every-get_or [] i d h k = k
  Every-get_or (x ∷ xs) zero d h k = h.0
  Every-get_or (x ∷ xs) (suc i) d h k = Every-get_or xs i d h.1 k

  pub Every-map :
      (f : A → A) → ((x : A) → P x → P (f x)) → (xs : List A) → Every xs → Every (map f xs)
  unfolding Every
  Every-map f g [] h = tt
  Every-map f g (x ∷ xs) h = (g x h.0, Every-map f g xs h.1)
