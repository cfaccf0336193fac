-- ===== src/Prelude/Map.antt =====
-- `std::map` from numbers to numbers, as its pairs in the order of the keys.
use Prim.Native.Nat.{ℕ}
use mathlib.Core.Path.{◌≡◌, refl}
use mathlib.Core.Bool.{false}
use mathlib.Core.List.{List, [], ◌∷◌}
use mathlib.Core.Option.{Option, none, some}
use native.Mathlib.Omega.{arith}
use sandbox_predictor.Prelude.Tests.{ltb, ◌==◌, if◌then◌else◌}

abbrev pub Map : Type 0
Map = List (ℕ × ℕ)

-- the value of a key; `none` is `end()`
unfoldable pub find : ℕ → Map → Option ℕ
find k [] = none
find k ((k', v) ∷ m) = let rest = find k m in if k' == k then some v else rest

-- A key that is there keeps its value.
unfoldable pub insert : ℕ → ℕ → Map → Map
insert k v [] = (k, v) ∷ []
insert k v ((k', v') ∷ m) =
    let rest = insert k v m in
    if ltb k k' then (k, v) ∷ (k', v') ∷ m else if k' == k then (k', v') ∷ m else (k', v') ∷ rest

unfoldable pub erase : ℕ → Map → Map
erase k [] = []
erase k ((k', v) ∷ m) = let rest = erase k m in if k' == k then rest else (k', v) ∷ rest

-- the assignment to the value of a key that is there
unfoldable pub assign : ℕ → ℕ → Map → Map
assign k v [] = []
assign k v ((k', w) ∷ m) = (k', if k' == k then v else w) ∷ assign k v m

pub find-insert :
    (j k v : ℕ) (m : Map)
    → find k m ≡ none
    → find j (insert k v m) ≡ (if k == j then some v else find j m)
unfolding find insert
find-insert j k v [] h = refl
find-insert j k v ((k', w) ∷ m) h = ground (arith, find-insert j k v m)

pub find-erase : (j k : ℕ) (m : Map) → find j (erase k m) ≡ (if k == j then none else find j m)
unfolding find erase
find-erase j k [] = ground arith
find-erase j k ((k', w) ∷ m) = ground (arith, find-erase j k m)

pub find-assign_self : (k v w : ℕ) (m : Map) → find k m ≡ some w → find k (assign k v m) ≡ some v
unfolding find assign
find-assign_self k v w [] h = absurd (cc)
find-assign_self k v w ((k', u) ∷ m) h = ground (arith, find-assign_self k v w m)

pub find-assign_ne : (j k v : ℕ) (m : Map) → (k == j) ≡ false → find j (assign k v m) ≡ find j m
unfolding find assign
find-assign_ne j k v [] h = refl
find-assign_ne j k v ((k', u) ∷ m) h = ground (arith, find-assign_ne j k v m)
