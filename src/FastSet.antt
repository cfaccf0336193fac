-- ===== src/FastSet.antt =====
-- `fastset` of inc/set.h: a set of numbers below 512, as a sorted array while it is small and as a
-- bit array once it has had thirteen members.
pub mod Values
pub mod Tests
pub mod Expand
pub mod Join
pub mod Refine
pub mod Search
pub mod Words
pub mod Find
pub mod Put
use sandbox_predictor.Prelude.{
  ℕ, zero, suc, ◌+◌, ◌-◌, ◌*◌, ◌/◌, ◌^◌, Bool, true, false, Option, none, some, List, [], ◌∷◌, ◌++◌,
  ltb, leb, ◌==◌, if◌then◌else◌, get_or, set, replicate, take,
}
use sandbox_predictor.Prelude.Digits.{digit}
use Prim.Native.Nat.{bit_and, bit_or}

abbrev pub max_size : ℕ
max_size = 512

abbrev pub small_size : ℕ
small_size = 13

abbrev pub smaller_size : ℕ
smaller_size = 6

-- The two members of the union are kept apart: the code reads only the one that it wrote last. What
-- the constructor leaves unset is 0 here.
pub record FastSet : Type 0 where
  pub values : List ℕ  -- TYPE, an unsigned short
  pub bits : List ℕ  -- unsigned long long
  pub card : ℕ  -- int

unfoldable pub construct : FastSet
construct = record { values = replicate small_size 0; bits = replicate (max_size / 64) 0; card = 0 }

-- `x` is below MAX_SIZE, as the assertion says that the code has commented out: for a larger one it
-- writes past the array, which is not modelled.
unfoldable pub setbit : List ℕ → ℕ → List ℕ
setbit bits x =
    let word = x / 64 in
    let bit = bit_and x 63 in set bits word (bit_or (get_or bits word 0) (2 ^ bit))

-- `x` is below MAX_SIZE: `search` and `expand` do not get here with a larger one.
unfoldable pub getbit : List ℕ → ℕ → Bool
getbit bits x = let word = x / 64 in let bit = bit_and x 63 in digit (get_or bits word 0) bit

-- The first loop of `insert_small`, `rounds` more values from number `i`: where `x` belongs, or
-- `none` if it is there.
unfoldable pub place_from : List ℕ → ℕ → ℕ → ℕ → Option ℕ
place_from values x zero i = some i
place_from values x (suc rounds) i =
    let y = get_or values i 0 in
    let rest = place_from values x rounds (i + 1) in
    if y == x then none else if ltb x y then some i else rest

-- The second loop of `insert_small`: moves `rounds` values from number `i` up by one, the last first.
unfoldable pub move_up : List ℕ → ℕ → ℕ → List ℕ
move_up values i zero = values
move_up values i (suc rounds) =
    let j = i + rounds in move_up (set values (j + 1) (get_or values j 0)) i rounds

unfoldable pub insert_small : FastSet → ℕ → FastSet
unfolding place_from move_up
insert_small s x = elim (place_from s.values x s.card 0) [
  | none ↦ s
  | some i ↦ record s { values = set (move_up s.values i (s.card - i)) i x; card = s.card + 1 }
]

-- `rounds` more values from number `i`
unfoldable pub linear_from : List ℕ → ℕ → ℕ → ℕ → Bool
linear_from values x zero i = false
linear_from values x (suc rounds) i =
    let y = get_or values i 0 in
    let rest = linear_from values x rounds (i + 1) in
    if ltb x y then false else if y == x then true else rest

unfoldable pub search_small_linear : FastSet → ℕ → Bool
unfolding linear_from
search_small_linear s x = linear_from s.values x s.card 0

-- The loop of `search_small` between `begin` and `end - 1`, where the code keeps `end - 1`, which
-- falls to -1. `none` means that the fuel ran out.
unfoldable pub binary : ℕ → List ℕ → ℕ → ℕ → ℕ → Option Bool
binary zero values x begin end = none
binary (suc fuel) values x begin end =
    let middle = (begin + end - 1) / 2 in
    let y = get_or values middle 0 in
    let below = binary fuel values x begin middle in
    let above = binary fuel values x (middle + 1) end in
    if ltb x y
    then (if leb middle begin then some false else below)
    else if ltb y x
    then (if leb end (middle + 1) then some false else above)
    else some true

unfoldable pub search_small : FastSet → ℕ → Option Bool
unfolding binary search_small_linear
search_small s x =
    if s.card == 0
    then some false
    else if ltb s.card smaller_size
    then some (search_small_linear s x)
    else binary s.card s.values x 0 s.card

-- the loop over the values of a small set
unfoldable pub set_all : List ℕ → List ℕ → List ℕ
unfolding setbit
set_all bits [] = bits
set_all bits (x ∷ xs) = set_all (setbit bits x) xs

unfoldable pub smalltobit : FastSet → FastSet
unfolding set_all
smalltobit s = record s { bits = set_all (replicate (max_size / 64) 0) (take s.card s.values) }

unfoldable pub insert : FastSet → ℕ → FastSet
unfolding insert_small smalltobit setbit
insert s x =
    if s.card == 0
    then record s { values = set s.values 0 x; card = 1 }
    else if ltb s.card small_size
    then (let s' = insert_small s x in if s'.card == small_size then smalltobit s' else s')
    else record s { bits = setbit s.bits x }

-- `none` is a read past the bit array, or that the fuel ran out.
unfoldable pub search : FastSet → ℕ → Option Bool
unfolding search_small getbit
search s x =
    if s.card == 0
    then some false
    else if s.card == 1
    then some (get_or s.values 0 0 == x)
    else if ltb s.card small_size
    then search_small s x
    else if ltb x max_size
    then some (getbit s.bits x)
    else none

-- the first loop of `join`
unfoldable pub insert_all : FastSet → List ℕ → FastSet
unfolding insert
insert_all s [] = s
insert_all s (x ∷ xs) = insert_all (insert s x) xs

-- the second loop of `join`, `rounds` more words from number `i`
unfoldable pub or_words : ℕ → ℕ → List ℕ → List ℕ → List ℕ
or_words zero i bits other = bits
or_words (suc rounds) i bits other =
    or_words rounds (i + 1) (set bits i (bit_or (get_or bits i 0) (get_or other i 0))) other

unfoldable pub join : FastSet → FastSet → ℕ → FastSet
unfolding insert_all smalltobit or_words
join s other n =
    let lim = (bit_or n 63 + 1) / 64 in
    let wide = if ltb s.card small_size then record (smalltobit s) { card = small_size } else s in
    if other.card == 0
    then s
    else if ltb other.card small_size
    then insert_all s (take other.card other.values)
    else record wide { bits = or_words lim 0 wide.bits other.bits }

-- the inner loop of `expand`: `rounds` more numbers from `l`, those below `n`
unfoldable pub members_from : List ℕ → ℕ → ℕ → ℕ → List ℕ
unfolding getbit
members_from bits n zero l = []
members_from bits n (suc rounds) l =
    let rest = members_from bits n rounds (l + 1) in
    if ltb l n then (if getbit bits l then l ∷ rest else rest) else []

-- The outer loop of `expand`: `rounds` more words from number `i`, each passed over if it is 0.
unfoldable pub expand_from : List ℕ → ℕ → ℕ → ℕ → List ℕ
unfolding members_from
expand_from bits n zero i = []
expand_from bits n (suc rounds) i =
    let rest = expand_from bits n rounds (i + 1) in
    if get_or bits i 0 == 0 then rest else members_from bits n 64 (i * 64) ++ rest

-- The array `v` up to the cardinality that is returned; `none` is a read past the bit array.
unfoldable pub expand : FastSet → ℕ → Option (List ℕ)
unfolding expand_from
expand s n =
    if s.card == 0
    then some []
    else if ltb s.card small_size
    then some (take s.card s.values)
    else if leb n max_size
    then some (expand_from s.bits n ((n + 63) / 64) 0)
    else none
