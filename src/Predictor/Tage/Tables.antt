-- ===== src/Predictor/Tage/Tables.antt =====
-- The tables of a TAGE predictor through its loops: none is lost, and all keep their ranges.
use Prim.Native.Nat.{bit_and}
use sandbox_predictor.Prelude.{
  ℕ, zero, suc, ◌+◌, ◌*◌, ◌^◌, ◌≡◌, refl, ap, ◌∙◌, Bool, true, false, List, Option, none, some,
  get_or, set, length, length-set, if◌then◌else◌, Bool-cases, inl, inr, ◌&&◌, ◌==◌,
}
use sandbox_predictor.Prelude.Every.{Every, Every-set, Every-get_or}
use sandbox_predictor.Prelude.Int.{ℤ}
use sandbox_predictor.Predictor.TagTable.{TagTable, add, decay}
use sandbox_predictor.Predictor.TagTable.Bounds
use sandbox_predictor.Predictor.Tage.{
  no_table, make_tables, add_randomly, add_first, decay_from, allocate, update_table,
}

abbrev pub AllValid : List TagTable → List TagTable → Type 0
AllValid old new = Every Bounds.IsValid new × (length new ≡ length old)

table-IsValid :
    (tables : List TagTable) (i : ℕ)
    → Every Bounds.IsValid tables
    → Bounds.IsValid (get_or tables i no_table)
table-IsValid tables i v =
    Every-get_or Bounds.IsValid tables i no_table v (Bounds.construct-IsValid 0 0)

pub set-AllValid :
    (tables : List TagTable) (i : ℕ) (t : TagTable)
    → Every Bounds.IsValid tables
    → Bounds.IsValid t
    → AllValid tables (set tables i t)
set-AllValid tables i t v w = (Every-set Bounds.IsValid tables i t v w, length-set tables i t)

pub if-AllValid :
    (b : Bool) (old xs ys : List TagTable)
    → AllValid old xs
    → AllValid old ys
    → AllValid old (if b then xs else ys)
if-AllValid true old xs ys p q = p
if-AllValid false old xs ys p q = q

module _ (pc history : ℕ) where
  add-AllValid :
      (tables : List TagTable) (i : ℕ)
      → Every Bounds.IsValid tables
      → AllValid tables (set tables i (add (get_or tables i no_table) pc history).0)
  add-AllValid tables i v =
      set-AllValid tables i _ v
        (Bounds.add-IsValid (get_or tables i no_table) pc history (table-IsValid tables i v))

  add_randomly-AllValid :
      (rounds i r : ℕ) (tables : List TagTable)
      → Every Bounds.IsValid tables
      → AllValid tables (add_randomly tables pc history rounds i r).0
  unfolding add_randomly
  add_randomly-AllValid zero i r tables v = (v, refl)
  add_randomly-AllValid (suc rounds) i r tables v =
      elim (Bool-cases ((bit_and r 1 == 1) && (add (get_or tables i no_table) pc history).1)) [
        | inl q ↦ rw (q, add_randomly) (add-AllValid tables i v)
        | inr q ↦ rw (q, add_randomly) (add_randomly-AllValid rounds (i + 1) _ tables v)
      ]

  add_first-AllValid :
      (rounds i : ℕ) (tables : List TagTable)
      → Every Bounds.IsValid tables
      → AllValid tables (add_first tables pc history rounds i).0
  unfolding add_first
  add_first-AllValid zero i tables v = (v, refl)
  add_first-AllValid (suc rounds) i tables v =
      elim (Bool-cases (add (get_or tables i no_table) pc history).1) [
        | inl q ↦ rw (q, add_first) (add-AllValid tables i v)
        | inr q ↦ rw (q, add_first) (add_first-AllValid rounds (i + 1) tables v)
      ]

  decay_from-AllValid :
      (rounds i : ℕ) (tables : List TagTable)
      → Every Bounds.IsValid tables
      → AllValid tables (decay_from tables pc history rounds i)
  unfolding decay_from
  decay_from-AllValid zero i tables v = (v, refl)
  decay_from-AllValid (suc rounds) i tables v =
      let t = decay (get_or tables i no_table) pc history in
      let (a, b) =
        set-AllValid tables i t v
          (Bounds.decay-IsValid (get_or tables i no_table) pc history (table-IsValid tables i v)) in
      let (c, d) = decay_from-AllValid rounds (i + 1) (set tables i t) a in (c, d ∙ b)

  pub allocate-AllValid :
      (rounds i r : ℕ) (tables : List TagTable)
      → Every Bounds.IsValid tables
      → AllValid tables (allocate tables pc history rounds i r)
  unfolding allocate
  allocate-AllValid rounds i r tables v =
      if-AllValid (add_randomly tables pc history rounds i r).1 tables _ _
        (add_randomly-AllValid rounds i r tables v)
        (if-AllValid (add_first tables pc history rounds i).1 tables _ _
          (add_first-AllValid rounds i tables v) (decay_from-AllValid rounds i tables v))

  pub update_table-AllValid :
      (tables : List TagTable) (o : Option ℕ) (taken : Bool) (useful : ℤ)
      → Every Bounds.IsValid tables
      → AllValid tables (update_table tables o pc history taken useful)
  unfolding update_table
  update_table-AllValid tables none taken useful v = (v, refl)
  update_table-AllValid tables (some i) taken useful v = set-AllValid tables i _ v (
      Bounds.update-IsValid (get_or tables i no_table) pc history taken useful
        (table-IsValid tables i v))

pub AllValid-trans : (xs ys zs : List TagTable) → AllValid xs ys → AllValid ys zs → AllValid xs zs
AllValid-trans xs ys zs p q = (q.0, q.1 ∙ p.1)

pub make_tables-AllValid :
    (idx_len rounds i : ℕ)
    → Every Bounds.IsValid (make_tables idx_len rounds i)
      × (length (make_tables idx_len rounds i) ≡ rounds)
unfolding make_tables Every
make_tables-AllValid idx_len zero i = (tt, refl)
make_tables-AllValid idx_len (suc rounds) i =
    let (a, b) = make_tables-AllValid idx_len rounds (i + 1) in
    ((Bounds.construct-IsValid idx_len (2 * 2 ^ i), a), ap suc b)
