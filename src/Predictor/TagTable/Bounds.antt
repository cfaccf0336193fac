-- ===== src/Predictor/TagTable/Bounds.antt =====
-- The entries of a tagged table keep their ranges, and its indices stay in it.
use sandbox_predictor.Prelude.{
  ℕ, ◌-◌, ◌^◌, ◌≤◌, ◌<◌, ◌≡◌, refl, sym, ◌∙◌, Bool, List, arith, length, length-set,
  length-replicate, length-map, set, ◌==◌, Bool-cases, inl, inr,
}
use sandbox_predictor.Prelude.Bits.{bit_and-le, pow_pos}
use sandbox_predictor.Prelude.Every.{Every, Every-set, Every-get_or, Every-replicate, Every-map}
use sandbox_predictor.Prelude.Int.{ℤ, pos, negsuc, ◌≤ℤ◌, +ℤ_parts, -ℤ_parts}
use sandbox_predictor.Predictor.Counter.{step_bounds}
use sandbox_predictor.Predictor.TagTable.{
  TageEntry, TagTable, clear_entry, get_idx, get_tag, entry_at, add, is_useless, step_useful,
  trained, update, decayed, decay_all, decay, int_and, masked, soft_reset, hard_reset, construct,
}

-- Two bits for the counter and two for the use.
pub record IsInRange (e : TageEntry) : Type 0 where
  pub counter_lo : negsuc 1 ≤ℤ e.counter
  pub counter_hi : e.counter ≤ℤ pos 1
  pub useful_lo : pos 0 ≤ℤ e.useful
  pub useful_hi : e.useful ≤ℤ pos 3

pub record IsValid (t : TagTable) : Type 0 where
  pub entries : t.n_entries ≡ 2 ^ t.idx_len
  pub size : length t.content ≡ 2 ^ t.idx_len
  pub max_eq : t.counter_max ≡ pos 1
  pub min_eq : t.counter_min ≡ negsuc 1
  pub useful_eq : t.useful_max ≡ pos 3
  pub in_range : Every IsInRange t.content

clear-IsInRange : IsInRange clear_entry
clear-IsInRange = record {
  counter_lo = omega arith;
  counter_hi = omega arith;
  useful_lo = omega arith;
  useful_hi = omega arith;
}

pub get_idx-lt : (t : TagTable) (pc history : ℕ) → get_idx t pc history < 2 ^ t.idx_len
unfolding get_idx
get_idx-lt t pc history = omega (arith, bit_and-le _ (2 ^ t.idx_len - 1), pow_pos t.idx_len)

pub get_tag-lt : (t : TagTable) (pc history : ℕ) → get_tag t pc history < 2 ^ t.tag_len
unfolding get_tag
get_tag-lt t pc history = omega (arith, bit_and-le _ (2 ^ t.tag_len - 1), pow_pos t.tag_len)

rewritten :
    (t : TagTable) (content : List TageEntry)
    → IsValid t
    → length content ≡ length t.content
    → Every IsInRange content
    → IsValid (record t { content = content })
rewritten t content v l r = record {
  entries = v.entries;
  size = l ∙ v.size;
  max_eq = v.max_eq;
  min_eq = v.min_eq;
  useful_eq = v.useful_eq;
  in_range = r;
}

rewritten_at :
    (t : TagTable) (i : ℕ) (e : TageEntry)
    → IsValid t
    → IsInRange e
    → IsValid (record t { content = set t.content i e })
rewritten_at t i e v r =
    rewritten t (set t.content i e) v (length-set t.content i e)
      (Every-set IsInRange t.content i e v.in_range r)

pub entry_at-IsInRange : (t : TagTable) (i : ℕ) → IsValid t → IsInRange (entry_at t i)
entry_at-IsInRange t i v = Every-get_or IsInRange t.content i clear_entry v.in_range clear-IsInRange

step_useful_bounds :
    (d u : ℤ)
    → pos 0 ≤ℤ u
    → u ≤ℤ pos 3
    → (pos 0 ≤ℤ step_useful (pos 3) d u) × (step_useful (pos 3) d u ≤ℤ pos 3)
unfolding step_useful
step_useful_bounds d u p q = ground (arith, +ℤ_parts u (pos 1), -ℤ_parts u (pos 1))

trained-IsInRange :
    (t : TagTable) (taken : Bool) (useful : ℤ) (e : TageEntry)
    → IsValid t
    → IsInRange e
    → IsInRange (trained t taken useful e)
unfolding trained
trained-IsInRange t taken useful e v r =
    let (a, b) = step_bounds (negsuc 1) (pos 1) e.counter taken r.counter_lo r.counter_hi in
    let (c, d) = step_useful_bounds useful e.useful r.useful_lo r.useful_hi in
    rw (v.max_eq, v.min_eq, v.useful_eq)
      (record { counter_lo = a; counter_hi = b; useful_lo = c; useful_hi = d })

decayed-IsInRange : (e : TageEntry) → IsInRange e → IsInRange (decayed e)
unfolding decayed
decayed-IsInRange e r = record {
  counter_lo = r.counter_lo;
  counter_hi = r.counter_hi;
  useful_lo = ground (arith, -ℤ_parts e.useful (pos 1), r.useful_lo, r.useful_hi);
  useful_hi = ground (arith, -ℤ_parts e.useful (pos 1), r.useful_lo, r.useful_hi);
}

int_and_bounds :
    (u : ℤ) (mask : ℕ) → mask ≤ 3 → (pos 0 ≤ℤ int_and u mask) × (int_and u mask ≤ℤ pos 3)
unfolding int_and
int_and_bounds (pos n) mask h = let b = bit_and-le n mask in (omega arith, omega arith)
int_and_bounds (negsuc n) mask h =
    let b = bit_and-le (2 ^ 32 - 1 - n) mask in (omega arith, omega arith)

masked-IsInRange : (mask : ℕ) (e : TageEntry) → mask ≤ 3 → IsInRange e → IsInRange (masked mask e)
unfolding masked
masked-IsInRange mask e h r =
    let (a, b) = int_and_bounds e.useful mask h in
    record { counter_lo = r.counter_lo; counter_hi = r.counter_hi; useful_lo = a; useful_hi = b }

-- Whatever is done to a table, its counters stay between -2 and 1 and its use counts between 0 and 3.
pub add-IsValid : (t : TagTable) (pc history : ℕ) → IsValid t → IsValid (add t pc history).0
unfolding add
add-IsValid t pc history v = elim (Bool-cases (is_useless (entry_at t (get_idx t pc history)))) [
  | inl e ↦
      let r = entry_at-IsInRange t (get_idx t pc history) v in
      rw e (
        rewritten_at t (get_idx t pc history) _ v (record {
          counter_lo = omega arith;
          counter_hi = omega arith;
          useful_lo = r.useful_lo;
          useful_hi = r.useful_hi;
        }))
  | inr e ↦ rw e v
]

pub update-IsValid :
    (t : TagTable) (pc history : ℕ) (taken : Bool) (useful : ℤ)
    → IsValid t
    → IsValid (update t pc history taken useful)
unfolding update
update-IsValid t pc history taken useful v =
    elim (Bool-cases (get_tag t pc history == TageEntry.tag (entry_at t (get_idx t pc history)))) [
      | inl e ↦ rw e (
          rewritten_at t (get_idx t pc history) _ v
            (trained-IsInRange t taken useful _ v (entry_at-IsInRange t (get_idx t pc history) v)))
      | inr e ↦ rw e v
    ]

pub decay-IsValid : (t : TagTable) (pc history : ℕ) → IsValid t → IsValid (decay t pc history)
unfolding decay
decay-IsValid t pc history v =
    rewritten_at t (get_idx t pc history) _ v
      (decayed-IsInRange _ (entry_at-IsInRange t (get_idx t pc history) v))

pub decay_all-IsValid : (t : TagTable) → IsValid t → IsValid (decay_all t)
unfolding decay_all
decay_all-IsValid t v =
    rewritten t _ v (length-map decayed t.content)
      (Every-map IsInRange decayed decayed-IsInRange t.content v.in_range)

pub soft_reset-IsValid :
    (t : TagTable) (mask : ℕ) → mask ≤ 3 → IsValid t → IsValid (soft_reset t mask)
unfolding soft_reset
soft_reset-IsValid t mask h v =
    rewritten t _ v (length-map (masked mask) t.content)
      (Every-map IsInRange (masked mask) (λ e r. masked-IsInRange mask e h r) t.content v.in_range)

pub hard_reset-IsValid : (t : TagTable) → IsValid t → IsValid (hard_reset t)
unfolding hard_reset
hard_reset-IsValid t v =
    rewritten t _ v (length-replicate t.n_entries clear_entry ∙ v.entries ∙ sym v.size)
      (Every-replicate IsInRange t.n_entries clear_entry clear-IsInRange)

pub construct-IsValid : (idx_len tag_len : ℕ) → IsValid (construct idx_len tag_len)
unfolding construct hard_reset
construct-IsValid idx_len tag_len = record {
  entries = refl;
  size = length-replicate (2 ^ idx_len) clear_entry;
  max_eq = refl;
  min_eq = refl;
  useful_eq = refl;
  in_range = Every-replicate IsInRange (2 ^ idx_len) clear_entry clear-IsInRange;
}
