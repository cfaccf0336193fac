-- ===== src/MissCache/Nru/Choice.antt =====
-- Which entry an access to an NRU miss cache takes.
use sandbox_predictor.Prelude.{
  ℕ, zero, suc, ◌+◌, ◌%◌, ◌≤◌, ◌<◌, ◌≡◌, refl, sym, ap, true, not, ◌&&◌, some, arith, length,
  get_elem?, get_or, find_index, if◌then◌else◌, Bool-cases, Option-cases, inl, inr, find_index-some,
  find_index-none, find_index-first, get_or-of_get_elem?, ℕ_discrete, Bool, false, none,
  get_elem?-lt,
}
use mathlib.Core.Path.{subst}
use native.Mathlib.Nat.{mod-lt}
use sandbox_predictor.Prelude.Word.{u32, pred32}
use sandbox_predictor.MissCache.Nru.{NruEntry, NruCache, no_entry, holds, unused_from, choose}

-- The array has its size, and `lru` is an entry of it.
pub record IsValid (c : NruCache) : Type 0 where
  pub size : length c.entries ≡ c.num_entries
  pub lru_lt : c.lru < c.num_entries

-- no valid entry holds the program counter
pub record Misses (c : NruCache) (pc : ℕ) : Type 0 where
  pub passes : (k : ℕ) {x : NruEntry} → get_elem? c.entries k ≡ some x → holds pc x ≡ false

-- every entry is valid
pub record IsFull (c : NruCache) : Type 0 where
  pub taken : (k : ℕ) {x : NruEntry} → get_elem? c.entries k ≡ some x → x.valid ≡ true

-- number `k` of the entries from the random one on
abbrev pub turn : NruCache → ℕ → ℕ → NruEntry
turn c base k = get_or c.entries (u32 (k + base) % c.num_entries) no_entry

-- The entry that an access takes, whether it is a hit, and the age below which the others grow older.
pub data Choice (c : NruCache) (base pc : ℕ) : ℕ → Bool → ℕ → Type 0 where
  -- the first entry that holds the program counter
  hit :
      (i : ℕ) (e : NruEntry)
      → get_elem? c.entries i ≡ some e
      → holds pc e ≡ true
      → ((k : ℕ) (x : NruEntry) → get_elem? c.entries k ≡ some x → k < i → holds pc x ≡ false)
      → Choice c base pc i true e.age
  -- the first entry that is free
  free :
      Misses c pc
      → (i : ℕ) (e : NruEntry) → get_elem? c.entries i ≡ some e
      → e.valid ≡ false
      → ((k : ℕ) (x : NruEntry) → get_elem? c.entries k ≡ some x → k < i → x.valid ≡ true)
      → Choice c base pc i false (pred32 c.num_entries)
  -- the first one, from the random entry on, that was not used since it came in
  unused :
      Misses c pc
      → IsFull c
      → (k : ℕ) → k < c.num_entries
      → (not (turn c base k).used && (turn c base k).valid) ≡ true
      → ((m : ℕ) → m < k → (not (turn c base m).used && (turn c base m).valid) ≡ false)
      → Choice c base pc (u32 (k + base) % c.num_entries) false (pred32 c.num_entries)
  -- the oldest one
  oldest :
      Misses c pc
      → IsFull c
      → ((m : ℕ) → m < c.num_entries → (not (turn c base m).used && (turn c base m).valid) ≡ false)
      → Choice c base pc c.lru false (pred32 c.num_entries)

-- what the loop over the entries from the random one on finds
unused_from-first :
    (c : NruCache) (base rounds j : ℕ) {i : ℕ}
    → unused_from c base rounds j ≡ some i
    → (k : ℕ) × (j ≤ k)
      × (k < j + rounds)
      × (u32 (k + base) % c.num_entries ≡ i)
      × ((not (turn c base k).used && (turn c base k).valid) ≡ true)
      × ((m : ℕ) → j ≤ m → m < k → (not (turn c base m).used && (turn c base m).valid) ≡ false)
unfolding unused_from
unused_from-first c base zero j h = absurd (cc)
unused_from-first c base (suc rounds) j {i} h =
    elim (Bool-cases (not (turn c base j).used && (turn c base j).valid)) [
      | inl q ↦
          let same : u32 (j + base) % c.num_entries ≡ i = ground arith in
          (j, omega arith, omega arith, same, q, λ m a b. absurd (omega arith))
      | inr q ↦
          let rest : unused_from c base rounds (j + 1) ≡ some i = ground arith in
          let (k, a, b, e, t, before) = unused_from-first c base rounds (j + 1) rest in
          (
            k,
            omega arith,
            omega arith,
            e,
            t,
            λ m d f. elim (ℕ_discrete j m) [
              | yes same ↦ rw (← same) q
              | no ne ↦ before m (omega arith) f
            ],
          )
    ]

unused_from-none :
    (c : NruCache) (base rounds j : ℕ)
    → unused_from c base rounds j ≡ none
    → (m : ℕ) → j ≤ m
    → m < j + rounds
    → (not (turn c base m).used && (turn c base m).valid) ≡ false
unfolding unused_from
unused_from-none c base zero j h m a b = absurd (omega arith)
unused_from-none c base (suc rounds) j h m a b =
    elim (Bool-cases (not (turn c base j).used && (turn c base j).valid)) [
      | inl q ↦ absurd (ground arith)
      | inr q ↦
          let rest : unused_from c base rounds (j + 1) ≡ none = ground arith in
          elim (ℕ_discrete j m) [
            | yes same ↦ rw (← same) q
            | no ne ↦ unused_from-none c base rounds (j + 1) rest m (omega arith) (omega arith)
          ]
    ]

not_free : (b : Bool) → not b ≡ false → b ≡ true
not_free true e = refl
not_free false e = absurd (cc)

-- the age below which `access` lets the entries grow older
abbrev pub limit_of : NruCache → ℕ → ℕ → ℕ
limit_of c base pc =
    if (choose c base pc).1
    then (get_or c.entries (choose c base pc).0 no_entry).age
    else pred32 c.num_entries

pub choose-Choice :
    (c : NruCache) (base pc : ℕ)
    → Choice c base pc (choose c base pc).0 (choose c base pc).1 (limit_of c base pc)
unfolding choose
choose-Choice c base pc = elim (Option-cases (find_index (holds pc) c.entries)) [
  | inr (i, q) ↦
      let (e, g, t) = find_index-some (holds pc) c.entries q in
      let age = ap (λ (x : NruEntry). x.age) (get_or-of_get_elem? c.entries i no_entry g) in
      rw (q, choose)
        (subst (Choice c base pc i true) (sym age)
          (hit i e g t (λ k x a l. find_index-first (holds pc) c.entries k q a l)))
  | inl q ↦
      let misses : Misses c pc = record {
        passes = λ k a. find_index-none (holds pc) c.entries k q a;
      } in
      elim (Option-cases (find_index (λ (e : NruEntry). not e.valid) c.entries)) [
        | inr (i, r) ↦
            let (e, g, t) = find_index-some (λ (e : NruEntry). not e.valid) c.entries r in
            rw (q, choose)
              (rw r (
                free misses i e g (ground arith) (λ k x a l.
                  not_free x.valid
                    (find_index-first (λ (e : NruEntry). not e.valid) c.entries k r a l))))
        | inl r ↦
            let full : IsFull c = record {
              taken = λ k {x} a.
                  not_free x.valid
                    (find_index-none (λ (e : NruEntry). not e.valid) c.entries k r a);
            } in
            elim (Option-cases (unused_from c base c.num_entries 0)) [
              | inr (i, s) ↦
                  let (k, a, b, e, t, before) = unused_from-first c base c.num_entries 0 s in
                  rw (q, choose)
                    (rw r (
                      rw s (
                        subst (λ i. Choice c base pc i false (pred32 c.num_entries)) e
                          (unused misses full k (omega arith) t
                            (λ m l. before m (omega arith) l)))))
              | inl s ↦
                  rw (q, choose)
                    (rw r (
                      rw s (
                        oldest misses full (λ m l.
                          unused_from-none c base c.num_entries 0 s m (omega arith)
                            (omega arith)))))
            ]
      ]
]

-- the entry that is taken lies in the array
pub Choice-lt :
    (c : NruCache) (base pc : ℕ) {i limit : ℕ} {b : Bool}
    → IsValid c
    → Choice c base pc i b limit
    → i < c.num_entries
Choice-lt c base pc v (hit i e g t f) = subst (λ n. i < n) v.size (get_elem?-lt c.entries i g)
Choice-lt c base pc v (free m i e g t f) = subst (λ n. i < n) v.size (get_elem?-lt c.entries i g)
Choice-lt c base pc v (unused m f k l t b) = mod-lt (u32 (k + base)) (omega arith)
Choice-lt c base pc v (oldest m f b) = v.lru_lt
