-- ===== src/MissCache/Lru/Run.antt =====
-- The life of an LRU miss cache: after `reset` and any accesses it holds the most recent PCs.
use sandbox_predictor.Prelude.{
  ℕ, ◌<◌, ◌^◌, ◌≡◌, ◌≢◌, ◌↔◌, refl, sym, ap, ◌∙◌, true, none, some, List, [], ◌∷◌, map, arith,
  get_elem?, length, length-map, find_index, ◌==◌, get_elem?-map, get_elem?-lt, find_index-some,
  find_index-none, Option-cases, inl, inr, Bool-cases,
}
use mathlib.Core.Path.{subst}
use sandbox_predictor.MissCache.Entry.{Entry, reset_from, reset_from-entry, length-reset_from}
use sandbox_predictor.MissCache.Recency.{touch, position, position-some}
use sandbox_predictor.MissCache.Lru.{LruCache, resize, access, get_idx, snapshot}
use sandbox_predictor.MissCache.Lru.Tracks.{Tracks}
use sandbox_predictor.MissCache.Lru.Access.{access-Tracks}

-- Whatever the arrays of `n` cells hold that `resize` is given, it leaves an empty cache of `n`
-- entries, if `n` is a positive `unsigned`.
pub resize-Tracks :
    (c : LruCache) (n : ℕ) (mem : List Entry) (saved : List ℕ)
    → 0 < n
    → n < 2 ^ 32
    → length mem ≡ n
    → length saved ≡ n
    → Tracks (resize c n mem saved) []
unfolding resize
resize-Tracks c n mem saved lo hi lm ls = record {
  size = length-reset_from 0 mem ∙ lm;
  saved_size = length-map (λ _. 0) saved ∙ ls;
  some_entry = lo;
  small = hi;
  fits = omega arith;
  lru_in = omega arith;
  distinct = λ a b p g h. absurd (cc);
  sound = λ i e g v. absurd (clear i e g v);
  apart = λ i j e f ge gf ve vf q. absurd (clear i e ge ve);
  present = λ a l. absurd (omega arith);
  used = λ i e g v. absurd (clear i e g v);
  free = λ i e g v. omega (arith, ap (λ (t : Entry). t.age) (reset_from-entry 0 mem i g));
  zeroed = λ i e g v. ap (λ (t : Entry). t.pc) (reset_from-entry 0 mem i g);
  oldest = λ i e g v q. absurd (clear i e g v);
}
  where
    clear : (i : ℕ) (e : Entry) → get_elem? (reset_from 0 mem) i ≡ some e → e.valid ≢ true
    clear i e g v = let r = reset_from-entry 0 mem i g in cc

-- a run of accesses, and the same run on the recency list
unfoldable pub accesses : LruCache → List ℕ → LruCache
accesses c [] = c
accesses c (pc ∷ pcs) = accesses (access c pc).0 pcs

unfoldable pub touches : ℕ → List ℕ → List ℕ → List ℕ
touches n xs [] = xs
touches n xs (pc ∷ pcs) = touches n (touch n pc xs) pcs

num_entries-access : (c : LruCache) (pc : ℕ) → (access c pc).0.num_entries ≡ c.num_entries
unfolding access
num_entries-access c pc = refl

-- If the cache holds `xs`, then after any accesses it holds what the same accesses make of `xs`.
pub accesses-Tracks :
    (pcs : List ℕ) (c : LruCache) (xs : List ℕ)
    → Tracks c xs
    → Tracks (accesses c pcs) (touches c.num_entries xs pcs)
unfolding accesses touches
accesses-Tracks [] c xs t = t
accesses-Tracks (pc ∷ pcs) c xs t =
    subst (λ n. Tracks (accesses (access c pc).0 pcs) (touches n (touch c.num_entries pc xs) pcs))
      (num_entries-access c pc)
      (accesses-Tracks pcs (access c pc).0 (touch c.num_entries pc xs) (access-Tracks c xs pc t))

-- Right after a snapshot, `get_idx` answers -1 for a PC other than 0 exactly when the cache does not
-- hold it, and otherwise the index of a valid entry that holds it.
pub snapshot-get_idx :
    (c : LruCache) (xs : List ℕ) (pc : ℕ)
    → Tracks c xs
    → pc ≢ 0
    → ((get_idx (snapshot c) pc ≡ none) ↔ (position pc xs ≡ none))
      × ((i : ℕ)
          → get_idx (snapshot c) pc ≡ some i
          → (e : Entry) × (get_elem? c.entries i ≡ some e) × (e.valid ≡ true) × (e.pc ≡ pc))
unfolding snapshot get_idx
snapshot-get_idx c xs pc t nz = ((missing, unheld), found)
  where
    pcs : List ℕ
    pcs = map (λ (e : Entry). e.pc) c.entries

    entry_of :
        (i s : ℕ)
        → get_elem? pcs i ≡ some s
        → (e : Entry) × (get_elem? c.entries i ≡ some e) × (e.pc ≡ s)
    entry_of i s g = elim (Option-cases (get_elem? c.entries i)) [
      | inl q ↦ absurd (ground (arith, get_elem?-map (λ (e : Entry). e.pc) c.entries i))
      | inr (e, q) ↦ (e, q, ground (arith, get_elem?-map (λ (e : Entry). e.pc) c.entries i))
    ]

    held : (i : ℕ) (e : Entry) → get_elem? c.entries i ≡ some e → e.pc ≡ pc → e.valid ≡ true
    held i e g q = elim (Bool-cases e.valid) [
      | inl v ↦ v
      | inr v ↦ absurd (nz (sym q ∙ t.zeroed i e g v))
    ]

    found :
        (i : ℕ)
        → find_index (λ s. s == pc) pcs ≡ some i
        → (e : Entry) × (get_elem? c.entries i ≡ some e) × (e.valid ≡ true) × (e.pc ≡ pc)
    found i q =
        let (s, g, w) = find_index-some (λ s. s == pc) pcs q in
        let (e, ge, r) = entry_of i s g in
        let r' : e.pc ≡ pc = ground arith in (e, ge, held i e ge r', r')

    missing : find_index (λ s. s == pc) pcs ≡ none → position pc xs ≡ none
    missing q = elim (Option-cases (position pc xs)) [
      | inl r ↦ r
      | inr (a, r) ↦
          let g = position-some pc xs r in
          let old = t.present a (get_elem?-lt xs a g) in
          let s : get_elem? xs a ≡ some old.entry.pc =
            ap (get_elem? xs) (sym old.age_eq) ∙ t.sound old.index old.entry old.found old.valid in
          let h : get_elem? pcs old.index ≡ some old.entry.pc =
            get_elem?-map (λ (e : Entry). e.pc) c.entries old.index ∙ rw old.found in
          absurd (ground (arith, find_index-none (λ s. s == pc) pcs old.index q h))
    ]

    unheld : position pc xs ≡ none → find_index (λ s. s == pc) pcs ≡ none
    unheld q = elim (Option-cases (find_index (λ s. s == pc) pcs)) [
      | inl r ↦ r
      | inr (i, r) ↦
          let (e, ge, v, w) = found i r in
          let g : get_elem? xs e.age ≡ some pc = t.sound i e ge v ∙ ap some w in
          absurd (ground (arith, find_index-none (λ x. x == pc) xs e.age q g))
    ]

-- Right after a snapshot, `get_idx` answers -1 for a PC other than 0 exactly when the cache does not
-- hold it.
pub snapshot-get_idx-none :
    (c : LruCache) (xs : List ℕ) (pc : ℕ)
    → Tracks c xs
    → pc ≢ 0
    → (get_idx (snapshot c) pc ≡ none) ↔ (position pc xs ≡ none)
snapshot-get_idx-none c xs pc t nz = (snapshot-get_idx c xs pc t nz).0

-- An index that `get_idx` answers right after a snapshot, for a PC other than 0, is that of a valid
-- entry that holds the PC.
pub snapshot-get_idx-some :
    (c : LruCache) (xs : List ℕ) (pc i : ℕ)
    → Tracks c xs
    → pc ≢ 0
    → get_idx (snapshot c) pc ≡ some i
    → (e : Entry) × (get_elem? c.entries i ≡ some e) × (e.valid ≡ true) × (e.pc ≡ pc)
snapshot-get_idx-some c xs pc i t nz h = (snapshot-get_idx c xs pc t nz).1 i h
