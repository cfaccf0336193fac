-- ===== src/Cache/Mshr/Earliest.antt =====
-- The entry that a search for the earliest cycle finds.
use sandbox_predictor.Prelude.{
  ℕ, zero, suc, ◌+◌, ◌≤◌, ◌<◌, ◌≡◌, ◌⊎◌, refl, sym, Bool, true, ◌&&◌, some, List, [], ◌∷◌, arith,
  ltb, if◌then◌else◌, get_elem?, Bool-cases, inl, inr,
}
use sandbox_predictor.Cache.Packet.{Packet}
use sandbox_predictor.Cache.Mshr.{earliest_from}

-- no entry that passes the test has a cycle below the bound
pub record IsBound (test : Packet → Bool) (es : List Packet) (bound : ℕ) : Type 0 where
  pub least : (k : ℕ) {e : Packet} → get_elem? es k ≡ some e → test e ≡ true → bound ≤ e.event_cycle

-- The entry at `place` passes the test, no entry that does has an earlier cycle, and none before it
-- the same one.
pub record IsFirst (test : Packet → Bool) (es : List Packet) (place cycle : ℕ) : Type 0 where
  pub packet : Packet
  pub here : get_elem? es place ≡ some packet
  pub passes : test packet ≡ true
  pub its_cycle : packet.event_cycle ≡ cycle
  pub bound : IsBound test es cycle
  pub first :
      (k : ℕ) {e : Packet}
      → k < place
      → get_elem? es k ≡ some e
      → test e ≡ true
      → cycle < e.event_cycle

-- what a search from number `i` with the bound `cycle` and the entry `index` so far comes to
abbrev pub Result : (Packet → Bool) → List Packet → ℕ → ℕ → ℕ → ℕ × ℕ → Type 0
Result test es i cycle index r =
    ((r.0 ≡ cycle) × (r.1 ≡ index) × IsBound test es cycle)
    ⊎ ((r.0 < cycle) × ((place : ℕ) × (r.1 ≡ i + place) × IsFirst test es place r.0))

-- one more entry, that is not below the bound or does not pass
later :
    (test : Packet → Bool) (e : Packet) (es : List Packet) (i cycle index : ℕ) (r : ℕ × ℕ)
    → (test e ≡ true → cycle ≤ e.event_cycle)
    → Result test es (i + 1) cycle index r
    → Result test (e ∷ es) i cycle index r
later test e es i cycle index r h (inl (a, b, c)) = inl (a, b, record { least = more })
  where
    more :
        (k : ℕ) {x : Packet} → get_elem? (e ∷ es) k ≡ some x → test x ≡ true → cycle ≤ x.event_cycle
    more zero g t = ground arith
    more (suc k) g t = c.least k g t
later test e es i cycle index r h (inr (a, (place, b, f))) = inr (
  a,
  (
    suc place,
    omega arith,
    record {
      packet = f.packet;
      here = f.here;
      passes = f.passes;
      its_cycle = f.its_cycle;
      bound = record { least = more };
      first = before;
    },
  ),
)
  where
    more :
        (k : ℕ) {x : Packet} → get_elem? (e ∷ es) k ≡ some x → test x ≡ true → r.0 ≤ x.event_cycle
    more zero g t = ground arith
    more (suc k) g t = f.bound.least k g t

    before :
        (k : ℕ) {x : Packet}
        → k < suc place
        → get_elem? (e ∷ es) k ≡ some x
        → test x ≡ true
        → r.0 < x.event_cycle
    before zero l g t = ground arith
    before (suc k) l g t = f.first k (omega arith) g t

-- one more entry, that passes below the bound
sooner :
    (test : Packet → Bool) (e : Packet) (es : List Packet) (i cycle index : ℕ) (r : ℕ × ℕ)
    → test e ≡ true
    → e.event_cycle < cycle
    → Result test es (i + 1) e.event_cycle i r
    → Result test (e ∷ es) i cycle index r
sooner test e es i cycle index r t l (inl (a, b, c)) = inr (
  omega arith,
  (
    0,
    omega arith,
    record {
      packet = e;
      here = refl;
      passes = t;
      its_cycle = sym a;
      bound = record { least = more };
      first = λ k m. absurd (omega arith);
    },
  ),
)
  where
    more :
        (k : ℕ) {x : Packet} → get_elem? (e ∷ es) k ≡ some x → test x ≡ true → r.0 ≤ x.event_cycle
    more zero g u = ground arith
    more (suc k) g u = omega (arith, c.least k g u)
sooner test e es i cycle index r t l (inr (a, (place, b, f))) =
    elim (later test e es i e.event_cycle index r (λ u. omega arith) (inr (a, (place, b, f)))) [
      | inl (p, q, s) ↦ absurd (omega arith)
      | inr (p, q) ↦ inr (omega arith, q)
    ]

step :
    (test : Packet → Bool) (e : Packet) (es : List Packet) (i cycle index : ℕ)
    → earliest_from test (e ∷ es) i cycle index
      ≡ earliest_from test es
          (i + 1)
          (if test e && ltb e.event_cycle cycle then e.event_cycle else cycle)
          (if test e && ltb e.event_cycle cycle then i else index)
unfolding earliest_from
step test e es i cycle index = refl

-- The search finds the first of the entries with the earliest cycle among those that pass the test
-- below the bound, or there is none.
pub earliest_from-Result :
    (test : Packet → Bool) (es : List Packet) (i cycle index : ℕ)
    → Result test es i cycle index (earliest_from test es i cycle index)
earliest_from-Result test [] i cycle index =
    unfold earliest_from in inl (refl, refl, record { least = λ k g t. absurd (cc) })
earliest_from-Result test (e ∷ es) i cycle index =
    rw (step test e es i cycle index) (elim (Bool-cases (test e)) [
      | inr f ↦ rw f (
          later test e es i cycle index _ (λ t. absurd (cc))
            (earliest_from-Result test es (i + 1) cycle index))
      | inl t ↦ elim (Bool-cases (ltb e.event_cycle cycle)) [
        | inl l ↦
            rw (t, l)
              (sooner test e es i cycle index _ t (ground arith)
                (earliest_from-Result test es (i + 1) e.event_cycle i))
        | inr l ↦
            rw (t, l)
              (later test e es i cycle index _ (λ u. ground arith)
                (earliest_from-Result test es (i + 1) cycle index))
      ]
    ])
