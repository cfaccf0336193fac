-- ===== src/Cache/Fill/Dirty.antt =====
-- A fill loses no data: a dirty block stays, or the level below is sent it.
use sandbox_predictor.Prelude.{
  ℕ, ◌≡◌, ◌≢◌, refl, sym, ap, ◌∙◌, Bool, true, false, some, List, [], ◌∷◌, ◌++◌, arith, get_or, set,
  ltb, leb, ◌==◌, ◌&&◌, ◌||◌, if◌then◌else◌, Bool-cases, Option-cases, inl, inr, ℕ_discrete, ◌⊎◌,
}
use mathlib.Core.Path.{subst}
use sandbox_predictor.Cache.Packet.{Packet, empty_packet}
use sandbox_predictor.Cache.Replacement.{Block}
use sandbox_predictor.Cache.Level.{Cache, rfo, get_set, fill_cache}
use sandbox_predictor.Cache.Level.Tags.{fill_cache-written}
use sandbox_predictor.Cache.Request.{is_l1d}
use sandbox_predictor.Cache.Handler.{
  Call, write_back, Hooks, inform, process, count_miss, evict, writeback_packet, is_llc, llc_way,
}
use sandbox_predictor.Cache.Fill.{retire, marked, bypass, place, replace, handle_fill}
use sandbox_predictor.Cache.Fill.Blocks.{
  bare, at, Respects, at-set, at-set_other, retire-block, process-block, inform-block,
}

-- the first call sends the data of a block to the level below
pub record WrittenBack (calls : List Call) (b : Block) : Type 0 where
  pub packet : Packet
  pub later : List Call
  pub first : calls ≡ write_back packet ∷ later
  pub address : packet.address ≡ b.address
  pub payload : packet.payload ≡ b.payload

-- a mark on a block, seen from every other place
marked-other :
    (c : Cache) (index way : ℕ) (e : Packet) (i w : ℕ)
    → (index ≡ i → way ≢ w)
    → at (marked c index way e).block i w ≡ at c.block i w
marked-other c index way e i w ne = elim (Bool-cases (is_l1d c.cache_type && (e.type == rfo))) [
  | inl t ↦ rw t (at-set_other c.block index way _ i w ne)
  | inr t ↦ rw t (refl)
]

-- the level below is sent the victim if it is dirty
evict-dirty :
    (now : ℕ → ℕ) (full : ℕ → Bool) (c : Cache) (cpu : ℕ) (e : Packet) (b : Block)
    (calls more : List Call)
    → evict now (some full) c cpu e b ≡ some (true, calls)
    → b.dirty ≡ true
    → WrittenBack (calls ++ more) b
unfolding evict writeback_packet
evict-dirty now full c cpu e b calls more h d =
    let r : write_back (writeback_packet now c cpu e b) ∷ [] ≡ calls =
      elim (Bool-cases (full b.address)) [ inl t ↦ absurd (ground arith) | inr t ↦ ground arith ] in
    record {
      packet = writeback_packet now c cpu e b;
      later = more;
      first = ap (λ t. t ++ more) (sym r);
      address = refl;
      payload = refl;
    }

module _ {S : Type 0} (hooks : Hooks S) (now : ℕ → ℕ) (warm : ℕ → Bool)
    (respects : Respects hooks) where
  bypass-at :
      (s : S) (c : Cache) (cpu index way j : ℕ) {s' : S} {c' : Cache} {calls : List Call}
      → bypass hooks now warm s c cpu index way j ≡ some (s', c', calls)
      → (i w : ℕ) → bare (at c'.block i w) ≡ bare (at c.block i w)
  unfolding bypass
  bypass-at s c cpu index way j {s'} {c'} {calls} h i w =
      let e = get_or c.mshr.entry j empty_packet in
      let new = (hooks.update_replacement_state s cpu index way 0 c e).1 in
      let c1 : Cache = count_miss (record c { block = set c.block index new }) cpu e.type in
      elim (Option-cases (retire now warm c1 cpu j)) [
        | inl n ↦ absurd (ground arith)
        | inr (c2, q) ↦
            let same : c'.block ≡ c2.block = ground arith in
            rw (same, retire-block now warm c1 cpu j q)
              (at-set c.block index new (respects.marks s cpu index way 0 c e) i w)
      ]

  place-at :
      (s : S) (c : Cache) (cpu index way j : ℕ) {s' : S} {c' : Cache} {calls : List Call}
      → place hooks now warm s c cpu index way j ≡ some (s', c', calls)
      → (i w : ℕ) → (index ≡ i → way ≢ w)
      → bare (at c'.block i w) ≡ bare (at c.block i w)
  unfolding place
  place-at s c cpu index way j {s'} {c'} {calls} h i w ne =
      let told =
        inform hooks c.cache_type s c cpu index way (get_or c.mshr.entry j empty_packet) j in
      let c1 : Cache = told.1 in
      let e = get_or c1.mshr.entry j empty_packet in
      let address = (at c1.block index way).full_addr in
      let new = (hooks.update_replacement_state told.0 cpu index way address c1 e).1 in
      let counted : Cache = count_miss (record c1 { block = set c1.block index new }) cpu e.type in
      elim (Option-cases (fill_cache counted index way e)) [
        | inl n ↦ absurd (ground arith)
        | inr (c2, f) ↦
            let c3 : Cache = marked c2 index way e in
            let payload = (at c3.block index way).payload in
            elim (Option-cases (process c3.cache_type c3 e payload)) [
              | inl n ↦ absurd (ground arith)
              | inr (c4, p) ↦ elim (Option-cases (retire now warm c4 cpu j)) [
                | inl n ↦ absurd (ground arith)
                | inr (c5, r) ↦
                    let same : c'.block ≡ c5.block = ground arith in
                    let kept : c'.block ≡ c3.block =
                      same
                      ∙ retire-block now warm c4 cpu j r
                      ∙ process-block c3.cache_type c3 e payload p in
                    let (_, written) = fill_cache-written counted index way e f in
                    ap (λ t. bare (at t i w)) kept
                    ∙ ap bare (marked-other c2 index way e i w ne)
                    ∙ ap (λ t. bare (at t i w)) written
                    ∙ ap bare (at-set_other counted.block index way _ i w ne)
                    ∙ at-set c1.block index new (respects.marks told.0 cpu index way address c1 e) i
                        w
                    ∙ ap (λ t. bare (at t i w))
                        (inform-block hooks respects c.cache_type s c cpu index way
                          (get_or c.mshr.entry j empty_packet) j)
              ]
            ]
      ]

  replace-keeps :
      (full : ℕ → Bool) (s : S) (c : Cache) (cpu index way j : ℕ) {s' : S} {c' : Cache}
      {calls : List Call}
      → replace hooks now warm (some full) s c cpu index way j ≡ some (s', c', calls)
      → (i w : ℕ) → (at c.block i w).dirty ≡ true
      → (bare (at c'.block i w) ≡ bare (at c.block i w)) ⊎ WrittenBack calls (at c.block i w)
  unfolding replace
  replace-keeps full s c cpu index way j {s'} {c'} {calls} h i w d =
      let e = get_or c.mshr.entry j empty_packet in
      elim (Option-cases (evict now (some full) c cpu e (at c.block index way))) [
        | inl n ↦ absurd (ground arith)
        | inr ((false, sent), q) ↦
            let same : c'.block ≡ c.block = ground arith in inl (ap (λ t. bare (at t i w)) same)
        | inr ((true, sent), q) ↦ elim (Option-cases (place hooks now warm s c cpu index way j)) [
          | inl n ↦ absurd (ground arith)
          | inr ((s1, c1, more), p) ↦
              let same : c'.block ≡ c1.block = ground arith in
              let all : sent ++ more ≡ calls = ground arith in
              let stays : (index ≡ i → way ≢ w) → bare (at c'.block i w) ≡ bare (at c.block i w) =
                λ ne. ap (λ t. bare (at t i w)) same ∙ place-at s c cpu index way j p i w ne in
              elim (ℕ_discrete index i) [
                | no other ↦ inl (stays (λ a. absurd (other a)))
                | yes a ↦ elim (ℕ_discrete way w) [
                  | no other ↦ inl (stays (λ _. other))
                  | yes b ↦
                      let gone : WrittenBack (sent ++ more) (at c.block index way) =
                        evict-dirty now full c cpu e (at c.block index way) sent more q
                          (rw (a, b) d) in
                      inr (
                        subst (λ t. WrittenBack t (at c.block i w)) all
                          (subst (λ k. WrittenBack (sent ++ more) (at c.block i k)) b
                            (subst (λ k. WrittenBack (sent ++ more) (at c.block k way)) a gone)))
                ]
              ]
        ]
      ]

-- A fill of a cache above another one, by any policy and prefetcher that keep to their part: a dirty
-- block of any set and way is still there afterwards, with its tag and data, or the first call sends
-- its address and its data to the level below.
pub handle_fill-keeps_dirty :
    {S : Type 0} (hooks : Hooks S) (now : ℕ → ℕ) (warm : ℕ → Bool) (num_cpus : ℕ) (full : ℕ → Bool)
    (s : S) (c : Cache) (i w : ℕ) {s' : S} {c' : Cache} {calls : List Call}
    → Respects hooks
    → handle_fill hooks now warm num_cpus (some full) s c ≡ some (s', c', calls)
    → (at c.block i w).dirty ≡ true
    → (bare (at c'.block i w) ≡ bare (at c.block i w)) ⊎ WrittenBack calls (at c.block i w)
unfolding handle_fill
handle_fill-keeps_dirty hooks now warm num_cpus full s c i w {s'} {c'} {calls} respects h d =
    let j = c.mshr.next_fill_index in
    let e = get_or c.mshr.entry j empty_packet in
    let cpu = if j == c.mshr_size then num_cpus else e.cpu in
    let index = get_set c e.address in
    let found = hooks.find_victim s cpu index c e in
    elim (Bool-cases ((cpu == num_cpus) || ltb (now cpu) c.mshr.next_fill_cycle)) [
      | inl t ↦ let same : c'.block ≡ c.block = ground arith in inl (ap (λ t. bare (at t i w)) same)
      | inr due ↦ elim (Bool-cases (leb c.mshr.size j)) [
        | inl t ↦ absurd (ground arith)
        | inr fits ↦ elim (Bool-cases (is_llc c.cache_type && (found.1 == llc_way))) [
          | inl t ↦
              let r : bypass hooks now warm found.0 c cpu index found.1 j ≡ some (s', c', calls) =
                ground arith in
              inl (bypass-at hooks now warm respects found.0 c cpu index found.1 j r i w)
          | inr t ↦
              let r : replace hooks now warm (some full) found.0 c cpu index found.1 j
                  ≡ some (s', c', calls) =
                ground arith in
              replace-keeps hooks now warm respects full found.0 c cpu index found.1 j r i w d
        ]
      ]
    ]
