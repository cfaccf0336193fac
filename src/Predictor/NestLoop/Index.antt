-- ===== src/Predictor/NestLoop/Index.antt =====
-- Where a loop predictor looks in its table.
use Prim.Native.Nat.{bit_and, bit_xor}
use native.Mathlib.Nat.{pow-suc}
use sandbox_predictor.Prelude.{
  ℕ, zero, suc, ◌+◌, ◌-◌, ◌^◌, ◌≤◌, ◌<◌, ◌≡◌, sym, ap, ◌∙◌, List, some, arith, ◌==◌, length,
  Bool-cases, inl, inr,
}
use sandbox_predictor.Prelude.Bits.{zero-bit_and, bit_xor-zero, bit_and-le, pow_pos}
use sandbox_predictor.Predictor.Run.{Call, after}
use sandbox_predictor.Predictor.NestLoop.{
  NestloopEntry, NestLoop, entry_at, get_idx, get_tag, lookup_from, lookup, nest_loop, construct,
}
use sandbox_predictor.Predictor.NestLoop.Untrained.{IsTable, run-IsTable}

-- The first way of the set of any program counter leaves room for the other three.
get_idx-le : (n : NestLoop) (pc : ℕ) → IsTable n → get_idx n pc + 4 ≤ length n.content
unfolding get_idx
get_idx-le n pc t =
    let m = 2 ^ (n.idx_len + 2) - 4 in
    let e : bit_xor (bit_and pc m) (bit_and n.history (2 ^ n.idx_len - 1)) ≡ bit_and pc m =
      rw (t.no_history, zero-bit_and (2 ^ n.idx_len - 1)) (bit_xor-zero (bit_and pc m)) in
    let two : n.idx_len + 2 ≡ suc (suc n.idx_len) = omega arith in
    let p : 2 ^ (n.idx_len + 2) ≡ 2 ^ suc (suc n.idx_len) = ap (λ k. 2 ^ k) two in
    omega (
      arith,
      e,
      p,
      bit_and-le pc m,
      t.size,
      pow-suc 2 n.idx_len,
      pow-suc 2 (suc n.idx_len),
      pow_pos n.idx_len,
    )

lookup_from-some :
    (content : List NestloopEntry) (target rounds at : ℕ) {i : ℕ}
    → lookup_from content target rounds at ≡ some i
    → (at ≤ i) × (i < at + rounds) × (NestloopEntry.tag (entry_at content i) ≡ target)
unfolding lookup_from
lookup_from-some content target zero at h = absurd (cc)
lookup_from-some content target (suc rounds) at {i} h =
    elim (Bool-cases (target == NestloopEntry.tag (entry_at content at))) [
      | inl e ↦
          let same : at ≡ i = ground arith in
          let tag : NestloopEntry.tag (entry_at content at) ≡ target = ground arith in
          (
            omega arith,
            omega arith,
            ap (λ k. NestloopEntry.tag (entry_at content k)) (sym same) ∙ tag,
          )
      | inr e ↦
          let (a, b, c) = lookup_from-some content target rounds (at + 1) {i = i} (ground arith) in
          (omega arith, omega arith, c)
    ]

-- After any calls, a look-up that finds an entry finds one of the table, in the set of the program
-- counter, and with its tag.
pub nest_loop-lookup_lt :
    (counter_len idx_len : ℕ) (calls : List Call) (pc i : ℕ)
    → lookup (after nest_loop (construct counter_len idx_len) calls) pc ≡ some i
    → (i < length (NestLoop.content (after nest_loop (construct counter_len idx_len) calls)))
      × (NestloopEntry.tag
            (entry_at (NestLoop.content (after nest_loop (construct counter_len idx_len) calls)) i)
          ≡ get_tag (after nest_loop (construct counter_len idx_len) calls) pc)
unfolding lookup
nest_loop-lookup_lt counter_len idx_len calls pc i h =
    let n = after nest_loop (construct counter_len idx_len) calls in
    let t = run-IsTable counter_len idx_len calls in
    let (a, b, c) = lookup_from-some n.content (get_tag n pc) n.assoc (get_idx n pc) h in
    (omega (arith, a, b, t.ways, get_idx-le n pc t), c)
