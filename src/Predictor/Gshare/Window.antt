-- ===== src/Predictor/Gshare/Window.antt =====
-- The global history is a window: the index of a PC depends on the last `ghr_len` outcomes alone.
use Prim.Native.Nat.{bit_xor}
use native.Mathlib.Nat.{mod-mod_of_dvd, pow-suc}
use sandbox_predictor.Prelude.{
  ℕ, zero, suc, ◌+◌, ◌-◌, ◌*◌, ◌/◌, ◌%◌, ◌^◌, ◌≤◌, ◌≡◌, refl, sym, ap, ◌∙◌, Bool, true, false, List,
  [], ◌∷◌, arith, length, dec_lt,
}
use sandbox_predictor.Prelude.Bits.{pow_pos, mod-double, bit_xor-mod, pow-dvd, bit_and-ones}
use sandbox_predictor.Prelude.Word.{shift_in, shift_in_lem, bit}
use sandbox_predictor.Predictor.Gshare.{Gshare, get_idx, update}

shifted_low : (k h : ℕ) (b : Bool) → k ≤ 63 → shift_in h b % 2 ^ suc k ≡ h % 2 ^ k * 2 + bit b
shifted_low k h b l =
    ap (λ t. shift_in h b % t) (pow-suc 2 k)
    ∙ mod-double (shift_in h b) (2 ^ k) (pow_pos k)
    ∙ omega (
      arith,
      ap (λ t. t % 2 ^ k) half,
      low,
      mod-mod_of_dvd (2 ^ k) h (pow-dvd k (63 - k) 63 (omega arith)),
    )
  where
    bit_le : (b : Bool) → bit b ≤ 1
    bit_le true = omega arith
    bit_le false = omega arith

    half : shift_in h b / 2 ≡ h % 2 ^ 63
    half = omega (arith, shift_in_lem h b, bit_le b)

    low : shift_in h b % 2 ≡ bit b
    low = omega (arith, shift_in_lem h b, bit_le b)

-- Two histories that agree in their last `k` outcomes agree in one more after a further outcome.
agree_more :
    (k h h' : ℕ) (b : Bool)
    → k ≤ 63
    → h % 2 ^ k ≡ h' % 2 ^ k
    → shift_in h b % 2 ^ suc k ≡ shift_in h' b % 2 ^ suc k
agree_more k h h' b l q = omega (arith, shifted_low k h b l, shifted_low k h' b l)

agree_less : (k h h' : ℕ) → h % 2 ^ suc k ≡ h' % 2 ^ suc k → h % 2 ^ k ≡ h' % 2 ^ k
agree_less k h h' q =
    sym (mod-mod_of_dvd (2 ^ k) h (pow-dvd k 1 (suc k) (omega arith)))
    ∙ ap (λ t. t % 2 ^ k) q
    ∙ mod-mod_of_dvd (2 ^ k) h' (pow-dvd k 1 (suc k) (omega arith))

agree_same :
    (k h h' : ℕ) (b : Bool)
    → k ≤ 64
    → h % 2 ^ k ≡ h' % 2 ^ k
    → shift_in h b % 2 ^ k ≡ shift_in h' b % 2 ^ k
agree_same zero h h' b l q = omega arith
agree_same (suc k) h h' b l q = agree_more k h h' b (omega arith) (agree_less k h h' q)

-- a run of updates
unfoldable pub trained : Gshare → List (ℕ × Bool) → Gshare
trained g [] = g
trained g ((pc, taken) ∷ bs) = trained (update g pc taken) bs

ghr_len-trained : (bs : List (ℕ × Bool)) (g : Gshare) → (trained g bs).ghr_len ≡ g.ghr_len
unfolding trained update
ghr_len-trained [] g = refl
ghr_len-trained ((pc, taken) ∷ bs) g = ghr_len-trained bs (update g pc taken)

agree_run :
    (bs : List (ℕ × Bool)) (n k : ℕ) (g g' : Gshare)
    → k ≤ n
    → n ≤ 64
    → n ≤ k + length bs
    → g.history % 2 ^ k ≡ g'.history % 2 ^ k
    → (trained g bs).history % 2 ^ n ≡ (trained g' bs).history % 2 ^ n
unfolding trained update
agree_run [] n k g g' a b c q = let e : n ≡ k = omega arith in rw e q
agree_run ((pc, taken) ∷ bs) n k g g' a b c q = elim (dec_lt k n) [
  | yes l ↦
      agree_run bs n (suc k) (update g pc taken) (update g' pc taken) l b (omega arith)
        (agree_more k g.history g'.history taken (omega arith) q)
  | no l ↦
      agree_run bs n k (update g pc taken) (update g' pc taken) a b (omega arith)
        (agree_same k g.history g'.history taken (omega arith) q)
]

get_idx_low :
    (g : Gshare) (pc : ℕ) → get_idx g pc ≡ bit_xor (g.history % 2 ^ g.ghr_len) (pc % 2 ^ g.ghr_len)
unfolding get_idx
get_idx_low g pc =
    bit_and-ones g.ghr_len (bit_xor g.history pc) ∙ bit_xor-mod g.ghr_len g.history pc

-- Two predictors of one history length, at most 64, that have seen the same branches, at least as many
-- as that length, look a PC up at the same index, whatever they had seen before.
pub get_idx_window :
    (g g' : Gshare) (bs : List (ℕ × Bool)) (pc : ℕ)
    → g.ghr_len ≡ g'.ghr_len
    → g.ghr_len ≤ 64
    → g.ghr_len ≤ length bs
    → get_idx (trained g bs) pc ≡ get_idx (trained g' bs) pc
get_idx_window g g' bs pc q l m =
    get_idx_low (trained g bs) pc
    ∙ ap (λ n. bit_xor ((trained g bs).history % 2 ^ n) (pc % 2 ^ n)) (ghr_len-trained bs g)
    ∙ ap (λ h. bit_xor h (pc % 2 ^ g.ghr_len))
        (agree_run bs g.ghr_len 0 g g' (omega arith) l (omega arith) (omega arith))
    ∙ ap (λ n. bit_xor ((trained g' bs).history % 2 ^ n) (pc % 2 ^ n))
        (q ∙ sym (ghr_len-trained bs g'))
    ∙ sym (get_idx_low (trained g' bs) pc)
