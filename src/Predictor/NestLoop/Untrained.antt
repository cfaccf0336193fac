-- ===== src/Predictor/NestLoop/Untrained.antt =====
-- What a loop predictor does after any calls: no entry of it ever counts a loop.
use sandbox_predictor.Prelude.{
  ℕ, zero, suc, ◌+◌, ◌-◌, ◌*◌, ◌%◌, ◌^◌, ◌≡◌, refl, ◌∙◌, Bool, true, false, List, Option, none,
  some, ◌==◌, arith, set, Bool-cases, inl, inr, Option-cases, length, length-set, length-replicate,
}
use sandbox_predictor.Prelude.Bits.{bit_and-le, bit_and-ones}
use sandbox_predictor.Prelude.Every.{Every, Every-set, Every-get_or, Every-replicate}
use sandbox_predictor.Predictor.Run.{Call, after, after-invariant}
use sandbox_predictor.Predictor.NestLoop.{
  NestloopEntry, NestLoop, blank_entry, new_entry, entry_at, lookup, add_from, decay_from, add,
  predict, update_at, update, reset, get_idx, get_tag, nest_loop, construct, next_history,
}
use sandbox_predictor.Predictor.NestLoop.Entries.{
  IsUntrained, blank-IsUntrained, new-IsUntrained, predict_entry-IsUntrained,
  update_entry-IsUntrained, aged-IsUntrained,
}

-- The table has four ways for each set, no history, and no entry that counts a loop.
pub record IsTable (n : NestLoop) : Type 0 where
  pub ways : n.assoc ≡ 4
  pub size : length n.content ≡ 4 * 2 ^ n.idx_len
  pub entries : n.num_entries ≡ 2 ^ n.idx_len
  pub no_history : n.history ≡ 0
  pub untrained : Every IsUntrained n.content

written :
    (n : NestLoop) (content : List NestloopEntry)
    → IsTable n
    → length content ≡ length n.content
    → Every IsUntrained content
    → IsTable (record n { content = content })
written n content t l u = record {
  ways = t.ways;
  size = l ∙ t.size;
  entries = t.entries;
  no_history = t.no_history;
  untrained = u;
}

written_at :
    (n : NestLoop) (i : ℕ) (e : NestloopEntry)
    → IsTable n
    → IsUntrained e
    → IsTable (record n { content = set n.content i e })
written_at n i e t u =
    written n (set n.content i e) t (length-set n.content i e)
      (Every-set IsUntrained n.content i e t.untrained u)

entry_at-IsUntrained : (n : NestLoop) (i : ℕ) → IsTable n → IsUntrained (entry_at n.content i)
entry_at-IsUntrained n i t =
    Every-get_or IsUntrained n.content i blank_entry t.untrained blank-IsUntrained

pub predict-IsTable :
    (n : NestLoop) (pc : ℕ)
    → IsTable n
    → IsTable (predict n pc).0 × ((predict n pc).1 ≡ record { taken = true; confidence = 0 })
unfolding predict
predict-IsTable n pc t = elim (Option-cases (lookup n pc)) [
  | inl q ↦ rw (q, predict) (t, refl)
  | inr (i, q) ↦
      let (u, e) =
        predict_entry-IsUntrained n.max_count (entry_at n.content i) (entry_at-IsUntrained n i t) in
      rw (q, predict) (written_at n i _ t u, e)
]

add_from-IsUntrained :
    (rounds at new_tag : ℕ) (content : List NestloopEntry) {out : List NestloopEntry}
    → Every IsUntrained content
    → add_from content new_tag rounds at ≡ some out
    → Every IsUntrained out × (length out ≡ length content)
unfolding add_from
add_from-IsUntrained zero at new_tag content u h = absurd (cc)
add_from-IsUntrained (suc rounds) at new_tag content {out} u h =
    elim (Bool-cases (NestloopEntry.age (entry_at content at) == 0)) [
      | inl e ↦
          let s : set content at (record new_entry { tag = new_tag }) ≡ out = ground arith in
          rw (← s) (
            Every-set IsUntrained content at _ u (new-IsUntrained new_tag),
            length-set content at _,
          )
      | inr e ↦ add_from-IsUntrained rounds (at + 1) new_tag content u (ground arith)
    ]

decay_from-IsUntrained :
    (rounds at : ℕ) (content : List NestloopEntry)
    → Every IsUntrained content
    → Every IsUntrained (decay_from rounds at content)
      × (length (decay_from rounds at content) ≡ length content)
unfolding decay_from
decay_from-IsUntrained zero at content u = (u, refl)
decay_from-IsUntrained (suc rounds) at content u =
    let e = entry_at content at in
    let u' =
      aged-IsUntrained e (Every-get_or IsUntrained content at blank_entry u blank-IsUntrained) in
    let (a, b) =
      decay_from-IsUntrained rounds (at + 1) (set content at (record e { age = e.age - 1 }))
        (Every-set IsUntrained content at _ u u') in
    (a, b ∙ length-set content at _)

add-IsTable : (n : NestLoop) (pc : ℕ) → IsTable n → IsTable (add n pc).0
unfolding add
add-IsTable n pc t =
    elim (Option-cases (add_from n.content (get_tag n pc) n.assoc (get_idx n pc))) [
      | inl q ↦
          let (u, l) = decay_from-IsUntrained n.assoc (get_idx n pc) n.content t.untrained in
          rw (q, add) (written n _ t l u)
      | inr (out, q) ↦
          let (u, l) =
            add_from-IsUntrained n.assoc (get_idx n pc) (get_tag n pc) n.content t.untrained q in
          rw (q, add) (written n out t l u)
    ]

update_at-IsTable :
    (n : NestLoop) (o : Option ℕ) (taken : Bool) → IsTable n → IsTable (update_at n o taken)
unfolding update_at
update_at-IsTable n none taken t = t
update_at-IsTable n (some i) taken t =
    written_at n i _ t
      (update_entry-IsUntrained n taken (entry_at n.content i) (entry_at-IsUntrained n i t))

-- the shifted history is even, and `&` with a Boolean keeps its lowest bit only
next_history-zero : (h : ℕ) (taken : Bool) → next_history h taken ≡ 0
unfolding next_history
next_history-zero h true = omega (arith, bit_and-ones 1 (h * 2 % 2 ^ 64))
next_history-zero h false = omega (arith, bit_and-le (h * 2 % 2 ^ 64) 0)

pub update-IsTable :
    (n : NestLoop) (pc : ℕ) (taken : Bool) → IsTable n → IsTable (update n pc taken)
unfolding update
update-IsTable n pc taken t =
    let n1 : NestLoop = record n { history = next_history n.history taken } in
    let t1 : IsTable n1 = record {
      ways = t.ways;
      size = t.size;
      entries = t.entries;
      no_history = next_history-zero n.history taken;
      untrained = t.untrained;
    } in
    elim (Option-cases (lookup n pc)) [
      | inr (i, q) ↦ rw (q, update) (update_at-IsTable n1 (some i) taken t1)
      | inl q ↦
          let t2 = add-IsTable n1 pc t1 in
          elim (Bool-cases (add n1 pc).1) [
            | inl e ↦
                rw (q, update, e)
                  (update_at-IsTable (add n1 pc).0 (lookup (add n1 pc).0 pc) taken t2)
            | inr e ↦ rw (q, update, e) t2
          ]
    ]

pub reset-IsTable : (n : NestLoop) → IsTable n → IsTable (reset n)
unfolding reset
reset-IsTable n t = record {
  ways = t.ways;
  size = length-replicate (n.assoc * n.num_entries) blank_entry ∙ (rw (t.ways, t.entries));
  entries = t.entries;
  no_history = t.no_history;
  untrained = Every-replicate IsUntrained (n.assoc * n.num_entries) blank_entry blank-IsUntrained;
}

pub construct-IsTable : (counter_len idx_len : ℕ) → IsTable (construct counter_len idx_len)
unfolding construct reset
construct-IsTable counter_len idx_len = record {
  ways = refl;
  size = length-replicate (4 * 2 ^ idx_len) blank_entry;
  entries = refl;
  no_history = refl;
  untrained = Every-replicate IsUntrained (4 * 2 ^ idx_len) blank_entry blank-IsUntrained;
}

pub run-IsTable :
    (counter_len idx_len : ℕ) (calls : List Call)
    → IsTable (after nest_loop (construct counter_len idx_len) calls)
unfolding nest_loop
run-IsTable counter_len idx_len calls =
    after-invariant nest_loop IsTable calls (construct counter_len idx_len)
      (record {
        predicts = λ n pc t. (predict-IsTable n pc t).0;
        predicts_with = λ n pc addon addon_len t. (predict-IsTable n pc t).0;
        updates = update-IsTable;
        histories = λ n taken t. t;
        resets = reset-IsTable;
      })
      (construct-IsTable counter_len idx_len)

-- After any calls of any of its methods, the loop predictor predicts taken for every program counter, with confidence 0:
-- it never predicts the end of a loop.
pub nest_loop-always_taken :
    (counter_len idx_len : ℕ) (calls : List Call) (pc : ℕ)
    → (predict (after nest_loop (construct counter_len idx_len) calls) pc).1
      ≡ record { taken = true; confidence = 0 }
nest_loop-always_taken counter_len idx_len calls pc =
    (predict-IsTable (after nest_loop (construct counter_len idx_len) calls) pc
      (run-IsTable counter_len idx_len calls)).1
