-- ===== src/Predictor/TagTable/Lookup.antt =====
-- What a look-up finds after an allocation or an outcome.
use sandbox_predictor.Prelude.{
  ℕ, zero, suc, ◌<◌, ◌≡◌, ◌≢◌, refl, sym, ap, ◌∙◌, true, false, List, arith, set, ◌==◌, Bool-cases,
  inl, inr, get_or-set_self, get_or-set_ne,
}
use mathlib.Core.Path.{subst}
use sandbox_predictor.Prelude.Int.{ℤ, pos, negsuc}
use sandbox_predictor.Predictor.TagTable.{
  TageEntry, TagTable, clear_entry, get_idx, get_tag, entry_at, lookup, add, is_useless,
}
use sandbox_predictor.Predictor.TagTable.Bounds.{IsValid, get_idx-lt}

useless_zero : (e : TageEntry) → is_useless e ≡ true → e.useful ≡ pos 0
useless_zero e h = zero_of e.useful h
  where
    zero_of : (u : ℤ) → (elim u [ pos zero ↦ true | _ ↦ false ]) ≡ true → u ≡ pos 0
    zero_of (pos zero) h = refl
    zero_of (pos (suc n)) h = absurd (ground arith)
    zero_of (negsuc n) h = absurd (ground arith)

module _ (t : TagTable) (pc history : ℕ) where
  added : TagTable
  unfolding add
  added = record t {
    content = set t.content (get_idx t pc history) (record (entry_at t (get_idx t pc history)) {
      counter = pos 0;
      tag = get_tag t pc history;
    });
  }

  add-useless :
      is_useless (entry_at t (get_idx t pc history)) ≡ true → add t pc history ≡ (added, true)
  unfolding added
  add-useless h = rw (h, add)

  add-useful :
      is_useless (entry_at t (get_idx t pc history)) ≡ false → add t pc history ≡ (t, false)
  unfolding add
  add-useful h = rw (h, add)

lookup_at :
    (t : TagTable) (pc history : ℕ) (e : TageEntry)
    → entry_at t (get_idx t pc history) ≡ e
    → e.tag ≡ get_tag t pc history
    → lookup t pc history ≡ e
unfolding lookup
lookup_at t pc history e p q =
    let s : (get_tag t pc history == e.tag) ≡ true = ground arith in rw (p, lookup, s)

module _ (t : TagTable) (content : List TageEntry) (pc history : ℕ) where
  get_idx-content : get_idx (record t { content = content }) pc history ≡ get_idx t pc history
  unfolding get_idx
  get_idx-content = refl

  get_tag-content : get_tag (record t { content = content }) pc history ≡ get_tag t pc history
  unfolding get_tag
  get_tag-content = refl

-- In a valid table, an allocation that succeeds is found, as a weak entry with the tag of the program
-- counter.
pub add-lookup :
    (t : TagTable) (pc history : ℕ)
    → IsValid t
    → (add t pc history).1 ≡ true
    → lookup (add t pc history).0 pc history
      ≡ record { tag = get_tag t pc history; counter = pos 0; useful = pos 0 }
unfolding added
add-lookup t pc history v h =
    let e = entry_at t (get_idx t pc history) in
    elim (Bool-cases (is_useless e)) [
      | inl q ↦
          let u : e.useful ≡ pos 0 = useless_zero e q in
          let f : TageEntry = record e { counter = pos 0; tag = get_tag t pc history } in
          let content = set t.content (get_idx t pc history) f in
          let at : entry_at (added t pc history) (get_idx (added t pc history) pc history) ≡ f =
            rw (get_idx-content t content pc history) (
              get_or-set_self t.content (get_idx t pc history) f clear_entry
                (subst (λ n. get_idx t pc history < n) (sym v.size) (get_idx-lt t pc history))) in
          rw (add-useless t pc history q) (
            lookup_at (added t pc history) pc history f at
              (sym (get_tag-content t content pc history))
            ∙ ap (λ (u : ℤ). record f { useful = u }) u)
      | inr q ↦ absurd (ground (arith, add-useful t pc history q))
    ]

-- An allocation, whether it succeeds or not, changes nothing that a look-up with another index finds.
pub add-others :
    (t : TagTable) (pc history pc' history' : ℕ)
    → get_idx t pc history ≢ get_idx t pc' history'
    → lookup (add t pc history).0 pc' history' ≡ lookup t pc' history'
unfolding added lookup get_idx get_tag
add-others t pc history pc' history' n =
    elim (Bool-cases (is_useless (entry_at t (get_idx t pc history)))) [
      | inl q ↦
          let f : TageEntry = record (entry_at t (get_idx t pc history)) {
            counter = pos 0;
            tag = get_tag t pc history;
          } in
          rw (
            add-useless t pc history q,
            lookup,
            get_or-set_ne t.content (get_idx t pc history) (get_idx t pc' history') f clear_entry n,
          )
      | inr q ↦ rw (add-useful t pc history q)
    ]
