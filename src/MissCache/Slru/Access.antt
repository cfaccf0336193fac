-- ===== src/MissCache/Slru/Access.antt =====
-- `SLRUMCache::access` implements the two recency lists.
use sandbox_predictor.Prelude.{
  ℕ, ◌-◌, ◌≡◌, ◌≢◌, refl, sym, ap, ◌∙◌, true, false, none, some, List, arith, ◌==◌, take, remove_at,
  Option-cases, ℕ_discrete, inl, inr,
}
use mathlib.Core.Path.{subst}
use sandbox_predictor.MissCache.Recency.{position, position-some, remove_at-absent}
use sandbox_predictor.MissCache.Segment
use sandbox_predictor.MissCache.Segment.{Segment}
use sandbox_predictor.MissCache.Segment.Promote.{Holds}
use sandbox_predictor.MissCache.Segment.Lookup.{contains_lem, is_some}
use sandbox_predictor.MissCache.Segment.Bump.{bump-Holds}
use sandbox_predictor.MissCache.Segment.Add.{add-Holds}
use sandbox_predictor.MissCache.Segment.Remove.{remove-Holds}
use sandbox_predictor.MissCache.Slru.{SlruCache, access, place, promote}
use sandbox_predictor.MissCache.Slru.Spec.{
  Lists, touch, promoted, push, falls_off, Has, Disjoint, position-absent, absent-position,
  cons-Has, remove_at-Has, falls_off-Has, falls_off-gone, push-Has,
}

-- The protected segment holds the first list and the probationary one the second.
pub record SlruHolds (c : SlruCache) (l : Lists) : Type 0 where
  pub prot_size : c.protected_seg.num_entries ≡ c.num_entries
  pub prob_size : c.probationary_seg.num_entries ≡ c.num_entries
  pub prot : Holds c.protected_seg l.0
  pub prob : Holds c.probationary_seg l.1
  pub disjoint : Disjoint l.0 l.1

num_entries-bump : (s : Segment) (pc : ℕ) → (Segment.bump s pc).num_entries ≡ s.num_entries
unfolding Segment.bump
num_entries-bump s pc = ground arith

num_entries-add : (s : Segment) (pc : ℕ) → (Segment.add s pc).0.num_entries ≡ s.num_entries
unfolding Segment.add
num_entries-add s pc = refl

num_entries-remove : (s : Segment) (pc : ℕ) → (Segment.remove s pc).num_entries ≡ s.num_entries
unfolding Segment.remove
num_entries-remove s pc = ground arith

module _ (c : SlruCache) (pc : ℕ) (ps qs : List ℕ) (h : SlruHolds c (ps, qs)) where
  abbrev n : ℕ
  n = c.num_entries

  -- `add` on either segment, with the size of the whole cache
  add_prot :
      position pc ps ≡ none
      → Holds (Segment.add c.protected_seg pc).0 (push n pc ps)
        × ((Segment.add c.protected_seg pc).1 ≡ falls_off n ps)
  add_prot q =
      subst
        (λ m.
          Holds (Segment.add c.protected_seg pc).0 (push m pc ps)
          × ((Segment.add c.protected_seg pc).1 ≡ falls_off m ps))
        h.prot_size (add-Holds c.protected_seg ps pc h.prot q)

  protected_case : (a : ℕ) → position pc ps ≡ some a → SlruHolds (place c pc) (touch n pc (ps, qs))
  unfolding place
  protected_case a q =
      let e : Segment.contains c.protected_seg pc ≡ true =
        contains_lem c.protected_seg ps pc h.prot ∙ ap is_some q in
      rw (e, q, touch)
        (record {
          prot_size = num_entries-bump c.protected_seg pc ∙ h.prot_size;
          prob_size = h.prob_size;
          prot = bump-Holds c.protected_seg ps pc h.prot a q;
          prob = h.prob;
          disjoint = λ x hp hq. elim (cons-Has x pc (remove_at a ps) hp) [
            | inl r ↦
                h.disjoint pc (record { place = a; found = position-some pc ps q })
                  (subst (Has qs) r hq)
            | inr r ↦ h.disjoint x (remove_at-Has a x ps r) hq
          ];
        })

  -- Neither segment holds the PC: it goes in front of the second list.
  new_case :
      position pc ps ≡ none → position pc qs ≡ none → SlruHolds (place c pc) (touch n pc (ps, qs))
  unfolding place
  new_case q r =
      let e : Segment.contains c.protected_seg pc ≡ false =
        contains_lem c.protected_seg ps pc h.prot ∙ ap is_some q in
      let f : Segment.contains c.probationary_seg pc ≡ false =
        contains_lem c.probationary_seg qs pc h.prob ∙ ap is_some r in
      rw (e, f, q, r, touch)
        (record {
          prot_size = h.prot_size;
          prob_size = num_entries-add c.probationary_seg pc ∙ h.prob_size;
          prot = h.prot;
          prob =
              subst (λ m. Holds (Segment.add c.probationary_seg pc).0 (push m pc qs)) h.prob_size
                (add-Holds c.probationary_seg qs pc h.prob r).0;
          disjoint = λ x hp hq. elim (push-Has n pc x qs hq) [
            | inl s ↦ absent-position pc ps q (subst (Has ps) s hp)
            | inr s ↦ h.disjoint x hp s
          ];
        })

  module _ (b : ℕ) (q : position pc ps ≡ none) (r : position pc qs ≡ some b) where
    abbrev rest : List ℕ
    rest = remove_at b qs

    abbrev lost : ℕ
    lost = falls_off n ps

    abbrev emptied : Segment
    emptied = Segment.remove c.probationary_seg pc

    emptied-Holds : Holds emptied rest
    emptied-Holds = remove-Holds c.probationary_seg qs pc h.prob b r

    emptied_size : emptied.num_entries ≡ n
    emptied_size = num_entries-remove c.probationary_seg pc ∙ h.prob_size

    at : Has qs pc
    at = record { place = b; found = position-some pc qs r }

    -- What the first list has afterwards is not in the rest of the second one.
    apart_rest : Disjoint (push n pc ps) rest
    apart_rest x hp hq = elim (push-Has n pc x ps hp) [
      | inl s ↦
          remove_at-absent b qs hq.place x h.prob.ranked.distinct
            (position-some pc qs r ∙ ap some (sym s)) hq.found
      | inr s ↦ h.disjoint x s (remove_at-Has b x qs hq)
    ]

    -- The PC that falls off the first list is not in it any more.
    apart_lost : lost ≢ 0 → Disjoint (push n pc ps) (push n lost rest)
    apart_lost nz x hp hq = elim (push-Has n lost x rest hq) [
      | inr s ↦ apart_rest x hp s
      | inl s ↦ elim (cons-Has x pc (take (n - 1) ps) hp) [
        | inl t ↦ h.disjoint lost (falls_off-Has n ps nz) (subst (Has qs) (sym t ∙ s) at)
        | inr t ↦ falls_off-gone n ps h.prot.ranked.distinct nz (subst (Has (take (n - 1) ps)) s t)
      ]
    ]

    back_new : lost ≢ 0 → position lost rest ≡ none
    back_new nz =
        position-absent lost rest
          λ hq. h.disjoint lost (falls_off-Has n ps nz) (remove_at-Has b lost qs hq)

    promote-Holds : SlruHolds (promote c pc) (promoted n pc (ps, qs) b)
    unfolding promote
    promote-Holds =
        let (prot, ev) = add_prot q in
        elim (ℕ_discrete lost 0) [
          | yes z ↦
              let t : (lost == 0) ≡ true = ground arith in
              rw (ev, t)
                (record {
                  prot_size = num_entries-add c.protected_seg pc ∙ h.prot_size;
                  prob_size = emptied_size;
                  prot = prot;
                  prob = emptied-Holds;
                  disjoint = apart_rest;
                })
          | no nz ↦
              let t : (lost == 0) ≡ false = ground arith in
              rw (ev, t)
                (record {
                  prot_size = num_entries-add c.protected_seg pc ∙ h.prot_size;
                  prob_size = num_entries-add emptied lost ∙ emptied_size;
                  prot = prot;
                  prob =
                      subst (λ m. Holds (Segment.add emptied lost).0 (push m lost rest))
                        emptied_size (add-Holds emptied rest lost emptied-Holds (back_new nz)).0;
                  disjoint = apart_lost nz;
                })
        ]

    probationary_case : SlruHolds (place c pc) (touch n pc (ps, qs))
    unfolding place
    probationary_case =
        let e : Segment.contains c.protected_seg pc ≡ false =
          contains_lem c.protected_seg ps pc h.prot ∙ ap is_some q in
        let f : Segment.contains c.probationary_seg pc ≡ true =
          contains_lem c.probationary_seg qs pc h.prob ∙ ap is_some r in
        rw (e, f, q, r, touch) promote-Holds

  -- If the segments hold the two lists, then after an access to `pc` they hold those that `touch` makes
  -- of them, and still no PC is in both.
  pub access-SlruHolds : SlruHolds (access c pc).0 (touch c.num_entries pc (ps, qs))
  unfolding access
  access-SlruHolds = elim (Option-cases (position pc ps)) [
    | inr (a, q) ↦ protected_case a q
    | inl q ↦ elim (Option-cases (position pc qs)) [
      | inr (b, r) ↦ probationary_case b q r
      | inl r ↦ new_case q r
    ]
  ]
