-- ===== src/Claims/Phase.antt =====
-- One phase of `diff_claims`, for any test (claim_diff.py).
use mathlib.Core.List.{Perm, perm_middle}
use mathlib.Core.List.Perm
use human_hand.Prelude.{
  ◌≡◌, refl, Bool, true, false, none, some, List, [], ◌∷◌, ◌++◌, map, arith, Bool-cases, inl, inr,
  Option-cases, All,
}
use human_hand.Claims.{ClaimV2, Flagged, take_match, partner, leave, pair_up, match_loop}
use human_hand.Claims.Match.{
  open_claims, open_claims-matched, open_claims-open, take_match-test, take_match-Perm,
}

pub match_loop-none :
    (test : ClaimV2 → ClaimV2 → Bool) (s : Flagged) (source candidate : List Flagged)
    → partner test s candidate ≡ none
    → match_loop test (s ∷ source) candidate ≡ leave s (match_loop test source candidate)
unfolding match_loop
match_loop-none test s source candidate e = rw (e, match_loop)

pub match_loop-some :
    (test : ClaimV2 → ClaimV2 → Bool) (s : Flagged) (source candidate others : List Flagged)
    (found : ClaimV2)
    → partner test s candidate ≡ some (found, others)
    → match_loop test (s ∷ source) candidate ≡ pair_up s found (match_loop test source others)
unfolding match_loop
match_loop-some test s source candidate others found e = rw (e, match_loop)

pub partner_inv :
    (test : ClaimV2 → ClaimV2 → Bool) (s : Flagged) (cs others : List Flagged) (found : ClaimV2)
    → partner test s cs ≡ some (found, others)
    → (s.matched ≡ false) × (take_match (test s.claim) cs ≡ some (found, others))
unfolding partner
partner_inv test s cs others found h = elim (Bool-cases s.matched) [
  | inl e ↦ absurd (ground arith)
  | inr e ↦ (e, ground arith)
]

left_open :
    (s : Flagged) (kept : List ClaimV2) (left rest : List Flagged)
    → Perm (kept ++ open_claims left) (open_claims rest)
    → Perm (kept ++ open_claims (s ∷ left)) (open_claims (s ∷ rest))
left_open s kept left rest h = elim (Bool-cases s.matched) [
  | inl e ↦ rw (open_claims-matched s left e, open_claims-matched s rest e) h
  | inr e ↦
      rw (open_claims-open s left e, open_claims-open s rest e)
        (Perm.trans (perm_middle kept (open_claims left)) (Perm.cons s.claim h))
]

-- The open source claims are those of the pairs and those that stay open.
pub match_loop-source :
    (test : ClaimV2 → ClaimV2 → Bool) (source candidate : List Flagged)
    → Perm
        (map (λ p. p.0) (match_loop test source candidate).pairs
          ++ open_claims (match_loop test source candidate).source)
        (open_claims source)
unfolding leave pair_up
match_loop-source test [] candidate = unfold match_loop in Perm.refl (open_claims [])
match_loop-source test (s ∷ source) candidate = elim (Option-cases (partner test s candidate)) [
  | inr e ↦
      let m = match_loop test source candidate in
      rw (match_loop-none test s source candidate e) (
        left_open s (map (λ p. p.0) m.pairs) m.source source
          (match_loop-source test source candidate))
  | inl ((found, candidate'), e) ↦
      let m = match_loop test source candidate' in
      let (fresh, _) = partner_inv test s candidate candidate' found e in
      let marked : Flagged = record { claim = s.claim; matched = true } in
      rw
        (
          match_loop-some test s source candidate candidate' found e,
          open_claims-matched marked m.source refl,
          open_claims-open s source fresh,
        )
        (Perm.cons s.claim (match_loop-source test source candidate'))
]

-- The open candidates are those of the pairs and those that stay open.
pub match_loop-candidate :
    (test : ClaimV2 → ClaimV2 → Bool) (source candidate : List Flagged)
    → Perm
        (map (λ p. p.1) (match_loop test source candidate).pairs
          ++ open_claims (match_loop test source candidate).candidate)
        (open_claims candidate)
unfolding leave pair_up
match_loop-candidate test [] candidate = unfold match_loop in Perm.refl (open_claims candidate)
match_loop-candidate test (s ∷ source) candidate = elim (Option-cases (partner test s candidate)) [
  | inr e ↦
      rw (match_loop-none test s source candidate e) (match_loop-candidate test source candidate)
  | inl ((found, candidate'), e) ↦
      let (_, taken) = partner_inv test s candidate candidate' found e in
      rw (match_loop-some test s source candidate candidate' found e) (
        Perm.trans (Perm.cons found (match_loop-candidate test source candidate'))
          (take_match-Perm (test s.claim) candidate candidate' found taken))
]

pub match_loop-All :
    (test : ClaimV2 → ClaimV2 → Bool) (source candidate : List Flagged)
    → All (λ p. test p.0 p.1 ≡ true) (match_loop test source candidate).pairs
unfolding leave pair_up
match_loop-All test [] candidate = unfold match_loop in tt
match_loop-All test (s ∷ source) candidate = elim (Option-cases (partner test s candidate)) [
  | inr e ↦ rw (match_loop-none test s source candidate e) (match_loop-All test source candidate)
  | inl ((found, candidate'), e) ↦
      let passed : test s.claim found ≡ true =
        unfold partner in
        take_match-test (test s.claim) candidate candidate' found (ground arith) in
      rw (match_loop-some test s source candidate candidate' found e)
        (passed, match_loop-All test source candidate')
]
