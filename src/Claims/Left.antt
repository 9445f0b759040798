-- ===== src/Claims/Left.antt =====
-- The claims that a phase of `diff_claims` leaves do not pass its test (claim_diff.py).
use human_hand.Prelude.{
  subst, sym, ◌≡◌, refl, Bool, true, false, not, ◌&&◌, none, some, List, [], ◌∷◌, arith, Bool-cases,
  inl, inr, Option-cases, All,
}
use human_hand.Claims.{ClaimV2, Flagged, take_match, pass_over, partner, leave, pair_up, match_loop}
use human_hand.Claims.Match.{
  open_claims, open_claims-matched, open_claims-open, take_match-here, take_match-later,
}
use human_hand.Claims.Phase.{match_loop-none, match_loop-some, partner_inv}

module _ (P : ClaimV2 → Type 0) where
  All-open :
      (c : Flagged) (cs : List Flagged) → All P (open_claims (c ∷ cs)) → All P (open_claims cs)
  All-open c cs h = elim (Bool-cases c.matched) [
    | inl e ↦ subst (All P) (open_claims-matched c cs e) h
    | inr e ↦
        let both : All P (c.claim ∷ open_claims cs) = subst (All P) (open_claims-open c cs e) h in
        both.1
  ]

  All-open_cons :
      (c : Flagged) (cs left : List Flagged)
      → (All P (open_claims cs) → All P (open_claims left))
      → All P (open_claims (c ∷ cs))
      → All P (open_claims (c ∷ left))
  All-open_cons c cs left f h = elim (Bool-cases c.matched) [
    | inl e ↦
        subst (All P) (sym (open_claims-matched c left e))
          (f (subst (All P) (open_claims-matched c cs e) h))
    | inr e ↦
        let both : All P (c.claim ∷ open_claims cs) = subst (All P) (open_claims-open c cs e) h in
        subst (All P) (sym (open_claims-open c left e)) (both.0, f both.1)
  ]

  take_match-All :
      (test : ClaimV2 → Bool) (cs others : List Flagged) (found : ClaimV2)
      → take_match test cs ≡ some (found, others)
      → All P (open_claims cs)
      → All P (open_claims others)
  unfolding take_match
  take_match-All test [] others found h = λ all. absurd (ground arith)
  take_match-All test (c ∷ cs) others found h = λ all.
      elim (Bool-cases (not c.matched && test c.claim)) [
        | inl here ↦
            let (fresh, same, rest) = take_match-here test c cs others found here h in
            let marked : Flagged = record { claim = c.claim; matched = true } in
            subst (λ fs. All P (open_claims fs)) rest
              (subst (All P) (sym (open_claims-matched marked cs refl)) (All-open c cs all))
        | inr later ↦
            let (fs, e, rest) = take_match-later test c cs others found later h in
            subst (λ ls. All P (open_claims ls)) rest
              (All-open_cons c cs fs (take_match-All test cs fs found e) all)
      ]

  pub match_loop-All_source :
      (test : ClaimV2 → ClaimV2 → Bool) (source candidate : List Flagged)
      → All P (open_claims source)
      → All P (open_claims (match_loop test source candidate).source)
  unfolding leave pair_up
  match_loop-All_source test [] candidate = λ all. unfold match_loop in all
  match_loop-All_source test (s ∷ source) candidate = λ all.
      elim (Option-cases (partner test s candidate)) [
        | inr e ↦ rw (match_loop-none test s source candidate e) (
            All-open_cons s source (match_loop test source candidate).source
              (match_loop-All_source test source candidate) all)
        | inl ((found, candidate'), e) ↦
            let m = match_loop test source candidate' in
            let marked : Flagged = record { claim = s.claim; matched = true } in
            rw
              (
                match_loop-some test s source candidate candidate' found e,
                open_claims-matched marked m.source refl,
              )
              (match_loop-All_source test source candidate' (All-open s source all))
      ]

  pub match_loop-All_candidate :
      (test : ClaimV2 → ClaimV2 → Bool) (source candidate : List Flagged)
      → All P (open_claims candidate)
      → All P (open_claims (match_loop test source candidate).candidate)
  unfolding leave pair_up
  match_loop-All_candidate test [] candidate = λ all. unfold match_loop in all
  match_loop-All_candidate test (s ∷ source) candidate = λ all.
      elim (Option-cases (partner test s candidate)) [
        | inr e ↦
            rw (match_loop-none test s source candidate e)
              (match_loop-All_candidate test source candidate all)
        | inl ((found, candidate'), e) ↦
            let (_, taken) = partner_inv test s candidate candidate' found e in
            rw (match_loop-some test s source candidate candidate' found e) (
              match_loop-All_candidate test source candidate'
                (take_match-All (test s.claim) candidate candidate' found taken all))
      ]

take_match-none :
    (test : ClaimV2 → Bool) (cs : List Flagged)
    → take_match test cs ≡ none
    → All (λ c. test c ≡ false) (open_claims cs)
unfolding take_match pass_over
take_match-none test [] h = unfold open_claims in tt
take_match-none test (c ∷ cs) h = elim (Option-cases (take_match test cs)) [
  | inl ((f, fs), e) ↦ absurd (ground arith)
  | inr e ↦ elim (Bool-cases c.matched) [
    | inl m ↦ rw (open_claims-matched c cs m) (take_match-none test cs e)
    | inr m ↦ rw (open_claims-open c cs m) (ground arith, take_match-none test cs e)
  ]
]

partner-none :
    (test : ClaimV2 → ClaimV2 → Bool) (s : Flagged) (cs : List Flagged)
    → partner test s cs ≡ none
    → s.matched ≡ false
    → take_match (test s.claim) cs ≡ none
unfolding partner
partner-none test s cs h e = ground (arith, h, e)

-- No two of the claims that are left on either side pass the test.
pub match_loop-left :
    (test : ClaimV2 → ClaimV2 → Bool) (source candidate : List Flagged)
    → All
        (λ s.
          All (λ c. test s c ≡ false) (open_claims (match_loop test source candidate).candidate))
        (open_claims (match_loop test source candidate).source)
unfolding leave pair_up
match_loop-left test [] candidate = unfold match_loop in unfold open_claims in tt
match_loop-left test (s ∷ source) candidate = elim (Option-cases (partner test s candidate)) [
  | inr e ↦
      let m = match_loop test source candidate in
      elim (Bool-cases s.matched) [
        | inl f ↦
            rw (match_loop-none test s source candidate e, open_claims-matched s m.source f)
              (match_loop-left test source candidate)
        | inr f ↦
            rw (match_loop-none test s source candidate e, open_claims-open s m.source f)
              (
                match_loop-All_candidate (λ c. test s.claim c ≡ false) test source candidate
                    (take_match-none (test s.claim) candidate (partner-none test s candidate e f)),
                match_loop-left test source candidate,
              )
      ]
  | inl ((found, candidate'), e) ↦
      let m = match_loop test source candidate' in
      let marked : Flagged = record { claim = s.claim; matched = true } in
      rw
        (
          match_loop-some test s source candidate candidate' found e,
          open_claims-matched marked m.source refl,
        )
        (match_loop-left test source candidate')
]
