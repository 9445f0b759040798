-- ===== src/Claims/Partition.antt =====
-- The report of `diff_claims` (claim_diff.py).
use mathlib.Core.List.{Perm}
use mathlib.Core.List.Perm
use human_hand.Prelude.{
  subst, ◌≡◌, refl, Bool, false, List, [], ◌∷◌, ◌++◌, map, arith, Text, All, All-map,
}
use human_hand.Claims.{
  ClaimV2, ClaimDiffReport, unmatched, match_loop, exact_matching, contradictions, diff_claims,
  same_proposition, contradicts,
}
use human_hand.Claims.Contradiction.{AreOpposed, same_proposition_iff, contradicts_iff}
use human_hand.Claims.Left.{match_loop-left, match_loop-All_source, match_loop-All_candidate}
use human_hand.Claims.Match.{open_claims, open_claims-unmatched, left_over-open_claims}
use human_hand.Claims.Phase.{match_loop-source, match_loop-candidate, match_loop-All}

abbrev ids : List ClaimV2 → List Text
ids claims = map (λ (c : ClaimV2). c.claim_id) claims

abbrev pub firsts : List (ClaimV2 × ClaimV2) → List ClaimV2
firsts pairs = map (λ p. p.0) pairs

abbrev pub seconds : List (ClaimV2 × ClaimV2) → List ClaimV2
seconds pairs = map (λ p. p.1) pairs

module _ (extract_numbers : Text → List Text) (without_numbers : Text → Text)
    (without_negation_markers : Text → Text) where
  -- A report of matched claims: `kept` are the source claims with the candidates of the same proposition,
  -- `opposed` the source claims with the candidates that contradict them, and `omitted` and `added` the
  -- source claims and the candidates without such a partner.
  pub record IsDiff (source candidate : List ClaimV2) (report : ClaimDiffReport)
      (kept opposed : List (ClaimV2 × ClaimV2)) (omitted added : List ClaimV2) : Type 0 where
    pub preserved_ids : report.preserved ≡ map (λ p. p.0.claim_id) kept
    pub opposed_ids :
        report.contradicted_pairs
        ≡ map {B = Text × Text} (λ p. (p.0.claim_id, p.1.claim_id)) opposed
    pub omitted_ids : report.omitted ≡ map (λ (c : ClaimV2). c.claim_id) omitted
    pub added_ids : report.added ≡ map (λ (c : ClaimV2). c.claim_id) added
    pub source_once : Perm (firsts kept ++ (firsts opposed ++ omitted)) source
    pub candidate_once : Perm (seconds kept ++ (seconds opposed ++ added)) candidate
    pub same : All (λ p. p.0.canonical_proposition ≡ p.1.canonical_proposition) kept
    pub contradict :
        All
          (λ p. AreOpposed extract_numbers without_numbers without_negation_markers p.0 p.1)
          opposed
    pub none_left :
        All
          (λ s.
            All
              (λ c.
                ¬ (s.canonical_proposition ≡ c.canonical_proposition)
                × ¬ AreOpposed extract_numbers without_numbers without_negation_markers s c)
              added)
          omitted

  abbrev test : ClaimV2 → ClaimV2 → Bool
  test = contradicts extract_numbers without_numbers without_negation_markers

  -- Two phases in a row.
  both_phases :
      (first second left phase_left whole : List ClaimV2)
      → Perm (first ++ phase_left) whole
      → Perm (second ++ left) phase_left
      → Perm (first ++ (second ++ left)) whole
  both_phases first second left phase_left whole h k = Perm.trans (Perm.append_left first k) h

  -- Of two claims for which a test is false the proposition that it decides fails.
  not_passed :
      (s c : ClaimV2)
      → same_proposition s c ≡ false
      → test s c ≡ false
      → ¬ (s.canonical_proposition ≡ c.canonical_proposition)
        × ¬ AreOpposed extract_numbers without_numbers without_negation_markers s c
  not_passed s c differ agree = (
    (λ e. absurd (ground (arith, differ, (same_proposition_iff s c).1 e))),
    (λ o. absurd (
        ground (
          arith,
          agree,
          (contradicts_iff extract_numbers without_numbers without_negation_markers s c).1 o,
        ))),
  )

  not_passed_all :
      (s : ClaimV2) (cs : List ClaimV2)
      → All (λ c. same_proposition s c ≡ false) cs
      → All (λ c. test s c ≡ false) cs
      → All
          (λ c.
            ¬ (s.canonical_proposition ≡ c.canonical_proposition)
            × ¬ AreOpposed extract_numbers without_numbers without_negation_markers s c)
          cs
  not_passed_all s [] _ _ = tt
  not_passed_all s (c ∷ cs) (d, ds) (a, rest) = (not_passed s c d a, not_passed_all s cs ds rest)

  none_passed :
      (ss cs : List ClaimV2)
      → All (λ s. All (λ c. same_proposition s c ≡ false) cs) ss
      → All (λ s. All (λ c. test s c ≡ false) cs) ss
      → All
          (λ s.
            All
              (λ c.
                ¬ (s.canonical_proposition ≡ c.canonical_proposition)
                × ¬ AreOpposed extract_numbers without_numbers without_negation_markers s c)
              cs)
          ss
  none_passed [] cs _ _ = tt
  none_passed (s ∷ ss) cs (d, ds) (a, rest) = (not_passed_all s cs d a, none_passed ss cs ds rest)

  -- Every claim of the source stands at one place of the report of `diff_claims`: it is preserved, with a
  -- candidate of the same proposition, or in a contradicted pair, with a candidate that contradicts it, or
  -- omitted; and every candidate is such a partner, once, or added. No omitted claim has the proposition
  -- of an added one or contradicts it. Two claims contradict each other if both propositions have numbers,
  -- not the same ones, and agree but for them, or if one claim is negated and the other is not and their
  -- propositions agree but for the markers of negation.
  pub diff_claims-IsDiff :
      (source candidate : List ClaimV2)
      → (kept : List (ClaimV2 × ClaimV2)) × (opposed : List (ClaimV2 × ClaimV2)) × (omitted : List
          ClaimV2)
        × (added : List ClaimV2) × IsDiff source candidate
            (diff_claims extract_numbers without_numbers without_negation_markers source candidate)
            kept
            opposed
            omitted
            added
  unfolding diff_claims exact_matching contradictions
  diff_claims-IsDiff source candidate =
      let first = match_loop same_proposition (unmatched source) (unmatched candidate) in
      let second = match_loop test first.source first.candidate in
      let omitted = open_claims second.source in
      let added = open_claims second.candidate in
      (
        first.pairs,
        second.pairs,
        omitted,
        added,
        record {
          preserved_ids = refl;
          opposed_ids = refl;
          omitted_ids = left_over-open_claims second.source;
          added_ids = left_over-open_claims second.candidate;
          source_once =
              subst (λ l. Perm (firsts first.pairs ++ (firsts second.pairs ++ omitted)) l)
                (open_claims-unmatched source)
                (both_phases (firsts first.pairs) (firsts second.pairs) omitted
                  (open_claims first.source) (open_claims (unmatched source))
                  (match_loop-source same_proposition (unmatched source) (unmatched candidate))
                  (match_loop-source test first.source first.candidate));
          candidate_once =
              subst (λ l. Perm (seconds first.pairs ++ (seconds second.pairs ++ added)) l)
                (open_claims-unmatched candidate)
                (both_phases (seconds first.pairs) (seconds second.pairs) added
                  (open_claims first.candidate) (open_claims (unmatched candidate))
                  (match_loop-candidate same_proposition (unmatched source) (unmatched candidate))
                  (match_loop-candidate test first.source first.candidate));
          same =
              All-map first.pairs (λ p h. (same_proposition_iff p.0 p.1).0 h)
                (match_loop-All same_proposition (unmatched source) (unmatched candidate));
          contradict =
              All-map second.pairs
                (λ p h.
                  (contradicts_iff extract_numbers without_numbers without_negation_markers p.0
                      p.1).0
                    h)
                (match_loop-All test first.source first.candidate);
          none_left =
              none_passed omitted added
                (All-map omitted
                  (λ s.
                    match_loop-All_candidate (λ c. same_proposition s c ≡ false) test first.source
                      first.candidate)
                  (match_loop-All_source
                    (λ s. All (λ c. same_proposition s c ≡ false) (open_claims first.candidate))
                    test first.source first.candidate
                    (match_loop-left same_proposition (unmatched source) (unmatched candidate))))
                (match_loop-left test first.source first.candidate);
        },
      )
