-- ===== src/Claims.antt =====
-- src/humanhand/domain/claim_diff.py, and the claims of claims_v2.py. The three functions that rest on
-- Python's `re` are parameters: the numbers of a text, a text without its numbers, and a text without
-- its markers of negation.
pub mod Contradiction
pub mod Left
pub mod Match
pub mod Partition
pub mod Phase
mod Tests
use human_hand.Prelude.{
  ℕ, Bool, true, false, not, ◌&&◌, ◌||◌, Option, none, some, List, [], ◌∷◌, map, is_nil, select,
  Text, text_eq, if◌then◌else◌,
}
use human_hand.Document.Signature.{texts_eq}

pub data Modality : Type 0 where
  asserted hedged conditional reported : Modality

pub data ClaimStatus : Type 0 where
  proposed accepted rejected contradicted : ClaimStatus

pub data CoverageStatus : Type 0 where
  known unknown_coverage : CoverageStatus

pub record ClaimV2 : Type 0 where
  pub claim_id : Text
  pub canonical_proposition : Text
  pub modality : Modality
  pub negation : Bool
  pub attribution : Text
  pub source_evidence_refs : List Text
  pub confidence : Option ℕ
  pub status : ClaimStatus
  pub contradictions : List Text
  pub allowed_paraphrase_scope : Text

pub record ClaimDiffReport : Type 0 where
  pub preserved : List Text
  pub omitted : List Text
  pub added : List Text
  pub contradicted_pairs : List (Text × Text)
  pub coverage_status : CoverageStatus

-- A claim with its entry of `matched_source` or `matched_candidate`.
pub record Flagged : Type 0 where
  pub claim : ClaimV2
  pub matched : Bool

unfoldable pub unmatched : List ClaimV2 → List Flagged
unmatched claims = map (λ c. record { claim = c; matched = false }) claims

-- A candidate that the inner loop passes over.
unfoldable pub pass_over :
    Flagged → Option (ClaimV2 × List Flagged) → Option (ClaimV2 × List Flagged)
pass_over c none = none
pass_over c (some (found, others)) = some (found, c ∷ others)

-- The inner loop: the first candidate that is not matched and passes the test, and the candidates with
-- that one matched.
unfoldable pub take_match : (test : ClaimV2 → Bool) → List Flagged → Option (ClaimV2 × List Flagged)
unfolding pass_over
take_match test [] = none
take_match test (c ∷ rest) =
    let later = take_match test rest in
    if not c.matched && test c.claim
    then some (c.claim, record { claim = c.claim; matched = true } ∷ rest)
    else pass_over c later

pub record Matching : Type 0 where
  pub pairs : List (ClaimV2 × ClaimV2)
  pub source : List Flagged
  pub candidate : List Flagged

-- The candidate for one source claim: none for a claim that is matched already.
unfoldable pub partner :
    (test : ClaimV2 → ClaimV2 → Bool) → Flagged → List Flagged → Option (ClaimV2 × List Flagged)
partner test s candidate = if s.matched then none else take_match (test s.claim) candidate

unfoldable pub leave : Flagged → Matching → Matching
leave s m = record { pairs = m.pairs; source = s ∷ m.source; candidate = m.candidate }

unfoldable pub pair_up : Flagged → ClaimV2 → Matching → Matching
pair_up s found m = record {
  pairs = (s.claim, found) ∷ m.pairs;
  source = record { claim = s.claim; matched = true } ∷ m.source;
  candidate = m.candidate;
}

-- The outer loop over the source, which both phases run with a test of their own. In the first phase no
-- source claim is matched before its turn.
unfoldable pub match_loop :
    (test : ClaimV2 → ClaimV2 → Bool) → List Flagged → List Flagged → Matching
match_loop test [] candidate = record { pairs = []; source = []; candidate = candidate }
match_loop test (s ∷ rest) candidate = elim (partner test s candidate) [
  | none ↦ leave s (match_loop test rest candidate)
  | some (found, candidate') ↦ pair_up s found (match_loop test rest candidate')
]

unfoldable pub same_proposition : ClaimV2 → ClaimV2 → Bool
unfolding text_eq
same_proposition a b = text_eq a.canonical_proposition b.canonical_proposition

-- The first phase.
unfoldable pub exact_matching : (source candidate : List ClaimV2) → Matching
unfolding same_proposition unmatched
exact_matching source candidate =
    match_loop same_proposition (unmatched source) (unmatched candidate)

unfoldable pub left_over : List Flagged → List Text
unfolding select
left_over claims = map (λ f. f.claim.claim_id) (select (λ f. not f.matched) claims)

unfoldable pub same_flag : Bool → Bool → Bool
same_flag true b = b
same_flag false b = not b

module _ (extract_numbers : Text → List Text) (without_numbers : Text → Text)
    (without_negation_markers : Text → Text) where
  unfoldable pub contradicts : ClaimV2 → ClaimV2 → Bool
  unfolding texts_eq text_eq same_flag
  contradicts source_claim candidate_claim =
      let source_text = source_claim.canonical_proposition in
      let candidate_text = candidate_claim.canonical_proposition in
      let source_numbers = extract_numbers source_text in
      let candidate_numbers = extract_numbers candidate_text in
      let numeric_change =
        not (is_nil source_numbers)
        && (not (is_nil candidate_numbers)
            && (not (texts_eq source_numbers candidate_numbers)
                && text_eq (without_numbers source_text) (without_numbers candidate_text))) in
      let negation_flip =
        not (same_flag source_claim.negation candidate_claim.negation)
        && text_eq (without_negation_markers source_text)
            (without_negation_markers candidate_text) in
      numeric_change || negation_flip

  -- The second phase, on what the first leaves.
  unfoldable pub contradictions : Matching → Matching
  contradictions first = match_loop contradicts first.source first.candidate

  unfoldable pub diff_claims : (source candidate : List ClaimV2) → ClaimDiffReport
  diff_claims source candidate =
      let first = exact_matching source candidate in
      let second = contradictions first in
      record {
        preserved = map (λ p. p.0.claim_id) first.pairs;
        omitted = left_over second.source;
        added = left_over second.candidate;
        contradicted_pairs = map (λ p. (p.0.claim_id, p.1.claim_id)) second.pairs;
        coverage_status = if is_nil source then unknown_coverage else known;
      }
