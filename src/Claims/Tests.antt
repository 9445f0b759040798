-- ===== src/Claims/Tests.antt =====
-- Two claims against two: one is preserved, one is contradicted by a negation.
use human_hand.Prelude.{refl, text_eq, ◌≡◌, Bool, true, false, none, List, [], ◌∷◌, Text, codes}
use human_hand.Claims.{
  ClaimV2, asserted, proposed, same_proposition, exact_matching, contradictions, contradicts,
  diff_claims, match_loop, partner, take_match, pass_over, leave, pair_up, unmatched, same_flag,
}
use human_hand.Claims.Partition.{IsDiff, diff_claims-IsDiff}
use human_hand.Document.Signature.{texts_eq}

abbrev no_numbers : Text → List Text
no_numbers t = []

abbrev same : Text → Text
same t = t

-- Every text without its markers of negation is the same text here.
abbrev bare : Text → Text
bare t = []

abbrev claim : Text → Text → Bool → ClaimV2
claim id text negated = record {
  claim_id = id;
  canonical_proposition = text;
  modality = asserted;
  negation = negated;
  attribution = [];
  source_evidence_refs = [];
  confidence = none;
  status = proposed;
  contradictions = [];
  allowed_paraphrase_scope = codes "exact";
}

abbrev source : List ClaimV2
source = claim (codes "a") (codes "it is") false ∷ claim (codes "b") (codes "we do") false ∷ []

abbrev candidate : List ClaimV2
candidate =
    claim (codes "x") (codes "we do not") true
    ∷ claim (codes "y") (codes "it is") false
    ∷ claim (codes "z") (codes "so") false
    ∷ []

diff_claims-IsDiff_example :
    (kept : List (ClaimV2 × ClaimV2)) × (opposed : List (ClaimV2 × ClaimV2)) × (omitted : List
      ClaimV2)
    × (added : List ClaimV2) × IsDiff no_numbers same bare source candidate
        (diff_claims no_numbers same bare source candidate)
        kept
        opposed
        omitted
        added
diff_claims-IsDiff_example = diff_claims-IsDiff no_numbers same bare source candidate

negation_contradicts :
    (diff_claims no_numbers same bare source candidate).contradicted_pairs
    ≡ (codes "b", codes "x") ∷ []
unfolding diff_claims exact_matching contradictions match_loop partner take_match pass_over leave
    pair_up unmatched same_proposition contradicts same_flag texts_eq text_eq
negation_contradicts = refl
