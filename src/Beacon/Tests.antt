-- ===== src/Beacon/Tests.antt =====
-- Concrete research proposals: one piece of evidence of the first tier, and a proposal from it.
use human_hand.Prelude.{
  ◌↔◌, ℕ, ◌≡◌, ◌⊎◌, refl, Bool, true, false, ◌==◌, [], ◌∷◌, any, all, arith, Text, codes, text_eq,
  contains, All, ok,
}
use human_hand.Json.{int, str, obj, Fields, end, field, get, is_text, is_one, as_str, as_obj}
use human_hand.Prelude.Int.{pos}
use human_hand.Lexical.Review.{is_lower_hex}
use human_hand.Transform.{same_set}
use human_hand.Revision.Payload.{is_sha256_hex}
use human_hand.Beacon.{
  BeaconTrigger, security_advisory, tier_1_official_spec, proposed, is_blank, observed, approved,
  release_approved, trigger_flow_next,
}
use human_hand.Beacon.Evidence.{
  BeaconEvidence, create_evidence, tier_for_source_kind, is_public_url, evidence_set, distinct,
  high_impact_sufficient, is_tier_1, evidence_to_payload, evidence_from_payload,
}
use human_hand.Beacon.Evidence.Sound.{IsWellFormed, IsPayloadOf, evidence_from_payload_iff}
use human_hand.Beacon.Evidence.RoundTrip.{IsGenuine, evidence_from_payload-to_payload}
use human_hand.Beacon.Proposal.{
  BeaconProposal, privacy_technique, create_proposal, proposal_to_payload, proposal_from_payload,
  proposal_id_for,
}
use human_hand.Beacon.Proposal.RoundTrip.{IsSound, review_proposal-read_back}
use human_hand.Beacon.Proposal.Sources.{create_proposal-sources, urls}
use human_hand.Beacon.Policy.{
  review_proposal, resource_descriptions, descriptions, entry_description, keys, is_empty,
}
use human_hand.Beacon.Policy.Firewall.{IsCurated, resource_descriptions-IsCurated}
use human_hand.Beacon.Flow.{Reaches, here, step, Reaches-approved}

abbrev space : ℕ → Bool
space c = c == 32

abbrev hash : Text → Text
hash t = codes "00"

abbrev same : Text → Text
same t = t

abbrev sha : Text
sha = codes "00112233445566778899aabbccddeeff00112233445566778899aabbccddeeff"

abbrev evidence : BeaconEvidence
evidence = record {
  evidence_id = codes "ev-00";
  trigger_id = codes "trig-1";
  tier = tier_1_official_spec;
  source_kind = codes "official_spec";
  summary = codes "a field";
  url = codes "https://a";
  snippet_sha256 = sha;
}

evidence-IsGenuine : IsGenuine space hash evidence
unfolding create_evidence is_blank all is_public_url is_sha256_hex is_lower_hex tier_for_source_kind
    text_eq
evidence-IsGenuine = refl

evidence_read : evidence_from_payload space hash (evidence_to_payload evidence) ≡ ok evidence
evidence_read = evidence_from_payload-to_payload space hash evidence evidence-IsGenuine

evidence_from_payload_iff_example :
    (evidence_from_payload space hash (evidence_to_payload evidence) ≡ ok evidence) ↔ (
      IsWellFormed space hash evidence
      × IsPayloadOf space hash (evidence_to_payload evidence) evidence)
evidence_from_payload_iff_example =
    evidence_from_payload_iff space hash (evidence_to_payload evidence) evidence

abbrev trigger : BeaconTrigger
trigger = record {
  trigger_id = codes "trig-1";
  trigger_type = security_advisory;
  summary = codes "an advisory";
  observed_at_note = [];
}

abbrev proposal : BeaconProposal
proposal = record {
  proposal_id = codes "prop-00";
  trigger_id = codes "trig-1";
  kind = privacy_technique;
  summary = codes "use it";
  high_impact = true;
  evidence = evidence ∷ [];
  status = proposed;
  blocked_action = false;
  policy_note = [];
}

created :
    create_proposal space hash trigger privacy_technique (codes "use it") (evidence ∷ []) true
    ≡ ok proposal
unfolding create_proposal high_impact_sufficient is_tier_1 any is_blank all proposal_id_for
created = refl

create_proposal-sources_example :
    (any (λ e. is_tier_1 e.tier) (evidence ∷ []) ≡ true)
    ⊎ ((x : Text) × (y : Text) × (contains x (urls (evidence ∷ [])) ≡ true)
        × (contains y (urls (evidence ∷ [])) ≡ true)
        × (text_eq x y ≡ false))
create_proposal-sources_example =
    create_proposal-sources space hash trigger privacy_technique (codes "use it") (evidence ∷ [])
      proposal created

proposal-IsSound : IsSound space hash proposal
unfolding proposal_id_for evidence_set distinct contains any
proposal-IsSound = record { id = refl; genuine = (evidence-IsGenuine, tt); distinct_ids = refl }

review_proposal-read_back_example :
    proposal_from_payload space hash
      (proposal_to_payload (review_proposal same proposal [] (codes "x" ∷ []) (codes "regulated")))
    ≡ ok (review_proposal same proposal [] (codes "x" ∷ []) (codes "regulated"))
review_proposal-read_back_example =
    review_proposal-read_back space hash same proposal [] (codes "x" ∷ []) (codes "regulated")
      proposal-IsSound

abbrev resource : Fields
resource = field (codes "schema") (str (codes "beacon-allowed-actions")) (
    field (codes "schema_version") (int (pos 1)) (
      field (codes "actions")
        (obj (
          field (codes "a")
            (obj (
              field (codes "description") (str (codes "d"))
                (field (codes "provenance") (str (codes "curated-in-repo")) end)))
            end))
        end))

loaded :
    resource_descriptions space resource (codes "actions") (codes "beacon-allowed-actions")
    ≡ ok ((codes "a", codes "d") ∷ [])
unfolding resource_descriptions descriptions entry_description keys is_empty same_set is_blank all
    contains any text_eq get is_text is_one as_str as_obj
loaded = refl

resource_descriptions-IsCurated_example : All (IsCurated space) ((codes "a", codes "d") ∷ [])
resource_descriptions-IsCurated_example =
    resource_descriptions-IsCurated space resource (codes "actions")
      (codes "beacon-allowed-actions") ((codes "a", codes "d") ∷ []) loaded

whole_flow : Reaches observed release_approved
unfolding trigger_flow_next
whole_flow = step refl (
    step refl
      (step refl (step refl (step refl (step refl (step refl (step refl (step refl here))))))))

Reaches-approved_example : Reaches observed approved × Reaches approved release_approved
Reaches-approved_example =
    Reaches-approved observed release_approved (omega arith) (omega arith) whole_flow
