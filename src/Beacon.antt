-- ===== src/Beacon.antt =====
-- src/humanhand/domain/beacon_types.py: triggers, trust tiers and the workflow of research proposals.
-- `is_space` stands for Python's test of a white-space character; the hash is over code points.
pub mod Evidence
pub mod Proposal
pub mod Policy
pub mod Flow
mod Tests
use human_hand.Prelude.{
  ℕ, Bool, true, false, not, Option, none, some, List, [], ◌∷◌, ◌++◌, take, all, Text, codes,
  text_eq, Result, ok, err, ◌>>◌, raise_if, if◌then◌else◌,
}

pub data BeaconTriggerType : Type 0 where
  artifact_metadata_regression parser_exporter_dependency_update tokenizer_rule_pack_change
        new_standards_release runtime_telemetry_change new_provenance_mechanism
        repeated_synthetic_scanner_drift style_profile_regression
        training_memorization_research_update security_advisory :
      BeaconTriggerType

pub data EvidenceTrustTier : Type 0 where
  tier_1_official_spec tier_2_peer_reviewed tier_3_preprint_or_release_notes
        tier_4_technical_analysis tier_5_community_lead :
      EvidenceTrustTier

pub data BeaconStatus : Type 0 where
  observed triaged researched verified proposed policy_reviewed approved denied quarantined
        validated release_approved :
      BeaconStatus

-- The `DomainError`s of the Beacon modules.
pub data BeaconError : Type 0 where
  empty_field : (what : Text) → BeaconError
  not_public_url : BeaconError
  malformed_digest : BeaconError
  unknown_source_kind : Text → BeaconError
  duplicate_evidence : BeaconError
  insufficient_evidence : (high_impact : Bool) → BeaconError
  no_next_state : BeaconStatus → BeaconError
  invalid_payload : (what : Text) → BeaconError
  unsupported_version : BeaconError
  id_mismatch : BeaconError
  invalid_resource : (what : Text) → BeaconError

pub record BeaconTrigger : Type 0 where
  pub trigger_id : Text
  pub trigger_type : BeaconTriggerType
  pub summary : Text
  pub observed_at_note : Text

unfoldable pub trigger_type_value : BeaconTriggerType → Text
trigger_type_value artifact_metadata_regression = codes "artifact_metadata_regression"
trigger_type_value parser_exporter_dependency_update = codes "parser_exporter_dependency_update"
trigger_type_value tokenizer_rule_pack_change = codes "tokenizer_rule_pack_change"
trigger_type_value new_standards_release = codes "new_standards_release"
trigger_type_value runtime_telemetry_change = codes "runtime_telemetry_change"
trigger_type_value new_provenance_mechanism = codes "new_provenance_mechanism"
trigger_type_value repeated_synthetic_scanner_drift = codes "repeated_synthetic_scanner_drift"
trigger_type_value style_profile_regression = codes "style_profile_regression"
trigger_type_value training_memorization_research_update =
    codes "training_memorization_research_update"
trigger_type_value security_advisory = codes "security_advisory"

-- `separator.join(parts)`
unfoldable pub join : (separator : Text) → List Text → Text
join separator [] = []
join separator (x ∷ []) = x
join separator (x ∷ y ∷ rest) = x ++ (separator ++ join separator (y ∷ rest))

-- `"\x00".join(parts)`
unfoldable pub join_nul : List Text → Text
unfolding join
join_nul parts = join (0 ∷ []) parts

-- `not text.strip()`
unfoldable pub is_blank : (is_space : ℕ → Bool) → Text → Bool
unfolding all
is_blank is_space text = all is_space text

unfoldable pub create_trigger :
    (is_space : ℕ → Bool)
    → (sha256 : Text → Text) → BeaconTriggerType
    → (summary observed_at_note : Text) → Result BeaconError BeaconTrigger
create_trigger is_space sha256 trigger_type summary observed_at_note = do
  raise_if (is_blank is_space summary) (empty_field (codes "summary"))
  let encoded = join_nul (trigger_type_value trigger_type ∷ summary ∷ observed_at_note ∷ [])
  ok (record {
    trigger_id = codes "trig-" ++ take 24 (sha256 encoded);
    trigger_type = trigger_type;
    summary = summary;
    observed_at_note = observed_at_note;
  })

-- `_TRIGGER_FLOW`, and the error for a state that is no key of it.
unfoldable pub trigger_flow_next : BeaconStatus → Result BeaconError BeaconStatus
trigger_flow_next observed = ok triaged
trigger_flow_next triaged = ok researched
trigger_flow_next researched = ok verified
trigger_flow_next verified = ok proposed
trigger_flow_next proposed = ok policy_reviewed
trigger_flow_next policy_reviewed = ok approved
trigger_flow_next approved = ok quarantined
trigger_flow_next quarantined = ok validated
trigger_flow_next validated = ok release_approved
trigger_flow_next status = err (no_next_state status)

unfoldable pub status_value : BeaconStatus → Text
status_value observed = codes "observed"
status_value triaged = codes "triaged"
status_value researched = codes "researched"
status_value verified = codes "verified"
status_value proposed = codes "proposed"
status_value policy_reviewed = codes "policy_reviewed"
status_value approved = codes "approved"
status_value denied = codes "denied"
status_value quarantined = codes "quarantined"
status_value validated = codes "validated"
status_value release_approved = codes "release_approved"

-- `BeaconStatus(value)`
unfoldable pub status_of : Text → Option BeaconStatus
unfolding text_eq
status_of value =
    if text_eq value (codes "observed")
    then some observed
    else if text_eq value (codes "triaged")
    then some triaged
    else if text_eq value (codes "researched")
    then some researched
    else if text_eq value (codes "verified")
    then some verified
    else if text_eq value (codes "proposed")
    then some proposed
    else if text_eq value (codes "policy_reviewed")
    then some policy_reviewed
    else if text_eq value (codes "approved")
    then some approved
    else if text_eq value (codes "denied")
    then some denied
    else if text_eq value (codes "quarantined")
    then some quarantined
    else if text_eq value (codes "validated")
    then some validated
    else if text_eq value (codes "release_approved")
    then some release_approved
    else none
