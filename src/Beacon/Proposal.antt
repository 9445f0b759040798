-- ===== src/Beacon/Proposal.antt =====
-- src/humanhand/domain/beacon_proposals.py: research proposals and their payloads.
pub mod RoundTrip
pub mod Sources
use human_hand.Prelude.{
  ℕ, Bool, true, false, not, Option, none, some, List, [], ◌∷◌, ◌++◌, map, take, Text, codes,
  text_eq, Result, ok, err, ◌>>=◌, ◌>>◌, ◌&&◌, raise_if, or_raise, if◌then◌else◌,
}
use human_hand.Prelude.Int.{pos}
use human_hand.Json.{
  Value, bool, int, str, arr, obj, Items, nil, cons, Fields, end, field, items, get, is_text,
  is_one, as_bool, as_arr, as_obj,
}
use human_hand.Beacon.{
  BeaconTrigger, BeaconStatus, proposed, BeaconError, empty_field, insufficient_evidence,
  invalid_payload, unsupported_version, id_mismatch, join_nul, is_blank, status_value, status_of,
}
use human_hand.Beacon.Evidence.{
  BeaconEvidence, evidence_set, high_impact_sufficient, evidence_to_payload, evidence_from_payload,
  expect_str,
}

pub data ProposalKind : Type 0 where
  metadata_field container_mechanism provenance_standard telemetry_change parser_exporter_change
        privacy_technique scanner_benchmark_change :
      ProposalKind

pub record BeaconProposal : Type 0 where
  pub proposal_id : Text
  pub trigger_id : Text
  pub kind : ProposalKind
  pub summary : Text
  pub high_impact : Bool
  pub evidence : List BeaconEvidence
  pub status : BeaconStatus
  pub blocked_action : Bool
  pub policy_note : Text

unfoldable pub kind_value : ProposalKind → Text
kind_value metadata_field = codes "metadata_field"
kind_value container_mechanism = codes "container_mechanism"
kind_value provenance_standard = codes "provenance_standard"
kind_value telemetry_change = codes "telemetry_change"
kind_value parser_exporter_change = codes "parser_exporter_change"
kind_value privacy_technique = codes "privacy_technique"
kind_value scanner_benchmark_change = codes "scanner_benchmark_change"

-- `ProposalKind(value)`
unfoldable pub kind_of : Text → Option ProposalKind
unfolding text_eq
kind_of value =
    if text_eq value (codes "metadata_field")
    then some metadata_field
    else if text_eq value (codes "container_mechanism")
    then some container_mechanism
    else if text_eq value (codes "provenance_standard")
    then some provenance_standard
    else if text_eq value (codes "telemetry_change")
    then some telemetry_change
    else if text_eq value (codes "parser_exporter_change")
    then some parser_exporter_change
    else if text_eq value (codes "privacy_technique")
    then some privacy_technique
    else if text_eq value (codes "scanner_benchmark_change")
    then some scanner_benchmark_change
    else none

-- `_proposal_id_for`, which reads these fields of the proposal only.
unfoldable pub proposal_id_for :
    (sha256 : Text → Text)
    → (trigger_id : Text) → ProposalKind
    → (summary : Text) → (high_impact : Bool) → List BeaconEvidence
    → Text
proposal_id_for sha256 trigger_id kind summary high_impact evidence =
    let impact = if high_impact then codes "high_impact" else codes "not_high_impact" in
    let ids = map (λ item. item.evidence_id) evidence in
    let encoded = join_nul (trigger_id ∷ kind_value kind ∷ summary ∷ impact ∷ ids) in
    codes "prop-" ++ take 24 (sha256 encoded)

unfoldable pub evidence_payload : List BeaconEvidence → Fields
evidence_payload evidence =
    field (codes "items") (arr (items (λ e. obj (evidence_to_payload e)) evidence)) end

unfoldable pub proposal_to_payload : BeaconProposal → Fields
proposal_to_payload p = field (codes "schema") (str (codes "beacon-proposal")) (
    field (codes "schema_version") (int (pos 1)) (
      field (codes "proposal_id") (str p.proposal_id) (
        field (codes "trigger_id") (str p.trigger_id) (
          field (codes "kind") (str (kind_value p.kind)) (
            field (codes "summary") (str p.summary) (
              field (codes "high_impact") (bool p.high_impact) (
                field (codes "evidence") (obj (evidence_payload p.evidence)) (
                  field (codes "status") (str (status_value p.status)) (
                    field (codes "blocked_action") (bool p.blocked_action)
                      (field (codes "policy_note") (str p.policy_note) end))))))))))

unfoldable pub expect_bool : Fields → Text → Result BeaconError Bool
expect_bool payload key = or_raise (as_bool (get key payload)) (invalid_payload key)

module _ (is_space : ℕ → Bool) (sha256 : Text → Text) where
  unfoldable pub create_proposal :
      BeaconTrigger
      → ProposalKind
      → (summary : Text) → List BeaconEvidence
      → (high_impact : Bool) → Result BeaconError BeaconProposal
  create_proposal trigger kind summary evidence high_impact = do
    raise_if (high_impact && not (high_impact_sufficient evidence true))
        (insufficient_evidence true)
    raise_if (not high_impact && not (high_impact_sufficient evidence false))
        (insufficient_evidence false)
    raise_if (is_blank is_space summary) (empty_field (codes "summary"))
    ok (record {
      proposal_id = proposal_id_for sha256 trigger.trigger_id kind summary high_impact evidence;
      trigger_id = trigger.trigger_id;
      kind = kind;
      summary = summary;
      high_impact = high_impact;
      evidence = evidence;
      status = proposed;
      blocked_action = false;
      policy_note = [];
    })

  -- The loop over `raw_items`.
  unfoldable pub evidence_items : Items → Result BeaconError (List BeaconEvidence)
  evidence_items nil = ok []
  evidence_items (cons (obj raw_item) rest) = do
    item ← evidence_from_payload is_space sha256 raw_item
    others ← evidence_items rest
    ok (item ∷ others)
  evidence_items (cons _ rest) = err (invalid_payload (codes "evidence"))

  unfoldable pub proposal_from_payload : Fields → Result BeaconError BeaconProposal
  proposal_from_payload payload = do
    raise_if (not (is_text (codes "beacon-proposal") (get (codes "schema") payload)))
        (invalid_payload (codes "schema"))
    raise_if (not (is_one (get (codes "schema_version") payload))) unsupported_version
    raw_kind ← expect_str payload (codes "kind")
    raw_status ← expect_str payload (codes "status")
    kind ← or_raise (kind_of raw_kind) (invalid_payload (codes "kind"))
    status ← or_raise (status_of raw_status) (invalid_payload (codes "status"))
    raw_evidence ←
        or_raise (as_obj (get (codes "evidence") payload)) (invalid_payload (codes "evidence"))
    raw_items ←
        or_raise (as_arr (get (codes "items") raw_evidence)) (invalid_payload (codes "items"))
    evidence_read ← evidence_items raw_items
    proposal_id ← expect_str payload (codes "proposal_id")
    trigger_id ← expect_str payload (codes "trigger_id")
    summary ← expect_str payload (codes "summary")
    high_impact ← expect_bool payload (codes "high_impact")
    evidence ← evidence_set evidence_read
    blocked_action ← expect_bool payload (codes "blocked_action")
    policy_note ← expect_str payload (codes "policy_note")
    raise_if
        (not (
          text_eq proposal_id
            (proposal_id_for sha256 trigger_id kind summary high_impact evidence)))
        id_mismatch
    ok (record {
      proposal_id = proposal_id;
      trigger_id = trigger_id;
      kind = kind;
      summary = summary;
      high_impact = high_impact;
      evidence = evidence;
      status = status;
      blocked_action = blocked_action;
      policy_note = policy_note;
    })
