-- ===== src/Beacon/Proposal/RoundTrip.antt =====
-- The payload of a research proposal, before and after its policy review (beacon_proposals.py).
use human_hand.Prelude.{
  ◌≡◌, refl, sym, ℕ, Bool, List, [], ◌∷◌, Text, text_eq, text_eq_refl, All, some, ok,
}
use human_hand.Json.{obj, items, get, is_text, is_one, as_str, as_bool, as_arr, as_obj}
use human_hand.Beacon.{
  BeaconStatus, observed, triaged, researched, verified, proposed, policy_reviewed, approved,
  denied, quarantined, validated, release_approved, status_value, status_of,
}
use human_hand.Beacon.Evidence.{BeaconEvidence, evidence_set, evidence_to_payload, expect_str}
use human_hand.Beacon.Evidence.RoundTrip.{IsGenuine, evidence_from_payload-to_payload}
use human_hand.Beacon.Proposal.{
  ProposalKind, metadata_field, container_mechanism, provenance_standard, telemetry_change,
  parser_exporter_change, privacy_technique, scanner_benchmark_change, BeaconProposal, kind_value,
  kind_of, proposal_id_for, evidence_payload, proposal_to_payload, expect_bool, evidence_items,
  proposal_from_payload,
}
use human_hand.Beacon.Policy.{review_proposal}

kind_of-value : (k : ProposalKind) → kind_of (kind_value k) ≡ some k
unfolding kind_of kind_value text_eq
kind_of-value metadata_field = refl
kind_of-value container_mechanism = refl
kind_of-value provenance_standard = refl
kind_of-value telemetry_change = refl
kind_of-value parser_exporter_change = refl
kind_of-value privacy_technique = refl
kind_of-value scanner_benchmark_change = refl

status_of-value : (s : BeaconStatus) → status_of (status_value s) ≡ some s
unfolding status_of status_value text_eq
status_of-value observed = refl
status_of-value triaged = refl
status_of-value researched = refl
status_of-value verified = refl
status_of-value proposed = refl
status_of-value policy_reviewed = refl
status_of-value approved = refl
status_of-value denied = refl
status_of-value quarantined = refl
status_of-value validated = refl
status_of-value release_approved = refl

module _ (is_space : ℕ → Bool) (sha256 : Text → Text) where
  -- The id belongs to the content, and the evidence is genuine and has no id twice.
  pub record IsSound (p : BeaconProposal) : Type 0 where
    pub id :
        p.proposal_id
        ≡ proposal_id_for sha256 p.trigger_id p.kind p.summary p.high_impact p.evidence
    pub genuine : All (IsGenuine is_space sha256) p.evidence
    pub distinct_ids : evidence_set p.evidence ≡ ok p.evidence

  items_read :
      (es : List BeaconEvidence)
      → All (IsGenuine is_space sha256) es
      → evidence_items is_space sha256 (items (λ e. obj (evidence_to_payload e)) es) ≡ ok es
  unfolding evidence_items items
  items_read [] h = refl
  items_read (e ∷ es) (g, h) =
      rw (evidence_from_payload-to_payload is_space sha256 e g, items_read es h)

  -- A sound proposal is read back from its payload unchanged.
  proposal_from_payload-to_payload :
      (p : BeaconProposal)
      → IsSound p
      → proposal_from_payload is_space sha256 (proposal_to_payload p) ≡ ok p
  unfolding proposal_from_payload proposal_to_payload evidence_payload expect_str expect_bool get
      text_eq is_text is_one as_str as_bool as_arr as_obj
  proposal_from_payload-to_payload p s = rw (
    kind_of-value p.kind,
    status_of-value p.status,
    items_read p.evidence s.genuine,
    s.distinct_ids,
    sym s.id,
    text_eq_refl p.proposal_id,
  )

  -- The policy review of a sound proposal is a sound proposal: the review keeps what the id is made of,
  -- so that a reviewed proposal is read back from its payload unchanged.
  pub review_proposal-read_back :
      (repr : Text → Text) (p : BeaconProposal) (allowed blocked : List Text) (mode : Text)
      → IsSound p
      → proposal_from_payload is_space sha256
          (proposal_to_payload (review_proposal repr p allowed blocked mode))
        ≡ ok (review_proposal repr p allowed blocked mode)
  unfolding review_proposal
  review_proposal-read_back repr p allowed blocked mode s =
      proposal_from_payload-to_payload (review_proposal repr p allowed blocked mode)
        (record { id = s.id; genuine = s.genuine; distinct_ids = s.distinct_ids })
