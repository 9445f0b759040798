-- ===== src/Beacon/Evidence/RoundTrip.antt =====
-- `create_evidence`, `evidence_to_payload` and `evidence_from_payload` of beacon_evidence.py.
use human_hand.Prelude.{◌≡◌, refl, ℕ, Bool, arith, Text, text_eq, text_eq_refl, some, ok}
use human_hand.Json.{get, is_text, is_one, as_str}
use human_hand.Beacon.{
  EvidenceTrustTier, tier_1_official_spec, tier_2_peer_reviewed, tier_3_preprint_or_release_notes,
  tier_4_technical_analysis, tier_5_community_lead,
}
use human_hand.Beacon.Evidence.{
  BeaconEvidence, tier_value, tier_of, create_evidence, evidence_to_payload, evidence_from_payload,
  expect_str,
}

pub tier_of-value : (t : EvidenceTrustTier) → tier_of (tier_value t) ≡ some t
unfolding tier_of tier_value text_eq
tier_of-value tier_1_official_spec = refl
tier_of-value tier_2_peer_reviewed = refl
tier_of-value tier_3_preprint_or_release_notes = refl
tier_of-value tier_4_technical_analysis = refl
tier_of-value tier_5_community_lead = refl

module _ (is_space : ℕ → Bool) (sha256 : Text → Text) where
  -- A record that its own content makes.
  abbrev pub IsGenuine : BeaconEvidence → Type 0
  IsGenuine e =
      create_evidence is_space sha256 e.trigger_id e.tier e.source_kind e.summary e.url
        e.snippet_sha256
      ≡ ok e

  pub create_evidence-IsGenuine :
      (trigger_id : Text) (tier : EvidenceTrustTier) (source_kind summary url snippet : Text)
      (e : BeaconEvidence)
      → create_evidence is_space sha256 trigger_id tier source_kind summary url snippet ≡ ok e
      → IsGenuine e
  unfolding create_evidence
  create_evidence-IsGenuine trigger_id tier source_kind summary url snippet e h = ground arith

  -- Evidence that its own content makes is read back from its payload unchanged.
  pub evidence_from_payload-to_payload :
      (e : BeaconEvidence)
      → IsGenuine e
      → evidence_from_payload is_space sha256 (evidence_to_payload e) ≡ ok e
  unfolding evidence_from_payload evidence_to_payload expect_str get text_eq is_text is_one as_str
  evidence_from_payload-to_payload e genuine =
      rw (tier_of-value e.tier, genuine, text_eq_refl e.evidence_id)
