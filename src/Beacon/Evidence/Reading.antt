-- ===== src/Beacon/Evidence/Reading.antt =====
-- The fields that `evidence_from_payload` reads (beacon_evidence.py).
use human_hand.Prelude.{
  ◌≡◌, refl, sym, ap, ◌∙◌, ℕ, Bool, true, arith, Text, codes, text_eq, text_eq→eq, some, ok,
  Result-cases, inl, inr,
}
use human_hand.Json.{as_str-some, str, Fields, get, is_text, is_one, as_str}
use human_hand.Beacon.{EvidenceTrustTier}
use human_hand.Beacon.Evidence.{
  BeaconEvidence, tier_value, tier_of, create_evidence, evidence_from_payload, expect_str,
}

pub expect_str_inv :
    (payload : Fields) (key t : Text)
    → expect_str payload key ≡ ok t
    → get key payload ≡ some (str t)
unfolding expect_str
expect_str_inv payload key t h = as_str-some (get key payload) t (ground (arith, h))

pub expect_str-get :
    (payload : Fields) (key t : Text)
    → get key payload ≡ some (str t)
    → expect_str payload key ≡ ok t
unfolding expect_str as_str
expect_str-get payload key t h = rw h refl

tier_of_inv : (t : Text) (tier : EvidenceTrustTier) → tier_of t ≡ some tier → t ≡ tier_value tier
unfolding tier_of tier_value
tier_of_inv t tier h = ground (
  arith,
  h,
  text_eq→eq t (codes "tier1_official_spec"),
  text_eq→eq t (codes "tier2_peer_reviewed"),
  text_eq→eq t (codes "tier3_preprint_or_release_notes"),
  text_eq→eq t (codes "tier4_technical_analysis"),
  text_eq→eq t (codes "tier5_community_lead"),
)

module _ (is_space : ℕ → Bool) (sha256 : Text → Text) where
  pub read_fields :
      (payload : Fields) (e : BeaconEvidence)
      → evidence_from_payload is_space sha256 payload ≡ ok e
      → (is_text (codes "beacon-evidence") (get (codes "schema") payload) ≡ true)
        × (is_one (get (codes "schema_version") payload) ≡ true)
        × (expect_str payload (codes "trigger_id") ≡ ok e.trigger_id)
        × (expect_str payload (codes "source_kind") ≡ ok e.source_kind)
        × (expect_str payload (codes "summary") ≡ ok e.summary)
        × (expect_str payload (codes "url") ≡ ok e.url)
        × (expect_str payload (codes "snippet_sha256") ≡ ok e.snippet_sha256)
  unfolding evidence_from_payload create_evidence
  read_fields payload e h = (
    ground arith,
    ground arith,
    ground arith,
    ground arith,
    ground arith,
    ground arith,
    ground arith,
  )

  pub read_tier :
      (payload : Fields) (e : BeaconEvidence)
      → evidence_from_payload is_space sha256 payload ≡ ok e
      → expect_str payload (codes "tier") ≡ ok (tier_value e.tier)
  unfolding evidence_from_payload create_evidence
  read_tier payload e h = elim (Result-cases (expect_str payload (codes "tier"))) [
    | inr (error, r) ↦ absurd (ground arith)
    | inl (raw, r) ↦
        let named : tier_of raw ≡ some e.tier = ground arith in
        r ∙ ap ok (tier_of_inv raw e.tier named)
  ]

  pub read_id :
      (payload : Fields) (e : BeaconEvidence)
      → evidence_from_payload is_space sha256 payload ≡ ok e
      → expect_str payload (codes "evidence_id") ≡ ok e.evidence_id
  unfolding evidence_from_payload
  read_id payload e h = elim (Result-cases (expect_str payload (codes "evidence_id"))) [
    | inr (error, r) ↦ absurd (ground arith)
    | inl (raw, r) ↦
        let same : text_eq e.evidence_id raw ≡ true = ground arith in
        r ∙ ap ok (sym (text_eq→eq e.evidence_id raw same))
  ]
