-- ===== src/Beacon/Evidence.antt =====
-- src/humanhand/domain/beacon_evidence.py: evidence records, and when evidence is enough.
pub mod Reading
pub mod RoundTrip
pub mod Sound
use human_hand.Prelude.{
  ℕ, Bool, true, false, not, Option, none, some, List, [], ◌∷◌, ◌++◌, map, ◌==◌, leb, length, take,
  any, select, is_nil, Text, codes, text_eq, contains, Result, ok, err, ◌>>=◌, ◌>>◌, raise_if,
  or_raise, if◌then◌else◌,
}
use human_hand.Prelude.Int.{pos}
use human_hand.Json.{int, str, Fields, end, field, get, is_text, is_one, as_str}
use human_hand.Revision.Payload.{is_sha256_hex}
use human_hand.Beacon.{
  EvidenceTrustTier, tier_1_official_spec, tier_2_peer_reviewed, tier_3_preprint_or_release_notes,
  tier_4_technical_analysis, tier_5_community_lead, BeaconError, empty_field, not_public_url,
  malformed_digest, unknown_source_kind, duplicate_evidence, invalid_payload, unsupported_version,
  id_mismatch, join_nul, is_blank,
}

pub record BeaconEvidence : Type 0 where
  pub evidence_id : Text
  pub trigger_id : Text
  pub tier : EvidenceTrustTier
  pub source_kind : Text
  pub summary : Text
  pub url : Text
  pub snippet_sha256 : Text

unfoldable pub tier_value : EvidenceTrustTier → Text
tier_value tier_1_official_spec = codes "tier1_official_spec"
tier_value tier_2_peer_reviewed = codes "tier2_peer_reviewed"
tier_value tier_3_preprint_or_release_notes = codes "tier3_preprint_or_release_notes"
tier_value tier_4_technical_analysis = codes "tier4_technical_analysis"
tier_value tier_5_community_lead = codes "tier5_community_lead"

-- `EvidenceTrustTier(value)`
unfoldable pub tier_of : Text → Option EvidenceTrustTier
unfolding text_eq
tier_of value =
    if text_eq value (codes "tier1_official_spec")
    then some tier_1_official_spec
    else if text_eq value (codes "tier2_peer_reviewed")
    then some tier_2_peer_reviewed
    else if text_eq value (codes "tier3_preprint_or_release_notes")
    then some tier_3_preprint_or_release_notes
    else if text_eq value (codes "tier4_technical_analysis")
    then some tier_4_technical_analysis
    else if text_eq value (codes "tier5_community_lead")
    then some tier_5_community_lead
    else none

unfoldable pub tier_for_source_kind : Text → Result BeaconError EvidenceTrustTier
unfolding text_eq
tier_for_source_kind source_kind =
    if text_eq source_kind (codes "official_spec")
    then ok tier_1_official_spec
    else if text_eq source_kind (codes "paper")
    then ok tier_2_peer_reviewed
    else if text_eq source_kind (codes "release_notes")
    then ok tier_3_preprint_or_release_notes
    else if text_eq source_kind (codes "advisory")
    then ok tier_4_technical_analysis
    else if text_eq source_kind (codes "community")
    then ok tier_5_community_lead
    else err (unknown_source_kind source_kind)

-- `url.startswith("https://")`
unfoldable pub is_public_url : Text → Bool
unfolding text_eq
is_public_url url = text_eq (take 8 url) (codes "https://")

-- `{x for x in xs}`, one of each.
unfoldable pub distinct : List Text → List Text
distinct [] = []
distinct (x ∷ rest) = let others = distinct rest in if contains x rest then others else x ∷ others

-- `EvidenceSet(items)`
unfoldable pub evidence_set : List BeaconEvidence → Result BeaconError (List BeaconEvidence)
evidence_set items = do
  let ids = map (λ item. item.evidence_id) items
  raise_if (not (length (distinct ids) == length ids)) duplicate_evidence
  ok items

unfoldable pub is_tier_1 : EvidenceTrustTier → Bool
is_tier_1 tier_1_official_spec = true
is_tier_1 _ = false

unfoldable pub is_tier_2_or_3 : EvidenceTrustTier → Bool
is_tier_2_or_3 tier_2_peer_reviewed = true
is_tier_2_or_3 tier_3_preprint_or_release_notes = true
is_tier_2_or_3 _ = false

unfoldable pub is_tier_1_to_4 : EvidenceTrustTier → Bool
is_tier_1_to_4 tier_5_community_lead = false
is_tier_1_to_4 _ = true

unfoldable pub high_impact_sufficient : List BeaconEvidence → (high_impact : Bool) → Bool
unfolding is_tier_1 is_tier_2_or_3 is_tier_1_to_4
high_impact_sufficient evidence high_impact =
    let tier_two_or_three = select (λ item. is_tier_2_or_3 item.tier) evidence in
    if high_impact
    then if any (λ item. is_tier_1 item.tier) evidence
      then true
      else leb 2 (length (distinct (map (λ item. item.url) tier_two_or_three)))
    else any (λ item. is_tier_1_to_4 item.tier) evidence

unfoldable pub evidence_to_payload : BeaconEvidence → Fields
evidence_to_payload e = field (codes "schema") (str (codes "beacon-evidence")) (
    field (codes "schema_version") (int (pos 1)) (
      field (codes "evidence_id") (str e.evidence_id) (
        field (codes "trigger_id") (str e.trigger_id) (
          field (codes "tier") (str (tier_value e.tier)) (
            field (codes "source_kind") (str e.source_kind) (
              field (codes "summary") (str e.summary) (
                field (codes "url") (str e.url)
                  (field (codes "snippet_sha256") (str e.snippet_sha256) end))))))))

unfoldable pub expect_str : Fields → Text → Result BeaconError Text
expect_str payload key = or_raise (as_str (get key payload)) (invalid_payload key)

module _ (is_space : ℕ → Bool) (sha256 : Text → Text) where
  unfoldable pub create_evidence :
      (trigger_id : Text)
      → EvidenceTrustTier
      → (source_kind summary url snippet_sha256 : Text) → Result BeaconError BeaconEvidence
  create_evidence trigger_id tier source_kind summary url snippet_sha256 = do
    raise_if (is_nil trigger_id) (empty_field (codes "trigger_id"))
    raise_if (is_blank is_space summary) (empty_field (codes "summary"))
    raise_if (not (is_public_url url)) not_public_url
    raise_if (not (is_sha256_hex snippet_sha256)) malformed_digest
    default ← tier_for_source_kind source_kind
    let encoded =
        join_nul (trigger_id ∷ tier_value tier ∷ source_kind ∷ url ∷ snippet_sha256 ∷ summary ∷ [])
    ok (record {
      evidence_id = codes "ev-" ++ take 24 (sha256 encoded);
      trigger_id = trigger_id;
      tier = tier;
      source_kind = source_kind;
      summary = summary;
      url = url;
      snippet_sha256 = snippet_sha256;
    })

  unfoldable pub evidence_from_payload : Fields → Result BeaconError BeaconEvidence
  evidence_from_payload payload = do
    raise_if (not (is_text (codes "beacon-evidence") (get (codes "schema") payload)))
        (invalid_payload (codes "schema"))
    raise_if (not (is_one (get (codes "schema_version") payload))) unsupported_version
    raw_tier ← expect_str payload (codes "tier")
    tier ← or_raise (tier_of raw_tier) (invalid_payload (codes "tier"))
    trigger_id ← expect_str payload (codes "trigger_id")
    source_kind ← expect_str payload (codes "source_kind")
    summary ← expect_str payload (codes "summary")
    url ← expect_str payload (codes "url")
    snippet_sha256 ← expect_str payload (codes "snippet_sha256")
    evidence ← create_evidence trigger_id tier source_kind summary url snippet_sha256
    evidence_id ← expect_str payload (codes "evidence_id")
    raise_if (not (text_eq evidence.evidence_id evidence_id)) id_mismatch
    ok evidence
