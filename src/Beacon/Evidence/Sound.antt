-- ===== src/Beacon/Evidence/Sound.antt =====
-- The payloads that `evidence_from_payload` accepts (beacon_evidence.py).
use human_hand.Prelude.{
  ◌≡◌, ◌↔◌, refl, sym, ap, ◌∙◌, ℕ, Bool, true, false, ◌++◌, [], ◌∷◌, List, arith, Text, codes,
  text_eq, text_eq_refl, text_eq→eq, some, ok, take, is_nil, contains, drop, take-append-drop, any,
  Result-cases, inl, inr,
}
use human_hand.Json.{str, Fields, get, is_text, is_one}
use human_hand.Revision.Payload.{is_sha256_hex}
use human_hand.Beacon.{EvidenceTrustTier, join_nul, is_blank}
use human_hand.Beacon.Evidence.{
  BeaconEvidence, tier_value, tier_for_source_kind, is_public_url, create_evidence,
  evidence_from_payload,
}
use human_hand.Beacon.Evidence.RoundTrip.{tier_of-value}
use human_hand.Beacon.Evidence.Reading.{
  expect_str_inv, expect_str-get, read_fields, read_tier, read_id,
}

module _ (is_space : ℕ → Bool) (sha256 : Text → Text) where
  -- The id of evidence, made of its content.
  abbrev pub id_of : BeaconEvidence → Text
  id_of e =
      codes "ev-"
      ++ take 24 (
          sha256 (
            join_nul (
              e.trigger_id
              ∷ tier_value e.tier
              ∷ e.source_kind
              ∷ e.url
              ∷ e.snippet_sha256
              ∷ e.summary
              ∷ [])))

  -- The five kinds of source that have a tier.
  abbrev pub source_kinds : List Text
  source_kinds =
      codes "official_spec"
      ∷ codes "paper"
      ∷ codes "release_notes"
      ∷ codes "advisory"
      ∷ codes "community"
      ∷ []

  -- Evidence with a trigger, a summary that is not blank, an https address, a SHA-256 digest and a kind of
  -- source that has a tier, under the id that its content makes.
  abbrev pub IsWellFormed : BeaconEvidence → Type 0
  IsWellFormed e =
      (is_nil e.trigger_id ≡ false)
      × (is_blank is_space e.summary ≡ false)
      × ((rest : Text) × (e.url ≡ codes "https://" ++ rest))
      × (is_sha256_hex e.snippet_sha256 ≡ true)
      × (contains e.source_kind source_kinds ≡ true)
      × (e.evidence_id ≡ id_of e)

  -- The payload has the schema and the version of evidence, and the fields of this evidence as strings.
  abbrev pub IsPayloadOf : Fields → BeaconEvidence → Type 0
  IsPayloadOf payload e =
      (is_text (codes "beacon-evidence") (get (codes "schema") payload) ≡ true)
      × (is_one (get (codes "schema_version") payload) ≡ true)
      × (get (codes "evidence_id") payload ≡ some (str e.evidence_id))
      × (get (codes "trigger_id") payload ≡ some (str e.trigger_id))
      × (get (codes "tier") payload ≡ some (str (tier_value e.tier)))
      × (get (codes "source_kind") payload ≡ some (str e.source_kind))
      × (get (codes "summary") payload ≡ some (str e.summary))
      × (get (codes "url") payload ≡ some (str e.url))
      × (get (codes "snippet_sha256") payload ≡ some (str e.snippet_sha256))

  public_rest :
      (url : Text) → is_public_url url ≡ true → (rest : Text) × (url ≡ codes "https://" ++ rest)
  unfolding is_public_url
  public_rest url h =
      let start = text_eq→eq (take 8 url) (codes "https://") h in
      (drop 8 url, sym (take-append-drop 8 url) ∙ ap (λ s. s ++ drop 8 url) start)

  known_kind :
      (kind : Text) (tier : EvidenceTrustTier)
      → tier_for_source_kind kind ≡ ok tier
      → contains kind source_kinds ≡ true
  unfolding tier_for_source_kind contains any
  known_kind kind tier h = ground (arith, h)

  read_sound :
      (payload : Fields) (e : BeaconEvidence)
      → evidence_from_payload is_space sha256 payload ≡ ok e
      → IsWellFormed e
  unfolding evidence_from_payload create_evidence
  read_sound payload e h =
      let url : is_public_url e.url ≡ true = ground arith in
      elim (Result-cases (tier_for_source_kind e.source_kind)) [
        | inr (error, r) ↦ absurd (ground arith)
        | inl (tier, r) ↦ (
          ground arith,
          ground arith,
          public_rest e.url url,
          ground arith,
          known_kind e.source_kind tier r,
          ground arith,
        )
      ]

  is_public_url-https :
      (url rest : Text) → url ≡ codes "https://" ++ rest → is_public_url url ≡ true
  unfolding is_public_url text_eq
  is_public_url-https url rest h = rw h refl

  kind_known :
      (kind : Text)
      → contains kind source_kinds ≡ true
      → (tier : EvidenceTrustTier) × (tier_for_source_kind kind ≡ ok tier)
  unfolding tier_for_source_kind contains any
  kind_known kind h = elim (Result-cases (tier_for_source_kind kind)) [
    | inl found ↦ found
    | inr (error, r) ↦ absurd (ground (arith, h, r))
  ]

  create_evidence-at :
      (e : BeaconEvidence) (tier : EvidenceTrustTier)
      → is_nil e.trigger_id ≡ false
      → is_blank is_space e.summary ≡ false
      → is_public_url e.url ≡ true
      → is_sha256_hex e.snippet_sha256 ≡ true
      → tier_for_source_kind e.source_kind ≡ ok tier
      → create_evidence is_space sha256 e.trigger_id e.tier e.source_kind e.summary e.url
          e.snippet_sha256
        ≡ ok (record e { evidence_id = id_of e })
  unfolding create_evidence
  create_evidence-at e tier trigger summary url digest kind =
      ground (arith, trigger, summary, url, digest, kind)

  created :
      (e : BeaconEvidence)
      → IsWellFormed e
      → create_evidence is_space sha256 e.trigger_id e.tier e.source_kind e.summary e.url
          e.snippet_sha256
        ≡ ok e
  created e (trigger, summary, (rest, url), digest, kind, id) =
      let (tier, known) = kind_known e.source_kind kind in
      create_evidence-at e tier trigger summary (is_public_url-https e.url rest url) digest known
      ∙ ap (λ i. ok (record e { evidence_id = i })) (sym id)

  -- `evidence_from_payload` gives an evidence record from a payload exactly when the record is sound (a
  -- trigger, a summary that is not blank, an https address, a SHA-256 digest, a kind of source that has a
  -- tier, and the id that this content makes) and the payload has the schema, the version, that id and
  -- each of the other six fields of the record.
  pub evidence_from_payload_iff :
      (payload : Fields) (e : BeaconEvidence)
      → (evidence_from_payload is_space sha256 payload ≡ ok e)
        ↔ (IsWellFormed e × IsPayloadOf payload e)
  unfolding evidence_from_payload
  evidence_from_payload_iff payload e = (
    (λ h.
        let (schema, version, trigger, kind, summary, url, digest) =
          read_fields is_space sha256 payload e h in
        (
          read_sound payload e h,
          (
            schema,
            version,
            expect_str_inv payload (codes "evidence_id") e.evidence_id
                (read_id is_space sha256 payload e h),
            expect_str_inv payload (codes "trigger_id") e.trigger_id trigger,
            expect_str_inv payload (codes "tier") (tier_value e.tier)
                (read_tier is_space sha256 payload e h),
            expect_str_inv payload (codes "source_kind") e.source_kind kind,
            expect_str_inv payload (codes "summary") e.summary summary,
            expect_str_inv payload (codes "url") e.url url,
            expect_str_inv payload (codes "snippet_sha256") e.snippet_sha256 digest,
          ),
        )),
    (λ (sound, (schema, version, id, trigger, tier, kind, summary, url, digest)).
        rw
          (
            schema,
            version,
            expect_str-get payload (codes "tier") (tier_value e.tier) tier,
            tier_of-value e.tier,
            expect_str-get payload (codes "trigger_id") e.trigger_id trigger,
            expect_str-get payload (codes "source_kind") e.source_kind kind,
            expect_str-get payload (codes "summary") e.summary summary,
            expect_str-get payload (codes "url") e.url url,
            expect_str-get payload (codes "snippet_sha256") e.snippet_sha256 digest,
            created e sound,
            expect_str-get payload (codes "evidence_id") e.evidence_id id,
            text_eq_refl e.evidence_id,
          )
          refl),
  )
