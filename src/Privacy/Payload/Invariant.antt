-- ===== src/Privacy/Payload/Invariant.antt =====
-- The two invariants of privacy policies that privacy.py names: raw text logging and automatic
-- projection are off.
use human_hand.Prelude.{
  ◌↔◌, Bool, true, ap, ◌∙◌, codes, text_eq→eq, Option-cases, inl, inr, ◌≡◌, refl, false, arith,
  some, Text, text_eq, ok,
}
use human_hand.Json.{
  as_str-some, as_bool-some, bool, str, Value, Fields, get, is_text, is_one, as_str, as_bool,
}
use human_hand.Privacy.{
  PrivacyMode, strict_local, private_audited, regulated, PrivacyPolicy, mode_value, mode_of,
  privacy_policy_from_modes,
}
use human_hand.Privacy.Payload.{policy_to_payload, expect_bool, policy_from_payload}

mode_of-value : (m : PrivacyMode) → mode_of (mode_value m) ≡ some m
unfolding mode_of mode_value text_eq
mode_of-value strict_local = refl
mode_of-value private_audited = refl
mode_of-value regulated = refl

abbrev pub IsSafe : PrivacyPolicy → Type 0
IsSafe policy = (policy.raw_text_logging ≡ false) × (policy.obsidian_projection_auto ≡ false)

-- Whatever the resource of modes says, a policy made from it logs no raw text and projects nothing on
-- its own, and it is the policy of the mode that was asked for.
privacy_policy_from_modes-IsSafe :
    (mode_name : Text) (modes : Value) (policy : PrivacyPolicy)
    → privacy_policy_from_modes mode_name modes ≡ ok policy
    → IsSafe policy × (mode_of mode_name ≡ some policy.mode)
unfolding privacy_policy_from_modes
privacy_policy_from_modes-IsSafe mode_name modes policy h =
    ((ground arith, ground arith), ground arith)

-- A policy that logs no raw text and projects nothing on its own is read back from its payload
-- unchanged.
pub policy_from_payload-to_payload :
    (policy : PrivacyPolicy)
    → IsSafe policy
    → policy_from_payload (policy_to_payload policy) ≡ ok policy
unfolding policy_from_payload policy_to_payload expect_bool get text_eq is_text is_one as_str
    as_bool
policy_from_payload-to_payload policy (logging, projection) =
    rw (mode_of-value policy.mode, logging, projection) (ground (arith, logging, projection))

mode_of_inv : (t : Text) (mode : PrivacyMode) → mode_of t ≡ some mode → t ≡ mode_value mode
unfolding mode_of mode_value
mode_of_inv t mode h = ground (
  arith,
  h,
  text_eq→eq t (codes "strict_local"),
  text_eq→eq t (codes "private_audited"),
  text_eq→eq t (codes "regulated"),
)

expect_bool-get :
    (payload : Fields) (key : Text) (b : Bool)
    → get key payload ≡ some (bool b)
    → expect_bool payload key ≡ ok b
unfolding expect_bool as_bool
expect_bool-get payload key b h = rw h refl

expect_bool_inv :
    (payload : Fields) (key : Text) (b : Bool)
    → expect_bool payload key ≡ ok b
    → get key payload ≡ some (bool b)
unfolding expect_bool
expect_bool_inv payload key b h = as_bool-some (get key payload) b (ground (arith, h))

-- The payload has the schema and the version of a policy, the mode by its name and the flags as bools.
abbrev pub IsPayloadOf : Fields → PrivacyPolicy → Type 0
IsPayloadOf payload policy =
    (is_text (codes "privacy-policy") (get (codes "schema") payload) ≡ true)
    × (is_one (get (codes "schema_version") payload) ≡ true)
    × (get (codes "mode") payload ≡ some (str (mode_value policy.mode)))
    × (get (codes "network_allowed") payload ≡ some (bool policy.network_allowed))
    × (get (codes "raw_text_logging") payload ≡ some (bool policy.raw_text_logging))
    × (get (codes "detector_cache_enabled") payload ≡ some (bool policy.detector_cache_enabled))
    × (get (codes "obsidian_projection_auto") payload ≡ some (bool policy.obsidian_projection_auto))
    × (get (codes "retention_enforced") payload ≡ some (bool policy.retention_enforced))
    × (get (codes "encrypt_sensitive_fields") payload ≡ some (bool policy.encrypt_sensitive_fields))

read_policy :
    (payload : Fields) (policy : PrivacyPolicy)
    → policy_from_payload payload ≡ ok policy
    → IsSafe policy × IsPayloadOf payload policy
unfolding policy_from_payload
read_policy payload policy h = elim (Option-cases (as_str (get (codes "mode") payload))) [
  | inr r ↦ absurd (ground arith)
  | inl (raw, r) ↦
      let named : mode_of raw ≡ some policy.mode = ground arith in
      let flag = expect_bool_inv payload in
      (
        (ground arith, ground arith),
        (
          ground arith,
          ground arith,
          as_str-some (get (codes "mode") payload) (mode_value policy.mode)
              (r ∙ ap some (mode_of_inv raw policy.mode named)),
          flag (codes "network_allowed") policy.network_allowed (ground arith),
          flag (codes "raw_text_logging") policy.raw_text_logging (ground arith),
          flag (codes "detector_cache_enabled") policy.detector_cache_enabled (ground arith),
          flag (codes "obsidian_projection_auto") policy.obsidian_projection_auto (ground arith),
          flag (codes "retention_enforced") policy.retention_enforced (ground arith),
          flag (codes "encrypt_sensitive_fields") policy.encrypt_sensitive_fields (ground arith),
        ),
      )
]

-- `policy_from_payload` gives a policy from a payload exactly when the policy logs no raw text and
-- projects nothing on its own, and the payload has the schema, the version, the policy's mode by its name
-- and each of its six flags as a bool.
pub policy_from_payload_iff :
    (payload : Fields) (policy : PrivacyPolicy)
    → (policy_from_payload payload ≡ ok policy) ↔ (IsSafe policy × IsPayloadOf payload policy)
unfolding policy_from_payload as_str
policy_from_payload_iff payload policy = (
  read_policy payload policy,
  (λ (
    (logging, projection),
    (schema, version, mode, network, log, cache, auto, retention, encrypt),
  ).
      let flag = expect_bool-get payload in
      rw
        (
          schema,
          version,
          mode,
          mode_of-value policy.mode,
          flag (codes "raw_text_logging") policy.raw_text_logging log,
          flag (codes "obsidian_projection_auto") policy.obsidian_projection_auto auto,
          logging,
          projection,
          flag (codes "network_allowed") policy.network_allowed network,
          flag (codes "detector_cache_enabled") policy.detector_cache_enabled cache,
          flag (codes "retention_enforced") policy.retention_enforced retention,
          flag (codes "encrypt_sensitive_fields") policy.encrypt_sensitive_fields encrypt,
        )
        refl),
)
