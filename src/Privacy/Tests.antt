-- ===== src/Privacy/Tests.antt =====
-- The default policies, and a policy written as a payload.
use human_hand.Prelude.{◌≡◌, ◌↔◌, refl, true, false, codes, text_eq, ok}
use human_hand.Json.{get, as_bool}
use human_hand.Privacy.{
  PrivacyPolicy, regulated, privacy_policy_from_modes, default_modes, validate_mode_resource,
  parse_modes, mode_flags, flag, flags_of, mode_of, default_entry,
}
use human_hand.Privacy.Payload.{policy_to_payload, policy_from_payload}
use human_hand.Privacy.Payload.Invariant.{
  IsSafe, policy_from_payload-to_payload, IsPayloadOf, policy_from_payload_iff,
}

abbrev policy : PrivacyPolicy
policy = record {
  mode = regulated;
  network_allowed = true;
  raw_text_logging = false;
  detector_cache_enabled = false;
  obsidian_projection_auto = false;
  retention_enforced = true;
  encrypt_sensitive_fields = true;
}

loaded : privacy_policy_from_modes (codes "regulated") default_modes ≡ ok policy
unfolding privacy_policy_from_modes default_modes validate_mode_resource parse_modes mode_flags flag
    flags_of mode_of default_entry get as_bool text_eq
loaded = refl

policy_read : policy_from_payload (policy_to_payload policy) ≡ ok policy
policy_read = policy_from_payload-to_payload policy (refl, refl)

policy_from_payload_iff_example :
    (policy_from_payload (policy_to_payload policy) ≡ ok policy)
    ↔ (IsSafe policy × IsPayloadOf (policy_to_payload policy) policy)
policy_from_payload_iff_example = policy_from_payload_iff (policy_to_payload policy) policy
