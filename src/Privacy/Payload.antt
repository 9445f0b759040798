-- ===== src/Privacy/Payload.antt =====
-- `policy_to_payload` and `policy_from_payload` (privacy.py).
pub mod Invariant
use human_hand.Prelude.{
  Bool, true, false, not, Option, none, some, Text, codes, text_eq, Result, ok, ◌>>=◌, ◌>>◌,
  raise_if, or_raise,
}
use human_hand.Prelude.Int.{pos}
use human_hand.Json.{bool, int, str, Fields, end, field, get, is_text, is_one, as_str, as_bool}
use human_hand.Privacy.{PrivacyMode, PrivacyPolicy, mode_value, mode_of}

pub data PolicyPayloadError : Type 0 where
  invalid_field : (key : Text) → PolicyPayloadError
  unsupported_version : PolicyPayloadError
  unknown_mode_value : Text → PolicyPayloadError
  raw_text_logged : PolicyPayloadError
  automatic_projection : PolicyPayloadError

unfoldable pub policy_to_payload : PrivacyPolicy → Fields
policy_to_payload policy = field (codes "schema") (str (codes "privacy-policy")) (
    field (codes "schema_version") (int (pos 1)) (
      field (codes "mode") (str (mode_value policy.mode)) (
        field (codes "network_allowed") (bool policy.network_allowed) (
          field (codes "raw_text_logging") (bool policy.raw_text_logging) (
            field (codes "detector_cache_enabled") (bool policy.detector_cache_enabled) (
              field (codes "obsidian_projection_auto") (bool policy.obsidian_projection_auto) (
                field (codes "retention_enforced") (bool policy.retention_enforced) (
                  field (codes "encrypt_sensitive_fields") (bool policy.encrypt_sensitive_fields)
                    end))))))))

unfoldable pub expect_bool : Fields → Text → Result PolicyPayloadError Bool
expect_bool payload key = or_raise (as_bool (get key payload)) (invalid_field key)

unfoldable pub policy_from_payload : Fields → Result PolicyPayloadError PrivacyPolicy
policy_from_payload payload = do
  raise_if (not (is_text (codes "privacy-policy") (get (codes "schema") payload)))
      (invalid_field (codes "schema"))
  raise_if (not (is_one (get (codes "schema_version") payload))) unsupported_version
  raw_mode ← or_raise (as_str (get (codes "mode") payload)) (invalid_field (codes "mode"))
  mode ← or_raise (mode_of raw_mode) (unknown_mode_value raw_mode)
  logging ← expect_bool payload (codes "raw_text_logging")
  obsidian ← expect_bool payload (codes "obsidian_projection_auto")
  raise_if logging raw_text_logged
  raise_if obsidian automatic_projection
  network ← expect_bool payload (codes "network_allowed")
  cache ← expect_bool payload (codes "detector_cache_enabled")
  retention ← expect_bool payload (codes "retention_enforced")
  encrypt ← expect_bool payload (codes "encrypt_sensitive_fields")
  ok (record {
    mode = mode;
    network_allowed = network;
    raw_text_logging = logging;
    detector_cache_enabled = cache;
    obsidian_projection_auto = obsidian;
    retention_enforced = retention;
    encrypt_sensitive_fields = encrypt;
  })
