-- ===== src/Privacy.antt =====
-- src/humanhand/domain/privacy.py and the pure part of retention.py: the policies of the three privacy
-- modes. A mode is given by its name; a mapping is a Python dict, in which no key occurs twice.
pub mod Payload
mod Tests
use human_hand.Prelude.{
  Bool, true, false, not, ◌&&◌, Option, none, some, List, [], ◌∷◌, Text, codes, text_eq, Result, ok,
  err, ◌>>=◌, or_raise, if◌then◌else◌, ℕ,
}
use human_hand.Json.{Value, bool, obj, Fields, end, field, get, as_bool}

pub data PrivacyMode : Type 0 where
  strict_local private_audited regulated : PrivacyMode

pub record PrivacyPolicy : Type 0 where
  pub mode : PrivacyMode
  pub network_allowed : Bool
  pub raw_text_logging : Bool
  pub detector_cache_enabled : Bool
  pub obsidian_projection_auto : Bool
  pub retention_enforced : Bool
  pub encrypt_sensitive_fields : Bool

pub data PrivacyError : Type 0 where
  no_modes_object : PrivacyError
  invalid_entry : PrivacyError
  not_boolean : (name key : Text) → PrivacyError
  unknown_mode : Text → PrivacyError

unfoldable pub mode_value : PrivacyMode → Text
mode_value strict_local = codes "strict_local"
mode_value private_audited = codes "private_audited"
mode_value regulated = codes "regulated"

-- `PrivacyMode(name)`
unfoldable pub mode_of : Text → Option PrivacyMode
unfolding text_eq
mode_of name =
    if text_eq name (codes "strict_local")
    then some strict_local
    else if text_eq name (codes "private_audited")
    then some private_audited
    else if text_eq name (codes "regulated")
    then some regulated
    else none

-- The flags of one entry, in the order of `_FLAG_KEYS`.
pub record ModeFlags : Type 0 where
  pub network_allowed : Bool
  pub raw_text_logging : Bool
  pub detector_cache_enabled : Bool
  pub obsidian_projection_auto : Bool
  pub retention_enforced : Bool
  pub encrypt_sensitive_fields : Bool

unfoldable pub flag : Text → Fields → Text → Result PrivacyError Bool
flag name entry key = or_raise (as_bool (get key entry)) (not_boolean name key)

unfoldable pub mode_flags : Text → Fields → Result PrivacyError ModeFlags
mode_flags name entry = do
  network ← flag name entry (codes "network_allowed")
  logging ← flag name entry (codes "raw_text_logging")
  cache ← flag name entry (codes "detector_cache_enabled")
  obsidian ← flag name entry (codes "obsidian_projection_auto")
  retention ← flag name entry (codes "retention_enforced")
  encrypt ← flag name entry (codes "encrypt_sensitive_fields")
  ok (record {
    network_allowed = network;
    raw_text_logging = logging;
    detector_cache_enabled = cache;
    obsidian_projection_auto = obsidian;
    retention_enforced = retention;
    encrypt_sensitive_fields = encrypt;
  })

unfoldable pub parse_modes : Fields → Result PrivacyError (List (Text × ModeFlags))
parse_modes end = ok []
parse_modes (field name (obj entry) rest) = do
  flags ← mode_flags name entry
  others ← parse_modes rest
  ok ((name, flags) ∷ others)
parse_modes (field name _ rest) = err invalid_entry

unfoldable pub validate_mode_resource : Value → Result PrivacyError (List (Text × ModeFlags))
validate_mode_resource (obj modes) = parse_modes modes
validate_mode_resource _ = err no_modes_object

unfoldable pub flags_of : Text → List (Text × ModeFlags) → Option ModeFlags
flags_of name [] = none
flags_of name ((n, flags) ∷ rest) =
    let others = flags_of name rest in if text_eq name n then some flags else others

unfoldable pub privacy_policy_from_modes : Text → Value → Result PrivacyError PrivacyPolicy
privacy_policy_from_modes mode_name modes = do
  parsed ← validate_mode_resource modes
  raw ← or_raise (flags_of mode_name parsed) (unknown_mode mode_name)
  mode ← or_raise (mode_of mode_name) (unknown_mode mode_name)
  ok (record {
    mode = mode;
    network_allowed = raw.network_allowed;
    raw_text_logging = false;
    detector_cache_enabled = raw.detector_cache_enabled;
    obsidian_projection_auto = false;
    retention_enforced = raw.retention_enforced;
    encrypt_sensitive_fields = raw.encrypt_sensitive_fields;
  })

unfoldable pub default_entry : (network logging cache obsidian retention encrypt : Bool) → Value
default_entry network logging cache obsidian retention encrypt = obj (
    field (codes "network_allowed") (bool network) (
      field (codes "raw_text_logging") (bool logging) (
        field (codes "detector_cache_enabled") (bool cache) (
          field (codes "obsidian_projection_auto") (bool obsidian) (
            field (codes "retention_enforced") (bool retention)
              (field (codes "encrypt_sensitive_fields") (bool encrypt) end))))))

-- `_DEFAULT_MODES`
unfoldable pub default_modes : Value
unfolding default_entry
default_modes = obj (
    field (codes "strict_local") (default_entry false false false false true true) (
      field (codes "private_audited") (default_entry true false true false false false)
        (field (codes "regulated") (default_entry true false false false true true) end)))

unfoldable pub load_privacy_policy : Text → Result PrivacyError PrivacyPolicy
load_privacy_policy mode = privacy_policy_from_modes mode default_modes

unfoldable pub validate_network_use : PrivacyPolicy → (would_use_network : Bool) → List Text
validate_network_use policy would_use_network =
    if would_use_network && not policy.network_allowed
    then codes "network_use_forbidden" ∷ []
    else []

unfoldable pub validate_cache_use : PrivacyPolicy → (cache_would_be_used : Bool) → List Text
validate_cache_use policy cache_would_be_used =
    if cache_would_be_used && not policy.detector_cache_enabled
    then codes "cache_use_forbidden" ∷ []
    else []

pub record RetentionPolicy : Type 0 where
  pub enabled : Bool
  pub max_age_days : ℕ
  pub scopes : List Text

unfoldable pub retention_policy_for : PrivacyPolicy → RetentionPolicy
retention_policy_for privacy = record {
  enabled = privacy.retention_enforced;
  max_age_days = 30;
  scopes = codes "cache" ∷ codes "reports" ∷ [];
}
