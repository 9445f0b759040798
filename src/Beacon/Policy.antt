-- ===== src/Beacon/Policy.antt =====
-- src/humanhand/domain/beacon_policy.py: the policy firewall. A frozen set is the list of its elements;
-- `repr` is Python's.
pub mod Firewall
use human_hand.Prelude.{
  ℕ, Bool, true, false, not, ◌||◌, Option, none, some, List, [], ◌∷◌, ◌++◌, is_nil, Text, codes,
  text_eq, contains, Result, ok, err, ◌>>=◌, ◌>>◌, raise_if, or_raise, if◌then◌else◌,
}
use human_hand.Json.{Value, obj, Fields, end, field, get, is_text, is_one, as_str, as_obj}
use human_hand.Transform.{same_set}
use human_hand.Beacon.{policy_reviewed, BeaconError, invalid_resource, join, is_blank}
use human_hand.Beacon.Proposal.{
  ProposalKind, metadata_field, container_mechanism, provenance_standard, telemetry_change,
  parser_exporter_change, privacy_technique, scanner_benchmark_change, BeaconProposal,
}

-- `_KIND_TO_CATEGORY`, which has every kind.
unfoldable pub action_category_for_kind : ProposalKind → Text
action_category_for_kind metadata_field = codes "metadata_field_addition"
action_category_for_kind container_mechanism = codes "container_mechanism_research"
action_category_for_kind provenance_standard = codes "provenance_standard_research"
action_category_for_kind telemetry_change = codes "telemetry_documentation"
action_category_for_kind parser_exporter_change = codes "dependency_update_proposal"
action_category_for_kind privacy_technique = codes "privacy_technique_research"
action_category_for_kind scanner_benchmark_change = codes "scanner_benchmark"

pub record BeaconPolicyDecision : Type 0 where
  pub decision : Text
  pub reasons : List Text

module _ (repr : Text → Text) where
  unfoldable pub policy_decision_for_category :
      (category : Text) → (allowed_actions blocked_actions : List Text) → BeaconPolicyDecision
  policy_decision_for_category category allowed_actions blocked_actions =
      let named = codes "action category " ++ repr category in
      if contains category blocked_actions
      then record {
        decision = codes "block";
        reasons = (named ++ codes " is blocked by policy") ∷ [];
      }
      else if contains category allowed_actions
      then record {
        decision = codes "allow";
        reasons = (named ++ codes " is allowed by policy") ∷ [];
      }
      else record {
        decision = codes "block";
        reasons = (named ++ codes " is not in the allowed or blocked action sets") ∷ [];
      }

  unfoldable pub policy_note_for : (policy_mode category : Text) → BeaconPolicyDecision → Text
  policy_note_for policy_mode category decision =
      let parts =
        (codes "policy_mode=" ++ policy_mode)
        ∷ (codes "decision=" ++ decision.decision)
        ∷ (codes "action_category=" ++ repr category)
        ∷ [] in
      let reasons = codes "reasons: " ++ join (codes "; ") decision.reasons in
      join (codes "; ") (if is_nil decision.reasons then parts else parts ++ (reasons ∷ []))

  unfoldable pub review_proposal :
      BeaconProposal
      → (allowed_actions blocked_actions : List Text) → (policy_mode : Text) → BeaconProposal
  review_proposal proposal allowed_actions blocked_actions policy_mode =
      let category = action_category_for_kind proposal.kind in
      let decision = policy_decision_for_category category allowed_actions blocked_actions in
      record proposal {
        status = policy_reviewed;
        blocked_action = contains category blocked_actions;
        policy_note = policy_note_for policy_mode category decision;
      }

-- `set(resource)`
unfoldable pub keys : Fields → List Text
keys end = []
keys (field key value rest) = key ∷ keys rest

module _ (is_space : ℕ → Bool) where
  -- One round of the loop of `_resource_descriptions`.
  unfoldable pub entry_description : (entry_name : Text) → Value → Result BeaconError Text
  entry_description entry_name value = do
    raise_if (is_nil entry_name) (invalid_resource (codes "entry name"))
    entry ← or_raise (as_obj (some value)) (invalid_resource entry_name)
    raise_if (not (same_set (keys entry) (codes "description" ∷ codes "provenance" ∷ [])))
        (invalid_resource entry_name)
    description ← or_raise (as_str (get (codes "description") entry)) (invalid_resource entry_name)
    raise_if (is_blank is_space description) (invalid_resource entry_name)
    raise_if (not (is_text (codes "curated-in-repo") (get (codes "provenance") entry)))
        (invalid_resource entry_name)
    ok description

  unfoldable pub descriptions : Fields → Result BeaconError (List (Text × Text))
  descriptions end = ok []
  descriptions (field entry_name value rest) = do
    description ← entry_description entry_name value
    others ← descriptions rest
    ok ((entry_name, description) ∷ others)

  unfoldable pub is_empty : Fields → Bool
  is_empty end = true
  is_empty (field key value rest) = false

  unfoldable pub resource_descriptions :
      Fields → (section schema : Text) → Result BeaconError (List (Text × Text))
  resource_descriptions resource section schema = do
    raise_if
        (not (same_set (keys resource) (codes "schema" ∷ codes "schema_version" ∷ section ∷ [])))
        (invalid_resource (codes "fields"))
    raise_if
        (not (is_text schema (get (codes "schema") resource))
          || not (is_one (get (codes "schema_version") resource)))
        (invalid_resource (codes "schema"))
    raw ← or_raise (as_obj (get section resource)) (invalid_resource section)
    raise_if (is_empty raw) (invalid_resource section)
    descriptions raw

  unfoldable pub load_allowed_actions_from_resource :
      Fields → Result BeaconError (List (Text × Text))
  load_allowed_actions_from_resource resource =
      resource_descriptions resource (codes "actions") (codes "beacon-allowed-actions")

  unfoldable pub load_blocked_actions_from_resource :
      Fields → Result BeaconError (List (Text × Text))
  load_blocked_actions_from_resource resource =
      resource_descriptions resource (codes "actions") (codes "beacon-blocked-actions")

  unfoldable pub load_trust_tiers_from_resource : Fields → Result BeaconError (List (Text × Text))
  load_trust_tiers_from_resource resource =
      resource_descriptions resource (codes "tiers") (codes "beacon-trusted-source-tiers")
