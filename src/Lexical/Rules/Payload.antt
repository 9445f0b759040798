-- ===== src/Lexical/Rules/Payload.antt =====
-- The payloads of a ruleset and of the bundled resources (lexical_types.py). A payload is a Python dict:
-- no key occurs twice in it. The error carries the key or the field it is about.
pub mod RoundTrip
use human_hand.Prelude.{
  ℕ, ◌+◌, Bool, true, false, not, ◌&&◌, ◌||◌, Option, none, some, List, [], ◌∷◌, leb, any, all,
  is_nil, Text, codes, text_eq, contains, Result, ok, err, ◌>>=◌, ◌>>◌, raise_if, or_raise,
}
use human_hand.Prelude.Int.{ℤ, pos, negsuc}
use human_hand.Json.{
  Value, int, float, str, arr, obj, Items, nil, cons, Fields, end, field, items, get, is_one,
  as_str, as_arr, as_obj, as_number,
}
use human_hand.Lexical.Rules.{
  LexicalPrecedence, curated_rule, precedence_value, precedence_of, LexicalRule, RulesetVersion,
}

pub data RulesetError : Type 0 where
  unexpected_key missing_key : (key : Text) → RulesetError
  invalid : (key : Text) → RulesetError
  invalid_rule : (index : ℕ) → RulesetError
  duplicate_rule_id : Text → RulesetError
  unknown_domain : Text → RulesetError
  invalid_term : (index : ℕ) → RulesetError
  confidence_out_of_range : (rule_id : Text) → RulesetError

unfoldable pub expect_string : Fields → (key : Text) → Result RulesetError Text
expect_string payload key = or_raise (as_str (get key payload)) (invalid key)

unfoldable pub expect_number : Fields → (key : Text) → Result RulesetError ℤ
expect_number payload key = or_raise (as_number (get key payload)) (invalid key)

-- The first loop of `_expect_keys`, over the keys of the payload.
unfoldable pub no_unexpected : Fields → (expected : List Text) → Result RulesetError (Unit {0})
no_unexpected end expected = ok tt
no_unexpected (field key _ rest) expected = do
  raise_if (not (contains key expected)) (unexpected_key key)
  no_unexpected rest expected

-- The second loop of `_expect_keys`, over the expected keys.
unfoldable pub none_missing : Fields → (expected : List Text) → Result RulesetError (Unit {0})
none_missing payload [] = ok tt
none_missing payload (key ∷ rest) = elim (get key payload) [
  | none ↦ err (missing_key key)
  | some _ ↦ none_missing payload rest
]

unfoldable pub expect_keys : Fields → (expected : List Text) → Result RulesetError (Unit {0})
expect_keys payload expected = do no_unexpected payload expected; none_missing payload expected

-- `LexicalRule(...)`, with the check of its `__post_init__`.
unfoldable pub lexical_rule :
    (rule_id source_token target_token sense : Text)
    → LexicalPrecedence
    → (confidence : ℤ) → (provenance : Text) → Result RulesetError LexicalRule
lexical_rule rule_id source_token target_token sense precedence (negsuc n) provenance =
    err (confidence_out_of_range rule_id)
lexical_rule rule_id source_token target_token sense precedence (pos confidence) provenance = do
  raise_if (not (leb confidence 1000000)) (confidence_out_of_range rule_id)
  ok (record {
    rule_id = rule_id;
    source_token = source_token;
    target_token = target_token;
    sense = sense;
    precedence = precedence;
    confidence = confidence;
    provenance = provenance;
  })

abbrev pub rule_fields : List Text
rule_fields =
    codes "rule_id"
    ∷ codes "source_token"
    ∷ codes "target_token"
    ∷ codes "sense"
    ∷ codes "precedence"
    ∷ codes "confidence"
    ∷ codes "provenance"
    ∷ []

unfoldable pub rule_payload : LexicalRule → Value
rule_payload rule = obj (
    field (codes "rule_id") (str rule.rule_id) (
      field (codes "source_token") (str rule.source_token) (
        field (codes "target_token") (str rule.target_token) (
          field (codes "sense") (str rule.sense) (
            field (codes "precedence") (str (precedence_value rule.precedence)) (
              field (codes "confidence") (float rule.confidence)
                (field (codes "provenance") (str rule.provenance) end)))))))

unfoldable pub ruleset_to_payload : RulesetVersion → Fields
ruleset_to_payload rules_version = field (codes "schema") (str (codes "lexicon")) (
    field (codes "schema_version") (int (pos 1)) (
      field (codes "version") (str rules_version.version)
        (field (codes "rules") (arr (items rule_payload rules_version.rules)) end)))

-- `RulesetVersion.hash`
unfoldable pub ruleset_hash : (sha256 : Text → Text) (dumps : Value → Text) → RulesetVersion → Text
ruleset_hash sha256 dumps rules_version = sha256 (dumps (obj (ruleset_to_payload rules_version)))

-- One round of the loop of `ruleset_from_payload`, for an object.
unfoldable pub rule_from_payload : (index : ℕ) → Fields → Result RulesetError LexicalRule
rule_from_payload index raw = do
  expect_keys raw rule_fields
  raw_precedence ← expect_string raw (codes "precedence")
  precedence ← or_raise (precedence_of raw_precedence) (invalid (codes "precedence"))
  rule_id ← expect_string raw (codes "rule_id")
  source_token ← expect_string raw (codes "source_token")
  target_token ← expect_string raw (codes "target_token")
  sense ← expect_string raw (codes "sense")
  provenance ← expect_string raw (codes "provenance")
  raise_if
      (is_nil rule_id
        || is_nil source_token
        || is_nil target_token
        || is_nil sense
        || is_nil provenance)
      (invalid_rule index)
  confidence ← expect_number raw (codes "confidence")
  lexical_rule rule_id source_token target_token sense precedence confidence provenance

unfoldable pub rules_from_payload : (index : ℕ) → Items → Result RulesetError (List LexicalRule)
rules_from_payload index nil = ok []
rules_from_payload index (cons (obj raw) rest) = do
  rule ← rule_from_payload index raw
  rules ← rules_from_payload (index + 1) rest
  ok (rule ∷ rules)
rules_from_payload index (cons _ rest) = err (invalid_rule index)

unfoldable pub ruleset_from_payload : Fields → Result RulesetError RulesetVersion
ruleset_from_payload payload = do
  expect_keys payload
      (codes "schema" ∷ codes "schema_version" ∷ codes "version" ∷ codes "rules" ∷ [])
  schema ← expect_string payload (codes "schema")
  raise_if (not (text_eq schema (codes "lexicon"))) (invalid (codes "schema"))
  raise_if (not (is_one (get (codes "schema_version") payload))) (invalid (codes "schema_version"))
  version ← expect_string payload (codes "version")
  raise_if (is_nil version) (invalid (codes "version"))
  raw_rules ← or_raise (as_arr (get (codes "rules") payload)) (invalid (codes "rules"))
  rules ← rules_from_payload 0 raw_rules
  ok (record { version = version; rules = rules })

unfoldable pub validate_resource_metadata : Fields → Result RulesetError (Unit {0})
validate_resource_metadata payload = do
  schema ← expect_string payload (codes "schema")
  raise_if (not (text_eq schema (codes "lexicon"))) (invalid (codes "schema"))
  raise_if (not (is_one (get (codes "schema_version") payload))) (invalid (codes "schema_version"))
  provenance ← expect_string payload (codes "provenance")
  raise_if (not (text_eq provenance (codes "curated-in-repo"))) (invalid (codes "provenance"))
  license_note ← expect_string payload (codes "license")
  raise_if (is_nil license_note) (invalid (codes "license"))

-- One round of the loop of `ruleset_from_resource`, for an object.
unfoldable pub rule_from_resource :
    (lower : Text → Text)
    → (index : ℕ) (seen_ids : List Text) → Fields
    → Result RulesetError LexicalRule
rule_from_resource lower index seen_ids raw = do
  rule_id ← expect_string raw (codes "rule_id")
  raise_if (contains rule_id seen_ids) (duplicate_rule_id rule_id)
  source_token ← expect_string raw (codes "source_token")
  target_token ← expect_string raw (codes "target_token")
  sense ← expect_string raw (codes "sense")
  raise_if (is_nil rule_id || is_nil source_token || is_nil target_token || is_nil sense)
      (invalid_rule index)
  confidence ← expect_number raw (codes "confidence")
  lexical_rule rule_id (lower source_token) (lower target_token) sense curated_rule confidence
      (codes "curated-in-repo")

unfoldable pub rules_from_resource :
    (lower : Text → Text)
    → (index : ℕ) (seen_ids : List Text) → Items
    → Result RulesetError (List LexicalRule)
rules_from_resource lower index seen_ids nil = ok []
rules_from_resource lower index seen_ids (cons (obj raw) rest) = do
  rule ← rule_from_resource lower index seen_ids raw
  rules ← rules_from_resource lower (index + 1) (rule.rule_id ∷ seen_ids) rest
  ok (rule ∷ rules)
rules_from_resource lower index seen_ids (cons _ rest) = err (invalid_rule index)

unfoldable pub ruleset_from_resource :
    (lower : Text → Text) → Fields → Result RulesetError RulesetVersion
ruleset_from_resource lower payload = do
  validate_resource_metadata payload
  version ← expect_string payload (codes "version")
  raise_if (is_nil version) (invalid (codes "version"))
  raw_rules ← or_raise (as_arr (get (codes "rules") payload)) (invalid (codes "rules"))
  rules ← rules_from_resource lower 0 [] raw_rules
  ok (record { version = version; rules = rules })

unfoldable pub terms_of : (index : ℕ) → Items → Result RulesetError (List Text)
terms_of index nil = ok []
terms_of index (cons (str raw) rest) = do
  raise_if (is_nil raw) (invalid_term index)
  terms ← terms_of (index + 1) rest
  ok (raw ∷ terms)
terms_of index (cons _ rest) = err (invalid_term index)

-- The answer stands for a frozen set.
unfoldable pub protected_terms_from_resource : Fields → Result RulesetError (List Text)
protected_terms_from_resource payload = do
  domain ← expect_string payload (codes "domain")
  raise_if (not (contains domain (codes "general" ∷ codes "medical" ∷ codes "legal" ∷ [])))
      (unknown_domain domain)
  validate_resource_metadata payload
  declared_domain ← expect_string payload (codes "domain")
  raise_if (not (text_eq declared_domain domain)) (invalid (codes "domain"))
  raw_terms ← or_raise (as_arr (get (codes "terms") payload)) (invalid (codes "terms"))
  terms_of 0 raw_terms
