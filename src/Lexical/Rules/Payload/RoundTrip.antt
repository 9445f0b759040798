-- ===== src/Lexical/Rules/Payload/RoundTrip.antt =====
-- A ruleset, written to its payload and read (lexical_types.py).
use human_hand.Prelude.{
  ℕ, ◌+◌, ◌≡◌, refl, true, false, some, List, [], ◌∷◌, leb, is_nil, All, any, text_eq, contains, ok,
}
use human_hand.Json.{items, get, is_one, as_str, as_arr, as_number}
use human_hand.Lexical.Rules.{
  LexicalPrecedence, precedence_value, precedence_of, find_value, LexicalRule, RulesetVersion,
  protected_span, user_preference, project_glossary, register_evidence, domain_glossary,
  curated_rule, licensed_resource, no_change,
}
use human_hand.Lexical.Rules.Payload.{
  expect_string, expect_number, no_unexpected, none_missing, expect_keys, lexical_rule,
  rule_payload, ruleset_to_payload, rule_from_payload, rules_from_payload, ruleset_from_payload,
}

pub precedence_of-value : (p : LexicalPrecedence) → precedence_of (precedence_value p) ≡ some p
unfolding precedence_of precedence_value find_value text_eq
precedence_of-value protected_span = refl
precedence_of-value user_preference = refl
precedence_of-value project_glossary = refl
precedence_of-value register_evidence = refl
precedence_of-value domain_glossary = refl
precedence_of-value curated_rule = refl
precedence_of-value licensed_resource = refl
precedence_of-value no_change = refl

-- A rule with a confidence of at most 1 and no empty field.
abbrev pub IsComplete : LexicalRule → Type 0
IsComplete rule =
    (is_nil rule.rule_id ≡ false)
    × (is_nil rule.source_token ≡ false)
    × (is_nil rule.target_token ≡ false)
    × (is_nil rule.sense ≡ false)
    × (is_nil rule.provenance ≡ false)
    × (leb rule.confidence 1000000 ≡ true)

rules_from_payload-items :
    (index : ℕ) (rules : List LexicalRule)
    → All IsComplete rules
    → rules_from_payload index (items rule_payload rules) ≡ ok rules
unfolding rules_from_payload rule_from_payload items rule_payload expect_keys no_unexpected
    none_missing contains any text_eq expect_string expect_number get as_str as_number lexical_rule
rules_from_payload-items index [] h = refl
rules_from_payload-items index (rule ∷ rules) ((a, b, c, d, e, f), h) = rw (
  precedence_of-value rule.precedence,
  a,
  b,
  c,
  d,
  e,
  f,
  rules_from_payload-items (index + 1) rules h,
)

-- A ruleset with a version, whose rules have no empty field and a confidence of at most 1, is read back
-- from its payload unchanged.
ruleset_from_payload-to_payload :
    (version : RulesetVersion)
    → is_nil version.version ≡ false
    → All IsComplete version.rules
    → ruleset_from_payload (ruleset_to_payload version) ≡ ok version
unfolding ruleset_from_payload ruleset_to_payload expect_keys no_unexpected none_missing contains
    any text_eq expect_string get as_str as_arr is_one
ruleset_from_payload-to_payload version h complete =
    rw (h, rules_from_payload-items 0 version.rules complete)
