-- ===== src/Lexical/Choice.antt =====
-- The rule behind a token (lexical_normalizer.py): the helpers of `propose_changes` that match a surface,
-- find the rules for its lemma and choose among them. Confidences are in millionths. A frozen set is a
-- list without doubles: nothing read from it depends on the order.
use human_hand.Prelude.{
  Bool, true, false, not, ◌&&◌, ◌||◌, Option, none, some, List, [], ◌∷◌, ◌++◌, map, any, select,
  length, is_nil, Text, codes, text_eq, contains, ends_with, take, ◌-◌, if◌then◌else◌, Result, ok,
  or_raise,
}
use human_hand.Prelude.Int.{ℤ, pos, ◌+ℤ◌}
use human_hand.Lexical.Context.{LexicalContext, has_space}
use human_hand.Lexical.Rules.{
  LexicalPrecedence, user_preference, project_glossary, register_evidence, domain_glossary,
  no_change, LexicalRule, RulesetVersion, rule_applies, select_rule_for_lemma, resolve_precedence,
}
use human_hand.Lexical.Words.{Chars, is_punctuation, strip, find}
use human_hand.Spans.{ProtectedSpan}

pub data ProposeError : Type 0 where
  threshold_out_of_range : ℤ → ProposeError
  empty_ruleset : ProposeError
  context_outside : (offset : ℤ) → ProposeError
  no_winning_rule : ProposeError

-- The arguments of `propose_changes`. The keys of the preferences are distinct.
pub record Request : Type 0 where
  pub text : Text
  pub ruleset_version : RulesetVersion
  pub contexts : List LexicalContext
  pub user_preferences : List (Text × Text)
  pub glossary : List LexicalRule
  pub register_rules : List LexicalRule
  pub domain_rules : List LexicalRule
  pub safe_threshold : ℤ
  pub protected_spans : List ProtectedSpan
  pub left_window : Text
  pub right_window : Text

unfoldable pub preference_of : List (Text × Text) → (lemma : Text) → Option Text
preference_of [] lemma = none
preference_of ((key, target) ∷ rest) lemma =
    let later = preference_of rest lemma in if text_eq key lemma then some target else later

unfoldable pub user_preference_rule : (lemma : Text) → List (Text × Text) → Option LexicalRule
user_preference_rule lemma preferences = elim (preference_of preferences lemma) [
  | none ↦ none
  | some target ↦ some (record {
    rule_id = codes "user-preference";
    source_token = lemma;
    target_token = target;
    sense = codes "";
    precedence = user_preference;
    confidence = 1000000;
    provenance = codes "user-preference";
  })
]

-- The rules that `propose_changes` found for a lemma, one of each source.
pub record Found : Type 0 where
  pub base : Option LexicalRule
  pub preferred : Option LexicalRule
  pub project : Option LexicalRule
  pub register : Option LexicalRule
  pub domain : Option LexicalRule

unfoldable pub found_for : Request → (lemma : Text) → Found
found_for request lemma = record {
  base = select_rule_for_lemma request.ruleset_version.rules lemma;
  preferred = user_preference_rule lemma request.user_preferences;
  project = select_rule_for_lemma request.glossary lemma;
  register = select_rule_for_lemma request.register_rules lemma;
  domain = select_rule_for_lemma request.domain_rules lemma;
}

unfoldable pub precedence_for : Found → LexicalPrecedence
precedence_for found =
    resolve_precedence false found.base found.preferred found.project found.register found.domain

-- The last lines of `_winning_rule`.
unfoldable pub base_or_raise : Option LexicalRule → Result ProposeError LexicalRule
base_or_raise base = or_raise base no_winning_rule

unfoldable pub rule_or_base : (source base : Option LexicalRule) → Result ProposeError LexicalRule
unfolding base_or_raise
rule_or_base none base = base_or_raise base
rule_or_base (some rule) base = ok rule

unfoldable pub winning_rule : LexicalPrecedence → Found → Result ProposeError LexicalRule
winning_rule user_preference found = rule_or_base found.preferred found.base
winning_rule project_glossary found = rule_or_base found.project found.base
winning_rule register_evidence found = rule_or_base found.register found.base
winning_rule domain_glossary found = rule_or_base found.domain found.base
winning_rule _ found = base_or_raise found.base

unfoldable pub matching_rules_at_precedence :
    Request → (lemma : Text) → LexicalPrecedence → Found → List LexicalRule
matching_rules_at_precedence request lemma precedence found =
    let matching : List LexicalRule → List LexicalRule =
      λ rules. select (λ r. rule_applies r lemma) rules in
    elim precedence [
      | user_preference ↦ elim found.preferred [ none ↦ [] | some rule ↦ rule ∷ [] ]
      | project_glossary ↦ matching request.glossary
      | register_evidence ↦ matching request.register_rules
      | domain_glossary ↦ matching request.domain_rules
      | _ ↦ matching request.ruleset_version.rules
    ]

-- `frozenset(...)` of texts.
unfoldable pub distinct : List Text → List Text
distinct [] = []
distinct (t ∷ rest) = let others = distinct rest in if contains t others then others else t ∷ others

-- More than one pair of a target and a sense.
unfoldable pub is_ambiguous : List LexicalRule → Bool
is_ambiguous [] = false
is_ambiguous (r ∷ rest) =
    any (λ q. not (text_eq q.target_token r.target_token && text_eq q.sense r.sense)) rest

unfoldable pub surface_index : Request → List Text
surface_index request =
    let sources : List LexicalRule → List Text = λ rules. map (λ r. r.source_token) rules in
    distinct (
      map (λ p. p.0) request.user_preferences
      ++ sources request.ruleset_version.rules
      ++ sources request.glossary
      ++ sources request.register_rules
      ++ sources request.domain_rules)

-- The only element, if there is one and no other.
unfoldable pub only_one : List Text → Option Text
only_one (t ∷ []) = some t
only_one _ = none

unfoldable pub is_no_change : LexicalPrecedence → Bool
is_no_change no_change = true
is_no_change _ = false

module _ (chars : Chars) where
  -- `lowered in {ing, ed}` for a source without a space.
  unfoldable pub is_inflection_of : (lowered source : Text) → Bool
  is_inflection_of lowered source =
      let source_lower = chars.lower source in
      let silent_e = ends_with (codes "e") source_lower in
      let stem = if silent_e then take (length source_lower - 1) source_lower else source_lower in
      not (has_space source)
      && (text_eq lowered (stem ++ codes "ing")
          || text_eq lowered (source_lower ++ (if silent_e then codes "d" else codes "ed")))

  -- The source token that a core stands for, if exactly one does.
  unfoldable pub source_of : (source_tokens : List Text) (core : Text) → Option Text
  source_of source_tokens core =
      let lowered = chars.lower core in
      elim (only_one (select (λ s. text_eq (chars.lower s) lowered) source_tokens)) [
        | some source ↦ some source
        | none ↦ only_one (select (is_inflection_of lowered) source_tokens)
      ]

  unfoldable pub match_surface :
      LexicalContext → (source_tokens : List Text) → Option (Text × Text × ℤ)
  match_surface context source_tokens =
      let core = strip is_punctuation context.token in
      let offset = pos context.offset +ℤ find core context.token in
      if is_nil core then none else elim (source_of source_tokens core) [
        | none ↦ none
        | some source ↦ some (core, source, offset)
      ]
