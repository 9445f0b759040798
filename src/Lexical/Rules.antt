-- ===== src/Lexical/Rules.antt =====
-- Rules, their precedences and the choice among them: src/humanhand/domain/lexical_types.py,
-- lexical_rules.py and `resolve_precedence` of lexical_context.py. `lower` stands for `str.lower`. A
-- confidence is kept in millionths; a rule's constructor refuses one above 1.
pub mod Payload
pub mod Select
use human_hand.Prelude.{
  ℕ, ◌+◌, Bool, true, false, ◌&&◌, ◌||◌, Option, none, some, List, [], ◌∷◌, ◌==◌, ltb, leb, any,
  select, is_nil, reverse, Text, codes, text_eq, starts_with, ends_with, text_lt, if◌then◌else◌,
  Result, raise_if, ok, err, ◌>>◌, ◌>>=◌,
}

pub data LexicalPrecedence : Type 0 where
  protected_span user_preference project_glossary register_evidence : LexicalPrecedence
  domain_glossary curated_rule licensed_resource no_change : LexicalPrecedence

unfoldable pub precedence_value : LexicalPrecedence → Text
precedence_value protected_span = codes "protected_span"
precedence_value user_preference = codes "user_preference"
precedence_value project_glossary = codes "project_glossary"
precedence_value register_evidence = codes "register_evidence"
precedence_value domain_glossary = codes "domain_glossary"
precedence_value curated_rule = codes "curated_rule"
precedence_value licensed_resource = codes "licensed_resource"
precedence_value no_change = codes "no_change"

-- Strongest first.
abbrev pub precedence_order : List LexicalPrecedence
precedence_order =
    protected_span ∷ user_preference ∷ project_glossary ∷ register_evidence ∷ domain_glossary
    ∷ curated_rule ∷ licensed_resource ∷ no_change ∷ []

-- `LexicalPrecedence(value)`: the member with that value.
unfoldable pub find_value : Text → List LexicalPrecedence → Option LexicalPrecedence
find_value value [] = none
find_value value (p ∷ rest) =
    let found = find_value value rest in
    if text_eq value (precedence_value p) then some p else found

unfoldable pub precedence_of : Text → Option LexicalPrecedence
unfolding find_value
precedence_of value = find_value value precedence_order

-- `PRECEDENCE_ORDER.index(precedence)`; what is not in the order gets its length.
unfoldable pub index_of : LexicalPrecedence → List LexicalPrecedence → ℕ
index_of precedence [] = 0
index_of precedence (p ∷ rest) =
    let later = index_of precedence rest + 1 in
    if text_eq (precedence_value precedence) (precedence_value p) then 0 else later

unfoldable pub precedence_rank : LexicalPrecedence → ℕ
unfolding index_of
precedence_rank precedence = index_of precedence precedence_order

pub record LexicalRule : Type 0 where
  pub rule_id : Text
  pub source_token : Text
  pub target_token : Text
  pub sense : Text
  pub precedence : LexicalPrecedence
  pub confidence : ℕ
  pub provenance : Text

pub record RulesetVersion : Type 0 where
  pub version : Text
  pub rules : List LexicalRule

unfoldable pub token_to_lemma : (lower : Text → Text) → (token : Text) → Text
token_to_lemma lower token = lower token

unfoldable pub rule_applies : LexicalRule → (lemma : Text) → Bool
rule_applies rule lemma = text_eq rule.source_token lemma

-- `(rank, rule_id)` of `a` is below that of `b`.
unfoldable pub key_lt : LexicalRule → LexicalRule → Bool
key_lt a b =
    let rank_a = precedence_rank a.precedence in
    let rank_b = precedence_rank b.precedence in
    ltb rank_a rank_b || rank_a == rank_b && text_lt a.rule_id b.rule_id

-- Python's `min(matches, key=...)`: the first of the least, from the left.
unfoldable pub least : LexicalRule → List LexicalRule → LexicalRule
least best [] = best
least best (rule ∷ rest) = least (if key_lt rule best then rule else best) rest

unfoldable pub select_rule_for_lemma : List LexicalRule → (lemma : Text) → Option LexicalRule
select_rule_for_lemma rules lemma = elim (select (λ rule. rule_applies rule lemma) rules) [
  | [] ↦ none
  | rule ∷ rest ↦ some (least rule rest)
]

unfoldable pub estimate_part_of_speech : (lower : Text → Text) → (token : Text) → Text
estimate_part_of_speech lower token =
    let word = lower token in
    if ends_with (codes "ing") word || ends_with (codes "ed") word
    then codes "verb"
    else if ends_with (codes "ly") word
    then codes "adverb"
    else if ends_with (codes "tion") word
        || ends_with (codes "ment") word
        || ends_with (codes "ness") word
    then codes "noun"
    else if ends_with (codes "ous") word
        || ends_with (codes "ive") word
        || ends_with (codes "al") word
    then codes "adjective"
    else codes "other"

unfoldable pub resolve_precedence :
    (in_protected_span : Bool)
    → (rule user_preference project_glossary register_rule domain_glossary : Option LexicalRule)
    → LexicalPrecedence
resolve_precedence true rule user project register domain = protected_span
resolve_precedence false rule (some _) project register domain = user_preference
resolve_precedence false rule none (some _) register domain = project_glossary
resolve_precedence false rule none none (some _) domain = register_evidence
resolve_precedence false rule none none none (some _) = domain_glossary
resolve_precedence false (some rule) none none none none = rule.precedence
resolve_precedence false none none none none none = no_change
