-- ===== src/Lexical/Propose/Tests.antt =====
-- A concrete proposal (lexical_normalizer.py): one curated rule on a sentence. Every text has the same
-- hash here.
use mathlib.Core.List.{Memᴰ}
use human_hand.Prelude.{
  AllFrom, ℕ, ◌+◌, ◌-◌, ◌≡◌, refl, Bool, true, ◌&&◌, List, [], ◌∷◌, ◌==◌, leb, map, if◌then◌else◌,
  Text, codes, text_eq, contains, any, all, select, starts_with, ends_with, text_lt, ok, err,
}
use human_hand.Prelude.Sort
use human_hand.Prelude.Int.{pos, ◌+ℤ◌}
use human_hand.Json.{Value}
use human_hand.Lexical.{safe, LexicalChange, LexicalProposal}
use human_hand.Lexical.Choice.{
  Request, preference_of, user_preference_rule, found_for, precedence_for, base_or_raise,
  rule_or_base, winning_rule, matching_rules_at_precedence, distinct, is_ambiguous, surface_index,
  only_one, is_no_change, is_inflection_of, source_of, match_surface,
}
use human_hand.Lexical.Collocations.{
  is_forbidden, bigrams, first_is, tokens, lowered, collocation_preserved,
}
use human_hand.Lexical.Context.{
  build_contexts, contexts_from, join_words, covered_ids, context_in_protected_span, ranges_overlap,
  overlaps_any, overlapping_spans, phrase_le, phrases_of, phrases_from, context_le, has_space,
  contexts_with_multiword_candidates,
}
use human_hand.Lexical.Inflection.{
  class_of_cased, case_class, apply_case, inflected_form, inflect_target,
}
use human_hand.Lexical.Payload.{compute_run_id}
use human_hand.Lexical.Payload.Proposal.{
  ProposalError, is_sha256_hex, within, proposal_to_payload, proposal_from_payload,
}
use human_hand.Lexical.Propose.{
  inside, window_or, status_for, added, counted, change_for, decide, consider, propose_loop,
  propose_changes,
}
use human_hand.Lexical.Propose.Safety.{
  IsWithin, IsFromRules, propose_changes-IsWithin, propose_changes-IsFromRules,
}
use human_hand.Lexical.Propose.Readable.{propose_changes-proposal_from_payload}
use human_hand.Lexical.Review.{is_lower_hex}
use human_hand.Lexical.Rules.{
  LexicalRule, curated_rule, precedence_value, index_of, precedence_rank, token_to_lemma,
  rule_applies, key_lt, least, select_rule_for_lemma, estimate_part_of_speech, resolve_precedence,
}
use human_hand.Lexical.Rules.Payload.{ruleset_hash}
use human_hand.Lexical.Rules.Select.{IsStrongest, select_rule_for_lemma-IsStrongest}
use human_hand.Lexical.Payload.Refused.{proposal_from_payload-empty_sense}
use human_hand.Lexical.Words.{Chars, is_punctuation, strip_left, strip, find, runs_from, runs}

abbrev is_capital : ℕ → Bool
is_capital c = leb 65 c && leb c 90

abbrev chars : Chars
chars = record {
  lower = map (λ c. if is_capital c then c + 32 else c);
  upper = map (λ c. if leb 97 c && leb c 122 then c - 32 else c);
  is_upper = is_capital;
  is_lower = λ c. leb 97 c && leb c 122;
  is_space = λ c. c == 32;
}

abbrev digit : ℕ → Text
digit n = (48 + n) ∷ []

abbrev hash : Text → Text
hash t = codes "0123456789abcdef0123456789abcdef0123456789abcdef0123456789abcdef"

abbrev dumps : Value → Text
dumps v = []

abbrev no_matches : (source text : Text) → List (ℕ × ℕ)
no_matches source text = []

abbrev rule : LexicalRule
rule = record {
  rule_id = codes "r1";
  source_token = codes "utilize";
  target_token = codes "use";
  sense = codes "employ";
  precedence = curated_rule;
  confidence = 900000;
  provenance = codes "curated-in-repo";
}

abbrev text : Text
text = codes "we utilized it"

abbrev request : Request
request = record {
  text = text;
  ruleset_version = record { version = codes "1"; rules = rule ∷ [] };
  contexts = build_contexts chars text [];
  user_preferences = [];
  glossary = [];
  register_rules = [];
  domain_rules = [];
  safe_threshold = pos 800000;
  protected_spans = [];
  left_window = [];
  right_window = [];
}

abbrev made_change : LexicalChange
made_change = record {
  change_id = codes "ch1";
  offset = 3;
  length = 8;
  source_surface = codes "utilized";
  target = codes "used";
  reason = codes "r1:employ";
  precedence = codes "curated_rule";
  confidence = 900000;
  status = safe;
  rule_id = codes "r1";
  sense = codes "employ";
  ruleset_hash = hash [];
}

abbrev proposal : LexicalProposal
proposal = record {
  proposal_id = codes "run-0123456789abcdef01234567";
  run_id = codes "run-0123456789abcdef01234567";
  ruleset_hash = hash [];
  document_hash = hash [];
  schema_version = 1;
  changes = made_change ∷ [];
  findings = [];
}

proposes : propose_changes chars no_matches digit hash dumps request ≡ ok proposal
unfolding propose_changes propose_loop consider decide change_for added counted inside window_or
    status_for preference_of user_preference_rule found_for precedence_for base_or_raise
    rule_or_base winning_rule matching_rules_at_precedence distinct is_ambiguous surface_index
    only_one is_no_change is_inflection_of source_of match_surface is_forbidden bigrams first_is
    tokens lowered collocation_preserved build_contexts contexts_from join_words covered_ids
    context_in_protected_span ranges_overlap overlaps_any overlapping_spans phrase_le phrases_of
    phrases_from context_le has_space contexts_with_multiword_candidates class_of_cased case_class
    apply_case inflected_form inflect_target compute_run_id within precedence_value index_of
    precedence_rank token_to_lemma rule_applies key_lt least select_rule_for_lemma
    estimate_part_of_speech resolve_precedence ruleset_hash is_punctuation strip_left strip find
    runs_from runs text_eq contains any all select starts_with ends_with text_lt Sort.sorted
    Sort.insert ◌+ℤ◌
proposes = refl

propose_changes-IsWithin_example : AllFrom (IsWithin digit request) 0 proposal.changes
propose_changes-IsWithin_example =
    propose_changes-IsWithin chars no_matches digit hash dumps request proposal proposes

propose_changes-IsFromRules_example :
    (threshold : ℕ) × (request.safe_threshold ≡ pos threshold)
    × AllFrom (λ k. IsFromRules chars threshold request) 0 proposal.changes
propose_changes-IsFromRules_example =
    propose_changes-IsFromRules chars no_matches digit hash dumps request proposal proposes

hash-IsHex : (t : Text) → is_sha256_hex (hash t) ≡ true
unfolding is_sha256_hex is_lower_hex all
hash-IsHex t = refl

propose_changes-proposal_from_payload_example :
    proposal_from_payload digit hash dumps (proposal_to_payload proposal) ≡ ok proposal
propose_changes-proposal_from_payload_example =
    propose_changes-proposal_from_payload chars no_matches digit hash dumps request proposal
      hash-IsHex refl (((refl, refl, refl, refl, refl, refl), tt), tt, tt, tt) proposes

select_rule_for_lemma-IsStrongest_example :
    IsStrongest (rule ∷ []) (codes "utilize") (select_rule_for_lemma (rule ∷ []) (codes "utilize"))
select_rule_for_lemma-IsStrongest_example =
    select_rule_for_lemma-IsStrongest (rule ∷ []) (codes "utilize")

-- The change that the preference of a user for "use" makes.
abbrev preferred_change : LexicalChange
preferred_change = record made_change {
  reason = codes "user-preference:";
  precedence = codes "user_preference";
  confidence = 1000000;
  rule_id = codes "user-preference";
  sense = codes "";
}

abbrev preferred_proposal : LexicalProposal
preferred_proposal = record proposal { changes = preferred_change ∷ [] }

abbrev preferring : Request
preferring = record request { user_preferences = (codes "utilize", codes "use") ∷ [] }

proposes_preferred :
    propose_changes chars no_matches digit hash dumps preferring ≡ ok preferred_proposal
unfolding propose_changes propose_loop consider decide change_for added counted inside window_or
    status_for preference_of user_preference_rule found_for precedence_for base_or_raise
    rule_or_base winning_rule matching_rules_at_precedence distinct is_ambiguous surface_index
    only_one is_no_change is_inflection_of source_of match_surface is_forbidden bigrams first_is
    tokens lowered collocation_preserved build_contexts contexts_from join_words covered_ids
    context_in_protected_span ranges_overlap overlaps_any overlapping_spans phrase_le phrases_of
    phrases_from context_le has_space contexts_with_multiword_candidates class_of_cased case_class
    apply_case inflected_form inflect_target compute_run_id within precedence_value index_of
    precedence_rank token_to_lemma rule_applies key_lt least select_rule_for_lemma
    estimate_part_of_speech resolve_precedence ruleset_hash is_punctuation strip_left strip find
    runs_from runs text_eq contains any all select starts_with ends_with text_lt Sort.sorted
    Sort.insert ◌+ℤ◌
proposes_preferred = refl

proposal_from_payload-empty_sense_example :
    (e : ProposalError) × (proposal_from_payload digit hash dumps
        (proposal_to_payload preferred_proposal)
      ≡ err e)
proposal_from_payload-empty_sense_example =
    proposal_from_payload-empty_sense digit hash dumps preferred_proposal preferred_change
      (Memᴰ.head refl) refl
