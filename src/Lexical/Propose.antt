-- ===== src/Lexical/Propose.antt =====
-- `propose_changes` (lexical_normalizer.py). `chars` stands for the methods of `str`, `finditer` for the
-- regular expression of a phrase, `decimal` prints a number, `sha256` hashes a text and `dumps` writes a
-- payload. The threshold is in millionths.
pub mod Findings
pub mod Loop
pub mod Outcome
pub mod Readable
pub mod Safety
mod Tests
use human_hand.Prelude.{
  ℕ, ◌+◌, Bool, true, false, not, ◌&&◌, ◌||◌, Option, none, some, List, [], ◌∷◌, ◌++◌, map, any,
  select, length, ltb, leb, is_nil, Text, codes, text_eq, contains, ends_with, take, ◌-◌,
  if◌then◌else◌, Result, ok, err, ◌>>=◌, ◌>>◌, raise_if, or_raise,
}
use human_hand.Prelude.Int.{ℤ, pos, negsuc, ◌+ℤ◌}
use human_hand.Json.{Value}
use human_hand.Lexical.{
  ChangeStatus, safe, proposed, LexicalChange, LexicalProposal, lexical_proposal_schema_version,
}
use human_hand.Lexical.Collocations.{collocation_preserved}
use human_hand.Lexical.Context.{
  LexicalContext, context_in_protected_span, overlapping_spans, has_space,
  contexts_with_multiword_candidates,
}
use human_hand.Lexical.Inflection.{inflect_target}
use human_hand.Lexical.Payload.{compute_run_id, core_proposal_payload}
use human_hand.Lexical.Payload.Proposal.{within}
use human_hand.Lexical.Rules.{
  LexicalPrecedence, user_preference, project_glossary, register_evidence, domain_glossary,
  curated_rule, no_change, precedence_value, precedence_rank, LexicalRule, RulesetVersion,
  rule_applies, select_rule_for_lemma, resolve_precedence,
}
use human_hand.Lexical.Rules.Payload.{ruleset_hash}
use human_hand.Lexical.Words.{Chars, is_punctuation, strip, find}
use human_hand.Spans.{ProtectedSpan}
use human_hand.Lexical.Choice.{
  Request, ProposeError, threshold_out_of_range, empty_ruleset, context_outside, no_winning_rule,
  Found, found_for, precedence_for, winning_rule, matching_rules_at_precedence, is_ambiguous,
  surface_index, is_no_change, match_surface,
}

-- `if offset < 0 or length <= 0 or offset + length > len(text): raise`
unfoldable pub inside : (text : Text) (offset : ℤ) (length_ : ℕ) → Result ProposeError ℕ
inside text (negsuc n) length_ = err (context_outside (negsuc n))
inside text (pos offset) length_ = do
  raise_if (not (leb 1 length_) || not (leb (offset + length_) (length text)))
      (context_outside (pos offset))
  ok offset

-- `left_window or context.left_window`
unfoldable pub window_or : (given own : Text) → Text
window_or given own = if is_nil given then own else given

-- What one round of the loop adds: nothing, a finding or a change.
pub data Round : Type 0 where
  passed_over : Round
  finding : Text → Round
  change : LexicalChange → Round

unfoldable pub status_for : (threshold : ℕ) → LexicalRule → LexicalPrecedence → ChangeStatus
status_for threshold winner precedence =
    if ltb winner.confidence threshold
      || ltb (precedence_rank curated_rule) (precedence_rank precedence)
    then proposed
    else safe

-- What a round adds, in front of what the later ones add.
unfoldable pub added : Round → List LexicalChange × List Text → List LexicalChange × List Text
added passed_over (changes, findings) = (changes, findings)
added (finding f) (changes, findings) = (changes, f ∷ findings)
added (change c) (changes, findings) = (c ∷ changes, findings)

unfoldable pub counted : ℕ → Round → ℕ
counted count (change c) = count + 1
counted count (finding f) = count
counted count passed_over = count

module _ (chars : Chars) where
  -- The end of a round, for the winning rule: its target is inflected, checked against its neighbours
  -- and made into a change.
  unfoldable pub change_for :
      Request
      → (rules_hash change_id : Text) (threshold : ℕ) → LexicalContext
      → (token lemma : Text) (offset : ℕ) → LexicalPrecedence
      → LexicalRule
      → Round
  change_for request rules_hash change_id threshold context token lemma offset precedence winner =
      elim (inflect_target chars token lemma winner.target_token) [
        | none ↦ finding (codes "inflection_unsupported:" ++ token)
        | some inflected ↦
            if collocation_preserved chars request.text offset (length token) inflected
              (window_or request.left_window context.left_window)
              (window_or request.right_window context.right_window)
            then change (record {
              change_id = change_id;
              offset = offset;
              length = length token;
              source_surface = token;
              target = inflected;
              reason = winner.rule_id ++ codes ":" ++ winner.sense;
              precedence = precedence_value precedence;
              confidence = winner.confidence;
              status = status_for threshold winner precedence;
              rule_id = winner.rule_id;
              sense = winner.sense;
              ruleset_hash = rules_hash;
            })
            else finding (codes "collocation_unsafe:" ++ token)
      ]

  -- The middle of a round: the rules for the lemma, their precedence and the winner.
  unfoldable pub decide :
      Request
      → (rules_hash change_id : Text) (threshold : ℕ) → LexicalContext
      → (token lemma : Text) (offset : ℕ) → Result ProposeError Round
  decide request rules_hash change_id threshold context token lemma offset =
      let found = found_for request lemma in
      let precedence = precedence_for found in
      if is_no_change precedence
      then ok (finding (codes "precedence_no_change:" ++ token))
      else if is_ambiguous (matching_rules_at_precedence request lemma precedence found)
      then ok (finding (codes "ambiguous_sense:" ++ token))
      else (do
        winner ← winning_rule precedence found
        ok (
            change_for request rules_hash change_id threshold context token lemma offset precedence
              winner))

  -- One round of the loop over the contexts.
  unfoldable pub consider :
      Request
      → (rules_hash change_id : Text) (threshold : ℕ) (source_tokens : List Text) → LexicalContext
      → Result ProposeError Round
  consider request rules_hash change_id threshold source_tokens context =
      elim (match_surface chars context source_tokens) [
        | none ↦ ok passed_over
        | some (token, lemma, raw_offset) ↦ (do
          offset ← inside request.text raw_offset (length token)
          let overlapping = overlapping_spans offset (offset + length token) request.protected_spans
          elim (not (is_nil overlapping) || context_in_protected_span context) [
            | true ↦ ok (finding (codes "protected_skip:" ++ token))
            | false ↦ decide request rules_hash change_id threshold context token lemma offset
          ])
      ]

  -- The loop, with the number of changes so far.
  unfoldable pub propose_loop :
      (decimal : ℕ → Text)
      → Request
      → (rules_hash : Text) (threshold : ℕ) (source_tokens : List Text) → (count : ℕ)
      → List LexicalContext
      → Result ProposeError (List LexicalChange × List Text)
  propose_loop decimal request rules_hash threshold source_tokens count [] = ok ([], [])
  propose_loop decimal request rules_hash threshold source_tokens count (context ∷ rest) = do
    round ←
        consider request rules_hash (codes "ch" ++ decimal (count + 1)) threshold source_tokens
          context
    later ←
        propose_loop decimal request rules_hash threshold source_tokens (counted count round) rest
    ok (added round later)

  unfoldable pub propose_changes :
      (finditer : (source text : Text) → List (ℕ × ℕ))
      → (decimal : ℕ → Text) (sha256 : Text → Text) (dumps : Value → Text) → Request
      → Result ProposeError LexicalProposal
  propose_changes finditer decimal sha256 dumps request = do
    threshold ←
        or_raise (within 0 1000000 request.safe_threshold)
          (threshold_out_of_range request.safe_threshold)
    raise_if (is_nil request.ruleset_version.rules) empty_ruleset
    let rules_hash = ruleset_hash sha256 dumps request.ruleset_version
    let source_tokens = surface_index request
    let candidates =
        contexts_with_multiword_candidates finditer request.text request.contexts source_tokens
          request.protected_spans
    made ← propose_loop decimal request rules_hash threshold source_tokens 0 candidates
    let document_hash = sha256 request.text
    let run_id =
        compute_run_id sha256 dumps (core_proposal_payload rules_hash document_hash made.0 made.1)
    ok (record {
      proposal_id = run_id;
      run_id = run_id;
      ruleset_hash = rules_hash;
      document_hash = document_hash;
      schema_version = lexical_proposal_schema_version;
      changes = made.0;
      findings = made.1;
    })
