-- ===== src/Lexical/Propose/Outcome.antt =====
-- What one round of `propose_changes` makes (lexical_normalizer.py).
use human_hand.Prelude.{
  ℕ, ◌+◌, ◌≡◌, refl, inl, inr, true, false, not, ◌||◌, some, List, [], ◌++◌, arith, length, is_nil,
  Text, codes, ok, Result-cases, Option-cases, Bool-cases,
}
use human_hand.Prelude.Int.{ℤ}
use human_hand.Lexical.{LexicalChange}
use human_hand.Lexical.Choice.{
  Request, found_for, precedence_for, winning_rule, matching_rules_at_precedence, is_ambiguous,
  is_no_change, match_surface,
}
use human_hand.Lexical.Collocations.{collocation_preserved}
use human_hand.Lexical.Context.{LexicalContext, overlapping_spans, context_in_protected_span}
use human_hand.Lexical.Inflection.{inflect_target}
use human_hand.Lexical.Propose.{change, inside, window_or, status_for, change_for, decide, consider}
use human_hand.Lexical.Rules.{precedence_value, LexicalPrecedence, LexicalRule}
use human_hand.Lexical.Words.{Chars}

-- How a change came about.
pub record Origin : Type 0 where
  pub context : LexicalContext
  pub token : Text
  pub lemma : Text
  pub inflected : Text
  pub precedence : LexicalPrecedence
  pub winner : LexicalRule
  pub change_id : Text
  pub offset : ℕ

abbrev origin :
    LexicalContext
    → (change_id token lemma : Text) (offset : ℕ) (inflected : Text) → LexicalPrecedence
    → LexicalRule
    → Origin
origin context change_id token lemma offset inflected precedence winner = record {
  context = context;
  token = token;
  lemma = lemma;
  inflected = inflected;
  precedence = precedence;
  winner = winner;
  change_id = change_id;
  offset = offset;
}

module _ (chars : Chars) (request : Request) (rules_hash : Text) (threshold : ℕ) where
  -- The change of an origin.
  abbrev pub change_of : Origin → LexicalChange
  change_of o = record {
    change_id = o.change_id;
    offset = o.offset;
    length = length o.token;
    source_surface = o.token;
    target = o.inflected;
    reason = o.winner.rule_id ++ codes ":" ++ o.winner.sense;
    precedence = precedence_value o.precedence;
    confidence = o.winner.confidence;
    status = status_for threshold o.winner o.precedence;
    rule_id = o.winner.rule_id;
    sense = o.winner.sense;
    ruleset_hash = rules_hash;
  }

  abbrev pub IsInflected : Origin → Type 0
  IsInflected o =
      (inflect_target chars o.token o.lemma o.winner.target_token ≡ some o.inflected)
      × (collocation_preserved chars request.text o.offset (length o.token) o.inflected
            (window_or request.left_window o.context.left_window)
            (window_or request.right_window o.context.right_window)
          ≡ true)

  abbrev pub IsChosen : Origin → Type 0
  IsChosen o =
      let found = found_for request o.lemma in
      (o.precedence ≡ precedence_for found)
      × (is_no_change o.precedence ≡ false)
      × (is_ambiguous (matching_rules_at_precedence request o.lemma o.precedence found) ≡ false)
      × (winning_rule o.precedence found ≡ ok o.winner)

  abbrev pub IsMatched : (source_tokens : List Text) → Origin → Type 0
  IsMatched source_tokens o =
      (raw_offset : ℤ) × (match_surface chars o.context source_tokens
        ≡ some (o.token, o.lemma, raw_offset))
      × (inside request.text raw_offset (length o.token) ≡ ok o.offset)
      × (overlapping_spans o.offset (o.offset + length o.token) request.protected_spans ≡ [])
      × (context_in_protected_span o.context ≡ false)

  change_for_inv :
      (context : LexicalContext) (change_id token lemma : Text) (offset : ℕ)
      (precedence : LexicalPrecedence) (winner : LexicalRule) (c : LexicalChange)
      → change_for chars request rules_hash change_id threshold context token lemma offset
          precedence winner
        ≡ change c
      → (inflected : Text) × (c
          ≡ change_of (origin context change_id token lemma offset inflected precedence winner))
        × IsInflected (origin context change_id token lemma offset inflected precedence winner)
  unfolding change_for
  change_for_inv context change_id token lemma offset precedence winner c h =
      elim (Option-cases (inflect_target chars token lemma winner.target_token)) [
        | inr e ↦ absurd (ground arith)
        | inl (inflected, e) ↦ (inflected, ground arith, (e, ground arith))
      ]

  abbrev settled :
      LexicalContext
      → (change_id token lemma : Text) (offset : ℕ) (inflected : Text) → LexicalRule
      → Origin
  settled context change_id token lemma offset inflected winner =
      origin context change_id token lemma offset inflected
        (precedence_for (found_for request lemma)) winner

  decide_inv :
      (context : LexicalContext) (change_id token lemma : Text) (offset : ℕ) (c : LexicalChange)
      → decide chars request rules_hash change_id threshold context token lemma offset
        ≡ ok (change c)
      → (inflected : Text) × (winner : LexicalRule) × (c
          ≡ change_of (settled context change_id token lemma offset inflected winner))
        × IsInflected (settled context change_id token lemma offset inflected winner)
        × IsChosen (settled context change_id token lemma offset inflected winner)
  unfolding decide
  decide_inv context change_id token lemma offset c h =
      let found = found_for request lemma in
      let precedence = precedence_for found in
      elim (Bool-cases (is_no_change precedence)) [
        | inl e ↦ absurd (ground arith)
        | inr e ↦
            elim (Bool-cases
              (is_ambiguous (matching_rules_at_precedence request lemma precedence found))) [
                | inl a ↦ absurd (ground arith)
                | inr a ↦ elim (Result-cases (winning_rule precedence found)) [
                  | inr (error, w) ↦ absurd (ground arith)
                  | inl (winner, w) ↦
                      let (inflected, same, made) =
                        change_for_inv context change_id token lemma offset precedence winner c
                          (ground arith) in
                      (inflected, winner, same, made, (refl, e, a, w))
                ]
              ]
      ]

  pub consider_inv :
      (source_tokens : List Text) (context : LexicalContext) (change_id : Text) (c : LexicalChange)
      → consider chars request rules_hash change_id threshold source_tokens context ≡ ok (change c)
      → (o : Origin) × (c ≡ change_of o)
        × (o.context ≡ context)
        × (o.change_id ≡ change_id)
        × IsInflected o
        × IsChosen o
        × IsMatched source_tokens o
  unfolding consider
  consider_inv source_tokens context change_id c h =
      elim (Option-cases (match_surface chars context source_tokens)) [
        | inr m ↦ absurd (ground arith)
        | inl ((token, lemma, raw_offset), m) ↦
            elim (Result-cases (inside request.text raw_offset (length token))) [
              | inr (error, i) ↦ absurd (ground arith)
              | inl (offset, i) ↦
                  let overlapping =
                    overlapping_spans offset (offset + length token) request.protected_spans in
                  elim (Bool-cases
                    (not (is_nil overlapping) || context_in_protected_span context)) [
                      | inl skip ↦ absurd (ground arith)
                      | inr free ↦
                          let (inflected, winner, same, made, chosen) =
                            decide_inv context change_id token lemma offset c (ground arith) in
                          (
                            settled context change_id token lemma offset inflected winner,
                            same,
                            refl,
                            refl,
                            made,
                            chosen,
                            (raw_offset, m, i, ground arith, ground arith),
                          )
                    ]
            ]
      ]
