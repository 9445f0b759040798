-- ===== src/Lexical/Propose/Findings.antt =====
-- The findings of a proposal (lexical_normalizer.py).
use human_hand.Prelude.{
  ◌++◌, ◌+◌, codes, ap, ◌∙◌, ℕ, ◌+◌, ◌≡◌, refl, subst, inl, inr, false, not, ◌||◌, List, [], ◌∷◌,
  arith, any, is_nil, length, Text, ok, Result-cases, Option-cases, Bool-cases,
}
use human_hand.Lexical.{LexicalChange}
use human_hand.Lexical.Choice.{
  Request, match_surface, found_for, precedence_for, is_no_change, is_ambiguous,
  matching_rules_at_precedence, winning_rule,
}
use human_hand.Lexical.Context.{LexicalContext, overlapping_spans, context_in_protected_span}
use human_hand.Lexical.Inflection.{inflect_target}
use human_hand.Lexical.Propose.{
  Round, change, finding, passed_over, added, counted, consider, propose_loop, inside, decide,
  change_for,
}
use human_hand.Lexical.Rules.{LexicalPrecedence, LexicalRule}
use human_hand.Lexical.Words.{Chars}
use human_hand.Lexical.Propose.Loop.{propose_loop-nil, propose_loop-cons}

no_findings : any {A = Text} is_nil [] ≡ false
unfolding any
no_findings = refl

added-findings :
    (round : Round) (later : List LexicalChange × List Text)
    → ((f : Text) → round ≡ finding f → is_nil f ≡ false)
    → any is_nil later.1 ≡ false
    → any is_nil (added round later).1 ≡ false
unfolding added any
added-findings passed_over later g h = h
added-findings (change c) later g h = h
added-findings (finding f) later g h = rw (g f refl) h

-- Findings start with a code.
module _ (chars : Chars) (request : Request) (rules_hash : Text) (threshold : ℕ) where
  change_for-finding :
      (context : LexicalContext) (change_id token lemma : Text) (offset : ℕ)
      (precedence : LexicalPrecedence) (winner : LexicalRule) (f : Text)
      → change_for chars request rules_hash change_id threshold context token lemma offset
          precedence winner
        ≡ finding f
      → is_nil f ≡ false
  unfolding change_for
  change_for-finding context change_id token lemma offset precedence winner f h =
      elim (Option-cases (inflect_target chars token lemma winner.target_token)) [
        | inr e ↦ ground arith
        | inl (inflected, e) ↦ ground arith
      ]

  decide-finding :
      (context : LexicalContext) (change_id token lemma : Text) (offset : ℕ) (f : Text)
      → decide chars request rules_hash change_id threshold context token lemma offset
        ≡ ok (finding f)
      → is_nil f ≡ false
  unfolding decide
  decide-finding context change_id token lemma offset f h =
      let found = found_for request lemma in
      let precedence = precedence_for found in
      elim (Bool-cases (is_no_change precedence)) [
        | inl e ↦ ground arith
        | inr e ↦
            elim (Bool-cases
              (is_ambiguous (matching_rules_at_precedence request lemma precedence found))) [
                | inl a ↦ ground arith
                | inr a ↦ elim (Result-cases (winning_rule precedence found)) [
                  | inr (error, w) ↦ absurd (ground arith)
                  | inl (winner, w) ↦
                      change_for-finding context change_id token lemma offset precedence winner f
                        (ground arith)
                ]
              ]
      ]

  consider-finding :
      (source_tokens : List Text) (context : LexicalContext) (change_id f : Text)
      → consider chars request rules_hash change_id threshold source_tokens context ≡ ok (finding f)
      → is_nil f ≡ false
  unfolding consider
  consider-finding source_tokens context change_id f h =
      elim (Option-cases (match_surface chars context source_tokens)) [
        | inr m ↦ absurd (ground arith)
        | inl ((token, lemma, raw_offset), m) ↦
            elim (Result-cases (inside request.text raw_offset (length token))) [
              | inr (error, i) ↦ absurd (ground arith)
              | inl (offset, i) ↦
                  elim (Bool-cases (
                    not (
                      is_nil
                        (overlapping_spans offset (offset + length token) request.protected_spans))
                    || context_in_protected_span context)) [
                      | inl skip ↦ ground arith
                      | inr free ↦
                          decide-finding context change_id token lemma offset f (ground arith)
                    ]
            ]
      ]

  pub propose_loop-findings :
      (decimal : ℕ → Text) (source_tokens : List Text) (k : ℕ) (contexts : List LexicalContext)
      (made : List LexicalChange × List Text)
      → propose_loop chars decimal request rules_hash threshold source_tokens k contexts ≡ ok made
      → any is_nil made.1 ≡ false
  propose_loop-findings decimal source_tokens k [] made h =
      subst (λ (m : List LexicalChange × List Text). any is_nil m.1 ≡ false)
        (propose_loop-nil chars decimal request rules_hash threshold source_tokens k made h)
        no_findings
  propose_loop-findings decimal source_tokens k (context ∷ rest) made h =
      let (round, later, first, second, same) =
        propose_loop-cons chars decimal request rules_hash threshold source_tokens k context rest
          made h in
      subst (λ (m : List LexicalChange × List Text). any is_nil m.1 ≡ false) same
        (added-findings round later
          (λ f e.
            consider-finding source_tokens context (codes "ch" ++ decimal (k + 1)) f
              (first ∙ ap ok e))
          (propose_loop-findings decimal source_tokens (counted k round) rest later second))
