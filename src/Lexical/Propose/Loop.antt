-- ===== src/Lexical/Propose/Loop.antt =====
-- The loop over the contexts of a proposal (lexical_normalizer.py).
use human_hand.Prelude.{
  AllFrom, ℕ, ◌+◌, ◌≡◌, subst, inl, inr, some, List, [], ◌∷◌, ◌++◌, arith, is_nil, Text, codes, ok,
  Result-cases, Option-cases, Bool-cases,
}
use human_hand.Json.{Value}
use human_hand.Lexical.{LexicalChange, LexicalProposal, lexical_proposal_schema_version}
use human_hand.Lexical.Choice.{Request, surface_index}
use human_hand.Lexical.Context.{LexicalContext, contexts_with_multiword_candidates}
use human_hand.Lexical.Payload.{compute_run_id, core_proposal_payload}
use human_hand.Lexical.Payload.Proposal.{within}
use human_hand.Lexical.Propose.{
  Round, change, finding, passed_over, added, counted, consider, propose_loop, propose_changes,
}
use human_hand.Lexical.Rules.Payload.{ruleset_hash}
use human_hand.Lexical.Words.{Chars}

-- What a loop that returns went through.
module _ (chars : Chars) (decimal : ℕ → Text) (request : Request) (rules_hash : Text)
    (threshold : ℕ) (source_tokens : List Text) where
  pub propose_loop-nil :
      (k : ℕ) (made : List LexicalChange × List Text)
      → propose_loop chars decimal request rules_hash threshold source_tokens k [] ≡ ok made
      → ([], []) ≡ made
  unfolding propose_loop
  propose_loop-nil k made h = ground arith

  pub propose_loop-cons :
      (k : ℕ) (context : LexicalContext) (rest : List LexicalContext)
      (made : List LexicalChange × List Text)
      → propose_loop chars decimal request rules_hash threshold source_tokens k (context ∷ rest)
        ≡ ok made
      → (round : Round) × (later : List LexicalChange × List Text) × (consider chars request
            rules_hash
            (codes "ch" ++ decimal (k + 1))
            threshold
            source_tokens
            context
          ≡ ok round)
        × (propose_loop chars decimal request rules_hash threshold source_tokens
              (counted k round)
              rest
            ≡ ok later)
        × (added round later ≡ made)
  unfolding propose_loop
  propose_loop-cons k context rest made h =
      elim (Result-cases (
        consider chars request rules_hash (codes "ch" ++ decimal (k + 1)) threshold source_tokens
          context)) [
            | inr (error, e) ↦ absurd (ground arith)
            | inl (round, e) ↦
                elim (Result-cases (
                  propose_loop chars decimal request rules_hash threshold source_tokens
                    (counted k round) rest)) [
                      | inr (error, f) ↦ absurd (ground arith)
                      | inl (later, f) ↦ (round, later, e, f, ground arith)
                    ]
          ]

module _ {κ} (chars : Chars) (decimal : ℕ → Text) (request : Request) (rules_hash : Text)
    (threshold : ℕ) (source_tokens : List Text) (P : ℕ → LexicalChange → Type κ) where
  AddsGood : ℕ → Round → Type κ
  unfolding counted
  AddsGood k passed_over = Unit
  AddsGood k (finding f) = Unit
  AddsGood k (change c) = P k c

  added-AllFrom :
      (k : ℕ) (round : Round) (later : List LexicalChange × List Text)
      → AddsGood k round
      → AllFrom P (counted k round) later.0
      → AllFrom P k (added round later).0
  unfolding added counted AddsGood
  added-AllFrom k passed_over later g h = h
  added-AllFrom k (finding f) later g h = h
  added-AllFrom k (change c) later g h = (g, h)

  consider-AddsGood :
      ((k : ℕ) (context : LexicalContext) (c : LexicalChange)
        → consider chars request rules_hash
            (codes "ch" ++ decimal (k + 1))
            threshold
            source_tokens
            context
          ≡ ok (change c)
        → P k c)
      → (k : ℕ) (context : LexicalContext) (round : Round)
      → consider chars request rules_hash
          (codes "ch" ++ decimal (k + 1))
          threshold
          source_tokens
          context
        ≡ ok round
      → AddsGood k round
  unfolding AddsGood
  consider-AddsGood f k context passed_over h = tt
  consider-AddsGood f k context (finding t) h = tt
  consider-AddsGood f k context (change c) h = f k context c h

  pub propose_loop-AllFrom :
      ((k : ℕ) (context : LexicalContext) (c : LexicalChange)
        → consider chars request rules_hash
            (codes "ch" ++ decimal (k + 1))
            threshold
            source_tokens
            context
          ≡ ok (change c)
        → P k c)
      → (k : ℕ) (contexts : List LexicalContext) (made : List LexicalChange × List Text)
      → propose_loop chars decimal request rules_hash threshold source_tokens k contexts ≡ ok made
      → AllFrom P k made.0
  propose_loop-AllFrom f k [] made h =
      subst (λ (m : List LexicalChange × List Text). AllFrom P k m.0)
        (propose_loop-nil chars decimal request rules_hash threshold source_tokens k made h) tt
  propose_loop-AllFrom f k (context ∷ rest) made h =
      let (round, later, first, second, same) =
        propose_loop-cons chars decimal request rules_hash threshold source_tokens k context rest
          made h in
      subst (λ (m : List LexicalChange × List Text). AllFrom P k m.0) same
        (added-AllFrom k round later (consider-AddsGood f k context round first)
          (propose_loop-AllFrom f (counted k round) rest later second))

-- What a proposal is made of.
pub propose_changes_inv :
    (chars : Chars) (finditer : (source text : Text) → List (ℕ × ℕ)) (decimal : ℕ → Text)
    (sha256 : Text → Text) (dumps : Value → Text) (request : Request) (p : LexicalProposal)
    → propose_changes chars finditer decimal sha256 dumps request ≡ ok p
    → (threshold : ℕ) × (made : List LexicalChange × List Text) × (within 0 1000000
          request.safe_threshold
        ≡ some threshold)
      × (propose_loop chars decimal request
            (ruleset_hash sha256 dumps request.ruleset_version)
            threshold
            (surface_index request)
            0
            (contexts_with_multiword_candidates finditer request.text request.contexts
              (surface_index request)
              request.protected_spans)
          ≡ ok made)
      × (let hash = ruleset_hash sha256 dumps request.ruleset_version in
          let run_id =
            compute_run_id sha256 dumps
              (core_proposal_payload hash (sha256 request.text) made.0 made.1) in
          p ≡ record {
            proposal_id = run_id;
            run_id = run_id;
            ruleset_hash = hash;
            document_hash = sha256 request.text;
            schema_version = lexical_proposal_schema_version;
            changes = made.0;
            findings = made.1;
          })
unfolding propose_changes
propose_changes_inv chars finditer decimal sha256 dumps request p h =
    elim (Option-cases (within 0 1000000 request.safe_threshold)) [
      | inr w ↦ absurd (ground arith)
      | inl (threshold, w) ↦ elim (Bool-cases (is_nil request.ruleset_version.rules)) [
        | inl empty ↦ absurd (ground arith)
        | inr some_rule ↦
            elim (Result-cases (
              propose_loop chars decimal request (ruleset_hash sha256 dumps request.ruleset_version)
                threshold (surface_index request) 0
                (contexts_with_multiword_candidates finditer request.text request.contexts
                  (surface_index request) request.protected_spans))) [
                    | inr (error, l) ↦ absurd (ground arith)
                    | inl (made, l) ↦ (threshold, made, w, l, ground arith)
                  ]
      ]
    ]
