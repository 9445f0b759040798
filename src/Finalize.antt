-- ===== src/Finalize.antt =====
-- `finalize_reviewed_revision` of src/humanhand/application/integrated_workflow.py. The checks of facts
-- and citations and of the style, which rest on regular expressions and floating-point numbers, are
-- parameters: `revalidate_facts` and `Style`.
pub mod Appended
pub mod Consistent
pub mod Exclusive
pub mod Database
pub mod Rows
pub mod Steps
mod Tests
use human_hand.Prelude.{
  ℕ, Bool, true, false, not, ◌||◌, Option, none, some, List, [], ◌∷◌, ◌++◌, length, ltb, map, Text,
  codes, text_eq, Result, ok, err, ◌>>=◌, ◌>>◌, raise_if, or_raise, map_err, if◌then◌else◌,
  contains,
}
use human_hand.Prelude.Int.{ℤ}
use human_hand.Json.{Value}
use human_hand.Document.{CanonicalDocument}
use human_hand.Document.Payload.{document_to_json}
use human_hand.Document.Signature.{
  StructureFinding, StructureSignature, compute_structure_signature, revalidate_structure,
}
use human_hand.Lexical.{LexicalChange, LexicalProposal}
use human_hand.Lexical.Choice.{Request, ProposeError}
use human_hand.Lexical.Context.{build_contexts}
use human_hand.Lexical.Propose.{propose_changes}
use human_hand.Lexical.Rules.{RulesetVersion}
use human_hand.Lexical.Words.{Chars}
use human_hand.Lexical.Review.{LexicalReviewJournal, ReviewError, apply_review}
use human_hand.Revision.{DocumentRevision, RevisionConflict, propose_next_revision, accept_revision}
use human_hand.Revision.Store.{latest_accepted_revision}
use human_hand.Spans.{ProtectedSpan, SpanError, rebase_protected_spans}
use human_hand.Transform.{TransformError, apply_reviewed_proposal}
use human_hand.Finalize.Database.{
  Tables, TableError, save_revision_row, save_revision_content, save_protected_spans,
  record_approval, atomic,
}

-- What a finalization asks of a style profile.
pub record Style : Type 1 where
  pub Profile : Type 0
  pub Report : Type 0
  pub profile_id : Profile → Text
  pub is_complete : Profile → Bool
  pub compare_profile : Profile → CanonicalDocument → Report
  pub violations : Report → ℕ

-- The fields of a `LoadedDocumentState` that a finalization reads.
pub record LoadedState : Type 0 where
  pub revision : DocumentRevision
  pub accepted_text : Text
  pub document : CanonicalDocument
  pub protected_spans : List ProtectedSpan

pub data FinalizeError : Type 0 where
  review_error : ReviewError → FinalizeError
  transform_error : TransformError → FinalizeError
  span_error : SpanError → FinalizeError
  facts_failed : List Text → FinalizeError
  structure_failed : List StructureFinding → FinalizeError
  profile_incomplete : FinalizeError
  style_violations : (count : ℕ) → FinalizeError
  conflict : RevisionConflict → FinalizeError
  revision_changed : FinalizeError
  table_error : TableError → FinalizeError

-- The functions outside the model that a finalization calls.
pub record Outside : Type 0 where
  pub sha256 : Text → Text
  pub nfc : Text → Text
  pub dumps : Value → Text
  pub loads : Text → Option Value
  pub str_of : Value → Text
  pub decimal : ℕ → Text
  pub decimal_token : ℤ → Text
  pub revalidate_facts : (original finalized : Text) → Bool × List Text
  pub approval_id : Text
  pub decided_at : Text

-- What is committed: the transformed document, its rebased spans and its revision.
pub record Prepared (Report : Type 0) : Type 0 where
  pub transformed : CanonicalDocument
  pub rebased_spans : List ProtectedSpan
  pub revision : DocumentRevision
  pub change_count : ℕ
  pub style_report : Option Report

pub record FinalizationResult (Report : Type 0) : Type 0 where
  pub document_id : Text
  pub revision_id : Text
  pub accepted_change_count : ℕ
  pub accepted_text_sha256 : Text
  pub style_report : Option Report

module _ (outside : Outside) (style : Style) where
  -- The style check, if a profile is bound.
  unfoldable pub check_style :
      Option style.Profile → CanonicalDocument → Result FinalizeError (Option style.Report)
  check_style none transformed = ok none
  check_style (some profile) transformed = do
    raise_if (not (style.is_complete profile)) profile_incomplete
    let report = style.compare_profile profile transformed
    raise_if (ltb 0 (style.violations report)) (style_violations (style.violations report))
    ok (some report)

  -- The checks of the transformed document and its revision, behind the rebase of the spans.
  unfoldable pub settle :
      LoadedState
      → LexicalProposal
      → Option style.Profile
      → (reviewed : LexicalProposal) (transformed : CanonicalDocument) → List ProtectedSpan
      → Result FinalizeError (Prepared style.Report)
  settle state proposal profile reviewed transformed rebased_spans = do
    let facts = outside.revalidate_facts state.accepted_text transformed.surface_text
    raise_if (not facts.0) (facts_failed facts.1)
    let signature = compute_structure_signature outside.sha256 outside.decimal transformed
    let drift = revalidate_structure signature state.revision.structure_signature
    raise_if (not drift.0) (structure_failed drift.1)
    style_report ← check_style profile transformed
    let next =
        propose_next_revision outside.decimal_token state.revision signature
          (outside.sha256 transformed.surface_text)
          (codes "lexical finalization " ++ proposal.run_id)
    revision ← map_err conflict (accept_revision next state.revision)
    ok (record {
      transformed = transformed;
      rebased_spans = rebased_spans;
      revision = revision;
      change_count = length reviewed.changes;
      style_report = style_report;
    })

  -- The steps in front of the transaction.
  unfoldable pub prepare :
      LoadedState
      → LexicalProposal
      → LexicalReviewJournal
      → Option style.Profile
      → Result FinalizeError (Prepared style.Report)
  prepare state proposal journal profile = do
    reviewed ← map_err review_error (apply_review outside.sha256 outside.dumps proposal journal)
    transformed ←
        map_err transform_error
          (apply_reviewed_proposal outside.sha256 outside.nfc state.document reviewed)
    rebased_spans ← map_err span_error (
        rebase_protected_spans state.protected_spans proposal.changes
          (map (λ (c : LexicalChange). c.change_id) reviewed.changes) transformed.surface_text)
    settle state proposal profile reviewed transformed rebased_spans

  -- `current is None or current.revision_id != state.revision.revision_id`
  unfoldable pub is_changed : (current : Option DocumentRevision) → DocumentRevision → Bool
  is_changed none expected = true
  is_changed (some current) expected = not (text_eq current.revision_id expected.revision_id)

  unfoldable pub profile_id_or_empty : Option style.Profile → Text
  profile_id_or_empty none = []
  profile_id_or_empty (some profile) = style.profile_id profile

  -- The body of the transaction.
  unfoldable pub commit :
      LoadedState
      → (run_id : Text) → Option style.Profile
      → Prepared style.Report
      → Tables
      → Result FinalizeError (Tables × FinalizationResult style.Report)
  commit state run_id profile prepared tables = do
    let document_id = state.revision.document_id
    raise_if (is_changed (latest_accepted_revision document_id tables.revisions) state.revision)
        revision_changed
    with_revision ← map_err table_error (save_revision_row tables prepared.revision)
    with_content ← map_err table_error (
        save_revision_content outside.sha256 outside.str_of outside.loads with_revision
          prepared.revision prepared.transformed.surface_text
          (document_to_json outside.nfc outside.dumps prepared.transformed)
          (profile_id_or_empty profile) run_id)
    with_spans ←
        map_err table_error (save_protected_spans with_content document_id prepared.rebased_spans)
    with_approval ← map_err table_error (
        record_approval with_spans outside.approval_id (codes "revision")
          (document_id ++ codes ":" ++ prepared.revision.revision_id) (codes "accepted")
          (codes "human") outside.decided_at)
    ok (
      with_approval,
      record {
        document_id = document_id;
        revision_id = prepared.revision.revision_id;
        accepted_change_count = prepared.change_count;
        accepted_text_sha256 = outside.sha256 prepared.transformed.surface_text;
        style_report = prepared.style_report;
      },
    )

  unfoldable pub finalize_reviewed_revision :
      Tables
      → LoadedState
      → LexicalProposal
      → LexicalReviewJournal
      → Option style.Profile
      → Tables × Result FinalizeError (FinalizationResult style.Report)
  finalize_reviewed_revision tables state proposal journal profile =
      elim (prepare state proposal journal profile) [
        | err e ↦ (tables, err e)
        | ok prepared ↦ atomic tables (commit state proposal.run_id profile prepared)
      ]

-- `propose_integrated_lexical_changes`: the proposal for an accepted text, with no glossaries.
unfoldable pub propose_integrated_lexical_changes :
    (chars : Chars)
    → (finditer : (source text : Text) → List (ℕ × ℕ)) → Outside
    → LoadedState
    → RulesetVersion
    → (user_preferences : List (Text × Text)) (safe_threshold : ℤ)
    → Result ProposeError LexicalProposal
propose_integrated_lexical_changes chars finditer outside state version preferences threshold =
    propose_changes chars finditer outside.decimal outside.sha256 outside.dumps (record {
      text = state.accepted_text;
      ruleset_version = version;
      contexts = build_contexts chars state.accepted_text state.protected_spans;
      user_preferences = preferences;
      glossary = [];
      register_rules = [];
      domain_rules = [];
      safe_threshold = threshold;
      protected_spans = state.protected_spans;
      left_window = [];
      right_window = [];
    })
