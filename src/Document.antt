-- ===== src/Document.antt =====
-- src/humanhand/domain/document_nodes.py, and the document record of canonical_document.py with the
-- findings that it carries (import_findings.py).
pub mod Build
pub mod Measure
pub mod Payload
pub mod Signature
use human_hand.Prelude.{ℕ, Bool, true, false, Text, List, Option}

pub data NodeType : Type 0 where
  document section heading paragraph sentence text_run list list_item table table_row table_cell
        quotation citation footnote endnote code_block hyperlink page_break section_break
        image_placeholder :
      NodeType

pub record SourceLocation : Type 0 where
  pub start_offset : ℕ
  pub end_offset : ℕ
  pub line_start : ℕ
  pub line_end : ℕ

pub record DocumentNode : Type 0 where
  pub node_id : Text
  pub parent_id : Option Text
  pub node_type : NodeType
  pub position : ℕ
  pub source_location : SourceLocation
  pub text : Text
  pub attributes : List (Text × Text)
  pub authorship_class : Option Text
  pub protected_span_refs : List Text
  pub finding_codes : List Text

pub data FindingSeverity : Type 0 where
  info warning error : FindingSeverity

pub data FindingCategory : Type 0 where
  encoding magic_mismatch active_content external_relationship resource_limit unsupported_feature
        structure metadata revision authorship worker :
      FindingCategory

pub record ImportFinding : Type 0 where
  pub code : Text
  pub severity : FindingSeverity
  pub category : FindingCategory
  pub description : Text
  pub location : Option SourceLocation
  pub evidence : Text

pub record CanonicalDocument : Type 0 where
  pub schema_version : ℕ
  pub lane : Text
  pub parser_name : Text
  pub parser_version : Text
  pub policy_version : Text
  pub revision_policy : Text
  pub surface_text : Text
  pub canonical_text : Text
  pub nodes : List DocumentNode
  pub findings : List ImportFinding
