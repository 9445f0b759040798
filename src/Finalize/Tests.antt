-- ===== src/Finalize/Tests.antt =====
-- A concrete finalization (integrated_workflow.py): one accepted change in front of a protected span.
-- Every text has the same hash here, normalisation does nothing, and the stored document is read back
-- from a fixed payload.
use human_hand.Prelude.{
  ℕ, ◌≡◌, refl, true, Option, none, some, [], ◌∷◌, Text, codes, text_eq, contains, any, all,
  are_distinct, member_of, select, ok,
}
use human_hand.Prelude.Int.{pos, ◌+ℤ◌, ◌-ℤ◌}
use human_hand.Prelude.Sort
use human_hand.Json.{obj, items, get, is_text, as_str, as_int, as_obj, as_arr, count}
use human_hand.Document.{NodeType, document, paragraph, DocumentNode, CanonicalDocument}
use human_hand.Document.Payload.{
  text_or_null, texts_payload, location_payload, finding_to_payload, node_payload,
  document_to_payload, document_to_json,
}
use human_hand.Document.Payload.Read.{
  expect_mapping, expect_string, expect_int, as_natural, expect_natural, list_or_empty,
  string_or_null, location_from_payload, finding_from_payload, read_objects, check_parents,
  has_parent_id, is_document, check_structure, as_text, texts_of, attributes_of, node_from_payload,
  document_from_payload, document_from_json,
}
use human_hand.Document.Signature.{
  type_value, StructureSignature, compute_structure_signature, is_heading, is_paragraph,
  digest_nodes, headings, paragraph_count, add_one, count_types, revalidate_structure, texts_eq,
}
use human_hand.Finalize.{
  Style, LoadedState, Outside, FinalizationResult, check_style, settle, prepare, is_changed,
  profile_id_or_empty, commit, finalize_reviewed_revision,
}
use human_hand.Finalize.Database.{
  Tables, find_revision, find_content, same_values, insert_content, check_content,
  save_revision_content, span_row, save_protected_spans, record_approval, save_revision_row, atomic,
}
use human_hand.Finalize.Consistent.{IsStored, finalize_reviewed_revision-IsStored}
use human_hand.Finalize.Appended.{IsAppended, finalize_reviewed_revision-IsAppended}
use human_hand.Lexical.{LexicalProposal, safe, lexical_proposal_schema_version}
use human_hand.Lexical.Apply.{
  apply_changes, apply_change, apply_loop, is_selected, key_le, replace_span,
}
use human_hand.Lexical.Payload.{compute_run_id}
use human_hand.Lexical.Review.{
  LexicalReviewJournal, lexical_review_schema_version, accept, apply_review, validate_decisions,
  check_known, accepted_changes, accepted_ids,
}
use human_hand.Revision.{DocumentRevision, accepted, propose_next_revision, accept_revision, is_id}
use human_hand.Revision.Store.{
  revisions_of, max_token, head_id, is_stale_parent, has_parent, check_base, save_revision,
  is_accepted_status, newest, latest_accepted_revision,
}
use human_hand.Revision.Store.Chain.{IsChain}
use human_hand.Spans.{
  ProtectedSpan, key_term, extracted, kind_value, rebase_protected_spans, rebase_loop, rebase_span,
  rebase_shift, moved,
}
use human_hand.Transform.{
  apply_reviewed_proposal, ordered_changes, check_order, has_line_break, transform_nodes,
  apply_node_changes, changes_inside, shifted_offset, shift, shift_step, edit_node, edit_loop,
  edit_change, offset_le, same_set, validate_spans, is_editable, is_protected_text,
}

abbrev node : NodeType → Text → Option Text → ℕ → ℕ → Text → DocumentNode
node type id parent from to text = record {
  node_id = id;
  parent_id = parent;
  node_type = type;
  position = 1;
  source_location = record { start_offset = from; end_offset = to; line_start = 1; line_end = 1 };
  text = text;
  attributes = [];
  authorship_class = none;
  protected_span_refs = [];
  finding_codes = [];
}

abbrev document_of : (text : Text) (end : ℕ) → CanonicalDocument
document_of text end = record {
  schema_version = 1;
  lane = codes "source";
  parser_name = codes "p";
  parser_version = codes "1";
  policy_version = codes "1";
  revision_policy = codes "reject";
  surface_text = text;
  canonical_text = text;
  nodes =
      node document (codes "n1") none 0 0 []
      ∷ node paragraph (codes "n2") (some (codes "n1")) 0 end text
      ∷ [];
  findings = [];
}

abbrev before : CanonicalDocument
before = document_of (codes "use big") 7

abbrev after : CanonicalDocument
after = document_of (codes "take big") 8

abbrev same : Text → Text
same t = t

abbrev outside : Outside
outside = record {
  sha256 = λ t. codes "00";
  nfc = same;
  dumps = λ v. [];
  loads = λ t. some (obj (document_to_payload same after));
  str_of = λ v. [];
  decimal = λ n. codes "1";
  decimal_token = λ z. codes "2";
  revalidate_facts = λ a b. (true, []);
  approval_id = codes "a1";
  decided_at = codes "now";
}

abbrev style : Style
style = record {
  Profile = Text;
  Report = ℕ;
  profile_id = λ p. p;
  is_complete = λ p. true;
  compare_profile = λ p d. 0;
  violations = λ r. r;
}

abbrev signature : StructureSignature
signature = record {
  signature = codes "00";
  section_order = [];
  node_type_counts = (codes "document", 1) ∷ (codes "paragraph", 1) ∷ [];
  total_nodes = 2;
}

abbrev initial : DocumentRevision
initial = record {
  revision_id = codes "rev-1";
  document_id = codes "doc";
  parent_revision_id = none;
  status = accepted;
  base_token = pos 0;
  token = pos 1;
  structure_signature = signature;
  accepted_text_sha256 = codes "00";
  created_note = [];
}

abbrev span_at : ℕ → ℕ → ProtectedSpan
span_at from to = record {
  span_id = codes "s1";
  kind = key_term;
  source_location = record { start_offset = from; end_offset = to; line_start = 1; line_end = 1 };
  text = codes "big";
  label = [];
  status = extracted;
}

abbrev state : LoadedState
state = record {
  revision = initial;
  accepted_text = codes "use big";
  document = before;
  protected_spans = span_at 4 7 ∷ [];
}

abbrev proposal : LexicalProposal
proposal = record {
  proposal_id = codes "run-1";
  run_id = codes "run-1";
  ruleset_hash = codes "11";
  document_hash = codes "00";
  schema_version = lexical_proposal_schema_version;
  changes =
      record {
        change_id = codes "ch1";
        offset = 0;
        length = 3;
        source_surface = codes "use";
        target = codes "take";
        reason = codes "r1:employ";
        precedence = codes "curated_rule";
        confidence = 900000;
        status = safe;
        rule_id = codes "r1";
        sense = codes "employ";
        ruleset_hash = codes "11";
      }
      ∷ [];
  findings = [];
}

abbrev journal : LexicalReviewJournal
journal = record {
  journal_id = codes "journal";
  schema_version = lexical_review_schema_version;
  proposal_run_id = codes "run-1";
  decisions = record { change_id = codes "ch1"; decision = accept } ∷ [];
}

abbrev stored : Tables
stored = record { revisions = initial ∷ []; contents = []; spans = []; approvals = [] }

abbrev second : DocumentRevision
second = record initial {
  revision_id = codes "rev-2";
  parent_revision_id = some (codes "rev-1");
  base_token = pos 1;
  token = pos 2;
  created_note = codes "lexical finalization run-1";
}

abbrev finalized : Tables
finalized = record {
  revisions = second ∷ initial ∷ [];
  contents =
      record {
        document_id = codes "doc";
        revision_id = codes "rev-2";
        accepted_text = codes "take big";
        canonical_document_json = [];
        style_profile_id = [];
        finalization_run_id = codes "run-1";
      }
      ∷ [];
  spans =
      record {
        span_id = codes "s1";
        document_id = codes "doc";
        kind = codes "key_term";
        text = codes "big";
        start_offset = 5;
        end_offset = 8;
      }
      ∷ [];
  approvals =
      record {
        approval_id = codes "a1";
        target_kind = codes "revision";
        target_id = codes "doc:rev-2";
        decision = codes "accepted";
        decided_by = codes "human";
        decided_at = codes "now";
      }
      ∷ [];
}

abbrev result : FinalizationResult ℕ
result = record {
  document_id = codes "doc";
  revision_id = codes "rev-2";
  accepted_change_count = 1;
  accepted_text_sha256 = codes "00";
  style_report = none;
}

finalizes :
    finalize_reviewed_revision outside style stored state proposal journal none
    ≡ (finalized, ok result)
unfolding finalize_reviewed_revision prepare settle check_style commit is_changed
    profile_id_or_empty atomic find_revision find_content same_values insert_content check_content
    save_revision_content span_row save_protected_spans record_approval save_revision_row
    apply_reviewed_proposal ordered_changes check_order has_line_break transform_nodes
    apply_node_changes changes_inside shifted_offset shift shift_step edit_node edit_loop
    edit_change offset_le same_set validate_spans is_editable is_protected_text apply_changes
    apply_loop apply_change select is_selected key_le text_eq contains any all replace_span
    are_distinct member_of Sort.sorted Sort.insert Sort.sorted_reverse Sort.insert_down ◌+ℤ◌ ◌-ℤ◌
    apply_review validate_decisions check_known accepted_changes accepted_ids compute_run_id
    propose_next_revision accept_revision is_id revisions_of max_token head_id is_stale_parent
    has_parent check_base save_revision is_accepted_status newest latest_accepted_revision
    kind_value rebase_protected_spans rebase_loop rebase_span rebase_shift moved
    compute_structure_signature is_heading is_paragraph digest_nodes headings paragraph_count
    add_one count_types revalidate_structure texts_eq type_value text_or_null texts_payload
    location_payload finding_to_payload node_payload document_to_payload document_to_json
    expect_mapping expect_string expect_int as_natural expect_natural list_or_empty string_or_null
    location_from_payload read_objects check_parents has_parent_id is_document check_structure
    as_text texts_of attributes_of node_from_payload document_from_payload document_from_json items
    get is_text as_str as_int as_obj as_arr count finding_from_payload
finalizes = refl

stored-IsChain : IsChain (revisions_of (codes "doc") stored.revisions)
unfolding revisions_of select text_eq
stored-IsChain = (refl, refl, refl, tt)

finalize_reviewed_revision-IsStored_example :
    (r : DocumentRevision) × (text : Text) × (result.revision_id ≡ r.revision_id)
    × (result.accepted_text_sha256 ≡ outside.sha256 text)
    × IsStored outside style (codes "doc") finalized r text
finalize_reviewed_revision-IsStored_example =
    finalize_reviewed_revision-IsStored outside style stored finalized state proposal journal none
      result stored-IsChain finalizes

finalize_reviewed_revision-IsAppended_example :
    IsAppended outside style state stored finalized (ok result)
    × ((document_id : Text)
        → IsChain (revisions_of document_id stored.revisions)
        → IsChain (revisions_of document_id finalized.revisions))
finalize_reviewed_revision-IsAppended_example =
    finalize_reviewed_revision-IsAppended outside style stored finalized state proposal journal none
      (ok result) finalizes
