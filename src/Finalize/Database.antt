-- ===== src/Finalize/Database.antt =====
-- The tables that a finalization writes, and their operations: `save_revision_content` and
-- `save_protected_spans` of src/humanhand/infra/stores/integrated_project_store.py, `atomic` and
-- `record_approval` of project_store.py. The rows are plain texts: the codec of encrypted fields
-- (`_encode`, `_decode`) is left out. `approval_id` and `decided_at` stand for the uuid and the clock.
use human_hand.Prelude.{
  Bool, true, false, not, ◌&&◌, Option, none, some, List, [], ◌∷◌, ◌++◌, any, select, is_nil, ℕ,
  Text, text_eq, are_distinct, map, Result, ok, err, ◌>>=◌, ◌>>◌, raise_if, or_raise, map_err,
}
use human_hand.Json.{Value}
use human_hand.Document.Payload.Read.{document_from_json}
use human_hand.Revision.{DocumentRevision}
use human_hand.Revision.Store.{StoreError, save_revision}
use human_hand.Spans.{ProtectedSpan, kind_value}

pub record ContentRow : Type 0 where
  pub document_id : Text
  pub revision_id : Text
  pub accepted_text : Text
  pub canonical_document_json : Text
  pub style_profile_id : Text
  pub finalization_run_id : Text

pub record SpanRow : Type 0 where
  pub span_id : Text
  pub document_id : Text
  pub kind : Text
  pub text : Text
  pub start_offset : ℕ
  pub end_offset : ℕ

pub record Approval : Type 0 where
  pub approval_id : Text
  pub target_kind : Text
  pub target_id : Text
  pub decision : Text
  pub decided_by : Text
  pub decided_at : Text

pub record Tables : Type 0 where
  pub revisions : List DocumentRevision
  pub contents : List ContentRow
  pub spans : List SpanRow
  pub approvals : List Approval

pub data TableError : Type 0 where
  store_error : StoreError → TableError
  empty_content content_hash_mismatch invalid_document_json surface_mismatch : TableError
  empty_document_id no_revision_metadata stored_hash_mismatch immutable_content : TableError
  integrity_error : TableError

-- `WHERE document_id = ? AND revision_id = ?`, the first row.
unfoldable pub find_revision :
    (document_id revision_id : Text) → List DocumentRevision → Option DocumentRevision
find_revision document_id revision_id [] = none
find_revision document_id revision_id (r ∷ rest) =
    elim (text_eq r.document_id document_id && text_eq r.revision_id revision_id) [
      | true ↦ some r
      | false ↦ find_revision document_id revision_id rest
    ]

unfoldable pub find_content : (document_id revision_id : Text) → List ContentRow → Option ContentRow
find_content document_id revision_id [] = none
find_content document_id revision_id (r ∷ rest) =
    elim (text_eq r.document_id document_id && text_eq r.revision_id revision_id) [
      | true ↦ some r
      | false ↦ find_content document_id revision_id rest
    ]

-- `decoded == values`
unfoldable pub same_values : ContentRow → ContentRow → Bool
same_values a b =
    text_eq a.accepted_text b.accepted_text
    && text_eq a.canonical_document_json b.canonical_document_json
    && text_eq a.style_profile_id b.style_profile_id
    && text_eq a.finalization_run_id b.finalization_run_id

-- `with self._write()` inside the transaction: the row goes into the table, unless it is there.
unfoldable pub insert_content : List ContentRow → ContentRow → Result TableError (List ContentRow)
insert_content contents row = elim (find_content row.document_id row.revision_id contents) [
  | none ↦ ok (row ∷ contents)
  | some existing ↦ (do raise_if (not (same_values existing row)) immutable_content; ok contents)
]

module _ (sha256 : Text → Text) (str_of : Value → Text) (loads : Text → Option Value) where
  unfoldable pub check_content : DocumentRevision → ContentRow → Result TableError (Unit {0})
  check_content revision row = do
    raise_if (is_nil row.accepted_text) empty_content
    raise_if (not (text_eq (sha256 row.accepted_text) revision.accepted_text_sha256))
        content_hash_mismatch
    document ←
        map_err (λ e. invalid_document_json)
          (document_from_json str_of loads row.canonical_document_json)
    raise_if (not (text_eq document.surface_text row.accepted_text)) surface_mismatch
    raise_if (is_nil revision.document_id) empty_document_id

  unfoldable pub save_revision_content :
      Tables
      → DocumentRevision
      → (accepted_text canonical_document_json style_profile_id finalization_run_id : Text)
      → Result TableError Tables
  save_revision_content tables revision accepted_text json style_profile_id finalization_run_id = do
    let row : ContentRow = record {
      document_id = revision.document_id;
      revision_id = revision.revision_id;
      accepted_text = accepted_text;
      canonical_document_json = json;
      style_profile_id = style_profile_id;
      finalization_run_id = finalization_run_id;
    }
    check_content revision row
    stored ←
        or_raise (find_revision revision.document_id revision.revision_id tables.revisions)
          no_revision_metadata
    raise_if (not (text_eq stored.accepted_text_sha256 (sha256 accepted_text))) stored_hash_mismatch
    contents ← insert_content tables.contents row
    ok (record tables { contents = contents })

unfoldable pub span_row : (document_id : Text) → ProtectedSpan → SpanRow
span_row document_id span = record {
  span_id = span.span_id;
  document_id = document_id;
  kind = kind_value span.kind;
  text = span.text;
  start_offset = span.source_location.start_offset;
  end_offset = span.source_location.end_offset;
}

-- The rows of the other documents stay; two spans with one id violate the primary key.
unfoldable pub save_protected_spans :
    Tables → (document_id : Text) → List ProtectedSpan → Result TableError Tables
save_protected_spans tables document_id spans = do
  raise_if (not (are_distinct (map (λ (s : ProtectedSpan). s.span_id) spans))) integrity_error
  let others = select (λ (r : SpanRow). not (text_eq r.document_id document_id)) tables.spans
  ok (record tables { spans = map (span_row document_id) spans ++ others })

unfoldable pub record_approval :
    Tables
    → (approval_id target_kind target_id decision decided_by decided_at : Text)
    → Result TableError Tables
record_approval tables approval_id target_kind target_id decision decided_by decided_at = do
  raise_if (any (λ (a : Approval). text_eq a.approval_id approval_id) tables.approvals)
      integrity_error
  ok (record tables {
    approvals =
        record {
          approval_id = approval_id;
          target_kind = target_kind;
          target_id = target_id;
          decision = decision;
          decided_by = decided_by;
          decided_at = decided_at;
        }
        ∷ tables.approvals;
  })

unfoldable pub save_revision_row : Tables → DocumentRevision → Result TableError Tables
save_revision_row tables revision = do
  revisions ← map_err store_error (save_revision tables.revisions revision)
  ok (record tables { revisions = revisions })

-- `with store.atomic()`: the body's tables are committed, or an error leaves those from before.
unfoldable pub atomic {ℓ κ} :
    {E : Type ℓ} {A : Type κ} → Tables → (Tables → Result E (Tables × A)) → Tables × Result E A
atomic tables body = elim (body tables) [
  | ok (tables', a) ↦ (tables', ok a)
  | err e ↦ (tables, err e)
]
