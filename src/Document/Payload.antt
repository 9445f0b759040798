-- ===== src/Document/Payload.antt =====
-- The payload of a document (document_serialization.py, without the import inspections). `str_of` stands
-- for Python's `str` on what is no string, `loads` and `dumps` for the `json` module. A payload is a
-- Python dict: no key occurs twice in it. The numbers of a location and a position are natural numbers
-- here; a payload with a negative one, which the source accepts, is answered by `negative`.
pub mod Read
pub mod RoundTrip
use human_hand.Prelude.{
  ℕ, ◌+◌, Bool, true, false, not, ◌&&◌, ◌||◌, Option, none, some, List, [], ◌∷◌, ◌++◌, ◌==◌, length,
  map, is_nil, Text, codes, text_eq, contains, member_of, are_distinct, Result, ok, err, ◌>>=◌,
  ◌>>◌, raise_if, or_raise, if◌then◌else◌,
}
use human_hand.Prelude.Int.{ℤ, pos, negsuc, int_eq}
use human_hand.Json.{
  Value, null, bool, int, float, str, arr, obj, Items, nil, cons, Fields, end, field, items, get,
  is_text, as_str, as_int, as_obj, as_arr, count,
}
use human_hand.Document.{
  NodeType, document, section, heading, paragraph, sentence, text_run, list, list_item, table,
  table_row, table_cell, quotation, citation, footnote, endnote, code_block, hyperlink, page_break,
  section_break, image_placeholder, SourceLocation, DocumentNode, FindingSeverity, info, warning,
  error, FindingCategory, encoding, magic_mismatch, active_content, external_relationship,
  resource_limit, unsupported_feature, structure, metadata, revision, authorship, worker,
  ImportFinding, CanonicalDocument,
}
use human_hand.Document.Signature.{type_value}

pub data DocumentError : Type 0 where
  not_json not_an_object : DocumentError
  invalid : (key : Text) → DocumentError
  unsupported_version : ℤ → DocumentError
  unknown_type : Text → DocumentError
  unknown_enum : DocumentError
  negative : (key : Text) → DocumentError
  no_root duplicate_ids root_has_parent : DocumentError
  invalid_parent : (node_id : Text) → DocumentError

unfoldable pub severity_value : FindingSeverity → Text
severity_value info = codes "info"
severity_value warning = codes "warning"
severity_value error = codes "error"

unfoldable pub category_value : FindingCategory → Text
category_value encoding = codes "encoding"
category_value magic_mismatch = codes "magic_mismatch"
category_value active_content = codes "active_content"
category_value external_relationship = codes "external_relationship"
category_value resource_limit = codes "resource_limit"
category_value unsupported_feature = codes "unsupported_feature"
category_value structure = codes "structure"
category_value metadata = codes "metadata"
category_value revision = codes "revision"
category_value authorship = codes "authorship"
category_value worker = codes "worker"

abbrev pub node_types : List NodeType
node_types =
    document ∷ section ∷ heading ∷ paragraph ∷ sentence ∷ text_run ∷ list ∷ list_item ∷ table
    ∷ table_row ∷ table_cell ∷ quotation ∷ citation ∷ footnote ∷ endnote ∷ code_block ∷ hyperlink
    ∷ page_break ∷ section_break ∷ image_placeholder ∷ []

abbrev pub severities : List FindingSeverity
severities = info ∷ warning ∷ error ∷ []

abbrev pub categories : List FindingCategory
categories =
    encoding ∷ magic_mismatch ∷ active_content ∷ external_relationship ∷ resource_limit
    ∷ unsupported_feature ∷ structure ∷ metadata ∷ revision ∷ authorship ∷ worker ∷ []

unfoldable pub text_or_null : Option Text → Value
text_or_null none = null
text_or_null (some t) = str t

unfoldable pub texts_payload : List (Text × Text) → Fields
texts_payload [] = end
texts_payload ((key, t) ∷ rest) = field key (str t) (texts_payload rest)

unfoldable pub location_payload : SourceLocation → Fields
location_payload l = field (codes "end_offset") (int (pos l.end_offset)) (
    field (codes "line_end") (int (pos l.line_end)) (
      field (codes "line_start") (int (pos l.line_start))
        (field (codes "start_offset") (int (pos l.start_offset)) end)))

unfoldable pub location_or_null : Option SourceLocation → Value
location_or_null none = null
location_or_null (some l) = obj (location_payload l)

unfoldable pub finding_to_payload : ImportFinding → Value
finding_to_payload f = obj (
    field (codes "category") (str (category_value f.category)) (
      field (codes "code") (str f.code) (
        field (codes "description") (str f.description) (
          field (codes "evidence") (str f.evidence) (
            field (codes "location") (location_or_null f.location)
              (field (codes "severity") (str (severity_value f.severity)) end))))))

module _ (nfc : Text → Text) where
  unfoldable pub node_payload : DocumentNode → Value
  node_payload n = obj (
      field (codes "attributes") (obj (texts_payload n.attributes)) (
        field (codes "authorship_class") (text_or_null n.authorship_class) (
          field (codes "finding_codes") (arr (items str n.finding_codes)) (
            field (codes "id") (str n.node_id) (
              field (codes "parent_id") (text_or_null n.parent_id) (
                field (codes "position") (int (pos n.position)) (
                  field (codes "protected_span_refs") (arr (items str n.protected_span_refs)) (
                    field (codes "source_location") (obj (location_payload n.source_location)) (
                      field (codes "text") (str n.text) (
                        field (codes "text_canonical") (str (nfc n.text))
                          (field (codes "type") (str (type_value n.node_type)) end)))))))))))

  unfoldable pub document_to_payload : CanonicalDocument → Fields
  document_to_payload d = field (codes "canonical_text") (str d.canonical_text) (
      field (codes "findings") (arr (items finding_to_payload d.findings)) (
        field (codes "lane") (str d.lane) (
          field (codes "nodes") (arr (items node_payload d.nodes)) (
            field (codes "parser")
              (obj (
                field (codes "name") (str d.parser_name)
                  (field (codes "version") (str d.parser_version) end)))
              (field (codes "policy_version") (str d.policy_version) (
                field (codes "revision_policy") (str d.revision_policy) (
                  field (codes "schema") (str (codes "canonical-document")) (
                    field (codes "schema_version") (int (pos d.schema_version))
                      (field (codes "surface_text") (str d.surface_text) end)))))))))

  unfoldable pub document_to_json : (dumps : Value → Text) → CanonicalDocument → Text
  document_to_json dumps d = dumps (obj (document_to_payload d))
