-- ===== src/Document/Payload/RoundTrip.antt =====
-- A document, written to its payload and read (document_serialization.py).
use human_hand.Prelude.{
  codes, ◌≡◌, refl, Option, none, some, List, [], ◌∷◌, arith, ==_iff, length, Text, text_eq,
  member_of, ok,
}
use human_hand.Json.{Value, str, items, get, is_text, as_str, as_int, as_obj, as_arr, count-items}
use human_hand.Document.{
  NodeType, document, section, heading, paragraph, sentence, text_run, list, list_item, table,
  table_row, table_cell, quotation, citation, footnote, endnote, code_block, hyperlink, page_break,
  section_break, image_placeholder, SourceLocation, DocumentNode, FindingSeverity, info, warning,
  error, FindingCategory, encoding, magic_mismatch, active_content, external_relationship,
  resource_limit, unsupported_feature, structure, metadata, revision, authorship, worker,
  ImportFinding, CanonicalDocument,
}
use human_hand.Document.Payload.{
  severity_value, category_value, node_types, severities, categories, text_or_null, texts_payload,
  location_payload, location_or_null, finding_to_payload, node_payload, document_to_payload,
}
use human_hand.Document.Payload.Read.{
  expect_mapping, expect_string, expect_int, as_natural, expect_natural, list_or_empty,
  string_or_null, location_from_payload, location_of, finding_from_payload, read_objects,
  check_structure, as_text, texts_of, attributes_of, node_from_payload, document_from_payload,
}
use human_hand.Document.Signature.{type_value}

member_of-type_value : (t : NodeType) → member_of type_value (type_value t) node_types ≡ some t
unfolding member_of type_value text_eq
member_of-type_value document = refl
member_of-type_value section = refl
member_of-type_value heading = refl
member_of-type_value paragraph = refl
member_of-type_value sentence = refl
member_of-type_value text_run = refl
member_of-type_value list = refl
member_of-type_value list_item = refl
member_of-type_value table = refl
member_of-type_value table_row = refl
member_of-type_value table_cell = refl
member_of-type_value quotation = refl
member_of-type_value citation = refl
member_of-type_value footnote = refl
member_of-type_value endnote = refl
member_of-type_value code_block = refl
member_of-type_value hyperlink = refl
member_of-type_value page_break = refl
member_of-type_value section_break = refl
member_of-type_value image_placeholder = refl

member_of-severity_value :
    (s : FindingSeverity) → member_of severity_value (severity_value s) severities ≡ some s
unfolding member_of severity_value text_eq
member_of-severity_value info = refl
member_of-severity_value warning = refl
member_of-severity_value error = refl

member_of-category_value :
    (c : FindingCategory) → member_of category_value (category_value c) categories ≡ some c
unfolding member_of category_value text_eq
member_of-category_value encoding = refl
member_of-category_value magic_mismatch = refl
member_of-category_value active_content = refl
member_of-category_value external_relationship = refl
member_of-category_value resource_limit = refl
member_of-category_value unsupported_feature = refl
member_of-category_value structure = refl
member_of-category_value metadata = refl
member_of-category_value revision = refl
member_of-category_value authorship = refl
member_of-category_value worker = refl

location_read : (l : SourceLocation) → location_from_payload (location_payload l) ≡ ok l
unfolding location_from_payload location_payload expect_natural expect_int as_natural get text_eq
    as_int
location_read l = refl

location_of_read : (l : Option SourceLocation) → location_of (some (location_or_null l)) ≡ ok l
unfolding location_of location_or_null
location_of_read none = refl
location_of_read (some l) = rw (location_read l)

string_or_null_read :
    (key : Text) (t : Option Text) → string_or_null key (some (text_or_null t)) ≡ ok t
unfolding string_or_null text_or_null
string_or_null_read key none = refl
string_or_null_read key (some t) = refl

findings_read :
    (fs : List ImportFinding)
    → read_objects finding_from_payload (items finding_to_payload fs) ≡ ok fs
unfolding read_objects items finding_from_payload finding_to_payload expect_string get text_eq
    as_str
findings_read [] = refl
findings_read (f ∷ fs) = rw (
  member_of-severity_value f.severity,
  member_of-category_value f.category,
  location_of_read f.location,
  findings_read fs,
)

module _ (str_of : Value → Text) (nfc : Text → Text) where
  texts_read : (ts : List Text) → texts_of str_of (items str ts) ≡ ts
  unfolding texts_of items as_text
  texts_read [] = refl
  texts_read (t ∷ ts) = rw (texts_read ts)

  attributes_read :
      (pairs : List (Text × Text)) → attributes_of str_of (texts_payload pairs) ≡ pairs
  unfolding attributes_of texts_payload as_text
  attributes_read [] = refl
  attributes_read ((key, t) ∷ pairs) = rw (attributes_read pairs)

  nodes_read :
      (ns : List DocumentNode)
      → read_objects (node_from_payload str_of) (items (node_payload nfc) ns) ≡ ok ns
  unfolding read_objects items node_from_payload node_payload expect_string expect_mapping
      expect_natural expect_int as_natural get text_eq as_str as_int as_obj list_or_empty
  nodes_read [] = refl
  nodes_read (n ∷ ns) = rw (
    member_of-type_value n.node_type,
    string_or_null_read (codes "parent_id") n.parent_id,
    string_or_null_read (codes "authorship_class") n.authorship_class,
    location_read n.source_location,
    texts_read n.protected_span_refs,
    texts_read n.finding_codes,
    attributes_read n.attributes,
    nodes_read ns,
  )

  -- A document of the current version whose nodes pass the structural checks of the reader is read back
  -- from its payload unchanged.
  pub document_from_payload-to_payload :
      (d : CanonicalDocument)
      → d.schema_version ≡ 1
      → check_structure d.nodes ≡ ok tt
      → document_from_payload str_of (document_to_payload nfc d) ≡ ok d
  unfolding document_from_payload document_to_payload expect_string expect_mapping expect_int get
      text_eq is_text as_str as_int as_obj as_arr list_or_empty
  document_from_payload-to_payload d version checked =
      rw
        (
          nodes_read d.nodes,
          count-items (node_payload nfc) d.nodes,
          (==_iff (length d.nodes) (length d.nodes)).1 refl,
          findings_read d.findings,
          count-items finding_to_payload d.findings,
          (==_iff (length d.findings) (length d.findings)).1 refl,
          checked,
          version,
        )
        (ground (arith, version))
