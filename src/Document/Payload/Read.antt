-- ===== src/Document/Payload/Read.antt =====
-- The reader of a document's payload (document_serialization.py).
use human_hand.Prelude.{
  ℕ, Bool, true, false, not, Option, none, some, List, [], ◌∷◌, ◌==◌, length, map, is_nil, Text,
  codes, contains, member_of, are_distinct, Result, ok, err, ◌>>=◌, ◌>>◌, raise_if, or_raise,
}
use human_hand.Prelude.Int.{ℤ, pos, negsuc, int_eq}
use human_hand.Json.{
  Value, null, bool, int, float, str, arr, obj, Items, nil, cons, Fields, end, field, get, is_text,
  as_str, as_int, as_obj, as_arr, count,
}
use human_hand.Document.{
  NodeType, document, SourceLocation, DocumentNode, ImportFinding, CanonicalDocument,
}
use human_hand.Document.Payload.{
  DocumentError, not_json, not_an_object, invalid, unsupported_version, unknown_type, unknown_enum,
  negative, no_root, duplicate_ids, root_has_parent, invalid_parent, severity_value, category_value,
  node_types, severities, categories,
}
use human_hand.Document.Signature.{type_value}

unfoldable pub expect_mapping : Fields → (key : Text) → Result DocumentError Fields
expect_mapping payload key = or_raise (as_obj (get key payload)) (invalid key)

unfoldable pub expect_string : Fields → (key : Text) → Result DocumentError Text
expect_string payload key = or_raise (as_str (get key payload)) (invalid key)

unfoldable pub expect_int : Fields → (key : Text) → Result DocumentError ℤ
expect_int payload key = or_raise (as_int (get key payload)) (invalid key)

-- An integer that is read into a natural number of the model.
unfoldable pub as_natural : (key : Text) → ℤ → Result DocumentError ℕ
as_natural key (pos n) = ok n
as_natural key (negsuc n) = err (negative key)

unfoldable pub expect_natural : Fields → (key : Text) → Result DocumentError ℕ
expect_natural payload key = do z ← expect_int payload key; as_natural key z

-- `payload.get(key) or []`, which must be a list.
unfoldable pub list_or_empty : (key : Text) → Option Value → Result DocumentError Items
list_or_empty key none = ok nil
list_or_empty key (some null) = ok nil
list_or_empty key (some (bool b)) = elim b [ true ↦ err (invalid key) | false ↦ ok nil ]
list_or_empty key (some (int z)) = elim (int_eq z (pos 0)) [
  | true ↦ ok nil
  | false ↦ err (invalid key)
]
list_or_empty key (some (float n)) = elim (n == 0) [ true ↦ ok nil | false ↦ err (invalid key) ]
list_or_empty key (some (str t)) = elim (is_nil t) [ true ↦ ok nil | false ↦ err (invalid key) ]
list_or_empty key (some (arr xs)) = ok xs
list_or_empty key (some (obj end)) = ok nil
list_or_empty key (some (obj (field k v fs))) = err (invalid key)

-- A string or null; a missing key is null.
unfoldable pub string_or_null : (key : Text) → Option Value → Result DocumentError (Option Text)
string_or_null key none = ok none
string_or_null key (some null) = ok none
string_or_null key (some (str t)) = ok (some t)
string_or_null key _ = err (invalid key)

unfoldable pub location_from_payload : Fields → Result DocumentError SourceLocation
location_from_payload payload = do
  start_offset ← expect_natural payload (codes "start_offset")
  end_offset ← expect_natural payload (codes "end_offset")
  line_start ← expect_natural payload (codes "line_start")
  line_end ← expect_natural payload (codes "line_end")
  ok (record {
    start_offset = start_offset;
    end_offset = end_offset;
    line_start = line_start;
    line_end = line_end;
  })

unfoldable pub location_of : Option Value → Result DocumentError (Option SourceLocation)
location_of none = ok none
location_of (some null) = ok none
location_of (some (obj payload)) = do location ← location_from_payload payload; ok (some location)
location_of _ = err (invalid (codes "location"))

unfoldable pub finding_from_payload : Fields → Result DocumentError ImportFinding
finding_from_payload payload = do
  raw_severity ← expect_string payload (codes "severity")
  severity ← or_raise (member_of severity_value raw_severity severities) unknown_enum
  raw_category ← expect_string payload (codes "category")
  category ← or_raise (member_of category_value raw_category categories) unknown_enum
  location ← location_of (get (codes "location") payload)
  code ← expect_string payload (codes "code")
  description ← expect_string payload (codes "description")
  evidence ← expect_string payload (codes "evidence")
  ok (record {
    code = code;
    severity = severity;
    category = category;
    description = description;
    location = location;
    evidence = evidence;
  })

-- A generator that reads the objects of a list and passes over what is none.
unfoldable pub read_objects {ℓ} :
    {A : Type ℓ} → (Fields → Result DocumentError A) → Items → Result DocumentError (List A)
read_objects read nil = ok []
read_objects read (cons (obj payload) rest) = do
  first ← read payload
  others ← read_objects read rest
  ok (first ∷ others)
read_objects read (cons _ rest) = read_objects read rest

-- The loop over `nodes[1:]`.
unfoldable pub check_parents :
    (ids : List Text) → List DocumentNode → Result DocumentError (Unit {0})
check_parents ids [] = ok tt
check_parents ids (node ∷ rest) = do
  parent ← or_raise node.parent_id (invalid_parent node.node_id)
  raise_if (not (contains parent ids)) (invalid_parent node.node_id)
  check_parents ids rest

unfoldable pub has_parent_id : DocumentNode → Bool
has_parent_id node = elim node.parent_id [ none ↦ false | some _ ↦ true ]

unfoldable pub is_document : NodeType → Bool
is_document document = true
is_document _ = false

-- `document.root`, then the checks of the ids and of the parents.
unfoldable pub check_structure : List DocumentNode → Result DocumentError (Unit {0})
check_structure [] = err no_root
check_structure (root ∷ rest) = do
  raise_if (not (is_document root.node_type)) no_root
  let ids = map (λ (n : DocumentNode). n.node_id) (root ∷ rest)
  raise_if (not (are_distinct ids)) duplicate_ids
  raise_if (has_parent_id root) root_has_parent
  check_parents ids rest

module _ (str_of : Value → Text) where
  -- `str(value)`
  unfoldable pub as_text : Value → Text
  as_text (str t) = t
  as_text v = str_of v

  unfoldable pub texts_of : Items → List Text
  unfolding as_text
  texts_of nil = []
  texts_of (cons v rest) = as_text v ∷ texts_of rest

  unfoldable pub attributes_of : Fields → List (Text × Text)
  unfolding as_text
  attributes_of end = []
  attributes_of (field key v rest) = (key, as_text v) ∷ attributes_of rest

  unfoldable pub node_from_payload : Fields → Result DocumentError DocumentNode
  node_from_payload payload = do
    raw_type ← expect_string payload (codes "type")
    node_type ← or_raise (member_of type_value raw_type node_types) (unknown_type raw_type)
    parent_id ← string_or_null (codes "parent_id") (get (codes "parent_id") payload)
    location_payload ← expect_mapping payload (codes "source_location")
    attributes_payload ← expect_mapping payload (codes "attributes")
    protected_refs ←
        list_or_empty (codes "protected_span_refs") (get (codes "protected_span_refs") payload)
    finding_codes ← list_or_empty (codes "finding_codes") (get (codes "finding_codes") payload)
    authorship ← string_or_null (codes "authorship_class") (get (codes "authorship_class") payload)
    node_id ← expect_string payload (codes "id")
    position ← expect_natural payload (codes "position")
    source_location ← location_from_payload location_payload
    text ← expect_string payload (codes "text")
    ok (record {
      node_id = node_id;
      parent_id = parent_id;
      node_type = node_type;
      position = position;
      source_location = source_location;
      text = text;
      attributes = attributes_of attributes_payload;
      authorship_class = authorship;
      protected_span_refs = texts_of protected_refs;
      finding_codes = texts_of finding_codes;
    })

  -- `document_from_json` behind `json.loads`.
  unfoldable pub document_from_payload : Fields → Result DocumentError CanonicalDocument
  document_from_payload payload = do
    raise_if (not (is_text (codes "canonical-document") (get (codes "schema") payload)))
        (invalid (codes "schema"))
    schema_version ← expect_int payload (codes "schema_version")
    raise_if (not (int_eq schema_version (pos 1))) (unsupported_version schema_version)
    parser_payload ← expect_mapping payload (codes "parser")
    raw_nodes ← or_raise (as_arr (get (codes "nodes") payload)) (invalid (codes "nodes"))
    nodes ← read_objects node_from_payload raw_nodes
    raise_if (not (length nodes == count raw_nodes)) (invalid (codes "nodes"))
    raw_findings ← list_or_empty (codes "findings") (get (codes "findings") payload)
    findings ← read_objects finding_from_payload raw_findings
    raise_if (not (length findings == count raw_findings)) (invalid (codes "findings"))
    lane ← expect_string payload (codes "lane")
    parser_name ← expect_string parser_payload (codes "name")
    parser_version ← expect_string parser_payload (codes "version")
    policy_version ← expect_string payload (codes "policy_version")
    revision_policy ← expect_string payload (codes "revision_policy")
    surface_text ← expect_string payload (codes "surface_text")
    canonical_text ← expect_string payload (codes "canonical_text")
    check_structure nodes
    ok (record {
      schema_version = 1;
      lane = lane;
      parser_name = parser_name;
      parser_version = parser_version;
      policy_version = policy_version;
      revision_policy = revision_policy;
      surface_text = surface_text;
      canonical_text = canonical_text;
      nodes = nodes;
      findings = findings;
    })

  unfoldable pub document_from_json :
      (loads : Text → Option Value) → Text → Result DocumentError CanonicalDocument
  document_from_json loads text = elim (loads text) [
    | none ↦ err not_json
    | some (obj payload) ↦ document_from_payload payload
    | some _ ↦ err not_an_object
  ]
