-- ===== src/Revision/Payload.antt =====
-- `revision_to_payload` and `revision_from_payload` (revisions.py). A payload is a Python dict: no key
-- occurs twice in it.
pub mod RoundTrip
use human_hand.Prelude.{
  ℕ, Bool, true, false, not, ◌&&◌, ◌||◌, Option, none, some, List, [], ◌∷◌, ◌==◌, length, all, Text,
  codes, text_eq, Result, ok, err, ◌>>=◌, ◌>>◌, raise_if, or_raise, if◌then◌else◌,
}
use human_hand.Prelude.Int.{ℤ, pos, negsuc, ◌+ℤ◌, int_eq}
use human_hand.Json.{
  Value, null, int, str, arr, obj, Items, nil, cons, Fields, end, field, items, get, is_text,
  is_one, as_str, as_int, as_arr, as_obj,
}
use human_hand.Document.Signature.{StructureSignature}
use human_hand.Lexical.Review.{is_lower_hex}
use human_hand.Revision.{DocumentRevision, RevisionStatus, draft, proposed, accepted, rejected}

pub data PayloadError : Type 0 where
  invalid : (what : Text) → PayloadError
  unsupported_version : PayloadError
  unknown_status : Text → PayloadError

unfoldable pub status_value : RevisionStatus → Text
status_value draft = codes "draft"
status_value proposed = codes "proposed"
status_value accepted = codes "accepted"
status_value rejected = codes "rejected"

-- `RevisionStatus(value)`
unfoldable pub status_of : Text → Option RevisionStatus
unfolding text_eq
status_of value =
    if text_eq value (codes "draft")
    then some draft
    else if text_eq value (codes "proposed")
    then some proposed
    else if text_eq value (codes "accepted")
    then some accepted
    else if text_eq value (codes "rejected")
    then some rejected
    else none

unfoldable pub text_or_null : Option Text → Value
text_or_null none = null
text_or_null (some t) = str t

unfoldable pub counts_payload : List (Text × ℕ) → Fields
counts_payload [] = end
counts_payload ((key, n) ∷ rest) = field key (int (pos n)) (counts_payload rest)

unfoldable pub signature_payload : StructureSignature → Fields
signature_payload s = field (codes "signature") (str s.signature) (
    field (codes "section_order") (arr (items str s.section_order)) (
      field (codes "node_type_counts") (obj (counts_payload s.node_type_counts))
        (field (codes "total_nodes") (int (pos s.total_nodes)) end)))

unfoldable pub revision_to_payload : DocumentRevision → Fields
revision_to_payload r = field (codes "schema") (str (codes "document-revision")) (
    field (codes "schema_version") (int (pos 1)) (
      field (codes "revision_id") (str r.revision_id) (
        field (codes "document_id") (str r.document_id) (
          field (codes "parent_revision_id") (text_or_null r.parent_revision_id) (
            field (codes "status") (str (status_value r.status)) (
              field (codes "base_token") (int r.base_token) (
                field (codes "token") (int r.token) (
                  field (codes "accepted_text_sha256") (str r.accepted_text_sha256) (
                    field (codes "created_note") (str r.created_note) (
                      field (codes "structure_signature")
                        (obj (signature_payload r.structure_signature)) end))))))))))

unfoldable pub expect_str : Fields → Text → Result PayloadError Text
expect_str payload key = or_raise (as_str (get key payload)) (invalid key)

unfoldable pub expect_int : Fields → Text → Result PayloadError ℤ
expect_int payload key = or_raise (as_int (get key payload)) (invalid key)

unfoldable pub is_sha256_hex : Text → Bool
is_sha256_hex value = length value == 64 && all is_lower_hex value

unfoldable pub expect_sha256_hex : Text → (what : Text) → Result PayloadError Text
expect_sha256_hex value what = do raise_if (not (is_sha256_hex value)) (invalid what); ok value

-- `all(isinstance(item, str) for item in raw_order)` and the tuple of the items.
unfoldable pub texts_of : Items → Option (List Text)
texts_of nil = some []
texts_of (cons (str t) rest) = elim (texts_of rest) [ some ts ↦ some (t ∷ ts) | none ↦ none ]
texts_of (cons _ rest) = none

-- An integer that is not negative.
unfoldable pub natural : ℤ → Option ℕ
natural (pos n) = some n
natural (negsuc n) = none

-- The loop over `raw_counts.items()`.
unfoldable pub counts_of : Fields → Result PayloadError (List (Text × ℕ))
counts_of end = ok []
counts_of (field key (int z) rest) = do
  n ← or_raise (natural z) (invalid (codes "node_type_counts"))
  others ← counts_of rest
  ok ((key, n) ∷ others)
counts_of (field key _ rest) = err (invalid (codes "node_type_counts"))

unfoldable pub signature_from_payload : Fields → Result PayloadError StructureSignature
signature_from_payload payload = do
  raw_signature ← expect_str payload (codes "signature")
  signature ← expect_sha256_hex raw_signature (codes "signature")
  raw_order ←
      or_raise (as_arr (get (codes "section_order") payload)) (invalid (codes "section_order"))
  section_order ← or_raise (texts_of raw_order) (invalid (codes "section_order"))
  raw_counts ←
      or_raise (as_obj (get (codes "node_type_counts") payload))
        (invalid (codes "node_type_counts"))
  counts ← counts_of raw_counts
  raw_total ← expect_int payload (codes "total_nodes")
  total_nodes ← or_raise (natural raw_total) (invalid (codes "total_nodes"))
  ok (record {
    signature = signature;
    section_order = section_order;
    node_type_counts = counts;
    total_nodes = total_nodes;
  })

-- `payload.get(key)` that must be a string or null; a missing key is null.
unfoldable pub parent_of : Option Value → Result PayloadError (Option Text)
parent_of none = ok none
parent_of (some null) = ok none
parent_of (some (str t)) = ok (some t)
parent_of _ = err (invalid (codes "parent_revision_id"))

unfoldable pub revision_from_payload : Fields → Result PayloadError DocumentRevision
revision_from_payload payload = do
  raise_if (not (is_text (codes "document-revision") (get (codes "schema") payload)))
      (invalid (codes "schema"))
  raise_if (not (is_one (get (codes "schema_version") payload))) unsupported_version
  revision_id ← expect_str payload (codes "revision_id")
  document_id ← expect_str payload (codes "document_id")
  parent_value ← parent_of (get (codes "parent_revision_id") payload)
  raw_status ← expect_str payload (codes "status")
  status ← or_raise (status_of raw_status) (unknown_status raw_status)
  base_token ← expect_int payload (codes "base_token")
  token ← expect_int payload (codes "token")
  raise_if (not (int_eq token (base_token +ℤ pos 1))) (invalid (codes "token"))
  raw_sha256 ← expect_str payload (codes "accepted_text_sha256")
  accepted_text_sha256 ← expect_sha256_hex raw_sha256 (codes "accepted_text_sha256")
  created_note ← expect_str payload (codes "created_note")
  raw_signature ←
      or_raise (as_obj (get (codes "structure_signature") payload))
        (invalid (codes "structure_signature"))
  structure_signature ← signature_from_payload raw_signature
  ok (record {
    revision_id = revision_id;
    document_id = document_id;
    parent_revision_id = parent_value;
    status = status;
    base_token = base_token;
    token = token;
    structure_signature = structure_signature;
    accepted_text_sha256 = accepted_text_sha256;
    created_note = created_note;
  })
