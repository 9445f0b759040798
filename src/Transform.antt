-- ===== src/Transform.antt =====
-- src/humanhand/domain/revision_transform.py: the reviewed changes are applied to the surface text and
-- to the nodes of a canonical document. `sha256` and `nfc` stand for `hashlib` and `unicodedata`.
pub mod Split
pub mod Shift
pub mod Spans
pub mod Edit
pub mod Nodes
pub mod Outcome
pub mod Exact
pub mod Blame
pub mod Order
pub mod Structure
mod Tests
use human_hand.Prelude.{
  ℕ, ◌+◌, ◌-◌, Bool, true, false, not, ◌&&◌, ◌||◌, none, List, [], ◌∷◌, ◌++◌, map, ◌==◌, ltb, leb,
  if◌then◌else◌, length, is_nil, any, all, Text, slice, text_eq, contains, Result, ok, err, ◌>>=◌,
  ◌>>◌, raise_if, map_err,
}
use human_hand.Prelude.Int.{ℤ, pos, pos_part, ◌+ℤ◌, ◌-ℤ◌}
use human_hand.Prelude.Sort.{sorted, sorted_reverse}
use human_hand.Lexical.{LexicalChange, LexicalProposal}
use human_hand.Lexical.Apply.{ApplyError, key_le, replace_span, apply_changes}
use human_hand.Document.{
  NodeType, paragraph, sentence, text_run, list_item, table_cell, heading, quotation, citation,
  footnote, endnote, code_block, hyperlink, SourceLocation, DocumentNode, CanonicalDocument,
}

-- The `DomainError`s, with the id that the message names.
pub data TransformError : Type 0 where
  crosses_line_boundary : (change_id : Text) → TransformError
  introduces_line_boundary : (change_id : Text) → TransformError
  overlapping_changes : TransformError
  crosses_node_boundary : (change_id : Text) → TransformError
  touches_protected_node : (node_id : Text) → TransformError
  touches_unsupported_node : (node_id : Text) → TransformError
  invalid_source_offsets : (node_id : Text) → TransformError
  not_exact_span : (node_id : Text) → TransformError
  node_text_mismatch : (change_id : Text) → TransformError
  changes_not_covered : TransformError
  span_validation_failed : (node_id : Text) → TransformError
  apply_failed : ApplyError → TransformError

-- `_EDITABLE_NODE_TYPES`
unfoldable pub is_editable : NodeType → Bool
is_editable paragraph = true
is_editable sentence = true
is_editable text_run = true
is_editable list_item = true
is_editable table_cell = true
is_editable _ = false

-- `_PROTECTED_TEXT_NODE_TYPES`
unfoldable pub is_protected_text : NodeType → Bool
is_protected_text heading = true
is_protected_text quotation = true
is_protected_text citation = true
is_protected_text footnote = true
is_protected_text endnote = true
is_protected_text code_block = true
is_protected_text hyperlink = true
is_protected_text _ = false

-- `"\n" in text or "\r" in text`
unfoldable pub has_line_break : Text → Bool
unfolding any
has_line_break text = any (λ c. c == 10) text || any (λ c. c == 13) text

-- The loop of `_ordered_changes`. `previous_end` starts at -1 there, which no offset is below.
unfoldable pub check_order : ℕ → List LexicalChange → Result TransformError (Unit {0})
unfolding has_line_break
check_order previous_end [] = ok tt
check_order previous_end (change ∷ rest) = do
  raise_if (has_line_break change.source_surface) (crosses_line_boundary change.change_id)
  raise_if (has_line_break change.target) (introduces_line_boundary change.change_id)
  raise_if (ltb change.offset previous_end) overlapping_changes
  check_order (change.offset + change.length) rest

unfoldable pub ordered_changes : LexicalProposal → Result TransformError (List LexicalChange)
ordered_changes proposal = do
  let changes = sorted key_le proposal.changes
  check_order 0 changes
  ok changes

-- One round of the loop of `_shifted_offset`, and the loop, from the shift so far.
unfoldable pub shift_step : ℕ → ℤ → LexicalChange → ℤ
shift_step offset acc change =
    if leb (change.offset + change.length) offset
    then acc +ℤ (pos (length change.target) -ℤ pos change.length)
    else acc

unfoldable pub shift : ℕ → ℤ → List LexicalChange → ℤ
unfolding shift_step
shift offset acc [] = acc
shift offset acc (change ∷ rest) = shift offset (shift_step offset acc change) rest

-- `offset + shift`, which is never negative for changes that `_ordered_changes` passes.
unfoldable pub shifted_offset : ℕ → List LexicalChange → ℕ
shifted_offset offset changes = pos_part (pos offset +ℤ shift offset (pos 0) changes)

unfoldable pub changes_inside :
    (start end : ℕ) → List LexicalChange → Result TransformError (List LexicalChange)
changes_inside start end [] = ok []
changes_inside start end (change ∷ rest) =
    let change_end = change.offset + change.length in
    let inside = changes_inside start end rest in
    if ltb change.offset end && ltb start change_end
    then (do
      raise_if (ltb change.offset start || ltb end change_end)
          (crosses_node_boundary change.change_id)
      others ← inside
      ok (change ∷ others))
    else inside

unfoldable pub offset_le : LexicalChange → LexicalChange → Bool
offset_le a b = leb a.offset b.offset

-- One round of the loop over the changes of one node, and the loop, last offset first.
unfoldable pub edit_change : (start : ℕ) → Text → LexicalChange → Result TransformError Text
edit_change start working change = do
  let local_offset = change.offset - start
  raise_if
      (not
        (text_eq (slice working local_offset (local_offset + change.length)) change.source_surface))
      (node_text_mismatch change.change_id)
  ok (replace_span working local_offset change.length change.target)

unfoldable pub edit_loop : (start : ℕ) → Text → List LexicalChange → Result TransformError Text
unfolding edit_change
edit_loop start working [] = ok working
edit_loop start working (change ∷ rest) = do
  working' ← edit_change start working change
  edit_loop start working' rest

-- The new text of a node whose text some changes touch, and the ids of those changes.
unfoldable pub edit_node :
    DocumentNode → Text → List LexicalChange → Result TransformError (Text × List Text)
edit_node node surface_text node_changes = do
  let start = node.source_location.start_offset
  let end = node.source_location.end_offset
  raise_if (ltb (length surface_text) end || ltb end start) (invalid_source_offsets node.node_id)
  raise_if (not (text_eq (slice surface_text start end) node.text)) (not_exact_span node.node_id)
  new_text ← edit_loop start node.text (sorted_reverse offset_le node_changes)
  ok (new_text, map (λ c. c.change_id) node_changes)

unfoldable pub apply_node_changes :
    DocumentNode → Text → List LexicalChange → Result TransformError (DocumentNode × List Text)
apply_node_changes node surface_text changes = do
  let location = node.source_location
  node_changes ← changes_inside location.start_offset location.end_offset changes
  let touched = not (is_nil node_changes) && not (is_nil node.text)
  raise_if (touched && is_protected_text node.node_type) (touches_protected_node node.node_id)
  raise_if (touched && not (is_editable node.node_type)) (touches_unsupported_node node.node_id)
  (new_text, covered) ←
      (if touched then edit_node node surface_text node_changes else ok (node.text, []))
  ok (
    record node {
      text = new_text;
      source_location = record location {
        start_offset = shifted_offset location.start_offset changes;
        end_offset = shifted_offset location.end_offset changes;
      };
    },
    covered,
  )

-- The loop over the nodes: the new nodes, and the ids of the changes that they cover.
unfoldable pub transform_nodes :
    Text
    → List LexicalChange
    → List DocumentNode
    → Result TransformError (List DocumentNode × List Text)
transform_nodes surface_text changes [] = ok ([], [])
transform_nodes surface_text changes (node ∷ rest) = do
  (transformed, covered) ← apply_node_changes node surface_text changes
  (others, covered') ← transform_nodes surface_text changes rest
  ok (transformed ∷ others, covered ++ covered')

-- `a != b` of two sets of ids, negated.
unfoldable pub same_set : List Text → List Text → Bool
unfolding all contains
same_set xs ys = all (λ x. contains x ys) xs && all (λ y. contains y xs) ys

-- The last loop of `apply_reviewed_proposal`.
unfoldable pub validate_spans : Text → List DocumentNode → Result TransformError (Unit {0})
unfolding is_editable
validate_spans surface_text [] = ok tt
validate_spans surface_text (node ∷ rest) = do
  let location = node.source_location
  raise_if
      (is_editable node.node_type
        && not (is_nil node.text)
        && not (text_eq (slice surface_text location.start_offset location.end_offset) node.text))
      (span_validation_failed node.node_id)
  validate_spans surface_text rest

unfoldable pub apply_reviewed_proposal :
    (sha256 nfc : Text → Text)
    → CanonicalDocument
    → LexicalProposal
    → Result TransformError CanonicalDocument
apply_reviewed_proposal sha256 nfc document proposal = do
  changes ← ordered_changes proposal
  new_surface ← map_err apply_failed (apply_changes sha256 document.surface_text proposal none)
  (new_nodes, covered) ← transform_nodes document.surface_text changes document.nodes
  raise_if (not (same_set covered (map (λ c. c.change_id) changes))) changes_not_covered
  let transformed = record document {
    surface_text = new_surface;
    canonical_text = nfc new_surface;
    nodes = new_nodes;
  }
  validate_spans transformed.surface_text transformed.nodes
  ok transformed
