-- ===== src/Transform/Tests.antt =====
-- A concrete run of `apply_reviewed_proposal`: a heading and a paragraph, with two changes of the
-- paragraph. Every text has the same hash here, and normalisation does nothing.
use human_hand.Prelude.{
  ℕ, ◌≡◌, ◌≢◌, refl, none, List, [], ◌∷◌, arith, Text, codes, text_eq, contains, any, all, ok, err,
  length, All, true, select,
}
use human_hand.Prelude.Int.{◌+ℤ◌, ◌-ℤ◌}
use human_hand.Prelude.Sort
use human_hand.Document.{NodeType, heading, paragraph, DocumentNode, CanonicalDocument}
use human_hand.Document.Signature.{compute_structure_signature, revalidate_structure}
use human_hand.Lexical.{LexicalChange, LexicalProposal, safe, lexical_proposal_schema_version}
use human_hand.Lexical.Apply.{
  apply_changes, apply_change, apply_loop, is_selected, key_le, replace_span,
}
use human_hand.Lexical.Splice.{rebuild}
use human_hand.Transform.{
  span_validation_failed, apply_reviewed_proposal, ordered_changes, check_order, has_line_break,
  transform_nodes, apply_node_changes, changes_inside, shifted_offset, shift, shift_step, edit_node,
  edit_loop, edit_change, offset_le, same_set, validate_spans, is_editable, is_protected_text,
}
use human_hand.Transform.Nodes.{IsExact}
use human_hand.Transform.Outcome.{by_offset}
use human_hand.Transform.Exact.{
  Pairwise, IsKept, IsExactIfEditable, apply_reviewed_proposal-IsExact,
  apply_reviewed_proposal-IsKept, apply_reviewed_proposal-ne-span_validation_failed,
}
use human_hand.Transform.Structure.{apply_reviewed_proposal-revalidate_structure}

abbrev same : Text → Text
same t = t

abbrev hash : Text → Text
hash t = codes "00"

abbrev digits : ℕ → Text
digits n = codes "1"

abbrev change_to : Text → ℕ → Text → Text → LexicalChange
change_to id offset surface target = record {
  change_id = id;
  offset = offset;
  length = length surface;
  source_surface = surface;
  target = target;
  reason = codes "plain words";
  precedence = codes "USER";
  confidence = 900000;
  status = safe;
  rule_id = codes "r1";
  sense = codes "general";
  ruleset_hash = codes "11";
}

abbrev proposal : LexicalProposal
proposal = record {
  proposal_id = codes "run-1";
  run_id = codes "run-1";
  ruleset_hash = codes "11";
  document_hash = codes "00";
  schema_version = lexical_proposal_schema_version;
  changes =
      change_to (codes "c2") 10 (codes "big") (codes "much")
      ∷ change_to (codes "c1") 6 (codes "use") (codes "take")
      ∷ [];
  findings = [];
}

abbrev node : NodeType → Text → ℕ → ℕ → Text → DocumentNode
node type id from to text = record {
  node_id = id;
  parent_id = none;
  node_type = type;
  position = 0;
  source_location = record { start_offset = from; end_offset = to; line_start = 1; line_end = 1 };
  text = text;
  attributes = [];
  authorship_class = none;
  protected_span_refs = [];
  finding_codes = [];
}

abbrev document_of : Text → DocumentNode → DocumentNode → CanonicalDocument
document_of text a b = record {
  schema_version = 1;
  lane = codes "markdown";
  parser_name = codes "p";
  parser_version = codes "1";
  policy_version = codes "1";
  revision_policy = codes "none";
  surface_text = text;
  canonical_text = text;
  nodes = a ∷ b ∷ [];
  findings = [];
}

abbrev before : CanonicalDocument
before =
    document_of (codes "Hi we use big") (node heading (codes "n1") 0 2 (codes "Hi"))
      (node paragraph (codes "n2") 3 13 (codes "we use big"))

abbrev after : CanonicalDocument
after =
    document_of (codes "Hi we take much") (node heading (codes "n1") 0 2 (codes "Hi"))
      (node paragraph (codes "n2") 3 15 (codes "we take much"))

applied : apply_reviewed_proposal hash same before proposal ≡ ok after
unfolding apply_reviewed_proposal ordered_changes check_order has_line_break transform_nodes
    apply_node_changes changes_inside shifted_offset shift shift_step edit_node edit_loop
    edit_change offset_le same_set validate_spans is_editable is_protected_text apply_changes
    apply_loop apply_change select is_selected key_le text_eq contains any all replace_span
    human_hand.Prelude.Sort.sorted human_hand.Prelude.Sort.insert
    human_hand.Prelude.Sort.sorted_reverse human_hand.Prelude.Sort.insert_down ◌+ℤ◌ ◌-ℤ◌
applied = refl

exact : All (IsExactIfEditable before.surface_text) before.nodes
exact = (
  λ editable full. record { ordered = omega arith; within = omega arith; exact = refl },
  (λ editable full. record { ordered = omega arith; within = omega arith; exact = refl }, tt),
)

apply_reviewed_proposal-IsExact_example :
    Pairwise
      (λ n n'. IsExact before.surface_text n → IsExact after.surface_text n')
      before.nodes
      after.nodes
apply_reviewed_proposal-IsExact_example =
    apply_reviewed_proposal-IsExact hash same before proposal after applied

apply_reviewed_proposal-IsKept_example :
    (after.surface_text ≡ rebuild 0 before.surface_text (by_offset proposal))
    × (after ≡ record before {
      surface_text = after.surface_text;
      canonical_text = same after.surface_text;
      nodes = after.nodes;
    })
    × Pairwise IsKept before.nodes after.nodes
apply_reviewed_proposal-IsKept_example =
    apply_reviewed_proposal-IsKept hash same before proposal after applied

apply_reviewed_proposal-ne-span_validation_failed_example :
    apply_reviewed_proposal hash same before proposal ≢ err (span_validation_failed (codes "n2"))
apply_reviewed_proposal-ne-span_validation_failed_example =
    apply_reviewed_proposal-ne-span_validation_failed hash same before proposal (codes "n2") exact

apply_reviewed_proposal-revalidate_structure_example :
    revalidate_structure
      (compute_structure_signature hash digits after)
      (compute_structure_signature hash digits before)
    ≡ (true, [])
apply_reviewed_proposal-revalidate_structure_example =
    apply_reviewed_proposal-revalidate_structure hash same digits before after proposal applied
