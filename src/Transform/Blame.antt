-- ===== src/Transform/Blame.antt =====
-- Which stage of `apply_reviewed_proposal` (revision_transform.py) raises which error.
use human_hand.Prelude.{ℕ, ◌+◌, ◌≢◌, List, [], ◌∷◌, arith, Text, err, Result-cases, inl, inr}
use human_hand.Prelude.Sort.{sorted, sorted_reverse}
use human_hand.Document.{DocumentNode}
use human_hand.Lexical.{LexicalChange, LexicalProposal}
use human_hand.Lexical.Apply.{key_le}
use human_hand.Transform.{
  span_validation_failed, check_order, ordered_changes, changes_inside, offset_le, edit_change,
  edit_loop, edit_node, apply_node_changes, transform_nodes,
}

module _ (id : Text) where
  check_order_blame :
      (from : ℕ) (cs : List LexicalChange) → check_order from cs ≢ err (span_validation_failed id)
  unfolding check_order
  check_order_blame from [] = λ h. ground arith
  check_order_blame from (c ∷ cs) = λ h. ground (arith, check_order_blame (c.offset + c.length) cs)

  pub ordered_changes_blame :
      (proposal : LexicalProposal) → ordered_changes proposal ≢ err (span_validation_failed id)
  unfolding ordered_changes
  ordered_changes_blame proposal =
      λ h. ground (arith, check_order_blame 0 (sorted key_le proposal.changes))

  changes_inside_blame :
      (start end : ℕ) (cs : List LexicalChange)
      → changes_inside start end cs ≢ err (span_validation_failed id)
  unfolding changes_inside
  changes_inside_blame start end [] = λ h. ground arith
  changes_inside_blame start end (c ∷ cs) = λ h. ground (arith, changes_inside_blame start end cs)

  edit_change_blame :
      (start : ℕ) (working : Text) (c : LexicalChange)
      → edit_change start working c ≢ err (span_validation_failed id)
  unfolding edit_change
  edit_change_blame start working c = λ h. ground arith

  edit_loop_blame :
      (start : ℕ) (working : Text) (cs : List LexicalChange)
      → edit_loop start working cs ≢ err (span_validation_failed id)
  unfolding edit_loop
  edit_loop_blame start working [] = λ h. ground arith
  edit_loop_blame start working (c ∷ cs) = λ h. elim (Result-cases (edit_change start working c)) [
    | inl (w, e) ↦ edit_loop_blame start w cs (ground arith)
    | inr (x, e) ↦ edit_change_blame start working c (ground arith)
  ]

  edit_node_blame :
      (node : DocumentNode) (surface_text : Text) (cs : List LexicalChange)
      → edit_node node surface_text cs ≢ err (span_validation_failed id)
  unfolding edit_node
  edit_node_blame node surface_text cs = λ h. ground (
    arith,
    edit_loop_blame node.source_location.start_offset node.text (sorted_reverse offset_le cs),
  )

  apply_node_changes_blame :
      (node : DocumentNode) (surface_text : Text) (cs : List LexicalChange)
      → apply_node_changes node surface_text cs ≢ err (span_validation_failed id)
  unfolding apply_node_changes
  apply_node_changes_blame node surface_text cs = λ h.
      elim (Result-cases
        (changes_inside node.source_location.start_offset node.source_location.end_offset cs)) [
          | inl (inside, e) ↦ ground (arith, edit_node_blame node surface_text inside)
          | inr (x, e) ↦
              changes_inside_blame node.source_location.start_offset node.source_location.end_offset
                cs (ground arith)
        ]

  pub transform_nodes_blame :
      (surface_text : Text) (cs : List LexicalChange) (nodes : List DocumentNode)
      → transform_nodes surface_text cs nodes ≢ err (span_validation_failed id)
  unfolding transform_nodes
  transform_nodes_blame surface_text cs [] = λ h. ground arith
  transform_nodes_blame surface_text cs (n ∷ ns) = λ h.
      ground (
        arith,
        apply_node_changes_blame n surface_text cs,
        transform_nodes_blame surface_text cs ns,
      )
