-- ===== src/Transform/Nodes.antt =====
-- One node under `_apply_node_changes` (revision_transform.py), and the exactness of its span.
use human_hand.Prelude.{
  ℕ, ◌-◌, ◌≤◌, ◌≡◌, refl, sym, ap, ◌∙◌, ◌⊎◌, inl, inr, Bool, true, false, not, ◌&&◌, List, [], ◌∷◌,
  reverse, arith, Text, slice, All, length, is_nil, length-take, All-map, All-append_left,
  length-drop, drop, ok, Result-cases, Bool-cases,
}
use human_hand.Prelude.Sort.{sorted_reverse, sorted_reverse-eq-reverse, sorted-of_IsStrict}
use human_hand.Document.{DocumentNode}
use human_hand.Lexical.{LexicalChange}
use human_hand.Lexical.Splice.{rebuild, IsOrdered, EndsBy}
use human_hand.Lexical.Apply.Order.{IsNonempty}
use human_hand.Transform.{
  is_editable, changes_inside, offset_le, edit_loop, edit_node, apply_node_changes, shifted_offset,
}
use human_hand.Transform.Order.{IsOrdered-IsStrict_offset}
use human_hand.Transform.Split.{Split, split}
use human_hand.Transform.Spans.{rest_full, slice-shifted, shifted_room}
use human_hand.Transform.Edit.{edit_loop-rebuild}

-- The node's offsets cut its text out of the surface text.
pub record IsExact (surface_text : Text) (node : DocumentNode) : Type 0 where
  pub ordered : node.source_location.start_offset ≤ node.source_location.end_offset
  pub within : node.source_location.end_offset ≤ length surface_text
  pub exact :
      slice surface_text node.source_location.start_offset node.source_location.end_offset
      ≡ node.text

abbrev pub is_touched : DocumentNode → List LexicalChange → Bool
is_touched node inside = not (is_nil inside) && not (is_nil node.text)

-- What `_apply_node_changes` leaves of a node, and by which changes.
pub record NodeStep (node : DocumentNode) (surface_text : Text) (cs : List LexicalChange)
    (node' : DocumentNode) (covered : List Text) : Type 0 where
  pub inside : List LexicalChange
  pub found :
      changes_inside node.source_location.start_offset node.source_location.end_offset cs
      ≡ ok inside
  pub unprotected : is_touched node inside ≡ true → is_editable node.node_type ≡ true
  pub edited :
      is_touched node inside ≡ true → edit_node node surface_text inside ≡ ok (node'.text, covered)
  pub kept : is_touched node inside ≡ false → (node'.text ≡ node.text) × (covered ≡ [])
  pub moved : node' ≡ record node {
    text = node'.text;
    source_location = record (node.source_location) {
      start_offset = shifted_offset node.source_location.start_offset cs;
      end_offset = shifted_offset node.source_location.end_offset cs;
    };
  }

pub node_step :
    (node : DocumentNode) (surface_text : Text) (cs : List LexicalChange) (node' : DocumentNode)
    (covered : List Text)
    → apply_node_changes node surface_text cs ≡ ok (node', covered)
    → NodeStep node surface_text cs node' covered
unfolding apply_node_changes
node_step node surface_text cs node' covered h =
    elim (Result-cases
      (changes_inside node.source_location.start_offset node.source_location.end_offset cs)) [
        | inr (e, found) ↦ absurd (ground arith)
        | inl (inside, found) ↦ elim (Bool-cases (is_touched node inside)) [
          | inr calm ↦ record {
            inside = inside;
            found = found;
            unprotected = ground arith;
            edited = ground arith;
            kept = ground arith;
            moved = ground arith;
          }
          | inl touched ↦ elim (Result-cases (edit_node node surface_text inside)) [
            | inr (e, failed) ↦ absurd (ground arith)
            | inl ((new_text, ids), done) ↦ record {
              inside = inside;
              found = found;
              unprotected = ground arith;
              edited = ground arith;
              kept = ground arith;
              moved = ground arith;
            }
          ]
        ]
      ]

-- No change fits inside an empty span.
inside_empty :
    (start end : ℕ) (inside : List LexicalChange)
    → end ≤ start
    → IsOrdered start inside
    → EndsBy end inside
    → All IsNonempty inside
    → inside ≡ []
inside_empty start end [] _ _ _ _ = refl
inside_empty start end (c ∷ cs) h (first, _) (last, _) (full, _) = absurd (omega arith)

edit_node-loop :
    (node : DocumentNode) (surface_text : Text) (inside : List LexicalChange) {t : Text}
    {ids : List Text}
    → edit_node node surface_text inside ≡ ok (t, ids)
    → edit_loop node.source_location.start_offset node.text (sorted_reverse offset_le inside) ≡ ok t
unfolding edit_node
edit_node-loop node surface_text inside h =
    elim (Result-cases
      (edit_loop node.source_location.start_offset node.text (sorted_reverse offset_le inside))) [
        | inl (t', e) ↦ ground arith
        | inr (x, e) ↦ absurd (ground arith)
      ]

nil_of_calm :
    (cs : List LexicalChange) (t : Text)
    → (not (is_nil cs) && not (is_nil t)) ≡ false
    → (cs ≡ []) ⊎ (t ≡ [])
nil_of_calm [] t h = inl refl
nil_of_calm (c ∷ cs) [] h = inr refl
nil_of_calm (c ∷ cs) (d ∷ t) h = cc

rebuild-nil : (from : ℕ) (t : Text) {cs : List LexicalChange} → cs ≡ [] → rebuild from t cs ≡ t
unfolding rebuild
rebuild-nil from t e = rw e

module _ (surface_text : Text) (cs : List LexicalChange) (ordered : IsOrdered 0 cs)
    (full : All IsNonempty cs) (node : DocumentNode) (x : IsExact surface_text node) where
  abbrev start : ℕ
  start = node.source_location.start_offset

  abbrev end : ℕ
  end = node.source_location.end_offset

  length-text : length node.text ≡ end - start
  length-text = rw (← x.exact) (
      omega (
        arith,
        x.ordered,
        x.within,
        length-take (end - start) (drop start surface_text),
        length-drop start surface_text,
      ))

  module _ (node' : DocumentNode) (covered : List Text)
      (step : NodeStep node surface_text cs node' covered) where
    abbrev parts : Split 0 start end cs step.inside
    parts = split 0 start end cs step.inside x.ordered ordered step.found

    inside_full : All IsNonempty step.inside
    inside_full =
        All-append_left IsNonempty step.inside parts.behind
          (rest_full surface_text start end x.ordered x.within full parts)

    reversed : sorted_reverse offset_le step.inside ≡ reverse step.inside
    reversed =
        let strict = IsOrdered-IsStrict_offset start step.inside parts.inside_ordered inside_full in
        let same = sorted-of_IsStrict offset_le step.inside strict in
        sorted_reverse-eq-reverse offset_le step.inside (rw same strict) ∙ ap reverse same

    none_inside : is_touched node step.inside ≡ false → step.inside ≡ []
    none_inside calm = elim (nil_of_calm step.inside node.text calm) [
      | inl gone ↦ gone
      | inr blank ↦
          inside_empty start end step.inside (omega (arith, length-text, ap length blank))
            parts.inside_ordered parts.inside_ends inside_full
    ]

    text_rebuilt : node'.text ≡ rebuild start node.text step.inside
    text_rebuilt = elim (Bool-cases (is_touched node step.inside)) [
      | inl touched ↦
          edit_loop-rebuild start start node.text step.inside (omega arith) parts.inside_ordered
            (All-map step.inside (λ c e. omega (arith, length-text)) parts.inside_ends)
            (ap (edit_loop start node.text) (sym reversed)
              ∙ edit_node-loop node surface_text step.inside (step.edited touched))
      | inr calm ↦ (step.kept calm).0 ∙ sym (rebuild-nil start node.text (none_inside calm))
    ]

    pub IsExact-step : IsExact (rebuild 0 surface_text cs) node'
    IsExact-step =
        let (forward, inside) = shifted_room surface_text start end x.ordered x.within full parts in
        rw step.moved (record {
          ordered = forward;
          within = inside;
          exact =
              slice-shifted surface_text start end x.ordered x.within full parts
              ∙ ap (λ t. rebuild start t step.inside) x.exact
              ∙ sym text_rebuilt;
        })
