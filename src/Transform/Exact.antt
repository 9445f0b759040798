-- ===== src/Transform/Exact.antt =====
-- The nodes and the errors of `apply_reviewed_proposal` (revision_transform.py).
use mathlib.Core.Bool.{false≢true}
use human_hand.Transform.Blame.{ordered_changes_blame, transform_nodes_blame}
use human_hand.Prelude.{
  ◌≡◌, ◌≢◌, refl, sym, ap, subst, ◌∙◌, inl, inr, Bool, true, false, not, ◌&&◌, none, List, [], ◌∷◌,
  arith, Text, eq→text_eq, All, is_nil, ok, err, Result-cases, Bool-cases,
}
use human_hand.Document.{DocumentNode, CanonicalDocument}
use human_hand.Lexical.{LexicalChange, LexicalProposal}
use human_hand.Lexical.Splice.{rebuild}
use human_hand.Lexical.Apply.{apply_changes}
use human_hand.Transform.{
  span_validation_failed, is_editable, ordered_changes, apply_node_changes, transform_nodes,
  validate_spans, apply_reviewed_proposal,
}
use human_hand.Transform.Nodes.{IsExact, IsExact-step, NodeStep, node_step, is_touched}
use human_hand.Transform.Outcome.{Reached, Reached-full, reached, outcome, by_offset}

-- Two lists of nodes, one to one.
abbrev pub Pairwise :
    (DocumentNode → DocumentNode → Type 0) → List DocumentNode → List DocumentNode → Type 0
Pairwise R [] [] = Unit
Pairwise R (x ∷ xs) (y ∷ ys) = R x y × Pairwise R xs ys
Pairwise R _ _ = ⊥

transform_nodes-Pairwise :
    {R : DocumentNode → DocumentNode → Type 0} (surface_text : Text) (cs : List LexicalChange)
    → ((n n' : DocumentNode) (ids : List Text)
        → apply_node_changes n surface_text cs ≡ ok (n', ids)
        → R n n')
    → (ns ns' : List DocumentNode) (covered : List Text)
    → transform_nodes surface_text cs ns ≡ ok (ns', covered)
    → Pairwise R ns ns'
unfolding transform_nodes
transform_nodes-Pairwise surface_text cs each [] [] covered h = tt
transform_nodes-Pairwise surface_text cs each [] (n' ∷ ns') covered h = absurd (ground arith)
transform_nodes-Pairwise {R} surface_text cs each (n ∷ ns) ns' covered h =
    elim (Result-cases (apply_node_changes n surface_text cs)) [
      | inr (x, e) ↦ absurd (ground arith)
      | inl ((m, ids), e) ↦ elim (Result-cases (transform_nodes surface_text cs ns)) [
        | inr (x, e') ↦ absurd (ground arith)
        | inl ((ms, ids'), e') ↦
            let same : m ∷ ms ≡ ns' = ground arith in
            subst (Pairwise R (n ∷ ns)) same
              (each n m ids e, transform_nodes-Pairwise surface_text cs each ns ms ids' e')
      ]
    ]

-- What a node keeps.
pub record IsKept (n n' : DocumentNode) : Type 0 where
  pub same_but_text_and_offsets : n' ≡ record n {
    text = n'.text;
    source_location = record (n.source_location) {
      start_offset = n'.source_location.start_offset;
      end_offset = n'.source_location.end_offset;
    };
  }
  pub frozen : is_editable n.node_type ≡ false → n'.text ≡ n.text
  pub blank : is_nil n.text ≡ true → n'.text ≡ n.text

calm_blank : (b c : Bool) → c ≡ true → (b && not c) ≡ false
calm_blank b c h = ground arith

NodeStep-IsKept :
    {n n' : DocumentNode} {surface_text : Text} {cs : List LexicalChange} {ids : List Text}
    → NodeStep n surface_text cs n' ids
    → IsKept n n'
NodeStep-IsKept {n} {n'} step = record {
  same_but_text_and_offsets = ground (arith, step.moved);
  frozen = λ e. elim (Bool-cases (is_touched n step.inside)) [
    | inl touched ↦ absurd (false≢true (sym e ∙ step.unprotected touched))
    | inr calm ↦ (step.kept calm).0
  ];
  blank = λ e. (step.kept (calm_blank (not (is_nil step.inside)) (is_nil n.text) e)).0;
}

-- A node that the last check looks at has an exact span.
abbrev pub IsExactIfEditable : Text → DocumentNode → Type 0
IsExactIfEditable surface_text n =
    is_editable n.node_type ≡ true → is_nil n.text ≡ false → IsExact surface_text n

validate_spans-of_exact :
    (surface : Text) (nodes : List DocumentNode)
    → All (IsExactIfEditable surface) nodes
    → validate_spans surface nodes ≡ ok tt
unfolding validate_spans
validate_spans-of_exact surface [] h = refl
validate_spans-of_exact surface (n ∷ ns) (x, h) =
    let rest = validate_spans-of_exact surface ns h in
    elim (Bool-cases (is_editable n.node_type)) [
      | inr e ↦ rw e rest
      | inl e ↦ elim (Bool-cases (is_nil n.text)) [
        | inl f ↦ rw (e, f) rest
        | inr f ↦ rw (e, f, eq→text_eq _ _ (x e f).exact) rest
      ]
    ]

Pairwise-both :
    (R S : DocumentNode → DocumentNode → Type 0) (xs ys : List DocumentNode)
    → Pairwise R xs ys
    → Pairwise S xs ys
    → Pairwise (λ x y. R x y × S x y) xs ys
Pairwise-both R S [] [] _ _ = tt
Pairwise-both R S [] (y ∷ ys) r _ = absurd r
Pairwise-both R S (x ∷ xs) [] r _ = absurd r
Pairwise-both R S (x ∷ xs) (y ∷ ys) (r, rs) (s, ss) = ((r, s), Pairwise-both R S xs ys rs ss)

Pairwise-All :
    {R : DocumentNode → DocumentNode → Type 0} {P Q : DocumentNode → Type 0}
    → ((x y : DocumentNode) → R x y → P x → Q y)
    → (xs ys : List DocumentNode) → Pairwise R xs ys
    → All P xs
    → All Q ys
Pairwise-All f [] [] r h = tt
Pairwise-All f [] (y ∷ ys) r h = absurd r
Pairwise-All f (x ∷ xs) [] r h = absurd r
Pairwise-All f (x ∷ xs) (y ∷ ys) (r, rs) (p, h) = (f x y r p, Pairwise-All f xs ys rs h)

old_editable :
    (n n' : DocumentNode)
    → IsKept n n'
    → is_editable n'.node_type ≡ true
    → is_editable n.node_type ≡ true
old_editable n n' k e = ap (λ m. is_editable m.node_type) (sym k.same_but_text_and_offsets) ∙ e

old_full : (n n' : DocumentNode) → IsKept n n' → is_nil n'.text ≡ false → is_nil n.text ≡ false
old_full n n' k e = elim (Bool-cases (is_nil n.text)) [
  | inl blank ↦ absurd (false≢true (sym e ∙ ap is_nil (k.blank blank) ∙ blank))
  | inr full ↦ full
]

module _ (sha256 nfc : Text → Text) (document : CanonicalDocument)
    (proposal : LexicalProposal) where
  nodes-IsExact :
      {surface : Text} {nodes : List DocumentNode} {covered : List Text}
      → Reached sha256 document proposal surface nodes covered
      → Pairwise (λ n n'. IsExact document.surface_text n → IsExact surface n') document.nodes nodes
  nodes-IsExact {surface} {nodes} {covered} r =
      transform_nodes-Pairwise document.surface_text (by_offset proposal)
        (λ n n' ids h x. rw r.rebuilt (
          IsExact-step document.surface_text (by_offset proposal) r.ordered (Reached-full r) n x n'
            ids (node_step n document.surface_text (by_offset proposal) n' ids h)))
        document.nodes nodes covered r.transformed

  -- After a successful `apply_reviewed_proposal` every node, editable or not, whose offsets cut its
  -- text out of the old surface text has offsets that cut its new text out of the new surface text.
  pub apply_reviewed_proposal-IsExact :
      (document' : CanonicalDocument)
      → apply_reviewed_proposal sha256 nfc document proposal ≡ ok document'
      → Pairwise
          (λ n n'. IsExact document.surface_text n → IsExact document'.surface_text n')
          document.nodes
          document'.nodes
  apply_reviewed_proposal-IsExact document' h =
      nodes-IsExact (outcome sha256 nfc document proposal document' h).stages

  nodes-IsKept :
      {surface : Text} {nodes : List DocumentNode} {covered : List Text}
      → Reached sha256 document proposal surface nodes covered
      → Pairwise IsKept document.nodes nodes
  nodes-IsKept {nodes} {covered} r =
      transform_nodes-Pairwise document.surface_text (by_offset proposal)
        (λ n n' ids h.
          NodeStep-IsKept (node_step n document.surface_text (by_offset proposal) n' ids h))
        document.nodes nodes covered r.transformed

  -- A successful `apply_reviewed_proposal` returns the document with its surface text rebuilt by the
  -- changes in one pass, its canonical text normalised from that, and its nodes one for one: a node
  -- keeps all but its text and offsets, and keeps its text too if its type is not editable.
  pub apply_reviewed_proposal-IsKept :
      (document' : CanonicalDocument)
      → apply_reviewed_proposal sha256 nfc document proposal ≡ ok document'
      → (document'.surface_text ≡ rebuild 0 document.surface_text (by_offset proposal))
        × (document' ≡ record document {
          surface_text = document'.surface_text;
          canonical_text = nfc document'.surface_text;
          nodes = document'.nodes;
        })
        × Pairwise IsKept document.nodes document'.nodes
  apply_reviewed_proposal-IsKept document' h =
      let o = outcome sha256 nfc document proposal document' h in
      (o.stages.rebuilt, o.same_record, nodes-IsKept o.stages)

  validated :
      {surface : Text} {nodes : List DocumentNode} {covered : List Text}
      → All (IsExactIfEditable document.surface_text) document.nodes
      → Reached sha256 document proposal surface nodes covered
      → validate_spans surface nodes ≡ ok tt
  validated {surface} {nodes} x r = validate_spans-of_exact surface nodes (
      Pairwise-All
        (λ n n' both ex editable full.
          let (exact, kept) = both in
          exact (ex (old_editable n n' kept editable) (old_full n n' kept full)))
        document.nodes nodes
        (Pairwise-both _ _ document.nodes nodes (nodes-IsExact r) (nodes-IsKept r)) x)

  -- In a document whose editable nodes with text have exact spans, the last check of
  -- `apply_reviewed_proposal` never fails: no proposal makes it raise `span_validation_failed`.
  pub apply_reviewed_proposal-ne-span_validation_failed :
      (id : Text)
      → All (IsExactIfEditable document.surface_text) document.nodes
      → apply_reviewed_proposal sha256 nfc document proposal ≢ err (span_validation_failed id)
  unfolding apply_reviewed_proposal
  apply_reviewed_proposal-ne-span_validation_failed id x = λ h.
      elim (Result-cases (ordered_changes proposal)) [
        | inr (e, o) ↦ ordered_changes_blame id proposal (ground arith)
        | inl (cs, o) ↦
            elim (Result-cases (apply_changes sha256 document.surface_text proposal none)) [
              | inr (e, a) ↦ ground arith
              | inl (surface, a) ↦
                  elim (Result-cases (transform_nodes document.surface_text cs document.nodes)) [
                    | inr (e, t) ↦
                        transform_nodes_blame id document.surface_text cs document.nodes
                          (ground arith)
                    | inl ((nodes, covered), t) ↦ ground (
                      arith,
                      validated x
                          (reached sha256 nfc document proposal cs surface nodes covered o a t),
                    )
                  ]
            ]
      ]
