-- ===== src/Transform/Outcome.antt =====
-- What a successful `apply_reviewed_proposal` has established, stage by stage.
use mathlib.Core.Path.{subst₂}
use human_hand.Prelude.{
  ◌≡◌, refl, sym, ap, subst, ◌∙◌, inl, inr, true, none, List, [], ◌∷◌, map, arith, Text, All,
  All-map, select, ok, Result-cases,
}
use human_hand.Prelude.Sort.{sorted}
use human_hand.Document.{DocumentNode, CanonicalDocument}
use human_hand.Lexical.{LexicalChange, LexicalProposal}
use human_hand.Lexical.Splice.{rebuild, IsOrdered, Fits}
use human_hand.Lexical.Apply.{key_le, is_selected, apply_changes}
use human_hand.Lexical.Apply.Order.{IsNonempty}
use human_hand.Lexical.Apply.Correct.{apply_changes-rebuild}
use human_hand.Transform.{ordered_changes, transform_nodes, same_set, apply_reviewed_proposal}
use human_hand.Transform.Order.{ordered_changes-eq-ok}

-- `only_status=None` selects every change.
select_all : (cs : List LexicalChange) → select (is_selected none) cs ≡ cs
unfolding select is_selected
select_all [] = refl
select_all (c ∷ cs) = ap (λ t. c ∷ t) (select_all cs)

abbrev pub by_offset : LexicalProposal → List LexicalChange
by_offset proposal = sorted key_le proposal.changes

-- The stages up to the loop over the nodes, which also the last check's error lies behind.
pub record Reached (sha256 : Text → Text) (document : CanonicalDocument)
    (proposal : LexicalProposal) (surface : Text) (nodes : List DocumentNode) (covered : List Text)
    : Type 0 where
  pub ordered : IsOrdered 0 (by_offset proposal)
  pub fits : All (Fits 0 document.surface_text) (by_offset proposal)
  pub rebuilt : surface ≡ rebuild 0 document.surface_text (by_offset proposal)
  pub transformed :
      transform_nodes document.surface_text (by_offset proposal) document.nodes
      ≡ ok (nodes, covered)

pub Reached-full :
    {sha256 : Text → Text} {document : CanonicalDocument} {proposal : LexicalProposal}
    {surface : Text} {nodes : List DocumentNode} {covered : List Text}
    → Reached sha256 document proposal surface nodes covered
    → All IsNonempty (by_offset proposal)
Reached-full {proposal = p} r = All-map (by_offset p) (λ c f. f.nonempty) r.fits

module _ (sha256 nfc : Text → Text) (document : CanonicalDocument)
    (proposal : LexicalProposal) where
  pub reached :
      (cs : List LexicalChange) (surface : Text) (nodes : List DocumentNode) (covered : List Text)
      → ordered_changes proposal ≡ ok cs
      → apply_changes sha256 document.surface_text proposal none ≡ ok surface
      → transform_nodes document.surface_text cs document.nodes ≡ ok (nodes, covered)
      → Reached sha256 document proposal surface nodes covered
  reached cs surface nodes covered o a t =
      let (e, ordered) = ordered_changes-eq-ok proposal o in
      let all = ap (sorted key_le) (select_all proposal.changes) in
      let ordered' : IsOrdered 0 (by_offset proposal) = subst (IsOrdered 0) e ordered in
      let (_, _, fits, w) =
        apply_changes-rebuild sha256 document.surface_text proposal none
          (subst (IsOrdered 0) (sym all) ordered') a in
      record {
        ordered = ordered';
        fits = subst (All (Fits 0 document.surface_text)) all fits;
        rebuilt = w ∙ ap (rebuild 0 document.surface_text) all;
        transformed = rw e at t;
      }

  -- What `apply_reviewed_proposal` returns, in terms of the stages.
  pub record Outcome (document' : CanonicalDocument) : Type 0 where
    pub covered : List Text
    pub stages : Reached sha256 document proposal document'.surface_text document'.nodes covered
    pub all_covered : same_set covered (map (λ c. c.change_id) (by_offset proposal)) ≡ true
    pub same_record : document' ≡ record document {
      surface_text = document'.surface_text;
      canonical_text = nfc document'.surface_text;
      nodes = document'.nodes;
    }

  pub outcome :
      (document' : CanonicalDocument)
      → apply_reviewed_proposal sha256 nfc document proposal ≡ ok document'
      → Outcome document'
  unfolding apply_reviewed_proposal
  outcome document' h = elim (Result-cases (ordered_changes proposal)) [
    | inr (x, o) ↦ absurd (ground arith)
    | inl (cs, o) ↦ elim (Result-cases (apply_changes sha256 document.surface_text proposal none)) [
      | inr (x, a) ↦ absurd (ground arith)
      | inl (surface, a) ↦
          elim (Result-cases (transform_nodes document.surface_text cs document.nodes)) [
            | inr (x, t) ↦ absurd (ground arith)
            | inl ((nodes, covered), t) ↦
                let ac : same_set covered (map (λ c. c.change_id) cs) ≡ true = ground arith in
                let e1 : surface ≡ document'.surface_text = ground arith in
                let e2 : nodes ≡ document'.nodes = ground arith in
                let r = reached cs surface nodes covered o a t in
                record {
                  covered = covered;
                  stages = subst₂ (λ w ns. Reached sha256 document proposal w ns covered) e1 e2 r;
                  all_covered =
                      subst (λ l. same_set covered (map (λ c. c.change_id) l) ≡ true)
                        (ordered_changes-eq-ok proposal o).0 ac;
                  same_record = ground arith;
                }
          ]
    ]
  ]
