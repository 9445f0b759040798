-- ===== src/Transform/Structure.antt =====
-- The structure check of finalization (`revalidate_structure` on the signatures of the transformed and
-- the original document) after `apply_reviewed_proposal`.
use human_hand.Prelude.{arith, ◌≡◌, refl, ap, ◌∙◌, ℕ, true, false, List, [], ◌∷◌, Text, ok}
use human_hand.Document.{NodeType, heading, DocumentNode, CanonicalDocument}
use human_hand.Document.Signature.{is_heading, compute_structure_signature, revalidate_structure}
use human_hand.Document.Signature.Stable.{
  SameStructure, SameNodes, signature-of_SameNodes, revalidate_structure_refl,
}
use human_hand.Lexical.{LexicalProposal}
use human_hand.Transform.{is_editable, apply_reviewed_proposal}
use human_hand.Transform.Exact.{Pairwise, IsKept, apply_reviewed_proposal-IsKept}

heading_frozen : (t : NodeType) → is_heading t ≡ true → is_editable t ≡ false
unfolding is_heading is_editable
heading_frozen heading h = refl
heading_frozen t h = ground arith

IsKept-SameStructure : (n n' : DocumentNode) → IsKept n n' → SameStructure n n'
IsKept-SameStructure n n' k = record {
  type = ap (λ m. m.node_type) k.same_but_text_and_offsets;
  text = λ e. k.frozen (heading_frozen n.node_type e);
}

Pairwise-SameNodes : (ns ms : List DocumentNode) → Pairwise IsKept ns ms → SameNodes ns ms
Pairwise-SameNodes [] [] h = tt
Pairwise-SameNodes [] (m ∷ ms) h = absurd h
Pairwise-SameNodes (n ∷ ns) [] h = absurd h
Pairwise-SameNodes (n ∷ ns) (m ∷ ms) (k, h) =
    (IsKept-SameStructure n m k, Pairwise-SameNodes ns ms h)

module _ (sha256 nfc : Text → Text) (decimal : ℕ → Text) where
  -- After a successful `apply_reviewed_proposal` the structure check between the signature of the
  -- transformed document and that of the original passes with no finding.
  pub apply_reviewed_proposal-revalidate_structure :
      (original transformed : CanonicalDocument) (proposal : LexicalProposal)
      → apply_reviewed_proposal sha256 nfc original proposal ≡ ok transformed
      → revalidate_structure
          (compute_structure_signature sha256 decimal transformed)
          (compute_structure_signature sha256 decimal original)
        ≡ (true, [])
  apply_reviewed_proposal-revalidate_structure original transformed proposal h =
      let (_, _, kept) =
        apply_reviewed_proposal-IsKept sha256 nfc original proposal transformed h in
      let same = Pairwise-SameNodes original.nodes transformed.nodes kept in
      let signature = compute_structure_signature sha256 decimal original in
      ap (λ s. revalidate_structure s signature)
        (signature-of_SameNodes sha256 decimal original transformed same)
      ∙ revalidate_structure_refl signature
