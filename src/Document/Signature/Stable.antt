-- ===== src/Document/Signature/Stable.antt =====
-- The signatures of two lists of nodes (structure_signature.py).
use human_hand.Prelude.{
  ℕ, suc, ◌≡◌, refl, ap, true, List, [], ◌∷◌, Text, text_eq_refl, length, Bool-cases, inl, inr,
}
use human_hand.Document.{DocumentNode, CanonicalDocument}
use human_hand.Document.Signature.{
  StructureSignature, is_heading, digest_nodes, headings, paragraph_count, count_types,
  compute_structure_signature, texts_eq, revalidate_structure,
}

pub record SameStructure (n n' : DocumentNode) : Type 0 where
  pub type : n'.node_type ≡ n.node_type
  pub text : is_heading n.node_type ≡ true → n'.text ≡ n.text

abbrev pub SameNodes : List DocumentNode → List DocumentNode → Type 0
SameNodes [] [] = Unit
SameNodes (n ∷ ns) (m ∷ ms) = SameStructure n m × SameNodes ns ms
SameNodes _ _ = ⊥

-- What the loop over the nodes computes, in one record.
record SameSummary (ns ms : List DocumentNode) : Type 0 where
  digest : digest_nodes ms ≡ digest_nodes ns
  order : headings ms ≡ headings ns
  paragraphs : paragraph_count ms ≡ paragraph_count ns
  counts : count_types ms ≡ count_types ns
  total : length ms ≡ length ns

summary : (ns ms : List DocumentNode) → SameNodes ns ms → SameSummary ns ms
unfolding digest_nodes headings paragraph_count count_types
summary [] [] h = record {
  digest = refl;
  order = refl;
  paragraphs = refl;
  counts = refl;
  total = refl;
}
summary [] (m ∷ ms) h = absurd h
summary (n ∷ ns) [] h = absurd h
summary (n ∷ ns) (m ∷ ms) (s, h) =
    let r = summary ns ms h in
    elim (Bool-cases (is_heading n.node_type)) [
      | inl e ↦ record {
        digest = rw (s.type, e, s.text e, r.digest);
        order = rw (s.type, e, s.text e, r.order);
        paragraphs = rw (s.type, r.paragraphs);
        counts = rw (s.type, r.counts);
        total = ap suc r.total;
      }
      | inr e ↦ record {
        digest = rw (s.type, e, r.digest);
        order = rw (s.type, e, r.order);
        paragraphs = rw (s.type, r.paragraphs);
        counts = rw (s.type, r.counts);
        total = ap suc r.total;
      }
    ]

pub signature-of_SameNodes :
    (sha256 : Text → Text) (decimal : ℕ → Text) (a b : CanonicalDocument)
    → SameNodes a.nodes b.nodes
    → compute_structure_signature sha256 decimal b ≡ compute_structure_signature sha256 decimal a
unfolding compute_structure_signature
signature-of_SameNodes sha256 decimal a b h =
    let r = summary a.nodes b.nodes h in rw (r.digest, r.paragraphs, r.order, r.counts, r.total)

texts_eq_refl : (xs : List Text) → texts_eq xs xs ≡ true
unfolding texts_eq
texts_eq_refl [] = refl
texts_eq_refl (x ∷ xs) = rw (text_eq_refl x, texts_eq_refl xs)

pub revalidate_structure_refl : (s : StructureSignature) → revalidate_structure s s ≡ (true, [])
unfolding revalidate_structure
revalidate_structure_refl s = rw (texts_eq_refl s.section_order, text_eq_refl s.signature)
