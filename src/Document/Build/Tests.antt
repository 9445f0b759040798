-- ===== src/Document/Build/Tests.antt =====
-- A concrete tree: a document with a heading and a paragraph that holds a sentence
-- (canonical_document.py).
use human_hand.Prelude.{
  ℕ, zero, suc, true, ap, ◌≤◌, ◌≡◌, ◌↔◌, refl, none, some, List, [], ◌∷◌, arith, length, Text,
  codes, ok,
}
use human_hand.Document.{
  NodeType, document, heading, paragraph, sentence, DocumentNode, CanonicalDocument,
}
use human_hand.Document.Build.{
  BuilderNode, NodeBuilder, node_builder, no_more, child, node_id_of, wrapped_node, wrap_nodes,
  wrap_children, BuildPolicy, build_document,
}
use human_hand.Document.Build.Numbered.{size}
use human_hand.Document.Build.Rooted.{
  IsRooted, build_document-IsRooted, build_document-document_from_payload, build_document_iff,
}
use human_hand.Document.Payload.{document_to_payload}
use human_hand.Document.Payload.Read.{is_document, document_from_payload}

-- A number is printed in unary here.
abbrev pub strokes : ℕ → Text
strokes zero = []
strokes (suc n) = 49 ∷ strokes n

abbrev pub same : Text → Text
same t = t

abbrev node : NodeType → Text → BuilderNode
node type text = record {
  node_type = type;
  text = text;
  attributes = none;
  source_location = none;
  authorship_class = none;
  protected_span_refs = [];
  finding_codes = [];
}

abbrev pub tree : NodeBuilder
tree = node_builder (node document []) (
    child (node_builder (node heading (codes "H")) no_more) (
      child
        (node_builder (node paragraph (codes "Hi"))
          (child (node_builder (node sentence (codes "Hi")) no_more) no_more))
        no_more))

abbrev pub policy : BuildPolicy
policy = record { version = codes "1"; revision_policy = codes "reject"; max_nodes = 4 }

abbrev nodes : List DocumentNode
nodes =
    wrapped_node strokes (node document []) (codes "n1") none 1
    ∷ wrapped_node strokes (node heading (codes "H")) (codes "n11") (some (codes "n1")) 1
    ∷ wrapped_node strokes (node paragraph (codes "Hi")) (codes "n111") (some (codes "n1")) 2
    ∷ wrapped_node strokes (node sentence (codes "Hi")) (codes "n1111") (some (codes "n111")) 1
    ∷ []

abbrev pub built : CanonicalDocument
built = record {
  schema_version = 1;
  lane = codes "source";
  parser_name = codes "md";
  parser_version = codes "1";
  policy_version = codes "1";
  revision_policy = codes "reject";
  surface_text = codes "H Hi";
  canonical_text = codes "H Hi";
  nodes = nodes;
  findings = [];
}

pub builds :
    build_document strokes same tree
      (codes "source")
      (codes "md")
      (codes "1")
      policy
      (codes "H Hi")
      []
    ≡ ok built
unfolding build_document wrap_nodes wrap_children node_id_of is_document
builds = refl

build_document-IsRooted_example :
    (length built.nodes ≡ size tree) × (size tree ≤ policy.max_nodes) × IsRooted strokes built.nodes
build_document-IsRooted_example =
    build_document-IsRooted strokes same tree (codes "source") (codes "md") (codes "1") policy
      (codes "H Hi") [] built builds

length-strokes : (n : ℕ) → length (strokes n) ≡ n
length-strokes zero = refl
length-strokes (suc n) = omega (arith, length-strokes n)

pub strokes_injective : (m n : ℕ) → strokes m ≡ strokes n → m ≡ n
strokes_injective m n h = omega (arith, ap length h, length-strokes m, length-strokes n)

build_document-document_from_payload_example :
    document_from_payload (λ v. []) (document_to_payload same built) ≡ ok built
build_document-document_from_payload_example =
    build_document-document_from_payload strokes same tree (codes "source") (codes "md") (codes "1")
      policy (codes "H Hi") [] built (λ v. []) strokes_injective builds

build_document_iff_example :
    ((d : CanonicalDocument) × (build_document strokes same tree
          (codes "source")
          (codes "md")
          (codes "1")
          policy
          (codes "H Hi")
          []
        ≡ ok d))
    ↔ ((is_document document ≡ true) × (size tree ≤ policy.max_nodes))
build_document_iff_example =
    build_document_iff strokes same tree (codes "source") (codes "md") (codes "1") policy
      (codes "H Hi") []
