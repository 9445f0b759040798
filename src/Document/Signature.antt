-- ===== src/Document/Signature.antt =====
-- src/humanhand/domain/structure_signature.py and `revalidate_structure` of lexical_review.py. The
-- digest is `sha256` of the bytes that the source feeds to it, in order; `decimal` prints a count.
pub mod Stable
use human_hand.Prelude.{
  ℕ, ◌+◌, Bool, true, false, not, ◌&&◌, List, [], ◌∷◌, ◌++◌, ◌==◌, if◌then◌else◌, length, Text,
  codes, text_eq, ltb,
}
use human_hand.Document.{
  NodeType, document, section, heading, paragraph, sentence, text_run, list, list_item, table,
  table_row, table_cell, quotation, citation, footnote, endnote, code_block, hyperlink, page_break,
  section_break, image_placeholder, DocumentNode, CanonicalDocument,
}

pub record StructureSignature : Type 0 where
  pub signature : Text
  pub section_order : List Text
  pub node_type_counts : List (Text × ℕ)
  pub total_nodes : ℕ

-- `NodeType.value`
unfoldable pub type_value : NodeType → Text
type_value document = codes "document"
type_value section = codes "section"
type_value heading = codes "heading"
type_value paragraph = codes "paragraph"
type_value sentence = codes "sentence"
type_value text_run = codes "text_run"
type_value list = codes "list"
type_value list_item = codes "list_item"
type_value table = codes "table"
type_value table_row = codes "table_row"
type_value table_cell = codes "table_cell"
type_value quotation = codes "quotation"
type_value citation = codes "citation"
type_value footnote = codes "footnote"
type_value endnote = codes "endnote"
type_value code_block = codes "code_block"
type_value hyperlink = codes "hyperlink"
type_value page_break = codes "page_break"
type_value section_break = codes "section_break"
type_value image_placeholder = codes "image_placeholder"

unfoldable pub is_heading : NodeType → Bool
is_heading heading = true
is_heading _ = false

unfoldable pub is_paragraph : NodeType → Bool
is_paragraph paragraph = true
is_paragraph _ = false

-- What the loop feeds to the digest for the nodes.
unfoldable pub digest_nodes : List DocumentNode → Text
digest_nodes [] = []
digest_nodes (node ∷ rest) =
    let others = digest_nodes rest in
    type_value node.node_type
    ++ (0 ∷ (if is_heading node.node_type then node.text ++ (0 ∷ others) else others))

-- The texts of the headings, in order.
unfoldable pub headings : List DocumentNode → List Text
headings [] = []
headings (node ∷ rest) =
    let others = headings rest in if is_heading node.node_type then node.text ∷ others else others

unfoldable pub paragraph_count : List DocumentNode → ℕ
paragraph_count [] = 0
paragraph_count (node ∷ rest) =
    let others = paragraph_count rest in if is_paragraph node.node_type then others + 1 else others

-- `counts[value] += 1` on a mapping that is kept sorted by its keys.
unfoldable pub text_lt : Text → Text → Bool
text_lt [] [] = false
text_lt [] (d ∷ t) = true
text_lt (c ∷ s) [] = false
text_lt (c ∷ s) (d ∷ t) = let rest = text_lt s t in if c == d then rest else ltb c d

unfoldable pub add_one : Text → List (Text × ℕ) → List (Text × ℕ)
unfolding text_lt
add_one key [] = (key, 1) ∷ []
add_one key ((k, n) ∷ rest) =
    let others = add_one key rest in
    if text_eq key k
    then (k, n + 1) ∷ rest
    else if text_lt key k
    then (key, 1) ∷ (k, n) ∷ rest
    else (k, n) ∷ others

unfoldable pub count_types : List DocumentNode → List (Text × ℕ)
unfolding add_one
count_types [] = []
count_types (node ∷ rest) = add_one (type_value node.node_type) (count_types rest)

unfoldable pub compute_structure_signature :
    (sha256 : Text → Text) (decimal : ℕ → Text) → CanonicalDocument → StructureSignature
compute_structure_signature sha256 decimal doc = record {
  signature = sha256 (
      codes "structure-signature-v1"
      ++ (0
          ∷ (digest_nodes doc.nodes
              ++ (codes "paragraphs=" ++ decimal (paragraph_count doc.nodes)))));
  section_order = headings doc.nodes;
  node_type_counts = count_types doc.nodes;
  total_nodes = length doc.nodes;
}

-- `_first_diff_index`
unfoldable pub first_diff_index : List Text → List Text → ℕ
first_diff_index (x ∷ xs) (y ∷ ys) =
    let rest = first_diff_index xs ys in if text_eq x y then rest + 1 else 0
first_diff_index _ _ = 0

unfoldable pub texts_eq : List Text → List Text → Bool
texts_eq [] [] = true
texts_eq (x ∷ xs) (y ∷ ys) = text_eq x y && texts_eq xs ys
texts_eq _ _ = false

pub data StructureFinding : Type 0 where
  section_order_drift : (first_diff_index : ℕ) → StructureFinding
  signature_drift : StructureFinding

unfoldable pub revalidate_structure :
    (current expected : StructureSignature) → Bool × List StructureFinding
revalidate_structure current expected =
    if not (texts_eq current.section_order expected.section_order)
    then (
      false,
      section_order_drift (first_diff_index current.section_order expected.section_order) ∷ [],
    )
    else if not (text_eq current.signature expected.signature)
    then (false, signature_drift ∷ [])
    else (true, [])
