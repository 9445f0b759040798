-- ===== src/Document/Build.antt =====
-- `build_document` of src/humanhand/domain/canonical_document.py and the assembly tree of
-- document_nodes.py. `decimal` prints a number and `nfc` stands for `unicodedata.normalize("NFC", ...)`.
pub mod Numbered
pub mod Rooted
pub mod Tests
use human_hand.Prelude.{
  ℕ, ◌+◌, Bool, true, false, not, Option, none, some, List, [], ◌∷◌, ◌++◌, length, leb, Text, codes,
  Result, ok, ◌>>=◌, ◌>>◌, raise_if,
}
use human_hand.Document.{NodeType, SourceLocation, DocumentNode, ImportFinding, CanonicalDocument}
use human_hand.Document.Payload.Read.{is_document}

-- The fields of a `NodeBuilder` but its children.
pub record BuilderNode : Type 0 where
  pub node_type : NodeType
  pub text : Text
  pub attributes : Option (List (Text × Text))
  pub source_location : Option SourceLocation
  pub authorship_class : Option Text
  pub protected_span_refs : List Text
  pub finding_codes : List Text

mutual
  pub data NodeBuilder : Type 0 where
    node_builder : BuilderNode → Builders → NodeBuilder

  pub data Builders : Type 0 where
    no_more : Builders
    child : NodeBuilder → Builders → Builders

abbrev pub builder_node : NodeBuilder → BuilderNode
builder_node (node_builder b children) = b

-- `children.append(child)`
unfoldable pub append_child : Builders → NodeBuilder → Builders
append_child no_more added = child added no_more
append_child (child first rest) added = child first (append_child rest added)

unfoldable pub add_child : NodeBuilder → NodeBuilder → NodeBuilder
unfolding append_child
add_child (node_builder b children) added = node_builder b (append_child children added)

unfoldable pub node_span : BuilderNode → SourceLocation
node_span b = elim b.source_location [
  | some location ↦ location
  | none ↦ record { start_offset = 0; end_offset = 0; line_start = 1; line_end = 1 }
]

-- `dict(builder.attributes or {})`
unfoldable pub attributes_or_empty : Option (List (Text × Text)) → List (Text × Text)
attributes_or_empty none = []
attributes_or_empty (some attributes) = attributes

unfoldable pub node_id_of : (decimal : ℕ → Text) → ℕ → Text
node_id_of decimal k = codes "n" ++ decimal k

module _ (decimal : ℕ → Text) where
  unfoldable pub wrapped_node :
      BuilderNode → (node_id : Text) (parent_id : Option Text) (position : ℕ) → DocumentNode
  wrapped_node b node_id parent_id position = record {
    node_id = node_id;
    parent_id = parent_id;
    node_type = b.node_type;
    position = position;
    source_location = node_span b;
    text = b.text;
    attributes = attributes_or_empty b.attributes;
    authorship_class = b.authorship_class;
    protected_span_refs = b.protected_span_refs;
    finding_codes = b.finding_codes;
  }

  unfoldable mutual
    -- The nodes of a tree, with the counter of the ids before and after.
    pub wrap_nodes :
        NodeBuilder → (parent_id : Option Text) (position id_counter : ℕ) → List DocumentNode × ℕ
    wrap_nodes (node_builder b children) parent_id position id_counter =
        let node_id = node_id_of decimal (id_counter + 1) in
        let below = wrap_children children node_id 1 (id_counter + 1) in
        (wrapped_node b node_id parent_id position ∷ below.0, below.1)

    -- The loop over the children.
    pub wrap_children :
        Builders → (parent_id : Text) (position id_counter : ℕ) → List DocumentNode × ℕ
    wrap_children no_more parent_id position id_counter = ([], id_counter)
    wrap_children (child first rest) parent_id position id_counter =
        let nodes = wrap_nodes first (some parent_id) position id_counter in
        let others = wrap_children rest parent_id (position + 1) nodes.1 in
        (nodes.0 ++ others.0, others.1)

-- The fields of an `ImportPolicy` that a build reads.
pub record BuildPolicy : Type 0 where
  pub version : Text
  pub revision_policy : Text
  pub max_nodes : ℕ

pub data BuildError : Type 0 where
  root_type : BuildError
  too_many_nodes : (count : ℕ) → BuildError

unfoldable pub build_document :
    (decimal : ℕ → Text) (nfc : Text → Text)
    → (root : NodeBuilder) → (lane parser_name parser_version : Text) → BuildPolicy
    → (surface_text : Text) → List ImportFinding
    → Result BuildError CanonicalDocument
build_document decimal nfc root lane parser_name parser_version policy surface_text findings = do
  raise_if (not (is_document (builder_node root).node_type)) root_type
  let nodes = (wrap_nodes decimal root none 1 0).0
  raise_if (not (leb (length nodes) policy.max_nodes)) (too_many_nodes (length nodes))
  ok (record {
    schema_version = 1;
    lane = lane;
    parser_name = parser_name;
    parser_version = parser_version;
    policy_version = policy.version;
    revision_policy = policy.revision_policy;
    surface_text = surface_text;
    canonical_text = nfc surface_text;
    nodes = nodes;
    findings = findings;
  })
