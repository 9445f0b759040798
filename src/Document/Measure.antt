-- ===== src/Document/Measure.antt =====
-- `measure_document` of src/humanhand/domain/canonical_document.py. `utf8_size` is the number of bytes of
-- a text in UTF-8. The walk to the root has fuel for one step per node; `none` is a walk that has run out
-- of it.
pub mod Height
pub mod Tree
pub mod Walk
mod Tests
use human_hand.Prelude.{
  ℕ, zero, suc, ◌+◌, Bool, Option, none, some, List, [], ◌∷◌, length, leb, is_nil, map, Text,
  text_eq, contains, if◌then◌else◌,
}
use human_hand.Document.{DocumentNode, CanonicalDocument}

pub record ResourceMeasurements : Type 0 where
  pub size_bytes : ℕ
  pub expanded_bytes : ℕ
  pub node_count : ℕ
  pub tree_depth : ℕ

abbrev pub ids_of : List DocumentNode → List Text
ids_of nodes = map (λ (n : DocumentNode). n.node_id) nodes

-- `parent_by_id.get(node_id)`: the last node with the id has the word.
unfoldable pub parent_by_id : List DocumentNode → (node_id : Text) → Option Text
parent_by_id [] node_id = none
parent_by_id (node ∷ nodes) node_id =
    let later = parent_by_id nodes node_id in
    if contains node_id (ids_of nodes)
    then later
    else if text_eq node.node_id node_id
    then node.parent_id
    else none

unfoldable pub max : ℕ → ℕ → ℕ
max a b = if leb a b then b else a

module _ (nodes : List DocumentNode) where
  -- The walk from a node's parent to the root.
  unfoldable pub chain_loop : (fuel : ℕ) → (parent_id : Option Text) → (chain : ℕ) → Option ℕ
  chain_loop fuel none chain = some chain
  chain_loop zero (some parent_id) chain = none
  chain_loop (suc fuel) (some parent_id) chain =
      chain_loop fuel (parent_by_id nodes parent_id) (chain + 1)

  -- The loop over the nodes.
  unfoldable pub depth_loop : (fuel : ℕ) → List DocumentNode → (depth : ℕ) → Option ℕ
  depth_loop fuel [] depth = some depth
  depth_loop fuel (node ∷ rest) depth = elim (chain_loop fuel node.parent_id 1) [
    | none ↦ none
    | some chain ↦ depth_loop fuel rest (max depth chain)
  ]

unfoldable pub measure_nodes :
    (utf8_size : Text → ℕ) → CanonicalDocument → (size_bytes : ℕ) → Option ResourceMeasurements
measure_nodes utf8_size d size_bytes = elim (depth_loop d.nodes (length d.nodes) d.nodes 0) [
  | none ↦ none
  | some depth ↦ some (record {
    size_bytes = size_bytes;
    expanded_bytes = utf8_size d.surface_text;
    node_count = length d.nodes;
    tree_depth = depth;
  })
]

unfoldable pub nothing_measured : ℕ → ResourceMeasurements
nothing_measured size_bytes = record {
  size_bytes = size_bytes;
  expanded_bytes = size_bytes;
  node_count = 0;
  tree_depth = 0;
}

unfoldable pub measure_document :
    (utf8_size : Text → ℕ)
    → Option CanonicalDocument
    → (size_bytes : ℕ) → Option ResourceMeasurements
measure_document utf8_size none size_bytes = some (nothing_measured size_bytes)
measure_document utf8_size (some d) size_bytes =
    let measured = measure_nodes utf8_size d size_bytes in
    if is_nil d.nodes then some (nothing_measured size_bytes) else measured
