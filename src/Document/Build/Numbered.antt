-- ===== src/Document/Build/Numbered.antt =====
-- The ids and the parents of the nodes of a tree (canonical_document.py).
use human_hand.Prelude.{
  AllFrom, AllFrom-append, ℕ, ◌+◌, ◌≤◌, ◌≡◌, refl, subst, some, List, arith, length, length-append,
  Text,
}
use human_hand.Document.{DocumentNode}
use human_hand.Document.Build.{
  NodeBuilder, node_builder, Builders, no_more, child, node_id_of, wrapped_node, wrap_nodes,
  wrap_children,
}

unfoldable mutual
  -- The number of builders of a tree.
  pub size : NodeBuilder → ℕ
  size (node_builder b children) = size_all children + 1

  pub size_all : Builders → ℕ
  size_all no_more = 0
  size_all (child first rest) = size first + size_all rest

module _ (decimal : ℕ → Text) where
  -- The id of the node at place `i`, counted from 0, has the number `i + 1`.
  abbrev pub IsNumbered : ℕ → DocumentNode → Type 0
  IsNumbered i node = node.node_id ≡ node_id_of decimal (i + 1)

  -- The node at place `i`, counted from 0, has the number `i + 1`, and its parent has a number before it.
  abbrev pub IsPlaced : ℕ → DocumentNode → Type 0
  IsPlaced i node =
      (node.node_id ≡ node_id_of decimal (i + 1))
      × ((j : ℕ) × (1 ≤ j) × (j ≤ i) × (node.parent_id ≡ some (node_id_of decimal j)))

  -- What the wrap of a tree or of children, begun at the counter `k`, comes to.
  abbrev IsWrap : ℕ → ℕ → List DocumentNode × ℕ → Type 0
  IsWrap k n made = (made.1 ≡ k + length made.0) × (length made.0 ≡ n) × AllFrom IsPlaced k made.0

  mutual
    unfolding wrap_nodes wrap_children wrapped_node size size_all

    pub wrap_nodes-IsWrap :
        (builder : NodeBuilder) (j position k : ℕ)
        → 1 ≤ j
        → j ≤ k
        → IsWrap k
            (size builder)
            (wrap_nodes decimal builder (some (node_id_of decimal j)) position k)
    wrap_nodes-IsWrap (node_builder b children) j position k low high =
        let (counted, sized, placed) =
          wrap_children-IsWrap children (k + 1) 1 (k + 1) (omega arith) (omega arith) in
        (omega (arith, counted), omega (arith, sized), ((refl, (j, low, high, refl)), placed))

    pub wrap_children-IsWrap :
        (children : Builders) (j position k : ℕ)
        → 1 ≤ j
        → j ≤ k
        → IsWrap k
            (size_all children)
            (wrap_children decimal children (node_id_of decimal j) position k)
    wrap_children-IsWrap no_more j position k low high = (omega arith, refl, tt)
    wrap_children-IsWrap (child first rest) j position k low high =
        let nodes = wrap_nodes decimal first (some (node_id_of decimal j)) position k in
        let (counted, sized, placed) = wrap_nodes-IsWrap first j position k low high in
        let (counted', sized', placed') =
          wrap_children-IsWrap rest j (position + 1) nodes.1 low (omega (arith, counted, high)) in
        let others = wrap_children decimal rest (node_id_of decimal j) (position + 1) nodes.1 in
        (
          omega (arith, counted, counted', length-append nodes.0 others.0),
          omega (arith, sized, sized', length-append nodes.0 others.0),
          AllFrom-append IsPlaced k nodes.0 others.0 placed
              (subst (λ i. AllFrom IsPlaced i others.0) counted placed'),
        )
