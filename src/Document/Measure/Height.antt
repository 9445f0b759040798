-- ===== src/Document/Measure/Height.antt =====
-- The height of a tree and the depths of its nodes (canonical_document.py).
use human_hand.Prelude.{
  AllFrom, AllFrom-append, ℕ, ◌+◌, ◌≤◌, ◌≡◌, refl, subst, sym, ap, ◌∙◌, some, List, [], ◌∷◌, ◌++◌,
  arith, length, length-append, Text,
}
use human_hand.Document.Build.{
  NodeBuilder, node_builder, Builders, no_more, child, node_id_of, wrapped_node, wrap_nodes,
  wrap_children,
}
use human_hand.Document.Build.Numbered.{size, size_all, wrap_nodes-IsWrap}
use human_hand.Document.Measure.{max}
use human_hand.Document.Measure.Walk.{IsDeep}

unfoldable mutual
  -- The number of builders on the longest way from the root of a tree to a leaf.
  pub height : NodeBuilder → ℕ
  height (node_builder b children) = heights children + 1

  pub heights : Builders → ℕ
  heights no_more = 0
  heights (child first rest) = max (height first) (heights rest)

unfoldable mutual
  -- The depths of the nodes of a tree in their order, below a node of depth `d`.
  pub depths : NodeBuilder → (d : ℕ) → List ℕ
  depths (node_builder b children) d = (d + 1) ∷ depths_all children (d + 1)

  pub depths_all : Builders → (d : ℕ) → List ℕ
  depths_all no_more d = []
  depths_all (child first rest) d = depths first d ++ depths_all rest d

mutual
  unfolding depths depths_all size size_all

  pub length-depths : (builder : NodeBuilder) (d : ℕ) → length (depths builder d) ≡ size builder
  length-depths (node_builder b children) d = omega (arith, length-depths_all children (d + 1))

  length-depths_all :
      (children : Builders) (d : ℕ) → length (depths_all children d) ≡ size_all children
  length-depths_all no_more d = refl
  length-depths_all (child first rest) d = omega (
    arith,
    length-append (depths first d) (depths_all rest d),
    length-depths first d,
    length-depths_all rest d,
  )

-- The largest of a number and a list.
unfoldable pub max_of : (depth : ℕ) → List ℕ → ℕ
max_of depth [] = depth
max_of depth (x ∷ xs) = max_of (max depth x) xs

max_of-append : (depth : ℕ) (xs ys : List ℕ) → max_of depth (xs ++ ys) ≡ max_of (max_of depth xs) ys
unfolding max_of
max_of-append depth [] ys = refl
max_of-append depth (x ∷ xs) ys = max_of-append (max depth x) xs ys

max_raise : (a d n : ℕ) → max (max a (d + 1)) (d + 1 + n) ≡ max a (d + (n + 1))
unfolding max
max_raise a d n = ground arith

max_sum : (a d m n : ℕ) → max (max a (d + m)) (d + n) ≡ max a (d + max m n)
unfolding max
max_sum a d m n = ground arith

mutual
  unfolding depths depths_all height heights max_of max

  pub max_of-depths :
      (builder : NodeBuilder) (d depth : ℕ)
      → max_of depth (depths builder d) ≡ max depth (d + height builder)
  max_of-depths (node_builder b children) d depth =
      max_of-depths_all children (d + 1) (max depth (d + 1)) (ground arith)
      ∙ max_raise depth d (heights children)

  -- `depth` is already at least the depth of the parent.
  max_of-depths_all :
      (children : Builders) (d depth : ℕ)
      → d ≤ depth
      → max_of depth (depths_all children d) ≡ max depth (d + heights children)
  max_of-depths_all no_more d depth low = ground arith
  max_of-depths_all (child first rest) d depth low =
      max_of-append depth (depths first d) (depths_all rest d)
      ∙ ap (λ m. max_of m (depths_all rest d)) (max_of-depths first d depth)
      ∙ max_of-depths_all rest d (max depth (d + height first)) (ground arith)
      ∙ max_sum depth d (height first) (heights rest)

AllFrom-split :
    {A : Type 0} (P : ℕ → A → Type 0) (k : ℕ) (xs ys : List A)
    → AllFrom P k (xs ++ ys)
    → AllFrom P k xs × AllFrom P (k + length xs) ys
AllFrom-split P k [] ys h = (tt, subst (λ i. AllFrom P i ys) (omega arith) h)
AllFrom-split P k (x ∷ xs) ys (p, h) =
    let (first, second) = AllFrom-split P (k + 1) xs ys h in
    ((p, first), subst (λ i. AllFrom P i ys) (omega arith) second)

module _ (decimal : ℕ → Text) (dep : ℕ → ℕ) where
  -- The depth of the node at place `i`, counted from 0.
  abbrev pub HasDepth : ℕ → ℕ → Type 0
  HasDepth i x = dep (i + 1) ≡ x

  mutual
    unfolding wrap_nodes wrap_children wrapped_node depths depths_all

    wrap_nodes-IsDeep :
        (builder : NodeBuilder) (j position k : ℕ)
        → 1 ≤ j
        → j ≤ k
        → AllFrom HasDepth k (depths builder (dep j))
        → AllFrom
            (IsDeep decimal dep)
            k
            (wrap_nodes decimal builder (some (node_id_of decimal j)) position k).0
    wrap_nodes-IsDeep (node_builder b children) j position k low high (e, h) = (
      (refl, (j, low, high, e, refl)),
      wrap_children-IsDeep children (k + 1) 1 (k + 1) (omega arith) (omega arith)
          (subst (λ d. AllFrom HasDepth (k + 1) (depths_all children d)) (sym e) h),
    )

    pub wrap_children-IsDeep :
        (children : Builders) (j position k : ℕ)
        → 1 ≤ j
        → j ≤ k
        → AllFrom HasDepth k (depths_all children (dep j))
        → AllFrom
            (IsDeep decimal dep)
            k
            (wrap_children decimal children (node_id_of decimal j) position k).0
    wrap_children-IsDeep no_more j position k low high h = tt
    wrap_children-IsDeep (child first rest) j position k low high h =
        let nodes = wrap_nodes decimal first (some (node_id_of decimal j)) position k in
        let others = wrap_children decimal rest (node_id_of decimal j) (position + 1) nodes.1 in
        let (counted, sized, _) = wrap_nodes-IsWrap decimal first j position k low high in
        let (own, later) =
          AllFrom-split HasDepth k (depths first (dep j)) (depths_all rest (dep j)) h in
        let after : k + length (depths first (dep j)) ≡ nodes.1 =
          omega (arith, counted, sized, length-depths first (dep j)) in
        let placed =
          wrap_children-IsDeep rest j (position + 1) nodes.1 low (omega (arith, counted, high))
            (subst (λ i. AllFrom HasDepth i (depths_all rest (dep j))) after later) in
        AllFrom-append (IsDeep decimal dep) k nodes.0 others.0
          (wrap_nodes-IsDeep first j position k low high own)
          (subst (λ i. AllFrom (IsDeep decimal dep) i others.0) counted placed)
