-- ===== src/Document/Measure/Walk.antt =====
-- The walks to the root in a built document (canonical_document.py).
use human_hand.Prelude.{
  AllFrom, AllFrom-map, is_nil, false, ◌⊎◌, zero, suc, ℕ, ◌+◌, ◌≤◌, ◌<◌, ◌≡◌, refl, sym, ap, ◌∙◌,
  none, some, List, [], ◌∷◌, arith, length, leb, Text, text_eq_refl, Bool-cases, inl, inr,
}
use human_hand.Document.{DocumentNode, CanonicalDocument}
use human_hand.Document.Build.{node_id_of}
use human_hand.Document.Build.Numbered.{IsNumbered}
use human_hand.Document.Build.Rooted.{contained, not_contained}
use human_hand.Document.Measure.{
  parent_by_id, chain_loop, depth_loop, max, measure_nodes, measure_document,
}

depth_loop-step :
    (nodes rest : List DocumentNode) (fuel : ℕ) (node : DocumentNode) (depth c : ℕ)
    → chain_loop nodes fuel node.parent_id 1 ≡ some c
    → depth_loop nodes fuel (node ∷ rest) depth ≡ depth_loop nodes fuel rest (max depth c)
unfolding depth_loop
depth_loop-step nodes rest fuel node depth c e = ground (arith, e)

measure_document-some :
    (utf8_size : Text → ℕ) (d : CanonicalDocument) (size_bytes depth : ℕ)
    → is_nil d.nodes ≡ false
    → depth_loop d.nodes (length d.nodes) d.nodes 0 ≡ some depth
    → measure_document utf8_size (some d) size_bytes
      ≡ some (record {
        size_bytes = size_bytes;
        expanded_bytes = utf8_size d.surface_text;
        node_count = length d.nodes;
        tree_depth = depth;
      })
unfolding measure_document measure_nodes
measure_document-some utf8_size d size_bytes depth e f = ground (arith, e, f)

-- The largest of a number and the depths `dep` of `n` nodes behind place `k`.
unfoldable pub max_from : (dep : ℕ → ℕ) → (k n depth : ℕ) → ℕ
max_from dep k zero depth = depth
max_from dep k (suc n) depth = max_from dep (k + 1) n (max depth (dep (k + 1)))

module _ (decimal : ℕ → Text) (dep : ℕ → ℕ) where
  -- The node at place `i`, counted from 0, has the number `i + 1`, a parent with a smaller number, and
  -- a depth one larger than its parent.
  abbrev pub IsDeep : ℕ → DocumentNode → Type 0
  IsDeep i node =
      (node.node_id ≡ node_id_of decimal (i + 1))
      × ((j : ℕ) × (1 ≤ j)
          × (j ≤ i)
          × (dep (i + 1) ≡ dep j + 1)
          × (node.parent_id ≡ some (node_id_of decimal j)))

  abbrev pub IsDeepRooted : List DocumentNode → Type 0
  IsDeepRooted [] = ⊥
  IsDeepRooted (root ∷ rest) =
      (root.node_id ≡ node_id_of decimal 1)
      × (root.parent_id ≡ none)
      × (dep 1 ≡ 1)
      × AllFrom IsDeep 1 rest

module _ (decimal : ℕ → Text) (injective : (m n : ℕ) → decimal m ≡ decimal n → m ≡ n)
    (dep : ℕ → ℕ) where
  -- The parent of the node with the number `j` has a smaller number.
  abbrev HasLowerParent : List DocumentNode → ℕ → Type 0
  HasLowerParent nodes j =
      (i : ℕ) × (1 ≤ i)
      × (i < j)
      × (dep j ≡ dep i + 1)
      × (parent_by_id nodes (node_id_of decimal j) ≡ some (node_id_of decimal i))

  parent_by_id-placed :
      (j k : ℕ) (nodes : List DocumentNode)
      → k < j
      → j ≤ k + length nodes
      → AllFrom (IsDeep decimal dep) k nodes
      → HasLowerParent nodes j
  unfolding parent_by_id
  parent_by_id-placed j k [] low high h = absurd (omega arith)
  parent_by_id-placed j k (node ∷ nodes) low high ((id, (i, one, below, deeper, parent)), h) =
      let numbered : AllFrom (IsNumbered decimal) (k + 1) nodes =
        AllFrom-map (k + 1) nodes (λ i n p. p.0) h in
      elim (Bool-cases (leb j (k + 1))) [
        | inl e ↦
            let same : j ≡ k + 1 = ground arith in
            (
              i,
              one,
              omega (arith, same),
              ap dep same ∙ deeper,
              rw
                  (
                    same,
                    not_contained decimal injective (k + 1) (k + 1) nodes (omega arith) numbered,
                    id,
                    text_eq_refl (node_id_of decimal (k + 1)),
                  )
                  parent,
            )
        | inr e ↦
            let (i', one', below', deeper', parent') =
              parent_by_id-placed j (k + 1) nodes (ground arith) (omega arith) h in
            (
              i',
              one',
              below',
              deeper',
              rw (contained decimal injective j (k + 1) nodes (ground arith) (omega arith) numbered)
                  parent',
            )
      ]

  parent_by_id-rooted :
      (nodes : List DocumentNode) (j : ℕ)
      → IsDeepRooted decimal dep nodes
      → 1 ≤ j
      → j ≤ length nodes
      → ((parent_by_id nodes (node_id_of decimal j) ≡ none) × (dep j ≡ 1)) ⊎ HasLowerParent nodes j
  unfolding parent_by_id
  parent_by_id-rooted [] j h low high = absurd h
  parent_by_id-rooted (root ∷ rest) j (id, parent, first, placed) low high =
      let numbered : AllFrom (IsNumbered decimal) 1 rest =
        AllFrom-map 1 rest (λ i n p. p.0) placed in
      elim (Bool-cases (leb j 1)) [
        | inl e ↦
            let same : j ≡ 1 = ground arith in
            inl (
              rw
                  (
                    same,
                    not_contained decimal injective 1 1 rest (omega arith) numbered,
                    id,
                    text_eq_refl (node_id_of decimal 1),
                  )
                  parent,
              ap dep same ∙ first,
            )
        | inr e ↦
            let (i, one, below, deeper, parent') =
              parent_by_id-placed j 1 rest (ground arith) (omega arith) placed in
            inr (
              i,
              one,
              below,
              deeper,
              rw (contained decimal injective j 1 rest (ground arith) (omega arith) numbered)
                  parent',
            )
      ]

  -- The walk ends with the depth of the node that it begins at.
  chain_loop-dep :
      (nodes : List DocumentNode) (fuel j chain : ℕ)
      → IsDeepRooted decimal dep nodes
      → 1 ≤ j
      → j ≤ fuel
      → j ≤ length nodes
      → chain_loop nodes fuel (some (node_id_of decimal j)) chain ≡ some (chain + dep j)
  unfolding chain_loop
  chain_loop-dep nodes zero j chain h low enough high = absurd (omega arith)
  chain_loop-dep nodes (suc fuel) j chain h low enough high =
      elim (parent_by_id-rooted nodes j h low high) [
        | inl (e, first) ↦
            ap (λ p. chain_loop nodes fuel p (chain + 1)) e ∙ ap some (omega (arith, first))
        | inr (i, one, below, deeper, parent) ↦
            ap (λ p. chain_loop nodes fuel p (chain + 1)) parent
            ∙ chain_loop-dep nodes fuel i (chain + 1) h one (omega arith) (omega arith)
            ∙ ap some (omega (arith, deeper))
      ]

  depth_loop-max_from :
      (nodes rest : List DocumentNode) (k depth : ℕ)
      → IsDeepRooted decimal dep nodes
      → k + length rest ≤ length nodes
      → AllFrom (IsDeep decimal dep) k rest
      → depth_loop nodes (length nodes) rest depth ≡ some (max_from dep k (length rest) depth)
  unfolding depth_loop max_from
  depth_loop-max_from nodes [] k depth h fits placed = refl
  depth_loop-max_from nodes (node ∷ rest) k depth h fits
        ((_, (j, one, below, deeper, parent)), placed) =
      depth_loop-step nodes rest (length nodes) node depth (dep (k + 1)) (
        ap (λ p. chain_loop nodes (length nodes) p 1) parent
        ∙ chain_loop-dep nodes (length nodes) j 1 h one (omega arith) (omega arith)
        ∙ ap some (omega (arith, deeper)))
      ∙ depth_loop-max_from nodes rest (k + 1) (max depth (dep (k + 1))) h (omega arith) placed

  depth_loop-rooted :
      (nodes : List DocumentNode)
      → IsDeepRooted decimal dep nodes
      → depth_loop nodes (length nodes) nodes 0 ≡ some (max_from dep 0 (length nodes) 0)
  unfolding chain_loop max_from
  depth_loop-rooted [] h = absurd h
  depth_loop-rooted (root ∷ rest) (id, parent, first, placed) =
      depth_loop-step (root ∷ rest) rest (length (root ∷ rest)) root 0 (dep 1)
        (ap (λ p. chain_loop (root ∷ rest) (length (root ∷ rest)) p 1) parent ∙ ap some (sym first))
      ∙ depth_loop-max_from (root ∷ rest) rest 1 (max 0 (dep 1)) (id, parent, first, placed)
          (omega arith) placed

  rooted-ne-nil :
      (nodes : List DocumentNode) → IsDeepRooted decimal dep nodes → is_nil nodes ≡ false
  rooted-ne-nil [] h = absurd h
  rooted-ne-nil (root ∷ rest) h = refl

  -- A document in which every node but the first lies one deeper than its parent has the largest of
  -- the depths for its depth.
  pub measure_document-max_from :
      (utf8_size : Text → ℕ) (d : CanonicalDocument) (size_bytes : ℕ)
      → IsDeepRooted decimal dep d.nodes
      → measure_document utf8_size (some d) size_bytes
        ≡ some (record {
          size_bytes = size_bytes;
          expanded_bytes = utf8_size d.surface_text;
          node_count = length d.nodes;
          tree_depth = max_from dep 0 (length d.nodes) 0;
        })
  measure_document-max_from utf8_size d size_bytes h =
      measure_document-some utf8_size d size_bytes (max_from dep 0 (length d.nodes) 0)
        (rooted-ne-nil d.nodes h) (depth_loop-rooted d.nodes h)
