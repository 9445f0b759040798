-- ===== src/Document/Build/Rooted.antt =====
-- A built document and the structural checks of the reader of documents (canonical_document.py and
-- document_serialization.py).
use human_hand.Prelude.{
  AllFrom, AllFrom-map, ℕ, ◌+◌, ◌≤◌, ◌<◌, ◌≡◌, ◌↔◌, Result-cases, refl, subst, sym, ap, ◌∙◌, inl,
  inr, true, false, none, List, [], ◌∷◌, arith, length, leb, map, any, Text, text_eq, text_eq_refl,
  text_eq→eq, contains, are_distinct, ok, Bool-cases,
}
use human_hand.Json.{Value}
use human_hand.Document.{DocumentNode, ImportFinding, CanonicalDocument}
use human_hand.Document.Build.{
  NodeBuilder, node_builder, builder_node, node_id_of, wrapped_node, wrap_nodes, BuildPolicy,
  build_document,
}
use human_hand.Document.Build.Numbered.{IsNumbered, size, IsPlaced, wrap_children-IsWrap}
use human_hand.Document.Payload.{document_to_payload}
use human_hand.Document.Payload.Read.{
  is_document, has_parent_id, check_parents, check_structure, document_from_payload,
}
use human_hand.Document.Payload.RoundTrip.{document_from_payload-to_payload}

abbrev pub ids_of : List DocumentNode → List Text
ids_of nodes = map (λ (n : DocumentNode). n.node_id) nodes

module _ (decimal : ℕ → Text) (injective : (m n : ℕ) → decimal m ≡ decimal n → m ≡ n) where
  ids_differ : (m n : ℕ) → m < n → text_eq (node_id_of decimal m) (node_id_of decimal n) ≡ false
  unfolding node_id_of
  ids_differ m n h = elim (Bool-cases (text_eq (node_id_of decimal m) (node_id_of decimal n))) [
    | inr e ↦ e
    | inl e ↦
        let same : decimal m ≡ decimal n =
          ap tail (text_eq→eq (node_id_of decimal m) (node_id_of decimal n) e) in
        absurd (omega (arith, injective m n same, h))
  ]
    where
      tail : Text → Text
      tail [] = []
      tail (c ∷ s) = s

  pub not_contained :
      (m k : ℕ) (nodes : List DocumentNode)
      → m ≤ k
      → AllFrom (IsNumbered decimal) k nodes
      → contains (node_id_of decimal m) (ids_of nodes) ≡ false
  unfolding contains any
  not_contained m k [] low h = refl
  not_contained m k (node ∷ nodes) low (id, h) =
      rw (id, ids_differ m (k + 1) (omega arith)) (not_contained m (k + 1) nodes (omega arith) h)

  numbered_distinct :
      (k : ℕ) (nodes : List DocumentNode)
      → AllFrom (IsNumbered decimal) k nodes
      → are_distinct (ids_of nodes) ≡ true
  unfolding are_distinct
  numbered_distinct k [] h = refl
  numbered_distinct k (node ∷ nodes) (id, h) =
      rw (id, not_contained (k + 1) (k + 1) nodes (omega arith) h)
        (numbered_distinct (k + 1) nodes h)

  pub contained :
      (j k : ℕ) (nodes : List DocumentNode)
      → k < j
      → j ≤ k + length nodes
      → AllFrom (IsNumbered decimal) k nodes
      → contains (node_id_of decimal j) (ids_of nodes) ≡ true
  unfolding contains any
  contained j k [] low high h = absurd (omega arith)
  contained j k (node ∷ nodes) low high (id, h) = elim (Bool-cases (leb j (k + 1))) [
    | inl e ↦
        let same : j ≡ k + 1 = ground arith in
        rw (id, same, text_eq_refl (node_id_of decimal (k + 1))) refl
    | inr e ↦ ground (arith, contained j (k + 1) nodes)
  ]

  -- The parents of nodes behind the root are among the ids.
  parents_checked :
      (k : ℕ) (all_nodes nodes : List DocumentNode)
      → AllFrom (IsNumbered decimal) 0 all_nodes
      → 1 ≤ k
      → k + length nodes ≤ length all_nodes
      → AllFrom (IsPlaced decimal) k nodes
      → check_parents (ids_of all_nodes) nodes ≡ ok tt
  unfolding check_parents
  parents_checked k all_nodes [] numbered low high h = refl
  parents_checked k all_nodes (node ∷ nodes) numbered low high ((_, (j, one, below, parent)), h) =
      rw (parent, contained j 0 all_nodes (omega arith) (omega arith) numbered)
        (parents_checked (k + 1) all_nodes nodes numbered (omega arith) (omega arith) h)

-- The nodes of a tree: a DOCUMENT without a parent first, with the number 1, and each later node has the
-- number of its place and a parent with a number before it.
abbrev pub IsRooted : (decimal : ℕ → Text) → List DocumentNode → Type 0
IsRooted decimal [] = ⊥
IsRooted decimal (root ∷ rest) =
    (root.node_id ≡ node_id_of decimal 1)
    × (root.parent_id ≡ none)
    × (is_document root.node_type ≡ true)
    × AllFrom (IsPlaced decimal) 1 rest

module _ (decimal : ℕ → Text) where
  pub wrap_nodes-IsRooted :
      (root : NodeBuilder)
      → is_document (builder_node root).node_type ≡ true
      → (length (wrap_nodes decimal root none 1 0).0 ≡ size root)
        × IsRooted decimal (wrap_nodes decimal root none 1 0).0
  unfolding wrap_nodes wrapped_node size
  wrap_nodes-IsRooted (node_builder b children) h =
      let (_, sized, placed) =
        wrap_children-IsWrap decimal children 1 1 1 (omega arith) (omega arith) in
      (omega (arith, sized), (refl, refl, h, placed))

  rooted_checked :
      (nodes : List DocumentNode)
      → ((m n : ℕ) → decimal m ≡ decimal n → m ≡ n)
      → IsRooted decimal nodes
      → check_structure nodes ≡ ok tt
  unfolding check_structure has_parent_id
  rooted_checked [] injective h = absurd h
  rooted_checked (root ∷ rest) injective (id, parent, type, placed) =
      let numbered : AllFrom (IsNumbered decimal) 0 (root ∷ rest) =
        (id, AllFrom-map 1 rest (λ i n p. p.0) placed) in
      rw
        (
          type,
          numbered_distinct decimal injective 0 (root ∷ rest) numbered,
          parent,
          parents_checked decimal injective 1 (root ∷ rest) rest numbered (omega arith)
              (omega arith) placed,
        )
        refl

module _ (decimal : ℕ → Text) (nfc : Text → Text) (root : NodeBuilder)
    (lane parser_name parser_version : Text) (policy : BuildPolicy) (surface_text : Text)
    (findings : List ImportFinding) (d : CanonicalDocument) where
  pub build_document_inv :
      build_document decimal nfc root lane parser_name parser_version policy surface_text findings
        ≡ ok d
      → (is_document (builder_node root).node_type ≡ true)
        × (leb (length (wrap_nodes decimal root none 1 0).0) policy.max_nodes ≡ true)
        × ((wrap_nodes decimal root none 1 0).0 ≡ d.nodes)
        × (d.schema_version ≡ 1)
  unfolding build_document
  build_document_inv h = (ground arith, ground arith, ground arith, ground arith)

  -- A successful `build_document` makes as many nodes as the tree has builders, at most as many as the
  -- policy allows: a DOCUMENT without a parent and the id `n1` first, and behind it nodes whose ids
  -- number them in order, each with a parent that stands before it.
  pub build_document-IsRooted :
      build_document decimal nfc root lane parser_name parser_version policy surface_text findings
        ≡ ok d
      → (length d.nodes ≡ size root) × (size root ≤ policy.max_nodes) × IsRooted decimal d.nodes
  build_document-IsRooted h =
      let (type, bounded, same, _) = build_document_inv h in
      let (sized, rooted) = wrap_nodes-IsRooted decimal root type in
      (
        (sym (ap (λ (ns : List DocumentNode). length ns) same) ∙ sized),
        ground (arith, bounded, sized),
        subst (IsRooted decimal) same rooted,
      )

  -- When different numbers are printed differently, a document that `build_document` makes passes the
  -- checks of the reader: written to its payload, it is read back unchanged.
  pub build_document-document_from_payload :
      (str_of : Value → Text)
      → ((m n : ℕ) → decimal m ≡ decimal n → m ≡ n)
      → build_document decimal nfc root lane parser_name parser_version policy surface_text findings
        ≡ ok d
      → document_from_payload str_of (document_to_payload nfc d) ≡ ok d
  build_document-document_from_payload str_of injective h =
      let (_, _, _, version) = build_document_inv h in
      let (_, _, rooted) = build_document-IsRooted h in
      document_from_payload-to_payload str_of nfc d version
        (rooted_checked decimal d.nodes injective rooted)

-- `build_document` succeeds exactly for a tree with a DOCUMENT at its root and no more builders than
-- the policy allows nodes.
pub build_document_iff :
    (decimal : ℕ → Text) (nfc : Text → Text) (root : NodeBuilder)
    (lane parser_name parser_version : Text) (policy : BuildPolicy) (surface_text : Text)
    (findings : List ImportFinding)
    → ((d : CanonicalDocument) × (build_document decimal nfc root lane parser_name parser_version
            policy surface_text findings
          ≡ ok d))
      ↔ ((is_document (builder_node root).node_type ≡ true) × (size root ≤ policy.max_nodes))
unfolding build_document
build_document_iff decimal nfc root lane parser_name parser_version policy surface_text findings = (
  (λ (d, h).
      let (type, bounded, _, _) =
        build_document_inv decimal nfc root lane parser_name parser_version policy surface_text
          findings d h in
      let (sized, _) = wrap_nodes-IsRooted decimal root type in
      (type, ground (arith, bounded, sized))),
  (λ (type, bounded).
      let (sized, _) = wrap_nodes-IsRooted decimal root type in
      let fits : leb (length (wrap_nodes decimal root none 1 0).0) policy.max_nodes ≡ true =
        ground (arith, bounded, sized) in
      elim (Result-cases (
        build_document decimal nfc root lane parser_name parser_version policy surface_text
          findings)) [ inl made ↦ made | inr (e, raised) ↦ absurd (ground arith) ]),
)
