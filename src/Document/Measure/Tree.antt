-- ===== src/Document/Measure/Tree.antt =====
-- The measures of a built document (canonical_document.py).
use human_hand.Prelude.{
  AllFrom, AllFrom-map, zero, suc, ℕ, ◌+◌, ◌≡◌, refl, subst, sym, ap, ◌∙◌, none, some, List, [],
  ◌∷◌, arith, length, Text, ok,
}
use human_hand.Document.{CanonicalDocument, ImportFinding}
use human_hand.Document.Build.{
  NodeBuilder, node_builder, wrapped_node, wrap_nodes, BuildPolicy, build_document,
}
use human_hand.Document.Build.Numbered.{size}
use human_hand.Document.Build.Rooted.{build_document_inv, build_document-IsRooted}
use human_hand.Document.Measure.{max, measure_document}
use human_hand.Document.Measure.Walk.{max_from, IsDeepRooted, measure_document-max_from}
use human_hand.Document.Measure.Height.{
  height, depths, depths_all, length-depths, max_of, max_of-depths, HasDepth, wrap_children-IsDeep,
}

unfoldable nth : List ℕ → ℕ → ℕ
nth [] i = 0
nth (x ∷ xs) zero = x
nth (x ∷ xs) (suc i) = nth xs i

nth-AllFrom :
    (f : ℕ → ℕ) (k : ℕ) (xs : List ℕ)
    → ((i : ℕ) → f (k + i) ≡ nth xs i)
    → AllFrom (λ i x. f i ≡ x) k xs
unfolding nth
nth-AllFrom f k [] h = tt
nth-AllFrom f k (x ∷ xs) h =
    (ap f (omega arith) ∙ h 0, nth-AllFrom f (k + 1) xs (λ i. ap f (omega arith) ∙ h (suc i)))

-- The depth of the node with a number, counted from 1.
unfoldable depth_at : List ℕ → ℕ → ℕ
depth_at ds zero = 0
depth_at ds (suc i) = nth ds i

depth_at-HasDepth :
    (decimal : ℕ → Text) (ds : List ℕ) → AllFrom (HasDepth decimal (depth_at ds)) 0 ds
unfolding depth_at
depth_at-HasDepth decimal ds =
    AllFrom-map 0 ds (λ i x e. numbered i ∙ e)
      (nth-AllFrom (nth ds) 0 ds (λ i. ap (nth ds) (omega arith)))
  where
    numbered : (i : ℕ) → depth_at ds (i + 1) ≡ nth ds i
    numbered i = let next : i + 1 ≡ suc i = omega arith in ap (depth_at ds) next

max_from-max_of :
    (decimal : ℕ → Text) (dep : ℕ → ℕ) (k depth : ℕ) (ds : List ℕ)
    → AllFrom (HasDepth decimal dep) k ds
    → max_from dep k (length ds) depth ≡ max_of depth ds
unfolding max_from max_of
max_from-max_of decimal dep k depth [] h = refl
max_from-max_of decimal dep k depth (x ∷ ds) (e, h) =
    max_from-max_of decimal dep (k + 1) (max depth (dep (k + 1))) ds h
    ∙ ap (λ y. max_of (max depth y) ds) e

wrap_nodes-IsDeepRooted :
    (decimal : ℕ → Text) (dep : ℕ → ℕ) (root : NodeBuilder)
    → AllFrom (HasDepth decimal dep) 0 (depths root 0)
    → IsDeepRooted decimal dep (wrap_nodes decimal root none 1 0).0
unfolding wrap_nodes wrapped_node depths
wrap_nodes-IsDeepRooted decimal dep (node_builder b children) (e, h) = (
  refl,
  refl,
  e,
  wrap_children-IsDeep decimal dep children 1 1 1 (omega arith) (omega arith)
      (subst (λ d. AllFrom (HasDepth decimal dep) 1 (depths_all children d)) (sym e) h),
)

max_zero : (n : ℕ) → max 0 (0 + n) ≡ n
unfolding max
max_zero n = ground arith

module _ (decimal : ℕ → Text) (root : NodeBuilder) where
  abbrev dep : ℕ → ℕ
  dep = depth_at (depths root 0)

  max_from-height : max_from dep 0 (size root) 0 ≡ height root
  max_from-height =
      ap (λ n. max_from dep 0 n 0) (sym (length-depths root 0))
      ∙ max_from-max_of decimal dep 0 0 (depths root 0) (depth_at-HasDepth decimal (depths root 0))
      ∙ max_of-depths root 0 0
      ∙ max_zero (height root)

  -- When different numbers are printed differently, every walk that `measure_document` makes in a document
  -- from `build_document` ends, and the measures are the given size, the bytes of the text, the number of
  -- builders of the tree and the height of the tree.
  pub measure_document-height :
      (nfc : Text → Text) (lane parser_name parser_version : Text) (policy : BuildPolicy)
      (surface_text : Text) (findings : List ImportFinding) (d : CanonicalDocument)
      (utf8_size : Text → ℕ) (size_bytes : ℕ)
      → ((m n : ℕ) → decimal m ≡ decimal n → m ≡ n)
      → build_document decimal nfc root lane parser_name parser_version policy surface_text findings
        ≡ ok d
      → measure_document utf8_size (some d) size_bytes
        ≡ some (record {
          size_bytes = size_bytes;
          expanded_bytes = utf8_size d.surface_text;
          node_count = size root;
          tree_depth = height root;
        })
  measure_document-height nfc lane parser_name parser_version policy surface_text findings d
        utf8_size size_bytes injective h =
      let (_, _, same, _) =
        build_document_inv decimal nfc root lane parser_name parser_version policy surface_text
          findings d h in
      let (sized, _, _) =
        build_document-IsRooted decimal nfc root lane parser_name parser_version policy surface_text
          findings d h in
      let rooted : IsDeepRooted decimal dep d.nodes =
        subst (IsDeepRooted decimal dep) same
          (wrap_nodes-IsDeepRooted decimal dep root (depth_at-HasDepth decimal (depths root 0))) in
      measure_document-max_from decimal injective dep utf8_size d size_bytes rooted
      ∙ ap
          (λ n. some (record {
            size_bytes = size_bytes;
            expanded_bytes = utf8_size d.surface_text;
            node_count = n;
            tree_depth = max_from dep 0 n 0;
          }))
          sized
      ∙ ap
          (λ n. some (record {
            size_bytes = size_bytes;
            expanded_bytes = utf8_size d.surface_text;
            node_count = size root;
            tree_depth = n;
          }))
          max_from-height
