-- ===== src/Document/Measure/Tests.antt =====
-- The measures of a document with a heading and a paragraph of one sentence (canonical_document.py).
use human_hand.Prelude.{length, ℕ, ◌≡◌, refl, some, [], Text, codes}
use human_hand.Document.Build.Numbered.{size}
use human_hand.Document.Build.Tests.{strokes, same, tree, policy, built, builds, strokes_injective}
use human_hand.Document.Measure.{max, measure_document}
use human_hand.Document.Measure.Height.{height}
use human_hand.Document.Measure.Tree.{measure_document-height}

abbrev utf8_size : Text → ℕ
utf8_size t = length t

measure_document-height_example :
    measure_document utf8_size (some built) 4
    ≡ some (record {
      size_bytes = 4;
      expanded_bytes = utf8_size built.surface_text;
      node_count = size tree;
      tree_depth = height tree;
    })
measure_document-height_example =
    measure_document-height strokes tree same (codes "source") (codes "md") (codes "1") policy
      (codes "H Hi") [] built utf8_size 4 strokes_injective builds

height_is_three : height tree ≡ 3
unfolding height max
height_is_three = refl
