-- ===== src/Spans/Tests.antt =====
-- Concrete protected spans: a nested span is dropped, and a span behind a change is moved.
use human_hand.Prelude.{
  map, ◌↔◌, ℕ, ◌≡◌, ◌≢◌, refl, List, [], ◌∷◌, arith, Text, codes, text_eq, contains, any, select,
  All, ok, err,
}
use human_hand.Prelude.Int.{◌+ℤ◌, ◌-ℤ◌}
use human_hand.Lexical.{LexicalChange, safe}
use human_hand.Lexical.Splice.{rebuild, IsOrdered}
use human_hand.Lexical.Apply.Order.{IsNonempty}
use human_hand.Spans.{
  ProtectedSpan, number, extracted, rebase_failed, build_protected_span_set, rebase_protected_spans,
  rebase_loop, rebase_span, rebase_shift, moved,
}
use human_hand.Spans.Layout.{IsLaidOut, build_protected_span_set-IsLaidOut}
use human_hand.Spans.Moved.{IsUntouched, shifted_span, rebase_protected_spans-shifted_span}
use human_hand.Spans.Rebase.{IsExactSpan, accepted, rebase_protected_spans-ne-rebase_failed}

abbrev digits : ℕ → Text
digits n = codes "1"

abbrev span_at : ℕ → ℕ → Text → ProtectedSpan
span_at from to text = record {
  span_id = codes "s1";
  kind = number;
  source_location = record { start_offset = from; end_offset = to; line_start = 1; line_end = 1 };
  text = text;
  label = [];
  status = extracted;
}

abbrev spans : List ProtectedSpan
spans = span_at 7 9 (codes "12") ∷ []

build_protected_span_set-IsLaidOut_example :
    (kept : List ProtectedSpan) × (build_protected_span_set digits
        (span_at 7 9 (codes "12") ∷ span_at 8 9 (codes "2") ∷ [])
      ≡ ok kept)
    × IsLaidOut digits 0 0 kept
build_protected_span_set-IsLaidOut_example =
    build_protected_span_set-IsLaidOut digits
      (span_at 7 9 (codes "12") ∷ span_at 8 9 (codes "2") ∷ []) (omega arith, (omega arith, tt))

abbrev text : Text
text = codes "we use 12"

abbrev change : LexicalChange
change = record {
  change_id = codes "c1";
  offset = 3;
  length = 3;
  source_surface = codes "use";
  target = codes "take";
  reason = [];
  precedence = codes "USER";
  confidence = 900000;
  status = safe;
  rule_id = codes "r1";
  sense = [];
  ruleset_hash = [];
}

abbrev ids : List Text
ids = codes "c1" ∷ []

in_order : IsOrdered 0 (accepted (change ∷ []) ids)
unfolding select contains any text_eq
in_order = (omega arith, tt)

full : All IsNonempty (accepted (change ∷ []) ids)
unfolding select contains any text_eq
full = (omega arith, tt)

exact : All (IsExactSpan text) spans
exact = (record { forward = omega arith; within = omega arith; exact = refl }, tt)

rebased :
    rebase_protected_spans spans (change ∷ []) ids (rebuild 0 text (accepted (change ∷ []) ids))
    ≡ ok (span_at 8 10 (codes "12") ∷ [])
unfolding rebase_protected_spans rebase_loop rebase_span rebase_shift moved rebuild select contains
    any text_eq ◌+ℤ◌ ◌-ℤ◌
rebased = refl

rebase_protected_spans-shifted_span_example :
    (((spans' : List ProtectedSpan) × (rebase_protected_spans spans
            (change ∷ [])
            ids
            (rebuild 0 text (accepted (change ∷ []) ids))
          ≡ ok spans'))
      ↔ All (IsUntouched (accepted (change ∷ []) ids)) spans)
    × (All (IsUntouched (accepted (change ∷ []) ids)) spans
        → (rebase_protected_spans spans
              (change ∷ [])
              ids
              (rebuild 0 text (accepted (change ∷ []) ids))
            ≡ ok (map (shifted_span (accepted (change ∷ []) ids)) spans))
          × All
              (IsExactSpan (rebuild 0 text (accepted (change ∷ []) ids)))
              (map (shifted_span (accepted (change ∷ []) ids)) spans))
rebase_protected_spans-shifted_span_example =
    rebase_protected_spans-shifted_span text (change ∷ []) ids in_order full spans exact

rebase_protected_spans-ne-rebase_failed_example :
    rebase_protected_spans spans (change ∷ []) ids (rebuild 0 text (accepted (change ∷ []) ids))
    ≢ err (rebase_failed (codes "s1"))
rebase_protected_spans-ne-rebase_failed_example =
    rebase_protected_spans-ne-rebase_failed text (change ∷ []) ids in_order full (codes "s1") spans
      exact
