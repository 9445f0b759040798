-- ===== src/Spans/Moved.antt =====
-- Where the protected spans go (`_rebase_protected_spans` of integrated_workflow.py).
use human_hand.Prelude.{
  ◌↔◌, text_eq, true, ltb, false, map, ◌+◌, ◌≡◌, refl, sym, ap, ◌∙◌, subst, List, [], ◌∷◌, leb,
  length, arith, Text, slice, eq→text_eq, All, inl, inr, ok, Bool-cases, Result-cases,
}
use human_hand.Prelude.Int.{ℤ, pos, ◌+ℤ◌, ◌-ℤ◌}
use human_hand.Lexical.{LexicalChange}
use human_hand.Lexical.Splice.{rebuild, IsOrdered}
use human_hand.Lexical.Apply.Order.{IsNonempty}
use human_hand.Transform.{shift, shift_step, shifted_offset}
use human_hand.Spans.{
  ProtectedSpan, rebase_shift, moved, rebase_span, rebase_loop, rebase_protected_spans,
}
use human_hand.Spans.Rebase.{
  IsExactSpan, IsClear, rebase_shift-shift, clear_shift, moved_slice, accepted,
}

-- No change overlaps the span.
abbrev pub IsUntouched : List LexicalChange → ProtectedSpan → Type 0
IsUntouched cs s = All (IsClear s.source_location.start_offset s.source_location.end_offset) cs

-- A span at the offsets to which the changes shift its own, as they shift those of a node.
abbrev pub shifted_span : List LexicalChange → ProtectedSpan → ProtectedSpan
shifted_span cs s = record s {
  source_location = record (s.source_location) {
    start_offset = shifted_offset s.source_location.start_offset cs;
    end_offset = shifted_offset s.source_location.end_offset cs;
  };
}

rebase_shift-IsUntouched :
    (s : ProtectedSpan) (acc : ℤ) (cs : List LexicalChange)
    → IsUntouched cs s
    → rebase_shift s acc cs ≡ ok (shift s.source_location.start_offset acc cs)
unfolding rebase_shift shift shift_step
rebase_shift-IsUntouched s acc [] h = refl
rebase_shift-IsUntouched s acc (c ∷ cs) (clear, h) =
    let start = s.source_location.start_offset in
    let next = acc +ℤ (pos (length c.target) -ℤ pos c.length) in
    elim (Bool-cases (leb (c.offset + c.length) start)) [
      | inl early ↦ rw (early, rebase_shift) (rebase_shift-IsUntouched s next cs h)
      | inr late ↦
          let behind : ltb c.offset s.source_location.end_offset ≡ false = ground (arith, clear) in
          rw (late, rebase_shift, behind) (rebase_shift-IsUntouched s acc cs h)
    ]

rebase_span-at :
    (cs : List LexicalChange) (text : Text) (s : ProtectedSpan) (k : ℤ)
    → rebase_shift s (pos 0) cs ≡ ok k
    → text_eq
        (slice text (moved s.source_location.start_offset k) (moved s.source_location.end_offset k))
        s.text
      ≡ true
    → rebase_span cs text s
      ≡ ok (record s {
        source_location = record (s.source_location) {
          start_offset = moved s.source_location.start_offset k;
          end_offset = moved s.source_location.end_offset k;
        };
      })
unfolding rebase_span
rebase_span-at cs text s k h e = rw (h, e) refl

module _ (text : Text) (cs : List LexicalChange) (o : IsOrdered 0 cs)
    (full : All IsNonempty cs) where
  shifted_span-IsExactSpan :
      (s : ProtectedSpan)
      → IsExactSpan text s
      → IsUntouched cs s
      → IsExactSpan (rebuild 0 text cs) (shifted_span cs s)
  unfolding moved shifted_offset
  shifted_span-IsExactSpan s x h =
      let start = s.source_location.start_offset in
      let end = s.source_location.end_offset in
      let exact = moved_slice text cs o full s _ x (rebase_shift-IsUntouched s (pos 0) cs h) in
      let agree = clear_shift start end x.forward (pos 0) cs h full in
      subst
        (λ k. IsExactSpan (rebuild 0 text cs) (record s {
          source_location = record (s.source_location) {
            start_offset = moved start (shift start (pos 0) cs);
            end_offset = moved end k;
          };
        }))
        (sym agree) exact

  rebase_span-IsUntouched :
      (s : ProtectedSpan)
      → IsExactSpan text s
      → IsUntouched cs s
      → rebase_span cs (rebuild 0 text cs) s ≡ ok (shifted_span cs s)
  unfolding moved shifted_offset
  rebase_span-IsUntouched s x h =
      let start = s.source_location.start_offset in
      let end = s.source_location.end_offset in
      let agree = clear_shift start end x.forward (pos 0) cs h full in
      let shifted = rebase_shift-IsUntouched s (pos 0) cs h in
      let exact = (moved_slice text cs o full s (shift start (pos 0) cs) x shifted).exact in
      rebase_span-at cs (rebuild 0 text cs) s (shift start (pos 0) cs) shifted
        (eq→text_eq _ _ exact)
      ∙ ap
          (λ k. ok (record s {
            source_location = record (s.source_location) {
              start_offset = moved start (shift start (pos 0) cs);
              end_offset = moved end k;
            };
          }))
          (sym agree)

  rebase_span_inv :
      (s s' : ProtectedSpan) → rebase_span cs (rebuild 0 text cs) s ≡ ok s' → IsUntouched cs s
  unfolding rebase_span
  rebase_span_inv s s' h = elim (Result-cases (rebase_shift s (pos 0) cs)) [
    | inr (e, r) ↦ absurd (ground arith)
    | inl (k, r) ↦ (rebase_shift-shift s (pos 0) k cs r).1
  ]

  rebase_loop-IsUntouched :
      (spans : List ProtectedSpan)
      → All (IsExactSpan text) spans
      → All (IsUntouched cs) spans
      → (rebase_loop cs (rebuild 0 text cs) spans ≡ ok (map (shifted_span cs) spans))
        × All (IsExactSpan (rebuild 0 text cs)) (map (shifted_span cs) spans)
  unfolding rebase_loop
  rebase_loop-IsUntouched [] x h = (refl, tt)
  rebase_loop-IsUntouched (s ∷ spans) (x, xs) (h, hs) =
      let (others, exact) = rebase_loop-IsUntouched spans xs hs in
      (
        rw (rebase_span-IsUntouched s x h, rebase_loop, others) refl,
        (shifted_span-IsExactSpan s x h, exact),
      )

  rebase_loop_inv :
      (spans spans' : List ProtectedSpan)
      → rebase_loop cs (rebuild 0 text cs) spans ≡ ok spans'
      → All (IsUntouched cs) spans
  unfolding rebase_loop
  rebase_loop_inv [] spans' h = tt
  rebase_loop_inv (s ∷ spans) spans' h =
      elim (Result-cases (rebase_span cs (rebuild 0 text cs) s)) [
        | inr (e, r) ↦ absurd (ground arith)
        | inl (t, r) ↦ elim (Result-cases (rebase_loop cs (rebuild 0 text cs) spans)) [
          | inr (e, r') ↦ absurd (ground arith)
          | inl (ts, r') ↦ (rebase_span_inv s t r, rebase_loop_inv spans ts r')
        ]
      ]

module _ (text : Text) (changes : List LexicalChange) (ids : List Text)
    (o : IsOrdered 0 (accepted changes ids)) (full : All IsNonempty (accepted changes ids)) where
  -- Where the accepted changes stand in order without overlap and none is empty, and the offsets of every
  -- protected span cut it out of the old text, the rebase onto the text with the changes applied succeeds
  -- exactly when no accepted change overlaps a span. It then gives the spans in their order, with nothing
  -- changed but their offsets, which are shifted as those of the nodes are, and these cut each span out
  -- of the new text.
  pub rebase_protected_spans-shifted_span :
      (spans : List ProtectedSpan)
      → All (IsExactSpan text) spans
      → (((spans' : List ProtectedSpan) × (rebase_protected_spans spans changes ids
                (rebuild 0 text (accepted changes ids))
              ≡ ok spans'))
          ↔ All (IsUntouched (accepted changes ids)) spans)
        × (All (IsUntouched (accepted changes ids)) spans
            → (rebase_protected_spans spans changes ids (rebuild 0 text (accepted changes ids))
                ≡ ok (map (shifted_span (accepted changes ids)) spans))
              × All
                  (IsExactSpan (rebuild 0 text (accepted changes ids)))
                  (map (shifted_span (accepted changes ids)) spans))
  unfolding rebase_protected_spans
  rebase_protected_spans-shifted_span spans x =
      let cs = accepted changes ids in
      let moves = rebase_loop-IsUntouched text cs o full spans x in
      (
        (
          (λ (spans', h). rebase_loop_inv text cs o full spans spans' h),
          (λ clear. (map (shifted_span cs) spans, (moves clear).0)),
        ),
        moves,
      )
