-- ===== src/Spans/Rebase.antt =====
-- Protected spans after the reviewed changes (`_rebase_protected_spans` of integrated_workflow.py).
use human_hand.Prelude.{
  ℕ, ◌+◌, ◌≤◌, ◌≡◌, ◌≢◌, refl, sym, ap, ap₂, ◌∙◌, subst, List, [], ◌∷◌, leb, length, arith, Text,
  slice, eq→text_eq, contains, select, All, ◌⊎◌, inl, inr, ok, err, Bool-cases, Result-cases,
}
use human_hand.Prelude.Int.{ℤ, pos, ◌+ℤ◌, ◌-ℤ◌}
use human_hand.Lexical.{LexicalChange}
use human_hand.Lexical.Splice.{rebuild, IsOrdered}
use human_hand.Lexical.Apply.Order.{IsNonempty}
use human_hand.Transform.{shift, shift_step, shifted_offset, changes_inside}
use human_hand.Transform.Split.{split}
use human_hand.Transform.Spans.{slice-shifted, shifted_room}
use human_hand.Spans.{
  ProtectedSpan, rebase_failed, rebase_shift, moved, rebase_span, rebase_loop,
  rebase_protected_spans,
}

-- The span's offsets cut its text out of the text.
pub record IsExactSpan (text : Text) (s : ProtectedSpan) : Type 0 where
  pub forward : s.source_location.start_offset ≤ s.source_location.end_offset
  pub within : s.source_location.end_offset ≤ length text
  pub exact : slice text s.source_location.start_offset s.source_location.end_offset ≡ s.text

-- The change ends before the span or begins behind it.
abbrev pub IsClear : (start end : ℕ) → LexicalChange → Type 0
IsClear start end c = (c.offset + c.length ≤ start) ⊎ (end ≤ c.offset)

pub rebase_shift-shift :
    (s : ProtectedSpan) (acc k : ℤ) (cs : List LexicalChange)
    → rebase_shift s acc cs ≡ ok k
    → (k ≡ shift s.source_location.start_offset acc cs)
      × All (IsClear s.source_location.start_offset s.source_location.end_offset) cs
unfolding rebase_shift shift shift_step
rebase_shift-shift s acc k [] h = (ground arith, tt)
rebase_shift-shift s acc k (c ∷ cs) h =
    let start = s.source_location.start_offset in
    elim (Bool-cases (leb (c.offset + c.length) start)) [
      | inl early ↦
          let (same, clear) =
            rebase_shift-shift s (acc +ℤ (pos (length c.target) -ℤ pos c.length)) k cs
              (ground arith) in
          (rw early same, (inl (ground arith), clear))
      | inr late ↦
          let (same, clear) = rebase_shift-shift s acc k cs (ground arith) in
          (rw late same, (inr (ground arith), clear))
    ]

module _ (start end : ℕ) (h : start ≤ end) where
  clear_step :
      (acc : ℤ) (c : LexicalChange)
      → IsClear start end c
      → IsNonempty c
      → shift_step end acc c ≡ shift_step start acc c
  unfolding shift_step
  clear_step acc c clear full = ground arith

  pub clear_shift :
      (acc : ℤ) (cs : List LexicalChange)
      → All (IsClear start end) cs
      → All IsNonempty cs
      → shift end acc cs ≡ shift start acc cs
  unfolding shift
  clear_shift acc [] _ _ = refl
  clear_shift acc (c ∷ cs) (clear, rest) (full, more) =
      ap (λ a. shift end a cs) (clear_step acc c clear full)
      ∙ clear_shift (shift_step start acc c) cs rest more

  clear_inside :
      (cs : List LexicalChange) → All (IsClear start end) cs → changes_inside start end cs ≡ ok []
  unfolding changes_inside
  clear_inside [] _ = refl
  clear_inside (c ∷ cs) (clear, rest) = ground (arith, clear_inside cs rest)

rebase_shift-ne-rebase_failed :
    (id : Text) (s : ProtectedSpan) (acc : ℤ) (cs : List LexicalChange)
    → rebase_shift s acc cs ≢ err (rebase_failed id)
unfolding rebase_shift
rebase_shift-ne-rebase_failed id s acc [] = λ h. ground arith
rebase_shift-ne-rebase_failed id s acc (c ∷ cs) = λ h.
    let next = acc +ℤ (pos (length c.target) -ℤ pos c.length) in
    ground
      (arith, rebase_shift-ne-rebase_failed id s next cs, rebase_shift-ne-rebase_failed id s acc cs)

module _ (text : Text) (cs : List LexicalChange) (o : IsOrdered 0 cs)
    (full : All IsNonempty cs) where
  pub moved_slice :
      (s : ProtectedSpan) (k : ℤ)
      → IsExactSpan text s
      → rebase_shift s (pos 0) cs ≡ ok k
      → IsExactSpan (rebuild 0 text cs) (record s {
        source_location = record (s.source_location) {
          start_offset = moved s.source_location.start_offset k;
          end_offset = moved s.source_location.end_offset k;
        };
      })
  unfolding moved shifted_offset rebuild
  moved_slice s k x h =
      let start = s.source_location.start_offset in
      let end = s.source_location.end_offset in
      let (same, clear) = rebase_shift-shift s (pos 0) k cs h in
      let agree = same ∙ sym (clear_shift start end x.forward (pos 0) cs clear full) in
      let parts = split 0 start end cs [] x.forward o (clear_inside start end x.forward cs clear) in
      let from : moved start k ≡ shifted_offset start cs = ap (λ z. moved start z) same in
      let to : moved end k ≡ shifted_offset end cs = ap (λ z. moved end z) agree in
      let (forward, room) = shifted_room text start end x.forward x.within full parts in
      record {
        forward =
            subst (λ n. n ≤ moved end k) (sym from)
              (subst (λ n. shifted_offset start cs ≤ n) (sym to) forward);
        within = subst (λ n. n ≤ length (rebuild 0 text cs)) (sym to) room;
        exact =
            ap₂ (slice (rebuild 0 text cs)) from to
            ∙ slice-shifted text start end x.forward x.within full parts
            ∙ x.exact;
      }

  rebase_span-ne-rebase_failed :
      (id : Text) (s : ProtectedSpan)
      → IsExactSpan text s
      → rebase_span cs (rebuild 0 text cs) s ≢ err (rebase_failed id)
  unfolding rebase_span
  rebase_span-ne-rebase_failed id s x = λ h. elim (Result-cases (rebase_shift s (pos 0) cs)) [
    | inr (e, r) ↦ ground (arith, rebase_shift-ne-rebase_failed id s (pos 0) cs)
    | inl (k, r) ↦ ground (arith, eq→text_eq _ _ (moved_slice s k x r).exact)
  ]

  rebase_loop-ne-rebase_failed :
      (id : Text) (spans : List ProtectedSpan)
      → All (IsExactSpan text) spans
      → rebase_loop cs (rebuild 0 text cs) spans ≢ err (rebase_failed id)
  unfolding rebase_loop
  rebase_loop-ne-rebase_failed id [] x = λ h. ground arith
  rebase_loop-ne-rebase_failed id (s ∷ spans) (x, xs) = λ h.
      ground (arith, rebase_span-ne-rebase_failed id s x, rebase_loop-ne-rebase_failed id spans xs)

-- The changes with an accepted id, as `_rebase_protected_spans` takes them.
abbrev pub accepted : List LexicalChange → List Text → List LexicalChange
accepted changes ids = select (λ c. contains c.change_id ids) changes

module _ (text : Text) (changes : List LexicalChange) (ids : List Text)
    (o : IsOrdered 0 (accepted changes ids)) (full : All IsNonempty (accepted changes ids)) where
  -- Where the accepted changes stand in order without overlap, none is empty, and the offsets of every
  -- protected span cut it out of the old text, the rebase onto the text with the changes applied never
  -- raises `rebase_failed`.
  pub rebase_protected_spans-ne-rebase_failed :
      (id : Text) (spans : List ProtectedSpan)
      → All (IsExactSpan text) spans
      → rebase_protected_spans spans changes ids (rebuild 0 text (accepted changes ids))
        ≢ err (rebase_failed id)
  unfolding rebase_protected_spans
  rebase_protected_spans-ne-rebase_failed id spans x =
      rebase_loop-ne-rebase_failed text (accepted changes ids) o full id spans x
