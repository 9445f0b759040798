-- ===== src/Spans.antt =====
-- src/humanhand/domain/protected_spans.py, and `_rebase_protected_spans` of
-- src/humanhand/application/integrated_workflow.py. `decimal` prints a number.
pub mod Layout
pub mod Moved
pub mod Rebase
mod Tests
use human_hand.Prelude.{
  ℕ, ◌+◌, Bool, true, false, not, ◌&&◌, ◌||◌, List, [], ◌∷◌, ◌++◌, ◌==◌, ltb, leb, any, select,
  length, Text, codes, text_eq, contains, slice, Result, ok, err, ◌>>=◌, ◌>>◌, raise_if,
}
use human_hand.Prelude.Int.{ℤ, pos, pos_part, ◌+ℤ◌, ◌-ℤ◌}
use human_hand.Document.{SourceLocation}
use human_hand.Lexical.{LexicalChange}

pub data SpanKind : Type 0 where
  quotation citation number unit date entity key_term : SpanKind

pub data SpanStatus : Type 0 where
  extracted approved excluded : SpanStatus

pub record ProtectedSpan : Type 0 where
  pub span_id : Text
  pub kind : SpanKind
  pub source_location : SourceLocation
  pub text : Text
  pub label : Text
  pub status : SpanStatus

pub data SpanError : Type 0 where
  invalid_offsets : (span_id : Text) → SpanError
  overlaps_change : (span_id : Text) → SpanError
  rebase_failed : (span_id : Text) → SpanError

unfoldable pub kind_value : SpanKind → Text
kind_value quotation = codes "quotation"
kind_value citation = codes "citation"
kind_value number = codes "number"
kind_value unit = codes "unit"
kind_value date = codes "date"
kind_value entity = codes "entity"
kind_value key_term = codes "key_term"

-- Two spans have the same key `(kind, start, end)`.
unfoldable pub same_key : ProtectedSpan → ProtectedSpan → Bool
unfolding kind_value text_eq
same_key a b =
    text_eq (kind_value a.kind) (kind_value b.kind)
    && a.source_location.start_offset == b.source_location.start_offset
    && a.source_location.end_offset == b.source_location.end_offset

-- The loop of `build_protected_span_set`, with the spans whose keys were seen, and how many were kept.
-- `previous_end` starts at -1 there, which no offset is below.
unfoldable pub build_loop :
    (decimal : ℕ → Text)
    → (previous_end count : ℕ) → (seen : List ProtectedSpan) → List ProtectedSpan
    → Result SpanError (List ProtectedSpan)
build_loop decimal previous_end count seen [] = ok []
build_loop decimal previous_end count seen (span ∷ rest) = do
  let location = span.source_location
  raise_if (ltb location.end_offset location.start_offset) (invalid_offsets span.span_id)
  elim (any (same_key span) seen || ltb location.start_offset previous_end) [
    | true ↦ build_loop decimal previous_end count seen rest
    | false ↦ (do
      others ← build_loop decimal location.end_offset (count + 1) (span ∷ seen) rest
      ok (record span { span_id = codes "s" ++ decimal (count + 1) } ∷ others))
  ]

unfoldable pub build_protected_span_set :
    (decimal : ℕ → Text) → List ProtectedSpan → Result SpanError (List ProtectedSpan)
build_protected_span_set decimal spans = build_loop decimal 0 0 [] spans

-- The loop over the accepted changes, for one span.
unfoldable pub rebase_shift : ProtectedSpan → (shift : ℤ) → List LexicalChange → Result SpanError ℤ
rebase_shift span shift [] = ok shift
rebase_shift span shift (change ∷ rest) =
    let change_end = change.offset + change.length in
    elim (leb change_end span.source_location.start_offset) [
      | true ↦ rebase_shift span (shift +ℤ (pos (length change.target) -ℤ pos change.length)) rest
      | false ↦ (do
        raise_if (ltb change.offset span.source_location.end_offset) (overlaps_change span.span_id)
        rebase_shift span shift rest)
    ]

-- `offset + shift`, which is never negative for ordered changes.
unfoldable pub moved : ℕ → ℤ → ℕ
moved offset shift = pos_part (pos offset +ℤ shift)

-- One round of the loop over the spans.
unfoldable pub rebase_span :
    (accepted : List LexicalChange)
    → (transformed_text : Text) → ProtectedSpan
    → Result SpanError ProtectedSpan
rebase_span accepted transformed_text span = do
  let location = span.source_location
  shift ← rebase_shift span (pos 0) accepted
  let start = moved location.start_offset shift
  let end = moved location.end_offset shift
  raise_if (not (text_eq (slice transformed_text start end) span.text)) (rebase_failed span.span_id)
  ok (record span { source_location = record location { start_offset = start; end_offset = end } })

unfoldable pub rebase_loop :
    List LexicalChange → Text → List ProtectedSpan → Result SpanError (List ProtectedSpan)
rebase_loop accepted transformed_text [] = ok []
rebase_loop accepted transformed_text (span ∷ rest) = do
  rebased ← rebase_span accepted transformed_text span
  others ← rebase_loop accepted transformed_text rest
  ok (rebased ∷ others)

unfoldable pub rebase_protected_spans :
    List ProtectedSpan
    → (changes : List LexicalChange) → (accepted_change_ids : List Text) → (transformed_text : Text)
    → Result SpanError (List ProtectedSpan)
unfolding select contains
rebase_protected_spans spans changes accepted_change_ids transformed_text =
    let accepted = select (λ c. contains c.change_id accepted_change_ids) changes in
    rebase_loop accepted transformed_text spans
