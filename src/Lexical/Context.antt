-- ===== src/Lexical/Context.antt =====
-- The contexts of src/humanhand/domain/lexical_context.py, and those that
-- `_contexts_with_multiword_candidates` of lexical_normalizer.py makes of them. `finditer` stands for the
-- matches of the regular expression that is built from a phrase, as their start and end.
use human_hand.Prelude.{
  ℕ, ◌+◌, ◌-◌, Bool, true, false, not, ◌&&◌, ◌||◌, List, [], ◌∷◌, ◌++◌, ◌==◌, map, any, select,
  take, reverse, length, ltb, leb, is_nil, Text, codes, slice, text_lt,
}
use human_hand.Prelude.Sort.{sorted}
use human_hand.Lexical.Rules.{token_to_lemma, estimate_part_of_speech}
use human_hand.Lexical.Words.{Chars, runs}
use human_hand.Spans.{ProtectedSpan}

pub record LexicalContext : Type 0 where
  pub token : Text
  pub lemma : Text
  pub offset : ℕ
  pub left_window : Text
  pub right_window : Text
  pub protected_span_ids : List Text
  pub part_of_speech : Text

-- `" ".join(words)`
unfoldable pub join_words : List Text → Text
join_words [] = []
join_words (w ∷ []) = w
join_words (w ∷ v ∷ rest) = w ++ codes " " ++ join_words (v ∷ rest)

unfoldable pub covered_ids : List ProtectedSpan → (offset : ℕ) → List Text
covered_ids spans offset =
    map (λ s. s.span_id)
      (select
        (λ s. leb s.source_location.start_offset offset && ltb offset s.source_location.end_offset)
        spans)

module _ (chars : Chars) where
  -- The loop over the tokens, with those behind it, last first.
  unfoldable pub contexts_from :
      List ProtectedSpan → (before : List Text) → List (Text × ℕ) → List LexicalContext
  contexts_from spans before [] = []
  contexts_from spans before ((surface, offset) ∷ rest) =
      record {
        token = surface;
        lemma = token_to_lemma chars.lower surface;
        offset = offset;
        left_window = join_words (map chars.lower (reverse (take 3 before)));
        right_window = join_words (take 3 (map (λ t. t.0) rest));
        protected_span_ids = covered_ids spans offset;
        part_of_speech = estimate_part_of_speech chars.lower surface;
      }
      ∷ contexts_from spans (surface ∷ before) rest

  unfoldable pub build_contexts : Text → List ProtectedSpan → List LexicalContext
  build_contexts text spans = contexts_from spans [] (runs chars.is_space text)

unfoldable pub context_in_protected_span : LexicalContext → Bool
context_in_protected_span context = not (is_nil context.protected_span_ids)

-- Two ranges have a character in common: `start < other_end and other_start < end`.
unfoldable pub ranges_overlap : (start end other_start other_end : ℕ) → Bool
ranges_overlap start end other_start other_end = ltb start other_end && ltb other_start end

unfoldable pub overlaps_any : (start end : ℕ) → List (ℕ × ℕ) → Bool
unfolding ranges_overlap
overlaps_any start end ranges = any (λ r. ranges_overlap start end r.0 r.1) ranges

unfoldable pub overlapping_spans : (start end : ℕ) → List ProtectedSpan → List ProtectedSpan
overlapping_spans start end spans =
    select
      (λ s. ranges_overlap start end s.source_location.start_offset s.source_location.end_offset)
      spans

-- Longest first, then in the order of the texts.
unfoldable pub phrase_le : Text → Text → Bool
phrase_le s t = ltb (length t) (length s) || length s == length t && not (text_lt t s)

unfoldable pub phrase_context :
    (text : Text) → List ProtectedSpan → (source : Text) (start end : ℕ) → LexicalContext
phrase_context text spans source start end = record {
  token = slice text start end;
  lemma = source;
  offset = start;
  left_window = slice text (start - 40) start;
  right_window = slice text end (end + 40);
  protected_span_ids = map (λ s. s.span_id) (overlapping_spans start end spans);
  part_of_speech = codes "other";
}

-- The inner loop, over the matches of one phrase, with the ranges taken so far.
unfoldable pub phrases_of :
    (text : Text)
    → List ProtectedSpan
    → (source : Text) (matches : List (ℕ × ℕ)) (ranges : List (ℕ × ℕ))
    → List LexicalContext × List (ℕ × ℕ)
phrases_of text spans source [] ranges = ([], ranges)
phrases_of text spans source ((start, end) ∷ rest) ranges = elim (overlaps_any start end ranges) [
  | true ↦ phrases_of text spans source rest ranges
  | false ↦
      let (others, taken) = phrases_of text spans source rest ((start, end) ∷ ranges) in
      (phrase_context text spans source start end ∷ others, taken)
]

-- The outer loop, over the phrases.
unfoldable pub phrases_from :
    (finditer : (source text : Text) → List (ℕ × ℕ))
    → (text : Text) → List ProtectedSpan
    → (sources : List Text) (ranges : List (ℕ × ℕ)) → List LexicalContext × List (ℕ × ℕ)
phrases_from finditer text spans [] ranges = ([], ranges)
phrases_from finditer text spans (source ∷ rest) ranges =
    let (found, taken) = phrases_of text spans source (finditer source text) ranges in
    let (others, all_taken) = phrases_from finditer text spans rest taken in
    (found ++ others, all_taken)

-- By offset, the longest first.
unfoldable pub context_le : LexicalContext → LexicalContext → Bool
context_le a b =
    ltb a.offset b.offset || a.offset == b.offset && leb (length b.token) (length a.token)

unfoldable pub has_space : Text → Bool
has_space source = any (λ c. c == 32) source

unfoldable pub contexts_with_multiword_candidates :
    (finditer : (source text : Text) → List (ℕ × ℕ))
    → (text : Text) → List LexicalContext
    → (source_tokens : List Text) → List ProtectedSpan
    → List LexicalContext
contexts_with_multiword_candidates finditer text contexts source_tokens spans =
    let (phrases, ranges) =
      phrases_from finditer text spans (sorted phrase_le (select has_space source_tokens)) [] in
    let singles =
      select (λ c. not (overlaps_any c.offset (c.offset + length c.token) ranges)) contexts in
    sorted context_le (phrases ++ singles)
