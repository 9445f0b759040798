-- ===== src/Lexical/Collocations.antt =====
-- src/humanhand/domain/collocations.py.
use human_hand.Prelude.{
  ℕ, ◌+◌, Bool, true, false, not, ◌&&◌, ◌||◌, List, [], ◌∷◌, ◌++◌, map, any, reverse, select,
  length, leb, is_nil, Text, codes, text_eq, contains,
}
use human_hand.Lexical.Words.{Chars, is_punctuation, strip, runs}

-- Each entry doubles a word.
abbrev pub forbidden_bigrams : List (Text × Text)
forbidden_bigrams =
    (codes "a", codes "a")
    ∷ (codes "of", codes "of")
    ∷ (codes "the", codes "the")
    ∷ (codes "to", codes "to")
    ∷ (codes "use", codes "use")
    ∷ []

unfoldable pub is_forbidden : Text × Text → Bool
is_forbidden (left, right) = any (λ b. text_eq left b.0 && text_eq right b.1) forbidden_bigrams

-- `zip(xs, xs[1:])`
unfoldable pub bigrams : List Text → List (Text × Text)
bigrams [] = []
bigrams (x ∷ []) = []
bigrams (x ∷ y ∷ rest) = (x, y) ∷ bigrams (y ∷ rest)

-- The loop of `check_doubled_tokens`, on the lowered pairs.
unfoldable pub doubled : (seen : List Text) → List (Text × Text) → List Text
doubled seen [] = []
doubled seen ((left, right) ∷ rest) = elim (text_eq left right && not (contains left seen)) [
  | true ↦ left ∷ doubled (left ∷ seen) rest
  | false ↦ doubled seen rest
]

-- The first element of a list is there and passes a test.
unfoldable pub first_is : (Text → Bool) → List Text → Bool
first_is p [] = false
first_is p (x ∷ xs) = p x

module _ (chars : Chars) where
  unfoldable pub tokens : (window : Text) → List Text
  tokens window =
      select (λ t. not (is_nil t))
        (map (λ run. strip is_punctuation run.0) (runs chars.is_space window))

  unfoldable pub lowered : List Text → List Text
  lowered ts = map chars.lower ts

  unfoldable pub check_doubled_tokens : (window : Text) → List Text
  check_doubled_tokens window = doubled [] (bigrams (lowered (tokens window)))

  unfoldable pub collocation_preserved :
      (text : Text) (offset length_ : ℕ) (replacement left_window right_window : Text) → Bool
  collocation_preserved text offset length_ replacement left_window right_window =
      let lowered_replacement = lowered (tokens replacement) in
      not (
        is_nil replacement
        || not (text_eq replacement (strip chars.is_space replacement))
        || not (leb 1 length_)
        || not (leb (offset + length_) (length text))
        || any is_forbidden
            (bigrams (lowered (tokens (left_window ++ replacement ++ right_window))))
        || is_nil lowered_replacement
        || first_is (λ l. first_is (text_eq l) lowered_replacement)
            (reverse (lowered (tokens left_window)))
        || first_is (λ r. first_is (text_eq r) (reverse lowered_replacement))
            (lowered (tokens right_window))
        || any (λ b. text_eq b.0 b.1) (bigrams lowered_replacement))
