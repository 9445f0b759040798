-- ===== src/Lexical/Words.antt =====
-- The methods of Python's `str` that the lexical pipeline uses, on lists of code points. What depends on
-- the Unicode tables is a field of `Chars`: `str.lower` and `str.upper` on a text, `str.isupper`,
-- `str.islower` and `str.isspace` on a character.
use human_hand.Prelude.{
  ℕ, suc, ◌+◌, Bool, true, false, ◌&&◌, ◌||◌, List, [], ◌∷◌, leb, length, reverse, is_nil, Text,
  starts_with, if◌then◌else◌,
}
use human_hand.Prelude.Int.{ℤ, pos, negsuc}

pub record Chars : Type 0 where
  pub lower : Text → Text
  pub upper : Text → Text
  pub is_upper : ℕ → Bool
  pub is_lower : ℕ → Bool
  pub is_space : ℕ → Bool

-- `string.punctuation`
unfoldable pub is_punctuation : ℕ → Bool
is_punctuation c =
    leb 33 c && leb c 47 || leb 58 c && leb c 64 || leb 91 c && leb c 96 || leb 123 c && leb c 126

-- `text.lstrip` and `text.strip` of the characters that pass a test.
unfoldable pub strip_left : (ℕ → Bool) → Text → Text
strip_left p [] = []
strip_left p (c ∷ s) = let rest = strip_left p s in if p c then rest else c ∷ s

unfoldable pub strip : (ℕ → Bool) → Text → Text
unfolding strip_left
strip p s = reverse (strip_left p (reverse (strip_left p s)))

-- `text.find(part)`, -1 when there is none.
unfoldable pub find : (part : Text) → Text → ℤ
find part [] = if is_nil part then pos 0 else negsuc 0
find part (c ∷ s) =
    let later = find part s in
    if starts_with part (c ∷ s)
    then pos 0
    else elim later [ pos n ↦ pos (suc n) | negsuc n ↦ negsuc 0 ]

-- The longest runs of characters that fail a test, each with its offset, which is how the matches of
-- `\S+` stand in a text. `run` is the run being read, last character first, and `start` its offset.
unfoldable pub runs_from : (ℕ → Bool) → (start : ℕ) (run : Text) → Text → List (Text × ℕ)
runs_from p start [] [] = []
runs_from p start (d ∷ run) [] = (reverse (d ∷ run), start) ∷ []
runs_from p start [] (c ∷ s) = elim (p c) [
  | true ↦ runs_from p (start + 1) [] s
  | false ↦ runs_from p start (c ∷ []) s
]
runs_from p start (d ∷ run) (c ∷ s) = elim (p c) [
  | true ↦ (reverse (d ∷ run), start) ∷ runs_from p (start + length (d ∷ run) + 1) [] s
  | false ↦ runs_from p start (c ∷ d ∷ run) s
]

unfoldable pub runs : (ℕ → Bool) → Text → List (Text × ℕ)
unfolding runs_from
runs p s = runs_from p 0 [] s
