-- ===== src/Prelude/Texts.antt =====
-- Texts as lists of code points, and their equality test.
use Prim.Native.Nat.{ℕ, ◌-◌}
use Prim.Native.Char.{code}
use Prim.Native.String.{String}
use mathlib.Core.Path.{◌≡◌, refl, ap₂}
use mathlib.Core.Logic.{◌↔◌}
use mathlib.Core.Option.{Option, none, some}
use mathlib.Core.Bool.{Bool, true, false, not, ◌&&◌, ◌||◌}
use mathlib.Core.List.{List, [], ◌∷◌, reverse}
use native.Mathlib.Omega.{arith}
use human_hand.Prelude.Tests.{◌==◌, ltb, if◌then◌else◌, ==_iff, &&-true}
use human_hand.Prelude.Lists.{take, drop, any}

abbrev pub Text : Type 0
Text = List ℕ

-- The code points of a literal.
abbrev pub codes : String → Text
codes String.[] = []
codes (String.◌∷◌ c s) = code c ∷ codes s

-- `text[start:end]` for 0 <= start; the cut stops at the end of the text.
abbrev pub slice : Text → (start end : ℕ) → Text
slice text start end = take (end - start) (drop start text)

unfoldable pub text_eq : Text → Text → Bool
text_eq [] [] = true
text_eq (c ∷ s) (d ∷ t) = c == d && text_eq s t
text_eq _ _ = false

pub text_eq→eq : (s t : Text) → text_eq s t ≡ true → s ≡ t
unfolding text_eq
text_eq→eq [] [] h = refl
text_eq→eq [] (d ∷ t) h = cc
text_eq→eq (c ∷ s) [] h = cc
text_eq→eq (c ∷ s) (d ∷ t) h =
    let (head, tail) = &&-true (c == d) (text_eq s t) h in
    ap₂ ◌∷◌ ((==_iff c d).0 head) (text_eq→eq s t tail)

pub text_eq_refl : (s : Text) → text_eq s s ≡ true
unfolding text_eq
text_eq_refl [] = refl
text_eq_refl (c ∷ s) = ground (arith, text_eq_refl s)

pub eq→text_eq : (s t : Text) → s ≡ t → text_eq s t ≡ true
eq→text_eq s t e = rw e (text_eq_refl t)

pub text_eq_iff : (s t : Text) → (text_eq s t ≡ true) ↔ (s ≡ t)
text_eq_iff s t = (text_eq→eq s t, eq→text_eq s t)

-- `x in xs`
unfoldable pub contains : Text → List Text → Bool
unfolding any
contains x xs = any (text_eq x) xs

-- `text.startswith(prefix)` and `text.endswith(suffix)`
unfoldable pub starts_with : (prefix : Text) → Text → Bool
starts_with [] text = true
starts_with (c ∷ prefix) [] = false
starts_with (c ∷ prefix) (d ∷ text) = c == d && starts_with prefix text

unfoldable pub ends_with : (suffix : Text) → Text → Bool
unfolding starts_with
ends_with suffix text = starts_with (reverse suffix) (reverse text)

-- Python's order of texts, by code points.
unfoldable pub text_lt : Text → Text → Bool
text_lt s [] = false
text_lt [] (d ∷ t) = true
text_lt (c ∷ s) (d ∷ t) = ltb c d || c == d && text_lt s t

-- `Enum(value)` for the members of an enumeration.
unfoldable pub member_of {ℓ} : {A : Type ℓ} → (A → Text) → Text → List A → Option A
member_of value text [] = none
member_of value text (a ∷ rest) =
    let found = member_of value text rest in if text_eq text (value a) then some a else found

-- No text occurs twice.
unfoldable pub are_distinct : List Text → Bool
unfolding contains
are_distinct [] = true
are_distinct (t ∷ rest) = not (contains t rest) && are_distinct rest
