-- ===== src/Lexical/Apply/Step.antt =====
-- One round of `apply_changes` at the front of a text that is already rebuilt further back.
use human_hand.Prelude.{
  ℕ, ◌+◌, ◌-◌, ◌≤◌, ◌≡◌, ◌↔◌, ap, ◌∙◌, List, [], ◌∷◌, ◌++◌, arith, Text, slice, All, take, drop,
  length, length-append, length-take, length-drop, take-take, drop-take, take-append_le,
  drop-append_le, drop-length-append,
}
use human_hand.Lexical.{LexicalChange}
use human_hand.Lexical.Splice.{rebuild, rebuild_skip, IsOrdered, Fits}
use human_hand.Lexical.Apply.{replace_span}

-- Cutting a text that begins with the first `a + l` characters of `text`.
module _ (text behind : Text) (a l : ℕ) (fits : a + l ≤ length text) where
  take-front : take a (take (a + l) text ++ behind) ≡ take a text
  take-front =
      take-append_le a (take (a + l) text) behind (omega (arith, length-take (a + l) text))
      ∙ take-take a (a + l) text (omega arith)

  drop-front : drop (a + l) (take (a + l) text ++ behind) ≡ behind
  drop-front =
      ap (λ n. drop n (take (a + l) text ++ behind))
        (let e : a + l ≡ length (take (a + l) text) = omega (arith, length-take (a + l) text) in e)
      ∙ drop-length-append (take (a + l) text) behind

  slice-front : slice (take (a + l) text ++ behind) a (a + l) ≡ slice text a (a + l)
  slice-front =
      let k = a + l - a in
      let e : k ≡ l = omega arith in
      ap (λ t. take k t)
        (drop-append_le a (take (a + l) text) behind (omega (arith, length-take (a + l) text))
          ∙ ap (λ t. t ++ behind) (drop-take a l text))
      ∙ take-append_le k (take l (drop a text)) behind
          (omega (arith, length-take l (drop a text), length-drop a text))
      ∙ take-take k l (drop a text) (omega arith)

module _ (from : ℕ) (text : Text) (c : LexicalChange) (cs : List LexicalChange)
    (after : from ≤ c.offset) (ordered : IsOrdered (c.offset + c.length) cs) where
  abbrev at : ℕ
  at = c.offset - from

  abbrev behind : Text
  behind = rebuild (c.offset + c.length) (drop (c.offset + c.length - from) text) cs

  rebuild_front : rebuild from text cs ≡ take (at + c.length) text ++ behind
  rebuild_front =
      rebuild_skip from (c.offset + c.length) text cs (omega arith) ordered
      ∙ ap (λ n. take n text ++ behind)
          (let e : c.offset + c.length - from ≡ at + c.length = omega arith in e)

  module _ (within : c.offset + c.length ≤ from + length text) where
    pub slice-rebuild :
        slice (rebuild from text cs) at (at + c.length) ≡ slice text at (at + c.length)
    slice-rebuild = rw rebuild_front (slice-front text behind at c.length (omega arith))

    pub replace_span-rebuild :
        replace_span (rebuild from text cs) at c.length c.target ≡ rebuild from text (c ∷ cs)
    unfolding replace_span rebuild
    replace_span-rebuild = rw (
      rebuild_front,
      take-front text behind at c.length (omega arith),
      drop-front text behind at c.length (omega arith),
    )

  length-rebuild_front : at + c.length ≤ length text → at + c.length ≤ length (rebuild from text cs)
  length-rebuild_front h = rw rebuild_front (
      omega
        (arith, length-append (take (at + c.length) text) behind, length-take (at + c.length) text))

-- The working copy is long enough for a change exactly when the original is.
pub within-rebuild :
    (from : ℕ) (text : Text) (c : LexicalChange) (cs : List LexicalChange)
    → from ≤ c.offset
    → IsOrdered (c.offset + c.length) cs
    → All (Fits from text) cs
    → (c.offset - from + c.length ≤ length (rebuild from text cs))
      ↔ (c.offset - from + c.length ≤ length text)
unfolding rebuild
within-rebuild from text c [] after ordered fits = (λ h. h, λ h. h)
within-rebuild from text c (d ∷ ds) after (behind_c, ordered) (fits, _) =
    let room : c.offset - from + c.length ≤ length text =
      omega (arith, fits.within, fits.nonempty) in
    (λ _. room, length-rebuild_front from text c (d ∷ ds) after (behind_c, ordered))
