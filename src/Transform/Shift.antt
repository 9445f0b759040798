-- ===== src/Transform/Shift.antt =====
-- `_shifted_offset` (revision_transform.py) at an offset that no change crosses.
use human_hand.Prelude.{
  ℕ, ◌+◌, ◌≤◌, ◌≡◌, refl, List, [], ◌∷◌, ◌++◌, arith, All, length, leb, Bool-cases, inl, inr,
}
use human_hand.Prelude.Int.{ℤ, pos, pos_part, neg_part, ◌+ℤ◌, ◌-ℤ◌, +ℤ_parts, -ℤ_parts, parts_cases}
use human_hand.Lexical.{LexicalChange}
use human_hand.Lexical.Splice.{IsOrdered, EndsBy, gained, lost}
use human_hand.Lexical.Apply.Order.{IsNonempty, IsOrdered-weaken}
use human_hand.Transform.{shift_step, shift, shifted_offset}

shift-append :
    (p : ℕ) (acc : ℤ) (xs ys : List LexicalChange)
    → shift p acc (xs ++ ys) ≡ shift p (shift p acc xs) ys
unfolding shift
shift-append p acc [] ys = refl
shift-append p acc (x ∷ xs) ys = shift-append p (shift_step p acc x) xs ys

shift-before :
    (p : ℕ) (acc : ℤ) (xs : List LexicalChange)
    → EndsBy p xs
    → pos_part (shift p acc xs) + neg_part acc + lost xs
      ≡ neg_part (shift p acc xs) + pos_part acc + gained xs
unfolding shift gained lost
shift-before p acc [] h = omega arith
shift-before p acc (x ∷ xs) (ends, h) = elim (Bool-cases (leb (x.offset + x.length) p)) [
  | inl e ↦
      let step = pos (length x.target) -ℤ pos x.length in
      rw e (
        omega (
          arith,
          shift-before p (acc +ℤ step) xs h,
          +ℤ_parts acc step,
          -ℤ_parts (pos (length x.target)) (pos x.length),
        ))
  | inr e ↦ absurd (ground arith)
]

shift-behind :
    (p : ℕ) (acc : ℤ) (ys : List LexicalChange)
    → IsOrdered p ys
    → All IsNonempty ys
    → shift p acc ys ≡ acc
unfolding shift
shift-behind p acc [] _ _ = refl
shift-behind p acc (y ∷ ys) (first, o) (full, rest) =
    elim (Bool-cases (leb (y.offset + y.length) p)) [
      | inl e ↦ absurd (ground arith)
      | inr e ↦ rw e (shift-behind p acc ys (IsOrdered-weaken ys (omega arith) o) rest)
    ]

pub lost-le :
    (from p : ℕ) (xs : List LexicalChange)
    → from ≤ p
    → IsOrdered from xs
    → EndsBy p xs
    → from + lost xs ≤ p
unfolding lost
lost-le from p [] h _ _ = omega arith
lost-le from p (x ∷ xs) h (first, o) (last, ends) =
    omega (arith, lost-le (x.offset + x.length) p xs last o ends)

pub shifted_offset-append :
    (p : ℕ) (xs ys : List LexicalChange)
    → IsOrdered 0 xs
    → EndsBy p xs
    → IsOrdered p ys
    → All IsNonempty ys
    → shifted_offset p (xs ++ ys) + lost xs ≡ p + gained xs
unfolding shifted_offset
shifted_offset-append p xs ys ox ex oy full =
    let total = shift p (pos 0) xs in
    rw (shift-append, shift-behind p total ys oy full)
      (omega (
        arith,
        lost-le 0 p xs (omega arith) ox ex,
        shift-before p (pos 0) xs ex,
        +ℤ_parts (pos p) total,
        parts_cases (pos p +ℤ total),
        parts_cases total,
      ))
