-- ===== src/Lexical/Apply/Order.antt =====
-- The sort keys of changes that lie one behind the other (lexical_normalizer.py).
use human_hand.Prelude.{
  ℕ, ◌+◌, ◌≤◌, ◌<◌, ◌≡◌, List, [], ◌∷◌, arith, Text, All, All-map, ok, >>=-eq-ok, reverse,
}
use human_hand.Prelude.Sort.{
  sorted, sorted_reverse, IsStrict, All-sorted, All-sorted_reverse_inv, sorted_reverse-eq-reverse,
}
use human_hand.Lexical.{LexicalChange}
use human_hand.Lexical.Splice.{IsOrdered}
use human_hand.Lexical.Apply.{key_le, apply_change, apply_loop}

abbrev pub IsNonempty : LexicalChange → Type 0
IsNonempty c = 0 < c.length

pub IsOrdered-weaken : {a b : ℕ} (cs : List LexicalChange) → a ≤ b → IsOrdered b cs → IsOrdered a cs
IsOrdered-weaken [] h o = tt
IsOrdered-weaken (c ∷ cs) h (first, o) = (omega arith, o)

-- Spans one behind the other, none of them empty, have strictly rising offsets.
pub IsOrdered-Before :
    (from : ℕ) (cs : List LexicalChange) → IsOrdered from cs → All (λ c. from ≤ c.offset) cs
IsOrdered-Before from [] o = tt
IsOrdered-Before from (c ∷ cs) (first, o) =
    (first, IsOrdered-Before from cs (IsOrdered-weaken cs (omega arith) o))

pub IsOrdered-IsStrict :
    (from : ℕ) (cs : List LexicalChange)
    → IsOrdered from cs
    → All IsNonempty cs
    → IsStrict key_le cs
unfolding key_le
IsOrdered-IsStrict from [] _ _ = tt
IsOrdered-IsStrict from (c ∷ cs) (_, o) (full, rest) = (
  All-map cs (λ d h. (ground arith, ground arith)) (IsOrdered-Before (c.offset + c.length) cs o),
  IsOrdered-IsStrict (c.offset + c.length) cs o rest,
)

apply_change-IsNonempty :
    (working : Text) (c : LexicalChange) {w : Text} → apply_change working c ≡ ok w → IsNonempty c
unfolding apply_change
apply_change-IsNonempty working c h = ground arith

-- Every round of the loop refuses an empty span.
pub apply_loop-IsNonempty :
    (working : Text) (cs : List LexicalChange) {w : Text}
    → apply_loop working cs ≡ ok w
    → All IsNonempty cs
unfolding apply_loop
apply_loop-IsNonempty working [] h = tt
apply_loop-IsNonempty working (c ∷ cs) h =
    let (w, step, rest) = >>=-eq-ok (apply_change working c) (λ w. apply_loop w cs) h in
    (apply_change-IsNonempty working c step, apply_loop-IsNonempty w cs rest)

-- Where the loop ends, the reversed sort went through the sorted changes from the back.
pub sorted_reverse-of_ok :
    (text : Text) (changes : List LexicalChange) {w : Text}
    → IsOrdered 0 (sorted key_le changes)
    → apply_loop text (sorted_reverse key_le changes) ≡ ok w
    → All IsNonempty (sorted key_le changes)
      × (sorted_reverse key_le changes ≡ reverse (sorted key_le changes))
sorted_reverse-of_ok text changes o h =
    let full = All-sorted key_le IsNonempty changes (
      All-sorted_reverse_inv key_le IsNonempty changes
        (apply_loop-IsNonempty text (sorted_reverse key_le changes) h)) in
    (
      full,
      sorted_reverse-eq-reverse key_le changes
          (IsOrdered-IsStrict 0 (sorted key_le changes) o full),
    )
