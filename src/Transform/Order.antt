-- ===== src/Transform/Order.antt =====
-- What `_ordered_changes` and the sort of `apply_changes` establish together.
use human_hand.Prelude.{ℕ, ◌+◌, ◌≡◌, sym, subst, List, [], ◌∷◌, arith, All, All-map, ok, >>=-eq-ok}
use human_hand.Prelude.Sort.{sorted, IsStrict}
use human_hand.Lexical.{LexicalChange, LexicalProposal}
use human_hand.Lexical.Splice.{IsOrdered}
use human_hand.Lexical.Apply.{key_le}
use human_hand.Lexical.Apply.Order.{IsNonempty, IsOrdered-Before}
use human_hand.Transform.{check_order, ordered_changes, offset_le}

pub check_order-IsOrdered :
    (from : ℕ) (cs : List LexicalChange) → check_order from cs ≡ ok tt → IsOrdered from cs
unfolding check_order
check_order-IsOrdered from [] h = tt
check_order-IsOrdered from (c ∷ cs) h =
    (ground arith, check_order-IsOrdered (c.offset + c.length) cs (ground arith))

pub ordered_changes-eq-ok :
    (proposal : LexicalProposal) {cs : List LexicalChange}
    → ordered_changes proposal ≡ ok cs
    → (cs ≡ sorted key_le proposal.changes) × IsOrdered 0 cs
unfolding ordered_changes
ordered_changes-eq-ok proposal {cs} h =
    let changes = sorted key_le proposal.changes in
    let (_, checked, same) = >>=-eq-ok (check_order 0 changes) (λ _. ok changes) h in
    let e : changes ≡ cs = ground arith in
    (sym e, subst (IsOrdered 0) e (check_order-IsOrdered 0 changes checked))

pub IsOrdered-IsStrict_offset :
    (from : ℕ) (cs : List LexicalChange)
    → IsOrdered from cs
    → All IsNonempty cs
    → IsStrict offset_le cs
unfolding offset_le
IsOrdered-IsStrict_offset from [] _ _ = tt
IsOrdered-IsStrict_offset from (c ∷ cs) (_, o) (full, rest) = (
  All-map cs (λ d h. (ground arith, ground arith)) (IsOrdered-Before (c.offset + c.length) cs o),
  IsOrdered-IsStrict_offset (c.offset + c.length) cs o rest,
)
