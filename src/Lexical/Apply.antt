-- ===== src/Lexical/Apply.antt =====
-- `apply_changes` of src/humanhand/domain/lexical_normalizer.py. `hashlib.sha256(...).hexdigest()`
-- is the parameter `sha256` from a text to the digits of its hash.

pub mod Order
pub mod Correct
pub mod Step
pub mod Forward
use human_hand.Prelude.{
  ℕ, ◌+◌, Bool, true, false, not, ◌&&◌, ◌||◌, Option, none, some, List, [], ◌∷◌, ◌++◌, ◌==◌, leb,
  ltb, length, take, drop, select, Text, slice, text_eq, Result, ok, err, ◌>>=◌, ◌>>◌, raise_if,
}
use human_hand.Prelude.Sort.{sorted_reverse}
use human_hand.Lexical.{
  ChangeStatus, safe, proposed, LexicalChange, LexicalProposal, lexical_proposal_schema_version,
}

pub data ApplyError : Type 0 where
  unsupported_schema : ApplyError
  document_hash_mismatch : ApplyError
  outside_document : (change_id : Text) → ApplyError
  text_mismatch : (change_id : Text) → ApplyError

-- The sort key `(item.offset, item.length)`.
unfoldable pub key_le : LexicalChange → LexicalChange → Bool
key_le a b = ltb a.offset b.offset || (a.offset == b.offset) && leb a.length b.length

unfoldable pub same_status : ChangeStatus → ChangeStatus → Bool
same_status safe safe = true
same_status proposed proposed = true
same_status _ _ = false

unfoldable pub is_selected : Option ChangeStatus → LexicalChange → Bool
unfolding same_status
is_selected none change = true
is_selected (some only_status) change = same_status change.status only_status

-- `working[:offset] + target + working[offset + length:]`
unfoldable pub replace_span : Text → (offset length : ℕ) → Text → Text
replace_span working offset length target =
    take offset working ++ (target ++ drop (offset + length) working)

-- One round of the loop.
unfoldable pub apply_change : Text → LexicalChange → Result ApplyError Text
unfolding replace_span
apply_change working change = do
  let end = change.offset + change.length
  raise_if (change.length == 0 || ltb (length working) end) (outside_document change.change_id)
  raise_if (not (text_eq (slice working change.offset end) change.source_surface))
      (text_mismatch change.change_id)
  ok (replace_span working change.offset change.length change.target)

unfoldable pub apply_loop : Text → List LexicalChange → Result ApplyError Text
unfolding apply_change
apply_loop working [] = ok working
apply_loop working (change ∷ rest) = do
  working' ← apply_change working change
  apply_loop working' rest

unfoldable pub apply_changes :
    (sha256 : Text → Text) → Text → LexicalProposal → Option ChangeStatus → Result ApplyError Text
apply_changes sha256 text proposal only_status = do
  raise_if (not (proposal.schema_version == lexical_proposal_schema_version)) unsupported_schema
  raise_if (not (text_eq (sha256 text) proposal.document_hash)) document_hash_mismatch
  apply_loop text (sorted_reverse key_le (select (is_selected only_status) proposal.changes))
