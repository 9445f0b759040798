-- ===== src/Revision/Store.antt =====
-- `save_revision` of src/humanhand/infra/stores/project_store.py and `latest_accepted_revision` of
-- integrated_project_store.py, on the rows of the table `document_revisions`, newest first. The two
-- unique indexes of the table (document and id, document and token) stand in `save_revision`.
pub mod Chain
pub mod Latest
use human_hand.Prelude.{
  ℕ, Bool, true, false, not, ◌&&◌, ◌||◌, Option, none, some, List, [], ◌∷◌, Text, text_eq, any,
  select, Result, ok, ◌>>◌, raise_if, if◌then◌else◌,
}
use human_hand.Prelude.Int.{ℤ, pos, int_eq, int_le}
use human_hand.Revision.{DocumentRevision, RevisionStatus, accepted, is_id}

pub data StoreError : Type 0 where
  no_stored_base : ℤ → StoreError
  initial_has_parent : StoreError
  stale_token : (stored : ℤ) (base_token : ℤ) → StoreError
  stale_parent : StoreError
  save_error : StoreError

-- `WHERE document_id = ?`
unfoldable pub revisions_of : Text → List DocumentRevision → List DocumentRevision
unfolding select text_eq
revisions_of document_id rows = select (λ r. text_eq r.document_id document_id) rows

-- `SELECT MAX(token)`, null on no row.
unfoldable pub max_token : List DocumentRevision → Option ℤ
max_token [] = none
max_token (r ∷ rest) = elim (max_token rest) [
  | none ↦ some r.token
  | some m ↦ some (if int_le r.token m then m else r.token)
]

-- `SELECT revision_id ... AND token = ?`, the first row.
unfoldable pub head_id : ℤ → List DocumentRevision → Option Text
head_id token [] = none
head_id token (r ∷ rest) =
    let others = head_id token rest in if int_eq r.token token then some r.revision_id else others

-- `head is None or str(head[0]) != parent_revision_id`
unfoldable pub is_stale_parent : (head parent : Option Text) → Bool
unfolding is_id
is_stale_parent none parent = true
is_stale_parent (some head) parent = not (is_id parent head)

unfoldable pub has_parent : Option Text → Bool
has_parent none = false
has_parent (some parent) = true

-- The guards, by the stored maximum and the rows of the document.
unfoldable pub check_base :
    Option ℤ → List DocumentRevision → DocumentRevision → Result StoreError (Unit {0})
check_base none rows revision = do
  raise_if (not (int_eq revision.base_token (pos 0))) (no_stored_base revision.base_token)
  raise_if (has_parent revision.parent_revision_id) initial_has_parent
check_base (some stored_max) rows revision = do
  raise_if (not (int_eq stored_max revision.base_token))
      (stale_token stored_max revision.base_token)
  raise_if (is_stale_parent (head_id stored_max rows) revision.parent_revision_id) stale_parent

unfoldable pub save_revision :
    List DocumentRevision → DocumentRevision → Result StoreError (List DocumentRevision)
save_revision table revision = do
  let rows = revisions_of revision.document_id table
  check_base (max_token rows) rows revision
  raise_if
      (any (λ r. text_eq r.revision_id revision.revision_id || int_eq r.token revision.token) rows)
      save_error
  ok (revision ∷ table)

unfoldable pub is_accepted_status : RevisionStatus → Bool
is_accepted_status accepted = true
is_accepted_status _ = false

-- `max(accepted, key=token, default=None)`: the first of equal tokens.
unfoldable pub newest : List DocumentRevision → Option DocumentRevision
newest [] = none
newest (r ∷ rest) = elim (newest rest) [
  | none ↦ some r
  | some best ↦ some (if int_le best.token r.token then r else best)
]

unfoldable pub latest_accepted_revision : Text → List DocumentRevision → Option DocumentRevision
latest_accepted_revision document_id table =
    newest (select (λ r. is_accepted_status r.status) (revisions_of document_id table))
