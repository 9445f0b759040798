-- ===== src/Revision.antt =====
-- src/humanhand/domain/revisions.py: the revisions of a document and the optimistic acceptance. A token
-- is an integer of either sign, as `revision_from_payload` reads it; `decimal` prints one.
pub mod Optimistic
pub mod Payload
pub mod Store
mod Tests
use human_hand.Prelude.{
  Bool, false, not, [], Option, none, some, Text, codes, text_eq, ◌++◌, Result, ok, ◌>>◌, ◌>>=◌,
  raise_if,
}
use human_hand.Prelude.Int.{ℤ, pos, ◌+ℤ◌, int_eq}
use human_hand.Document.Signature.{StructureSignature}

pub data RevisionStatus : Type 0 where
  draft proposed accepted rejected : RevisionStatus

pub record DocumentRevision : Type 0 where
  pub revision_id : Text
  pub document_id : Text
  pub parent_revision_id : Option Text
  pub status : RevisionStatus
  pub base_token : ℤ
  pub token : ℤ
  pub structure_signature : StructureSignature
  pub accepted_text_sha256 : Text
  pub created_note : Text

-- The two `RevisionConflictError`s of `accept_revision`.
pub data RevisionConflict : Type 0 where
  stale_token : (expected got : ℤ) → RevisionConflict
  stale_parent : (expected : Option Text) (got : Text) → RevisionConflict

unfoldable pub create_initial_revision :
    (document_id : Text) → StructureSignature → (accepted_text_sha256 : Text) → DocumentRevision
create_initial_revision document_id structure_signature accepted_text_sha256 = record {
  revision_id = codes "rev-1";
  document_id = document_id;
  parent_revision_id = none;
  status = accepted;
  base_token = pos 0;
  token = pos 1;
  structure_signature = structure_signature;
  accepted_text_sha256 = accepted_text_sha256;
  created_note = [];
}

unfoldable pub propose_next_revision :
    (decimal : ℤ → Text)
    → DocumentRevision
    → StructureSignature
    → (accepted_text_sha256 note : Text) → DocumentRevision
propose_next_revision decimal current structure_signature accepted_text_sha256 note = record {
  revision_id = codes "rev-" ++ decimal (current.token +ℤ pos 1);
  document_id = current.document_id;
  parent_revision_id = some current.revision_id;
  status = proposed;
  base_token = current.token;
  token = current.token +ℤ pos 1;
  structure_signature = structure_signature;
  accepted_text_sha256 = accepted_text_sha256;
  created_note = note;
}

-- `text == parent` where the parent may be null.
unfoldable pub is_id : Option Text → Text → Bool
unfolding text_eq
is_id none id = false
is_id (some parent) id = text_eq parent id

unfoldable pub accept_revision :
    (proposal expected_current : DocumentRevision) → Result RevisionConflict DocumentRevision
accept_revision proposal expected_current = do
  raise_if (not (int_eq expected_current.token proposal.base_token))
      (stale_token proposal.base_token expected_current.token)
  raise_if (not (is_id proposal.parent_revision_id expected_current.revision_id))
      (stale_parent proposal.parent_revision_id expected_current.revision_id)
  ok (record proposal { status = accepted })

unfoldable pub reject_revision : DocumentRevision → DocumentRevision
reject_revision proposal = record proposal { status = rejected }
