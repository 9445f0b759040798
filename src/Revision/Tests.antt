-- ===== src/Revision/Tests.antt =====
-- Concrete revisions: the first revision of a document, one made from it, and their rows.
use human_hand.Prelude.{◌≡◌, refl, [], ◌∷◌, Text, codes, text_eq, any, all, select, ok, err, true}
use human_hand.Prelude.Int.{ℤ, pos, ◌+ℤ◌}
use human_hand.Document.Signature.{StructureSignature}
use human_hand.Lexical.Review.{is_lower_hex}
use human_hand.Revision.{
  DocumentRevision, create_initial_revision, propose_next_revision, accept_revision, stale_token,
  is_id, accepted,
}
use human_hand.Revision.Optimistic.{
  accept_revision-lost_update, accept_revision-propose_next_revision,
}
use human_hand.Revision.Payload.{is_sha256_hex, revision_to_payload, revision_from_payload}
use human_hand.Revision.Payload.RoundTrip.{revision_from_payload-to_payload}
use human_hand.Revision.Store
use human_hand.Revision.Store.{
  save_revision, revisions_of, check_base, max_token, head_id, is_stale_parent, has_parent,
}
use human_hand.Revision.Store.Chain.{IsChain, save_revision-IsChain, save_revision-stale}

abbrev sha : Text
sha = codes "00112233445566778899aabbccddeeff00112233445566778899aabbccddeeff"

abbrev signature : StructureSignature
signature = record {
  signature = sha;
  section_order = codes "Intro" ∷ [];
  node_type_counts = (codes "heading", 1) ∷ [];
  total_nodes = 1;
}

abbrev digits : ℤ → Text
digits z = codes "2"

abbrev initial : DocumentRevision
initial = create_initial_revision (codes "doc") signature sha

abbrev second : DocumentRevision
second = propose_next_revision digits initial signature sha (codes "edit")

abbrev winner : DocumentRevision
winner = record second { status = accepted }

won : accept_revision second initial ≡ ok winner
unfolding accept_revision propose_next_revision create_initial_revision is_id text_eq
won = refl

accept_revision-propose_next_revision_example : accept_revision second initial ≡ ok winner
accept_revision-propose_next_revision_example =
    accept_revision-propose_next_revision digits initial signature sha (codes "edit")

accept_revision-lost_update_example :
    accept_revision (propose_next_revision digits initial signature sha (codes "late")) winner
    ≡ err (stale_token initial.token (initial.token +ℤ pos 1))
accept_revision-lost_update_example =
    accept_revision-lost_update digits initial signature signature sha sha (codes "edit")
      (codes "late") winner won

next_token : second.token ≡ second.base_token +ℤ pos 1
unfolding propose_next_revision
next_token = refl

hex : is_sha256_hex sha ≡ true
unfolding is_sha256_hex all is_lower_hex
hex = refl

hex_second : is_sha256_hex second.accepted_text_sha256 ≡ true
unfolding propose_next_revision
hex_second = hex

hex_signature : is_sha256_hex second.structure_signature.signature ≡ true
unfolding propose_next_revision
hex_signature = hex

revision_from_payload-to_payload_example :
    revision_from_payload (revision_to_payload second) ≡ ok second
revision_from_payload-to_payload_example =
    revision_from_payload-to_payload second hex_second hex_signature next_token

stored-IsChain : IsChain (revisions_of (codes "doc") (initial ∷ []))
unfolding revisions_of create_initial_revision select text_eq
stored-IsChain = (refl, refl, refl, tt)

stored : save_revision (initial ∷ []) second ≡ ok (second ∷ initial ∷ [])
unfolding save_revision revisions_of check_base max_token head_id is_stale_parent is_id any select
    text_eq propose_next_revision create_initial_revision ◌+ℤ◌
stored = refl

save_revision-IsChain_example : IsChain (revisions_of (codes "doc") (second ∷ initial ∷ []))
save_revision-IsChain_example =
    save_revision-IsChain (initial ∷ []) (second ∷ initial ∷ []) second (codes "doc") next_token
      stored-IsChain stored

stored-IsChain_second : IsChain (revisions_of second.document_id (initial ∷ []))
unfolding propose_next_revision create_initial_revision
stored-IsChain_second = stored-IsChain

save_revision-stale_example :
    save_revision (second ∷ initial ∷ []) second
    ≡ err (human_hand.Revision.Store.stale_token second.token second.base_token)
save_revision-stale_example =
    save_revision-stale (initial ∷ []) (second ∷ initial ∷ []) second second next_token
      stored-IsChain_second stored refl refl
