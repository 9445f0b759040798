-- ===== src/Revision/Payload/RoundTrip.antt =====
-- The payload of a revision, written and read (revisions.py).
use human_hand.Prelude.{
  ◌≡◌, refl, ℕ, true, Option, none, some, List, [], ◌∷◌, arith, Text, text_eq, ok,
}
use human_hand.Prelude.Int.{pos, ◌+ℤ◌, int_eq_refl}
use human_hand.Json.{str, items, get, is_text, is_one, as_str, as_int, as_arr, as_obj}
use human_hand.Document.Signature.{StructureSignature}
use human_hand.Revision.{DocumentRevision, RevisionStatus, draft, proposed, accepted, rejected}
use human_hand.Revision.Payload.{
  status_value, status_of, text_or_null, counts_payload, signature_payload, revision_to_payload,
  expect_str, expect_int, is_sha256_hex, expect_sha256_hex, texts_of, natural, counts_of,
  signature_from_payload, parent_of, revision_from_payload,
}

status_of-value : (s : RevisionStatus) → status_of (status_value s) ≡ some s
unfolding status_of status_value text_eq
status_of-value draft = refl
status_of-value proposed = refl
status_of-value accepted = refl
status_of-value rejected = refl

texts_of-items : (ts : List Text) → texts_of (items str ts) ≡ some ts
unfolding texts_of items
texts_of-items [] = refl
texts_of-items (t ∷ ts) = rw (texts_of-items ts)

counts_of-payload : (cs : List (Text × ℕ)) → counts_of (counts_payload cs) ≡ ok cs
unfolding counts_of counts_payload natural
counts_of-payload [] = refl
counts_of-payload ((key, n) ∷ cs) = rw (counts_of-payload cs)

signature_read :
    (s : StructureSignature)
    → is_sha256_hex s.signature ≡ true
    → signature_from_payload (signature_payload s) ≡ ok s
unfolding signature_from_payload signature_payload expect_str expect_int expect_sha256_hex get
    text_eq as_str as_int as_arr as_obj natural
signature_read s h = rw (h, texts_of-items s.section_order, counts_of-payload s.node_type_counts)

parent_read : (p : Option Text) → parent_of (some (text_or_null p)) ≡ ok p
unfolding parent_of text_or_null
parent_read none = refl
parent_read (some t) = refl

-- A revision whose two digests are 64 lower-case hexadecimal digits and whose token is one more than
-- its base is read back from its payload unchanged.
pub revision_from_payload-to_payload :
    (r : DocumentRevision)
    → is_sha256_hex r.accepted_text_sha256 ≡ true
    → is_sha256_hex r.structure_signature.signature ≡ true
    → r.token ≡ r.base_token +ℤ pos 1
    → revision_from_payload (revision_to_payload r) ≡ ok r
unfolding revision_from_payload revision_to_payload expect_str expect_int expect_sha256_hex get
    text_eq as_str as_int as_obj is_text is_one
revision_from_payload-to_payload r sha signature next =
    rw
      (
        parent_read r.parent_revision_id,
        status_of-value r.status,
        next,
        int_eq_refl (r.base_token +ℤ pos 1),
        sha,
        signature_read r.structure_signature signature,
      )
      (ground (arith, next))
