-- ===== src/Revision/Optimistic.antt =====
-- The acceptance of proposals (`accept_revision` of revisions.py).
use human_hand.Prelude.{
  ◌≡◌, sym, true, false, arith, Text, text_eq_refl, some, ok, err, Bool-cases, inl, inr,
}
use human_hand.Prelude.Int.{ℤ, pos, ◌+ℤ◌, int_eq, int_eq_refl, int_eq→eq, +ℤ_parts}
use human_hand.Document.Signature.{StructureSignature}
use human_hand.Revision.{
  DocumentRevision, accepted, stale_token, is_id, propose_next_revision, accept_revision,
}

pub next_ne : (a : ℤ) → int_eq (a +ℤ pos 1) a ≡ false
next_ne a = elim (Bool-cases (int_eq (a +ℤ pos 1) a)) [
  | inr e ↦ e
  | inl e ↦
      let same : a +ℤ pos 1 ≡ a = int_eq→eq _ _ e in
      let parts = +ℤ_parts a (pos 1) in absurd (ground (arith, same, parts))
]

pub is_id_refl : (id : Text) → is_id (some id) id ≡ true
unfolding is_id
is_id_refl id = text_eq_refl id

module _ (decimal : ℤ → Text) (current : DocumentRevision) (signature : StructureSignature)
    (sha note : Text) where
  abbrev next : DocumentRevision
  next = propose_next_revision decimal current signature sha note

  -- A proposal made from `current` is accepted on `current`: it keeps all but its status.
  pub accept_revision-propose_next_revision :
      accept_revision next current ≡ ok (record next { status = accepted })
  unfolding accept_revision propose_next_revision
  accept_revision-propose_next_revision =
      rw (int_eq_refl current.token, is_id_refl current.revision_id)

module _ (decimal : ℤ → Text) (current : DocumentRevision) where
  -- Of two proposals made from one revision, only one is accepted: once the first is accepted, the
  -- second is refused on it, with the token it was based on and the token it met.
  pub accept_revision-lost_update :
      (first second : StructureSignature) (sha sha' note note' : Text) (winner : DocumentRevision)
      → accept_revision (propose_next_revision decimal current first sha note) current ≡ ok winner
      → accept_revision (propose_next_revision decimal current second sha' note') winner
        ≡ err (stale_token current.token (current.token +ℤ pos 1))
  unfolding accept_revision propose_next_revision
  accept_revision-lost_update first second sha sha' note note' winner h =
      let won : record (propose_next_revision decimal current first sha note) { status = accepted }
          ≡ winner =
        ground (arith, accept_revision-propose_next_revision decimal current first sha note, h) in
      rw (sym won, next_ne current.token)
