-- ===== src/Revision/Store/Chain.antt =====
-- `save_revision` (project_store.py) and the chain of the stored revisions of a document.
use human_hand.Prelude.{
  ◌≡◌, refl, sym, ap, ◌∙◌, subst, ℕ, suc, true, false, arith, Text, text_eq, text_eq→eq, Option,
  none, some, List, [], ◌∷◌, length, ok, err, Result-cases, Bool-cases, inl, inr, select,
  text_eq_refl,
}
use human_hand.Prelude.Int.{ℤ, pos, ◌+ℤ◌, int_eq, int_eq→eq, int_eq_refl}
use human_hand.Revision.{DocumentRevision, is_id}
use human_hand.Revision.Optimistic.{next_ne}
use human_hand.Revision.Store.{
  revisions_of, max_token, head_id, is_stale_parent, has_parent, check_base, save_revision,
  stale_token,
}

-- The id of the newest row.
abbrev pub newest_id : List DocumentRevision → Option Text
newest_id [] = none
newest_id (r ∷ rest) = some r.revision_id

-- The tokens are 1, 2, 3 and so on; each revision is based on the token before it, and its parent is
-- the revision before it; the first has no parent.
abbrev pub IsChain : List DocumentRevision → Type 0
IsChain [] = Unit
IsChain (r ∷ rest) =
    (r.token ≡ pos (suc (length rest)))
    × (r.base_token ≡ pos (length rest))
    × (r.parent_revision_id ≡ newest_id rest)
    × IsChain rest

IsChain-max_token :
    (r : DocumentRevision) (rest : List DocumentRevision)
    → IsChain (r ∷ rest)
    → max_token (r ∷ rest) ≡ some r.token
unfolding max_token
IsChain-max_token r [] c = refl
IsChain-max_token r (s ∷ rest) (t, _, _, c) = rw (IsChain-max_token s rest c, t, c.0) (ground arith)

head_id-newest :
    (r : DocumentRevision) (rest : List DocumentRevision)
    → head_id r.token (r ∷ rest) ≡ some r.revision_id
unfolding head_id
head_id-newest r rest = rw (int_eq_refl r.token)

is_stale_parent-eq :
    (head : Text) (parent : Option Text)
    → is_stale_parent (some head) parent ≡ false
    → parent ≡ some head
unfolding is_stale_parent is_id
is_stale_parent-eq head none h = absurd (ground arith)
is_stale_parent-eq head (some parent) h = ap some (text_eq→eq parent head (ground arith))

check_base-none :
    (rows : List DocumentRevision) (revision : DocumentRevision)
    → check_base none rows revision ≡ ok tt
    → (int_eq revision.base_token (pos 0) ≡ true) × (has_parent revision.parent_revision_id ≡ false)
unfolding check_base
check_base-none rows revision h = (ground arith, ground arith)

check_base-some :
    (stored : ℤ) (rows : List DocumentRevision) (revision : DocumentRevision)
    → check_base (some stored) rows revision ≡ ok tt
    → (int_eq stored revision.base_token ≡ true)
      × (is_stale_parent (head_id stored rows) revision.parent_revision_id ≡ false)
unfolding check_base
check_base-some stored rows revision h = (ground arith, ground arith)

no_parent : (parent : Option Text) → has_parent parent ≡ false → parent ≡ none
unfolding has_parent
no_parent none h = refl
no_parent (some p) h = absurd (ground arith)

one_more : (n : ℕ) → pos n +ℤ pos 1 ≡ pos (suc n)
unfolding ◌+ℤ◌
one_more n = ground arith

check_base-IsChain :
    (rows : List DocumentRevision) (revision : DocumentRevision)
    → revision.token ≡ revision.base_token +ℤ pos 1
    → IsChain rows
    → check_base (max_token rows) rows revision ≡ ok tt
    → IsChain (revision ∷ rows)
unfolding max_token
check_base-IsChain [] revision next c h =
    let (base, parent) = check_base-none [] revision h in
    let zero = int_eq→eq revision.base_token (pos 0) base in
    (next ∙ ap (λ b. b +ℤ pos 1) zero ∙ one_more 0, zero, no_parent _ parent, tt)
check_base-IsChain (r ∷ rest) revision next c h =
    let (base, parent) =
      check_base-some r.token (r ∷ rest) revision
        (ap (λ m. check_base m (r ∷ rest) revision) (sym (IsChain-max_token r rest c)) ∙ h) in
    let stored = sym (int_eq→eq r.token revision.base_token base) ∙ c.0 in
    let fresh =
      ap (λ o. is_stale_parent o revision.parent_revision_id) (sym (head_id-newest r rest))
      ∙ parent in
    (
      next ∙ ap (λ b. b +ℤ pos 1) stored ∙ one_more (suc (length rest)),
      stored,
      is_stale_parent-eq r.revision_id revision.parent_revision_id fresh,
      c,
    )

pub revisions_of-cons_same :
    (id : Text) (r : DocumentRevision) (table : List DocumentRevision)
    → r.document_id ≡ id
    → revisions_of id (r ∷ table) ≡ r ∷ revisions_of id table
unfolding revisions_of select
revisions_of-cons_same id r table e = rw (e, text_eq_refl id)

revisions_of-cons_other :
    (id : Text) (r : DocumentRevision) (table : List DocumentRevision)
    → text_eq r.document_id id ≡ false
    → revisions_of id (r ∷ table) ≡ revisions_of id table
unfolding revisions_of select
revisions_of-cons_other id r table e = rw e

pub saved :
    (table table' : List DocumentRevision) (revision : DocumentRevision)
    → save_revision table revision ≡ ok table'
    → (check_base
          (max_token (revisions_of revision.document_id table))
          (revisions_of revision.document_id table)
          revision
        ≡ ok tt)
      × (table' ≡ revision ∷ table)
unfolding save_revision
saved table table' revision h =
    let rows = revisions_of revision.document_id table in
    elim (Result-cases (check_base (max_token rows) rows revision)) [
      | inr (e, c) ↦ absurd (ground arith)
      | inl (u, c) ↦ (c, ground arith)
    ]

-- Where the token of a revision is one more than its base, saving it keeps, for every document, the
-- stored revisions of that document one chain: tokens 1, 2, 3 and so on, each revision based on the
-- token of the one before it with that one as its parent.
pub save_revision-IsChain :
    (table table' : List DocumentRevision) (revision : DocumentRevision) (document_id : Text)
    → revision.token ≡ revision.base_token +ℤ pos 1
    → IsChain (revisions_of document_id table)
    → save_revision table revision ≡ ok table'
    → IsChain (revisions_of document_id table')
save_revision-IsChain table table' revision document_id next c h =
    let (checked, grown) = saved table table' revision h in
    subst (λ t. IsChain (revisions_of document_id t)) (sym grown)
      (elim (Bool-cases (text_eq revision.document_id document_id)) [
        | inr other ↦
            subst IsChain (sym (revisions_of-cons_other document_id revision table other)) c
        | inl same ↦
            let id = text_eq→eq revision.document_id document_id same in
            subst IsChain (sym (revisions_of-cons_same document_id revision table id)) (
              check_base-IsChain (revisions_of document_id table) revision next c (
                subst
                  (λ d.
                    check_base (max_token (revisions_of d table)) (revisions_of d table) revision
                    ≡ ok tt)
                  id checked))
      ])

-- After a revision of a chain is saved, a revision of the same document with the same base is refused
-- as stale, with the stored token and its own base: no update is lost.
pub save_revision-stale :
    (table table' : List DocumentRevision) (first second : DocumentRevision)
    → first.token ≡ first.base_token +ℤ pos 1
    → IsChain (revisions_of first.document_id table)
    → save_revision table first ≡ ok table'
    → second.document_id ≡ first.document_id
    → second.base_token ≡ first.base_token
    → save_revision table' second ≡ err (stale_token first.token first.base_token)
unfolding save_revision check_base
save_revision-stale table table' first second next c h same base =
    let (checked, grown) = saved table table' first h in
    let rows = revisions_of first.document_id table in
    let top = IsChain-max_token first rows (check_base-IsChain rows first next c checked) in
    rw (
      grown,
      same,
      revisions_of-cons_same first.document_id first table refl,
      top,
      base,
      next,
      next_ne first.base_token,
    )
