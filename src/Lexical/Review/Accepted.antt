-- ===== src/Lexical/Review/Accepted.antt =====
-- What `apply_review` (lexical_review.py) lets through, by the first decision on a change.
use mathlib.Core.Path.{fun_ext}
use human_hand.Prelude.{
  All, ◌≡◌, refl, ap, ◌∙◌, Bool, true, false, ◌&&◌, ◌||◌, Option, none, some, List, [], ◌∷◌, map,
  arith, if◌then◌else◌, Text, text_eq, text_eq_iff, contains, any, select, Bool-cases, ok, inl, inr,
  Result-cases,
}
use human_hand.Json.{Value}
use human_hand.Lexical.{LexicalChange, LexicalProposal}
use human_hand.Lexical.Review.{
  ReviewDecision, LexicalReviewJournal, accept, validate_decisions, check_known, accepted_ids,
  accepted_changes, apply_review,
}

-- The first decision on a change.
pub verdict : Text → List ReviewDecision → Option Text
verdict id [] = none
verdict id (d ∷ ds) = if text_eq id d.change_id then some d.decision else verdict id ds

pub is_accepted : List ReviewDecision → LexicalChange → Bool
is_accepted ds c = elim (verdict c.change_id ds) [ some t ↦ text_eq t accept | none ↦ false ]

contains-accepted_ids :
    (id : Text) (d : ReviewDecision) (ds : List ReviewDecision)
    → contains id (accepted_ids (d ∷ ds))
      ≡ (text_eq d.decision accept && text_eq id d.change_id || contains id (accepted_ids ds))
unfolding contains any accepted_ids select
contains-accepted_ids id d ds = elim (Bool-cases (text_eq d.decision accept)) [
  | inl e ↦ rw e
  | inr e ↦ rw e
]

contains-cons : (x y : Text) (ys : List Text) → contains x (y ∷ ys) ≡ (text_eq x y || contains x ys)
unfolding contains any
contains-cons x y ys = refl

contains-nil : (x : Text) → contains x (accepted_ids []) ≡ false
unfolding contains any accepted_ids select
contains-nil x = refl

validate_step :
    (seen : List Text) (d : ReviewDecision) (ds : List ReviewDecision)
    → validate_decisions seen (d ∷ ds) ≡ ok tt
    → (contains d.change_id seen ≡ false) × (validate_decisions (d.change_id ∷ seen) ds ≡ ok tt)
unfolding validate_decisions
validate_step seen d ds h = (ground arith, ground arith)

-- An id that was seen is decided by nothing that follows.
seen-absent :
    (seen : List Text) (ds : List ReviewDecision) (id : Text)
    → validate_decisions seen ds ≡ ok tt
    → contains id seen ≡ true
    → contains id (accepted_ids ds) ≡ false
seen-absent seen [] id h s = contains-nil id
seen-absent seen (d ∷ ds) id h s =
    let (new, rest) = validate_step seen d ds h in
    ground (
      arith,
      contains-accepted_ids id d ds,
      contains-cons id d.change_id seen,
      text_eq_iff id d.change_id,
      seen-absent (d.change_id ∷ seen) ds id rest,
    )

accepted_ids-verdict :
    (seen : List Text) (ds : List ReviewDecision) (c : LexicalChange)
    → validate_decisions seen ds ≡ ok tt
    → contains c.change_id (accepted_ids ds) ≡ is_accepted ds c
unfolding is_accepted verdict
accepted_ids-verdict seen [] c h = contains-nil c.change_id
accepted_ids-verdict seen (d ∷ ds) c h =
    let (new, rest) = validate_step seen d ds h in
    elim (Bool-cases (text_eq c.change_id d.change_id)) [
      | inl e ↦
          let again : contains c.change_id (d.change_id ∷ seen) ≡ true =
            rw (contains-cons c.change_id d.change_id seen, e) in
          rw
            (
              contains-accepted_ids c.change_id d ds,
              e,
              seen-absent (d.change_id ∷ seen) ds c.change_id rest again,
            )
            (ground arith)
      | inr e ↦
          rw
            (
              contains-accepted_ids c.change_id d ds,
              e,
              accepted_ids-verdict (d.change_id ∷ seen) ds c rest,
            )
            (ground arith)
    ]

select-cong :
    (p q : LexicalChange → Bool) (cs : List LexicalChange)
    → ((c : LexicalChange) → p c ≡ q c)
    → select p cs ≡ select q cs
select-cong p q cs h = ap (λ f. select f cs) (fun_ext h)

-- Every decision of the journal names a change of the proposal.
abbrev pub AllKnown : LexicalProposal → LexicalReviewJournal → Type 0
AllKnown p j = All (λ d. contains d.change_id (map (λ c. c.change_id) p.changes) ≡ true) j.decisions

check_known-All :
    (ids : List Text) (ds : List ReviewDecision)
    → check_known ids ds ≡ ok tt
    → All (λ d. contains d.change_id ids ≡ true) ds
unfolding check_known
check_known-All ids [] h = tt
check_known-All ids (d ∷ ds) h = (ground arith, check_known-All ids ds (ground arith))

module _ (sha256 : Text → Text) (dumps : Value → Text) where
  -- A reviewed proposal keeps, in order, just the changes whose first decision in the journal is to
  -- accept, with the document's hash, the rules' hash and the findings of the proposal; and the
  -- journal decides no change that the proposal lacks.
  pub apply_review-is_accepted :
      (proposal reviewed : LexicalProposal) (journal : LexicalReviewJournal)
      → apply_review sha256 dumps proposal journal ≡ ok reviewed
      → (reviewed.changes ≡ select (is_accepted journal.decisions) proposal.changes)
        × (reviewed.document_hash ≡ proposal.document_hash)
        × (reviewed.ruleset_hash ≡ proposal.ruleset_hash)
        × (reviewed.findings ≡ proposal.findings)
        × AllKnown proposal journal
  unfolding apply_review
  apply_review-is_accepted proposal reviewed journal h =
      let ids = map (λ c. c.change_id) proposal.changes in
      elim (Result-cases (validate_decisions [] journal.decisions)) [
        | inr (e, v) ↦ absurd (ground arith)
        | inl (u, v) ↦ elim (Result-cases (check_known ids journal.decisions)) [
          | inr (e, k) ↦ absurd (ground arith)
          | inl (u', k) ↦
              let changes : reviewed.changes ≡ accepted_changes proposal.changes journal.decisions =
                ground arith in
              (
                changes
                    ∙ (unfold accepted_changes in
                        select-cong _ _ proposal.changes
                          (λ c. accepted_ids-verdict [] journal.decisions c v)),
                ground arith,
                ground arith,
                ground arith,
                check_known-All ids journal.decisions k,
              )
        ]
      ]
