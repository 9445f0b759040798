-- ===== src/Finalize/Steps.antt =====
-- What the steps in front of the transaction of a finalization give it (integrated_workflow.py).
use human_hand.Prelude.{
  some, All, subst, codes, ◌++◌, ◌≡◌, refl, inl, inr, Option, List, [], ◌∷◌, arith, Text, text_eq,
  text_eq→eq, slice, map, ok, Result-cases, Bool-cases, length, contains, select,
}
use human_hand.Prelude.Int.{ℤ, pos, ◌+ℤ◌}
use human_hand.Document.{CanonicalDocument}
use human_hand.Document.Signature.{StructureSignature, compute_structure_signature}
use human_hand.Finalize.{Style, LoadedState, Outside, Prepared, check_style, settle, prepare}
use human_hand.Lexical.{LexicalChange, LexicalProposal}
use human_hand.Lexical.Review.{LexicalReviewJournal, apply_review}
use human_hand.Revision.{DocumentRevision, accepted, propose_next_revision, accept_revision}
use human_hand.Spans.{
  ProtectedSpan, rebase_protected_spans, rebase_loop, rebase_span, rebase_shift, moved,
}
use human_hand.Transform.{apply_reviewed_proposal}

-- The offsets of a span cut its text out of a text.
abbrev pub IsCut : Text → ProtectedSpan → Type 0
IsCut text span =
    slice text span.source_location.start_offset span.source_location.end_offset ≡ span.text

rebase_span-IsCut :
    (changes : List LexicalChange) (text : Text) (span rebased : ProtectedSpan)
    → rebase_span changes text span ≡ ok rebased
    → IsCut text rebased
unfolding rebase_span
rebase_span-IsCut changes text span rebased h =
    let location = span.source_location in
    elim (Result-cases (rebase_shift span (pos 0) changes)) [
      | inr (e, s) ↦ absurd (ground arith)
      | inl (shift, s) ↦
          let cut =
            slice text (moved location.start_offset shift) (moved location.end_offset shift) in
          elim (Bool-cases (text_eq cut span.text)) [
            | inr t ↦ absurd (ground arith)
            | inl t ↦
                let same : record span {
                  source_location = record location {
                    start_offset = moved location.start_offset shift;
                    end_offset = moved location.end_offset shift;
                  };
                }
                    ≡ rebased =
                  ground arith in
                subst (IsCut text) same (text_eq→eq cut span.text t)
          ]
    ]

rebase_loop-IsCut :
    (changes : List LexicalChange) (text : Text) (spans rebased : List ProtectedSpan)
    → rebase_loop changes text spans ≡ ok rebased
    → All (IsCut text) rebased
unfolding rebase_loop
rebase_loop-IsCut changes text [] rebased h =
    let same : [] ≡ rebased = ground arith in subst (All (IsCut text)) same tt
rebase_loop-IsCut changes text (span ∷ spans) rebased h =
    elim (Result-cases (rebase_span changes text span)) [
      | inr (e, s) ↦ absurd (ground arith)
      | inl (first, s) ↦ elim (Result-cases (rebase_loop changes text spans)) [
        | inr (e, r) ↦ absurd (ground arith)
        | inl (others, r) ↦
            let same : first ∷ others ≡ rebased = ground arith in
            subst (All (IsCut text)) same (
              rebase_span-IsCut changes text span first s,
              rebase_loop-IsCut changes text spans others r,
            )
      ]
    ]

pub rebase_protected_spans-IsCut :
    (spans : List ProtectedSpan) (changes : List LexicalChange) (ids : List Text) (text : Text)
    (rebased : List ProtectedSpan)
    → rebase_protected_spans spans changes ids text ≡ ok rebased
    → All (IsCut text) rebased
unfolding rebase_protected_spans
rebase_protected_spans-IsCut spans changes ids text rebased h =
    rebase_loop-IsCut (select (λ (c : LexicalChange). contains c.change_id ids) changes) text spans
      rebased h

propose_next_revision-fields :
    (decimal : ℤ → Text) (current : DocumentRevision) (signature : StructureSignature)
    (sha note : Text)
    → ((propose_next_revision decimal current signature sha note).document_id ≡ current.document_id)
      × ((propose_next_revision decimal current signature sha note).token
          ≡ (propose_next_revision decimal current signature sha note).base_token +ℤ pos 1)
      × ((propose_next_revision decimal current signature sha note).base_token ≡ current.token)
      × ((propose_next_revision decimal current signature sha note).parent_revision_id
          ≡ some current.revision_id)
unfolding propose_next_revision
propose_next_revision-fields decimal current signature sha note = (refl, refl, refl, refl)

module _ (outside : Outside) (style : Style) where
  -- A revision based on the current one, as its child, with the hash of the transformed text, and the rebased spans.
  abbrev pub IsPrepared : LoadedState → Prepared style.Report → Type 0
  IsPrepared state p =
      (p.revision.status ≡ accepted)
      × (p.revision.document_id ≡ state.revision.document_id)
      × (p.revision.token ≡ p.revision.base_token +ℤ pos 1)
      × (p.revision.base_token ≡ state.revision.token)
      × (p.revision.parent_revision_id ≡ some state.revision.revision_id)
      × All (IsCut p.transformed.surface_text) p.rebased_spans

  pub accept_revision_next :
      (current next revision : DocumentRevision)
      → next.document_id ≡ current.document_id
      → next.token ≡ next.base_token +ℤ pos 1
      → next.base_token ≡ current.token
      → next.parent_revision_id ≡ some current.revision_id
      → accept_revision next current ≡ ok revision
      → (revision.status ≡ accepted)
        × (revision.document_id ≡ current.document_id)
        × (revision.token ≡ revision.base_token +ℤ pos 1)
        × (revision.base_token ≡ current.token)
        × (revision.parent_revision_id ≡ some current.revision_id)
  unfolding accept_revision
  accept_revision_next current next revision same following based parent h =
      let made : record next { status = accepted } ≡ revision = ground arith in
      subst
        (λ (r : DocumentRevision).
          (r.status ≡ accepted)
          × (r.document_id ≡ current.document_id)
          × (r.token ≡ r.base_token +ℤ pos 1)
          × (r.base_token ≡ current.token)
          × (r.parent_revision_id ≡ some current.revision_id))
        made (refl, same, following, based, parent)

  settle-IsPrepared :
      (state : LoadedState) (proposal : LexicalProposal) (profile : Option style.Profile)
      (p : Prepared style.Report) (reviewed : LexicalProposal) (transformed : CanonicalDocument)
      (rebased : List ProtectedSpan)
      → All (IsCut transformed.surface_text) rebased
      → settle outside style state proposal profile reviewed transformed rebased ≡ ok p
      → IsPrepared state p
  unfolding settle
  settle-IsPrepared state proposal profile p reviewed transformed rebased cut h =
      let signature = compute_structure_signature outside.sha256 outside.decimal transformed in
      let sha = outside.sha256 transformed.surface_text in
      let note = codes "lexical finalization " ++ proposal.run_id in
      let next = propose_next_revision outside.decimal_token state.revision signature sha note in
      elim (Result-cases (check_style outside style profile transformed)) [
        | inr (e, a) ↦ absurd (ground arith)
        | inl (report, a) ↦ elim (Result-cases (accept_revision next state.revision)) [
          | inr (e, b) ↦ absurd (ground arith)
          | inl (revision, b) ↦
              let made : record {
                transformed = transformed;
                rebased_spans = rebased;
                revision = revision;
                change_count = length reviewed.changes;
                style_report = report;
              }
                  ≡ p =
                ground arith in
              let (same, following, based, parent) =
                propose_next_revision-fields outside.decimal_token state.revision signature sha
                  note in
              let (status, document_id, token, base, its_parent) =
                accept_revision_next state.revision next revision same following based parent b in
              subst (IsPrepared state) made (status, document_id, token, base, its_parent, cut)
        ]
      ]

  pub prepare-IsPrepared :
      (state : LoadedState) (proposal : LexicalProposal) (journal : LexicalReviewJournal)
      (profile : Option style.Profile) (p : Prepared style.Report)
      → prepare outside style state proposal journal profile ≡ ok p
      → IsPrepared state p
  unfolding prepare
  prepare-IsPrepared state proposal journal profile p h =
      elim (Result-cases (apply_review outside.sha256 outside.dumps proposal journal)) [
        | inr (e, a) ↦ absurd (ground arith)
        | inl (reviewed, a) ↦
            elim (Result-cases
              (apply_reviewed_proposal outside.sha256 outside.nfc state.document reviewed)) [
                | inr (e, b) ↦ absurd (ground arith)
                | inl (transformed, b) ↦
                    let ids = map (λ (c : LexicalChange). c.change_id) reviewed.changes in
                    let text = transformed.surface_text in
                    elim (Result-cases
                      (rebase_protected_spans state.protected_spans proposal.changes ids text)) [
                        | inr (e, c) ↦ absurd (ground arith)
                        | inl (rebased, c) ↦
                            settle-IsPrepared state proposal profile p reviewed transformed rebased
                              (rebase_protected_spans-IsCut state.protected_spans proposal.changes
                                ids text rebased c)
                              (ground arith)
                      ]
              ]
      ]
