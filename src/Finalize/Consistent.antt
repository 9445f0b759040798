-- ===== src/Finalize/Consistent.antt =====
-- What a finalization leaves in the store (integrated_workflow.py).
use human_hand.Prelude.{
  All, ◌≡◌, inl, inr, subst, sym, ap, ◌∙◌, Option, some, ◌∷◌, ◌++◌, arith, Text, codes, ok,
  Result-cases,
}
use human_hand.Document.Payload.{document_to_json}
use human_hand.Finalize.{
  Style, LoadedState, Outside, Prepared, FinalizationResult, prepare, profile_id_or_empty, commit,
  finalize_reviewed_revision,
}
use human_hand.Finalize.Database.{
  Tables, save_revision_row, save_revision_content, save_protected_spans, record_approval, atomic,
}
use human_hand.Finalize.Rows.{
  IsContent, IsCutRow, save_revision_content-IsContent, save_protected_spans-IsCutRow,
  record_approval_rows, save_revision_row_rows,
}
use human_hand.Finalize.Steps.{IsPrepared, prepare-IsPrepared}
use human_hand.Lexical.{LexicalProposal}
use human_hand.Lexical.Review.{LexicalReviewJournal}
use human_hand.Revision.{DocumentRevision}
use human_hand.Revision.Store.{revisions_of, latest_accepted_revision}
use human_hand.Revision.Store.Chain.{IsChain, save_revision-IsChain}
use human_hand.Revision.Store.Latest.{latest_accepted_revision-cons}

module _ (outside : Outside) (style : Style) where
  -- What the tables hold of a document whose latest accepted revision is `r`, with the text `text`: the
  -- text hashes to the hash of the revision, the stored document reads back with that text as its
  -- surface, and the stored spans of the document cut their texts out of it.
  abbrev pub IsStored : (document_id : Text) → Tables → DocumentRevision → Text → Type 0
  IsStored document_id tables r text =
      (latest_accepted_revision document_id tables.revisions ≡ some r)
      × IsContent outside.sha256 outside.str_of outside.loads tables.contents r text
      × All (IsCutRow document_id text) tables.spans

  -- The tables after each step of a transaction that is committed.
  pub commit_stages :
      (state : LoadedState) (run_id : Text) (profile : Option style.Profile)
      (p : Prepared style.Report) (tables tables' : Tables)
      (result : FinalizationResult style.Report)
      → commit outside style state run_id profile p tables ≡ ok (tables', result)
      → (t₁ : Tables) × (t₂ : Tables) × (t₃ : Tables) × (save_revision_row tables p.revision
          ≡ ok t₁)
        × (save_revision_content outside.sha256 outside.str_of outside.loads t₁ p.revision
              p.transformed.surface_text
              (document_to_json outside.nfc outside.dumps p.transformed)
              (profile_id_or_empty outside style profile)
              run_id
            ≡ ok t₂)
        × (save_protected_spans t₂ state.revision.document_id p.rebased_spans ≡ ok t₃)
        × (record_approval t₃ outside.approval_id
              (codes "revision")
              (state.revision.document_id ++ codes ":" ++ p.revision.revision_id)
              (codes "accepted")
              (codes "human")
              outside.decided_at
            ≡ ok tables')
        × (result.revision_id ≡ p.revision.revision_id)
        × (result.accepted_text_sha256 ≡ outside.sha256 p.transformed.surface_text)
  unfolding commit
  commit_stages state run_id profile p tables tables' result h =
      let document_id = state.revision.document_id in
      elim (Result-cases (save_revision_row tables p.revision)) [
        | inr (e, a) ↦ absurd (ground arith)
        | inl (t₁, a) ↦
            elim (Result-cases (
              save_revision_content outside.sha256 outside.str_of outside.loads t₁ p.revision
                p.transformed.surface_text
                (document_to_json outside.nfc outside.dumps p.transformed)
                (profile_id_or_empty outside style profile) run_id)) [
                  | inr (e, b) ↦ absurd (ground arith)
                  | inl (t₂, b) ↦
                      elim (Result-cases (save_protected_spans t₂ document_id p.rebased_spans)) [
                        | inr (e, c) ↦ absurd (ground arith)
                        | inl (t₃, c) ↦
                            elim (Result-cases (
                              record_approval t₃ outside.approval_id (codes "revision")
                                (document_id ++ codes ":" ++ p.revision.revision_id)
                                (codes "accepted") (codes "human") outside.decided_at)) [
                                  | inr (e, d) ↦ absurd (ground arith)
                                  | inl (t₄, d) ↦
                                      let same : t₄ ≡ tables' = ground arith in
                                      (
                                        t₁,
                                        t₂,
                                        t₃,
                                        a,
                                        b,
                                        c,
                                        d ∙ ap ok same,
                                        ground arith,
                                        ground arith,
                                      )
                                ]
                      ]
                ]
      ]

  -- A committed transaction of a prepared revision.
  commit-IsStored :
      (state : LoadedState) (run_id : Text) (profile : Option style.Profile)
      (p : Prepared style.Report) (tables tables' : Tables)
      (result : FinalizationResult style.Report)
      → IsPrepared outside style state p
      → IsChain (revisions_of state.revision.document_id tables.revisions)
      → commit outside style state run_id profile p tables ≡ ok (tables', result)
      → IsStored state.revision.document_id tables' p.revision p.transformed.surface_text
  commit-IsStored state run_id profile p tables tables' result (status, same, following, _, _, cut)
        chain h =
      let document_id = state.revision.document_id in
      let text = p.transformed.surface_text in
      let (t₁, t₂, t₃, a, b, c, d, _, _) =
        commit_stages state run_id profile p tables tables' result h in
      let (saved, grown) = save_revision_row_rows tables t₁ p.revision a in
      let (revisions₂, content) =
        save_revision_content-IsContent outside.sha256 outside.str_of outside.loads t₁ t₂ p.revision
          text _ _ run_id b in
      let (revisions₃, contents₃, spans) =
        save_protected_spans-IsCutRow t₂ t₃ document_id text p.rebased_spans cut c in
      let (revisions₄, contents₄, spans₄) = record_approval_rows t₃ tables' _ _ _ _ _ _ d in
      let all_rows : tables'.revisions ≡ p.revision ∷ tables.revisions =
        revisions₄ ∙ (revisions₃ ∙ (revisions₂ ∙ grown)) in
      let longer : IsChain (revisions_of document_id (p.revision ∷ tables.revisions)) =
        subst (λ rs. IsChain (revisions_of document_id rs)) grown
          (save_revision-IsChain tables.revisions t₁.revisions p.revision document_id following
            chain saved) in
      (
        subst (λ rs. latest_accepted_revision document_id rs ≡ some p.revision) (sym all_rows)
            (latest_accepted_revision-cons p.revision tables.revisions document_id status same
              longer),
        subst (λ cs. IsContent outside.sha256 outside.str_of outside.loads cs p.revision text)
            (sym (contents₄ ∙ contents₃)) content,
        subst (All (IsCutRow document_id text)) (sym spans₄) spans,
      )

  -- A successful finalization on a store whose revisions of the document are one chain leaves the
  -- document consistent: the revision it returns is the latest accepted one, the stored content has its
  -- hash and reads back into a document with that text as its surface, and every stored span of the
  -- document cuts its text out of it.
  pub finalize_reviewed_revision-IsStored :
      (tables tables' : Tables) (state : LoadedState) (proposal : LexicalProposal)
      (journal : LexicalReviewJournal) (profile : Option style.Profile)
      (result : FinalizationResult style.Report)
      → IsChain (revisions_of state.revision.document_id tables.revisions)
      → finalize_reviewed_revision outside style tables state proposal journal profile
        ≡ (tables', ok result)
      → (r : DocumentRevision) × (text : Text) × (result.revision_id ≡ r.revision_id)
        × (result.accepted_text_sha256 ≡ outside.sha256 text)
        × IsStored state.revision.document_id tables' r text
  unfolding finalize_reviewed_revision atomic
  finalize_reviewed_revision-IsStored tables tables' state proposal journal profile result chain h =
      elim (Result-cases (prepare outside style state proposal journal profile)) [
        | inr (e, a) ↦ absurd (ground arith)
        | inl (p, a) ↦
            elim (Result-cases (commit outside style state proposal.run_id profile p tables)) [
              | inr (e, b) ↦ absurd (ground arith)
              | inl ((made, its_result), b) ↦
                  let committed : commit outside style state proposal.run_id profile p tables
                      ≡ ok (tables', result) =
                    ground arith in
                  let (_, _, _, _, _, _, _, id, sha) =
                    commit_stages state proposal.run_id profile p tables tables' result committed in
                  (
                    p.revision,
                    p.transformed.surface_text,
                    id,
                    sha,
                    commit-IsStored state proposal.run_id profile p tables tables' result
                        (prepare-IsPrepared outside style state proposal journal profile p a) chain
                        committed,
                  )
            ]
      ]
