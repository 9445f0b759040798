-- ===== src/Finalize/Appended.antt =====
-- The row that a finalization adds to the table of revisions (integrated_workflow.py).
use human_hand.Prelude.{
  ◌≡◌, inl, inr, subst, sym, ap, ◌∙◌, Option, some, ◌∷◌, arith, Text, Result, ok, err, Result-cases,
}
use human_hand.Finalize.{
  Style, LoadedState, FinalizeError, Outside, Prepared, FinalizationResult, prepare, commit,
  finalize_reviewed_revision,
}
use human_hand.Finalize.Database.{Tables, atomic}
use human_hand.Finalize.Rows.{
  save_revision_content-IsContent, save_protected_spans-IsCutRow, record_approval_rows,
  save_revision_row_rows,
}
use human_hand.Finalize.Steps.{IsPrepared, prepare-IsPrepared}
use human_hand.Lexical.{LexicalProposal}
use human_hand.Lexical.Review.{LexicalReviewJournal}
use human_hand.Prelude.Int.{pos, ◌+ℤ◌}
use human_hand.Revision.{DocumentRevision, accepted}
use human_hand.Revision.Store.{save_revision, revisions_of}
use human_hand.Revision.Store.Chain.{IsChain, save_revision-IsChain}
use human_hand.Finalize.Consistent.{commit_stages}

module _ (outside : Outside) (style : Style) where
  commit-IsChain :
      (state : LoadedState) (run_id : Text) (profile : Option style.Profile)
      (p : Prepared style.Report) (tables tables' : Tables)
      (result : FinalizationResult style.Report) (document_id : Text)
      → IsPrepared outside style state p
      → IsChain (revisions_of document_id tables.revisions)
      → commit outside style state run_id profile p tables ≡ ok (tables', result)
      → IsChain (revisions_of document_id tables'.revisions)
  commit-IsChain state run_id profile p tables tables' result document_id
        (_, _, following, _, _, cut) chain h =
      let (t₁, t₂, t₃, a, b, c, d, _, _) =
        commit_stages outside style state run_id profile p tables tables' result h in
      let (saved, _) = save_revision_row_rows tables t₁ p.revision a in
      let (revisions₂, _) =
        save_revision_content-IsContent outside.sha256 outside.str_of outside.loads t₁ t₂ p.revision
          _ _ _ run_id b in
      let (revisions₃, _, _) =
        save_protected_spans-IsCutRow t₂ t₃ _ p.transformed.surface_text p.rebased_spans cut c in
      let (revisions₄, _, _) = record_approval_rows t₃ tables' _ _ _ _ _ _ d in
      subst (λ rs. IsChain (revisions_of document_id rs))
        (sym (revisions₄ ∙ (revisions₃ ∙ revisions₂)))
        (save_revision-IsChain tables.revisions t₁.revisions p.revision document_id following chain
          saved)

  pub commit_grown :
      (state : LoadedState) (run_id : Text) (profile : Option style.Profile)
      (p : Prepared style.Report) (tables tables' : Tables)
      (result : FinalizationResult style.Report)
      → IsPrepared outside style state p
      → commit outside style state run_id profile p tables ≡ ok (tables', result)
      → (save_revision tables.revisions p.revision ≡ ok tables'.revisions)
        × (tables'.revisions ≡ p.revision ∷ tables.revisions)
  commit_grown state run_id profile p tables tables' result (_, _, _, _, _, cut) h =
      let (t₁, t₂, t₃, a, b, c, d, _, _) =
        commit_stages outside style state run_id profile p tables tables' result h in
      let (saved, grown) = save_revision_row_rows tables t₁ p.revision a in
      let (revisions₂, _) =
        save_revision_content-IsContent outside.sha256 outside.str_of outside.loads t₁ t₂ p.revision
          _ _ _ run_id b in
      let (revisions₃, _, _) =
        save_protected_spans-IsCutRow t₂ t₃ _ p.transformed.surface_text p.rebased_spans cut c in
      let (revisions₄, _, _) = record_approval_rows t₃ tables' _ _ _ _ _ _ d in
      let kept = revisions₄ ∙ (revisions₃ ∙ revisions₂) in (saved ∙ ap ok (sym kept), kept ∙ grown)

  -- What a finalization from a loaded state does to the table of revisions: nothing and no other table
  -- changes when it raises, and else one row is added, an accepted revision of the loaded document that
  -- is the child of the loaded revision, based on its token with the next token, under the id in
  -- the result.
  abbrev pub IsAppended :
      LoadedState
      → (tables tables' : Tables) → Result FinalizeError (FinalizationResult style.Report)
      → Type 0
  IsAppended state tables tables' (err e) = tables' ≡ tables
  IsAppended state tables tables' (ok result) =
      (r : DocumentRevision) × (tables'.revisions ≡ r ∷ tables.revisions)
      × (r.revision_id ≡ result.revision_id)
      × (r.status ≡ accepted)
      × (r.document_id ≡ state.revision.document_id)
      × (r.base_token ≡ state.revision.token)
      × (r.token ≡ state.revision.token +ℤ pos 1)
      × (r.parent_revision_id ≡ some state.revision.revision_id)

  commit-IsAppended :
      (state : LoadedState) (run_id : Text) (profile : Option style.Profile)
      (p : Prepared style.Report) (tables tables' : Tables)
      (result : FinalizationResult style.Report)
      → IsPrepared outside style state p
      → commit outside style state run_id profile p tables ≡ ok (tables', result)
      → IsAppended state tables tables' (ok result)
  commit-IsAppended state run_id profile p tables tables' result prepared h =
      let (_, _, _, _, _, _, _, id, _) =
        commit_stages outside style state run_id profile p tables tables' result h in
      let (status, same, following, base, parent, _) = prepared in
      let (_, grown) = commit_grown state run_id profile p tables tables' result prepared h in
      (p.revision, grown, sym id, status, same, base, following ∙ ap (λ b. b +ℤ pos 1) base, parent)

  unchanged :
      (tables tables' : Tables) (state : LoadedState) (e : FinalizeError)
      (answer : Result FinalizeError (FinalizationResult style.Report))
      → ◌≡◌ {A = Tables × Result FinalizeError (FinalizationResult style.Report)}
          (tables, err e)
          (tables', answer)
      → IsAppended state tables tables' answer
        × ((document_id : Text)
            → IsChain (revisions_of document_id tables.revisions)
            → IsChain (revisions_of document_id tables'.revisions))
  unchanged tables tables' state e answer h =
      let same : tables ≡ tables' = ap (λ p. p.0) h in
      let answered : err e ≡ answer = ap (λ p. p.1) h in
      (
        subst (IsAppended state tables tables') answered (sym same),
        (λ id c. subst (λ (t : Tables). IsChain (revisions_of id t.revisions)) same c),
      )

  -- A finalization that raises leaves every table as it was. One that succeeds adds one row to the table
  -- of revisions: an accepted revision of the loaded document, with the id in the result, whose parent is
  -- the loaded revision and whose token is the next one. On any outcome the stored revisions of each
  -- document that were one chain are one chain.
  pub finalize_reviewed_revision-IsAppended :
      (tables tables' : Tables) (state : LoadedState) (proposal : LexicalProposal)
      (journal : LexicalReviewJournal) (profile : Option style.Profile)
      (answer : Result FinalizeError (FinalizationResult style.Report))
      → finalize_reviewed_revision outside style tables state proposal journal profile
        ≡ (tables', answer)
      → IsAppended state tables tables' answer
        × ((document_id : Text)
            → IsChain (revisions_of document_id tables.revisions)
            → IsChain (revisions_of document_id tables'.revisions))
  unfolding finalize_reviewed_revision atomic
  finalize_reviewed_revision-IsAppended tables tables' state proposal journal profile answer h =
      elim (Result-cases (prepare outside style state proposal journal profile)) [
        | inr (e, a) ↦ unchanged tables tables' state e answer (ground arith)
        | inl (p, a) ↦
            elim (Result-cases (commit outside style state proposal.run_id profile p tables)) [
              | inr (e, b) ↦ unchanged tables tables' state e answer (ground arith)
              | inl ((made, result), b) ↦
                  let same : made ≡ tables' = ground arith in
                  let answered : ok result ≡ answer = ground arith in
                  let done = b ∙ ap (λ t. ok (t, result)) same in
                  let prepared =
                    prepare-IsPrepared outside style state proposal journal profile p a in
                  (
                    subst (IsAppended state tables tables') answered (
                        commit-IsAppended state proposal.run_id profile p tables tables' result
                          prepared done),
                    (λ id c.
                        commit-IsChain state proposal.run_id profile p tables tables' result id
                          prepared c done),
                  )
            ]
      ]
