-- ===== src/Finalize/Rows.antt =====
-- What the operations on the tables leave in them (integrated_project_store.py).
use human_hand.Prelude.{
  All, All-append, ◌≡◌, refl, inl, inr, subst, ap, ◌∙◌, true, not, Option, some, List, [], ◌∷◌,
  ◌++◌, arith, Text, text_eq, text_eq→eq, text_eq_refl, eq→text_eq, select, map, slice, ok,
  Result-cases, Option-cases, Bool-cases,
}
use human_hand.Json.{Value}
use human_hand.Document.{CanonicalDocument}
use human_hand.Document.Payload.Read.{document_from_json}
use human_hand.Finalize.Database.{
  ContentRow, SpanRow, Tables, find_content, same_values, insert_content, check_content,
  save_revision_content, span_row, save_protected_spans, record_approval, save_revision_row,
}
use human_hand.Finalize.Steps.{IsCut}
use human_hand.Revision.{DocumentRevision}
use human_hand.Revision.Store.{save_revision}
use human_hand.Revision.Store.Chain.{saved}
use human_hand.Spans.{ProtectedSpan}

find_content-first :
    (row : ContentRow) (contents : List ContentRow)
    → find_content row.document_id row.revision_id (row ∷ contents) ≡ some row
unfolding find_content
find_content-first row contents =
    ground (arith, text_eq_refl row.document_id, text_eq_refl row.revision_id)

same_values_inv :
    (a b : ContentRow)
    → same_values a b ≡ true
    → (a.accepted_text ≡ b.accepted_text) × (a.canonical_document_json ≡ b.canonical_document_json)
unfolding same_values
same_values_inv a b h = (
  text_eq→eq a.accepted_text b.accepted_text (ground arith),
  text_eq→eq a.canonical_document_json b.canonical_document_json (ground arith),
)

-- Behind an insertion the key of a row finds its text and its document.
insert_content-find_content :
    (contents contents' : List ContentRow) (row : ContentRow)
    → insert_content contents row ≡ ok contents'
    → (found : ContentRow) × (find_content row.document_id row.revision_id contents' ≡ some found)
      × (found.accepted_text ≡ row.accepted_text)
      × (found.canonical_document_json ≡ row.canonical_document_json)
unfolding insert_content
insert_content-find_content contents contents' row h =
    elim (Option-cases (find_content row.document_id row.revision_id contents)) [
      | inr e ↦
          let same : row ∷ contents ≡ contents' = ground arith in
          (
            row,
            subst (λ cs. find_content row.document_id row.revision_id cs ≡ some row) same
                (find_content-first row contents),
            refl,
            refl,
          )
      | inl (existing, e) ↦ elim (Bool-cases (same_values existing row)) [
        | inr f ↦ absurd (ground arith)
        | inl f ↦
            let same : contents ≡ contents' = ground arith in
            let (text, json) = same_values_inv existing row f in
            (
              existing,
              subst (λ cs. find_content row.document_id row.revision_id cs ≡ some existing) same e,
              text,
              json,
            )
      ]
    ]

module _ (sha256 : Text → Text) (str_of : Value → Text) (loads : Text → Option Value) where
  check_content_inv :
      (revision : DocumentRevision) (row : ContentRow)
      → check_content sha256 str_of loads revision row ≡ ok tt
      → (sha256 row.accepted_text ≡ revision.accepted_text_sha256)
        × ((d : CanonicalDocument) × (document_from_json str_of loads row.canonical_document_json
              ≡ ok d)
            × (d.surface_text ≡ row.accepted_text))
  unfolding check_content
  check_content_inv revision row h =
      elim (Result-cases (document_from_json str_of loads row.canonical_document_json)) [
        | inr (e, j) ↦ absurd (ground arith)
        | inl (d, j) ↦ (
          text_eq→eq (sha256 row.accepted_text) revision.accepted_text_sha256 (ground arith),
          (d, j, text_eq→eq d.surface_text row.accepted_text (ground arith)),
        )
      ]

  -- The content of a revision that `save_revision_content` stores.
  abbrev pub IsContent : List ContentRow → DocumentRevision → Text → Type 0
  IsContent contents r text =
      (row : ContentRow) × (find_content r.document_id r.revision_id contents ≡ some row)
      × (row.accepted_text ≡ text)
      × (sha256 text ≡ r.accepted_text_sha256)
      × ((d : CanonicalDocument) × (document_from_json str_of loads row.canonical_document_json
            ≡ ok d)
          × (d.surface_text ≡ text))

  pub save_revision_content-IsContent :
      (tables tables' : Tables) (revision : DocumentRevision) (text json profile_id run_id : Text)
      → save_revision_content sha256 str_of loads tables revision text json profile_id run_id
        ≡ ok tables'
      → (tables'.revisions ≡ tables.revisions) × IsContent tables'.contents revision text
  unfolding save_revision_content
  save_revision_content-IsContent tables tables' revision text json profile_id run_id h =
      let row : ContentRow = record {
        document_id = revision.document_id;
        revision_id = revision.revision_id;
        accepted_text = text;
        canonical_document_json = json;
        style_profile_id = profile_id;
        finalization_run_id = run_id;
      } in
      elim (Result-cases (check_content sha256 str_of loads revision row)) [
        | inr (e, c) ↦ absurd (ground arith)
        | inl (u, c) ↦ elim (Result-cases (insert_content tables.contents row)) [
          | inr (e, i) ↦ absurd (ground arith)
          | inl (contents, i) ↦
              let same : record tables { contents = contents } ≡ tables' = ground arith in
              let (found, stored, its_text, its_json) =
                insert_content-find_content tables.contents contents row i in
              let (hash, (d, read, surface)) = check_content_inv revision row c in
              subst
                (λ (t : Tables).
                  (t.revisions ≡ tables.revisions) × IsContent t.contents revision text)
                same
                (
                  refl,
                  (
                    found,
                    stored,
                    its_text,
                    hash,
                    (d, ap (document_from_json str_of loads) its_json ∙ read, surface),
                  ),
                )
        ]
      ]

-- A row of the table of spans whose offsets cut its text out of a text, if it is of the document.
abbrev pub IsCutRow : (document_id text : Text) → SpanRow → Type 0
IsCutRow document_id text row =
    row.document_id ≡ document_id → slice text row.start_offset row.end_offset ≡ row.text

rows_of_spans :
    (document_id text : Text) (spans : List ProtectedSpan)
    → All (IsCut text) spans
    → All (IsCutRow document_id text) (map (span_row document_id) spans)
unfolding span_row
rows_of_spans document_id text [] h = tt
rows_of_spans document_id text (span ∷ spans) (cut, h) =
    ((λ _. cut), rows_of_spans document_id text spans h)

rows_of_others :
    (document_id text : Text) (rows : List SpanRow)
    → All
        (IsCutRow document_id text)
        (select (λ (r : SpanRow). not (text_eq r.document_id document_id)) rows)
unfolding select
rows_of_others document_id text [] = tt
rows_of_others document_id text (row ∷ rows) =
    elim (Bool-cases (text_eq row.document_id document_id)) [
      | inl e ↦ rw e (rows_of_others document_id text rows)
      | inr e ↦ rw e (
        (λ same. absurd (ground (arith, eq→text_eq row.document_id document_id same))),
        rows_of_others document_id text rows,
      )
    ]

pub save_protected_spans-IsCutRow :
    (tables tables' : Tables) (document_id text : Text) (spans : List ProtectedSpan)
    → All (IsCut text) spans
    → save_protected_spans tables document_id spans ≡ ok tables'
    → (tables'.revisions ≡ tables.revisions)
      × (tables'.contents ≡ tables.contents)
      × All (IsCutRow document_id text) tables'.spans
unfolding save_protected_spans
save_protected_spans-IsCutRow tables tables' document_id text spans cut h =
    let others = select (λ (r : SpanRow). not (text_eq r.document_id document_id)) tables.spans in
    let rows = map (span_row document_id) spans in
    let same : record tables { spans = rows ++ others } ≡ tables' = ground arith in
    subst
      (λ (t : Tables).
        (t.revisions ≡ tables.revisions)
        × (t.contents ≡ tables.contents)
        × All (IsCutRow document_id text) t.spans)
      same
      (
        refl,
        refl,
        All-append (IsCutRow document_id text) rows others
            (rows_of_spans document_id text spans cut)
            (rows_of_others document_id text tables.spans),
      )

pub record_approval_rows :
    (tables tables' : Tables) (a b c d e f : Text)
    → record_approval tables a b c d e f ≡ ok tables'
    → (tables'.revisions ≡ tables.revisions)
      × (tables'.contents ≡ tables.contents)
      × (tables'.spans ≡ tables.spans)
unfolding record_approval
record_approval_rows tables tables' a b c d e f h = (ground arith, ground arith, ground arith)

pub save_revision_row_rows :
    (tables tables' : Tables) (revision : DocumentRevision)
    → save_revision_row tables revision ≡ ok tables'
    → (save_revision tables.revisions revision ≡ ok tables'.revisions)
      × (tables'.revisions ≡ revision ∷ tables.revisions)
unfolding save_revision_row
save_revision_row_rows tables tables' revision h =
    elim (Result-cases (save_revision tables.revisions revision)) [
      | inr (e, s) ↦ absurd (ground arith)
      | inl (revisions, s) ↦
          let same : record tables { revisions = revisions } ≡ tables' = ground arith in
          let (_, grown) = saved tables.revisions revisions revision s in
          subst
            (λ (t : Tables).
              (save_revision tables.revisions revision ≡ ok t.revisions)
              × (t.revisions ≡ revision ∷ tables.revisions))
            same (s, grown)
    ]
