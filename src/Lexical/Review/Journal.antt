-- ===== src/Lexical/Review/Journal.antt =====
-- The review journal (lexical_review.py): how it is built, written as a payload and read back.
use human_hand.Prelude.{
  ◌≡◌, refl, false, not, List, [], ◌∷◌, ◌++◌, arith, ◌==◌, take, length, ==_iff, subst, Text, codes,
  text_eq, text_eq_refl, Result, ok, ◌>>=◌, ◌>>◌, raise_if, or_raise, Result-cases, inl, inr,
}
use human_hand.Prelude.Int.{pos, pos_part, negsuc}
use human_hand.Json.{
  Value, int, str, arr, obj, Items, nil, cons, Fields, end, field, items, get, without, with_field,
  count, is_text, as_str, as_int, as_arr,
}
use human_hand.Lexical.Review.{
  ReviewDecision, LexicalReviewJournal, ReviewError, unsupported_schema, invalid_payload,
  journal_id_mismatch, lexical_review_schema_version, validate_run_id, validate_decisions,
}

unfoldable pub decision_payload : ReviewDecision → Value
decision_payload d =
    obj
      (field (codes "change_id") (str d.change_id) (field (codes "decision") (str d.decision) end))

unfoldable pub journal_core_payload : Text → List ReviewDecision → Fields
journal_core_payload proposal_run_id decisions =
    field (codes "schema") (str (codes "lexical-review")) (
      field (codes "schema_version") (int (pos lexical_review_schema_version)) (
        field (codes "proposal_run_id") (str proposal_run_id)
          (field (codes "decisions") (arr (items decision_payload decisions)) end)))

unfoldable pub decision_from_payload : Fields → Result ReviewError ReviewDecision
decision_from_payload item = do
  change_id ← or_raise (as_str (get (codes "change_id") item)) (invalid_payload (codes "change_id"))
  decision ← or_raise (as_str (get (codes "decision") item)) (invalid_payload (codes "decision"))
  ok (record { change_id = change_id; decision = decision })

-- The generator over `raw_decisions`: what is no object is passed over.
unfoldable pub decisions_from_payload : Items → Result ReviewError (List ReviewDecision)
decisions_from_payload nil = ok []
decisions_from_payload (cons (obj item) rest) = do
  d ← decision_from_payload item
  ds ← decisions_from_payload rest
  ok (d ∷ ds)
decisions_from_payload (cons _ rest) = decisions_from_payload rest

module _ (sha256 : Text → Text) (dumps : Value → Text) where
  unfoldable pub journal_id_of : Fields → Text
  journal_id_of core_payload = codes "journal-" ++ take 24 (sha256 (dumps (obj core_payload)))

  unfoldable pub build_review_journal :
      Text → List ReviewDecision → Result ReviewError LexicalReviewJournal
  build_review_journal proposal_run_id decisions = do
    validate_run_id proposal_run_id
    validate_decisions [] decisions
    ok (record {
      journal_id = journal_id_of (journal_core_payload proposal_run_id decisions);
      schema_version = lexical_review_schema_version;
      proposal_run_id = proposal_run_id;
      decisions = decisions;
    })

  unfoldable pub review_to_payload : LexicalReviewJournal → Fields
  review_to_payload journal =
      with_field (codes "journal_id") (str journal.journal_id)
        (journal_core_payload journal.proposal_run_id journal.decisions)

  unfoldable pub review_from_payload : Fields → Result ReviewError LexicalReviewJournal
  review_from_payload payload = do
    raise_if (not (is_text (codes "lexical-review") (get (codes "schema") payload)))
        (invalid_payload (codes "schema"))
    schema_version ←
        or_raise (as_int (get (codes "schema_version") payload))
          (invalid_payload (codes "schema_version"))
    raise_if
        (not
          (elim schema_version [ pos n ↦ n == lexical_review_schema_version | negsuc n ↦ false ]))
        unsupported_schema
    journal_id ←
        or_raise (as_str (get (codes "journal_id") payload)) (invalid_payload (codes "journal_id"))
    proposal_run_id ←
        or_raise (as_str (get (codes "proposal_run_id") payload))
          (invalid_payload (codes "proposal_run_id"))
    validate_run_id proposal_run_id
    raw_decisions ←
        or_raise (as_arr (get (codes "decisions") payload)) (invalid_payload (codes "decisions"))
    decisions ← decisions_from_payload raw_decisions
    raise_if (not (length decisions == count raw_decisions)) (invalid_payload (codes "decisions"))
    validate_decisions [] decisions
    raise_if (not (text_eq journal_id (journal_id_of (without (codes "journal_id") payload))))
        journal_id_mismatch
    ok (record {
      journal_id = journal_id;
      schema_version = pos_part schema_version;
      proposal_run_id = proposal_run_id;
      decisions = decisions;
    })

decisions_from_payload-items :
    (ds : List ReviewDecision) → decisions_from_payload (items decision_payload ds) ≡ ok ds
unfolding decisions_from_payload items decision_payload decision_from_payload get as_str text_eq
decisions_from_payload-items [] = refl
decisions_from_payload-items (d ∷ ds) = rw (decisions_from_payload-items ds)

count-items : (ds : List ReviewDecision) → count (items decision_payload ds) ≡ length ds
unfolding count items
count-items [] = refl
count-items (d ∷ ds) = omega (arith, count-items ds)

module _ (sha256 : Text → Text) (dumps : Value → Text) where
  abbrev made : Text → List ReviewDecision → LexicalReviewJournal
  made proposal_run_id decisions = record {
    journal_id = journal_id_of sha256 dumps (journal_core_payload proposal_run_id decisions);
    schema_version = lexical_review_schema_version;
    proposal_run_id = proposal_run_id;
    decisions = decisions;
  }

  read_back :
      (proposal_run_id : Text) (decisions : List ReviewDecision)
      → validate_run_id proposal_run_id ≡ ok tt
      → validate_decisions [] decisions ≡ ok tt
      → review_from_payload sha256 dumps
          (review_to_payload sha256 dumps (made proposal_run_id decisions))
        ≡ ok (made proposal_run_id decisions)
  unfolding review_to_payload review_from_payload journal_core_payload get with_field without
      text_eq is_text as_str as_int as_arr
  read_back proposal_run_id decisions v w = rw (
    v,
    decisions_from_payload-items,
    count-items,
    (==_iff (length decisions) (length decisions)).1 refl,
    w,
    text_eq_refl (journal_id_of sha256 dumps (journal_core_payload proposal_run_id decisions)),
  )

  -- A journal that `build_review_journal` makes is read back from its payload unchanged.
  pub review_from_payload-to_payload :
      (proposal_run_id : Text) (decisions : List ReviewDecision) (journal : LexicalReviewJournal)
      → build_review_journal sha256 dumps proposal_run_id decisions ≡ ok journal
      → review_from_payload sha256 dumps (review_to_payload sha256 dumps journal) ≡ ok journal
  unfolding build_review_journal
  review_from_payload-to_payload proposal_run_id decisions journal h =
      elim (Result-cases (validate_run_id proposal_run_id)) [
        | inr (e, v) ↦ absurd (ground arith)
        | inl (u, v) ↦ elim (Result-cases (validate_decisions [] decisions)) [
          | inr (e, w) ↦ absurd (ground arith)
          | inl (u', w) ↦
              let same : made proposal_run_id decisions ≡ journal = ground arith in
              subst
                (λ j. review_from_payload sha256 dumps (review_to_payload sha256 dumps j) ≡ ok j)
                same (read_back proposal_run_id decisions v w)
        ]
      ]
