-- ===== src/Lexical/Tests.antt =====
-- Concrete runs of the lexical normaliser: two changes to one sentence, reviewed and applied. The
-- hash of every text is the same text here.
use human_hand.Prelude.{
  ℕ, ◌+◌, ◌≡◌, refl, Option, none, some, List, [], ◌∷◌, arith, Text, codes, text_eq, contains, any,
  Result, ok, All, length, select, subst, sym,
}
use human_hand.Prelude.Sort
use human_hand.Lexical.{LexicalChange, LexicalProposal, safe, lexical_proposal_schema_version}
use human_hand.Lexical.Apply.{
  apply_changes, apply_change, apply_loop, is_selected, key_le, replace_span,
}
use human_hand.Lexical.Apply.Correct.{chosen, apply_changes-rebuild, apply_changes_complete}
use human_hand.Json.{Value}
use human_hand.Lexical.Payload.{compute_run_id}
use human_hand.Lexical.Review.{
  LexicalReviewJournal, lexical_review_schema_version, accept, reject, apply_review,
  validate_decisions, check_known, accepted_changes, accepted_ids, validate_run_id, is_lower_hex,
}
use human_hand.Lexical.Review.Accepted.{is_accepted, AllKnown, apply_review-is_accepted}
use human_hand.Lexical.Review.Journal.{
  build_review_journal, journal_id_of, review_to_payload, review_from_payload,
  review_from_payload-to_payload,
}
use human_hand.Lexical.Splice.{rebuild, IsOrdered, Fits}

abbrev hash : Text → Text
hash t = codes "00"

abbrev change_to : Text → ℕ → Text → Text → LexicalChange
change_to id offset surface target = record {
  change_id = id;
  offset = offset;
  length = length surface;
  source_surface = surface;
  target = target;
  reason = codes "plain words";
  precedence = codes "USER";
  confidence = 900000;
  status = safe;
  rule_id = codes "r1";
  sense = codes "general";
  ruleset_hash = codes "11";
}

abbrev text : Text
text = codes "we use big data"

abbrev first : LexicalChange
first = change_to (codes "c1") 3 (codes "use") (codes "take")

abbrev second : LexicalChange
second = change_to (codes "c2") 7 (codes "big") (codes "much")

-- The changes stand in the proposal with the last one first.
abbrev proposal : LexicalProposal
proposal = record {
  proposal_id = codes "run-1";
  run_id = codes "run-1";
  ruleset_hash = codes "11";
  document_hash = codes "00";
  schema_version = lexical_proposal_schema_version;
  changes = second ∷ first ∷ [];
  findings = [];
}

both_chosen : chosen proposal none ≡ first ∷ second ∷ []
unfolding human_hand.Prelude.Sort.sorted human_hand.Prelude.Sort.insert select is_selected key_le
both_chosen = refl

abbrev result : Text
result = codes "we take much data"

applied : apply_changes hash text proposal none ≡ ok result
unfolding apply_changes apply_loop apply_change select is_selected key_le text_eq
    human_hand.Prelude.Sort.sorted_reverse human_hand.Prelude.Sort.insert_down replace_span
applied = refl

spans-IsOrdered : IsOrdered 0 (chosen proposal none)
spans-IsOrdered = subst (IsOrdered 0) (sym both_chosen) (omega arith, (omega arith, tt))

Fits-first : Fits 0 text first
Fits-first = record {
  after = omega arith;
  nonempty = omega arith;
  within = omega arith;
  exact = refl;
}

Fits-second : Fits 0 text second
Fits-second = record {
  after = omega arith;
  nonempty = omega arith;
  within = omega arith;
  exact = refl;
}

both_fit : All (Fits 0 text) (chosen proposal none)
both_fit = subst (All (Fits 0 text)) (sym both_chosen) (Fits-first, (Fits-second, tt))

apply_changes-rebuild_example :
    (proposal.schema_version ≡ 1)
    × (hash text ≡ proposal.document_hash)
    × All (Fits 0 text) (chosen proposal none)
    × (result ≡ rebuild 0 text (chosen proposal none))
apply_changes-rebuild_example =
    apply_changes-rebuild hash text proposal none spans-IsOrdered applied

apply_changes_complete_example :
    apply_changes hash text proposal none ≡ ok (rebuild 0 text (chosen proposal none))
apply_changes_complete_example =
    apply_changes_complete hash text proposal none refl refl spans-IsOrdered both_fit

-- Serialised values are not looked into here.
abbrev dump : Value → Text
dump v = codes "{}"

abbrev journal : LexicalReviewJournal
journal = record {
  journal_id = codes "journal-1";
  schema_version = lexical_review_schema_version;
  proposal_run_id = codes "run-000000000000000000000000";
  decisions =
      record { change_id = codes "c1"; decision = accept }
      ∷ record { change_id = codes "c2"; decision = reject }
      ∷ [];
}

abbrev reviewed : LexicalProposal
reviewed = record proposal {
  proposal_id = codes "run-00";
  run_id = codes "run-00";
  changes = first ∷ [];
}

review_applied : apply_review hash dump proposal journal ≡ ok reviewed
unfolding apply_review validate_decisions check_known accepted_changes accepted_ids select contains
    any text_eq compute_run_id
review_applied = refl

apply_review-is_accepted_example :
    (reviewed.changes ≡ select (is_accepted journal.decisions) proposal.changes)
    × (reviewed.document_hash ≡ proposal.document_hash)
    × (reviewed.ruleset_hash ≡ proposal.ruleset_hash)
    × (reviewed.findings ≡ proposal.findings)
    × AllKnown proposal journal
apply_review-is_accepted_example =
    apply_review-is_accepted hash dump proposal reviewed journal review_applied

abbrev built : LexicalReviewJournal
built = record journal { journal_id = codes "journal-00" }

journal_built : build_review_journal hash dump journal.proposal_run_id journal.decisions ≡ ok built
unfolding build_review_journal validate_run_id validate_decisions contains any text_eq is_lower_hex
    journal_id_of
journal_built = refl

review_from_payload-to_payload_example :
    review_from_payload hash dump (review_to_payload hash dump built) ≡ ok built
review_from_payload-to_payload_example =
    review_from_payload-to_payload hash dump journal.proposal_run_id journal.decisions built
      journal_built
