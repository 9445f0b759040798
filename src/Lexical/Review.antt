-- ===== src/Lexical/Review.antt =====
-- src/humanhand/domain/lexical_review.py: the review decisions and `apply_review`. The journal and its
-- payload stand in the module below.
pub mod Journal
pub mod Accepted
use human_hand.Prelude.{
  ℕ, ◌+◌, Bool, true, false, not, ◌&&◌, ◌||◌, List, [], ◌∷◌, ◌++◌, map, ◌==◌, leb, if◌then◌else◌,
  is_nil, any, all, select, take, drop, length, Text, codes, text_eq, contains, Option, none, some,
  Result, ok, err, ◌>>=◌, ◌>>◌, raise_if, or_raise,
}
use human_hand.Prelude.Int.{ℤ, pos}
use human_hand.Json.{
  Value, int, str, arr, obj, Items, nil, cons, Fields, end, field, items, get, without, is_text,
  as_str, as_int, as_arr, as_obj,
}
use human_hand.Lexical.{LexicalChange, LexicalProposal, lexical_proposal_schema_version}
use human_hand.Lexical.Payload.{compute_run_id, core_proposal_payload}

pub record ReviewDecision : Type 0 where
  pub change_id : Text
  pub decision : Text

pub record LexicalReviewJournal : Type 0 where
  pub journal_id : Text
  pub schema_version : ℕ
  pub proposal_run_id : Text
  pub decisions : List ReviewDecision

pub data ReviewError : Type 0 where
  empty_change_id : ReviewError
  invalid_decision : (change_id : Text) → ReviewError
  duplicate_decision : (change_id : Text) → ReviewError
  unknown_change : (change_id : Text) → ReviewError
  unsupported_schema : ReviewError
  malformed_run_id : ReviewError
  invalid_payload : (what : Text) → ReviewError
  journal_id_mismatch : ReviewError

abbrev pub lexical_review_schema_version : ℕ
lexical_review_schema_version = 1

abbrev pub accept : Text
accept = codes "accept"

abbrev pub reject : Text
reject = codes "reject"

unfoldable pub is_lower_hex : ℕ → Bool
is_lower_hex c = leb b'0' c && leb c b'9' || leb b'a' c && leb c b'f'

unfoldable pub validate_run_id : Text → Result ReviewError (Unit {0})
validate_run_id run_id = do
  raise_if (not (text_eq (take 4 run_id) (codes "run-")) || not (length run_id == 28))
      malformed_run_id
  raise_if (any (λ c. not (is_lower_hex c)) (drop 4 run_id)) malformed_run_id

-- The loop of `_validate_decisions`, with the set of ids seen so far.
unfoldable pub validate_decisions :
    (seen : List Text) → List ReviewDecision → Result ReviewError (Unit {0})
validate_decisions seen [] = ok tt
validate_decisions seen (d ∷ rest) = do
  raise_if (is_nil d.change_id) empty_change_id
  raise_if (not (text_eq d.decision accept || text_eq d.decision reject))
      (invalid_decision d.change_id)
  raise_if (contains d.change_id seen) (duplicate_decision d.change_id)
  validate_decisions (d.change_id ∷ seen) rest

unfoldable pub check_known :
    (known_ids : List Text) → List ReviewDecision → Result ReviewError (Unit {0})
check_known known_ids [] = ok tt
check_known known_ids (d ∷ rest) = do
  raise_if (not (contains d.change_id known_ids)) (unknown_change d.change_id)
  check_known known_ids rest

-- `{d.change_id for d in decisions if d.decision == "accept"}`
unfoldable pub accepted_ids : List ReviewDecision → List Text
accepted_ids decisions = map (λ d. d.change_id) (select (λ d. text_eq d.decision accept) decisions)

unfoldable pub accepted_changes : List LexicalChange → List ReviewDecision → List LexicalChange
accepted_changes changes decisions =
    select (λ c. contains c.change_id (accepted_ids decisions)) changes

module _ (sha256 : Text → Text) (dumps : Value → Text) where
  unfoldable pub apply_review :
      LexicalProposal → LexicalReviewJournal → Result ReviewError LexicalProposal
  apply_review proposal journal = do
    raise_if (not (journal.schema_version == lexical_review_schema_version)) unsupported_schema
    validate_decisions [] journal.decisions
    check_known (map (λ c. c.change_id) proposal.changes) journal.decisions
    let accepted = accepted_changes proposal.changes journal.decisions
    let run_id = compute_run_id sha256 dumps (
        core_proposal_payload proposal.ruleset_hash proposal.document_hash accepted
          proposal.findings)
    ok (record {
      proposal_id = run_id;
      run_id = run_id;
      ruleset_hash = proposal.ruleset_hash;
      document_hash = proposal.document_hash;
      schema_version = lexical_proposal_schema_version;
      changes = accepted;
      findings = proposal.findings;
    })
