-- ===== src/Lexical/Payload/Proposal.antt =====
-- `proposal_to_payload` and `proposal_from_payload` (lexical_normalizer.py). A payload is a Python dict:
-- no key occurs twice in it. `decimal` prints a number, `sha256` hashes a text and `dumps` writes a
-- payload.
use human_hand.Prelude.{
  ℕ, ◌+◌, Bool, not, ◌&&◌, ◌||◌, Option, none, some, List, [], ◌∷◌, ◌++◌, ◌==◌, leb, all, any, drop,
  length, is_nil, Text, codes, text_eq, starts_with, Result, ok, ◌>>=◌, ◌>>◌, raise_if, or_raise,
  if◌then◌else◌,
}
use human_hand.Prelude.Int.{ℤ, pos, negsuc, int_eq}
use human_hand.Json.{
  Value, str, obj, Items, nil, cons, Fields, get, without, with_field, count, is_text, as_str,
  as_int, as_arr, as_number,
}
use human_hand.Lexical.{
  ChangeStatus, safe, proposed, LexicalChange, LexicalProposal, lexical_proposal_schema_version,
}
use human_hand.Lexical.Payload.{compute_run_id, core_proposal_payload}
use human_hand.Lexical.Review.{is_lower_hex}
use human_hand.Lexical.Rules.{precedence_of}

pub data ProposalError : Type 0 where
  invalid : (what : Text) → ProposalError
  invalid_change : (index : ℕ) (what : Text) → ProposalError
  unsupported_version : ℤ → ProposalError
  unexpected_change_id : Text → ProposalError
  unknown_status unknown_precedence : Text → ProposalError
  run_id_mismatch : ProposalError

unfoldable pub proposal_to_payload : LexicalProposal → Fields
proposal_to_payload proposal = with_field (codes "proposal_id") (str proposal.proposal_id) (
    with_field (codes "run_id") (str proposal.run_id) (
      core_proposal_payload proposal.ruleset_hash proposal.document_hash proposal.changes
        proposal.findings))

unfoldable pub expect_str : Fields → (key : Text) → ProposalError → Result ProposalError Text
expect_str payload key error = or_raise (as_str (get key payload)) error

unfoldable pub expect_int : Fields → (key : Text) → ProposalError → Result ProposalError ℤ
expect_int payload key error = or_raise (as_int (get key payload)) error

unfoldable pub expect_float : Fields → (key : Text) → ProposalError → Result ProposalError ℤ
expect_float payload key error = or_raise (as_number (get key payload)) error

unfoldable pub is_run_id : Text → Bool
is_run_id run_id =
    starts_with (codes "run-") run_id && length run_id == 28 && all is_lower_hex (drop 4 run_id)

unfoldable pub is_sha256_hex : Text → Bool
is_sha256_hex value = length value == 64 && all is_lower_hex value

-- `ChangeStatus(value)`
unfoldable pub status_of : Text → Option ChangeStatus
status_of value =
    if text_eq value (codes "SAFE")
    then some safe
    else if text_eq value (codes "PROPOSED")
    then some proposed
    else none

-- A number within [low, high], as its natural number.
unfoldable pub within : (low high : ℕ) → ℤ → Option ℕ
within low high (pos n) = if leb low n && leb n high then some n else none
within low high (negsuc n) = none

-- A number that is at least `low`.
unfoldable pub at_least : (low : ℕ) → ℤ → Option ℕ
at_least low (pos n) = if leb low n then some n else none
at_least low (negsuc n) = none

unfoldable pub change_from_payload :
    (decimal : ℕ → Text)
    → Fields
    → (index : ℕ) (ruleset_hash : Text) → Result ProposalError LexicalChange
change_from_payload decimal item index ruleset_hash = do
  let wrong = invalid_change index
  change_id ← expect_str item (codes "change_id") (wrong (codes "change_id"))
  raise_if (not (text_eq change_id (codes "ch" ++ decimal (index + 1))))
      (unexpected_change_id change_id)
  raw_offset ← expect_int item (codes "offset") (wrong (codes "offset"))
  offset ← or_raise (at_least 0 raw_offset) (wrong (codes "offset"))
  raw_length ← expect_int item (codes "length") (wrong (codes "length"))
  length ← or_raise (at_least 1 raw_length) (wrong (codes "length"))
  raw_confidence ← expect_float item (codes "confidence") (wrong (codes "confidence"))
  confidence ← or_raise (within 0 1000000 raw_confidence) (wrong (codes "confidence"))
  change_ruleset_hash ← expect_str item (codes "ruleset_hash") (wrong (codes "ruleset_hash"))
  raise_if (not (text_eq change_ruleset_hash ruleset_hash)) (wrong (codes "ruleset_hash"))
  raw_status ← expect_str item (codes "status") (wrong (codes "status"))
  status ← or_raise (status_of raw_status) (unknown_status raw_status)
  precedence_value ← expect_str item (codes "precedence") (wrong (codes "precedence"))
  precedence ← or_raise (precedence_of precedence_value) (unknown_precedence precedence_value)
  source_surface ← expect_str item (codes "source_surface") (wrong (codes "source_surface"))
  target ← expect_str item (codes "target") (wrong (codes "target"))
  reason ← expect_str item (codes "reason") (wrong (codes "reason"))
  rule_id ← expect_str item (codes "rule_id") (wrong (codes "rule_id"))
  sense ← expect_str item (codes "sense") (wrong (codes "sense"))
  raise_if
      (is_nil source_surface
        || is_nil target
        || is_nil reason
        || is_nil precedence_value
        || is_nil rule_id
        || is_nil sense)
      (wrong (codes "fields"))
  ok (record {
    change_id = change_id;
    offset = offset;
    length = length;
    source_surface = source_surface;
    target = target;
    reason = reason;
    precedence = precedence_value;
    confidence = confidence;
    status = status;
    rule_id = rule_id;
    sense = sense;
    ruleset_hash = change_ruleset_hash;
  })

-- The generator over `enumerate(raw_changes)`: what is no object is passed over.
unfoldable pub changes_from_payload :
    (decimal : ℕ → Text)
    → (index : ℕ) (ruleset_hash : Text) → Items
    → Result ProposalError (List LexicalChange)
changes_from_payload decimal index ruleset_hash nil = ok []
changes_from_payload decimal index ruleset_hash (cons (obj item) rest) = do
  change ← change_from_payload decimal item index ruleset_hash
  changes ← changes_from_payload decimal (index + 1) ruleset_hash rest
  ok (change ∷ changes)
changes_from_payload decimal index ruleset_hash (cons _ rest) =
    changes_from_payload decimal (index + 1) ruleset_hash rest

-- `tuple(item for item in raw_findings if isinstance(item, str))`
unfoldable pub only_texts : Items → List Text
only_texts nil = []
only_texts (cons (str t) rest) = t ∷ only_texts rest
only_texts (cons _ rest) = only_texts rest

module _ (decimal : ℕ → Text) (sha256 : Text → Text) (dumps : Value → Text) where
  unfoldable pub proposal_from_payload : Fields → Result ProposalError LexicalProposal
  proposal_from_payload payload = do
    raise_if (not (is_text (codes "lexical-proposal") (get (codes "schema") payload)))
        (invalid (codes "schema"))
    schema_version ← expect_int payload (codes "schema_version") (invalid (codes "schema_version"))
    raise_if (not (int_eq schema_version (pos lexical_proposal_schema_version)))
        (unsupported_version schema_version)
    run_id ← expect_str payload (codes "run_id") (invalid (codes "run_id"))
    proposal_id ← expect_str payload (codes "proposal_id") (invalid (codes "proposal_id"))
    raise_if (not (is_run_id run_id)) (invalid (codes "run_id"))
    document_hash ← expect_str payload (codes "document_hash") (invalid (codes "document_hash"))
    raise_if (not (is_sha256_hex document_hash)) (invalid (codes "document_hash"))
    ruleset_hash ← expect_str payload (codes "ruleset_hash") (invalid (codes "ruleset_hash"))
    raise_if (is_nil ruleset_hash) (invalid (codes "ruleset_hash"))
    raw_changes ← or_raise (as_arr (get (codes "changes") payload)) (invalid (codes "changes"))
    changes ← changes_from_payload decimal 0 ruleset_hash raw_changes
    raise_if (not (length changes == count raw_changes)) (invalid (codes "changes"))
    raw_findings ← or_raise (as_arr (get (codes "findings") payload)) (invalid (codes "findings"))
    let findings = only_texts raw_findings
    raise_if (not (length findings == count raw_findings)) (invalid (codes "findings"))
    raise_if (any is_nil findings) (invalid (codes "findings"))
    let expected_run_id =
        compute_run_id sha256 dumps
          (without (codes "run_id") (without (codes "proposal_id") payload))
    raise_if (not (text_eq run_id expected_run_id) || not (text_eq proposal_id expected_run_id))
        run_id_mismatch
    ok (record {
      proposal_id = proposal_id;
      run_id = run_id;
      ruleset_hash = ruleset_hash;
      document_hash = document_hash;
      schema_version = lexical_proposal_schema_version;
      changes = changes;
      findings = findings;
    })
