-- ===== src/Lexical/Payload.antt =====
-- The canonical payload of a proposal and its run id (lexical_normalizer.py). `dumps` stands for
-- `dumps_stable`'s call of the `json` module.
pub mod Proposal
pub mod Refused
pub mod RoundTrip
use human_hand.Prelude.{List, ◌++◌, take, Text, codes}
use human_hand.Prelude.Int.{pos}
use human_hand.Json.{Value, int, float, str, arr, obj, Fields, end, field, items}
use human_hand.Lexical.{
  ChangeStatus, safe, proposed, LexicalChange, lexical_proposal_schema_version,
}

unfoldable pub compute_run_id : (sha256 : Text → Text) (dumps : Value → Text) → Fields → Text
compute_run_id sha256 dumps payload = codes "run-" ++ take 24 (sha256 (dumps (obj payload)))

unfoldable pub status_value : ChangeStatus → Text
status_value safe = codes "SAFE"
status_value proposed = codes "PROPOSED"

unfoldable pub change_payload : LexicalChange → Value
unfolding status_value
change_payload change = obj (
    field (codes "change_id") (str change.change_id) (
      field (codes "offset") (int (pos change.offset)) (
        field (codes "length") (int (pos change.length)) (
          field (codes "source_surface") (str change.source_surface) (
            field (codes "target") (str change.target) (
              field (codes "reason") (str change.reason) (
                field (codes "precedence") (str change.precedence) (
                  field (codes "confidence") (float change.confidence) (
                    field (codes "status") (str (status_value change.status)) (
                      field (codes "rule_id") (str change.rule_id) (
                        field (codes "sense") (str change.sense)
                          (field (codes "ruleset_hash") (str change.ruleset_hash) end))))))))))))

unfoldable pub core_proposal_payload :
    (ruleset_hash document_hash : Text) → List LexicalChange → List Text → Fields
unfolding change_payload items
core_proposal_payload ruleset_hash document_hash changes findings =
    field (codes "schema") (str (codes "lexical-proposal")) (
      field (codes "schema_version") (int (pos lexical_proposal_schema_version)) (
        field (codes "document_hash") (str document_hash) (
          field (codes "ruleset_hash") (str ruleset_hash) (
            field (codes "changes") (arr (items change_payload changes))
              (field (codes "findings") (arr (items str findings)) end)))))
