-- ===== src/Lib.antt =====
-- HumanHand edits documents under human review. This library models the path from a proposal of lexical
-- changes to a stored revision, the rewrite loop, the claim diff, the privacy policies and the research
-- proposals.
--
-- The parts, and how they interact. `propose_changes` matches the tokens of a text against rules and lists
-- its changes in a `LexicalProposal`, which is written to a payload and read back. A reviewer's journal
-- picks some of them (`apply_review`). `apply_reviewed_proposal` applies what is left to the surface
-- text (`apply_changes`) and to the nodes of the canonical document, and moves every node's offsets.
-- The result becomes a revision (`propose_next_revision`, `accept_revision`), which the store appends
-- to the document's chain (`save_revision`) if nobody was faster; `finalize_reviewed_revision` runs these
-- steps, its checks and one transaction on the store.
--
-- The files:
--   Prelude, Prelude/*: tests, lists, texts, results, integers and stable sorting, with their lemmas.
--   Json: the values of payloads, and the `_expect_*` helpers of src/humanhand/domain.
--   Lexical, Lexical/Apply, Lexical/Payload: src/humanhand/domain/lexical_normalizer.py.
--   Lexical/Splice: an independent description of what changes do to a text, `rebuild`.
--   Lexical/Review, Lexical/Review/Journal: src/humanhand/domain/lexical_review.py.
--   Document: src/humanhand/domain/document_nodes.py, canonical_document.py and import_findings.py.
--   Document/Signature: src/humanhand/domain/structure_signature.py.
--   Transform: src/humanhand/domain/revision_transform.py; its children hold the lemmas.
--   Revision, Revision/Payload: src/humanhand/domain/revisions.py.
--   Revision/Store: src/humanhand/infra/stores/project_store.py and integrated_project_store.py.
--   Privacy, Privacy/Payload: src/humanhand/domain/privacy.py, with the mapping to retention policies of
--     retention.py.
--   Beacon, Beacon/Flow: src/humanhand/domain/beacon_types.py.
--   Beacon/Evidence, Beacon/Proposal, Beacon/Policy: beacon_evidence.py, beacon_proposals.py and
--     beacon_policy.py beside it.
--   Spans: src/humanhand/domain/protected_spans.py, and `_rebase_protected_spans` of
--     src/humanhand/application/integrated_workflow.py.
--   Claims: src/humanhand/domain/claim_diff.py, with the records of claims_v2.py.
--   Rewrite: src/humanhand/domain/repair.py and `rewrite` of src/humanhand/application/services.py.
--   Document/Payload, Document/Payload/Read: src/humanhand/domain/document_serialization.py.
--   Document/Build: the assembly tree of document_nodes.py and `build_document` of canonical_document.py.
--   Finalize: `finalize_reviewed_revision` of src/humanhand/application/integrated_workflow.py.
--   Finalize/Database: the tables it writes and their operations, in integrated_project_store.py and
--     project_store.py of src/humanhand/infra/stores.
--   Import: src/humanhand/domain/import_policy.py and `classify_status` of import_findings.py.
--   Document/Measure: `measure_document` of canonical_document.py.
--   Project: src/humanhand/domain/project.py.
--   Lexical/Payload/Proposal, Lexical/Choice, Lexical/Propose: lexical_normalizer.py again, the payload of
--     a proposal and its making.
--   Lexical/Rules, Lexical/Rules/Payload: src/humanhand/domain/lexical_types.py and lexical_rules.py.
--   Lexical/Context, Lexical/Inflection, Lexical/Collocations: lexical_context.py, inflection.py and
--     collocations.py beside them.
--   Lexical/Words: the methods of `str` that these files use.
-- A function keeps its Python name, without a leading underscore; `x_loop` is a loop of `x`, `x_step` its
-- body. An exception is a constructor of the component's error type, with the id that its message names.
--
-- Conventions. A text is a list of code points. Offsets and lengths are natural numbers, as every
-- constructor of the source makes them, so the guards against negative ones have no counterpart where
-- no payload is read and no `find` is added; revision tokens are integers of either sign. A confidence
-- is in millionths. `hashlib`, `unicodedata`, `json.dumps` and the decimal printing of numbers are
-- parameters. Every loop is structural recursion on the list that the source iterates over, but for
-- the repair loop of Rewrite, which the source runs without a bound: it has fuel for one evaluation
-- more than the repairs it may make, enough because every round makes a repair or ends the loop; and
-- for the walk to the root in Document/Measure, which has fuel for one step per node, enough in a
-- document that `build_document` made. The rows of the table of revisions are a list, newest first.
--
-- Not modelled: the extractors of facts and citations (regular expressions), style statistics (floating
-- point), file formats, the SQLite engine, and the command line.
pub mod Prelude
pub mod Json
pub mod Lexical
pub mod Document
pub mod Finalize
pub mod Import
pub mod Transform
pub mod Revision
pub mod Spans
pub mod Claims
pub mod Rewrite
pub mod Privacy
pub mod Project
pub mod Beacon
