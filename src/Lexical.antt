-- ===== src/Lexical.antt =====
-- The records of src/humanhand/domain/lexical_normalizer.py: a proposal and its changes. Offsets and
-- lengths are natural numbers, as `propose_changes` and `proposal_from_payload` make them; a
-- confidence is kept in millionths; a hash and an id are texts.
pub mod Apply
pub mod Choice
pub mod Collocations
pub mod Context
pub mod Inflection
pub mod Words
pub mod Payload
pub mod Propose
pub mod Review
pub mod Rules
pub mod Splice
mod Tests
use human_hand.Prelude.{ℕ, Text, List}

pub data ChangeStatus : Type 0 where
  safe proposed : ChangeStatus

pub record LexicalChange : Type 0 where
  pub change_id : Text
  pub offset : ℕ
  pub length : ℕ
  pub source_surface : Text
  pub target : Text
  pub reason : Text
  pub precedence : Text
  pub confidence : ℕ
  pub status : ChangeStatus
  pub rule_id : Text
  pub sense : Text
  pub ruleset_hash : Text

pub record LexicalProposal : Type 0 where
  pub proposal_id : Text
  pub run_id : Text
  pub ruleset_hash : Text
  pub document_hash : Text
  pub schema_version : ℕ
  pub changes : List LexicalChange
  pub findings : List Text

abbrev pub lexical_proposal_schema_version : ℕ
lexical_proposal_schema_version = 1
