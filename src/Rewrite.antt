-- ===== src/Rewrite.antt =====
-- src/humanhand/domain/repair.py and `rewrite` of src/humanhand/application/services.py, with the
-- reports of types.py. The model's client is a parameter that answers the n-th call with a prompt; the
-- prompts, the fact diff and the audit, which rest on regular expressions, are parameters, and so is
-- the path that the file writer returns. A score is in millionths. The log and the clock are left out.
pub mod Bounded
pub mod Outcome
pub mod Returned
mod Tests
use human_hand.Prelude.{
  ℕ, zero, suc, ◌+◌, Bool, true, false, not, ◌&&◌, ◌||◌, Option, none, some, List, ltb, leb, length,
  is_nil, all, Text, Result, ok, err, ◌>>◌, raise_if, if◌then◌else◌,
}

pub record FactAnchor : Type 0 where
  pub text : Text
  pub category : Text
  pub position : ℕ

pub record FactDiffReport : Type 0 where
  pub omissions : List FactAnchor
  pub additions : List FactAnchor
  pub contradictions : List (FactAnchor × FactAnchor)
  pub preservation_score : ℕ
  pub total_source_anchors : ℕ
  pub total_candidate_anchors : ℕ

-- What the loop reads of a `ScrubReport`.
pub record ScrubReport : Type 0 where
  pub cleaned_text : Text
  pub modifications : ℕ

pub data RepairDecision : Type 0 where
  accept repair fail : RepairDecision

abbrev pub default_preservation_threshold : ℕ
default_preservation_threshold = 850000

abbrev pub default_max_scrub_mods_before_fail : ℕ
default_max_scrub_mods_before_fail = 10

unfoldable pub has_drift : FactDiffReport → Bool
has_drift diff =
    ltb 0 (length diff.omissions)
    || (ltb 0 (length diff.additions) || ltb 0 (length diff.contradictions))

unfoldable pub decide_repair :
    FactDiffReport
    → ScrubReport
    → (attempt max_attempts preservation_threshold : ℕ) → RepairDecision
unfolding has_drift
decide_repair diff scrub_report attempt max_attempts preservation_threshold =
    let preserved = leb preservation_threshold diff.preservation_score in
    if leb max_attempts attempt
    then fail
    else if ltb default_max_scrub_mods_before_fail scrub_report.modifications
    then fail
    else if preserved && not (has_drift diff)
    then accept
    else if preserved
        && (leb (length diff.omissions) 1 && (is_nil diff.additions && is_nil diff.contradictions))
    then accept
    else repair

pub data RewriteError : Type 0 where
  source_too_long style_too_long source_empty style_empty : RewriteError
  quality : (repair_attempts : ℕ) → RewriteError

pub record Accepted : Type 0 where
  pub candidate : Text
  pub repair_attempts : ℕ
  pub fact_diff : FactDiffReport

pub record RewriteResult : Type 0 where
  pub output_path : Text
  pub input_chars : ℕ
  pub output_chars : ℕ
  pub repair_attempts : ℕ
  pub preservation_score : ℕ
  pub fact_diff : FactDiffReport

unfoldable pub check_inputs :
    (is_space : ℕ → Bool)
    → (source_text style_text : Text) → (max_chars : ℕ) → Result RewriteError (Unit {0})
check_inputs is_space source_text style_text max_chars = do
  raise_if (ltb max_chars (length source_text)) source_too_long
  raise_if (ltb max_chars (length style_text)) style_too_long
  raise_if (all is_space source_text) source_empty
  raise_if (all is_space style_text) style_empty

unfoldable pub finish : (write : Text → Text) → (input_chars : ℕ) → Accepted → RewriteResult
finish write input_chars a = record {
  output_path = write a.candidate;
  input_chars = input_chars;
  output_chars = length a.candidate;
  repair_attempts = a.repair_attempts;
  preservation_score = a.fact_diff.preservation_score;
  fact_diff = a.fact_diff;
}

unfoldable pub finished :
    (write : Text → Text)
    → (input_chars : ℕ) → Option (Result RewriteError Accepted)
    → Option (Result RewriteError RewriteResult)
finished write input_chars none = none
finished write input_chars (some (err e)) = some (err e)
finished write input_chars (some (ok a)) = some (ok (finish write input_chars a))

module _ {Prompt : Type 0} (diff_facts : (source candidate : Text) → FactDiffReport)
    (audit_text : Text → ScrubReport)
    (build_repair_prompt : (source candidate : Text) → FactDiffReport → ℕ → Prompt)
    (llm : ℕ → Prompt → Text) where
  -- One evaluation of a candidate.
  unfoldable pub decision_for :
      (source_text : Text) → (max_repair_attempts repair_attempts : ℕ) → Text → RepairDecision
  decision_for source_text max_repair_attempts repair_attempts candidate =
      decide_repair (diff_facts source_text candidate) (audit_text candidate) repair_attempts
        max_repair_attempts default_preservation_threshold

  -- `candidate = llm_client.rewrite(repair_prompt)`, the call after `repair_attempts` others.
  unfoldable pub repaired : (source_text : Text) → (repair_attempts : ℕ) → Text → Text
  repaired source_text repair_attempts candidate =
      llm repair_attempts (
        build_repair_prompt source_text candidate (diff_facts source_text candidate)
          repair_attempts)

  -- The loop, on fuel: none means that the fuel ran out.
  unfoldable pub repair_loop :
      (source_text : Text)
      → (max_repair_attempts fuel repair_attempts : ℕ) → Text
      → Option (Result RewriteError Accepted)
  repair_loop source_text max_repair_attempts zero repair_attempts candidate = none
  repair_loop source_text max_repair_attempts (suc fuel) repair_attempts candidate =
      elim (decision_for source_text max_repair_attempts repair_attempts candidate) [
        | accept ↦ some (
            ok (record {
              candidate = candidate;
              repair_attempts = repair_attempts;
              fact_diff = diff_facts source_text candidate;
            }))
        | fail ↦ some (err (quality repair_attempts))
        | repair ↦
            repair_loop source_text max_repair_attempts fuel (repair_attempts + 1)
              (repaired source_text (repair_attempts + 1) candidate)
      ]

  -- `rewrite`, with fuel for one evaluation more than there are repairs.
  unfoldable pub rewrite :
      (is_space : ℕ → Bool)
      → (build_rewrite_prompt : (source style : Text) → Prompt) → (write : Text → Text)
      → (source_text style_text : Text) → (max_chars max_repair_attempts : ℕ)
      → Option (Result RewriteError RewriteResult)
  rewrite is_space build_rewrite_prompt write source_text style_text max_chars max_repair_attempts =
      elim (check_inputs is_space source_text style_text max_chars) [
        | err e ↦ some (err e)
        | ok u ↦ finished write (length source_text + length style_text) (
            repair_loop source_text max_repair_attempts (suc max_repair_attempts) 0
              (llm 0 (build_rewrite_prompt source_text style_text)))
      ]
