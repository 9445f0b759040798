-- ===== src/Import/Tests.antt =====
-- An import with findings of each kind and a policy with small limits, for import_policy.py and
-- `classify_status` of import_findings.py.
use human_hand.Prelude.Int.{ℤ, pos}
use human_hand.Prelude.{Text, contains, ok, false, ◌≡◌, List, [], ◌∷◌, codes, text_eq, refl}
use human_hand.Document.{ImportFinding, warning, magic_mismatch, revision}
use human_hand.Import.{
  is_error, is_unsupported_format, is_review_category, needs_review, is_magic_mismatch, flag_step,
  flag_loop, status_of_flags, classify_status, quarantined, limit_finding, ImportPolicy,
  check_limits, check_positive, validate_policy, failed,
}
use human_hand.Import.Limits.{classify_status-check_limits}
use human_hand.Import.Status.{status_by_rules, classify_status-status_by_rules}

-- An exceeded limit, a tracked change that is only a warning, and a file of another type.
abbrev many_findings : List ImportFinding
many_findings =
    limit_finding (codes "import.limit.bytes") (codes "too large") (codes "size=9 limit=8")
    ∷ record (limit_finding (codes "import.revision.tracked_changes") (codes "tracked") []) {
      severity = warning;
      category = revision;
    }
    ∷ record (limit_finding (codes "import.type.mismatch") (codes "other type") []) {
      category = magic_mismatch;
    }
    ∷ []

classify_status-status_by_rules_example :
    classify_status many_findings ≡ status_by_rules many_findings
classify_status-status_by_rules_example = classify_status-status_by_rules many_findings

many_findings_are_quarantined : classify_status many_findings ≡ quarantined
unfolding is_error is_unsupported_format is_review_category needs_review is_magic_mismatch flag_step
    flag_loop status_of_flags classify_status text_eq
many_findings_are_quarantined = refl

abbrev small_policy : ImportPolicy
small_policy = record {
  version = codes "1";
  lane = codes "source";
  max_bytes = pos 8;
  max_expanded_bytes = pos 16;
  max_nodes = pos 4;
  max_depth = pos 2;
  timeout_seconds = pos 30000000;
  max_output_bytes = pos 8;
  required_encoding = codes "utf-8";
  network_policy = codes "deny";
  revision_policy = codes "reject";
  retain_original = false;
}

-- Every number is printed as one digit.
abbrev digits : ℤ → Text
digits _ = codes "9"

classify_status-check_limits_example :
    classify_status (check_limits digits small_policy (pos 9) (pos 16) (pos 4) (pos 3)) ≡ failed
classify_status-check_limits_example =
    classify_status-check_limits digits small_policy (pos 9) (pos 16) (pos 4) (pos 3)

small_policy-validates : validate_policy small_policy ≡ ok tt
unfolding validate_policy check_positive text_eq contains
small_policy-validates = refl
