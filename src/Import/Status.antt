-- ===== src/Import/Status.antt =====
-- The status of a set of findings (import_findings.py).
use human_hand.Prelude.{
  ◌≡◌, ◌∙◌, sym, Bool, true, ◌&&◌, ◌||◌, List, [], ◌∷◌, arith, any, is_nil, if◌then◌else◌,
}
use human_hand.Document.{ImportFinding}
use human_hand.Import.{
  ImportStatus, clean, findings, human_review_required, quarantined, unsupported_format, failed,
  is_error, is_unsupported_format, needs_review, is_magic_mismatch, Flags, flag_step, flag_loop,
  status_of_flags, no_flags, classify_status,
}

-- Some error among the findings passes a test.
abbrev pub some_error : (ImportFinding → Bool) → List ImportFinding → Bool
some_error p fs = any (λ f. is_error f.severity && p f) fs

-- The rules in the order in which the documentation of `classify_status` lists them.
abbrev pub status_by_rules : List ImportFinding → ImportStatus
status_by_rules fs =
    if some_error is_unsupported_format fs
    then unsupported_format
    else if some_error needs_review fs
    then human_review_required
    else if some_error (λ f. is_magic_mismatch f.category) fs
    then quarantined
    else if some_error (λ f. true) fs
    then failed
    else if is_nil fs
    then clean
    else findings

-- The rules for findings behind those that set the flags.
abbrev rules_after : Flags → Bool → List ImportFinding → ImportStatus
rules_after a none_at_all fs =
    status_of_flags
      (record {
        has_unsupported_format = a.has_unsupported_format || some_error is_unsupported_format fs;
        has_review_required = a.has_review_required || some_error needs_review fs;
        has_magic_mismatch =
            a.has_magic_mismatch || some_error (λ f. is_magic_mismatch f.category) fs;
        has_other_error = a.has_other_error || some_error (λ f. true) fs;
      })
      none_at_all

rules_after-step :
    (a : Flags) (none_at_all : Bool) (f : ImportFinding) (fs : List ImportFinding)
    → rules_after a none_at_all (f ∷ fs) ≡ rules_after (flag_step a f) none_at_all fs
unfolding status_of_flags flag_step any
rules_after-step a none_at_all f fs = ground arith

flag_loop-rules_after :
    (a : Flags) (none_at_all : Bool) (fs : List ImportFinding)
    → status_of_flags (flag_loop a fs) none_at_all ≡ rules_after a none_at_all fs
unfolding flag_loop any status_of_flags
flag_loop-rules_after a none_at_all [] = ground arith
flag_loop-rules_after a none_at_all (f ∷ fs) =
    flag_loop-rules_after (flag_step a f) none_at_all fs ∙ sym (rules_after-step a none_at_all f fs)

-- `classify_status` answers by the first rule of its documentation that fits: an unsupported format, an
-- error for review, a magic mismatch, any other error, any finding, none; whatever the order of the
-- findings.
pub classify_status-status_by_rules :
    (fs : List ImportFinding) → classify_status fs ≡ status_by_rules fs
unfolding classify_status status_of_flags
classify_status-status_by_rules fs = flag_loop-rules_after no_flags (is_nil fs) fs
