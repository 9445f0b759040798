-- ===== src/Import.antt =====
-- The policy and the findings of an import: src/humanhand/domain/import_policy.py and `classify_status`
-- of import_findings.py. `decimal` prints a number. The numbers of a policy are integers; the seconds of
-- the timeout are in millionths.
pub mod Status
mod Limits
mod Tests
use human_hand.Prelude.{
  ℕ, Bool, true, false, not, ◌&&◌, ◌||◌, none, List, [], ◌∷◌, ◌++◌, is_nil, Text, codes, text_eq,
  contains, Result, ok, ◌>>◌, raise_if, if◌then◌else◌,
}
use human_hand.Prelude.Int.{ℤ, pos, int_le}
use human_hand.Document.{
  ImportFinding, FindingSeverity, error, FindingCategory, active_content, external_relationship,
  revision, authorship, magic_mismatch, resource_limit,
}

pub record ImportPolicy : Type 0 where
  pub version : Text
  pub lane : Text
  pub max_bytes : ℤ
  pub max_expanded_bytes : ℤ
  pub max_nodes : ℤ
  pub max_depth : ℤ
  pub timeout_seconds : ℤ
  pub max_output_bytes : ℤ
  pub required_encoding : Text
  pub network_policy : Text
  pub revision_policy : Text
  pub retain_original : Bool

pub data PolicyError : Type 0 where
  unknown_lane unsupported_network unsupported_revision unsupported_encoding : PolicyError
  not_positive : (name : Text) → PolicyError
  expanded_below_bytes : PolicyError

unfoldable pub check_positive : (name : Text) → ℤ → Result PolicyError (Unit {0})
check_positive name value = raise_if (int_le value (pos 0)) (not_positive name)

unfoldable pub validate_policy : ImportPolicy → Result PolicyError (Unit {0})
validate_policy policy = do
  raise_if (not (contains policy.lane (codes "source" ∷ codes "style" ∷ []))) unknown_lane
  raise_if (not (text_eq policy.network_policy (codes "deny"))) unsupported_network
  raise_if (not (contains policy.revision_policy (codes "review_required" ∷ codes "reject" ∷ [])))
      unsupported_revision
  raise_if (not (contains policy.required_encoding (codes "utf-8" ∷ codes "ascii" ∷ [])))
      unsupported_encoding
  check_positive (codes "max_bytes") policy.max_bytes
  check_positive (codes "max_expanded_bytes") policy.max_expanded_bytes
  check_positive (codes "max_nodes") policy.max_nodes
  check_positive (codes "max_depth") policy.max_depth
  check_positive (codes "max_output_bytes") policy.max_output_bytes
  check_positive (codes "timeout_seconds") policy.timeout_seconds
  raise_if (not (int_le policy.max_bytes policy.max_expanded_bytes)) expanded_below_bytes

abbrev pub limit_finding : (code description evidence : Text) → ImportFinding
limit_finding code description evidence = record {
  code = code;
  severity = error;
  category = resource_limit;
  description = description;
  location = none;
  evidence = evidence;
}

module _ (decimal : ℤ → Text) where
  -- One of the four checks, with the words of its finding.
  unfoldable pub check_limit :
      (code before after label : Text) (value limit : ℤ) → List ImportFinding
  check_limit code before after label value limit =
      if int_le value limit
      then []
      else (limit_finding code (before ++ decimal value ++ after ++ decimal limit)
            (label ++ codes "=" ++ decimal value ++ codes " limit=" ++ decimal limit)
          ∷ [])

  unfoldable pub check_limits :
      ImportPolicy → (size_bytes expanded_bytes node_count depth : ℤ) → List ImportFinding
  check_limits policy size_bytes expanded_bytes node_count depth =
      check_limit (codes "import.limit.bytes") (codes "File size ") (codes " bytes exceeds limit ")
        (codes "size") size_bytes policy.max_bytes
      ++ (check_limit (codes "import.limit.expanded_bytes") (codes "Expanded size ")
            (codes " bytes exceeds limit ") (codes "expanded") expanded_bytes
            policy.max_expanded_bytes
          ++ (check_limit (codes "import.limit.nodes") (codes "Node count ")
                (codes " exceeds limit ") (codes "nodes") node_count policy.max_nodes
              ++ check_limit (codes "import.limit.depth") (codes "Tree depth ")
                  (codes " exceeds limit ") (codes "depth") depth policy.max_depth))

pub data ImportStatus : Type 0 where
  clean findings human_review_required quarantined unsupported_format failed : ImportStatus

unfoldable pub is_error : FindingSeverity → Bool
is_error error = true
is_error _ = false

unfoldable pub is_unsupported_format : ImportFinding → Bool
is_unsupported_format f = text_eq f.code (codes "import.unsupported.format")

unfoldable pub is_review_category : FindingCategory → Bool
is_review_category active_content = true
is_review_category external_relationship = true
is_review_category revision = true
is_review_category authorship = true
is_review_category _ = false

unfoldable pub needs_review : ImportFinding → Bool
needs_review f =
    is_review_category f.category
    || text_eq f.code (codes "import.structure.reading_order_unverified")

unfoldable pub is_magic_mismatch : FindingCategory → Bool
is_magic_mismatch magic_mismatch = true
is_magic_mismatch _ = false

-- The four flags of `classify_status`.
pub record Flags : Type 0 where
  pub has_unsupported_format : Bool
  pub has_review_required : Bool
  pub has_magic_mismatch : Bool
  pub has_other_error : Bool

-- One round of its loop.
unfoldable pub flag_step : Flags → ImportFinding → Flags
flag_step flags f =
    if not (is_error f.severity)
    then flags
    else if is_unsupported_format f
    then record flags { has_unsupported_format = true }
    else if needs_review f
    then record flags { has_review_required = true }
    else if is_magic_mismatch f.category
    then record flags { has_magic_mismatch = true }
    else record flags { has_other_error = true }

unfoldable pub flag_loop : Flags → List ImportFinding → Flags
unfolding flag_step
flag_loop flags [] = flags
flag_loop flags (f ∷ rest) = flag_loop (flag_step flags f) rest

unfoldable pub status_of_flags : Flags → (no_finding : Bool) → ImportStatus
status_of_flags flags no_finding =
    if flags.has_unsupported_format
    then unsupported_format
    else if flags.has_review_required
    then human_review_required
    else if flags.has_magic_mismatch
    then quarantined
    else if flags.has_other_error
    then failed
    else if no_finding
    then clean
    else findings

abbrev pub no_flags : Flags
no_flags = record {
  has_unsupported_format = false;
  has_review_required = false;
  has_magic_mismatch = false;
  has_other_error = false;
}

unfoldable pub classify_status : List ImportFinding → ImportStatus
classify_status all_findings =
    status_of_flags (flag_loop no_flags all_findings) (is_nil all_findings)
