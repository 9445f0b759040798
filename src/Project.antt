-- ===== src/Project.antt =====
-- The state of a project: src/humanhand/domain/project.py. `sha256` is the hexadecimal digest of a text
-- in UTF-8. The error carries the key it is about.
pub mod Grow
mod Tests
use human_hand.Prelude.{
  ℕ, ◌+◌, Bool, true, false, not, Option, none, some, List, [], ◌∷◌, ◌++◌, length, take, Text,
  codes, text_eq, contains, Result, ok, err, ◌>>=◌, ◌>>◌, raise_if, or_raise, if◌then◌else◌,
}
use human_hand.Prelude.Int.{ℤ, pos, int_eq}
use human_hand.Json.{
  Value, int, str, arr, Items, nil, cons, Fields, end, field, items, get, is_text, is_one, as_str,
  as_arr,
}
use human_hand.Claims.{CoverageStatus, known, unknown_coverage}

pub record ProjectState : Type 0 where
  pub project_id : Text
  pub name : Text
  pub root : Text
  pub schema_version : ℤ
  pub document_ids : List Text
  pub coverage_status : CoverageStatus
  pub style_profile_label : Text

pub data ProjectError : Type 0 where
  unsupported_version : ProjectError
  invalid : (key : Text) → ProjectError

unfoldable pub derive_project_id : (sha256 : Text → Text) → (name root : Text) → Text
derive_project_id sha256 name root = codes "proj-" ++ take 24 (sha256 (name ++ (0 ∷ root)))

unfoldable pub new_project_state :
    (sha256 : Text → Text)
    → (name root : Text) (schema_version : ℤ) → Result ProjectError ProjectState
new_project_state sha256 name root schema_version = do
  raise_if (not (int_eq schema_version (pos 1))) unsupported_version
  ok (record {
    project_id = derive_project_id sha256 name root;
    name = name;
    root = root;
    schema_version = pos 1;
    document_ids = [];
    coverage_status = unknown_coverage;
    style_profile_label = [];
  })

unfoldable pub with_document : ProjectState → (document_id : Text) → ProjectState
with_document state document_id =
    if contains document_id state.document_ids
    then state
    else record state { document_ids = state.document_ids ++ (document_id ∷ []) }

-- `coverage_status.value`
unfoldable pub coverage_value : CoverageStatus → Text
coverage_value known = codes "known"
coverage_value unknown_coverage = codes "unknown_coverage"

-- `CoverageStatus(raw)`
unfoldable pub coverage_of : Text → Option CoverageStatus
coverage_of raw =
    if text_eq raw (codes "known")
    then some known
    else if text_eq raw (codes "unknown_coverage")
    then some unknown_coverage
    else none

unfoldable pub project_to_payload : ProjectState → Fields
project_to_payload state = field (codes "schema") (str (codes "project")) (
    field (codes "schema_version") (int state.schema_version) (
      field (codes "project_id") (str state.project_id) (
        field (codes "name") (str state.name) (
          field (codes "root") (str state.root) (
            field (codes "document_ids") (arr (items str state.document_ids)) (
              field (codes "coverage_status") (str (coverage_value state.coverage_status))
                (field (codes "style_profile_label") (str state.style_profile_label) end)))))))

unfoldable pub expect_str : Fields → (key : Text) → Result ProjectError Text
expect_str payload key = or_raise (as_str (get key payload)) (invalid key)

-- The elements of a list, if all are strings.
unfoldable pub strings_of : Items → Option (List Text)
strings_of nil = some []
strings_of (cons (str t) rest) = elim (strings_of rest) [ none ↦ none | some ts ↦ some (t ∷ ts) ]
strings_of (cons _ rest) = none

unfoldable pub project_from_payload : Fields → Result ProjectError ProjectState
project_from_payload payload = do
  raise_if (not (is_text (codes "project") (get (codes "schema") payload)))
      (invalid (codes "schema"))
  raise_if (not (is_one (get (codes "schema_version") payload))) unsupported_version
  project_id ← expect_str payload (codes "project_id")
  name ← expect_str payload (codes "name")
  root ← expect_str payload (codes "root")
  raw_document_ids ←
      or_raise (as_arr (get (codes "document_ids") payload)) (invalid (codes "document_ids"))
  document_ids ← or_raise (strings_of raw_document_ids) (invalid (codes "document_ids"))
  raw_coverage ← expect_str payload (codes "coverage_status")
  coverage_status ← or_raise (coverage_of raw_coverage) (invalid (codes "coverage_status"))
  style_profile_label ← expect_str payload (codes "style_profile_label")
  ok (record {
    project_id = project_id;
    name = name;
    root = root;
    schema_version = pos 1;
    document_ids = document_ids;
    coverage_status = coverage_status;
    style_profile_label = style_profile_label;
  })
