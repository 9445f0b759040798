-- ===== src/Project/Grow.antt =====
-- A project that grows by documents, and its payload (project.py).
use human_hand.Prelude.{
  ◌≡◌, refl, ◌∙◌, ap, true, false, some, List, [], ◌∷◌, ◌++◌, arith, any, Text, text_eq,
  text_eq_refl, text_eq→eq, contains, are_distinct, ok, Bool-cases, inl, inr,
}
use human_hand.Prelude.Int.{ℤ, pos}
use human_hand.Json.{items, str, get, is_text, is_one, as_str, as_arr}
use human_hand.Claims.{CoverageStatus, known, unknown_coverage}
use human_hand.Project.{
  ProjectState, new_project_state, with_document, coverage_value, coverage_of, project_to_payload,
  expect_str, strings_of, project_from_payload,
}

-- `with_document` for each of some documents.
unfoldable pub with_documents : ProjectState → List Text → ProjectState
with_documents state [] = state
with_documents state (id ∷ ids) = with_documents (with_document state id) ids

strings_of-items : (ts : List Text) → strings_of (items str ts) ≡ some ts
unfolding strings_of items
strings_of-items [] = refl
strings_of-items (t ∷ ts) = rw (strings_of-items ts) refl

coverage_of-value : (c : CoverageStatus) → coverage_of (coverage_value c) ≡ some c
unfolding coverage_of coverage_value text_eq
coverage_of-value known = refl
coverage_of-value unknown_coverage = refl

project_from_payload-to_payload :
    (s : ProjectState)
    → s.schema_version ≡ pos 1
    → project_from_payload (project_to_payload s) ≡ ok s
unfolding project_from_payload project_to_payload expect_str get as_str as_arr is_text is_one
    text_eq
project_from_payload-to_payload s h =
    rw (h, strings_of-items s.document_ids, coverage_of-value s.coverage_status) refl

text_eq_sym : (a b : Text) → text_eq a b ≡ false → text_eq b a ≡ false
text_eq_sym a b h = elim (Bool-cases (text_eq b a)) [
  | inr e ↦ e
  | inl e ↦ let same : b ≡ a = text_eq→eq b a e in absurd (ground (arith, h, same, text_eq_refl a))
]

contains-snoc :
    (t : Text) (ids : List Text) (id : Text)
    → contains t ids ≡ false
    → text_eq t id ≡ false
    → text_eq id t ≡ false
    → contains t (ids ++ (id ∷ [])) ≡ false
unfolding contains any
contains-snoc t [] id h e f = ground arith
contains-snoc t (i ∷ ids) id h e f = ground (arith, contains-snoc t ids id)

contains-cons :
    (t i : Text) (ids : List Text)
    → contains t (i ∷ ids) ≡ false
    → (text_eq t i ≡ false) × (text_eq i t ≡ false) × (contains t ids ≡ false)
unfolding contains any
contains-cons t i ids h = ground (arith, text_eq_sym t i, text_eq_sym i t)

distinct-snoc :
    (ids : List Text) (id : Text)
    → are_distinct ids ≡ true
    → contains id ids ≡ false
    → are_distinct (ids ++ (id ∷ [])) ≡ true
unfolding are_distinct
distinct-snoc [] id h new = refl
distinct-snoc (i ∷ ids) id h new =
    let (differ, differ', later) = contains-cons id i ids new in
    rw
      (
        contains-snoc i ids id (ground (arith, h)) differ' differ,
        distinct-snoc ids id (ground (arith, h)) later,
      )
      refl

with_document-distinct :
    (s : ProjectState) (id : Text)
    → are_distinct s.document_ids ≡ true
    → are_distinct (with_document s id).document_ids ≡ true
unfolding with_document
with_document-distinct s id h = elim (Bool-cases (contains id s.document_ids)) [
  | inl e ↦ rw e h
  | inr e ↦ rw e (distinct-snoc s.document_ids id h e)
]

with_document_version :
    (s : ProjectState) (id : Text) → (with_document s id).schema_version ≡ s.schema_version
unfolding with_document
with_document_version s id = ground arith

with_documents-kept :
    (s : ProjectState) (ids : List Text)
    → are_distinct s.document_ids ≡ true
    → s.schema_version ≡ pos 1
    → (are_distinct (with_documents s ids).document_ids ≡ true)
      × ((with_documents s ids).schema_version ≡ pos 1)
unfolding with_documents
with_documents-kept s [] h v = (h, v)
with_documents-kept s (id ∷ ids) h v =
    with_documents-kept (with_document s id) ids (with_document-distinct s id h)
      (with_document_version s id ∙ v)

new_project_state_empty :
    (sha256 : Text → Text) (name root : Text) (version : ℤ) (s : ProjectState)
    → new_project_state sha256 name root version ≡ ok s
    → (s.document_ids ≡ []) × (s.schema_version ≡ pos 1)
unfolding new_project_state
new_project_state_empty sha256 name root version s h = (ground arith, ground arith)

-- A project from `new_project_state` that has been given documents, one after another, lists none of them
-- twice, and is read back from its payload unchanged.
pub new_project_state-project_from_payload :
    (sha256 : Text → Text) (name root : Text) (version : ℤ) (s : ProjectState) (ids : List Text)
    → new_project_state sha256 name root version ≡ ok s
    → (are_distinct (with_documents s ids).document_ids ≡ true)
      × (project_from_payload (project_to_payload (with_documents s ids))
          ≡ ok (with_documents s ids))
unfolding are_distinct
new_project_state-project_from_payload sha256 name root version s ids h =
    let (none_yet, version_one) = new_project_state_empty sha256 name root version s h in
    let (distinct, first) = with_documents-kept s ids (ap are_distinct none_yet) version_one in
    (distinct, project_from_payload-to_payload (with_documents s ids) first)
