-- ===== src/Project/Tests.antt =====
-- A project of two documents, one of them given twice (project.py).
use human_hand.Prelude.{
  ◌≡◌, refl, true, List, [], ◌∷◌, Text, codes, ok, are_distinct, contains, text_eq,
}
use human_hand.Prelude.Int.{pos}
use human_hand.Claims.{unknown_coverage}
use human_hand.Project.{
  ProjectState, derive_project_id, new_project_state, with_document, project_to_payload,
  project_from_payload,
}
use human_hand.Project.Grow.{with_documents, new_project_state-project_from_payload}

abbrev digest : Text → Text
digest t = t

abbrev empty_project : ProjectState
empty_project = record {
  project_id = derive_project_id digest (codes "p") (codes "/p");
  name = codes "p";
  root = codes "/p";
  schema_version = pos 1;
  document_ids = [];
  coverage_status = unknown_coverage;
  style_profile_label = [];
}

created : new_project_state digest (codes "p") (codes "/p") (pos 1) ≡ ok empty_project
unfolding new_project_state
created = refl

abbrev given : List Text
given = codes "a" ∷ codes "b" ∷ codes "a" ∷ []

listed_once : (with_documents empty_project given).document_ids ≡ codes "a" ∷ codes "b" ∷ []
unfolding with_documents with_document contains text_eq
listed_once = refl

new_project_state-project_from_payload_example :
    (are_distinct (with_documents empty_project given).document_ids ≡ true)
    × (project_from_payload (project_to_payload (with_documents empty_project given))
        ≡ ok (with_documents empty_project given))
new_project_state-project_from_payload_example =
    new_project_state-project_from_payload digest (codes "p") (codes "/p") (pos 1) empty_project
      given created
