-- ===== src/Lexical/Inflection.antt =====
-- src/humanhand/domain/inflection.py.
use human_hand.Prelude.{
  ◌-◌, not, ◌&&◌, ◌||◌, Option, none, some, [], ◌∷◌, ◌++◌, all, select, take, drop, length, is_nil,
  Text, codes, text_eq, ends_with, if◌then◌else◌,
}
use human_hand.Lexical.Words.{Chars}

pub data CaseClass : Type 0 where
  all_caps title_case other : CaseClass

module _ (chars : Chars) where
  -- `_case_class`, given the characters that have a case.
  unfoldable pub class_of_cased : (cased : Text) → CaseClass
  class_of_cased [] = other
  class_of_cased (first ∷ rest) =
      if all chars.is_upper (first ∷ rest)
      then all_caps
      else if chars.is_upper first && all chars.is_lower rest
      then title_case
      else other

  unfoldable pub case_class : (source_surface : Text) → CaseClass
  unfolding class_of_cased
  case_class source_surface =
      class_of_cased (select (λ c. chars.is_upper c || chars.is_lower c) source_surface)

  unfoldable pub apply_case : (source_surface candidate : Text) → Text
  apply_case source_surface candidate = elim (case_class source_surface) [
    | all_caps ↦ chars.upper candidate
    | title_case ↦ chars.upper (take 1 candidate) ++ drop 1 candidate
    | other ↦ candidate
  ]

  unfoldable pub inflected_form : (source_surface source_lemma target_lemma : Text) → Option Text
  inflected_form source_surface source_lemma target_lemma =
      let surface_lower = chars.lower source_surface in
      let lemma_lower = chars.lower source_lemma in
      let silent_e = ends_with (codes "e") (chars.lower target_lemma) in
      if text_eq surface_lower lemma_lower
      then some target_lemma
      else if ends_with (codes "ing") surface_lower && not (ends_with (codes "ing") lemma_lower)
      then some (
          (if silent_e then take (length target_lemma - 1) target_lemma else target_lemma)
          ++ codes "ing")
      else if ends_with (codes "ed") surface_lower && not (ends_with (codes "ed") lemma_lower)
      then some (target_lemma ++ (if silent_e then codes "d" else codes "ed"))
      else none

  unfoldable pub inflect_target : (source_surface source_lemma target_lemma : Text) → Option Text
  inflect_target source_surface source_lemma target_lemma =
      if is_nil source_surface || is_nil source_lemma || is_nil target_lemma
      then none
      else elim (inflected_form source_surface source_lemma target_lemma) [
        | none ↦ none
        | some inflected ↦ some (apply_case source_surface inflected)
      ]

  -- The tag of a recognised inflection.
  unfoldable pub decline_inflection : (source_surface : Text) → Option Text
  decline_inflection source_surface =
      if is_nil source_surface then none else elim (case_class source_surface) [
        | all_caps ↦ some (codes "all_caps")
        | title_case ↦ some (codes "title_case")
        | other ↦
            if ends_with (codes "ing") (chars.lower source_surface)
            then some (codes "ing")
            else if ends_with (codes "ed") (chars.lower source_surface)
            then some (codes "ed")
            else none
      ]
