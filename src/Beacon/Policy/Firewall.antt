-- ===== src/Beacon/Policy/Firewall.antt =====
-- The decisions and the resources of the policy firewall (beacon_policy.py).
use human_hand.Prelude.{
  ◌≡◌, ◌↔◌, ℕ, Bool, true, false, arith, List, [], ◌∷◌, is_nil, Text, codes, contains, All, ok,
  Result-cases, Option-cases, inl, inr, subst,
}
use human_hand.Json.{Value, Fields, end, field, get, as_obj}
use human_hand.Beacon.{is_blank}
use human_hand.Beacon.Policy.{
  policy_decision_for_category, entry_description, descriptions, resource_descriptions,
}

-- A category is allowed just when the allowed set has it and the blocked set has it not: an action in
-- both sets, and one in neither, is blocked.
policy_decision-allow :
    (repr : Text → Text) (category : Text) (allowed_actions blocked_actions : List Text)
    → ((policy_decision_for_category repr category allowed_actions blocked_actions).decision
        ≡ codes "allow")
      ↔ ((contains category allowed_actions ≡ true) × (contains category blocked_actions ≡ false))
unfolding policy_decision_for_category
policy_decision-allow repr category allowed_actions blocked_actions = ground arith

module _ (is_space : ℕ → Bool) where
  abbrev pub IsCurated : (Text × Text) → Type 0
  IsCurated (entry_name, description) =
      (is_nil entry_name ≡ false) × (is_blank is_space description ≡ false)

  entry-IsCurated :
      (entry_name : Text) (value : Value) (description : Text)
      → entry_description is_space entry_name value ≡ ok description
      → IsCurated (entry_name, description)
  unfolding entry_description
  entry-IsCurated entry_name value description h = (ground arith, ground arith)

  descriptions-IsCurated :
      (raw : Fields) (found : List (Text × Text))
      → descriptions is_space raw ≡ ok found
      → All IsCurated found
  unfolding descriptions
  descriptions-IsCurated end found h =
      let same : [] ≡ found = ground arith in subst (All IsCurated) same tt
  descriptions-IsCurated (field name value rest) found h =
      elim (Result-cases (entry_description is_space name value)) [
        | inr (e, d) ↦ absurd (ground arith)
        | inl (description, d) ↦ elim (Result-cases (descriptions is_space rest)) [
          | inr (e, o) ↦ absurd (ground arith)
          | inl (others, o) ↦
              let same : (name, description) ∷ others ≡ found = ground arith in
              subst (All IsCurated) same
                (entry-IsCurated name value description d, descriptions-IsCurated rest others o)
        ]
      ]

  -- Every entry that a policy resource is read to has a name that is not empty and a description that
  -- is not blank.
  pub resource_descriptions-IsCurated :
      (resource : Fields) (section schema : Text) (found : List (Text × Text))
      → resource_descriptions is_space resource section schema ≡ ok found
      → All IsCurated found
  unfolding resource_descriptions
  resource_descriptions-IsCurated resource section schema found h =
      elim (Option-cases (as_obj (get section resource))) [
        | inr missing ↦ absurd (ground arith)
        | inl (raw, o) ↦ descriptions-IsCurated raw found (ground arith)
      ]
