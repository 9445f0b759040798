-- ===== src/Beacon/Proposal/Sources.antt =====
-- The evidence gate of `create_proposal` (beacon_proposals.py), against its rule in words.
use human_hand.Prelude.{
  ◌≡◌, subst, ℕ, ◌≤◌, Bool, true, false, arith, List, [], ◌∷◌, map, length, any, select, Text,
  text_eq, text_eq_refl, contains, ◌⊎◌, inl, inr, Bool-cases, ok,
}
use human_hand.Beacon.{BeaconTrigger}
use human_hand.Beacon.Evidence.{
  BeaconEvidence, distinct, is_tier_1, is_tier_2_or_3, high_impact_sufficient,
}
use human_hand.Beacon.Proposal.{ProposalKind, BeaconProposal, create_proposal}

abbrev HasTwo : List Text → Type 0
HasTwo xs =
    (x : Text) × (y : Text) × (contains x xs ≡ true)
    × (contains y xs ≡ true)
    × (text_eq x y ≡ false)

contains_later : (x y : Text) (xs : List Text) → contains x xs ≡ true → contains x (y ∷ xs) ≡ true
unfolding contains any
contains_later x y xs h = ground arith

contains_first : (x : Text) (xs : List Text) → contains x (x ∷ xs) ≡ true
unfolding contains any
contains_first x xs = rw (text_eq_refl x)

differs_first : (x y : Text) (xs : List Text) → contains x (y ∷ xs) ≡ false → text_eq x y ≡ false
unfolding contains any
differs_first x y xs h = ground arith

distinct-seen : (x : Text) (xs : List Text) → contains x xs ≡ true → distinct (x ∷ xs) ≡ distinct xs
unfolding distinct
distinct-seen x xs h = rw h

distinct-HasTwo : (xs : List Text) → 2 ≤ length (distinct xs) → HasTwo xs
unfolding distinct contains any
distinct-HasTwo [] h = absurd (omega arith)
distinct-HasTwo (x ∷ []) h = absurd (ground arith)
distinct-HasTwo (x ∷ y ∷ xs) h = elim (Bool-cases (contains x (y ∷ xs))) [
  | inr new ↦ (
    x,
    y,
    contains_first x (y ∷ xs),
    contains_later y x (y ∷ xs) (contains_first y xs),
    differs_first x y xs new,
  )
  | inl seen ↦
      let more : 2 ≤ length (distinct (y ∷ xs)) =
        subst (λ ds. 2 ≤ length ds) (distinct-seen x (y ∷ xs) seen) h in
      let (a, b, ha, hb, d) = distinct-HasTwo (y ∷ xs) more in
      (a, b, contains_later a x (y ∷ xs) ha, contains_later b x (y ∷ xs) hb, d)
]

-- The addresses of the second and third tier.
abbrev pub urls : List BeaconEvidence → List Text
urls evidence = map (λ e. e.url) (select (λ e. is_tier_2_or_3 e.tier) evidence)

module _ (is_space : ℕ → Bool) (sha256 : Text → Text) where
  -- A high-impact proposal is only made from evidence with a source of the first tier, or with two
  -- sources of the second or third tier whose addresses differ.
  pub create_proposal-sources :
      (trigger : BeaconTrigger) (kind : ProposalKind) (summary : Text)
      (evidence : List BeaconEvidence) (p : BeaconProposal)
      → create_proposal is_space sha256 trigger kind summary evidence true ≡ ok p
      → (any (λ e. is_tier_1 e.tier) evidence ≡ true)
        ⊎ ((x : Text) × (y : Text) × (contains x (urls evidence) ≡ true)
            × (contains y (urls evidence) ≡ true)
            × (text_eq x y ≡ false))
  unfolding create_proposal high_impact_sufficient
  create_proposal-sources trigger kind summary evidence p h =
      elim (Bool-cases (any (λ e. is_tier_1 e.tier) evidence)) [
        | inl first ↦ inl first
        | inr none ↦ inr (distinct-HasTwo (urls evidence) (ground arith))
      ]
