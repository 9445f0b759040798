-- ===== src/Beacon/Flow.antt =====
-- The workflow of a trigger as a relation (`_TRIGGER_FLOW` of beacon_types.py).
use human_hand.Prelude.{◌≡◌, subst, ℕ, suc, ◌≤◌, ◌<◌, arith, ok, ◌⊎◌, inl, inr}
use human_hand.Beacon.{
  BeaconStatus, observed, triaged, researched, verified, proposed, policy_reviewed, approved,
  denied, quarantined, validated, release_approved, trigger_flow_next,
}

-- A status reached from another by steps of the workflow.
pub data Reaches : BeaconStatus → BeaconStatus → Type 0 where
  here : {s : BeaconStatus} → Reaches s s
  step : {s t u : BeaconStatus} → trigger_flow_next s ≡ ok t → Reaches t u → Reaches s u

≤-cases : (a b : ℕ) → (a ≤ b) ⊎ (b < a)
≤-cases a b = ground arith

-- How far a status stands from the start; a denied proposal stands nowhere.
abbrev pub rank : BeaconStatus → ℕ
rank observed = 0
rank triaged = 1
rank researched = 2
rank verified = 3
rank proposed = 4
rank policy_reviewed = 5
rank approved = 6
rank quarantined = 7
rank validated = 8
rank release_approved = 9
rank denied = 10

next-rank : (s t : BeaconStatus) → trigger_flow_next s ≡ ok t → rank t ≡ suc (rank s)
unfolding trigger_flow_next
next-rank s t h = ground arith

sixth : (s : BeaconStatus) → rank s ≡ 6 → s ≡ approved
sixth s h = ground arith

-- By the order of the workflow, a status at or behind `approved` is reached from one at or before it
-- only through `approved` itself.
pub Reaches-approved :
    (s t : BeaconStatus)
    → rank s ≤ 6
    → 6 ≤ rank t
    → Reaches s t
    → Reaches s approved × Reaches approved t
Reaches-approved s t low high here =
    let same = sixth s (omega arith) in
    (subst (Reaches s) same here, subst (λ x. Reaches x s) same here)
Reaches-approved s t low high (step {t = m} e r) =
    let next = next-rank s m e in
    elim (≤-cases (rank m) 6) [
      | inl early ↦
          let (before, after) = Reaches-approved m t early high r in (step e before, after)
      | inr late ↦
          let same = sixth s (omega arith) in
          (subst (Reaches s) same here, subst (λ x. Reaches x t) same (step e r))
    ]
