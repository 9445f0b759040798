-- ===== src/Rewrite/Outcome.antt =====
-- Which candidate the repair loop of `rewrite` ends with (services.py, repair.py).
use human_hand.Prelude.{
  ℕ, zero, suc, ◌+◌, ◌≤◌, ◌<◌, ◌≡◌, refl, subst, ap, ◌∙◌, some, arith, Text, Result, ok, err, inl,
  inr, ◌⊎◌, ltb, Bool-cases,
}
use human_hand.Rewrite.{
  FactDiffReport, ScrubReport, accept, repair, fail, has_drift, decide_repair, RewriteError,
  quality, Accepted, decision_for, repaired, repair_loop,
}
use human_hand.Rewrite.Bounded.{
  IsPreserving, decision-cases, decide_repair-IsPreserving, decide_repair-early, loop-accept,
  loop-fail, loop-repair,
}

decide_repair-accept :
    (diff : FactDiffReport) (scrub : ScrubReport) (attempt max_attempts threshold : ℕ)
    → attempt < max_attempts
    → scrub.modifications ≤ 10
    → IsPreserving diff threshold
    → decide_repair diff scrub attempt max_attempts threshold ≡ accept
unfolding decide_repair has_drift
decide_repair-accept diff scrub attempt max_attempts threshold early clean p =
    ground (arith, early, clean, p.score, p.no_additions, p.no_contradictions, p.few_omissions)

decide_repair-fail :
    (diff : FactDiffReport) (scrub : ScrubReport) (attempt max_attempts threshold : ℕ)
    → ((max_attempts ≤ attempt) ⊎ (10 < scrub.modifications))
    → decide_repair diff scrub attempt max_attempts threshold ≡ fail
unfolding decide_repair
decide_repair-fail diff scrub attempt max_attempts threshold h = ground (arith, h)

decide_repair-fail_inv :
    (diff : FactDiffReport) (scrub : ScrubReport) (attempt max_attempts threshold : ℕ)
    → decide_repair diff scrub attempt max_attempts threshold ≡ fail
    → (max_attempts ≤ attempt) ⊎ (10 < scrub.modifications)
unfolding decide_repair
decide_repair-fail_inv diff scrub attempt max_attempts threshold h = ground (arith, h)

module _ {Prompt : Type 0} (diff_facts : (source candidate : Text) → FactDiffReport)
    (audit_text : Text → ScrubReport)
    (build_repair_prompt : (source candidate : Text) → FactDiffReport → ℕ → Prompt)
    (llm : ℕ → Prompt → Text) (source : Text) (max : ℕ) where
  -- The answer of the model to the n-th repair prompt, where every candidate before it is repaired.
  unfoldable pub candidate_after : (first : Text) → ℕ → Text
  candidate_after first zero = first
  candidate_after first (suc n) =
      repaired diff_facts audit_text build_repair_prompt llm source (n + 1)
        (candidate_after first n)

  -- The n-th candidate may be returned: another repair would be allowed, the audit makes at most ten
  -- modifications, and the diff has a score of 0.85, no addition, no contradiction and at most one
  -- omission.
  abbrev pub MayReturn : ℕ → Text → Type 0
  MayReturn n candidate =
      (n < max)
      × ((audit_text candidate).modifications ≤ 10)
      × IsPreserving (diff_facts source candidate) 850000

  -- The n-th candidate ends the loop with an error.
  abbrev pub MustFail : ℕ → Text → Type 0
  MustFail n candidate = (max ≤ n) ⊎ (10 < (audit_text candidate).modifications)

  -- The candidates before the n-th neither may be returned nor end the loop with an error.
  abbrev pub AreRepaired : (first : Text) → ℕ → Type 0
  AreRepaired first n =
      (i : ℕ)
      → i < n
      → ¬ MayReturn i (candidate_after first i) × ¬ MustFail i (candidate_after first i)

  -- What a run that stops at the n-th candidate ends with.
  abbrev pub IsOutcome : (first : Text) → ℕ → Result RewriteError Accepted → Type 0
  IsOutcome first n (err e) = (e ≡ quality n) × MustFail n (candidate_after first n)
  IsOutcome first n (ok a) =
      (a.candidate ≡ candidate_after first n)
      × (a.repair_attempts ≡ n)
      × (a.fact_diff ≡ diff_facts source (candidate_after first n))
      × MayReturn n (candidate_after first n)

  not_stopped :
      (n : ℕ) (candidate : Text)
      → decision_for diff_facts audit_text build_repair_prompt llm source max n candidate ≡ repair
      → ¬ MayReturn n candidate × ¬ MustFail n candidate
  unfolding decision_for
  not_stopped n candidate e = (
    (λ (early, clean, good).
        let accepted =
          decide_repair-accept (diff_facts source candidate) (audit_text candidate) n max 850000
            early clean good in
        absurd (ground (arith, accepted))),
    (λ h.
        let failed =
          decide_repair-fail (diff_facts source candidate) (audit_text candidate) n max 850000 h in
        absurd (ground (arith, failed))),
  )

  repaired_too :
      (first : Text) (n : ℕ)
      → AreRepaired first n
      → ¬ MayReturn n (candidate_after first n) × ¬ MustFail n (candidate_after first n)
      → AreRepaired first (suc n)
  repaired_too first n before now = λ i h. elim (Bool-cases (ltb i n)) [
    | inl e ↦ before i (ground arith)
    | inr e ↦
        let same : n ≡ i = ground arith in
        subst
          (λ k. ¬ MayReturn k (candidate_after first k) × ¬ MustFail k (candidate_after first k))
          same now
  ]

  loop-IsOutcome :
      (first : Text) (fuel n : ℕ)
      → n ≤ max
      → max < n + fuel
      → AreRepaired first n
      → (m : ℕ) × (end : Result RewriteError Accepted) × (repair_loop diff_facts audit_text
            build_repair_prompt llm source max fuel n
            (candidate_after first n)
          ≡ some end)
        × AreRepaired first m
        × IsOutcome first m end
  unfolding decision_for candidate_after
  loop-IsOutcome first zero n low enough before = absurd (omega arith)
  loop-IsOutcome first (suc fuel) n low enough before =
      let candidate = candidate_after first n in
      let diff = diff_facts source candidate in
      let scrub = audit_text candidate in
      elim (decision-cases
        (decision_for diff_facts audit_text build_repair_prompt llm source max n candidate)) [
          | inl e ↦ (
            n,
            ok (record { candidate = candidate; repair_attempts = n; fact_diff = diff }),
            loop-accept diff_facts audit_text build_repair_prompt llm source max fuel n candidate e,
            before,
            (refl, refl, refl, decide_repair-IsPreserving diff scrub n max 850000 e),
          )
          | inr (inl e) ↦ (
            n,
            err (quality n),
            loop-fail diff_facts audit_text build_repair_prompt llm source max fuel n candidate e,
            before,
            (refl, decide_repair-fail_inv diff scrub n max 850000 e),
          )
          | inr (inr e) ↦
              let next : n + 1 ≡ suc n = omega arith in
              let early = decide_repair-early diff scrub n max 850000 e in
              let (m, end, run, earlier, outcome) =
                loop-IsOutcome first fuel (suc n) (omega (arith, early)) (omega (arith, enough))
                  (repaired_too first n before (not_stopped n candidate e)) in
              (
                m,
                end,
                loop-repair diff_facts audit_text build_repair_prompt llm source max fuel n
                      candidate e
                    ∙ ap
                        (λ k.
                          repair_loop diff_facts audit_text build_repair_prompt llm source max fuel
                            k (candidate_after first (suc n)))
                        next
                    ∙ run,
                earlier,
                outcome,
              )
        ]

  -- With fuel for one evaluation more than `max` the repair loop ends, whatever the model answers, at the
  -- first of its candidates, made one from the other, that may be returned or must fail. It may be
  -- returned with fewer than `max` repairs, at most ten scrub modifications and a diff of a score of
  -- 0.85 or more that adds and contradicts nothing and omits one fact at most; it must fail after `max`
  -- repairs or with more than ten modifications. The loop answers with that candidate, the number of its
  -- repairs and its diff, or with the error that carries that number.
  pub repair_loop-IsOutcome :
      (first : Text)
      → (n : ℕ) × (end : Result RewriteError Accepted) × (repair_loop diff_facts audit_text
            build_repair_prompt llm source max
            (suc max)
            0
            first
          ≡ some end)
        × AreRepaired first n
        × IsOutcome first n end
  unfolding candidate_after
  repair_loop-IsOutcome first =
      loop-IsOutcome first (suc max) 0 (omega arith) (omega arith)
        (λ i h. absurd (omega (arith, h)))
