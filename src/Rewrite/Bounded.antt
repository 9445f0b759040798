-- ===== src/Rewrite/Bounded.antt =====
-- The decisions of the repair loop of `rewrite`, and one round of it (services.py, repair.py).
use human_hand.Prelude.{
  ℕ, suc, ◌+◌, ◌≤◌, ◌<◌, ◌≡◌, refl, Bool, Option, some, [], arith, length, Text, Result, ok, err,
  inl, inr, ◌⊎◌,
}
use human_hand.Rewrite.{
  FactDiffReport, ScrubReport, RepairDecision, accept, repair, fail, has_drift, decide_repair,
  RewriteError, quality, Accepted, decision_for, repaired, repair_loop, check_inputs, finished,
  rewrite,
}

-- A diff that may be accepted: the score is reached, nothing is added or contradicted, and one fact at
-- most is omitted.
pub record IsPreserving (diff : FactDiffReport) (threshold : ℕ) : Type 0 where
  pub score : threshold ≤ diff.preservation_score
  pub no_additions : diff.additions ≡ []
  pub no_contradictions : diff.contradictions ≡ []
  pub few_omissions : length diff.omissions ≤ 1

pub decision-cases : (d : RepairDecision) → (d ≡ accept) ⊎ ((d ≡ fail) ⊎ (d ≡ repair))
decision-cases accept = inl refl
decision-cases fail = inr (inl refl)
decision-cases repair = inr (inr refl)

-- A candidate is accepted only with fewer attempts than the maximum, at most ten scrub modifications,
-- and a diff that reaches the threshold, adds and contradicts nothing, and omits one fact at most.
pub decide_repair-IsPreserving :
    (diff : FactDiffReport) (scrub : ScrubReport) (attempt max_attempts threshold : ℕ)
    → decide_repair diff scrub attempt max_attempts threshold ≡ accept
    → (attempt < max_attempts) × (scrub.modifications ≤ 10) × IsPreserving diff threshold
unfolding decide_repair has_drift
decide_repair-IsPreserving diff scrub attempt max_attempts threshold h = (
  ground arith,
  ground arith,
  record {
    score = ground arith;
    no_additions = ground arith;
    no_contradictions = ground arith;
    few_omissions = ground arith;
  },
)

pub decide_repair-early :
    (diff : FactDiffReport) (scrub : ScrubReport) (attempt max_attempts threshold : ℕ)
    → decide_repair diff scrub attempt max_attempts threshold ≡ repair
    → attempt < max_attempts
unfolding decide_repair
decide_repair-early diff scrub attempt max_attempts threshold h = ground arith

module _ {Prompt : Type 0} (diff_facts : (source candidate : Text) → FactDiffReport)
    (audit_text : Text → ScrubReport)
    (build_repair_prompt : (source candidate : Text) → FactDiffReport → ℕ → Prompt)
    (llm : ℕ → Prompt → Text) where
  abbrev decided : (source : Text) → (max attempts : ℕ) → Text → RepairDecision
  decided = decision_for diff_facts audit_text build_repair_prompt llm

  abbrev loop :
      (source : Text) → (max fuel attempts : ℕ) → Text → Option (Result RewriteError Accepted)
  loop = repair_loop diff_facts audit_text build_repair_prompt llm

  pub loop-accept :
      (source : Text) (max fuel attempts : ℕ) (candidate : Text)
      → decided source max attempts candidate ≡ accept
      → loop source max (suc fuel) attempts candidate
        ≡ some (
            ok (record {
              candidate = candidate;
              repair_attempts = attempts;
              fact_diff = diff_facts source candidate;
            }))
  unfolding repair_loop
  loop-accept source max fuel attempts candidate e = rw (e, repair_loop)

  pub loop-fail :
      (source : Text) (max fuel attempts : ℕ) (candidate : Text)
      → decided source max attempts candidate ≡ fail
      → loop source max (suc fuel) attempts candidate ≡ some (err (quality attempts))
  unfolding repair_loop
  loop-fail source max fuel attempts candidate e = rw (e, repair_loop)

  abbrev next : (source : Text) → (attempts : ℕ) → Text → Text
  next = repaired diff_facts audit_text build_repair_prompt llm

  pub loop-repair :
      (source : Text) (max fuel attempts : ℕ) (candidate : Text)
      → decided source max attempts candidate ≡ repair
      → loop source max (suc fuel) attempts candidate
        ≡ loop source max fuel (attempts + 1) (next source (attempts + 1) candidate)
  unfolding repair_loop
  loop-repair source max fuel attempts candidate e = rw (e, repair_loop)

  pub rewrite-checked :
      (is_space : ℕ → Bool) (first : (source style : Text) → Prompt) (write : Text → Text)
      (source style : Text) (chars max : ℕ)
      → check_inputs is_space source style chars ≡ ok tt
      → rewrite diff_facts audit_text build_repair_prompt llm is_space first write source style
          chars max
        ≡ finished write
            (length source + length style)
            (loop source max (suc max) 0 (llm 0 (first source style)))
  unfolding rewrite
  rewrite-checked is_space first write source style chars max e = rw (e, rewrite)
