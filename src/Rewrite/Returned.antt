-- ===== src/Rewrite/Returned.antt =====
-- What `rewrite` returns (services.py).
use human_hand.Prelude.{
  ◌<◌, true, ℕ, ◌+◌, ◌≤◌, ◌≡◌, refl, ap, ◌∙◌, Bool, false, some, arith, length, all, Text, Result,
  ok, err,
}
use human_hand.Rewrite.{
  FactDiffReport, ScrubReport, RewriteError, quality, source_too_long, style_too_long, source_empty,
  style_empty, finish, Accepted, RewriteResult, check_inputs, finished, rewrite,
}
use human_hand.Rewrite.Bounded.{rewrite-checked}
use human_hand.Rewrite.Outcome.{
  candidate_after, MayReturn, MustFail, AreRepaired, IsOutcome, repair_loop-IsOutcome,
}

module _ {Prompt : Type 0} (diff_facts : (source candidate : Text) → FactDiffReport)
    (audit_text : Text → ScrubReport)
    (build_repair_prompt : (source candidate : Text) → FactDiffReport → ℕ → Prompt)
    (llm : ℕ → Prompt → Text) (is_space : ℕ → Bool)
    (build_rewrite_prompt : (source style : Text) → Prompt) (write : Text → Text) where
  -- Both texts have at most `chars` characters, and one that is no space.
  abbrev pub AreUsable : (source style : Text) → (chars : ℕ) → Type 0
  AreUsable source style chars =
      (length source ≤ chars)
      × (length style ≤ chars)
      × (all is_space source ≡ false)
      × (all is_space style ≡ false)

  -- The first candidate of a run.
  abbrev pub first_candidate : (source style : Text) → Text
  first_candidate source style = llm 0 (build_rewrite_prompt source style)

  -- What a rewrite that stops at the n-th candidate ends with.
  abbrev pub IsRewritten :
      (source style : Text) → (chars max n : ℕ) → Result RewriteError RewriteResult → Type 0
  IsRewritten source style chars max n (err e) =
      (e ≡ quality n)
      × MustFail diff_facts audit_text build_repair_prompt llm source max n (
          candidate_after diff_facts audit_text build_repair_prompt llm source max
            (first_candidate source style) n)
  IsRewritten source style chars max n (ok r) =
      let candidate =
        candidate_after diff_facts audit_text build_repair_prompt llm source max
          (first_candidate source style) n in
      (r.output_path ≡ write candidate)
      × (r.input_chars ≡ length source + length style)
      × (r.output_chars ≡ length candidate)
      × (r.repair_attempts ≡ n)
      × (r.fact_diff ≡ diff_facts source candidate)
      × (r.preservation_score ≡ (diff_facts source candidate).preservation_score)
      × MayReturn diff_facts audit_text build_repair_prompt llm source max n candidate

  check_inputs-AreUsable :
      (source style : Text) (chars : ℕ)
      → AreUsable source style chars
      → check_inputs is_space source style chars ≡ ok tt
  unfolding check_inputs
  check_inputs-AreUsable source style chars (a, b, c, d) = ground (arith, a, b, c, d)

  finished-IsRewritten :
      (source style : Text) (chars max n : ℕ) (end : Result RewriteError Accepted)
      → IsOutcome diff_facts audit_text build_repair_prompt llm source max
          (first_candidate source style)
          n
          end
      → (result : Result RewriteError RewriteResult) × (finished write
            (length source + length style)
            (some end)
          ≡ some result)
        × IsRewritten source style chars max n result
  unfolding finished finish
  finished-IsRewritten source style chars max n (err e) outcome = (err e, refl, outcome)
  finished-IsRewritten source style chars max n (ok a) (same, attempts, diff, may) = (
    ok (finish write (length source + length style) a),
    refl,
    (
      ap write same,
      refl,
      ap length same,
      attempts,
      diff,
      ap (λ (d : FactDiffReport). d.preservation_score) diff,
      may,
    ),
  )

  -- The inputs for which a rewrite is refused with an error, by the first check that fails.
  abbrev pub IsRefused : (source style : Text) → (chars : ℕ) → RewriteError → Type 0
  IsRefused source style chars source_too_long = chars < length source
  IsRefused source style chars style_too_long = (length source ≤ chars) × (chars < length style)
  IsRefused source style chars source_empty =
      (length source ≤ chars) × (length style ≤ chars) × (all is_space source ≡ true)
  IsRefused source style chars style_empty =
      (length source ≤ chars)
      × (length style ≤ chars)
      × (all is_space source ≡ false)
      × (all is_space style ≡ true)
  IsRefused source style chars (quality n) = ⊥

  check_inputs-IsRefused :
      (source style : Text) (chars : ℕ) (e : RewriteError)
      → IsRefused source style chars e
      → check_inputs is_space source style chars ≡ err e
  unfolding check_inputs
  check_inputs-IsRefused source style chars source_too_long h = ground (arith, h)
  check_inputs-IsRefused source style chars style_too_long h = ground (arith, h)
  check_inputs-IsRefused source style chars source_empty h = ground (arith, h)
  check_inputs-IsRefused source style chars style_empty h = ground (arith, h)
  check_inputs-IsRefused source style chars (quality n) h = absurd h

  rewrite-refused :
      (source style : Text) (chars max : ℕ) (e : RewriteError)
      → check_inputs is_space source style chars ≡ err e
      → rewrite diff_facts audit_text build_repair_prompt llm is_space build_rewrite_prompt write
          source style chars max
        ≡ some (err e)
  unfolding rewrite
  rewrite-refused source style chars max e h = rw (h, rewrite)

  rewrite-usable :
      (source style : Text) (chars max : ℕ)
      → AreUsable source style chars
      → (n : ℕ) × (result : Result RewriteError RewriteResult) × (rewrite diff_facts audit_text
            build_repair_prompt llm is_space build_rewrite_prompt write source style chars max
          ≡ some result)
        × AreRepaired diff_facts audit_text build_repair_prompt llm source max
            (first_candidate source style)
            n
        × IsRewritten source style chars max n result
  rewrite-usable source style chars max usable =
      let (n, end, run, before, outcome) =
        repair_loop-IsOutcome diff_facts audit_text build_repair_prompt llm source max
          (first_candidate source style) in
      let (result, done, fine) = finished-IsRewritten source style chars max n end outcome in
      (
        n,
        result,
        rewrite-checked diff_facts audit_text build_repair_prompt llm is_space build_rewrite_prompt
              write source style chars max (check_inputs-AreUsable source style chars usable)
            ∙ ap (finished write (length source + length style)) run
            ∙ done,
        before,
        fine,
      )

  -- `rewrite` ends for all inputs, whatever the model answers. Source or style with more than `chars`
  -- characters, or with nothing but spaces, is refused with the error of the first check that fails. For
  -- other inputs it stops at the first candidate, each made from the one before it, that may be returned
  -- or must fail. One may be returned with fewer than `max` repairs, at most ten scrub modifications, and
  -- a fact diff that has a score of at least 0.85, no addition, no contradiction and at most one
  -- omission: the result is then written from it, with its length, its number of repairs, its diff
  -- against the source and the score of that diff. One must fail after `max` repairs or with more than
  -- ten modifications: the error then carries its number of repairs.
  pub rewrite-IsRewritten :
      (source style : Text) (chars max : ℕ)
      → ((e : RewriteError)
          → IsRefused source style chars e
          → rewrite diff_facts audit_text build_repair_prompt llm is_space build_rewrite_prompt
              write source style chars max
            ≡ some (err e))
        × (AreUsable source style chars
            → (n : ℕ) × (result : Result RewriteError RewriteResult) × (rewrite diff_facts
                  audit_text build_repair_prompt llm is_space build_rewrite_prompt write source
                  style chars max
                ≡ some result)
              × AreRepaired diff_facts audit_text build_repair_prompt llm source max
                  (first_candidate source style)
                  n
              × IsRewritten source style chars max n result)
  rewrite-IsRewritten source style chars max = (
    (λ e h.
        rewrite-refused source style chars max e (check_inputs-IsRefused source style chars e h)),
    rewrite-usable source style chars max,
  )
