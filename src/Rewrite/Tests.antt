-- ===== src/Rewrite/Tests.antt =====
-- A concrete run of the repair loop: the first candidate adds a fact, the repaired one is accepted.
use human_hand.Prelude.{
  err, all, arith, Bool, ◌==◌, ℕ, suc, ◌≡◌, refl, ltb, if◌then◌else◌, List, [], ◌∷◌, length, Text,
  codes, Result, some,
}
use human_hand.Rewrite.{
  FactAnchor, FactDiffReport, ScrubReport, accept, default_preservation_threshold, has_drift,
  decide_repair, RewriteError, Accepted, RewriteResult, repair_loop, rewrite,
}
use human_hand.Rewrite.Outcome.{AreRepaired, IsOutcome, repair_loop-IsOutcome}
use human_hand.Rewrite.Returned.{
  AreUsable, IsRefused, first_candidate, IsRewritten, rewrite-IsRewritten,
}

abbrev anchor : FactAnchor
anchor = record { text = codes "7"; category = codes "number"; position = 0 }

abbrev report : List FactAnchor → FactDiffReport
report additions = record {
  omissions = [];
  additions = additions;
  contradictions = [];
  preservation_score = 1000000;
  total_source_anchors = 1;
  total_candidate_anchors = 1;
}

-- A candidate of more than three characters adds a fact.
abbrev diff : (source candidate : Text) → FactDiffReport
diff source candidate = report (if ltb 3 (length candidate) then anchor ∷ [] else [])

abbrev audit : Text → ScrubReport
audit t = record { cleaned_text = t; modifications = 0 }

abbrev prompt : (source candidate : Text) → FactDiffReport → ℕ → Text
prompt source candidate report n = source

abbrev answer : ℕ → Text → Text
answer n t = codes "a 7"

accepted : decide_repair (report []) (audit []) 1 3 default_preservation_threshold ≡ accept
unfolding decide_repair has_drift
accepted = refl

repair_loop-IsOutcome_example :
    (n : ℕ) × (end : Result RewriteError Accepted) × (repair_loop diff audit prompt answer
        (codes "7")
        3
        (suc 3)
        0
        (codes "a 7 9")
      ≡ some end)
    × AreRepaired diff audit prompt answer (codes "7") 3 (codes "a 7 9") n
    × IsOutcome diff audit prompt answer (codes "7") 3 (codes "a 7 9") n end
repair_loop-IsOutcome_example =
    repair_loop-IsOutcome diff audit prompt answer (codes "7") 3 (codes "a 7 9")

abbrev space : ℕ → Bool
space c = c == 32

abbrev first_prompt : (source style : Text) → Text
first_prompt source style = style

abbrev write : Text → Text
write t = codes "out.md"

rewrite-IsRewritten_example :
    ((e : RewriteError)
      → IsRefused diff audit prompt answer space first_prompt write
          (codes "7")
          (codes "I say")
          100
          e
      → rewrite diff audit prompt answer space first_prompt write (codes "7") (codes "I say") 100 3
        ≡ some (err e))
    × (AreUsable diff audit prompt answer space first_prompt write (codes "7") (codes "I say") 100
        → (n : ℕ) × (result : Result RewriteError RewriteResult) × (rewrite diff audit prompt answer
              space first_prompt write
              (codes "7")
              (codes "I say")
              100
              3
            ≡ some result)
          × AreRepaired diff audit prompt answer
              (codes "7")
              3
              (first_candidate diff audit prompt answer space first_prompt write
                (codes "7")
                (codes "I say"))
              n
          × IsRewritten diff audit prompt answer space first_prompt write
              (codes "7")
              (codes "I say")
              100
              3
              n
              result)
rewrite-IsRewritten_example =
    rewrite-IsRewritten diff audit prompt answer space first_prompt write (codes "7")
      (codes "I say") 100 3

usable : AreUsable diff audit prompt answer space first_prompt write (codes "7") (codes "I say") 100
unfolding all
usable = (omega arith, omega arith, refl, refl)
