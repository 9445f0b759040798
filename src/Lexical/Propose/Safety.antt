-- ===== src/Lexical/Propose/Safety.antt =====
-- The changes of a proposal (lexical_normalizer.py): where they stand and which rules they come from.
use mathlib.Core.List.Memᴰ
use mathlib.Core.List.{Memᴰ}
use human_hand.Prelude.{
  AllFrom, ℕ, ◌+◌, ◌≤◌, ◌≡◌, ◌⊎◌, inl, inr, refl, subst, sym, true, Option, none, some, List, [],
  ◌++◌, arith, length, Text, codes, ok, Option-cases,
}
use human_hand.Prelude.Int.{ℤ, pos, negsuc}
use human_hand.Json.{Value}
use human_hand.Lexical.{safe, LexicalChange, LexicalProposal}
use human_hand.Lexical.Choice.{
  Request, surface_index, Found, found_for, precedence_for, winning_rule, rule_or_base,
  base_or_raise, user_preference_rule,
}
use human_hand.Lexical.Context.{overlapping_spans}
use human_hand.Lexical.Inflection.{inflect_target}
use human_hand.Lexical.Rules.Payload.{ruleset_hash}
use human_hand.Lexical.Payload.Proposal.{within}
use human_hand.Lexical.Propose.{inside, status_for, propose_changes}
use human_hand.Lexical.Propose.Loop.{propose_loop-AllFrom, propose_changes_inv}
use human_hand.Lexical.Propose.Outcome.{
  Origin, change_of, IsInflected, IsChosen, IsMatched, consider_inv,
}
use human_hand.Lexical.Rules.{
  LexicalPrecedence, user_preference, project_glossary, register_evidence, domain_glossary,
  protected_span, no_change, licensed_resource, curated_rule, precedence_value, precedence_rank,
  LexicalRule, rule_applies, select_rule_for_lemma,
}
use human_hand.Lexical.Rules.Select.{IsStrongest, select_rule_for_lemma-IsStrongest}
use human_hand.Lexical.Words.{Chars}

pub inside_inv :
    (text : Text) (raw_offset : ℤ) (n offset : ℕ)
    → inside text raw_offset n ≡ ok offset
    → (1 ≤ n) × (offset + n ≤ length text)
unfolding inside
inside_inv text (negsuc m) n offset h = absurd (ground arith)
inside_inv text (pos m) n offset h = (ground arith, ground arith)

-- A change at place `k`: it has the id of that place, a text of its length, stands within the document
-- and has no character in common with a protected span.
abbrev pub IsWithin : (decimal : ℕ → Text) → Request → ℕ → LexicalChange → Type 0
IsWithin decimal request k c =
    (c.change_id ≡ codes "ch" ++ decimal (k + 1))
    × (1 ≤ c.length)
    × (length c.source_surface ≡ c.length)
    × (c.offset + c.length ≤ length request.text)
    × (overlapping_spans c.offset (c.offset + c.length) request.protected_spans ≡ [])

-- The rule of a change: the preference of the user for the lemma, or one of the given rules that applies
-- to it.
abbrev pub IsSupplied : Request → (lemma : Text) → LexicalRule → Type 0
IsSupplied request lemma rule =
    (user_preference_rule lemma request.user_preferences ≡ some rule)
    ⊎ ((rule_applies rule lemma ≡ true)
        × Memᴰ rule (
            request.ruleset_version.rules
            ++ (request.glossary ++ (request.register_rules ++ request.domain_rules))))

-- A change that comes from a supplied rule: its target is the rule's, inflected like the surface, and it
-- is safe only with a confidence at the threshold and a precedence at least as strong as a curated rule.
abbrev pub IsFromRules : Chars → (threshold : ℕ) → Request → LexicalChange → Type 0
IsFromRules chars threshold request c =
    (lemma : Text) × (rule : LexicalRule) × (precedence : LexicalPrecedence) × IsSupplied request
      lemma rule
    × (precedence ≡ precedence_for (found_for request lemma))
    × (inflect_target chars c.source_surface lemma rule.target_token ≡ some c.target)
    × (c.rule_id ≡ rule.rule_id)
    × (c.sense ≡ rule.sense)
    × (c.confidence ≡ rule.confidence)
    × (c.precedence ≡ precedence_value precedence)
    × (c.status ≡ safe
        → (threshold ≤ rule.confidence)
          × (precedence_rank precedence ≤ precedence_rank curated_rule))

rule_or_base_inv :
    (source base : Option LexicalRule) (rule : LexicalRule)
    → rule_or_base source base ≡ ok rule
    → (source ≡ some rule) ⊎ (base ≡ some rule)
unfolding rule_or_base base_or_raise
rule_or_base_inv none none rule h = absurd (ground arith)
rule_or_base_inv none (some b) rule h = inr (ground arith)
rule_or_base_inv (some s) base rule h = inl (ground arith)

-- The winner is one of the five rules that were found.
winning_rule_inv :
    (precedence : LexicalPrecedence) (found : Found) (rule : LexicalRule)
    → winning_rule precedence found ≡ ok rule
    → (found.preferred ≡ some rule)
      ⊎ ((found.project ≡ some rule)
          ⊎ ((found.register ≡ some rule)
              ⊎ ((found.domain ≡ some rule) ⊎ (found.base ≡ some rule))))
unfolding winning_rule base_or_raise
winning_rule_inv user_preference found rule h =
    ground (arith, rule_or_base_inv found.preferred found.base rule)
winning_rule_inv project_glossary found rule h =
    ground (arith, rule_or_base_inv found.project found.base rule)
winning_rule_inv register_evidence found rule h =
    ground (arith, rule_or_base_inv found.register found.base rule)
winning_rule_inv domain_glossary found rule h =
    ground (arith, rule_or_base_inv found.domain found.base rule)
winning_rule_inv protected_span found rule h = ground (arith, Option-cases found.base)
winning_rule_inv curated_rule found rule h = ground (arith, Option-cases found.base)
winning_rule_inv licensed_resource found rule h = ground (arith, Option-cases found.base)
winning_rule_inv no_change found rule h = ground (arith, Option-cases found.base)

select_rule_for_lemma-Memᴰ :
    (rules : List LexicalRule) (lemma : Text) (rule : LexicalRule)
    → select_rule_for_lemma rules lemma ≡ some rule
    → (rule_applies rule lemma ≡ true) × Memᴰ rule rules
select_rule_for_lemma-Memᴰ rules lemma rule e =
    let (member, applies, _) =
      subst (IsStrongest rules lemma) e (select_rule_for_lemma-IsStrongest rules lemma) in
    (applies, member)

pub winner-IsSupplied :
    (request : Request) (lemma : Text) (precedence : LexicalPrecedence) (rule : LexicalRule)
    → winning_rule precedence (found_for request lemma) ≡ ok rule
    → IsSupplied request lemma rule
unfolding found_for
winner-IsSupplied request lemma precedence rule h =
    let base = request.ruleset_version.rules in
    elim (winning_rule_inv precedence (found_for request lemma) rule h) [
      | inl e ↦ inl e
      | inr (inl e) ↦
          let (applies, m) = select_rule_for_lemma-Memᴰ request.glossary lemma rule e in
          inr (
            applies,
            Memᴰ.append_right base
                (Memᴰ.append_left (request.register_rules ++ request.domain_rules) m),
          )
      | inr (inr (inl e)) ↦
          let (applies, m) = select_rule_for_lemma-Memᴰ request.register_rules lemma rule e in
          inr (
            applies,
            Memᴰ.append_right base
                (Memᴰ.append_right request.glossary (Memᴰ.append_left request.domain_rules m)),
          )
      | inr (inr (inr (inl e))) ↦
          let (applies, m) = select_rule_for_lemma-Memᴰ request.domain_rules lemma rule e in
          inr (
            applies,
            Memᴰ.append_right base
                (Memᴰ.append_right request.glossary (Memᴰ.append_right request.register_rules m)),
          )
      | inr (inr (inr (inr e))) ↦
          let (applies, m) = select_rule_for_lemma-Memᴰ base lemma rule e in
          inr (
            applies,
            Memᴰ.append_left (request.glossary ++ (request.register_rules ++ request.domain_rules))
                m,
          )
    ]

status_for-safe :
    (threshold : ℕ) (rule : LexicalRule) (precedence : LexicalPrecedence)
    → status_for threshold rule precedence ≡ safe
    → (threshold ≤ rule.confidence) × (precedence_rank precedence ≤ precedence_rank curated_rule)
unfolding status_for
status_for-safe threshold rule precedence h = (ground arith, ground arith)

module _ (chars : Chars) (decimal : ℕ → Text) (request : Request) (rules_hash : Text)
    (threshold : ℕ) (source_tokens : List Text) where
  origin-IsWithin :
      (k : ℕ) (o : Origin)
      → o.change_id ≡ codes "ch" ++ decimal (k + 1)
      → IsMatched chars request rules_hash threshold source_tokens o
      → IsWithin decimal request k (change_of chars request rules_hash threshold o)
  origin-IsWithin k o id (raw_offset, m, i, free, _) =
      let (positive, bounded) = inside_inv request.text raw_offset (length o.token) o.offset i in
      (id, positive, refl, bounded, free)

  origin-IsFromRules :
      (o : Origin)
      → IsInflected chars request rules_hash threshold o
      → IsChosen chars request rules_hash threshold o
      → IsFromRules chars threshold request (change_of chars request rules_hash threshold o)
  origin-IsFromRules o (inflected, _) (same, _, _, winner) = (
    o.lemma,
    o.winner,
    o.precedence,
    winner-IsSupplied request o.lemma o.precedence o.winner winner,
    same,
    inflected,
    refl,
    refl,
    refl,
    refl,
    status_for-safe threshold o.winner o.precedence,
  )

within_inv : (z : ℤ) (n : ℕ) → within 0 1000000 z ≡ some n → z ≡ pos n
unfolding within
within_inv (negsuc m) n h = absurd (ground arith)
within_inv (pos m) n h = ground arith

module _ (chars : Chars) (finditer : (source text : Text) → List (ℕ × ℕ)) (decimal : ℕ → Text)
    (sha256 : Text → Text) (dumps : Value → Text) (request : Request) (p : LexicalProposal) where
  -- Every change of a proposal has the id `chN` of its place N, stands within the document, is as long as
  -- the text it replaces, which is not empty, and has no character in common with a protected span.
  pub propose_changes-IsWithin :
      propose_changes chars finditer decimal sha256 dumps request ≡ ok p
      → AllFrom (IsWithin decimal request) 0 p.changes
  propose_changes-IsWithin h =
      let (threshold, made, _, loop, same) =
        propose_changes_inv chars finditer decimal sha256 dumps request p h in
      let hash = ruleset_hash sha256 dumps request.ruleset_version in
      let sources = surface_index request in
      subst (λ (q : LexicalProposal). AllFrom (IsWithin decimal request) 0 q.changes) (sym same)
        (propose_loop-AllFrom chars decimal request hash threshold sources
          (IsWithin decimal request)
          (λ k context c made.
            let (o, is, _, id, _, _, matched) =
              consider_inv chars request hash threshold sources context
                (codes "ch" ++ decimal (k + 1)) c made in
            subst (IsWithin decimal request k) (sym is)
              (origin-IsWithin chars decimal request hash threshold sources k o id matched))
          0 _ made loop)

  -- Every change of a proposal comes from a preference of the user for the lemma or from one of the given
  -- rules that applies to the lemma; its target is that rule's, inflected like the text it replaces; and
  -- it is marked safe only with a confidence that reaches the threshold and a precedence that is at least
  -- as strong as that of a curated rule.
  pub propose_changes-IsFromRules :
      propose_changes chars finditer decimal sha256 dumps request ≡ ok p
      → (threshold : ℕ) × (request.safe_threshold ≡ pos threshold)
        × AllFrom (λ k. IsFromRules chars threshold request) 0 p.changes
  propose_changes-IsFromRules h =
      let (threshold, made, w, loop, same) =
        propose_changes_inv chars finditer decimal sha256 dumps request p h in
      let hash = ruleset_hash sha256 dumps request.ruleset_version in
      let sources = surface_index request in
      (
        threshold,
        within_inv request.safe_threshold threshold w,
        subst
            (λ (q : LexicalProposal).
              AllFrom (λ k. IsFromRules chars threshold request) 0 q.changes)
            (sym same)
            (propose_loop-AllFrom chars decimal request hash threshold sources
              (λ k. IsFromRules chars threshold request)
              (λ k context c made.
                let (o, is, _, _, inflected, chosen, _) =
                  consider_inv chars request hash threshold sources context
                    (codes "ch" ++ decimal (k + 1)) c made in
                subst (IsFromRules chars threshold request) (sym is) (
                  origin-IsFromRules chars decimal request hash threshold sources o inflected
                    chosen))
              0 _ made loop),
      )
