-- ===== src/Lexical/Propose/Readable.antt =====
-- A proposal made without preferences of the user, written to its payload and read
-- (lexical_normalizer.py).
use mathlib.Core.List.Memᴰ
use mathlib.Core.List.{Memᴰ}
use human_hand.Prelude.{
  ℕ, zero, suc, ◌+◌, ◌≤◌, ◌≢◌, ◌≡◌, inl, inr, refl, subst, sym, Bool, true, false, some, List, [],
  ◌∷◌, ◌++◌, arith, All, All-append, all, length, take, length-take, is_nil, Text, codes, ok,
  starts_with,
}
use human_hand.Json.{Value, obj, Fields}
use human_hand.Lexical.{LexicalProposal}
use human_hand.Lexical.Choice.{Request, surface_index, user_preference_rule, preference_of}
use human_hand.Lexical.Collocations.{collocation_preserved}
use human_hand.Lexical.Payload.{compute_run_id}
use human_hand.Lexical.Payload.Proposal.{
  is_run_id, is_sha256_hex, proposal_from_payload, proposal_to_payload,
}
use human_hand.Lexical.Payload.RoundTrip.{IsReadable, AllReadable, proposal_from_payload-to_payload}
use human_hand.Lexical.Propose.{propose_changes}
use human_hand.Lexical.Propose.Findings.{propose_loop-findings}
use human_hand.Lexical.Propose.Loop.{propose_loop-AllFrom, propose_changes_inv}
use human_hand.Lexical.Propose.Outcome.{
  Origin, change_of, IsInflected, IsChosen, IsMatched, consider_inv,
}
use human_hand.Lexical.Propose.Safety.{winner-IsSupplied, IsSupplied, inside_inv}
use human_hand.Lexical.Review.{is_lower_hex}
use human_hand.Lexical.Rules.{LexicalPrecedence, precedence_value, LexicalRule}
use human_hand.Lexical.Rules.Payload.{ruleset_hash}
use human_hand.Lexical.Rules.Payload.RoundTrip.{IsComplete, precedence_of-value}
use human_hand.Lexical.Words.{Chars}

All-Memᴰ {ℓ κ} : {A : Type ℓ} (P : A → Type κ) {x : A} (xs : List A) → All P xs → Memᴰ x xs → P x
All-Memᴰ P [] h m = absurd (Memᴰ.not-nil m)
All-Memᴰ P (y ∷ ys) (p, h) (Memᴰ.head e) = subst P (sym e) p
All-Memᴰ P (y ∷ ys) (p, h) (Memᴰ.tail m) = All-Memᴰ P ys h m

all-take : (p : ℕ → Bool) (n : ℕ) (s : Text) → all p s ≡ true → all p (take n s) ≡ true
unfolding all
all-take p zero s h = refl
all-take p (suc n) [] h = refl
all-take p (suc n) (c ∷ s) h = ground (arith, all-take p n s)

-- The parts of a hash.
sha_parts : (s : Text) → is_sha256_hex s ≡ true → (length s ≡ 64) × (all is_lower_hex s ≡ true)
unfolding is_sha256_hex
sha_parts s h = (ground arith, ground arith)

not_nil_of_length : (s : Text) → 1 ≤ length s → is_nil s ≡ false
not_nil_of_length [] h = absurd (omega arith)
not_nil_of_length (c ∷ s) h = refl

-- 24 digits of a hash behind the prefix.
run_id_shape :
    (digits : Text)
    → length digits ≡ 64
    → all is_lower_hex digits ≡ true
    → is_run_id (codes "run-" ++ take 24 digits) ≡ true
unfolding is_run_id starts_with
run_id_shape digits len hex =
    let short : length (take 24 digits) ≡ 24 = omega (arith, length-take 24 digits, len) in
    rw (all-take is_lower_hex 24 digits hex, short) refl

compute_run_id-is_run_id :
    (sha256 : Text → Text) (dumps : Value → Text) (payload : Fields)
    → is_sha256_hex (sha256 (dumps (obj payload))) ≡ true
    → is_run_id (compute_run_id sha256 dumps payload) ≡ true
unfolding compute_run_id
compute_run_id-is_run_id sha256 dumps payload h =
    let (len, hex) = sha_parts (sha256 (dumps (obj payload))) h in
    run_id_shape (sha256 (dumps (obj payload))) len hex

ruleset_hash-hex :
    (sha256 : Text → Text) (dumps : Value → Text)
    → ((t : Text) → is_sha256_hex (sha256 t) ≡ true)
    → (request : Request) → is_sha256_hex (ruleset_hash sha256 dumps request.ruleset_version) ≡ true
unfolding ruleset_hash
ruleset_hash-hex sha256 dumps hex request = hex _

no_preference :
    (lemma : Text) (rule : LexicalRule) (preferences : List (Text × Text))
    → preferences ≡ []
    → user_preference_rule lemma preferences ≢ some rule
unfolding user_preference_rule preference_of
no_preference lemma rule preferences none_given e =
    subst (λ ps. user_preference_rule lemma ps ≢ some rule) (sym none_given)
      (λ f. absurd (ground arith)) e

-- The rules of a request have no empty field and a confidence of at most 1.
abbrev pub HasCompleteRules : Request → Type 0
HasCompleteRules request =
    All IsComplete request.ruleset_version.rules
    × All IsComplete request.glossary
    × All IsComplete request.register_rules
    × All IsComplete request.domain_rules

winner-IsComplete :
    (request : Request) (lemma : Text) (rule : LexicalRule)
    → request.user_preferences ≡ []
    → HasCompleteRules request
    → IsSupplied request lemma rule
    → IsComplete rule
winner-IsComplete request lemma rule none_given complete (inl e) =
    absurd (no_preference lemma rule request.user_preferences none_given e)
winner-IsComplete request lemma rule none_given (a, b, c, d) (inr (_, m)) =
    All-Memᴰ IsComplete _
      (All-append IsComplete request.ruleset_version.rules _ a (
        All-append IsComplete request.glossary _ b
          (All-append IsComplete request.register_rules _ c d)))
      m

inflected_not_nil :
    (chars : Chars) (text : Text) (offset n : ℕ) (replacement left right : Text)
    → collocation_preserved chars text offset n replacement left right ≡ true
    → is_nil replacement ≡ false
unfolding collocation_preserved
inflected_not_nil chars text offset n replacement left right h = ground arith

value_not_nil : (p : LexicalPrecedence) → is_nil (precedence_value p) ≡ false
unfolding precedence_value
value_not_nil p = ground arith

append_not_nil : (s t u : Text) → is_nil s ≡ false → is_nil (s ++ t ++ u) ≡ false
append_not_nil [] t u h = absurd (ground arith)
append_not_nil (c ∷ s) t u h = refl

module _ (chars : Chars) (request : Request) (rules_hash : Text) (threshold : ℕ)
    (source_tokens : List Text) (decimal : ℕ → Text) where
  origin-IsReadable :
      (k : ℕ) (o : Origin)
      → o.change_id ≡ codes "ch" ++ decimal (k + 1)
      → request.user_preferences ≡ []
      → HasCompleteRules request
      → IsInflected chars request rules_hash threshold o
      → IsChosen chars request rules_hash threshold o
      → IsMatched chars request rules_hash threshold source_tokens o
      → IsReadable decimal k rules_hash (change_of chars request rules_hash threshold o)
  origin-IsReadable k o id none_given complete (_, preserved) (_, _, _, winner)
        (raw_offset, _, i, _, _) =
      let (positive, bounded) = inside_inv request.text raw_offset (length o.token) o.offset i in
      let (named, _, _, sense, _, confident) =
        winner-IsComplete request o.lemma o.winner none_given complete
          (winner-IsSupplied request o.lemma o.precedence o.winner winner) in
      (
        id,
        ground (arith, positive),
        confident,
        refl,
        (o.precedence, precedence_of-value o.precedence),
        not_nil_of_length o.token positive,
        inflected_not_nil chars request.text o.offset (length o.token) o.inflected _ _ preserved,
        append_not_nil o.winner.rule_id (codes ":") o.winner.sense named,
        value_not_nil o.precedence,
        named,
        sense,
      )

module _ (chars : Chars) (finditer : (source text : Text) → List (ℕ × ℕ)) (decimal : ℕ → Text)
    (sha256 : Text → Text) (dumps : Value → Text) where
  -- When the hash function answers 64 lower-case hexadecimal digits, a proposal that `propose_changes`
  -- makes without preferences of the user, from rules with no empty field and a confidence of at most 1,
  -- is read back from its payload unchanged.
  pub propose_changes-proposal_from_payload :
      (request : Request) (p : LexicalProposal)
      → ((t : Text) → is_sha256_hex (sha256 t) ≡ true)
      → request.user_preferences ≡ []
      → HasCompleteRules request
      → propose_changes chars finditer decimal sha256 dumps request ≡ ok p
      → proposal_from_payload decimal sha256 dumps (proposal_to_payload p) ≡ ok p
  propose_changes-proposal_from_payload request p hex none_given complete h =
      let (threshold, made, _, loop, same) =
        propose_changes_inv chars finditer decimal sha256 dumps request p h in
      let hash = ruleset_hash sha256 dumps request.ruleset_version in
      let sources = surface_index request in
      let readable : AllReadable decimal hash 0 made.0 =
        propose_loop-AllFrom chars decimal request hash threshold sources
          (λ k. IsReadable decimal k hash)
          (λ k context c made.
            let (o, is, _, id, inflected, chosen, matched) =
              consider_inv chars request hash threshold sources context
                (codes "ch" ++ decimal (k + 1)) c made in
            subst (IsReadable decimal k hash) (sym is) (
              origin-IsReadable chars request hash threshold sources decimal k o id none_given
                complete inflected chosen matched))
          0 _ made loop in
      let is_hash : is_sha256_hex hash ≡ true = ruleset_hash-hex sha256 dumps hex request in
      subst
        (λ (q : LexicalProposal).
          proposal_from_payload decimal sha256 dumps (proposal_to_payload q) ≡ ok q)
        (sym same)
        (proposal_from_payload-to_payload decimal sha256 dumps _ refl refl refl
          (compute_run_id-is_run_id sha256 dumps _ (hex _)) (hex request.text)
          (not_nil_of_length hash (omega (arith, (sha_parts hash is_hash).0)))
          (propose_loop-findings chars request hash threshold decimal sources 0 _ made loop)
          readable)
