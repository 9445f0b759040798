-- ===== src/Lexical/Payload/Refused.antt =====
-- A proposal that `proposal_from_payload` refuses to read back (lexical_normalizer.py).
use mathlib.Core.List.Memᴰ
use mathlib.Core.List.{Memᴰ}
use human_hand.Prelude.{
  ℕ, ◌+◌, ◌≡◌, ◌≢◌, inl, inr, List, [], ◌∷◌, arith, Text, text_eq, ok, err, Result-cases, sym, ap,
  ◌∙◌,
}
use human_hand.Json.{Value, items, get, with_field, is_text, as_str, as_int, as_arr, as_number}
use human_hand.Lexical.{LexicalChange, LexicalProposal}
use human_hand.Lexical.Payload.{core_proposal_payload, change_payload}
use human_hand.Lexical.Payload.Proposal.{
  ProposalError, proposal_to_payload, proposal_from_payload, change_from_payload,
  changes_from_payload, expect_str, expect_int, expect_float,
}

module _ (decimal : ℕ → Text) where
  empty_sense :
      (index : ℕ) (ruleset_hash : Text) (change : LexicalChange) (rest : List LexicalChange)
      (changes : List LexicalChange)
      → change.sense ≡ []
      → changes_from_payload decimal index ruleset_hash (items change_payload (change ∷ rest))
        ≢ ok changes
  unfolding changes_from_payload change_from_payload change_payload items expect_str expect_int
      expect_float get text_eq as_str as_int as_number
  empty_sense index ruleset_hash change rest changes e h = ground arith

  -- The reader goes on to the changes behind the first.
  later_changes :
      (index : ℕ) (ruleset_hash : Text) (change : LexicalChange) (rest : List LexicalChange)
      (changes : List LexicalChange)
      → changes_from_payload decimal index ruleset_hash (items change_payload (change ∷ rest))
        ≡ ok changes
      → (others : List LexicalChange) × (changes_from_payload decimal
            (index + 1)
            ruleset_hash
            (items change_payload rest)
          ≡ ok others)
  unfolding changes_from_payload change_payload items
  later_changes index ruleset_hash change rest changes h =
      elim (Result-cases
        (changes_from_payload decimal (index + 1) ruleset_hash (items change_payload rest))) [
          | inl found ↦ found
          | inr (e, f) ↦ absurd (ground arith)
        ]

  some_empty_sense :
      (index : ℕ) (ruleset_hash : Text) (c : LexicalChange)
      (all_changes changes : List LexicalChange)
      → Memᴰ c all_changes
      → c.sense ≡ []
      → changes_from_payload decimal index ruleset_hash (items change_payload all_changes)
        ≢ ok changes
  some_empty_sense index ruleset_hash c [] changes m e h = Memᴰ.not-nil m
  some_empty_sense index ruleset_hash c (change ∷ rest) changes (Memᴰ.head same) e h =
      empty_sense index ruleset_hash change rest changes
        (sym (ap (λ (x : LexicalChange). x.sense) same) ∙ e) h
  some_empty_sense index ruleset_hash c (change ∷ rest) changes (Memᴰ.tail m) e h =
      let (others, k) = later_changes index ruleset_hash change rest changes h in
      some_empty_sense (index + 1) ruleset_hash c rest others m e k

module _ (decimal : ℕ → Text) (sha256 : Text → Text) (dumps : Value → Text) where
  changes_read :
      (p q : LexicalProposal)
      → proposal_from_payload decimal sha256 dumps (proposal_to_payload p) ≡ ok q
      → (changes : List LexicalChange) × (changes_from_payload decimal 0 p.ruleset_hash
            (items change_payload p.changes)
          ≡ ok changes)
  unfolding proposal_from_payload proposal_to_payload core_proposal_payload get with_field text_eq
      is_text as_str as_int as_arr expect_str expect_int
  changes_read p q h =
      elim (Result-cases
        (changes_from_payload decimal 0 p.ruleset_hash (items change_payload p.changes))) [
          | inl found ↦ found
          | inr (e, f) ↦ absurd (ground arith)
        ]

  -- A proposal with a change that has an empty sense, which a rule made from a preference of the user
  -- has, is not read back from its payload: the reader raises an error.
  pub proposal_from_payload-empty_sense :
      (p : LexicalProposal) (c : LexicalChange)
      → Memᴰ c p.changes
      → c.sense ≡ []
      → (e : ProposalError) × (proposal_from_payload decimal sha256 dumps (proposal_to_payload p)
          ≡ err e)
  proposal_from_payload-empty_sense p c m empty =
      elim (Result-cases (proposal_from_payload decimal sha256 dumps (proposal_to_payload p))) [
        | inr raised ↦ raised
        | inl (q, h) ↦
            let (changes, k) = changes_read p q h in
            absurd (some_empty_sense decimal 0 p.ruleset_hash c p.changes changes m empty k)
      ]
