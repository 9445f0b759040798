-- ===== src/Lexical/Payload/RoundTrip.antt =====
-- A proposal, written to its payload and read (lexical_normalizer.py).
use human_hand.Prelude.{
  AllFrom, ℕ, ◌+◌, ◌≡◌, refl, true, false, some, List, [], ◌∷◌, ◌++◌, ==_iff, arith, leb, any,
  is_nil, length, Text, codes, text_eq, text_eq_refl, ok,
}
use human_hand.Json.{
  Value, str, items, get, without, with_field, is_text, as_str, as_int, as_arr, as_number,
  count-items,
}
use human_hand.Lexical.{
  ChangeStatus, safe, proposed, LexicalChange, LexicalProposal, lexical_proposal_schema_version,
}
use human_hand.Lexical.Payload.{compute_run_id, core_proposal_payload, change_payload, status_value}
use human_hand.Lexical.Rules.{LexicalPrecedence, precedence_of}
use human_hand.Lexical.Payload.Proposal.{
  proposal_to_payload, proposal_from_payload, change_from_payload, changes_from_payload, only_texts,
  expect_str, expect_int, expect_float, at_least, within, status_of, is_run_id, is_sha256_hex,
}

status_of-value : (s : ChangeStatus) → status_of (status_value s) ≡ some s
unfolding status_of status_value text_eq
status_of-value safe = refl
status_of-value proposed = refl

-- What the reader asks of the change at an index: its id, a length, a confidence of at most 1, the
-- proposal's ruleset hash, a known precedence and no empty field.
abbrev pub IsReadable :
    (decimal : ℕ → Text) (index : ℕ) (ruleset_hash : Text) → LexicalChange → Type 0
IsReadable decimal index ruleset_hash change =
    (change.change_id ≡ codes "ch" ++ decimal (index + 1))
    × (leb 1 change.length ≡ true)
    × (leb change.confidence 1000000 ≡ true)
    × (change.ruleset_hash ≡ ruleset_hash)
    × ((p : LexicalPrecedence) × (precedence_of change.precedence ≡ some p))
    × (is_nil change.source_surface ≡ false)
    × (is_nil change.target ≡ false)
    × (is_nil change.reason ≡ false)
    × (is_nil change.precedence ≡ false)
    × (is_nil change.rule_id ≡ false)
    × (is_nil change.sense ≡ false)

abbrev pub AllReadable :
    (decimal : ℕ → Text) (ruleset_hash : Text) → ℕ → List LexicalChange → Type 0
AllReadable decimal ruleset_hash = AllFrom (λ index. IsReadable decimal index ruleset_hash)

only_texts-items : (ts : List Text) → only_texts (items str ts) ≡ ts
unfolding only_texts items
only_texts-items [] = refl
only_texts-items (t ∷ ts) = rw (only_texts-items ts)

module _ (decimal : ℕ → Text) where
  changes_from_payload-items :
      (index : ℕ) (ruleset_hash : Text) (changes : List LexicalChange)
      → AllReadable decimal ruleset_hash index changes
      → changes_from_payload decimal index ruleset_hash (items change_payload changes) ≡ ok changes
  unfolding changes_from_payload change_from_payload items change_payload expect_str expect_int
      expect_float get text_eq as_str as_int as_number at_least within
  changes_from_payload-items index ruleset_hash [] h = refl
  changes_from_payload-items index ruleset_hash (change ∷ changes)
        ((id, len, conf, same, (p, known), a, b, c, d, e, f), h) =
      rw
        (
          id,
          text_eq_refl (decimal (index + 1)),
          len,
          conf,
          same,
          text_eq_refl ruleset_hash,
          status_of-value change.status,
          known,
          a,
          b,
          c,
          d,
          e,
          f,
          changes_from_payload-items (index + 1) ruleset_hash changes h,
        )
        (ground (arith, id, same))

module _ (decimal : ℕ → Text) (sha256 : Text → Text) (dumps : Value → Text) where
  -- A proposal of the current version, with well-formed hashes, whose two ids are the run id of its
  -- content, whose findings are not empty texts and whose changes are readable, is read back from its
  -- payload unchanged.
  pub proposal_from_payload-to_payload :
      (p : LexicalProposal)
      → p.schema_version ≡ lexical_proposal_schema_version
      → p.run_id
        ≡ compute_run_id sha256 dumps
            (core_proposal_payload p.ruleset_hash p.document_hash p.changes p.findings)
      → p.proposal_id ≡ p.run_id
      → is_run_id p.run_id ≡ true
      → is_sha256_hex p.document_hash ≡ true
      → is_nil p.ruleset_hash ≡ false
      → any is_nil p.findings ≡ false
      → AllReadable decimal p.ruleset_hash 0 p.changes
      → proposal_from_payload decimal sha256 dumps (proposal_to_payload p) ≡ ok p
  unfolding proposal_from_payload proposal_to_payload core_proposal_payload get with_field without
      text_eq is_text as_str as_int as_arr expect_str expect_int
  proposal_from_payload-to_payload p version run same is_run sha named findings readable =
      rw
        (
          is_run,
          sha,
          named,
          changes_from_payload-items decimal 0 p.ruleset_hash p.changes readable,
          count-items change_payload p.changes,
          (==_iff (length p.changes) (length p.changes)).1 refl,
          only_texts-items p.findings,
          count-items str p.findings,
          (==_iff (length p.findings) (length p.findings)).1 refl,
          findings,
          same,
          run,
          text_eq_refl,
        )
        (ground (arith, version))
