-- ===== src/Lexical/Apply/Correct.antt =====
-- `apply_changes` against the pass from the front: what it accepts, and what it returns.
use human_hand.Prelude.{
  ◌≡◌, sym, ap, ◌∙◌, Option, List, reverse, arith, Text, text_eq→eq, eq→text_eq, All, All-map,
  ok-injective, select, ok,
}
use human_hand.Prelude.Sort.{sorted, sorted_reverse, sorted_reverse-eq-reverse}
use human_hand.Lexical.{ChangeStatus, LexicalChange, LexicalProposal}
use human_hand.Lexical.Splice.{rebuild, IsOrdered, Fits}
use human_hand.Lexical.Apply.{key_le, is_selected, apply_loop, apply_changes}
use human_hand.Lexical.Apply.Forward.{apply_loop-reverse, apply_loop-Fits}
use human_hand.Lexical.Apply.Order.{IsOrdered-IsStrict, sorted_reverse-of_ok}

-- The changes that `only_status` leaves, by offset.
abbrev pub chosen : LexicalProposal → Option ChangeStatus → List LexicalChange
chosen proposal only_status = sorted key_le (select (is_selected only_status) proposal.changes)

module _ (sha256 : Text → Text) (text : Text) (proposal : LexicalProposal)
    (only_status : Option ChangeStatus) where
  abbrev selected : List LexicalChange
  selected = select (is_selected only_status) proposal.changes

  apply_changes-loop :
      {w : Text}
      → apply_changes sha256 text proposal only_status ≡ ok w
      → (proposal.schema_version ≡ 1)
        × (sha256 text ≡ proposal.document_hash)
        × (apply_loop text (sorted_reverse key_le selected) ≡ ok w)
  unfolding apply_changes
  apply_changes-loop h =
      (ground arith, text_eq→eq (sha256 text) proposal.document_hash (ground arith), ground arith)

  -- Where the chosen changes do not overlap and `apply_changes` returns, each of them fitted the
  -- text as it was given, and the result is that text with each change's span replaced by its target.
  pub apply_changes-rebuild :
      {w : Text}
      → IsOrdered 0 (chosen proposal only_status)
      → apply_changes sha256 text proposal only_status ≡ ok w
      → (proposal.schema_version ≡ 1)
        × (sha256 text ≡ proposal.document_hash)
        × All (Fits 0 text) (chosen proposal only_status)
        × (w ≡ rebuild 0 text (chosen proposal only_status))
  apply_changes-rebuild {w} o h =
      let (schema, hash, loop) = apply_changes-loop h in
      let (_, flip) = sorted_reverse-of_ok text selected o loop in
      let back : apply_loop text (reverse (chosen proposal only_status)) ≡ ok w =
        ap (apply_loop text) (sym flip) ∙ loop in
      let fits = apply_loop-Fits 0 text (chosen proposal only_status) o back in
      let same : ok w ≡ ok (rebuild 0 text (chosen proposal only_status)) =
        sym back ∙ apply_loop-reverse 0 text (chosen proposal only_status) o fits in
      (schema, hash, fits, ok-injective same)

  -- Where the schema version and the document's hash are right and the chosen changes fit the text
  -- without overlap, `apply_changes` returns that text with each span replaced.
  pub apply_changes_complete :
      proposal.schema_version ≡ 1
      → sha256 text ≡ proposal.document_hash
      → IsOrdered 0 (chosen proposal only_status)
      → All (Fits 0 text) (chosen proposal only_status)
      → apply_changes sha256 text proposal only_status
        ≡ ok (rebuild 0 text (chosen proposal only_status))
  unfolding apply_changes
  apply_changes_complete schema hash o fits =
      let cs = chosen proposal only_status in
      let strict = IsOrdered-IsStrict 0 cs o (All-map cs (λ c f. f.nonempty) fits) in
      let done : apply_loop text (sorted_reverse key_le selected) ≡ ok (rebuild 0 text cs) =
        ap (apply_loop text) (sorted_reverse-eq-reverse key_le selected strict)
        ∙ apply_loop-reverse 0 text cs o fits in
      ground (arith, eq→text_eq (sha256 text) proposal.document_hash hash)
