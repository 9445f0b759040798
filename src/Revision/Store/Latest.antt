-- ===== src/Revision/Store/Latest.antt =====
-- The latest accepted revision of a chain (project_store.py and integrated_project_store.py).
use human_hand.Prelude.{
  All, All-map, ℕ, suc, ◌≤◌, ◌≡◌, inl, inr, subst, ap, ◌∙◌, true, none, some, List, [], ◌∷◌, arith,
  length, Text, select, Bool-cases, Option-cases, Bool,
}
use human_hand.Prelude.Int.{pos, int_le}
use human_hand.Revision.{DocumentRevision, accepted}
use human_hand.Revision.Store.{revisions_of, newest, is_accepted_status, latest_accepted_revision}
use human_hand.Revision.Store.Chain.{IsChain, revisions_of-cons_same}

-- A revision's token is a natural number up to a bound.
abbrev IsUpTo : ℕ → DocumentRevision → Type 0
IsUpTo n r = (k : ℕ) × (r.token ≡ pos k) × (k ≤ n)

IsChain-IsUpTo : (rows : List DocumentRevision) → IsChain rows → All (IsUpTo (length rows)) rows
IsChain-IsUpTo [] c = tt
IsChain-IsUpTo (r ∷ rest) (token, _, _, c) = (
  (suc (length rest), token, omega arith),
  All-map rest (λ x (k, e, h). (k, e, omega (arith, h))) (IsChain-IsUpTo rest c),
)

All-select {κ} :
    (P : DocumentRevision → Type κ) (p : DocumentRevision → Bool) (rows : List DocumentRevision)
    → All P rows
    → All P (select p rows)
unfolding select
All-select P p [] h = tt
All-select P p (r ∷ rest) (px, h) = elim (Bool-cases (p r)) [
  | inl e ↦ rw e (px, All-select P p rest h)
  | inr e ↦ rw e (All-select P p rest h)
]

newest-step :
    (r best : DocumentRevision) (rest : List DocumentRevision)
    → newest rest ≡ some best
    → int_le best.token r.token ≡ true
    → newest (r ∷ rest) ≡ some r
unfolding newest
newest-step r best rest e h = rw (e, h)

newest-alone :
    (r : DocumentRevision) (rest : List DocumentRevision)
    → newest rest ≡ none
    → newest (r ∷ rest) ≡ some r
unfolding newest
newest-alone r rest e = rw e

newest-All {κ} :
    (P : DocumentRevision → Type κ) (rows : List DocumentRevision) (best : DocumentRevision)
    → All P rows
    → newest rows ≡ some best
    → P best
unfolding newest
newest-All P [] best h e = absurd (ground arith)
newest-All P (r ∷ rest) best (pr, h) e = elim (Option-cases (newest rest)) [
  | inr n ↦ let same : r ≡ best = ground arith in subst P same pr
  | inl (b, n) ↦ elim (Bool-cases (int_le b.token r.token)) [
    | inl le ↦ let same : r ≡ best = ground arith in subst P same pr
    | inr gt ↦ let same : b ≡ best = ground arith in subst P same (newest-All P rest b h n)
  ]
]

newest-head :
    (r : DocumentRevision) (rest : List DocumentRevision) (n : ℕ)
    → r.token ≡ pos (suc n)
    → All (IsUpTo n) rest
    → newest (r ∷ rest) ≡ some r
newest-head r rest n token bounded = elim (Option-cases (newest rest)) [
  | inr e ↦ newest-alone r rest e
  | inl (best, e) ↦
      let (k, best_token, low) = newest-All (IsUpTo n) rest best bounded e in
      newest-step r best rest e (rw (best_token, token) (ground arith))
]

accepted_first :
    (r : DocumentRevision) (rows : List DocumentRevision)
    → r.status ≡ accepted
    → select (λ (x : DocumentRevision). is_accepted_status x.status) (r ∷ rows)
      ≡ r ∷ select (λ (x : DocumentRevision). is_accepted_status x.status) rows
unfolding select is_accepted_status
accepted_first r rows e = rw e

-- An accepted revision that continues the chain of its document is the latest accepted one.
pub latest_accepted_revision-cons :
    (r : DocumentRevision) (table : List DocumentRevision) (document_id : Text)
    → r.status ≡ accepted
    → r.document_id ≡ document_id
    → IsChain (revisions_of document_id (r ∷ table))
    → latest_accepted_revision document_id (r ∷ table) ≡ some r
unfolding latest_accepted_revision
latest_accepted_revision-cons r table document_id status same c =
    let rows = revisions_of document_id table in
    let grown = revisions_of-cons_same document_id r table same in
    let (token, _, _, chain) = subst IsChain grown c in
    let p : DocumentRevision → Bool = λ x. is_accepted_status x.status in
    ap (λ rs. newest (select p rs)) grown
    ∙ (ap newest (accepted_first r rows status)
        ∙ newest-head r (select p rows) (length rows) token
            (All-select (IsUpTo (length rows)) p rows (IsChain-IsUpTo rows chain)))
