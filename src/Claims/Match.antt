-- ===== src/Claims/Match.antt =====
-- What the two phases of `diff_claims` match and what they leave, for any test (claim_diff.py).
use mathlib.Core.List.{Perm}
use mathlib.Core.List.Perm
use human_hand.Prelude.{
  subst, ap, ◌∙◌, sym, ◌≡◌, refl, Bool, true, false, not, ◌&&◌, some, List, [], ◌∷◌, map, select,
  arith, Bool-cases, inl, inr, Option-cases, if◌then◌else◌,
}
use human_hand.Claims.{ClaimV2, Flagged, unmatched, take_match, pass_over, left_over}

-- The claims that are not matched.
unfoldable pub open_claims : List Flagged → List ClaimV2
open_claims [] = []
open_claims (f ∷ fs) = let others = open_claims fs in if f.matched then others else f.claim ∷ others

pub open_claims-unmatched : (cs : List ClaimV2) → open_claims (unmatched cs) ≡ cs
unfolding open_claims unmatched
open_claims-unmatched [] = refl
open_claims-unmatched (c ∷ cs) = ap (λ l. c ∷ l) (open_claims-unmatched cs)

pub left_over-open_claims :
    (fs : List Flagged) → left_over fs ≡ map (λ (c : ClaimV2). c.claim_id) (open_claims fs)
unfolding left_over open_claims select
left_over-open_claims [] = refl
left_over-open_claims (f ∷ fs) = elim (Bool-cases f.matched) [
  | inl e ↦ rw e (left_over-open_claims fs)
  | inr e ↦ rw e (ap (λ l. f.claim.claim_id ∷ l) (left_over-open_claims fs))
]

pub open_claims-matched :
    (f : Flagged) (fs : List Flagged) → f.matched ≡ true → open_claims (f ∷ fs) ≡ open_claims fs
unfolding open_claims
open_claims-matched f fs e = rw e refl

pub open_claims-open :
    (f : Flagged) (fs : List Flagged)
    → f.matched ≡ false
    → open_claims (f ∷ fs) ≡ f.claim ∷ open_claims fs
unfolding open_claims
open_claims-open f fs e = rw e refl

pub take_match-test :
    (test : ClaimV2 → Bool) (cs others : List Flagged) (found : ClaimV2)
    → take_match test cs ≡ some (found, others)
    → test found ≡ true
unfolding take_match pass_over
take_match-test test [] others found h = absurd (ground arith)
take_match-test test (c ∷ cs) others found h = elim (Bool-cases (not c.matched && test c.claim)) [
  | inl here ↦
      let passed : test c.claim ≡ true = ground arith in
      let same : c.claim ≡ found = ground arith in subst (λ x. test x ≡ true) same passed
  | inr later ↦ elim (Option-cases (take_match test cs)) [
    | inr e ↦ absurd (ground arith)
    | inl ((f, fs), e) ↦
        let same : f ≡ found = ground arith in
        subst (λ x. test x ≡ true) same (take_match-test test cs fs f e)
  ]
]

pub take_match-here :
    (test : ClaimV2 → Bool) (c : Flagged) (cs others : List Flagged) (found : ClaimV2)
    → (not c.matched && test c.claim) ≡ true
    → take_match test (c ∷ cs) ≡ some (found, others)
    → (c.matched ≡ false)
      × (c.claim ≡ found)
      × (record { claim = c.claim; matched = true } ∷ cs ≡ others)
unfolding take_match pass_over
take_match-here test c cs others found here h = (ground arith, ground arith, ground arith)

pub take_match-later :
    (test : ClaimV2 → Bool) (c : Flagged) (cs others : List Flagged) (found : ClaimV2)
    → (not c.matched && test c.claim) ≡ false
    → take_match test (c ∷ cs) ≡ some (found, others)
    → (fs : List Flagged) × (take_match test cs ≡ some (found, fs)) × (c ∷ fs ≡ others)
unfolding take_match pass_over
take_match-later test c cs others found later h = elim (Option-cases (take_match test cs)) [
  | inr e ↦ absurd (ground arith)
  | inl ((f, fs), e) ↦
      let same : f ≡ found = ground arith in (fs, e ∙ ap (λ x. some (x, fs)) same, ground arith)
]

-- The open claims are the one that is found and those that stay open.
pub take_match-Perm :
    (test : ClaimV2 → Bool) (cs others : List Flagged) (found : ClaimV2)
    → take_match test cs ≡ some (found, others)
    → Perm (found ∷ open_claims others) (open_claims cs)
unfolding take_match
take_match-Perm test [] others found h = absurd (ground arith)
take_match-Perm test (c ∷ cs) others found h = elim (Bool-cases (not c.matched && test c.claim)) [
  | inl here ↦
      let (fresh, same, rest) = take_match-here test c cs others found here h in
      let left : open_claims others ≡ open_claims cs =
        ap open_claims (sym rest)
        ∙ open_claims-matched (record { claim = c.claim; matched = true }) cs refl in
      subst (λ l. Perm (found ∷ l) (open_claims (c ∷ cs))) (sym left)
        (subst (λ l. Perm (found ∷ open_claims cs) l) (sym (open_claims-open c cs fresh))
          (subst (λ x. Perm (found ∷ open_claims cs) (x ∷ open_claims cs)) (sym same)
            (Perm.refl (found ∷ open_claims cs))))
  | inr later ↦
      let (fs, e, rest) = take_match-later test c cs others found later h in
      let deeper = take_match-Perm test cs fs found e in
      subst (λ l. Perm (found ∷ open_claims l) (open_claims (c ∷ cs))) rest
        (elim (Bool-cases c.matched) [
          | inl m ↦ rw (open_claims-matched c fs m, open_claims-matched c cs m) deeper
          | inr m ↦
              rw (open_claims-open c fs m, open_claims-open c cs m)
                (Perm.trans (Perm.swap c.claim found (open_claims fs)) (Perm.cons c.claim deeper))
        ])
]
