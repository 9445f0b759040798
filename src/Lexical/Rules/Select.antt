-- ===== src/Lexical/Rules/Select.antt =====
-- The rule that `select_rule_for_lemma` picks (lexical_rules.py).
use human_hand.Prelude.{
  ◌≡◌, refl, ◌⊎◌, inl, inr, Bool, true, false, Option, none, some, List, [], ◌∷◌, arith, Text,
  text_lt, select, All, Bool-cases, subst, sym,
}
use mathlib.Core.List.Memᴰ
use mathlib.Core.List.{Memᴰ}
use human_hand.Lexical.Rules.{LexicalRule, rule_applies, key_lt, least, select_rule_for_lemma}

text_lt_trans : (s t u : Text) → text_lt s t ≡ true → text_lt t u ≡ true → text_lt s u ≡ true
unfolding text_lt
text_lt_trans s t [] h k = absurd (ground arith)
text_lt_trans s [] (e ∷ u) h k = absurd (ground arith)
text_lt_trans [] (d ∷ t) (e ∷ u) h k = refl
text_lt_trans (c ∷ s) (d ∷ t) (e ∷ u) h k = ground (arith, text_lt_trans s t u)

-- What lies between two texts differs from one of them.
text_lt-between : (s t u : Text) → text_lt s u ≡ true → (text_lt s t ≡ true) ⊎ (text_lt t u ≡ true)
unfolding text_lt
text_lt-between s t [] h = absurd (ground arith)
text_lt-between [] [] (e ∷ u) h = inr refl
text_lt-between [] (d ∷ t) (e ∷ u) h = inl refl
text_lt-between (c ∷ s) [] (e ∷ u) h = inr refl
text_lt-between (c ∷ s) (d ∷ t) (e ∷ u) h = ground (arith, text_lt-between s t u)

key_lt_trans : (a b c : LexicalRule) → key_lt a b ≡ true → key_lt b c ≡ true → key_lt a c ≡ true
unfolding key_lt
key_lt_trans a b c h k = ground (arith, text_lt_trans a.rule_id b.rule_id c.rule_id)

key_lt-between :
    (a b c : LexicalRule) → key_lt a c ≡ true → (key_lt a b ≡ true) ⊎ (key_lt b c ≡ true)
unfolding key_lt
key_lt-between a b c h = ground (arith, text_lt-between a.rule_id b.rule_id c.rule_id)

text_lt_irrefl : (s : Text) → text_lt s s ≡ false
unfolding text_lt
text_lt_irrefl [] = refl
text_lt_irrefl (c ∷ s) = ground (arith, text_lt_irrefl s)

key_lt_irrefl : (a : LexicalRule) → key_lt a a ≡ false
unfolding key_lt
key_lt_irrefl a = ground (arith, text_lt_irrefl a.rule_id)

least-alone : (best : LexicalRule) → All (λ q. key_lt q (least best []) ≡ false) (best ∷ [])
unfolding least
least-alone best = (key_lt_irrefl best, tt)

least-smaller :
    (best rule : LexicalRule) (rest : List LexicalRule)
    → key_lt rule best ≡ true
    → least best (rule ∷ rest) ≡ least rule rest
unfolding least
least-smaller best rule rest e = rw e

least-other :
    (best rule : LexicalRule) (rest : List LexicalRule)
    → key_lt rule best ≡ false
    → least best (rule ∷ rest) ≡ least best rest
unfolding least
least-other best rule rest e = rw e

-- Nothing is below the rule that `least` returns, and it is one of those it was given.
least-All :
    (best : LexicalRule) (rules : List LexicalRule)
    → All (λ q. key_lt q (least best rules) ≡ false) (best ∷ rules)
least-All best [] = least-alone best
least-All best (rule ∷ rest) = elim (Bool-cases (key_lt rule best)) [
  | inl e ↦
      let (first, others) = least-All rule rest in
      subst (λ r. All (λ q. key_lt q r ≡ false) (best ∷ rule ∷ rest))
        (sym (least-smaller best rule rest e))
        (ground (arith, key_lt_trans rule best (least rule rest)), (first, others))
  | inr e ↦
      let (first, others) = least-All best rest in
      subst (λ r. All (λ q. key_lt q r ≡ false) (best ∷ rule ∷ rest))
        (sym (least-other best rule rest e))
        (first, (ground (arith, key_lt-between rule best (least best rest)), others))
]

least-Mem : (best : LexicalRule) (rules : List LexicalRule) → Memᴰ (least best rules) (best ∷ rules)
unfolding least
least-Mem best [] = Memᴰ.head refl
least-Mem best (rule ∷ rest) = elim (Bool-cases (key_lt rule best)) [
  | inl e ↦ rw e (Memᴰ.tail (least-Mem rule rest))
  | inr e ↦ rw e (elim (least-Mem best rest) [
    | Memᴰ.head h ↦ Memᴰ.head h
    | Memᴰ.tail m ↦ Memᴰ.tail (Memᴰ.tail m)
  ])
]

-- What a selection holds, read over the whole list.
Mem-select :
    (p : LexicalRule → Bool) {r : LexicalRule} (rules : List LexicalRule)
    → Memᴰ r (select p rules)
    → Memᴰ r rules × (p r ≡ true)
unfolding select
Mem-select p [] m = absurd (Memᴰ.not-nil m)
Mem-select p {r = r} (rule ∷ rest) m = elim (Bool-cases (p rule)) [
  | inl e ↦ elim (rw e at m) [
    | Memᴰ.head h ↦ (Memᴰ.head h, rw h e)
    | Memᴰ.tail m' ↦ let (n, q) = Mem-select p rest m' in (Memᴰ.tail n, q)
  ]
  | inr e ↦ let (n, q) = Mem-select p rest (rw e at m) in (Memᴰ.tail n, q)
]

All-select {ℓ} :
    (p : LexicalRule → Bool) (Q : LexicalRule → Type ℓ) (rules : List LexicalRule)
    → All Q (select p rules)
    → All (λ q. p q ≡ true → Q q) rules
unfolding select
All-select p Q [] h = tt
All-select p Q (rule ∷ rest) h = elim (Bool-cases (p rule)) [
  | inl e ↦ let (first, others) = (rw e at h) in ((λ _. first), All-select p Q rest others)
  | inr e ↦ ((λ f. absurd (ground arith)), All-select p Q rest (rw e at h))
]

-- What the answer of the choice says of the rules: none applies, or the answer is one of them, applies,
-- and none that applies has a smaller key.
abbrev pub IsStrongest : List LexicalRule → (lemma : Text) → Option LexicalRule → Type 0
IsStrongest rules lemma none = All (λ q. rule_applies q lemma ≡ false) rules
IsStrongest rules lemma (some r) =
    Memᴰ r rules
    × (rule_applies r lemma ≡ true)
    × All (λ q. rule_applies q lemma ≡ true → key_lt q r ≡ false) rules

select_rule_for_lemma-none :
    (rules : List LexicalRule) (lemma : Text)
    → select (λ rule. rule_applies rule lemma) rules ≡ []
    → select_rule_for_lemma rules lemma ≡ none
unfolding select_rule_for_lemma
select_rule_for_lemma-none rules lemma e = rw (e, select_rule_for_lemma)

select_rule_for_lemma-some :
    (rules : List LexicalRule) (lemma : Text) (rule : LexicalRule) (rest : List LexicalRule)
    → select (λ rule. rule_applies rule lemma) rules ≡ rule ∷ rest
    → select_rule_for_lemma rules lemma ≡ some (least rule rest)
unfolding select_rule_for_lemma
select_rule_for_lemma-some rules lemma rule rest e = rw (e, select_rule_for_lemma)

none_selected :
    (p : LexicalRule → Bool) (rules : List LexicalRule)
    → select p rules ≡ []
    → All (λ q. p q ≡ false) rules
unfolding select
none_selected p [] h = tt
none_selected p (rule ∷ rest) h = elim (Bool-cases (p rule)) [
  | inl e ↦ absurd (ground arith)
  | inr e ↦ (e, none_selected p rest (rw e at h))
]

IsStrongest-of :
    (rules : List LexicalRule) (lemma : Text) (matches : List LexicalRule)
    → select (λ rule. rule_applies rule lemma) rules ≡ matches
    → IsStrongest rules lemma (select_rule_for_lemma rules lemma)
IsStrongest-of rules lemma [] e =
    rw (select_rule_for_lemma-none rules lemma e)
      (none_selected (λ rule. rule_applies rule lemma) rules e)
IsStrongest-of rules lemma (rule ∷ rest) e =
    let applies : LexicalRule → Bool = λ r. rule_applies r lemma in
    let (member, fits) =
      Mem-select applies rules (subst (Memᴰ (least rule rest)) (sym e) (least-Mem rule rest)) in
    subst (IsStrongest rules lemma) (sym (select_rule_for_lemma-some rules lemma rule rest e)) (
      member,
      fits,
      All-select applies (λ q. key_lt q (least rule rest) ≡ false) rules
          (subst (All (λ q. key_lt q (least rule rest) ≡ false)) (sym e) (least-All rule rest)),
    )

-- `select_rule_for_lemma` answers none exactly when no rule applies to the lemma; a rule that it
-- returns is one of the rules, applies to the lemma, and no rule that applies has a stronger precedence
-- or, at the same precedence, a smaller id.
pub select_rule_for_lemma-IsStrongest :
    (rules : List LexicalRule) (lemma : Text)
    → IsStrongest rules lemma (select_rule_for_lemma rules lemma)
select_rule_for_lemma-IsStrongest rules lemma =
    IsStrongest-of rules lemma (select (λ rule. rule_applies rule lemma) rules) refl
