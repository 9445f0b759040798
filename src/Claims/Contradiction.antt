-- ===== src/Claims/Contradiction.antt =====
-- When two claims share a proposition, and when they contradict each other (claim_diff.py).
use human_hand.Prelude.{
  ap, ap₂, ◌∙◌, sym, ◌≡◌, ◌≢◌, ◌↔◌, refl, Bool, true, false, not, ◌&&◌, ◌||◌, List, [], ◌∷◌, is_nil,
  arith, Text, text_eq→eq, eq→text_eq, inl, inr, ◌⊎◌,
}
use human_hand.Document.Signature.{texts_eq}
use human_hand.Claims.{ClaimV2, same_proposition, same_flag, contradicts}

texts_eq→eq : (xs ys : List Text) → texts_eq xs ys ≡ true → xs ≡ ys
unfolding texts_eq
texts_eq→eq [] [] h = refl
texts_eq→eq [] (y ∷ ys) h = absurd (ground arith)
texts_eq→eq (x ∷ xs) [] h = absurd (ground arith)
texts_eq→eq (x ∷ xs) (y ∷ ys) h =
    ap₂ (λ a b. a ∷ b) (text_eq→eq x y (ground arith)) (texts_eq→eq xs ys (ground arith))

texts_eq_refl : (xs : List Text) → texts_eq xs xs ≡ true
unfolding texts_eq
texts_eq_refl [] = refl
texts_eq_refl (x ∷ xs) = ground (arith, eq→text_eq x x refl, texts_eq_refl xs)

is_nil→eq : (xs : List Text) → is_nil xs ≡ true → xs ≡ []
is_nil→eq [] h = refl
is_nil→eq (x ∷ xs) h = absurd (ground arith)

same_flag→eq : (a b : Bool) → same_flag a b ≡ true → a ≡ b
unfolding same_flag
same_flag→eq a b h = ground (arith, h)

same_flag_refl : (a : Bool) → same_flag a a ≡ true
unfolding same_flag
same_flag_refl a = ground arith

-- A test that decides an equation is false exactly where the equation fails.
false_of_ne : {A : Type 0} (b : Bool) (x y : A) → (b ≡ true → x ≡ y) → x ≢ y → b ≡ false
false_of_ne true x y f h = absurd (h (f refl))
false_of_ne false x y f h = refl

ne_of_false : {A : Type 0} (p : A → Bool) (x y : A) → p y ≡ true → p x ≡ false → x ≢ y
ne_of_false p x y holds fails = λ e. absurd (ground (arith, sym fails ∙ ap p e ∙ holds))

alternatives :
    (a b c d e f : Bool)
    → ((not a && (not b && (not c && d))) || (not e && f)) ≡ true
    → ((a ≡ false) × (b ≡ false) × (c ≡ false) × (d ≡ true)) ⊎ ((e ≡ false) × (f ≡ true))
alternatives a b c d e f h = ground (arith, h)

either :
    (a b c d e f : Bool)
    → ((a ≡ false) × (b ≡ false) × (c ≡ false) × (d ≡ true)) ⊎ ((e ≡ false) × (f ≡ true))
    → ((not a && (not b && (not c && d))) || (not e && f)) ≡ true
either a b c d e f h = ground (arith, h)

pub same_proposition_iff :
    (a b : ClaimV2)
    → (same_proposition a b ≡ true) ↔ (a.canonical_proposition ≡ b.canonical_proposition)
unfolding same_proposition
same_proposition_iff a b = (
  text_eq→eq a.canonical_proposition b.canonical_proposition,
  eq→text_eq a.canonical_proposition b.canonical_proposition,
)

module _ (extract_numbers : Text → List Text) (without_numbers : Text → Text)
    (without_negation_markers : Text → Text) where
  -- Two propositions both have numbers, not the same ones, and agree but for their numbers; or the two
  -- claims are not negated alike and their propositions agree but for the markers of negation.
  abbrev pub AreOpposed : ClaimV2 → ClaimV2 → Type 0
  AreOpposed s c =
      ((extract_numbers s.canonical_proposition ≢ [])
        × (extract_numbers c.canonical_proposition ≢ [])
        × (extract_numbers s.canonical_proposition ≢ extract_numbers c.canonical_proposition)
        × (without_numbers s.canonical_proposition ≡ without_numbers c.canonical_proposition))
      ⊎ ((s.negation ≢ c.negation)
          × (without_negation_markers s.canonical_proposition
              ≡ without_negation_markers c.canonical_proposition))

  contradicts-AreOpposed :
      (s c : ClaimV2)
      → contradicts extract_numbers without_numbers without_negation_markers s c ≡ true
      → AreOpposed s c
  unfolding contradicts
  contradicts-AreOpposed s c h =
      let ns = extract_numbers s.canonical_proposition in
      let nc = extract_numbers c.canonical_proposition in
      elim (alternatives (is_nil ns) (is_nil nc) (texts_eq ns nc) _
        (same_flag s.negation c.negation) _ h) [
          | inl (some_s, some_c, differ, rest) ↦ inl (
            ne_of_false is_nil ns [] refl some_s,
            ne_of_false is_nil nc [] refl some_c,
            (λ e. ne_of_false (texts_eq ns) nc ns (texts_eq_refl ns) differ (sym e)),
            text_eq→eq _ _ rest,
          )
          | inr (flip, rest) ↦ inr (
            (λ e.
                ne_of_false (same_flag s.negation) c.negation s.negation (same_flag_refl s.negation)
                  flip (sym e)),
            text_eq→eq _ _ rest,
          )
        ]

  AreOpposed-contradicts :
      (s c : ClaimV2)
      → AreOpposed s c
      → contradicts extract_numbers without_numbers without_negation_markers s c ≡ true
  unfolding contradicts
  AreOpposed-contradicts s c h =
      let ns = extract_numbers s.canonical_proposition in
      let nc = extract_numbers c.canonical_proposition in
      let flags = same_flag s.negation c.negation in
      either (is_nil ns) (is_nil nc) (texts_eq ns nc) _ flags _ (elim h [
        | inl (some_s, some_c, differ, rest) ↦ inl (
          false_of_ne (is_nil ns) ns [] (is_nil→eq ns) some_s,
          false_of_ne (is_nil nc) nc [] (is_nil→eq nc) some_c,
          false_of_ne (texts_eq ns nc) ns nc (texts_eq→eq ns nc) differ,
          eq→text_eq _ _ rest,
        )
        | inr (flip, rest) ↦ inr (
          false_of_ne flags s.negation c.negation (same_flag→eq s.negation c.negation) flip,
          eq→text_eq _ _ rest,
        )
      ])

  pub contradicts_iff :
      (s c : ClaimV2)
      → (contradicts extract_numbers without_numbers without_negation_markers s c ≡ true)
        ↔ AreOpposed s c
  contradicts_iff s c = (contradicts-AreOpposed s c, AreOpposed-contradicts s c)
