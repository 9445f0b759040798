-- ===== src/Prelude/Sort.antt =====
-- Python's stable `sorted(xs, key=...)`, and its form with `reverse=True`, for a key whose order is
-- the Boolean test `le`. Elements with equal keys keep their order in both.
use mathlib.Core.Path.{◌≡◌, refl, ap, ◌∙◌}
use mathlib.Core.Bool.{Bool, true, false}
use mathlib.Core.List.{List, [], ◌∷◌, ◌++◌, reverse, reverse-cons}
use mathlib.Core.Logic.{inl, inr}
use human_hand.Prelude.Tests.{if◌then◌else◌, Bool-cases}
use human_hand.Prelude.Lists.{All, All-map, All-reverse}

module _ {ℓ} {A : Type ℓ} (le : A → A → Bool) where
  unfoldable pub insert : A → List A → List A
  insert x [] = x ∷ []
  insert x (y ∷ ys) = let rest = insert x ys in if le x y then x ∷ y ∷ ys else y ∷ rest

  unfoldable pub sorted : List A → List A
  unfolding insert
  sorted [] = []
  sorted (x ∷ xs) = insert x (sorted xs)

  unfoldable pub insert_down : A → List A → List A
  insert_down x [] = x ∷ []
  insert_down x (y ∷ ys) = let rest = insert_down x ys in if le y x then x ∷ y ∷ ys else y ∷ rest

  unfoldable pub sorted_reverse : List A → List A
  unfolding insert_down
  sorted_reverse [] = []
  sorted_reverse (x ∷ xs) = insert_down x (sorted_reverse xs)

  abbrev pub Before : A → A → Type 0
  Before x y = (le x y ≡ true) × (le y x ≡ false)

  -- Each element stands strictly before all those behind it.
  abbrev pub IsStrict : List A → Type ℓ
  IsStrict [] = Unit
  IsStrict (x ∷ xs) = All (Before x) xs × IsStrict xs

module _ {ℓ κ} {A : Type ℓ} (le : A → A → Bool) (P : A → Type κ) where
  pub All-insert : (x : A) (ys : List A) → P x → All P ys → All P (insert le x ys)
  unfolding insert
  All-insert x [] px h = (px, tt)
  All-insert x (y ∷ ys) px (py, h) = elim (Bool-cases (le x y)) [
    | inl e ↦ rw e (px, (py, h))
    | inr e ↦ rw e (py, All-insert x ys px h)
  ]

  pub All-insert_inv : (x : A) (ys : List A) → All P (insert le x ys) → P x × All P ys
  unfolding insert
  All-insert_inv x [] h = h
  All-insert_inv x (y ∷ ys) h = elim (Bool-cases (le x y)) [
    | inl e ↦ rw e at h
    | inr e ↦
        let (py, rest) = (rw e at h) in let (px, pys) = All-insert_inv x ys rest in (px, (py, pys))
  ]

  pub All-sorted : (xs : List A) → All P xs → All P (sorted le xs)
  unfolding sorted
  All-sorted [] h = tt
  All-sorted (x ∷ xs) (px, h) = All-insert x (sorted le xs) px (All-sorted xs h)

  pub All-sorted_inv : (xs : List A) → All P (sorted le xs) → All P xs
  unfolding sorted
  All-sorted_inv [] h = tt
  All-sorted_inv (x ∷ xs) h =
      let (px, rest) = All-insert_inv x (sorted le xs) h in (px, All-sorted_inv xs rest)

module _ {ℓ κ} {A : Type ℓ} (le : A → A → Bool) (P : A → Type κ) where
  All-insert_down_inv : (x : A) (ys : List A) → All P (insert_down le x ys) → P x × All P ys
  unfolding insert_down
  All-insert_down_inv x [] h = h
  All-insert_down_inv x (y ∷ ys) h = elim (Bool-cases (le y x)) [
    | inl e ↦ rw e at h
    | inr e ↦
        let (py, rest) = (rw e at h) in
        let (px, pys) = All-insert_down_inv x ys rest in (px, (py, pys))
  ]

  pub All-sorted_reverse_inv : (xs : List A) → All P (sorted_reverse le xs) → All P xs
  unfolding sorted_reverse
  All-sorted_reverse_inv [] h = tt
  All-sorted_reverse_inv (x ∷ xs) h =
      let (px, rest) = All-insert_down_inv x (sorted_reverse le xs) h in
      (px, All-sorted_reverse_inv xs rest)

module _ {ℓ} {A : Type ℓ} (le : A → A → Bool) where
  -- Strictly ordered keys stay where they are.
  pub sorted-of_IsStrict : (xs : List A) → IsStrict le xs → sorted le xs ≡ xs
  unfolding sorted
  sorted-of_IsStrict [] h = refl
  sorted-of_IsStrict (x ∷ []) h = refl
  sorted-of_IsStrict (x ∷ y ∷ ys) ((front, _), rest) =
      rw (sorted-of_IsStrict (y ∷ ys) rest, front.0)

  IsStrict-insert_inv : (x : A) (ys : List A) → IsStrict le (insert le x ys) → IsStrict le ys
  unfolding insert
  IsStrict-insert_inv x [] h = tt
  IsStrict-insert_inv x (y ∷ ys) h = elim (Bool-cases (le x y)) [
    | inl e ↦ let (_, rest) = (rw e at h) in rest
    | inr e ↦
        let (front, rest) = (rw e at h) in
        ((All-insert_inv le (Before le y) x ys front).1, IsStrict-insert_inv x ys rest)
  ]

  insert_down-last :
      (x : A) (ys : List A) → All (λ y. le y x ≡ false) ys → insert_down le x ys ≡ ys ++ x ∷ []
  unfolding insert_down
  insert_down-last x [] h = refl
  insert_down-last x (y ∷ ys) (e, h) = rw e (ap (λ t. y ∷ t) (insert_down-last x ys h))

  insert_down-before_last :
      (x y : A) (zs : List A)
      → le y x ≡ true
      → insert_down le x (zs ++ y ∷ []) ≡ insert_down le x zs ++ y ∷ []
  unfolding insert_down
  insert_down-before_last x y [] e = rw e
  insert_down-before_last x y (z ∷ zs) e = elim (Bool-cases (le z x)) [
    | inl f ↦ rw f
    | inr f ↦ rw f (ap (λ t. z ∷ t) (insert_down-before_last x y zs e))
  ]

  insert_down-reverse :
      (x : A) (ys : List A)
      → IsStrict le (insert le x ys)
      → insert_down le x (reverse ys) ≡ reverse (insert le x ys)
  unfolding insert insert_down
  insert_down-reverse x [] h = refl
  insert_down-reverse x (y ∷ ys) h = elim (Bool-cases (le x y)) [
    | inl e ↦
        let (front, _) = (rw e at h) in
        rw (e, reverse-cons x (y ∷ ys))
          (insert_down-last x (reverse (y ∷ ys))
            (All-reverse _ (y ∷ ys) (All-map (y ∷ ys) (λ z b. b.1) front)))
    | inr e ↦
        let (front, rest) = (rw e at h) in
        rw (e, reverse-cons y (insert le x ys), reverse-cons y ys)
          (insert_down-before_last x y (reverse ys) (All-insert_inv le (Before le y) x ys front).0.0
            ∙ ap (λ t. t ++ y ∷ []) (insert_down-reverse x ys rest))
  ]

  -- With strictly ordered keys the reversed sort is the sort, reversed.
  pub sorted_reverse-eq-reverse :
      (xs : List A) → IsStrict le (sorted le xs) → sorted_reverse le xs ≡ reverse (sorted le xs)
  unfolding sorted sorted_reverse
  sorted_reverse-eq-reverse [] h = refl
  sorted_reverse-eq-reverse (x ∷ xs) h =
      rw (sorted_reverse-eq-reverse xs (IsStrict-insert_inv x (sorted le xs) h))
        (insert_down-reverse x (sorted le xs) h)
