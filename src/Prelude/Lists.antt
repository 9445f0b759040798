-- ===== src/Prelude/Lists.antt =====
-- Lists measured and cut by native numbers, and Boolean searches, under the library's names.
use Prim.Native.Nat.{ℕ, zero, suc, ◌+◌, ◌-◌, ◌≤◌, min}
use Prim.Native.Nat.add
use mathlib.Core.Path.{◌≡◌, refl, sym, ap, subst}
use mathlib.Core.Bool.{Bool, true, false, ◌||◌, ◌&&◌}
use mathlib.Core.List.{List, [], ◌∷◌, ◌++◌, reverse, reverse-cons}
use native.Mathlib.Omega.{arith}
use human_hand.Prelude.Tests.{if◌then◌else◌}

module _ {ℓ} {A : Type ℓ} where
  abbrev pub length : List A → ℕ
  length [] = 0
  length (x ∷ xs) = suc (length xs)

  abbrev pub take : ℕ → List A → List A
  take zero xs = []
  take (suc n) [] = []
  take (suc n) (x ∷ xs) = x ∷ take n xs

  abbrev pub drop : ℕ → List A → List A
  drop zero xs = xs
  drop (suc n) [] = []
  drop (suc n) (x ∷ xs) = drop n xs

  -- Python's any(...), all(...) and [x for x in xs if p(x)].
  unfoldable pub any : (A → Bool) → List A → Bool
  any p [] = false
  any p (x ∷ xs) = p x || any p xs

  unfoldable pub all : (A → Bool) → List A → Bool
  all p [] = true
  all p (x ∷ xs) = p x && all p xs

  unfoldable pub select : (A → Bool) → List A → List A
  select p [] = []
  select p (x ∷ xs) = let rest = select p xs in if p x then x ∷ rest else rest

  abbrev pub All {κ} : (A → Type κ) → List A → Type κ
  All P [] = Unit
  All P (x ∷ xs) = P x × All P xs

  -- `not xs`
  abbrev pub is_nil : List A → Bool
  is_nil [] = true
  is_nil (x ∷ xs) = false

module _ {ℓ} {A : Type ℓ} where
  pub length-append : (xs ys : List A) → length (xs ++ ys) ≡ length xs + length ys
  length-append [] ys = omega arith
  length-append (x ∷ xs) ys = omega (arith, length-append xs ys)

  pub take-append-drop : (n : ℕ) (xs : List A) → take n xs ++ drop n xs ≡ xs
  take-append-drop zero xs = refl
  take-append-drop (suc n) [] = refl
  take-append-drop (suc n) (x ∷ xs) = ap (λ t. x ∷ t) (take-append-drop n xs)

  pub length-take : (n : ℕ) (xs : List A) → length (take n xs) ≡ min n (length xs)
  length-take zero xs = omega arith
  length-take (suc n) [] = omega arith
  length-take (suc n) (x ∷ xs) = omega (arith, length-take n xs)

  pub length-drop : (n : ℕ) (xs : List A) → length (drop n xs) ≡ length xs - n
  length-drop zero xs = omega arith
  length-drop (suc n) [] = omega arith
  length-drop (suc n) (x ∷ xs) = omega (arith, length-drop n xs)

  pub take-length-append : (xs ys : List A) → take (length xs) (xs ++ ys) ≡ xs
  take-length-append [] ys = refl
  take-length-append (x ∷ xs) ys = ap (λ t. x ∷ t) (take-length-append xs ys)

  pub drop-length-append : (xs ys : List A) → drop (length xs) (xs ++ ys) ≡ ys
  drop-length-append [] ys = refl
  drop-length-append (x ∷ xs) ys = drop-length-append xs ys

  pub drop-nil : (n : ℕ) → drop {A = A} n [] ≡ []
  drop-nil zero = refl
  drop-nil (suc n) = refl

  pub take-add : (m n : ℕ) (xs : List A) → take (m + n) xs ≡ take m xs ++ take n (drop m xs)
  take-add zero n xs = rw add.zero
  take-add (suc m) zero [] = rw (add.suc m zero)
  take-add (suc m) (suc n) [] = rw (add.suc m (suc n))
  take-add (suc m) n (x ∷ xs) = rw (add.suc m n) (ap (λ t. x ∷ t) (take-add m n xs))

  pub drop-add : (m n : ℕ) (xs : List A) → drop (m + n) xs ≡ drop n (drop m xs)
  drop-add zero n xs = rw add.zero
  drop-add (suc m) n [] = rw (add.suc m n) (sym (drop-nil n))
  drop-add (suc m) n (x ∷ xs) = rw (add.suc m n) (drop-add m n xs)

  pub take-take : (m n : ℕ) (xs : List A) → m ≤ n → take m (take n xs) ≡ take m xs
  take-take zero n xs h = refl
  take-take (suc m) zero xs h = absurd (omega arith)
  take-take (suc m) (suc n) [] h = refl
  take-take (suc m) (suc n) (x ∷ xs) h = ap (λ t. x ∷ t) (take-take m n xs (omega arith))

  pub drop-take : (m n : ℕ) (xs : List A) → drop m (take (m + n) xs) ≡ take n (drop m xs)
  drop-take zero n xs = rw add.zero
  drop-take (suc m) zero [] = rw (add.suc m zero)
  drop-take (suc m) (suc n) [] = rw (add.suc m (suc n))
  drop-take (suc m) n (x ∷ xs) = rw (add.suc m n) (drop-take m n xs)

  pub take-ge-length : (n : ℕ) (xs : List A) → length xs ≤ n → take n xs ≡ xs
  take-ge-length zero [] h = refl
  take-ge-length zero (x ∷ xs) h = absurd (omega arith)
  take-ge-length (suc n) [] h = refl
  take-ge-length (suc n) (x ∷ xs) h = ap (λ t. x ∷ t) (take-ge-length n xs (omega arith))

  pub take-append_le : (n : ℕ) (xs ys : List A) → n ≤ length xs → take n (xs ++ ys) ≡ take n xs
  take-append_le zero xs ys h = refl
  take-append_le (suc n) [] ys h = absurd (omega arith)
  take-append_le (suc n) (x ∷ xs) ys h = ap (λ t. x ∷ t) (take-append_le n xs ys (omega arith))

  pub drop-append_le :
      (n : ℕ) (xs ys : List A) → n ≤ length xs → drop n (xs ++ ys) ≡ drop n xs ++ ys
  drop-append_le zero xs ys h = refl
  drop-append_le (suc n) [] ys h = absurd (omega arith)
  drop-append_le (suc n) (x ∷ xs) ys h = drop-append_le n xs ys (omega arith)

  pub All-append {κ} : (P : A → Type κ) (xs ys : List A) → All P xs → All P ys → All P (xs ++ ys)
  All-append P [] ys _ hy = hy
  All-append P (x ∷ xs) ys (px, hx) hy = (px, All-append P xs ys hx hy)

  pub All-append_left {κ} : (P : A → Type κ) (xs ys : List A) → All P (xs ++ ys) → All P xs
  All-append_left P [] ys h = tt
  All-append_left P (x ∷ xs) ys (px, h) = (px, All-append_left P xs ys h)

  pub All-append_right {κ} : (P : A → Type κ) (xs ys : List A) → All P (xs ++ ys) → All P ys
  All-append_right P [] ys h = h
  All-append_right P (x ∷ xs) ys (px, h) = All-append_right P xs ys h

  pub All-map {κ μ} :
      {P : A → Type κ} {Q : A → Type μ} (xs : List A) → ((x : A) → P x → Q x) → All P xs → All Q xs
  All-map [] f h = tt
  All-map (x ∷ xs) f (px, h) = (f x px, All-map xs f h)

  pub All-reverse {κ} : (P : A → Type κ) (xs : List A) → All P xs → All P (reverse xs)
  All-reverse P [] h = tt
  All-reverse P (x ∷ xs) (px, h) =
      rw reverse-cons (All-append P (reverse xs) (x ∷ []) (All-reverse P xs h) (px, tt))

-- A property of each element and its place, the first one being at `k`.
abbrev pub AllFrom {ℓ κ} : {A : Type ℓ} → (ℕ → A → Type κ) → ℕ → List A → Type κ
AllFrom P k [] = Unit
AllFrom P k (x ∷ xs) = P k x × AllFrom P (k + 1) xs

pub AllFrom-append {ℓ κ} :
    {A : Type ℓ} (P : ℕ → A → Type κ) (k : ℕ) (xs ys : List A)
    → AllFrom P k xs
    → AllFrom P (k + length xs) ys
    → AllFrom P k (xs ++ ys)
AllFrom-append P k [] ys h hy = subst (λ i. AllFrom P i ys) (omega arith) hy
AllFrom-append P k (x ∷ xs) ys (px, h) hy =
    (px, AllFrom-append P (k + 1) xs ys h (subst (λ i. AllFrom P i ys) (omega arith) hy))

pub AllFrom-map {ℓ κ μ} :
    {A : Type ℓ} {P : ℕ → A → Type κ} {Q : ℕ → A → Type μ} (k : ℕ) (xs : List A)
    → ((i : ℕ) (x : A) → P i x → Q i x)
    → AllFrom P k xs
    → AllFrom Q k xs
AllFrom-map k [] f h = tt
AllFrom-map k (x ∷ xs) f (p, h) = (f k x p, AllFrom-map (k + 1) xs f h)
