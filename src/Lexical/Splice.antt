-- ===== src/Lexical/Splice.antt =====
-- A description of what a list of changes does to a text, with no working copy and no reverse order:
-- the text is read once from the front, and each change replaces its span by its target. `from` is
-- the offset of the first character of `rest`.
use human_hand.Prelude.{
  ℕ, ◌+◌, ◌-◌, ◌≤◌, ◌<◌, ◌≡◌, refl, sym, ap, ◌∙◌, subst, List, [], ◌∷◌, ◌++◌, append_assoc, arith,
  Text, slice, All, take, drop, length, take-append-drop, take-add, drop-add, take-take, drop-take,
  length-append, length-take, length-drop,
}
use human_hand.Lexical.{LexicalChange}

unfoldable pub rebuild : ℕ → Text → List LexicalChange → Text
rebuild from rest [] = rest
rebuild from rest (c ∷ cs) =
    take (c.offset - from) rest
    ++ (c.target ++ rebuild (c.offset + c.length) (drop (c.offset + c.length - from) rest) cs)

-- The spans lie one behind the other, from `from` on.
abbrev pub IsOrdered : ℕ → List LexicalChange → Type 0
IsOrdered from [] = Unit
IsOrdered from (c ∷ cs) = (from ≤ c.offset) × IsOrdered (c.offset + c.length) cs

-- They end at or before `limit`.
abbrev pub EndsBy : ℕ → List LexicalChange → Type 0
EndsBy limit = All (λ c. c.offset + c.length ≤ limit)

-- The change's span lies in the text and holds what the change expects.
pub record Fits (from : ℕ) (text : Text) (c : LexicalChange) : Type 0 where
  pub after : from ≤ c.offset
  pub nonempty : 0 < c.length
  pub within : c.offset + c.length ≤ from + length text
  pub exact : slice text (c.offset - from) (c.offset - from + c.length) ≡ c.source_surface

-- What the targets add, and what the spans take away.
unfoldable pub gained : List LexicalChange → ℕ
gained [] = 0
gained (c ∷ cs) = length c.target + gained cs

unfoldable pub lost : List LexicalChange → ℕ
lost [] = 0
lost (c ∷ cs) = c.length + lost cs

take_sum : {k m n : ℕ} (xs : Text) → m ≤ n → k ≡ n - m → take n xs ≡ take m xs ++ take k (drop m xs)
take_sum {k} {m} {n} xs h e =
    ap (λ t. take t xs) (let s : n ≡ m + k = omega arith in s) ∙ take-add m k xs

drop_sum : {k m n : ℕ} (xs : Text) → m ≤ n → k ≡ n - m → drop n xs ≡ drop k (drop m xs)
drop_sum {k} {m} {n} xs h e =
    ap (λ t. drop t xs) (let s : n ≡ m + k = omega arith in s) ∙ drop-add m k xs

drop_of_take : {k m n : ℕ} (xs : Text) → m ≤ n → k ≡ n - m → drop m (take n xs) ≡ take k (drop m xs)
drop_of_take {k} {m} {n} xs h e =
    ap (λ t. drop m (take t xs)) (let s : n ≡ m + k = omega arith in s) ∙ drop-take m k xs

EndsBy-cast : {a b : ℕ} (cs : List LexicalChange) → a ≡ b → EndsBy a cs → EndsBy b cs
EndsBy-cast cs e h = subst (λ n. EndsBy n cs) e h

-- What stands before the first change is copied.
pub rebuild_skip :
    (from to : ℕ) (rest : Text) (cs : List LexicalChange)
    → from ≤ to
    → IsOrdered to cs
    → rebuild from rest cs ≡ take (to - from) rest ++ rebuild to (drop (to - from) rest) cs
unfolding rebuild
rebuild_skip from to rest [] h o = sym (take-append-drop (to - from) rest)
rebuild_skip from to rest (c ∷ cs) h (first, o) = rw (
  take_sum {k = c.offset - to} {m = to - from} {n = c.offset - from} rest (omega arith)
      (omega arith),
  drop_sum {k = c.offset + c.length - to} {m = to - from} {n = c.offset + c.length - from} rest
      (omega arith) (omega arith),
  append_assoc,
)

-- A text can be cut where no change crosses: the parts are rebuilt each by its own changes.
pub rebuild-append :
    (from cut : ℕ) (rest : Text) (xs ys : List LexicalChange)
    → from ≤ cut
    → IsOrdered from xs
    → EndsBy cut xs
    → IsOrdered cut ys
    → rebuild from rest (xs ++ ys)
      ≡ rebuild from (take (cut - from) rest) xs ++ rebuild cut (drop (cut - from) rest) ys
unfolding rebuild
rebuild-append from cut rest [] ys h _ _ o = rebuild_skip from cut rest ys h o
rebuild-append from cut rest (c ∷ cs) ys h (first, ox) (last, ends) oy = rw (
  rebuild-append (c.offset + c.length) cut (drop (c.offset + c.length - from) rest) cs ys last ox
      ends oy,
  take-take (c.offset - from) (cut - from) rest (omega arith),
  drop_of_take {k = cut - (c.offset + c.length)} {m = c.offset + c.length - from} {n = cut - from}
      rest (omega arith) (omega arith),
  drop_sum {k = cut - (c.offset + c.length)} {m = c.offset + c.length - from} {n = cut - from} rest
      (omega arith) (omega arith),
  append_assoc,
  append_assoc,
)

-- The length changes by what the targets add and the spans take away.
pub length-rebuild :
    (from : ℕ) (rest : Text) (cs : List LexicalChange)
    → IsOrdered from cs
    → EndsBy (from + length rest) cs
    → length (rebuild from rest cs) + lost cs ≡ length rest + gained cs
unfolding rebuild gained lost
length-rebuild from rest [] _ _ = refl
length-rebuild from rest (c ∷ cs) (first, o) (last, ends) =
    let end = c.offset + c.length in
    let behind = drop (end - from) rest in
    omega (
      arith,
      length-append (take (c.offset - from) rest) (c.target ++ rebuild end behind cs),
      length-append c.target (rebuild end behind cs),
      length-take (c.offset - from) rest,
      length-drop (end - from) rest,
      length-rebuild end behind cs o
          (EndsBy-cast cs (omega (arith, length-drop (end - from) rest)) ends),
    )
