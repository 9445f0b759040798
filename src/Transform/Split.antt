-- ===== src/Transform/Split.antt =====
-- The changes before, inside and behind a span, as `_changes_inside` (revision_transform.py) sees them.
use human_hand.Prelude.{
  ℕ, ◌+◌, ◌≤◌, ◌<◌, ◌≡◌, refl, sym, ap, subst, ◌∙◌, inl, inr, List, [], ◌∷◌, ◌++◌, arith, ltb,
  Bool-cases, ok, ok-injective, Result-cases,
}
use human_hand.Lexical.{LexicalChange}
use human_hand.Lexical.Splice.{IsOrdered, EndsBy}
use human_hand.Lexical.Apply.Order.{IsOrdered-weaken}
use human_hand.Transform.{changes_inside}

pub record Split (from start end : ℕ) (cs inside : List LexicalChange) : Type 0 where
  pub before : List LexicalChange
  pub behind : List LexicalChange
  pub whole : cs ≡ before ++ (inside ++ behind)
  pub before_ordered : IsOrdered from before
  pub before_ends : EndsBy start before
  pub inside_ordered : IsOrdered start inside
  pub inside_ends : EndsBy end inside
  pub behind_ordered : IsOrdered end behind

-- Behind the span nothing is inside.
changes_inside-behind :
    (start end : ℕ) (cs : List LexicalChange)
    → IsOrdered end cs
    → changes_inside start end cs ≡ ok []
unfolding changes_inside
changes_inside-behind start end [] o = refl
changes_inside-behind start end (c ∷ cs) (first, o) =
    ground (arith, changes_inside-behind start end cs (IsOrdered-weaken cs (omega arith) o))

-- How a change lies to the span, when the guard lets it pass.
data Place (start end : ℕ) (c : LexicalChange) (cs inside : List LexicalChange) : Type 0 where
  is_before :
      c.offset + c.length ≤ start
      → changes_inside start end cs ≡ ok inside
      → Place start end c cs inside
  is_behind : end ≤ c.offset → Place start end c cs inside
  is_inside :
      start ≤ c.offset
      → start < c.offset + c.length
      → c.offset + c.length ≤ end
      → (others : List LexicalChange) → inside ≡ c ∷ others
      → changes_inside start end cs ≡ ok others
      → Place start end c cs inside

place :
    (start end : ℕ) (c : LexicalChange) (cs inside : List LexicalChange)
    → changes_inside start end (c ∷ cs) ≡ ok inside
    → Place start end c cs inside
unfolding changes_inside
place start end c cs inside e = elim (Bool-cases (ltb c.offset end)) [
  | inr far ↦ is_behind (ground arith)
  | inl near ↦ elim (Bool-cases (ltb start (c.offset + c.length))) [
    | inr early ↦ is_before (ground arith) (ground arith)
    | inl meets ↦ elim (Result-cases (changes_inside start end cs)) [
      | inl (others, rest) ↦
          is_inside (ground arith) (ground arith) (ground arith) others (ground arith) rest
      | inr (x, rest) ↦ absurd (ground arith)
    ]
  ]
]

-- A change inside the span has nothing before the span behind it.
no_before :
    (start : ℕ) (c : LexicalChange) (before rest : List LexicalChange)
    → start < c.offset + c.length
    → IsOrdered (c.offset + c.length) (before ++ rest)
    → EndsBy start before
    → before ≡ []
no_before start c [] rest h o e = refl
no_before start c (b ∷ bs) rest h (first, _) (last, _) = absurd (omega arith)

IsOrdered-append_left :
    (from : ℕ) (xs ys : List LexicalChange) → IsOrdered from (xs ++ ys) → IsOrdered from xs
IsOrdered-append_left from [] ys o = tt
IsOrdered-append_left from (x ∷ xs) ys (first, o) =
    (first, IsOrdered-append_left (x.offset + x.length) xs ys o)

pub split :
    (from start end : ℕ) (cs inside : List LexicalChange)
    → start ≤ end
    → IsOrdered from cs
    → changes_inside start end cs ≡ ok inside
    → Split from start end cs inside
unfolding changes_inside
split from start end [] inside h o e = record {
  before = [];
  behind = [];
  whole = rw (← ok-injective e);
  before_ordered = tt;
  before_ends = tt;
  inside_ordered = rw (← ok-injective e) tt;
  inside_ends = rw (← ok-injective e) tt;
  behind_ordered = tt;
}
split from start end (c ∷ cs) inside h (first, o) e =
    let rest = split (c.offset + c.length) start end cs in
    elim (place start end c cs inside e) [
      | is_before early e' ↦
          let r = rest inside h o e' in
          record {
            before = c ∷ r.before;
            behind = r.behind;
            whole = ap (λ t. c ∷ t) r.whole;
            before_ordered = (first, r.before_ordered);
            before_ends = (early, r.before_ends);
            inside_ordered = r.inside_ordered;
            inside_ends = r.inside_ends;
            behind_ordered = r.behind_ordered;
          }
      | is_behind far ↦
          let none_inside : inside ≡ [] =
            ok-injective (sym e ∙ changes_inside-behind start end (c ∷ cs) (far, o)) in
          record {
            before = [];
            behind = c ∷ cs;
            whole = rw none_inside;
            before_ordered = tt;
            before_ends = tt;
            inside_ordered = rw none_inside tt;
            inside_ends = rw none_inside tt;
            behind_ordered = (far, o);
          }
      | is_inside late meets fits others same e' ↦
          let r = rest others h o e' in
          let alone : r.before ≡ [] =
            no_before start c r.before (others ++ r.behind) meets
              (subst (IsOrdered (c.offset + c.length)) r.whole o) r.before_ends in
          let whole' : cs ≡ others ++ r.behind =
            r.whole ∙ ap (λ t. t ++ (others ++ r.behind)) alone in
          let o' : IsOrdered (c.offset + c.length) (others ++ r.behind) =
            subst (IsOrdered (c.offset + c.length)) whole' o in
          record {
            before = [];
            behind = r.behind;
            whole = rw same (ap (λ t. c ∷ t) whole');
            before_ordered = tt;
            before_ends = tt;
            inside_ordered =
                rw same (late, IsOrdered-append_left (c.offset + c.length) others r.behind o');
            inside_ends = rw same (fits, r.inside_ends);
            behind_ordered = r.behind_ordered;
          }
    ]
