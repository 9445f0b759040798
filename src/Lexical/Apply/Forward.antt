-- ===== src/Lexical/Apply/Forward.antt =====
-- The loop of `apply_changes` (lexical_normalizer.py), which works from the back on a working copy,
-- against one pass from the front.
use mathlib.Core.Path.{fun_ext}
use human_hand.Prelude.{
  ℕ, ◌+◌, ◌-◌, ◌≤◌, ◌<◌, ◌≡◌, ◌↔◌, refl, sym, ap, ◌∙◌, List, [], ◌∷◌, ◌++◌, reverse, reverse-cons,
  arith, Text, slice, text_eq→eq, eq→text_eq, All, length, ok, err, ◌>>=◌, >>=-eq-ok,
}
use human_hand.Lexical.{LexicalChange}
use human_hand.Lexical.Splice.{rebuild, IsOrdered, Fits}
use human_hand.Lexical.Apply.{replace_span, apply_change, apply_loop}
use human_hand.Lexical.Apply.Step.{slice-rebuild, replace_span-rebuild, within-rebuild}

-- What the two tests of a round ask of the working copy.
record Passes (working : Text) (c : LexicalChange) : Type 0 where
  nonempty : 0 < c.length
  within : c.offset + c.length ≤ length working
  exact : slice working c.offset (c.offset + c.length) ≡ c.source_surface

apply_change-Passes' :
    (working : Text) (c : LexicalChange)
    → Passes working c
    → apply_change working c ≡ ok (replace_span working c.offset c.length c.target)
unfolding apply_change
apply_change-Passes' working c p =
    rw (eq→text_eq (slice working c.offset (c.offset + c.length)) c.source_surface p.exact)
      (ground (arith, p.nonempty, p.within))

apply_change-Passes :
    (working : Text) (c : LexicalChange) {w : Text}
    → apply_change working c ≡ ok w
    → Passes working c
unfolding apply_change
apply_change-Passes working c h = record {
  nonempty = ground arith;
  within = ground arith;
  exact = text_eq→eq _ _ (ground arith);
}

sub_zero : (n : ℕ) → n - 0 ≡ n
sub_zero n = omega arith

module _ (text : Text) (c : LexicalChange) (cs : List LexicalChange)
    (ordered : IsOrdered (c.offset + c.length) cs) (fits : All (Fits 0 text) cs) where
  slice_same :
      c.offset + c.length ≤ 0 + length text
      → slice (rebuild 0 text cs) c.offset (c.offset + c.length)
        ≡ slice text c.offset (c.offset + c.length)
  slice_same w = rw sub_zero at (slice-rebuild 0 text c cs (omega arith) ordered w)

  same_room :
      (c.offset + c.length ≤ length (rebuild 0 text cs)) ↔ (c.offset + c.length ≤ length text)
  same_room = rw sub_zero at (within-rebuild 0 text c cs (omega arith) ordered fits)

  fit-of_slice :
      slice text c.offset (c.offset + c.length) ≡ c.source_surface
      → slice text (c.offset - 0) (c.offset - 0 + c.length) ≡ c.source_surface
  fit-of_slice h = rw sub_zero h

  Passes-rebuild : Fits 0 text c → Passes (rebuild 0 text cs) c
  Passes-rebuild f = record {
    nonempty = f.nonempty;
    within = same_room.1 (omega (arith, f.within));
    exact = slice_same f.within ∙ (rw sub_zero at f.exact);
  }

  Fits-rebuild : Passes (rebuild 0 text cs) c → Fits 0 text c
  Fits-rebuild p =
      let room = same_room.0 p.within in
      let within : c.offset + c.length ≤ 0 + length text = omega arith in
      record {
        after = omega arith;
        nonempty = p.nonempty;
        within = within;
        exact = fit-of_slice (sym (slice_same within) ∙ p.exact);
      }

  apply_change-rebuild :
      Fits 0 text c → apply_change (rebuild 0 text cs) c ≡ ok (rebuild 0 text (c ∷ cs))
  apply_change-rebuild f =
      apply_change-Passes' (rebuild 0 text cs) c (Passes-rebuild f)
      ∙ ap ok (rw sub_zero at (replace_span-rebuild 0 text c cs (omega arith) ordered f.within))

apply_loop-append :
    (working : Text) (xs ys : List LexicalChange)
    → apply_loop working (xs ++ ys) ≡ (apply_loop working xs >>= λ w. apply_loop w ys)
unfolding apply_loop
apply_loop-append working [] ys = refl
apply_loop-append working (x ∷ xs) ys =
    elim (apply_change working x)
      as (λ r.
        (r >>= λ w. apply_loop w (xs ++ ys))
        ≡ (r >>= (λ w. apply_loop w xs) >>= λ w. apply_loop w ys)) [
          | ok w ↦ apply_loop-append w xs ys
          | err e ↦ refl
        ]

apply_loop-one :
    (working : Text) (c : LexicalChange) → apply_loop working (c ∷ []) ≡ apply_change working c
unfolding apply_loop
apply_loop-one working c = elim (apply_change working c) as (λ r. (r >>= λ w. ok w) ≡ r) [
  | ok w ↦ refl
  | err e ↦ refl
]

loop_step :
    (text : Text) (c : LexicalChange) (cs : List LexicalChange)
    → apply_loop text (reverse (c ∷ cs)) ≡ (apply_loop text (reverse cs) >>= λ w. apply_change w c)
loop_step text c cs =
    rw (reverse-cons, apply_loop-append)
      (ap (λ k. apply_loop text (reverse cs) >>= k) (fun_ext (λ w. apply_loop-one w c)))

-- On ordered changes that all fit the text, the loop from the back gives the pass from the front.
pub apply_loop-reverse :
    (from : ℕ) (text : Text) (cs : List LexicalChange)
    → IsOrdered from cs
    → All (Fits 0 text) cs
    → apply_loop text (reverse cs) ≡ ok (rebuild 0 text cs)
unfolding apply_loop rebuild
apply_loop-reverse from text [] _ _ = refl
apply_loop-reverse from text (c ∷ cs) (_, o) (f, fits) =
    loop_step text c cs
    ∙ ap (λ r. r >>= λ w. apply_change w c)
        (apply_loop-reverse (c.offset + c.length) text cs o fits)
    ∙ apply_change-rebuild text c cs o fits f

-- If it ends, every change fitted the original text.
pub apply_loop-Fits :
    (from : ℕ) (text : Text) (cs : List LexicalChange) {w : Text}
    → IsOrdered from cs
    → apply_loop text (reverse cs) ≡ ok w
    → All (Fits 0 text) cs
apply_loop-Fits from text [] _ _ = tt
apply_loop-Fits from text (c ∷ cs) (_, o) h =
    let (w', done, last) =
      >>=-eq-ok (apply_loop text (reverse cs)) (λ w. apply_change w c)
        (sym (loop_step text c cs) ∙ h) in
    let fits = apply_loop-Fits (c.offset + c.length) text cs o done in
    let same : ok w' ≡ ok (rebuild 0 text cs) =
      sym done ∙ apply_loop-reverse (c.offset + c.length) text cs o fits in
    (
      Fits-rebuild text c cs o fits (
          apply_change-Passes (rebuild 0 text cs) c
            (ap (λ r. r >>= λ w. apply_change w c) (sym same) ∙ last)),
      fits,
    )
