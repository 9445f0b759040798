-- ===== src/Transform/Edit.antt =====
-- The loop over the changes of one node (`_apply_node_changes`), from the back, on a working copy, with
-- offsets counted from the node's start.
use mathlib.Core.Path.{fun_ext}
use human_hand.Prelude.{
  ℕ, ◌+◌, ◌-◌, ◌≤◌, ◌≡◌, refl, sym, ap, ◌∙◌, List, [], ◌∷◌, ◌++◌, reverse, reverse-cons, arith,
  Text, slice, eq→text_eq, All, length, ok, err, ◌>>=◌, >>=-eq-ok,
}
use human_hand.Lexical.{LexicalChange}
use human_hand.Lexical.Splice.{rebuild, IsOrdered, EndsBy, Fits}
use human_hand.Lexical.Apply.{replace_span}
use human_hand.Lexical.Apply.Step.{slice-rebuild, replace_span-rebuild}
use human_hand.Transform.{edit_change, edit_loop}

edit_loop-append :
    (start : ℕ) (working : Text) (xs ys : List LexicalChange)
    → edit_loop start working (xs ++ ys)
      ≡ (edit_loop start working xs >>= λ w. edit_loop start w ys)
unfolding edit_loop
edit_loop-append start working [] ys = refl
edit_loop-append start working (x ∷ xs) ys =
    elim (edit_change start working x)
      as (λ r.
        (r >>= λ w. edit_loop start w (xs ++ ys))
        ≡ (r >>= (λ w. edit_loop start w xs) >>= λ w. edit_loop start w ys)) [
          | ok w ↦ edit_loop-append start w xs ys
          | err e ↦ refl
        ]

edit_loop-one :
    (start : ℕ) (working : Text) (c : LexicalChange)
    → edit_loop start working (c ∷ []) ≡ edit_change start working c
unfolding edit_loop
edit_loop-one start working c = elim (edit_change start working c) as (λ r. (r >>= λ w. ok w) ≡ r) [
  | ok w ↦ refl
  | err e ↦ refl
]

loop_step :
    (start : ℕ) (text : Text) (c : LexicalChange) (cs : List LexicalChange)
    → edit_loop start text (reverse (c ∷ cs))
      ≡ (edit_loop start text (reverse cs) >>= λ w. edit_change start w c)
loop_step start text c cs =
    rw (reverse-cons, edit_loop-append)
      (ap (λ k. edit_loop start text (reverse cs) >>= k) (fun_ext (λ w. edit_loop-one start w c)))

edit_change-eq-ok :
    (start : ℕ) (working : Text) (c : LexicalChange) {w : Text}
    → edit_change start working c ≡ ok w
    → w ≡ replace_span working (c.offset - start) c.length c.target
unfolding edit_change
edit_change-eq-ok start working c h = ground arith

-- On ordered changes inside the node the loop, where it ends, gives the pass from the front.
pub edit_loop-rebuild :
    (start from : ℕ) (text : Text) (cs : List LexicalChange) {w : Text}
    → start ≤ from
    → IsOrdered from cs
    → EndsBy (start + length text) cs
    → edit_loop start text (reverse cs) ≡ ok w
    → w ≡ rebuild start text cs
unfolding edit_loop rebuild
edit_loop-rebuild start from text [] _ _ _ h = ground arith
edit_loop-rebuild start from text (c ∷ cs) s (first, o) (last, ends) h =
    let (w', done, step) =
      >>=-eq-ok (edit_loop start text (reverse cs)) (λ w. edit_change start w c)
        (sym (loop_step start text c cs) ∙ h) in
    let end = c.offset + c.length in
    edit_change-eq-ok start w' c step
    ∙ ap (λ t. replace_span t (c.offset - start) c.length c.target)
        (edit_loop-rebuild start end text cs (omega arith) o ends done)
    ∙ replace_span-rebuild start text c cs (omega arith) o last

edit_change-rebuild :
    (start : ℕ) (text : Text) (c : LexicalChange) (cs : List LexicalChange)
    → IsOrdered (c.offset + c.length) cs
    → Fits start text c
    → edit_change start (rebuild start text cs) c ≡ ok (rebuild start text (c ∷ cs))
unfolding edit_change
edit_change-rebuild start text c cs o f =
    rw
      (eq→text_eq (slice (rebuild start text cs) (c.offset - start) (c.offset - start + c.length))
        c.source_surface (slice-rebuild start text c cs f.after o f.within ∙ f.exact))
      (ap ok (replace_span-rebuild start text c cs f.after o f.within))

-- Changes that fit the node's text let the loop end.
pub edit_loop-of_Fits :
    (start from : ℕ) (text : Text) (cs : List LexicalChange)
    → IsOrdered from cs
    → All (Fits start text) cs
    → edit_loop start text (reverse cs) ≡ ok (rebuild start text cs)
unfolding edit_loop rebuild
edit_loop-of_Fits start from text [] _ _ = refl
edit_loop-of_Fits start from text (c ∷ cs) (_, o) (f, fits) =
    loop_step start text c cs
    ∙ ap (λ r. r >>= λ w. edit_change start w c)
        (edit_loop-of_Fits start (c.offset + c.length) text cs o fits)
    ∙ edit_change-rebuild start text c cs o f
