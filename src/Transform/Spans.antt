-- ===== src/Transform/Spans.antt =====
-- The shifted offsets of a span that no change crosses (revision_transform.py).
use human_hand.Prelude.{
  ℕ, ◌+◌, ◌-◌, ◌≤◌, ◌≡◌, ap, subst, ◌∙◌, List, [], ◌∷◌, ◌++◌, append_assoc, arith, Text, slice, All,
  All-map, All-append, All-append_right, take, drop, length, length-append, length-take,
  length-drop, drop-length-append, take-length-append,
}
use human_hand.Lexical.{LexicalChange}
use human_hand.Lexical.Splice.{
  rebuild, rebuild-append, length-rebuild, IsOrdered, EndsBy, gained, lost,
}
use human_hand.Lexical.Apply.Order.{IsNonempty, IsOrdered-weaken}
use human_hand.Transform.{shifted_offset}
use human_hand.Transform.Split.{Split}
use human_hand.Transform.Shift.{shifted_offset-append}

gained-append : (xs ys : List LexicalChange) → gained (xs ++ ys) ≡ gained xs + gained ys
unfolding gained
gained-append [] ys = omega arith
gained-append (x ∷ xs) ys = omega (arith, gained-append xs ys)

lost-append : (xs ys : List LexicalChange) → lost (xs ++ ys) ≡ lost xs + lost ys
unfolding lost
lost-append [] ys = omega arith
lost-append (x ∷ xs) ys = omega (arith, lost-append xs ys)

IsOrdered-append :
    (from cut : ℕ) (xs ys : List LexicalChange)
    → from ≤ cut
    → IsOrdered from xs
    → EndsBy cut xs
    → IsOrdered cut ys
    → IsOrdered from (xs ++ ys)
IsOrdered-append from cut [] ys h _ _ oy = IsOrdered-weaken ys h oy
IsOrdered-append from cut (x ∷ xs) ys h (first, ox) (last, ex) oy =
    (first, IsOrdered-append (x.offset + x.length) cut xs ys last ox ex oy)

EndsBy-weaken : {a b : ℕ} (xs : List LexicalChange) → a ≤ b → EndsBy a xs → EndsBy b xs
EndsBy-weaken xs h = All-map xs (λ c e. omega arith)

sub_zero : (n : ℕ) → n - 0 ≡ n
sub_zero n = omega arith

-- Three texts in a row, cut where the middle one stands.
slice-middle :
    (xs ys zs : Text) {m n : ℕ}
    → m ≡ length xs
    → n ≡ m + length ys
    → slice (xs ++ (ys ++ zs)) m n ≡ ys
slice-middle xs ys zs {m} {n} em en =
    ap (λ k. take k (drop m (xs ++ (ys ++ zs)))) (let e : n - m ≡ length ys = omega arith in e)
    ∙ ap (λ k. take (length ys) (drop k (xs ++ (ys ++ zs)))) em
    ∙ ap (take (length ys)) (drop-length-append xs (ys ++ zs))
    ∙ take-length-append ys zs

module _ (text : Text) (start end : ℕ) (within : start ≤ end) (room : end ≤ length text)
    {cs inside : List LexicalChange} (full : All IsNonempty cs)
    (p : Split 0 start end cs inside) where
  abbrev front : Text
  front = rebuild 0 (take (start - 0) text) p.before

  abbrev middle : Text
  middle = rebuild start (slice text start end) inside

  abbrev back : Text
  back = rebuild end (drop (end - start) (drop (start - 0) text)) p.behind

  rest-IsOrdered : IsOrdered start (inside ++ p.behind)
  rest-IsOrdered =
      IsOrdered-append start end inside p.behind within p.inside_ordered p.inside_ends
        p.behind_ordered

  pub rest_full : All IsNonempty (inside ++ p.behind)
  rest_full =
      All-append_right IsNonempty p.before (inside ++ p.behind)
        (subst (All IsNonempty) p.whole full)

  three_parts : rebuild 0 text cs ≡ front ++ (middle ++ back)
  three_parts =
      ap (rebuild 0 text) p.whole
      ∙ rebuild-append 0 start text p.before (inside ++ p.behind) (omega arith) p.before_ordered
          p.before_ends rest-IsOrdered
      ∙ ap (λ t. front ++ t)
          (rw sub_zero (
            rebuild-append start end (drop start text) inside p.behind within p.inside_ordered
              p.inside_ends p.behind_ordered))

  front_length : length front + lost p.before ≡ start + gained p.before
  front_length = omega (
    arith,
    length-take (start - 0) text,
    length-rebuild 0 (take (start - 0) text) p.before p.before_ordered
        (EndsBy-weaken p.before (omega (arith, length-take (start - 0) text)) p.before_ends),
  )

  middle_length : length middle + lost inside ≡ end - start + gained inside
  middle_length =
      let size : length (slice text start end) ≡ end - start =
        omega (arith, length-take (end - start) (drop start text), length-drop start text) in
      omega (
        arith,
        size,
        length-rebuild start (slice text start end) inside p.inside_ordered
            (EndsBy-weaken inside (omega arith) p.inside_ends),
      )

  start_shifted : shifted_offset start cs ≡ length front
  start_shifted = rw p.whole (
      omega (
        arith,
        front_length,
        shifted_offset-append start p.before (inside ++ p.behind) p.before_ordered p.before_ends
            rest-IsOrdered rest_full,
      ))

  end_shifted : shifted_offset end cs ≡ length front + length middle
  end_shifted =
      let near = p.before ++ inside in
      let ends = EndsBy-weaken p.before within p.before_ends in
      rw (p.whole, ← append_assoc)
        (omega (
          arith,
          front_length,
          middle_length,
          gained-append p.before inside,
          lost-append p.before inside,
          shifted_offset-append end near p.behind
              (IsOrdered-append 0 start p.before inside (omega arith) p.before_ordered p.before_ends
                p.inside_ordered)
              (All-append (λ c. c.offset + c.length ≤ end) p.before inside ends p.inside_ends)
              p.behind_ordered (All-append_right IsNonempty inside p.behind rest_full),
        ))

  pub slice-shifted :
      slice (rebuild 0 text cs) (shifted_offset start cs) (shifted_offset end cs) ≡ middle
  slice-shifted =
      rw three_parts
        (slice-middle front middle back start_shifted (omega (arith, start_shifted, end_shifted)))

  pub shifted_room :
      (shifted_offset start cs ≤ shifted_offset end cs)
      × (shifted_offset end cs ≤ length (rebuild 0 text cs))
  shifted_room = (
    omega (arith, start_shifted, end_shifted),
    rw three_parts (
        omega
          (arith, end_shifted, length-append front (middle ++ back), length-append middle back)),
  )
