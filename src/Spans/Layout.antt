-- ===== src/Spans/Layout.antt =====
-- How `build_protected_span_set` lays the spans out.
use human_hand.Prelude.{
  ℕ, ◌+◌, ◌≤◌, ◌≡◌, refl, false, ◌||◌, List, [], ◌∷◌, ◌++◌, any, ltb, arith, Text, codes, All, ok,
  Bool-cases, inl, inr,
}
use human_hand.Spans.{ProtectedSpan, same_key, build_loop, build_protected_span_set}

abbrev pub IsForward : ProtectedSpan → Type 0
IsForward s = s.source_location.start_offset ≤ s.source_location.end_offset

-- In order, without overlap, from `from` on, with the ids s1, s2 and so on after the first `count`.
abbrev pub IsLaidOut : (decimal : ℕ → Text) → (from count : ℕ) → List ProtectedSpan → Type 0
IsLaidOut decimal from count [] = Unit
IsLaidOut decimal from count (s ∷ rest) =
    (from ≤ s.source_location.start_offset)
    × IsForward s
    × (s.span_id ≡ codes "s" ++ decimal (count + 1))
    × IsLaidOut decimal s.source_location.end_offset (count + 1) rest

module _ (decimal : ℕ → Text) where
  build_loop-IsLaidOut :
      (previous_end count : ℕ) (seen spans : List ProtectedSpan)
      → All IsForward spans
      → (kept : List ProtectedSpan) × (build_loop decimal previous_end count seen spans ≡ ok kept)
        × IsLaidOut decimal previous_end count kept
  unfolding build_loop
  build_loop-IsLaidOut previous_end count seen [] h = ([], refl, tt)
  build_loop-IsLaidOut previous_end count seen (s ∷ rest) (forward, h) =
      let start = s.source_location.start_offset in
      let end = s.source_location.end_offset in
      let valid : ltb end start ≡ false = ground arith in
      elim (Bool-cases (any (same_key s) seen || ltb start previous_end)) [
        | inl skipped ↦
            let (kept, e, laid) = build_loop-IsLaidOut previous_end count seen rest h in
            (kept, rw (valid, skipped) e, laid)
        | inr kept_here ↦
            let (kept, e, laid) = build_loop-IsLaidOut end (count + 1) (s ∷ seen) rest h in
            let behind : previous_end ≤ start = ground arith in
            (
              record s { span_id = codes "s" ++ decimal (count + 1) } ∷ kept,
              rw (valid, kept_here, e),
              (behind, forward, refl, laid),
            )
      ]

  -- From spans none of which is reversed `build_protected_span_set` returns a set: its spans are in
  -- document order, none overlaps the one before, and their ids count from s1.
  pub build_protected_span_set-IsLaidOut :
      (spans : List ProtectedSpan)
      → All IsForward spans
      → (kept : List ProtectedSpan) × (build_protected_span_set decimal spans ≡ ok kept)
        × IsLaidOut decimal 0 0 kept
  unfolding build_protected_span_set
  build_protected_span_set-IsLaidOut spans h = build_loop-IsLaidOut 0 0 [] spans h
