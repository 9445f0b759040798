-- ===== src/Import/Limits.antt =====
-- The limits of an import together with the status that its findings get (import_policy.py and
-- import_findings.py).
use human_hand.Prelude.{◌≡◌, ◌&&◌, arith, Text, text_eq, if◌then◌else◌}
use human_hand.Prelude.Int.{ℤ, int_le}
use human_hand.Import.{
  ImportPolicy, check_limit, check_limits, clean, failed, is_error, is_unsupported_format,
  is_review_category, needs_review, is_magic_mismatch, flag_step, flag_loop, status_of_flags,
  classify_status,
}

module _ (decimal : ℤ → Text) where
  -- The status of the findings of `check_limits` is clean when each of the four measures is at most its
  -- limit, and failed when one of them is larger.
  pub classify_status-check_limits :
      (policy : ImportPolicy) (size_bytes expanded_bytes node_count depth : ℤ)
      → classify_status (check_limits decimal policy size_bytes expanded_bytes node_count depth) ≡ (
          if int_le size_bytes policy.max_bytes
            && int_le expanded_bytes policy.max_expanded_bytes
            && int_le node_count policy.max_nodes
            && int_le depth policy.max_depth
          then clean
          else failed)
  unfolding classify_status status_of_flags flag_loop flag_step is_error is_unsupported_format
      is_review_category needs_review is_magic_mismatch check_limit check_limits text_eq
  classify_status-check_limits policy size_bytes expanded_bytes node_count depth = ground arith
