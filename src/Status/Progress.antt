-- ===== src/Status/Progress.antt =====
-- The size that is left, and when the status of a process can be given out.
use acbackup.Prelude.{if◌then◌else◌, ltb, ℕ, ◌+◌, ◌^◌, ◌<◌, ◌≡◌, ◌↔◌, true, none, arith, String}
use acbackup.Node.{DateTime}
use acbackup.Status.{
  Doubles, ProcessStatus, left_size, sub_uint64, add_finished_size, compute_expected_end_time,
  expected_end_time_text, get_duration, to_json,
}

-- For sizes in the range of `uint64` that `AddFinishedSize` does not leave: after it, the size that
-- is left and the size that is done add up to the total, and to 2^64 more where more is done than
-- the total.
left_size-add_finished_size :
    (p : ProcessStatus) (n : ℕ)
    → p.total_size < 2 ^ 64
    → p.done_size < 2 ^ 64
    → p.done_size + n < 2 ^ 64
    → left_size (add_finished_size n p) + (p.done_size + n)
      ≡ p.total_size + (if ltb p.total_size (p.done_size + n) then 2 ^ 64 else 0)
unfolding left_size sub_uint64 add_finished_size
left_size-add_finished_size p n total done more = ground arith

module _ (doubles : Doubles) (to_iso : DateTime → String)
    (add_milliseconds : DateTime → ℕ → DateTime) where
  -- `ToJSON` asks for the text of an expected end that there is none of just where the clock shows
  -- no microsecond, the speed is positive, and the end of the process is determinate and not
  -- reached.
  pub to_json_fails :
      (elapsed : ℕ) (p : ProcessStatus)
      → (to_json doubles to_iso add_milliseconds elapsed p ≡ none)
        ↔ ((elapsed ≡ 0) × (0 < p.speed) × (p.is_end_determinate ≡ true) × (p.end_time ≡ none))
  unfolding to_json expected_end_time_text compute_expected_end_time get_duration
  to_json_fails elapsed p = ground arith
