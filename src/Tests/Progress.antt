-- ===== src/Tests/Progress.antt =====
-- The status of a process for three bytes.
use acbackup.Prelude.{ℕ, ◌+◌, ◌/◌, ◌<◌, ◌≡◌, ◌↔◌, true, none}
use acbackup.Status.{Doubles, ProcessStatus, to_json}
use acbackup.Status.Progress.{to_json_fails}

abbrev process : ProcessStatus
process = record {
  title = "Restoring";
  start_time = 1;
  is_end_determinate = true;
  n_finished_files = 0;
  n_files = 1;
  total_size = 3;
  done_size = 1;
  end_time = none;
  total_task_duration = 0;
  speed = 2;
  last_done_size = 1;
}

abbrev whole : Doubles
whole = record { Double = ℕ; of_nat = λ n. n; divided = λ a b. a / b; to_uint64 = λ n. n }

to_json_fails_example : (to_json whole (λ t. "now") (λ t n. t + n) 0 process ≡ none) ↔ (
    (◌≡◌ {A = ℕ} 0 0)
    × (0 < process.speed)
    × (process.is_end_determinate ≡ true)
    × (process.end_time ≡ none))
to_json_fails_example = to_json_fails whole (λ t. "now") (λ t n. t + n) 0 process
