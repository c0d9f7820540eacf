-- ===== src/Status.antt =====
-- src/status/ProcessStatus.{hpp,cpp} and StatusTrackingOutputStream.cpp: how far a process is. The
-- clocks are arguments, and so is what the constructors leave as they find it in memory.
pub mod Progress
use acbackup.Prelude.{
  ℕ, ◌+◌, ◌-◌, ◌/◌, ◌%◌, ◌^◌, Bool, true, false, ◌&&◌, Option, none, some, List, [], ◌∷◌, ◌++◌,
  String, ltb, ◌==◌, not, if◌then◌else◌,
}
use acbackup.Node.{DateTime, add_uint64}

-- `float64`, as far as it is used.
pub record Doubles : Type 1 where
  pub Double : Type 0
  pub of_nat : ℕ → Double
  pub divided : Double → Double → Double
  pub to_uint64 : Double → ℕ

pub record ProcessStatus : Type 0 where
  pub title : String
  pub start_time : DateTime
  pub is_end_determinate : Bool
  pub n_finished_files : ℕ
  pub n_files : ℕ
  pub total_size : ℕ
  pub done_size : ℕ
  pub end_time : Option DateTime
  pub total_task_duration : ℕ
  pub speed : ℕ
  pub last_done_size : ℕ

-- The first constructor, whose `speed`, `lastDoneSize` and `totalTaskDuration` are not set.
unfoldable pub begin_process : String → DateTime → ℕ → ℕ → ℕ → ProcessStatus
begin_process title now speed last_done_size duration = record {
  title = title;
  start_time = now;
  is_end_determinate = false;
  n_finished_files = 0;
  n_files = 0;
  total_size = 0;
  done_size = 0;
  end_time = none;
  total_task_duration = duration;
  speed = speed;
  last_done_size = last_done_size;
}

-- The second constructor, for a number of files of a total size.
unfoldable begin_known_process : String → DateTime → ℕ → ℕ → ℕ → ProcessStatus
begin_known_process title now n_files total_size duration = record {
  title = title;
  start_time = now;
  is_end_determinate = true;
  n_finished_files = 0;
  n_files = n_files;
  total_size = total_size;
  done_size = 0;
  end_time = none;
  total_task_duration = duration;
  speed = 0;
  last_done_size = 0;
}

-- `uint64` subtraction.
pub sub_uint64 : ℕ → ℕ → ℕ
sub_uint64 a b = (a + 2 ^ 64 - b) % 2 ^ 64

pub add_finished_size : ℕ → ProcessStatus → ProcessStatus
add_finished_size size p = record p { done_size = add_uint64 p.done_size size }

unfoldable pub add_total_size : ℕ → ProcessStatus → ProcessStatus
add_total_size size p = record p { total_size = add_uint64 p.total_size size }

unfoldable reduce_total_size : ℕ → ProcessStatus → ProcessStatus
unfolding sub_uint64
reduce_total_size size p = record p { total_size = sub_uint64 p.total_size size }

-- The counters are `uint32`.
unfoldable pub inc_file_count : ProcessStatus → ProcessStatus
inc_file_count p = record p { n_files = (p.n_files + 1) % 2 ^ 32 }

unfoldable inc_finished_count : ProcessStatus → ProcessStatus
inc_finished_count p = record p { n_finished_files = (p.n_finished_files + 1) % 2 ^ 32 }

-- `Finished`, at a time and with what the clock shows.
unfoldable finished : DateTime → ℕ → ProcessStatus → ProcessStatus
finished now elapsed p = record p { end_time = some now; total_task_duration = elapsed }

-- `StatusTrackingOutputStream::WriteBytes`, where the stream behind it took the given number.
unfoldable status_tracking_write_bytes : ℕ → ProcessStatus → ℕ × ProcessStatus
unfolding add_finished_size
status_tracking_write_bytes n_bytes_written p =
    (n_bytes_written, add_finished_size n_bytes_written p)

-- `GetDurationInMicroseconds`.
pub get_duration : ℕ → ProcessStatus → ℕ
get_duration elapsed p = elim p.end_time [ some t ↦ p.total_task_duration | none ↦ elapsed ]

-- The size that is left, in `ComputeExpectedEndTime`.
pub left_size : ProcessStatus → ℕ
unfolding sub_uint64
left_size p = sub_uint64 p.total_size p.done_size

-- A member of the object that `ToJSON` makes.
pub data JsonValue (doubles : Doubles) : Type 0 where
  json_text : String → JsonValue doubles
  json_number : ℕ → JsonValue doubles
  json_float : doubles.Double → JsonValue doubles
  json_flag : Bool → JsonValue doubles

module _ (doubles : Doubles) (to_iso : DateTime → String)
    (add_milliseconds : DateTime → ℕ → DateTime) where
  -- `MeasureSpeedSample`, for the microseconds since the last one.
  unfoldable measure_speed_sample : ℕ → ProcessStatus → ProcessStatus
  unfolding sub_uint64
  measure_speed_sample elapsed p =
      let delta = sub_uint64 p.done_size p.last_done_size in
      let thousand = doubles.of_nat 1000 in
      let seconds = doubles.divided (doubles.divided (doubles.of_nat elapsed) thousand) thousand in
      record p {
        speed =
            if elapsed == 0
            then 0
            else doubles.to_uint64 (doubles.divided (doubles.of_nat delta) seconds);
        last_done_size = p.done_size;
      }

  -- `ComputeExpectedEndTime`.
  pub compute_expected_end_time : ℕ → ProcessStatus → Option DateTime
  unfolding get_duration left_size
  compute_expected_end_time elapsed p =
      let duration = get_duration elapsed p in
      let per_millisecond = doubles.divided (doubles.of_nat p.speed) (doubles.of_nat 1000) in
      let left_time =
        doubles.to_uint64 (doubles.divided (doubles.of_nat (left_size p)) per_millisecond) in
      if p.is_end_determinate && ltb 0 duration && ltb 0 p.speed
      then some (add_milliseconds p.start_time (add_uint64 (duration / 1000) left_time))
      else none

  -- `ComputeExpectedEndTimeAsString`. The text of an end that there is none of is none.
  pub expected_end_time_text : ℕ → ProcessStatus → Option String
  unfolding compute_expected_end_time
  expected_end_time_text elapsed p =
      if p.is_end_determinate && ltb 0 p.speed
      then (elim (compute_expected_end_time elapsed p) [ some t ↦ some (to_iso t) | none ↦ none ])
      else some "???"

  abbrev has_ended : ProcessStatus → Bool
  has_ended p = elim p.end_time [ some t ↦ true | none ↦ false ]

  -- The progress that `ToJSON` gives.
  unfoldable pub progress : ProcessStatus → JsonValue doubles
  progress p =
      if p.is_end_determinate && ltb 0 p.total_size
      then json_float (doubles.divided (doubles.of_nat p.done_size) (doubles.of_nat p.total_size))
      else (if p.is_end_determinate && ltb 0 p.n_files
          then json_float
              (doubles.divided (doubles.of_nat p.n_finished_files) (doubles.of_nat p.n_files))
          else json_flag (has_ended p))

  abbrev end_members : ℕ → ProcessStatus → Option (List (String × JsonValue doubles))
  end_members elapsed p = elim p.end_time [
    | some t ↦ some (("endTime", json_text (to_iso t)) ∷ [])
    | none ↦ elim (expected_end_time_text elapsed p) [
      | some t ↦ some (("expectedEndTime", json_text t) ∷ [])
      | none ↦ none
    ]
  ]

  -- `ToJSON`, and none where it asks for the text of an end that there is none of.
  pub to_json : ℕ → ProcessStatus → Option (List (String × JsonValue doubles))
  unfolding expected_end_time_text progress
  to_json elapsed p = elim (end_members elapsed p) [
    | some ends ↦ some (
        ("title", json_text p.title)
        ∷ ("nFinishedFiles", json_number p.n_finished_files)
        ∷ ("nFiles", json_number p.n_files)
        ∷ ("totalSize", json_number p.total_size)
        ∷ ("doneSize", json_number p.done_size)
        ∷ ("startTime", json_text (to_iso p.start_time))
        ∷ ("duration_millisecs", json_number (get_duration elapsed p / 1000))
        ∷ ("speed", json_number p.speed)
        ∷ ("progress", progress p)
        ∷ ends)
    | none ↦ none
  ]
