-- ===== src/Scheduler/Tests.antt =====
-- Runs of the schedule, with days of 86,400 seconds from 1970 on in the one zone UTC.
use Prim.Native.Nat.{◌/◌}
use admirald.Shared.{
  ℕ, ◌+◌, ◌*◌, ◌^◌, ◌≡◌, ◌↔◌, refl, true, false, none, some, String, [], ◌∷◌, if◌then◌else◌, ◌==◌,
  ok, err, errorf,
}
use admirald.Shared.Text.{to_lower}
use admirald.Scheduler.Schedule.{BackupPolicy, BackupRun, Calendar, evaluate_backup_schedule}
use admirald.Scheduler.Due.{IsDue, evaluate_backup_schedule-IsDue}

abbrev second : ℕ
second = 10 ^ 9

abbrev day : ℕ
day = 86400 * second

-- Each day is a Sunday here.
abbrev sundays : Calendar (Unit {0})
sundays = record {
  utc = tt;
  load_location = λ s. none;
  parse_time_of_day =
      λ s. if s == "02:00" then some (2, 0) else if s == "00:00" then some (0, 0) else none;
  on_day_of = λ z now hour minute. now / day * day + (hour * 3600 + minute * 60) * second;
  weekday_of = λ z now. "Sunday";
  parse_rfc3339 = λ s.
      if s == "day 10, 02:00:30"
      then some (10 * day + 7230 * second)
      else if s == "day 10, 00:00:00"
      then some (10 * day)
      else none;
}

abbrev policy_at : String → String → BackupPolicy
policy_at schedule time = record {
  schedule = schedule;
  weekday = "";
  time = time;
  timezone = "Nowhere";
}

abbrev run_at : String → BackupRun
run_at created = record { triggered_by = "scheduled"; created_at = created }

-- At three o'clock a daily backup is due, until one of that day is in the list.
daily-due :
    evaluate_backup_schedule sundays
      (policy_at "daily" "02:00")
      (10 * day + 10800 * second)
      (5 * day)
      []
    ≡ ok true
unfolding evaluate_backup_schedule to_lower
daily-due = refl

daily-done :
    evaluate_backup_schedule sundays
      (policy_at "daily" "02:00")
      (10 * day + 10800 * second)
      (5 * day)
      (run_at "day 10, 02:00:30" ∷ [])
    ≡ ok false
unfolding evaluate_backup_schedule to_lower
daily-done = refl

-- A weekly backup on the default weekday.
weekly-due :
    evaluate_backup_schedule sundays
      (policy_at "weekly" "02:00")
      (10 * day + 10800 * second)
      (5 * day)
      []
    ≡ ok true
unfolding evaluate_backup_schedule to_lower
weekly-due = refl

-- A backup of midnight whose time was cut to the full second does not count as one of the day.
midnight_again :
    evaluate_backup_schedule sundays
      (policy_at "daily" "00:00")
      (10 * day + 60 * second)
      (5 * day)
      (run_at "day 10, 00:00:00" ∷ [])
    ≡ ok true
unfolding evaluate_backup_schedule to_lower
midnight_again = refl

bad_time :
    evaluate_backup_schedule sundays (policy_at "daily" "2 pm") (10 * day) (5 * day) []
    ≡ err (errorf "invalid policy time format %q" ("2 pm" ∷ []))
unfolding evaluate_backup_schedule to_lower
bad_time = refl

evaluate_backup_schedule-IsDue_example :
    (evaluate_backup_schedule sundays
        (policy_at "daily" "02:00")
        (10 * day + 10800 * second)
        (5 * day)
        (run_at "day 10, 00:00:00" ∷ [])
      ≡ ok true)
    ↔ IsDue sundays
        (policy_at "daily" "02:00")
        (10 * day + 10800 * second)
        (5 * day)
        (run_at "day 10, 00:00:00" ∷ [])
evaluate_backup_schedule-IsDue_example =
    evaluate_backup_schedule-IsDue sundays (policy_at "daily" "02:00") (10 * day + 10800 * second)
      (5 * day) (run_at "day 10, 00:00:00" ∷ [])
