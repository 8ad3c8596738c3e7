-- ===== src/Scheduler/Schedule.antt =====
-- EvaluateBackupSchedule of internal/api/scheduler.go. Times are in nanoseconds.
use admirald.Shared.{
  ℕ, ◌-◌, ◌*◌, ◌^◌, ltb, Bool, false, not, ◌&&◌, Option, none, some, String, List, [], ◌∷◌, any,
  if◌then◌else◌, ◌==◌, Result, ok, err, errorf,
}
use admirald.Shared.Text.{to_lower}

-- `admiral.BackupPolicy`, with the fields that the schedule reads.
pub record BackupPolicy : Type 0 where
  pub schedule : String
  pub weekday : String
  pub time : String
  pub timezone : String

-- The columns of a backup that the schedule reads; the time is a text in RFC 3339.
pub record BackupRun : Type 0 where
  pub triggered_by : String
  pub created_at : String

-- What the source uses of the package time. A time of day is its hour and its minute.
pub record Calendar (Zone : Type 0) : Type 0 where
  pub utc : Zone
  pub load_location : String → Option Zone
  pub parse_time_of_day : String → Option (ℕ × ℕ)
  -- `time.Date` on the day of an instant in a zone, at an hour and a minute
  pub on_day_of : Zone → ℕ → ℕ → ℕ → ℕ
  -- `now.Weekday().String()`
  pub weekday_of : Zone → ℕ → String
  pub parse_rfc3339 : String → Option ℕ

abbrev pub six_days : ℕ
six_days = 6 * 24 * 3600 * 10 ^ 9

abbrev pub or_utc : {Zone : Type 0} → Calendar Zone → Option Zone → Zone
or_utc cal none = cal.utc
or_utc cal (some z) = z

-- A zone that is not known is UTC.
abbrev pub zone_of : {Zone : Type 0} → Calendar Zone → BackupPolicy → Zone
zone_of cal policy =
    if policy.timezone == "" then cal.utc else or_utc cal (cal.load_location policy.timezone)

abbrev pub is_later : Option ℕ → ℕ → Bool
is_later none since = false
is_later (some t) since = ltb since t

-- A scheduled backup of the list began after a time.
abbrev pub ran_since : {Zone : Type 0} → Calendar Zone → ℕ → BackupRun → Bool
ran_since cal since r =
    (r.triggered_by == "scheduled") && is_later (cal.parse_rfc3339 r.created_at) since

abbrev pub target_weekday : BackupPolicy → String
target_weekday policy = if to_lower policy.weekday == "" then "sunday" else to_lower policy.weekday

module _ {Zone : Type 0} (cal : Calendar Zone) (policy : BackupPolicy) (now created : ℕ)
    (recs : List BackupRun) where
  -- The part by the kind of schedule. The time six days ago is not before 1970.
  unfoldable pub due_in_cycle : Zone → Bool
  due_in_cycle loc =
      if policy.schedule == "daily"
      then not (any (ran_since cal (cal.on_day_of loc now 0 0)) recs)
      else if policy.schedule == "weekly"
      then (if not (to_lower (cal.weekday_of loc now) == target_weekday policy)
          then false
          else not (any (ran_since cal (now - six_days)) recs))
      else false

  unfoldable pub due_at : Zone → Option (ℕ × ℕ) → Result Bool
  unfolding due_in_cycle
  due_at loc none = err (errorf "invalid policy time format %q" (policy.time ∷ []))
  due_at loc (some (hour, minute)) =
      let target_time = cal.on_day_of loc now hour minute in
      if ltb now target_time
      then ok false
      else if ltb target_time created
      then ok false
      else if ltb (cal.on_day_of loc now 0 0) created
      then ok false
      else ok (due_in_cycle loc)

  -- `EvaluateBackupSchedule`, for an instance made at `created` whose backups are `recs`.
  unfoldable pub evaluate_backup_schedule : Result Bool
  unfolding due_at
  evaluate_backup_schedule = due_at (zone_of cal policy) (cal.parse_time_of_day policy.time)
