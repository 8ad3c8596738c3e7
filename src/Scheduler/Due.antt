-- ===== src/Scheduler/Due.antt =====
-- When EvaluateBackupSchedule answers yes.
use mathlib.Core.Path.{subst}
use admirald.Shared.{
  ◌*◌, ◌^◌, Bool-cases, ap, sym, ◌∙◌, some_injective, ◌||◌, ok_injective, ℕ, ◌-◌, ◌≤◌, ◌≡◌, ◌≢◌,
  ◌↔◌, ◌⊎◌, inl, inr, refl, ltb, Bool, true, false, not, ◌&&◌, Option, none, some, String, List, [],
  ◌∷◌, any, All, if◌then◌else◌, ◌==◌, eq_iff, arith, Result, ok,
}
use admirald.Shared.Text.{to_lower}
use admirald.Scheduler.Schedule.{
  BackupPolicy, BackupRun, Calendar, six_days, zone_of, or_utc, is_later, ran_since, target_weekday,
  due_in_cycle, due_at, evaluate_backup_schedule,
}

-- A backup does not count for the cycle that began at a time: it was not scheduled, or its time cannot
-- be read or is not later.
abbrev pub IsEarlier : {Zone : Type 0} → Calendar Zone → ℕ → BackupRun → Type 0
IsEarlier cal since r =
    (t : ℕ) → r.triggered_by ≡ "scheduled" → cal.parse_rfc3339 r.created_at ≡ some t → t ≤ since

-- The zone of a policy: the one that it names, or UTC where it names none, or none that is known.
abbrev pub IsZone : {Zone : Type 0} → Calendar Zone → BackupPolicy → Zone → Type 0
IsZone cal policy zone =
    ((policy.timezone ≢ "") × (cal.load_location policy.timezone ≡ some zone))
    ⊎ ((policy.timezone ≢ "") × (cal.load_location policy.timezone ≡ none) × (zone ≡ cal.utc))
    ⊎ ((policy.timezone ≡ "") × (zone ≡ cal.utc))

-- A day of the week is the one of the policy, in any case of its letters, or Sunday where it has none.
abbrev pub IsWeekday : BackupPolicy → String → Type 0
IsWeekday policy today =
    ((to_lower policy.weekday ≢ "") × (today ≡ to_lower policy.weekday))
    ⊎ ((to_lower policy.weekday ≡ "") × (today ≡ "sunday"))

-- The conditions of a backup, in a zone.
pub record IsDueIn {Zone : Type 0} (cal : Calendar Zone) (policy : BackupPolicy) (now created : ℕ)
    (recs : List BackupRun) (zone : Zone) : Type 0 where
  pub hour : ℕ
  pub minute : ℕ
  pub time_read : cal.parse_time_of_day policy.time ≡ some (hour, minute)
  pub reached : cal.on_day_of zone now hour minute ≤ now
  pub created_earlier : created ≤ cal.on_day_of zone now hour minute
  pub created_before_today : created ≤ cal.on_day_of zone now 0 0
  pub in_cycle :
      ((policy.schedule ≡ "daily") × All (IsEarlier cal (cal.on_day_of zone now 0 0)) recs)
      ⊎ ((policy.schedule ≡ "weekly")
          × IsWeekday policy (to_lower (cal.weekday_of zone now))
          × All (IsEarlier cal (now - 518400 * 10 ^ 9)) recs)

-- The same in the policy's zone.
pub record IsDue {Zone : Type 0} (cal : Calendar Zone) (policy : BackupPolicy) (now created : ℕ)
    (recs : List BackupRun) : Type 0 where
  pub zone : Zone
  pub own_zone : IsZone cal policy zone
  pub due : IsDueIn cal policy now created recs zone

IsWeekday-iff :
    (policy : BackupPolicy) (today : String)
    → (today ≡ target_weekday policy) ↔ IsWeekday policy today
IsWeekday-iff policy today =
    let blank = eq_iff (to_lower policy.weekday) "" in
    elim (Bool-cases (to_lower policy.weekday == "")) [
      | inl none_set ↦ rw none_set (
        (λ h. inr (blank.0 none_set, h)),
        (λ w. elim w [ inl l ↦ absurd (l.0 (blank.0 none_set)) | inr r ↦ r.1 ]),
      )
      | inr one_set ↦ rw one_set (
        (λ h. inl ((λ e. let x = blank.1 e in cc), h)),
        (λ w. elim w [ inl l ↦ l.1 | inr r ↦ absurd (let x = blank.1 r.0 in cc) ]),
      )
    ]

module _ {Zone : Type 0} (cal : Calendar Zone) (policy : BackupPolicy) where
  loaded : (o : Option Zone) → ((o ≡ some (or_utc cal o)) ⊎ ((o ≡ none) × (or_utc cal o ≡ cal.utc)))
  loaded none = inr (refl, refl)
  loaded (some z) = inl refl

  or_utc-some : (o : Option Zone) (z : Zone) → o ≡ some z → or_utc cal o ≡ z
  or_utc-some none z h = cc
  or_utc-some (some a) z h = some_injective a z h

  or_utc-none : (o : Option Zone) (z : Zone) → o ≡ none → z ≡ cal.utc → or_utc cal o ≡ z
  or_utc-none none z h e = sym e
  or_utc-none (some a) z h e = cc

  zone_of-IsZone : IsZone cal policy (zone_of cal policy)
  zone_of-IsZone =
      let blank = eq_iff policy.timezone "" in
      elim (Bool-cases (policy.timezone == "")) [
        | inl unset ↦ rw unset (inr (inr (blank.0 unset, refl)))
        | inr named ↦
            let set : policy.timezone ≢ "" = λ e. (let x = blank.1 e in cc) in
            rw named (elim (loaded (cal.load_location policy.timezone)) [
              | inl known ↦ inl (set, known)
              | inr unknown ↦ inr (inl (set, unknown.0, unknown.1))
            ])
      ]

  IsZone-zone_of : (z : Zone) → IsZone cal policy z → zone_of cal policy ≡ z
  IsZone-zone_of z (inl (set, known)) =
      let named : policy.timezone == "" ≡ false = ground (arith, eq_iff policy.timezone "") in
      rw named (or_utc-some (cal.load_location policy.timezone) z known)
  IsZone-zone_of z (inr (inl (set, unknown, utc))) =
      let named : policy.timezone == "" ≡ false = ground (arith, eq_iff policy.timezone "") in
      rw named (or_utc-none (cal.load_location policy.timezone) z unknown utc)
  IsZone-zone_of z (inr (inr (unset, utc))) = rw ((eq_iff policy.timezone "").1 unset) (sym utc)

later_iff :
    (scheduled : Bool) (o : Option ℕ) (since : ℕ)
    → (scheduled && is_later o since ≡ false)
      ↔ ((t : ℕ) → scheduled ≡ true → o ≡ some t → t ≤ since)
later_iff false o since = ((λ h t e r. cc), (λ h. refl))
later_iff true none since = ((λ h t e r. cc), (λ h. refl))
later_iff true (some a) since = (
  (λ h t e r. let same = some_injective a t r in ground arith),
  (λ h. let bound = h a refl refl in ground arith),
)

not_or : (a b : Bool) → (not (a || b) ≡ true) ↔ ((a ≡ false) × (not b ≡ true))
not_or a b = ground arith

refused_unless :
    (b : Bool) (r : Result Bool)
    → ((if b then ok false else r) ≡ ok true) ↔ ((b ≡ false) × (r ≡ ok true))
refused_unless true r = ((λ h. let bad = ok_injective false true h in cc), (λ h. cc))
refused_unless false r = ((λ h. (refl, h)), (λ h. h.1))

by_kind :
    (daily weekly on_day day week : Bool)
    → (daily ≡ true → weekly ≡ true → ⊥)
    → ((if daily then day else if weekly then (if not on_day then false else week) else false)
        ≡ true)
      ↔ (((daily ≡ true) × (day ≡ true)) ⊎ ((weekly ≡ true) × (on_day ≡ true) × (week ≡ true)))
by_kind true weekly on_day day week apart =
    ((λ h. inl (refl, h)), (λ h. elim h [ inl l ↦ l.1 | inr r ↦ absurd (apart refl r.0) ]))
by_kind false weekly on_day day week apart = ground arith

three_refusals :
    (a b c d : ℕ) (e : Bool)
    → ((if ltb a b
          then ok false
          else if ltb b c
          then ok false
          else if ltb d c
          then ok false
          else ok e)
        ≡ ok true)
      ↔ ((b ≤ a) × (c ≤ b) × (c ≤ d) × (e ≡ true))
three_refusals a b c d e =
    let third = refused_unless (ltb d c) (ok e) in
    let second = refused_unless (ltb b c) (if ltb d c then ok false else ok e) in
    let first =
      refused_unless (ltb a b) (if ltb b c then ok false else if ltb d c then ok false else ok e) in
    (
      (λ h.
          let x = first.0 h in
          let y = second.0 x.1 in
          let z = third.0 y.1 in
          let yes = ok_injective e true z.1 in (ground arith, ground arith, ground arith, yes)),
      (λ h. first.1 (ground arith, second.1 (ground arith, third.1 (ground arith, ap ok h.3)))),
    )

module _ {Zone : Type 0} (cal : Calendar Zone) where
  IsEarlier-iff :
      (since : ℕ) (r : BackupRun) → (ran_since cal since r ≡ false) ↔ IsEarlier cal since r
  IsEarlier-iff since r =
      let e = eq_iff r.triggered_by "scheduled" in
      let read = later_iff (r.triggered_by == "scheduled") (cal.parse_rfc3339 r.created_at) since in
      ((λ h t named. read.0 h t (e.1 named)), (λ h. read.1 (λ t named. h t (e.0 named))))

  none_ran :
      (since : ℕ) (recs : List BackupRun)
      → (not (any (ran_since cal since) recs) ≡ true) ↔ All (IsEarlier cal since) recs
  none_ran since [] = ((λ h. tt), (λ h. refl))
  none_ran since (r ∷ rs) =
      let one = IsEarlier-iff since r in
      let rest = none_ran since rs in
      let both = not_or (ran_since cal since r) (any (ran_since cal since) rs) in
      ((λ h. (one.0 (both.0 h).0, rest.0 (both.0 h).1)), (λ h. both.1 (one.1 h.0, rest.1 h.1)))

module _ {Zone : Type 0} (cal : Calendar Zone) (policy : BackupPolicy) (now created : ℕ)
    (recs : List BackupRun) where
  abbrev IsInCycle : Zone → Type 0
  IsInCycle loc =
      ((policy.schedule ≡ "daily") × All (IsEarlier cal (cal.on_day_of loc now 0 0)) recs)
      ⊎ ((policy.schedule ≡ "weekly")
          × IsWeekday policy (to_lower (cal.weekday_of loc now))
          × All (IsEarlier cal (now - 518400 * 10 ^ 9)) recs)

  due_in_cycle_iff :
      (loc : Zone) → (due_in_cycle cal policy now created recs loc ≡ true) ↔ IsInCycle loc
  unfolding due_in_cycle
  due_in_cycle_iff loc =
      let day = none_ran cal (cal.on_day_of loc now 0 0) recs in
      let week = none_ran cal (now - 518400 * 10 ^ 9) recs in
      let on_day = IsWeekday-iff policy (to_lower (cal.weekday_of loc now)) in
      let d = eq_iff policy.schedule "daily" in
      let w = eq_iff policy.schedule "weekly" in
      let t = eq_iff (to_lower (cal.weekday_of loc now)) (target_weekday policy) in
      let differ : ◌≢◌ {A = String} "daily" "weekly" =
        λ same. (let x = (eq_iff "daily" "weekly").1 same in cc) in
      let kind =
        by_kind (policy.schedule == "daily") (policy.schedule == "weekly")
          (to_lower (cal.weekday_of loc now) == target_weekday policy)
          (not (any (ran_since cal (cal.on_day_of loc now 0 0)) recs))
          (not (any (ran_since cal (now - six_days)) recs)) (λ a b. differ (sym (d.0 a) ∙ w.0 b)) in
      (
        (λ h. elim (kind.0 h) [
          | inl l ↦ inl (d.0 l.0, day.0 l.1)
          | inr r ↦ inr (w.0 r.0, on_day.0 (t.0 r.1), week.0 r.2)
        ]),
        (λ h. kind.1 (elim h [
          | inl l ↦ inl (d.1 l.0, day.1 l.1)
          | inr r ↦ inr (w.1 r.0, t.1 (on_day.1 r.1), week.1 r.2)
        ])),
      )

  due_at_iff :
      (loc : Zone) (hour minute : ℕ)
      → (due_at cal policy now created recs loc (some (hour, minute)) ≡ ok true) ↔ (
          (cal.on_day_of loc now hour minute ≤ now)
          × (created ≤ cal.on_day_of loc now hour minute)
          × (created ≤ cal.on_day_of loc now 0 0)
          × IsInCycle loc)
  unfolding due_at
  due_at_iff loc hour minute =
      let cycle = due_in_cycle_iff loc in
      let times =
        three_refusals now (cal.on_day_of loc now hour minute) created (cal.on_day_of loc now 0 0)
          (due_in_cycle cal policy now created recs loc) in
      (
        (λ h. let x = times.0 h in (x.0, x.1, x.2, cycle.0 x.3)),
        (λ h. times.1 (h.0, h.1, h.2, cycle.1 h.3)),
      )

  answered_at :
      (read : Option (ℕ × ℕ))
      → cal.parse_time_of_day policy.time ≡ read
      → due_at cal policy now created recs (zone_of cal policy) read ≡ ok true
      → IsDueIn cal policy now created recs (zone_of cal policy)
  unfolding due_at
  answered_at none e h = cc
  answered_at (some (hour, minute)) e h =
      let x = (due_at_iff (zone_of cal policy) hour minute).0 h in
      record {
        hour = hour;
        minute = minute;
        time_read = e;
        reached = x.0;
        created_earlier = x.1;
        created_before_today = x.2;
        in_cycle = x.3;
      }

  asked :
      IsDueIn cal policy now created recs (zone_of cal policy)
      → evaluate_backup_schedule cal policy now created recs ≡ ok true
  unfolding evaluate_backup_schedule
  asked due = rw due.time_read (
      (due_at_iff (zone_of cal policy) due.hour due.minute).1
        (due.reached, due.created_earlier, due.created_before_today, due.in_cycle))

  -- `EvaluateBackupSchedule` answers yes just when, in the zone that the policy names (UTC where it names none
  -- that is known), the policy's time of day can be read and has come, the instance was made no later
  -- than it and no later than the beginning of the day, and no scheduled backup of the list whose time
  -- can be read is later than the beginning of the zone's day, for a daily policy, or than six days ago,
  -- for a weekly one on its weekday, which is Sunday where it has none.
  pub evaluate_backup_schedule-IsDue :
      (evaluate_backup_schedule cal policy now created recs ≡ ok true)
      ↔ IsDue cal policy now created recs
  unfolding evaluate_backup_schedule
  evaluate_backup_schedule-IsDue = (
    λ h. record {
      zone = zone_of cal policy;
      own_zone = zone_of-IsZone cal policy;
      due = answered_at (cal.parse_time_of_day policy.time) refl h;
    },
    λ d. asked (
        subst (IsDueIn cal policy now created recs)
          (sym (IsZone-zone_of cal policy d.zone d.own_zone)) d.due),
  )
