-- ===== src/Fleet/Maintenance.antt =====
-- maintenance.py. An instant is the number of microseconds since 0001-01-01T00:00Z, a Monday, which is
-- where Python's `datetime` begins.
use mocop.Base.{
  ℕ, ◌+◌, ◌-◌, ◌*◌, ◌/◌, ◌%◌, ◌≤◌, ◌<◌, String, ◌≡◌, Bool, true, false, not, ◌&&◌, ◌||◌, Option,
  none, some, is_some, or_else, ltb, leb, if◌then◌else◌, arith,
}

abbrev pub minute : ℕ
minute = 60000000

abbrev pub day : ℕ
day = 86400000000

pub record MaintenanceWindowConfig : Type 0 where
  pub reason : String
  pub until : Option ℕ
  pub weekday : Option ℕ
  pub daily : Bool
  pub start_minutes : Option ℕ
  pub duration_minutes : Option ℕ

unfoldable pub recurring : MaintenanceWindowConfig → Bool
recurring w = w.daily || is_some w.weekday

unfoldable pub cadence : MaintenanceWindowConfig → Option String
cadence w = if w.daily then some "daily" else if is_some w.weekday then some "weekly" else none

unfoldable pub period : MaintenanceWindowConfig → ℕ
period w = if w.daily then day else 7 * day

-- `(now.weekday() - self.weekday) % 7`, for a weekday below 7
unfoldable pub days_back : MaintenanceWindowConfig → ℕ → ℕ
days_back w now = if w.daily then 0 else ((now / day) % 7 + 7 - or_else w.weekday 0) % 7

-- `_instance_end` of a window that recurs. The subtractions are those of instants after the first weeks.
unfoldable pub instance_end : MaintenanceWindowConfig → ℕ → ℕ → ℕ → ℕ
unfolding period days_back
instance_end w start_minutes duration_minutes now =
    let midnight = now - now % day in
    let first = midnight - days_back w now * day + start_minutes * minute in
    let start = if ltb now first then first - period w else first in
    let end = start + duration_minutes * minute in
    if leb end now then start + period w + duration_minutes * minute else end

-- A failed `assert` is `none`.
unfoldable pub is_active : MaintenanceWindowConfig → ℕ → Option Bool
unfolding recurring instance_end
is_active w now =
    if not (recurring w)
    then elim w.until [ none ↦ none | some until ↦ some (ltb now until) ]
    else elim w.start_minutes [
      | none ↦ none
      | some start ↦ elim w.duration_minutes [
        | none ↦ none
        | some duration ↦
            let end = instance_end w start duration now in
            some (leb (end - duration * minute) now && ltb now end)
      ]
    ]

abbrev pub daily_window : String → ℕ → ℕ → MaintenanceWindowConfig
daily_window reason start duration = record {
  reason = reason;
  until = none;
  weekday = none;
  daily = true;
  start_minutes = some start;
  duration_minutes = some duration;
}

abbrev pub weekly_window : String → ℕ → ℕ → ℕ → MaintenanceWindowConfig
weekly_window reason weekday start duration = record {
  reason = reason;
  until = none;
  weekday = some weekday;
  daily = false;
  start_minutes = some start;
  duration_minutes = some duration;
}

-- A daily window that starts within the day and lasts at most a day is active exactly when less than its
-- duration has passed since its start of this day, or of the day before where that is still to come.
pub is_active_daily :
    (reason : String) (start duration now : ℕ)
    → start < 1440
    → duration ≤ 1440
    → day ≤ now
    → is_active (daily_window reason start duration) now
      ≡ some (ltb ((now + day - start * minute) % day) (duration * minute))
unfolding is_active recurring instance_end period days_back
is_active_daily reason start duration now h k l = ground arith

-- A weekly window that starts within the day and lasts at most a week is active exactly when less than
-- its duration has passed since its latest start.
pub is_active_weekly :
    (reason : String) (weekday start duration now : ℕ)
    → weekday < 7
    → start < 1440
    → duration ≤ 10080
    → 7 * day ≤ now
    → is_active (weekly_window reason weekday start duration) now
      ≡ some
          (ltb ((now + 7 * day - (weekday * day + start * minute)) % (7 * day)) (duration * minute))
unfolding is_active recurring instance_end period days_back
is_active_weekly reason weekday start duration now w h k l = ground arith
