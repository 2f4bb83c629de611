-- ===== src/Scheduler.antt =====
-- scheduler-service: CohortScheduler (apps/scheduler-service/src/modules/cron/cohort-scheduler.ts).
-- The state is the `schedule_config` table, each row with the triggers that were sent for it, newest
-- first. Days are numbers, times of day are minutes, both in UTC. What the other services answer for
-- a row in a run is its `Replies`.
pub mod Config
pub mod Daily
pub mod Due
use gusto_backend.Common.{
  ℕ, ◌≤◌, String, Bool, true, false, Option, none, some, List, [], ◌∷◌, map, not, ◌&&◌, ◌||◌, leb,
  ltb, str_eq, if◌then◌else◌,
}

pub data Kind : Type 0 where
  scout notify_reminder finalize : Kind

-- A trigger that was sent: the time of the row for it then, the minute of the day, and whether the call
-- returned.
pub record Trigger : Type 0 where
  pub kind : Kind
  pub due : ℕ
  pub minute : ℕ
  pub returned : Bool

-- `model ScheduleConfig`
pub record ScheduleConfig : Type 0 where
  pub user_id : String
  pub scout_time : ℕ
  pub notify_time : ℕ
  pub execute_time : ℕ
  pub timezone : String
  pub last_dispatched_date : Option ℕ
  pub last_notified_date : Option ℕ
  pub last_finalized_date : Option ℕ
  pub sent : List Trigger

-- The two defaults of a stored preference profile.
pub record Defaults : Type 0 where
  pub default_address_id : Option String
  pub default_restaurant_id : Option String

pub record Replies : Type 0 where
  -- `none`: the call throws; `some none`: the schema refuses the profile.
  pub profile : Option (Option Defaults)
  -- Whether each trigger's call returns.
  pub scouts : Bool
  pub reminds : Bool
  pub finalizes : Bool

-- `!!date && date >= today`
abbrev pub is_today : ℕ → Option ℕ → Bool
is_today today none = false
is_today today (some day) = leb today day

abbrev pub is_given : Option String → Bool
is_given none = false
is_given (some t) = not (str_eq t "")

-- `!(!parsed.success || !defaultAddressId || !defaultRestaurantId)`
abbrev pub has_defaults : Option (Option Defaults) → Bool
has_defaults none = false
has_defaults (some none) = false
has_defaults (some (some d)) = is_given d.default_address_id && is_given d.default_restaurant_id

abbrev pub time_of : Kind → ScheduleConfig → ℕ
time_of scout row = row.scout_time
time_of notify_reminder row = row.notify_time
time_of finalize row = row.execute_time

abbrev pub send : Kind → ℕ → Bool → ScheduleConfig → ScheduleConfig
send kind minute returned row = record row {
  sent =
      record { kind = kind; due = time_of kind row; minute = minute; returned = returned }
      ∷ row.sent;
}

-- `dispatchScout`
unfoldable pub dispatch_scout : Replies → (today minute : ℕ) → ScheduleConfig → ScheduleConfig
dispatch_scout w today minute row =
    if has_defaults w.profile
    then if w.scouts
      then record (send scout minute true row) { last_dispatched_date = some today }
      else send scout minute false row
    else row

unfoldable pub dispatch_notify_reminder :
    Replies → (today minute : ℕ) → ScheduleConfig → ScheduleConfig
dispatch_notify_reminder w today minute row =
    if w.reminds
    then record (send notify_reminder minute true row) { last_notified_date = some today }
    else send notify_reminder minute false row

unfoldable pub dispatch_finalize : Replies → (today minute : ℕ) → ScheduleConfig → ScheduleConfig
dispatch_finalize w today minute row =
    if w.finalizes
    then record (send finalize minute true row) { last_finalized_date = some today }
    else send finalize minute false row

-- The three steps of the loop's body. A step changes none of the columns that a later one tests, so
-- that the row that was read and the row as it is agree on them.
unfoldable pub scout_step : Replies → (today minute : ℕ) → ScheduleConfig → ScheduleConfig
unfolding dispatch_scout
scout_step w today minute row =
    if not (is_today today row.last_dispatched_date) && leb row.scout_time minute
    then dispatch_scout w today minute row
    else row

unfoldable pub notify_step : Replies → (today minute : ℕ) → ScheduleConfig → ScheduleConfig
unfolding dispatch_notify_reminder
notify_step w today minute row =
    if not (is_today today row.last_notified_date) && leb row.notify_time minute
    then dispatch_notify_reminder w today minute row
    else row

unfoldable pub finalize_step : Replies → (today minute : ℕ) → ScheduleConfig → ScheduleConfig
unfolding dispatch_finalize
finalize_step w today minute row =
    if not (is_today today row.last_finalized_date) && leb row.execute_time minute
    then dispatch_finalize w today minute row
    else row

-- The `where` of `findMany`.
abbrev pub is_due : ℕ → ScheduleConfig → Bool
is_due today row =
    not (is_today today row.last_dispatched_date)
    || not (is_today today row.last_notified_date)
    || not (is_today today row.last_finalized_date)

unfoldable pub dispatch_row : Replies → (today minute : ℕ) → ScheduleConfig → ScheduleConfig
unfolding scout_step notify_step finalize_step
dispatch_row w today minute row =
    finalize_step w today minute (notify_step w today minute (scout_step w today minute row))

unfoldable pub dispatch_due_cohorts :
    (String → Replies) → (today minute : ℕ) → List ScheduleConfig → List ScheduleConfig
unfolding dispatch_row
dispatch_due_cohorts w today minute [] = []
dispatch_due_cohorts w today minute (row ∷ rows) =
    (if is_due today row then dispatch_row (w row.user_id) today minute row else row)
    ∷ dispatch_due_cohorts w today minute rows
