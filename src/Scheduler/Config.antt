-- ===== src/Scheduler/Config.antt =====
-- The schedule of a user: apps/scheduler-service/src/modules/schedule-config. A new row has no date of
-- dispatch, the columns' default.
use gusto_backend.Common.{ℕ, String, Option, none, some, List, [], ◌∷◌, str_eq, if◌then◌else◌}
use gusto_backend.Common.Http.{Action, throw, modify, bad_request}
use gusto_backend.Scheduler.{ScheduleConfig}

-- The body; a field is `none` where it has not the schema's type, `some none` where it is absent.
pub record ScheduleConfigBody : Type 0 where
  pub user_id : Option String
  pub scout_time : Option String
  pub notify_time : Option String
  pub execute_time : Option String
  pub timezone : Option (Option String)

pub record ScheduleConfigRequest : Type 0 where
  pub user_id : String
  pub scout_time : ℕ
  pub notify_time : ℕ
  pub execute_time : ℕ
  pub timezone : String

-- `z.string().min(1)`
abbrev parse_name : Option String → Option String
parse_name none = none
parse_name (some t) = if str_eq t "" then none else some t

-- `z.string().min(1).default("Asia/Kolkata")`
abbrev parse_timezone : Option (Option String) → Option String
parse_timezone none = none
parse_timezone (some none) = some "Asia/Kolkata"
parse_timezone (some (some t)) = parse_name (some t)

-- `coerce` is `z.coerce.date()`: the minute of the day of the date, `none` where it is no date.
module _ (coerce : Option String → Option ℕ) where
  -- `ScheduleConfigRequestSchema.safeParse`
  unfoldable pub parse_schedule_config : ScheduleConfigBody → Option ScheduleConfigRequest
  parse_schedule_config body = elim (parse_name body.user_id) [
    | none ↦ none
    | some user ↦ elim (coerce body.scout_time) [
      | none ↦ none
      | some scouted ↦ elim (coerce body.notify_time) [
        | none ↦ none
        | some notified ↦ elim (coerce body.execute_time) [
          | none ↦ none
          | some executed ↦ elim (parse_timezone body.timezone) [
            | none ↦ none
            | some zone ↦ some (record {
              user_id = user;
              scout_time = scouted;
              notify_time = notified;
              execute_time = executed;
              timezone = zone;
            })
          ]
        ]
      ]
    ]
  ]

-- `ScheduleConfigService.upsert`
unfoldable pub upsert_schedule : ScheduleConfigRequest → List ScheduleConfig → List ScheduleConfig
upsert_schedule r [] =
    record {
      user_id = r.user_id;
      scout_time = r.scout_time;
      notify_time = r.notify_time;
      execute_time = r.execute_time;
      timezone = r.timezone;
      last_dispatched_date = none;
      last_notified_date = none;
      last_finalized_date = none;
      sent = [];
    }
    ∷ []
upsert_schedule r (row ∷ rows) =
    let rest = upsert_schedule r rows in
    if str_eq row.user_id r.user_id
    then record row {
      scout_time = r.scout_time;
      notify_time = r.notify_time;
      execute_time = r.execute_time;
      timezone = r.timezone;
    }
      ∷ rows
    else row ∷ rest

unfoldable pub post_schedule_config :
    (Option String → Option ℕ) → ScheduleConfigBody → Action (List ScheduleConfig) (Unit {0})
unfolding parse_schedule_config upsert_schedule
post_schedule_config coerce body = elim (parse_schedule_config coerce body) [
  | none ↦ throw bad_request
  | some r ↦ modify (upsert_schedule r)
]
