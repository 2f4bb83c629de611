-- ===== src/Scheduler/Daily.antt =====
-- The runs of cohort-scheduler.ts on one day: how often a trigger succeeds for a row, and when.
use gusto_backend.Common.{
  ℕ, suc, String, Bool, true, false, Option, List, [], ◌∷◌, ◌&&◌, leb, ◌≡◌, ◌⊎◌, inl, inr, arith,
  All, Bool-cases, Option-cases, str_eq, refl, if◌then◌else◌,
}
use gusto_backend.Scheduler.Config.{
  ScheduleConfigBody, ScheduleConfigRequest, parse_schedule_config, upsert_schedule,
  post_schedule_config,
}
use gusto_backend.Scheduler.{
  Kind, scout, notify_reminder, finalize, Trigger, ScheduleConfig, Replies, is_today, is_due,
  scout_step, notify_step, finalize_step, dispatch_row, dispatch_due_cohorts,
}

abbrev pub kind_eq : Kind → Kind → Bool
kind_eq scout scout = true
kind_eq notify_reminder notify_reminder = true
kind_eq finalize finalize = true
kind_eq _ _ = false

-- How often a kind of trigger succeeded.
unfoldable pub fired : Kind → List Trigger → ℕ
fired k [] = 0
fired k (t ∷ ts) = if kind_eq t.kind k && t.returned then suc (fired k ts) else fired k ts

abbrev pub last_date : Kind → ScheduleConfig → Option ℕ
last_date scout row = row.last_dispatched_date
last_date notify_reminder row = row.last_notified_date
last_date finalize row = row.last_finalized_date

-- What was sent was sent at its time or later.
unfoldable pub all_in_time : List Trigger → Bool
all_in_time [] = true
all_in_time (t ∷ ts) = leb t.due t.minute && all_in_time ts

-- Of the day's triggers of the row: each kind succeeded not yet, or once and is marked; all in time.
pub record IsDaily (today : ℕ) (row : ScheduleConfig) : Type 0 where
  pub once :
      (k : Kind)
      → (fired k row.sent ≡ 0)
        ⊎ ((fired k row.sent ≡ 1) × (is_today today (last_date k row) ≡ true))
  pub in_time : all_in_time row.sent ≡ true

module _ (w : Replies) (today minute : ℕ) (row : ScheduleConfig) (d : IsDaily today row) where
  scout_step-once :
      (k : Kind)
      → (fired k (scout_step w today minute row).sent ≡ 0)
        ⊎ ((fired k (scout_step w today minute row).sent ≡ 1)
            × (is_today today (last_date k (scout_step w today minute row)) ≡ true))
  unfolding scout_step fired
  scout_step-once scout = ground (arith, d.once scout)
  scout_step-once notify_reminder = ground (arith, d.once notify_reminder)
  scout_step-once finalize = ground (arith, d.once finalize)

  scout_step-InTime : all_in_time (scout_step w today minute row).sent ≡ true
  unfolding scout_step all_in_time
  scout_step-InTime = ground (arith, d.in_time)

  scout_step-IsDaily : IsDaily today (scout_step w today minute row)
  scout_step-IsDaily = record { once = scout_step-once; in_time = scout_step-InTime }

  notify_step-once :
      (k : Kind)
      → (fired k (notify_step w today minute row).sent ≡ 0)
        ⊎ ((fired k (notify_step w today minute row).sent ≡ 1)
            × (is_today today (last_date k (notify_step w today minute row)) ≡ true))
  unfolding notify_step fired
  notify_step-once scout = ground (arith, d.once scout)
  notify_step-once notify_reminder = ground (arith, d.once notify_reminder)
  notify_step-once finalize = ground (arith, d.once finalize)

  notify_step-InTime : all_in_time (notify_step w today minute row).sent ≡ true
  unfolding notify_step all_in_time
  notify_step-InTime = ground (arith, d.in_time)

  notify_step-IsDaily : IsDaily today (notify_step w today minute row)
  notify_step-IsDaily = record { once = notify_step-once; in_time = notify_step-InTime }

  finalize_step-once :
      (k : Kind)
      → (fired k (finalize_step w today minute row).sent ≡ 0)
        ⊎ ((fired k (finalize_step w today minute row).sent ≡ 1)
            × (is_today today (last_date k (finalize_step w today minute row)) ≡ true))
  unfolding finalize_step fired
  finalize_step-once scout = ground (arith, d.once scout)
  finalize_step-once notify_reminder = ground (arith, d.once notify_reminder)
  finalize_step-once finalize = ground (arith, d.once finalize)

  finalize_step-InTime : all_in_time (finalize_step w today minute row).sent ≡ true
  unfolding finalize_step all_in_time
  finalize_step-InTime = ground (arith, d.in_time)

  finalize_step-IsDaily : IsDaily today (finalize_step w today minute row)
  finalize_step-IsDaily = record { once = finalize_step-once; in_time = finalize_step-InTime }

dispatch_row-IsDaily :
    (w : Replies) (today minute : ℕ) (row : ScheduleConfig)
    → IsDaily today row
    → IsDaily today (dispatch_row w today minute row)
unfolding dispatch_row
dispatch_row-IsDaily w today minute row d =
    finalize_step-IsDaily w today minute _
      (notify_step-IsDaily w today minute _ (scout_step-IsDaily w today minute row d))

dispatch_due_cohorts-IsDaily :
    (w : String → Replies) (today minute : ℕ) (rows : List ScheduleConfig)
    → All (IsDaily today) rows
    → All (IsDaily today) (dispatch_due_cohorts w today minute rows)
unfolding dispatch_due_cohorts
dispatch_due_cohorts-IsDaily w today minute [] d = tt
dispatch_due_cohorts-IsDaily w today minute (row ∷ rows) d = (
  elim (Bool-cases (is_due today row)) [
    | inl e ↦ rw e (dispatch_row-IsDaily (w row.user_id) today minute row d.0)
    | inr e ↦ rw e d.0
  ],
  dispatch_due_cohorts-IsDaily w today minute rows d.1,
)

-- What happens to the table: a cron run, or a request to set a schedule.
pub data SchedulerStep : Type 0 where
  run_at : (String → Replies) → ℕ → SchedulerStep
  schedule_posted : ScheduleConfigBody → SchedulerStep

module _ (coerce : Option String → Option ℕ) (today : ℕ) where
  unfoldable pub scheduler_step : SchedulerStep → List ScheduleConfig → List ScheduleConfig
  unfolding dispatch_due_cohorts post_schedule_config
  scheduler_step (run_at w minute) rows = dispatch_due_cohorts w today minute rows
  scheduler_step (schedule_posted body) rows = (post_schedule_config coerce body rows).1

  unfoldable pub run_day : List SchedulerStep → List ScheduleConfig → List ScheduleConfig
  unfolding scheduler_step
  run_day [] rows = rows
  run_day (step ∷ steps) rows = run_day steps (scheduler_step step rows)

  upsert_schedule-IsDaily :
      (r : ScheduleConfigRequest) (rows : List ScheduleConfig)
      → All (IsDaily today) rows
      → All (IsDaily today) (upsert_schedule r rows)
  unfolding upsert_schedule fired all_in_time
  upsert_schedule-IsDaily r [] d = (record { once = λ k. inl refl; in_time = refl }, tt)
  upsert_schedule-IsDaily r (row ∷ rows) d = elim (Bool-cases (str_eq row.user_id r.user_id)) [
    | inl e ↦ rw e (record { once = rescheduled; in_time = d.0.in_time }, d.1)
    | inr e ↦ rw e (d.0, upsert_schedule-IsDaily r rows d.1)
  ]
    where
      rescheduled :
          (k : Kind)
          → (fired k row.sent ≡ 0)
            ⊎ ((fired k row.sent ≡ 1)
                × (is_today today (
                      last_date k (record row {
                        scout_time = r.scout_time;
                        notify_time = r.notify_time;
                        execute_time = r.execute_time;
                        timezone = r.timezone;
                      }))
                    ≡ true))
      rescheduled scout = d.0.once scout
      rescheduled notify_reminder = d.0.once notify_reminder
      rescheduled finalize = d.0.once finalize

  scheduler_step-IsDaily :
      (step : SchedulerStep) (rows : List ScheduleConfig)
      → All (IsDaily today) rows
      → All (IsDaily today) (scheduler_step step rows)
  unfolding scheduler_step
  scheduler_step-IsDaily (run_at w minute) rows d =
      dispatch_due_cohorts-IsDaily w today minute rows d
  scheduler_step-IsDaily (schedule_posted body) rows d =
      elim (Option-cases (parse_schedule_config coerce body)) [
        | inl e ↦ rw (scheduler_step, e) d
        | inr (r, e) ↦ rw (scheduler_step, e) (upsert_schedule-IsDaily r rows d)
      ]

  -- Over any runs on one day, at any minutes and with any answers of the other services, and any
  -- changes of the schedules between them: if it holds of every row before, then for every row after,
  -- each of the three triggers succeeded not at all, or once and is marked for the day, and each
  -- trigger sent was sent at the time that the row had for it then, or later.
  pub run_day-IsDaily :
      (steps : List SchedulerStep) (rows : List ScheduleConfig)
      → All (IsDaily today) rows
      → All (IsDaily today) (run_day steps rows)
  unfolding run_day
  run_day-IsDaily [] rows d = d
  run_day-IsDaily (step ∷ steps) rows d =
      run_day-IsDaily steps (scheduler_step step rows) (scheduler_step-IsDaily step rows d)
