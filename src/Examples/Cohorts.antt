-- ===== src/Examples/Cohorts.antt =====
-- The theorems on scheduler-service at one row, scouted at 10:00, reminded at 11:00, finalized at 11:30.
use gusto_backend.Common.{
  get_elem?, false, ℕ, String, Option, List, true, none, some, [], ◌∷◌, ◌≡◌, refl, All, inl,
}
use gusto_backend.Scheduler.{
  ScheduleConfig, Replies, finalize, dispatch_row, dispatch_due_cohorts, scout_step, notify_step,
  finalize_step,
}
use gusto_backend.Scheduler.Config.{ScheduleConfigBody}
use gusto_backend.Scheduler.Due.{IsDispatched, of_kind, dispatch_due_cohorts-IsDispatched}
use gusto_backend.Scheduler.Daily.{
  SchedulerStep, run_at, schedule_posted, IsDaily, fired, all_in_time, run_day, run_day-IsDaily,
}

abbrev row : ScheduleConfig
row = record {
  user_id = "asha";
  scout_time = 600;
  notify_time = 660;
  execute_time = 690;
  timezone = "Asia/Kolkata";
  last_dispatched_date = some 19;
  last_notified_date = none;
  last_finalized_date = none;
  sent = [];
}

abbrev replies : Replies
replies = record {
  profile =
      some (some (record { default_address_id = some "home"; default_restaurant_id = some "r1" }));
  scouts = true;
  reminds = true;
  finalizes = true;
}

row-IsDaily : IsDaily 20 row
unfolding fired all_in_time
row-IsDaily = record { once = λ k. inl refl; in_time = refl }

abbrev coerce : Option String → Option ℕ
coerce none = none
coerce (some t) = some 720

abbrev later_body : ScheduleConfigBody
later_body = record {
  user_id = some "asha";
  scout_time = some "12:00";
  notify_time = some "12:00";
  execute_time = some "12:00";
  timezone = some none;
}

-- A run, a change of the schedule and a second run.
abbrev steps : List SchedulerStep
steps =
    run_at (λ user. replies) 605 ∷ schedule_posted later_body ∷ run_at (λ user. replies) 730 ∷ []

run_day-IsDaily_example : All (IsDaily 20) (run_day coerce 20 steps (row ∷ []))
run_day-IsDaily_example = run_day-IsDaily coerce 20 steps (row ∷ []) (row-IsDaily, tt)

-- All three are due at 11:40; the call of the finalization does not return.
abbrev unfinalized : Replies
unfinalized = record replies { finalizes = false }

dispatch_due_cohorts-IsDispatched_example :
    (new : ScheduleConfig) × (get_elem?
        (dispatch_due_cohorts (λ user. unfinalized) 20 700 (row ∷ []))
        0
      ≡ some new)
    × IsDispatched finalize unfinalized 20 700 row new
dispatch_due_cohorts-IsDispatched_example =
    dispatch_due_cohorts-IsDispatched (λ user. unfinalized) 20 700 (row ∷ []) 0 row finalize refl

finalization_sent :
    of_kind finalize (dispatch_row unfinalized 20 700 row).sent
    ≡ record { kind = finalize; due = 690; minute = 700; returned = false } ∷ []
unfolding dispatch_row scout_step notify_step finalize_step of_kind
finalization_sent = refl
