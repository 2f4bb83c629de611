-- ===== src/Scheduler/Due.antt =====
-- What one run of cohort-scheduler.ts sends and marks.
use gusto_backend.Common.{
  ℕ, zero, suc, none, some, get_elem?, ap, subst, not, ◌||◌, String, Bool, true, false, Option,
  List, [], ◌∷◌, ◌&&◌, leb, str_eq, ◌≡◌, ◌⊎◌, inl, inr, arith, Bool-cases, refl, if◌then◌else◌,
}
use gusto_backend.Scheduler.{
  Kind, scout, notify_reminder, finalize, Trigger, ScheduleConfig, Replies, Defaults, is_due,
  time_of, scout_step, notify_step, finalize_step, dispatch_row, dispatch_due_cohorts,
}
use gusto_backend.Scheduler.Daily.{kind_eq, last_date}

-- The triggers of one kind.
unfoldable pub of_kind : Kind → List Trigger → List Trigger
of_kind k [] = []
of_kind k (t ∷ ts) = let rest = of_kind k ts in if kind_eq t.kind k then t ∷ rest else rest

-- The row's date for the kind is that day, or a later one.
abbrev pub is_marked : ℕ → Kind → ScheduleConfig → Bool
is_marked today k row = elim (last_date k row) [ none ↦ false | some day ↦ leb today day ]

abbrev pub is_text : Option String → Bool
is_text none = false
is_text (some t) = not (str_eq t "")

-- A profile that was read, with an address and a restaurant.
abbrev pub has_place : Option (Option Defaults) → Bool
has_place (some (some d)) = is_text d.default_address_id && is_text d.default_restaurant_id
has_place _ = false

-- What a trigger needs but its time, and what its call comes to.
abbrev pub is_ready : Kind → Replies → Bool
is_ready scout w = has_place w.profile
is_ready _ w = true

abbrev pub call_returns : Kind → Replies → Bool
call_returns scout w = w.scouts
call_returns notify_reminder w = w.reminds
call_returns finalize w = w.finalizes

-- A trigger is to be sent in a run: it is not marked for the day, its time has come, and it is ready.
abbrev pub is_to_send : Kind → Replies → (today minute : ℕ) → ScheduleConfig → Bool
is_to_send k w today minute row =
    not (is_marked today k row) && (leb (time_of k row) minute && is_ready k w)

-- Of a kind, a run sends the trigger that is to be sent and nothing else, and marks it if the call
-- returned.
pub record IsDispatched (k : Kind) (w : Replies) (today minute : ℕ) (row new : ScheduleConfig)
    : Type 0 where
  pub sends : of_kind k new.sent ≡ (
      if is_to_send k w today minute row
      then record { kind = k; due = time_of k row; minute = minute; returned = call_returns k w }
        ∷ of_kind k row.sent
      else of_kind k row.sent)
  pub marks :
      is_marked today k new
      ≡ (is_marked today k row || (is_to_send k w today minute row && call_returns k w))

dispatch_row-IsDispatched :
    (w : Replies) (today minute : ℕ) (row : ScheduleConfig) (k : Kind)
    → IsDispatched k w today minute row (dispatch_row w today minute row)
unfolding dispatch_row scout_step notify_step finalize_step of_kind
dispatch_row-IsDispatched w today minute row scout = record {
  sends = ground arith;
  marks = ground arith;
}
dispatch_row-IsDispatched w today minute row notify_reminder = record {
  sends = ground arith;
  marks = ground arith;
}
dispatch_row-IsDispatched w today minute row finalize = record {
  sends = ground arith;
  marks = ground arith;
}

-- A row that is not due has nothing to be sent.
undue-IsDispatched :
    (w : Replies) (today minute : ℕ) (row : ScheduleConfig) (k : Kind)
    → is_due today row ≡ false
    → IsDispatched k w today minute row row
undue-IsDispatched w today minute row scout e = record {
  sends = ground arith;
  marks = ground arith;
}
undue-IsDispatched w today minute row notify_reminder e = record {
  sends = ground arith;
  marks = ground arith;
}
undue-IsDispatched w today minute row finalize e = record {
  sends = ground arith;
  marks = ground arith;
}

-- A run on the table leaves at each place its row, of which, for each kind of trigger: the run sent
-- it exactly if it was not marked for the day, its time had come and, for the scout trigger, the
-- profile has both defaults; once, with the time and the minute; and it is marked for the day exactly
-- if it was before, or was sent and its call returned.
pub dispatch_due_cohorts-IsDispatched :
    (w : String → Replies) (today minute : ℕ) (rows : List ScheduleConfig) (i : ℕ)
    (row : ScheduleConfig) (k : Kind)
    → get_elem? rows i ≡ some row
    → (new : ScheduleConfig) × (get_elem? (dispatch_due_cohorts w today minute rows) i ≡ some new)
      × IsDispatched k (w row.user_id) today minute row new
unfolding dispatch_due_cohorts
dispatch_due_cohorts-IsDispatched w today minute [] i row k e = absurd (ground arith)
dispatch_due_cohorts-IsDispatched w today minute (r ∷ rows) zero row k e = (
  if is_due today r then dispatch_row (w r.user_id) today minute r else r,
  refl,
  subst
      (λ q.
        IsDispatched k (w q.user_id) today minute q
          (if is_due today r then dispatch_row (w r.user_id) today minute r else r))
      (ap (λ o. elim o as (λ _. ScheduleConfig) [ none ↦ r | some q ↦ q ]) e)
      (if_due (Bool-cases (is_due today r))),
)
  where
    if_due :
        (is_due today r ≡ true) ⊎ (is_due today r ≡ false)
        → IsDispatched k
            (w r.user_id)
            today
            minute
            r
            (if is_due today r then dispatch_row (w r.user_id) today minute r else r)
    if_due (inl d) = rw d (dispatch_row-IsDispatched (w r.user_id) today minute r k)
    if_due (inr d) = rw d (undue-IsDispatched (w r.user_id) today minute r k d)
dispatch_due_cohorts-IsDispatched w today minute (r ∷ rows) (suc i) row k e =
    dispatch_due_cohorts-IsDispatched w today minute rows i row k e
