-- ===== src/Workflow/Machine/Phases/Served.antt =====
-- The routes of workflow.controller.ts and decision.controller.ts against the moves of a phase.
use gusto_backend.Common.{
  String, none, some, ◌≡◌, sym, subst, inl, inr, Bool-cases, Option-cases, str_eq,
}
use gusto_backend.Common.Dict.{lookup}
use gusto_backend.Hacker.Service.{OptimizedCart}
use gusto_backend.Workflow.Phase.{awaiting_approval}
use gusto_backend.Workflow.Service.State.{
  Workflow, WorkflowState, ShortlistState, Upstreams, Decision, approve_meal, skip_meal, swap_meal,
}
use gusto_backend.Workflow.Service.{run_scout_phase, decide}
use gusto_backend.Workflow.Requests.{
  handle_user_decision_keeps, send_reminder_if_pending_keeps, finalize_if_pending_keeps,
}
use gusto_backend.Workflow.Api.{
  WorkflowRequest, scout_run, decision, notify_reminder, finalize, serve_workflow, parse_scout_run,
}
use gusto_backend.Workflow.Machine.Phases.{
  phase_at, PhaseMove, kept, skips, expires, Shifts, parsed_user, Shifts-anyone, Shifts-refl,
}
use gusto_backend.Workflow.Machine.Phases.Handlers.{
  run_scout_phase-Shifts, approve-Shifts, skip-Shifts, swap-Shifts,
}

decide-Shifts :
    (up : Upstreams) (user : String) (s : Workflow) (row : WorkflowState)
    → lookup user s.rows ≡ some row
    → row.phase ≡ awaiting_approval
    → (cols : ShortlistState × OptimizedCart) (made : Decision)
    → Shifts up
        (decision (some user) (some made))
        user
        s.rows
        (decide up user row cols made s).1.rows
decide-Shifts up user s row there waits (shortlist, cart) approve_meal =
    approve-Shifts up user s row there waits row.address_id row.restaurant_id cart shortlist
decide-Shifts up user s row there waits (shortlist, cart) skip_meal =
    skip-Shifts up user s (decision (some user) (some skip_meal)) row there waits skips shortlist
decide-Shifts up user s row there waits (shortlist, cart) swap_meal =
    swap-Shifts up user s row there waits row.address_id row.restaurant_id shortlist

-- Whatever a request and the answers of the other services, the stored phase of a user stays, or the
-- request names that user and is one of: a scout run, from no row or SCOUTING to SCOUTING or
-- AWAITING_APPROVAL; an approval, from AWAITING_APPROVAL, to EXECUTING if executeOrder returned and to
-- APPROVED if it did not; a skip, a swap or a finalization, from AWAITING_APPROVAL to SKIPPED.
pub serve_workflow-PhaseMove :
    (up : Upstreams) (r : WorkflowRequest) (s : Workflow) (user : String)
    → PhaseMove up user r (phase_at user s.rows) (phase_at user (serve_workflow up r s).1.rows)
unfolding serve_workflow
serve_workflow-PhaseMove up (scout_run named address restaurant) s user =
    elim (Option-cases (parse_scout_run named address restaurant)) [
      | inl e ↦ rw (serve_workflow, e) kept
      | inr ((u, a, b), e) ↦
          rw (serve_workflow, e)
            (Shifts-anyone up (scout_run named address restaurant) u user _ _ (
              subst
                (λ n.
                  Shifts up (scout_run n address restaurant) u s.rows
                    (run_scout_phase up u a b s).1.rows)
                (sym (parsed_user named address restaurant u a b e))
                (run_scout_phase-Shifts up u s address restaurant a b)))
    ]
serve_workflow-PhaseMove up (decision none made) s user = kept
serve_workflow-PhaseMove up (decision (some u) none) s user = elim (Bool-cases (str_eq u "")) [
  | inl e ↦ rw (serve_workflow, e) kept
  | inr e ↦ rw (serve_workflow, e) kept
]
serve_workflow-PhaseMove up (decision (some u) (some made)) s user =
    elim (Bool-cases (str_eq u "")) [
      | inl e ↦ rw (serve_workflow, e) kept
      | inr e ↦
          rw (serve_workflow, e)
            (Shifts-anyone up r u user _ _ (
              handle_user_decision_keeps (λ t. Shifts up r u s.rows t.rows) u s
                (Shifts-refl up r u s.rows) up made
                λ w. decide-Shifts up u s w.row w.there w.waits (w.shortlist, w.cart) made))
    ]
  where
    r : WorkflowRequest
    r = decision (some u) (some made)
serve_workflow-PhaseMove up (notify_reminder none) s user = kept
serve_workflow-PhaseMove up (notify_reminder (some u)) s user = elim (Bool-cases (str_eq u "")) [
  | inl e ↦ rw (serve_workflow, e) kept
  | inr e ↦
      rw (serve_workflow, e)
        (send_reminder_if_pending_keeps
          (λ t.
            PhaseMove up user (notify_reminder (some u)) (phase_at user s.rows)
              (phase_at user t.rows))
          u s kept λ w. kept)
]
serve_workflow-PhaseMove up (finalize none) s user = kept
serve_workflow-PhaseMove up (finalize (some u)) s user = elim (Bool-cases (str_eq u "")) [
  | inl e ↦ rw (serve_workflow, e) kept
  | inr e ↦
      rw (serve_workflow, e)
        (Shifts-anyone up r u user _ _ (
          finalize_if_pending_keeps (λ t. Shifts up r u s.rows t.rows) u s
            (Shifts-refl up r u s.rows) up
            λ w. skip-Shifts up u s r w.row w.there w.waits expires w.shortlist))
]
  where
    r : WorkflowRequest
    r = finalize (some u)
