-- ===== src/Workflow/Requests.antt =====
-- The cases of the routes of workflow.controller.ts and decision.controller.ts, for a property that a
-- request keeps.
use gusto_backend.Common.{
  String, true, some, ◌≡◌, refl, subst, arith, inl, inr, Option-cases, Bool-cases,
}
use gusto_backend.Common.Dict.{lookup}
use gusto_backend.Common.Http.{Action, ◌>>=◌, ◌>>◌, pure, bind_keeps}
use gusto_backend.Hacker.Service.{OptimizedCart}
use gusto_backend.Workflow.Phase.{Phase, awaiting_approval, phase_eq}
use gusto_backend.Workflow.Service.State.{
  Workflow, WorkflowState, ShortlistState, Upstreams, Decision, dispatch_menu_notification,
}
use gusto_backend.Workflow.Service.{
  run_scout_phase, skip, handle_user_decision, finalize_if_pending, send_reminder_if_pending,
  decide, written, Answer, finalized, reminded,
}
use gusto_backend.Workflow.Api.{
  WorkflowRequest, scout_run, decision, notify_reminder, finalize, serve_workflow, parse_text,
  parse_scout_run, parse_decision,
}

awaits : (p : Phase) → phase_eq p awaiting_approval ≡ true → p ≡ awaiting_approval
awaits p e = ground arith

-- A row of the user that awaits approval, with its columns.
pub record Waiting (user : String) (s : Workflow) : Type 0 where
  pub row : WorkflowState
  pub shortlist : ShortlistState
  pub cart : OptimizedCart
  pub there : lookup user s.rows ≡ some row
  pub waits : row.phase ≡ awaiting_approval
  pub listed : row.shortlist ≡ some shortlist
  pub shown : row.optimized_cart ≡ some cart

module _ (P : Workflow → Type 0) (user : String) (s : Workflow) (h : P s) where
  written_keeps :
      (row : WorkflowState) (f : ShortlistState × OptimizedCart → Action Workflow Answer)
      → lookup user s.rows ≡ some row
      → row.phase ≡ awaiting_approval
      → ((w : Waiting user s) → w.row ≡ row → P (f (w.shortlist, w.cart) s).1)
      → P ((written row >>= f) s).1
  written_keeps row f there waits q = elim (Option-cases row.shortlist) [
    | inl l ↦ rw l h
    | inr (shortlist, l) ↦ elim (Option-cases row.optimized_cart) [
      | inl c ↦ rw (l, c) h
      | inr (cart, c) ↦
          rw (l, c)
            (q
              (record {
                row = row;
                shortlist = shortlist;
                cart = cart;
                there = there;
                waits = waits;
                listed = l;
                shown = c;
              })
              refl)
    ]
  ]

  pub handle_user_decision_keeps :
      (up : Upstreams) (made : Decision)
      → ((w : Waiting user s) → P (decide up user w.row (w.shortlist, w.cart) made s).1)
      → P (handle_user_decision up user made s).1
  unfolding handle_user_decision
  handle_user_decision_keeps up made q = elim (Option-cases (lookup user s.rows)) [
    | inl e ↦ rw (handle_user_decision, e) h
    | inr (row, e) ↦ elim (Bool-cases (phase_eq row.phase awaiting_approval)) [
      | inr w ↦ rw (handle_user_decision, e, w) h
      | inl w ↦
          rw (handle_user_decision, e, w)
            (written_keeps row (λ cols. decide up user row cols made) e (awaits row.phase w)
              λ found same.
                subst (λ r. P (decide up user r (found.shortlist, found.cart) made s).1) same
                  (q found))
    ]
  ]

  pub finalize_if_pending_keeps :
      (up : Upstreams)
      → ((w : Waiting user s) → P (skip up user w.shortlist s).1)
      → P (finalize_if_pending up user s).1
  unfolding finalize_if_pending
  finalize_if_pending_keeps up q = elim (Option-cases (lookup user s.rows)) [
    | inl e ↦ rw (finalize_if_pending, e) h
    | inr (row, e) ↦ elim (Bool-cases (phase_eq row.phase awaiting_approval)) [
      | inr w ↦ rw (finalize_if_pending, e, w) h
      | inl w ↦
          rw (finalize_if_pending, e, w)
            (written_keeps row (λ cols. skip up user cols.0 >> pure (finalized true)) e
              (awaits row.phase w)
              λ found same.
                bind_keeps P (skip up user found.shortlist) (λ a. pure (finalized true)) s (q found)
                  (λ a t k. k))
    ]
  ]

  pub send_reminder_if_pending_keeps :
      ((w : Waiting user s) → P (dispatch_menu_notification user w.cart s).1)
      → P (send_reminder_if_pending user s).1
  unfolding send_reminder_if_pending
  send_reminder_if_pending_keeps q = elim (Option-cases (lookup user s.rows)) [
    | inl e ↦ rw (send_reminder_if_pending, e) h
    | inr (row, e) ↦ elim (Bool-cases (phase_eq row.phase awaiting_approval)) [
      | inr w ↦ rw (send_reminder_if_pending, e, w) h
      | inl w ↦
          rw (send_reminder_if_pending, e, w)
            (written_keeps row
              (λ cols. dispatch_menu_notification user cols.1 >> pure (reminded true)) e
              (awaits row.phase w) λ found same. q found)
    ]
  ]

-- What holds behind each handler and was there before a body that is refused.
pub serve_workflow_keeps :
    (P : Workflow → Type 0) (up : Upstreams) (r : WorkflowRequest) (s : Workflow)
    → P s
    → ((user address restaurant : String) → P (run_scout_phase up user address restaurant s).1)
    → ((user : String) (made : Decision) → P (handle_user_decision up user made s).1)
    → ((user : String) → P (send_reminder_if_pending user s).1)
    → ((user : String) → P (finalize_if_pending up user s).1)
    → P (serve_workflow up r s).1
unfolding serve_workflow
serve_workflow_keeps P up (scout_run user address restaurant) s h run decide remind finish =
    elim (Option-cases (parse_scout_run user address restaurant)) [
      | inl e ↦ rw (serve_workflow, e) h
      | inr ((u, a, r), e) ↦ rw (serve_workflow, e) (run u a r)
    ]
serve_workflow_keeps P up (decision user made) s h run decide remind finish =
    elim (Option-cases (parse_decision user made)) [
      | inl e ↦ rw (serve_workflow, e) h
      | inr ((u, d), e) ↦ rw (serve_workflow, e) (decide u d)
    ]
serve_workflow_keeps P up (notify_reminder user) s h run decide remind finish =
    elim (Option-cases (parse_text user)) [
      | inl e ↦ rw (serve_workflow, e) h
      | inr (u, e) ↦ rw (serve_workflow, e) (remind u)
    ]
serve_workflow_keeps P up (finalize user) s h run decide remind finish =
    elim (Option-cases (parse_text user)) [
      | inl e ↦ rw (serve_workflow, e) h
      | inr (u, e) ↦ rw (serve_workflow, e) (finish u)
    ]
